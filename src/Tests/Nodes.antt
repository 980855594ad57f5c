-- ===== src/Tests/Nodes.antt =====
-- The controller with a `malloc` for nodes, on a run from start to end and on one message.
use runner_orchestrator.Base.{
  ℕ, ◌+◌, refl, true, false, [], ◌∷◌, Option-cases, none, some, inl, inr, arith, negsuc,
}
use runner_orchestrator.Protocol.{submit, done, shutdown_req}
use runner_orchestrator.Store.{write, null, Ends}
use runner_orchestrator.Controller.Status.{fair_name}
use runner_orchestrator.Controller.Linked.{
  PointerState, Malloc, view, lifetime, controller_handle_message_heap,
}
use runner_orchestrator.Controller.Linked.Views.{Shows, IsMalloc}
use runner_orchestrator.Controller.Linked.Two.{Two}
use runner_orchestrator.Controller.Linked.Messages.{Handles, controller_handle_message_heap-Handles}
use runner_orchestrator.Controller.Linked.Messages.Served.{Inputs, Lives, lifetime-Lives}
use runner_orchestrator.Store.Cells.{jobs}
use runner_orchestrator.Tests.Programs.{
  three_nodes, one_cell, one_running, waiting-IsQueue, running-IsQueue, cells-Apart,
}
use runner_orchestrator.Tests.{quiet, message, two_cells, two_queued}

-- The address `n`, while no node stands there.
abbrev only_at : ℕ → Malloc
only_at n i h = elim (h (n + i)) [ none ↦ n + i | some j ↦ null ]

only_at-IsMalloc : (n : ℕ) → IsMalloc (only_at n)
only_at-IsMalloc n i h ne = elim (Option-cases (h (n + i))) [
  | inl unused ↦ rw (unused, only_at) unused
  | inr (j, used) ↦ absurd (cc (rw (used, only_at) at ne))
]

-- One slot, and the fair policy.
abbrev one_slot : PointerState
one_slot = record {
  parallel_limit = 1;
  running_count = 0;
  keep_running = true;
  is_shutting_down = false;
  shutdown_requester_pid = negsuc 0;
  last_scheduled_user = negsuc 0;
  fair_users = [];
  fair_user_capacity = 0;
  waiting_queue = none;
  running_queue = none;
  policy = fair_name;
}

-- Two jobs, of which the second waits, their ends, and the request to stop.
abbrev two_jobs : Inputs
two_jobs =
    (quiet, only_at 1, message submit 501 1 1)
    ∷ (quiet, only_at 2, message submit 502 2 2)
    ∷ (quiet, only_at 3, message done 501 1 1)
    ∷ (quiet, only_at 1, message done 502 2 2)
    ∷ (quiet, only_at 1, message shutdown_req 600 0 0)
    ∷ []

lifetime-Lives_example :
    Ends (Lives (λ _. none) one_slot two_jobs) (lifetime one_slot two_jobs (λ _. none))
lifetime-Lives_example =
    lifetime-Lives (λ _. none) one_slot two_jobs
      (
        only_at-IsMalloc 1,
        (only_at-IsMalloc 2, (only_at-IsMalloc 3, (only_at-IsMalloc 1, (only_at-IsMalloc 1, tt)))),
      )

-- A job that runs, and two that wait.
abbrev one_slot_taken : PointerState
one_slot_taken = record one_slot {
  running_count = 1;
  waiting_queue = some two_queued;
  running_queue = some one_running;
}

nodes-Two : Two (λ _. none) three_nodes (some two_queued) (some one_running) two_cells one_cell
unfolding write
nodes-Two = record {
  first = waiting-IsQueue;
  second = running-IsQueue;
  apart = cells-Apart;
  new_first = λ a o. refl;
  new_second = λ a o. refl;
  others = λ a o o'. ground (arith, o, o');
}

abbrev nodes-Shows :
    Shows
      (λ _. none)
      three_nodes
      one_slot_taken
      (view one_slot_taken (jobs two_cells) (jobs one_cell))
nodes-Shows = record { waiting = two_cells; running = one_cell; two = nodes-Two; same = refl }

-- The end of the job that runs.
controller_handle_message_heap-Handles_example :
    Ends
      (Handles
        (λ _. none)
        quiet
        (view one_slot_taken (jobs two_cells) (jobs one_cell))
        (message done 510 1 10))
      (controller_handle_message_heap quiet
        (only_at 4)
        one_slot_taken
        (message done 510 1 10)
        three_nodes)
controller_handle_message_heap-Handles_example =
    controller_handle_message_heap-Handles (λ _. none) quiet (only_at 4) (only_at-IsMalloc 4)
      three_nodes one_slot_taken (view one_slot_taken (jobs two_cells) (jobs one_cell))
      (message done 510 1 10) nodes-Shows
