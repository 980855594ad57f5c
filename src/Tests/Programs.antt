-- ===== src/Tests/Programs.antt =====
-- The controller's program on two sessions of its FIFO, and its queues at the end.
use runner_orchestrator.Base.{◌≡◌, refl, true, [], ◌∷◌, ◌++◌, some, pos, arith}
use runner_orchestrator.Protocol.{submit, done, shutdown_req}
use runner_orchestrator.Store.{Heap, node, write, Ends}
use runner_orchestrator.Store.Cells.{Cells, Apart}
use runner_orchestrator.Scheduler.Job.{job_running}
use runner_orchestrator.Scheduler.Queue.{JobQueue}
use runner_orchestrator.Scheduler.Queue.Chain.{IsQueue}
use runner_orchestrator.Scheduler.Queue.Traverse.{Freed}
use runner_orchestrator.Ipc.{exists, ipc_create_fifo}
use runner_orchestrator.Controller.Messages.{serve}
use runner_orchestrator.Controller.Configure.{controller_configure}
use runner_orchestrator.Controller.Queues.{
  Resources, no_resources, controller_destroy_queues, controller_destroy_queues-Freed,
}
use runner_orchestrator.Controller.Main.{MainEnv, session, controller_main}
use runner_orchestrator.Controller.Main.Loops.{Agrees, all_messages, controller_main-serve}
use runner_orchestrator.Tests.{quiet, message, job_of, two_nodes, two_cells, two_queued}
use runner_orchestrator.Tests.Messages.{fair_arguments}

-- A job from start to end, and then the request to stop.
abbrev two_sessions : MainEnv
two_sessions = record {
  waiting_ok = true;
  running_ok = true;
  mkfifo = exists;
  sessions =
      session ((quiet, message submit 501 1 1) ∷ ((quiet, message done 501 1 1) ∷ []))
      ∷ (session ((quiet, message shutdown_req 600 0 0) ∷ []) ∷ []);
}

controller_main-serve_example :
    Agrees
      (controller_main (λ _. pos 2) two_sessions fair_arguments)
      (serve
        (controller_configure (λ _. pos 2) fair_arguments)
        (all_messages two_sessions.sessions))
      two_sessions.sessions
unfolding ipc_create_fifo
controller_main-serve_example =
    controller_main-serve (λ _. pos 2) two_sessions fair_arguments refl refl refl

-- A third node, for the other queue.
abbrev pub three_nodes : Heap
three_nodes = write two_nodes 3 (some (node (job_of 10 1 job_running) 0))

abbrev pub one_cell : Cells
one_cell = (3, job_of 10 1 job_running) ∷ []

abbrev pub one_running : JobQueue
one_running = record { head = 3; tail = 3; size = 1 }

pub waiting-IsQueue : IsQueue three_nodes two_queued two_cells
unfolding write
waiting-IsQueue = record {
  linked = (refl, refl, (refl, refl, tt));
  distinct = (refl, (refl, tt));
  head = refl;
  tail = refl;
  size = refl;
}

pub running-IsQueue : IsQueue three_nodes one_running one_cell
unfolding write
running-IsQueue = record {
  linked = (refl, refl, tt);
  distinct = (refl, tt);
  head = refl;
  tail = refl;
  size = refl;
}

pub cells-Apart : Apart two_cells one_cell
cells-Apart a h = ground (arith, h)

abbrev both_queues : Resources
both_queues = record {
  waiting_queue = some two_queued;
  running_queue = some one_running;
  fair_users = pos 1 ∷ [];
  fair_user_capacity = 8;
}

controller_destroy_queues-Freed_example :
    Ends
      (λ left g. (left ≡ no_resources) × Freed (two_cells ++ one_cell) three_nodes g)
      (controller_destroy_queues both_queues three_nodes)
controller_destroy_queues-Freed_example =
    controller_destroy_queues-Freed three_nodes both_queues two_queued one_running two_cells
      one_cell refl refl waiting-IsQueue running-IsQueue cells-Apart
