-- ===== src/Tests/Messages.antt =====
-- The handlers, on states with three jobs that wait.
use runner_orchestrator.Base.{
  ◌≡◌, ◌+◌, refl, ◌≤◌, true, not, ◌&&◌, List, [], ◌∷◌, ◌++◌, length, take, pos, ℕ, arith, ◌⊎◌, ◌<◌,
  inr, ℤ_discrete, ℕ_discrete,
}
use runner_orchestrator.Protocol.{RpcMessage, submit, done}
use runner_orchestrator.Scheduler.Jobs.FairOrder.{fair_order}
use runner_orchestrator.Scheduler.Jobs.{enqueue, remove_first, remove_by_command_id}
use runner_orchestrator.Controller.State.{ControllerState, Env}
use runner_orchestrator.Controller.Status.{same_text, fair_name, is_fair_policy}
use runner_orchestrator.Controller.Handlers.{
  handle_submit, place_job, submitted_job, remember_fair_user, start_waiting_jobs, start_loop,
  finish_job, handle_done, try_finish_shutdown,
}
use runner_orchestrator.Controller.Messages.{dispatch, controller_handle_message, serve}
use runner_orchestrator.Controller.Invariant.{IsValid}
use runner_orchestrator.Controller.Invariant.Keep.{
  remember_fair_user-room, controller_handle_message-IsValid,
}
use runner_orchestrator.Controller.Configure.{controller_configure, serve-IsValid_from_start}
use runner_orchestrator.Controller.Conservation.{
  HasMemory, count_in, count_of, held, taken_away, brought, controller_handle_message-held,
}
use runner_orchestrator.Controller.Load.{ended}
use runner_orchestrator.Controller.Drain.{Draining, serve-drains}
use runner_orchestrator.Scheduler.Job.{job_running}
use runner_orchestrator.Controller.Order.{all_running}
use runner_orchestrator.Controller.Order.Policies.{start_waiting_jobs-fcfs, start_waiting_jobs-fair}
use runner_orchestrator.Controller.Shutdown.{
  is_refused, is_over, Stopped, controller_handle_message-stop, controller_handle_message-Stopped,
}
use runner_orchestrator.Scheduler.Fair.{user_exists}
use runner_orchestrator.Scheduler.Jobs.Starvation.{has_job}
use runner_orchestrator.Controller.Remembered.Turns.{acked, FairMemory}
use runner_orchestrator.Controller.Remembered.Starvation.{serve-acked}
use runner_orchestrator.Tests.{
  job_of, quiet, busy_state, busy_state-IsValid, last_state, last_state-IsValid, free_state,
  message,
}

-- `controller 2 fair`, for a library that reads every number as 2.
abbrev pub fair_arguments : List (List ℕ)
fair_arguments = (b'c' ∷ []) ∷ (b'2' ∷ []) ∷ fair_name ∷ []

abbrev three_messages : List (Env × RpcMessage)
three_messages =
    (quiet, message submit 501 1 1)
    ∷ (quiet, message submit 502 2 2)
    ∷ (quiet, message done 501 1 1)
    ∷ []

serve-IsValid_from_start_example :
    IsValid (serve (controller_configure (λ _. pos 2) fair_arguments) three_messages).0
serve-IsValid_from_start_example =
    serve-IsValid_from_start (λ _. pos 2) fair_arguments three_messages

controller_handle_message-IsValid_example :
    IsValid (controller_handle_message quiet (busy_state fair_name) (message done 510 1 10)).0
controller_handle_message-IsValid_example =
    controller_handle_message-IsValid quiet (busy_state fair_name) (message done 510 1 10)
      busy_state-IsValid

start_waiting_jobs-fair_example :
    (start_waiting_jobs quiet (free_state fair_name)).0.running_queue
    ≡ []
      ++ all_running
          (fair_order 2 (pos 1 ∷ pos 2 ∷ []) (pos 1) (free_state fair_name).waiting_queue)
unfolding is_fair_policy same_text
start_waiting_jobs-fair_example =
    start_waiting_jobs-fair quiet (free_state fair_name) refl (λ _. refl) (λ _. refl)

start_waiting_jobs-fcfs_example :
    (start_waiting_jobs quiet (free_state [])).0.running_queue
    ≡ [] ++ all_running (take 2 (free_state []).waiting_queue)
unfolding is_fair_policy same_text
start_waiting_jobs-fcfs_example =
    start_waiting_jobs-fcfs quiet (free_state []) refl refl (λ _. refl)

controller_handle_message-stop_example :
    (controller_handle_message quiet last_state (message done 510 1 10)).2 ≡ (
      not (is_refused last_state (message done 510 1 10))
      && is_over (controller_handle_message quiet last_state (message done 510 1 10)).0)
controller_handle_message-stop_example =
    controller_handle_message-stop quiet last_state (message done 510 1 10) last_state-IsValid

controller_handle_message-Stopped_example :
    Stopped (controller_handle_message quiet last_state (message done 510 1 10))
unfolding controller_handle_message try_finish_shutdown handle_done start_waiting_jobs start_loop
    finish_job remove_by_command_id remove_first ℤ_discrete ℕ_discrete
controller_handle_message-Stopped_example =
    controller_handle_message-Stopped quiet last_state (message done 510 1 10) last_state-IsValid
      refl

remember_fair_user-room_example :
    length (remember_fair_user true (busy_state []) (pos 3)).fair_users
    ≤ (remember_fair_user true (busy_state []) (pos 3)).fair_user_capacity
remember_fair_user-room_example = remember_fair_user-room true (busy_state []) (pos 3) (omega arith)

quiet-HasMemory : HasMemory quiet
quiet-HasMemory = record { node = refl; nodes = λ _. refl }

controller_handle_message-held_example :
    held (pos 10) (controller_handle_message quiet (busy_state fair_name) (message done 510 1 10)).0
      + taken_away (pos 10) (busy_state fair_name) (message done 510 1 10)
    ≡ held (pos 10) (busy_state fair_name)
      + brought (pos 10) (busy_state fair_name) (message done 510 1 10)
controller_handle_message-held_example =
    controller_handle_message-held (pos 10) quiet (busy_state fair_name) (message done 510 1 10)
      quiet-HasMemory

-- Two jobs run and three wait while the controller shuts down.
abbrev draining_state : ControllerState
draining_state = record (busy_state fair_name) {
  parallel_limit = 2;
  running_count = 2;
  is_shutting_down = true;
  running_queue = job_of 9 2 job_running ∷ job_of 10 1 job_running ∷ [];
}

draining_state-IsValid : IsValid draining_state
draining_state-IsValid = record {
  base = record {
    counted = refl;
    slots = omega arith;
    bounded = omega arith;
    room = omega arith;
    running = (refl, (refl, tt));
    waiting = (refl, (refl, (refl, tt)));
  };
  busy = inr refl;
}

-- The second of the running jobs ends before the first.
abbrev two_ends : List (Env × RpcMessage)
two_ends = (quiet, message done 510 1 10) ∷ ((quiet, message done 509 2 9) ∷ [])

-- A DONE counts wherever its job stands in the running queue.
second_counts : ended draining_state ((quiet, message done 510 1 10) ∷ []) ≡ 1
unfolding ended count_in count_of ℤ_discrete ℕ_discrete
second_counts = refl

serve-drains_example :
    Draining draining_state (serve draining_state two_ends).0 (ended draining_state two_ends)
serve-drains_example =
    serve-drains draining_state two_ends (quiet-HasMemory, (quiet-HasMemory, tt))
      draining_state-IsValid refl refl refl

-- Two jobs of user 1 take the slots of `controller 2 fair`, and one of user 2 waits.
abbrev three_submissions : List (Env × RpcMessage)
three_submissions =
    (quiet, message submit 501 1 1)
    ∷ ((quiet, message submit 502 1 2) ∷ ((quiet, message submit 503 2 3) ∷ []))

abbrev full_state : ControllerState
full_state = (serve (controller_configure (λ _. pos 2) fair_arguments) three_submissions).0

user_2_waits : has_job full_state.waiting_queue (pos 2) ≡ true
unfolding controller_configure serve controller_handle_message dispatch handle_submit place_job
    submitted_job remember_fair_user enqueue try_finish_shutdown user_exists ℤ_discrete ℕ_discrete
user_2_waits = refl

full_state-fair : is_fair_policy full_state ≡ true
unfolding controller_configure serve controller_handle_message dispatch handle_submit place_job
    submitted_job remember_fair_user enqueue try_finish_shutdown user_exists ℤ_discrete ℕ_discrete
    is_fair_policy same_text
full_state-fair = refl

-- A new user submits a job, then a job ends.
abbrev two_more : List (Env × RpcMessage)
two_more = (quiet, message submit 504 3 4) ∷ ((quiet, message done 501 1 1) ∷ [])

quiet-FairMemory : FairMemory quiet
quiet-FairMemory = record { realloc = refl; users = λ _. refl; nodes = λ _. refl }

serve-acked_example :
    (acked (pos 2) (serve full_state two_more).1 ≡ true)
    ⊎ (ended full_state two_more < length (serve full_state two_more).0.fair_users)
serve-acked_example =
    serve-acked (λ _. pos 2) fair_arguments three_submissions two_more (pos 2)
      (refl, (refl, (refl, tt))) (quiet-FairMemory, (quiet-FairMemory, tt)) full_state-fair
      user_2_waits
