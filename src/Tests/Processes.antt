-- ===== src/Tests/Processes.antt =====
-- One slot and two runners: the first one executes, and the other's job waits.
use runner_orchestrator.Base.{
  ℕ, ◌≤◌, ◌≡◌, refl, Bool, true, false, List, [], ◌∷◌, ℤ, pos, ℤ_discrete, ℕ_discrete,
}
use runner_orchestrator.Protocol.{RpcMessage, ack}
use runner_orchestrator.Scheduler.Fair.{user_exists}
use runner_orchestrator.Scheduler.Jobs.{enqueue}
use runner_orchestrator.Controller.State.{ControllerState}
use runner_orchestrator.Controller.Handlers.{
  remember_fair_user, handle_submit, place_job, submitted_job, send_ack_to_runner,
  try_finish_shutdown, handle_shutdown_req,
}
use runner_orchestrator.Controller.Messages.{dispatch, controller_handle_message}
use runner_orchestrator.Controller.Configure.{controller_configure, limit_of}
use runner_orchestrator.Controller.Conservation.{count_of, count_in}
use runner_orchestrator.Runner.{submission, shutdown_request}
use runner_orchestrator.System.{
  waiting, executing, System, posted, receive, submits, asks_shutdown, handles, reads_reply, Reach,
  started, stepped,
}
use runner_orchestrator.System.Accounts.{in_runners, outstanding}
use runner_orchestrator.System.Reachable.{
  at_most_limit, executing_in_queue, running_count-outstanding, stopped-outstanding,
}
use runner_orchestrator.Tests.{quiet, message}

-- `controller 1`
abbrev one_slot : List (List ℕ)
one_slot = (b'c' ∷ []) ∷ ((b'1' ∷ []) ∷ [])

abbrev one_of : List ℕ → ℤ
one_of _ = pos 1

abbrev first : RpcMessage
first = submission (pos 500) (pos 1) (b'l' ∷ (b's' ∷ []))

abbrev second : RpcMessage
second = submission (pos 501) (pos 2) (b'w' ∷ [])

abbrev after_first : ControllerState
after_first = (controller_handle_message quiet (controller_configure one_of one_slot) first).0

abbrev granted_first : RpcMessage
granted_first = message ack 99 1 500

abbrev crowded : System
crowded = record {
  controller = (controller_handle_message quiet after_first second).0;
  server = [];
  mail = [];
  runners = executing (pos 500) granted_first ∷ (waiting (pos 501) ∷ []);
}

crowded-Reach : (faults : Bool) → Reach faults one_of one_slot crowded
unfolding controller_configure controller_handle_message dispatch handle_submit place_job
    submitted_job remember_fair_user user_exists enqueue try_finish_shutdown posted receive
    send_ack_to_runner ℤ_discrete ℕ_discrete
crowded-Reach faults =
    stepped
      (stepped
        (stepped
          (stepped (stepped started (submits (pos 500) (pos 1) (b'l' ∷ (b's' ∷ []))))
            (submits (pos 501) (pos 2) (b'w' ∷ [])))
          (handles quiet first (second ∷ []) refl refl))
        (handles quiet second [] refl refl))
      (reads_reply (pos 500) [] (waiting (pos 501) ∷ []) granted_first [] refl refl)

at_most_limit_example : in_runners (λ _. 1) crowded.runners ≤ limit_of one_of one_slot
at_most_limit_example = at_most_limit (crowded-Reach true)

executing_in_queue_example :
    outstanding (count_of (pos 500)) crowded ≤ count_in (pos 500) crowded.controller.running_queue
executing_in_queue_example = executing_in_queue (crowded-Reach true) (pos 500)

running_count-outstanding_example : crowded.controller.running_count ≡ outstanding (λ _. 1) crowded
running_count-outstanding_example = running_count-outstanding (crowded-Reach false)

-- After a request to stop while no job is there.
abbrev stopped : System
stopped = record {
  controller =
      (controller_handle_message quiet (controller_configure one_of one_slot)
        (shutdown_request (pos 600))).0;
  server = [];
  mail =
      posted
        (controller_handle_message quiet (controller_configure one_of one_slot)
          (shutdown_request (pos 600))).1;
  runners = [];
}

stopped-Reach : Reach true one_of one_slot stopped
unfolding controller_configure
stopped-Reach =
    stepped (stepped started (asks_shutdown (pos 600)))
      (handles quiet (shutdown_request (pos 600)) [] refl refl)

stopped-off : stopped.controller.keep_running ≡ false
unfolding controller_configure controller_handle_message dispatch handle_shutdown_req
    try_finish_shutdown
stopped-off = refl

stopped-outstanding_example :
    (outstanding (λ _. 1) stopped ≡ 0) × (stopped.controller.waiting_queue ≡ [])
stopped-outstanding_example = stopped-outstanding stopped-Reach stopped-off
