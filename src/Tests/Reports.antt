-- ===== src/Tests/Reports.antt =====
-- The report on a state with one running job and three that wait.
use runner_orchestrator.Base.{◌≡◌, refl, [], ◌∷◌, ◌++◌, map, pos, ℤ_discrete}
use runner_orchestrator.Protocol.{status_req}
use runner_orchestrator.Scheduler.Fair.{user_exists}
use runner_orchestrator.Controller.State.{written}
use runner_orchestrator.Controller.Status.{
  fair_name, executing_text, scheduled_text, status_message, end_message, handle_status_req,
}
use runner_orchestrator.Controller.Status.Report.{Answers, lines, expected, handle_status_req-lines}
use runner_orchestrator.Tests.{quiet, busy_state, message}

pub quiet-Answers : Answers quiet
quiet-Answers = record {
  run = refl;
  wait = refl;
  arrays = refl;
  users = λ _. refl;
  opens = refl;
  writes = λ _. refl;
}

handle_status_req-lines_example :
    handle_status_req quiet (busy_state fair_name) (message status_req 700 1 0)
    ≡ written (pos 700) (status_message quiet executing_text)
      ∷ (map (written (pos 700)) (lines quiet (busy_state fair_name).running_queue)
          ++ (written (pos 700) (status_message quiet scheduled_text)
              ∷ (map (written (pos 700)) (lines quiet (expected (busy_state fair_name)))
                  ++ (written (pos 700) (end_message quiet) ∷ []))))
unfolding user_exists ℤ_discrete
handle_status_req-lines_example =
    handle_status_req-lines quiet (busy_state fair_name) (message status_req 700 1 0) quiet-Answers
      refl
