-- ===== src/Tests/Runners.antt =====
-- A runner whose calls succeed, in its modes.
use runner_orchestrator.Base.{
  ◌≡◌, refl, true, List, [], ◌∷◌, ◌++◌, map, some, ℤ, pos, ℤ_discrete, arith,
}
use runner_orchestrator.Protocol.{RpcMessage, ack}
use runner_orchestrator.Parser.{Text}
use runner_orchestrator.Parser.Pipeline.{print_pipeline}
use runner_orchestrator.Scheduler.Fair.{user_exists}
use runner_orchestrator.Controller.Status.{fair_name, status_line, executing_text, scheduled_text}
use runner_orchestrator.Controller.Status.Report.{expected}
use runner_orchestrator.Controller.Messages.{controller_handle_message}
use runner_orchestrator.Ipc.{created, ipc_create_fifo, ipc_send_atomic}
use runner_orchestrator.Runner.{option_c, option_e, RunnerEnv, status_request, runner_main}
use runner_orchestrator.Runner.Command.{Works, full_run, runner_main-print_pipeline}
use runner_orchestrator.Runner.Report.{delivered, texts, runner_main-status}
use runner_orchestrator.Runner.Tidy.{nothing, holds_after, runner_main-nothing}
use runner_orchestrator.Runner.Traces.{after}
use runner_orchestrator.Runner.Turns.{idle, turn, IsSettled, runner_main-IsSettled}
use runner_orchestrator.Tests.{quiet, busy_state, message}
use runner_orchestrator.Tests.Commands.{two_stages, two_stages-AllPrintable}
use runner_orchestrator.Tests.Pipelines.{above, terminal, smooth}
use runner_orchestrator.Tests.Reports.{quiet-Answers}

abbrev runner_env : List RpcMessage → RunnerEnv
runner_env replies = record {
  pid = pos 700;
  mkfifo = created;
  send = λ _. record { opens = true; written = pos 504; closes = true };
  open_ok = true;
  replies = replies;
  parsed_ok = true;
  alloc = λ _. true;
  fresh = above;
  exec = smooth;
  table = terminal;
}

runner_env-Works : (replies : List RpcMessage) → Works (runner_env replies)
unfolding ipc_create_fifo ipc_send_atomic
runner_env-Works replies = record {
  creates = refl;
  sends = λ _. refl;
  opens = refl;
  parses = refl;
  allocates = refl;
}

-- A library that reads every number as 2.
abbrev two_of : Text → ℤ
two_of _ = pos 2

abbrev go_ahead : RpcMessage
go_ahead = message ack 99 2 700

abbrev run_arguments : List Text
run_arguments = (b'r' ∷ []) ∷ (option_e ∷ ((b'2' ∷ []) ∷ (print_pipeline two_stages ∷ [])))

runner_main-print_pipeline_example :
    runner_main two_of (runner_env (go_ahead ∷ [])) run_arguments ≡ (
      pos 0,
      full_run
          (runner_env (go_ahead ∷ []))
          (pos 2)
          (print_pipeline two_stages)
          go_ahead
          (record { stages = two_stages }),
    )
runner_main-print_pipeline_example =
    runner_main-print_pipeline two_of (runner_env (go_ahead ∷ [])) (b'r' ∷ []) (b'2' ∷ [])
      two_stages go_ahead [] (runner_env-Works (go_ahead ∷ [])) two_stages-AllPrintable
      (omega arith) (omega arith) refl refl

runner_main-nothing_example :
    holds_after nothing (runner_main two_of (runner_env (go_ahead ∷ [])) run_arguments).1
    ≡ some nothing
runner_main-nothing_example = runner_main-nothing two_of (runner_env (go_ahead ∷ [])) run_arguments

runner_main-IsSettled_example :
    IsSettled (after turn idle (runner_main two_of (runner_env (go_ahead ∷ [])) run_arguments).1)
runner_main-IsSettled_example =
    runner_main-IsSettled two_of (runner_env (go_ahead ∷ [])) run_arguments

abbrev report_replies : List RpcMessage
report_replies =
    delivered (pos 700)
      (controller_handle_message quiet (busy_state fair_name) (status_request (pos 700))).1

runner_main-status_example :
    texts (runner_main two_of (runner_env report_replies) ((b'r' ∷ []) ∷ (option_c ∷ []))).1
    ≡ executing_text
      ∷ (map status_line (busy_state fair_name).running_queue
          ++ (scheduled_text ∷ map status_line (expected (busy_state fair_name))))
unfolding user_exists ℤ_discrete
runner_main-status_example =
    runner_main-status two_of (runner_env report_replies) (b'r' ∷ []) quiet (busy_state fair_name)
      (runner_env-Works report_replies) quiet-Answers refl refl
