-- ===== src/Runner/Tidy.antt =====
-- The private FIFO of a runner over a whole run, on every path of runner_cli.c.
use runner_orchestrator.Base.{◌≡◌, refl, ◌∙◌, List, [], ◌∷◌, Option, none, some, ℤ}
use runner_orchestrator.Protocol.{RpcMessage}
use runner_orchestrator.Parser.{Text, ParsedCommand, Outcome, parsed, failed, endless, parser_parse}
use runner_orchestrator.Runner.{
  RunnerMode, runner_mode_execute, runner_mode_status, runner_mode_shutdown, RunnerRequest,
  runner_parse_args, RunnerEnv, RunnerEvent, fifo_created, fifo_removed, opened, closed, sent,
  printed, executed, submitted, executing, finished, parse_failed, no_ack, shutdown_sent,
  controller_exited, status_loop, runner_run_status, runner_run_shutdown, run_parsed, run_command,
  first_ack, authorized, runner_run_execute, run_request, runner_main,
}
use runner_orchestrator.Runner.Traces.{
  after, after-append, status_loop-stays, send_to_controller-keep, with_open-keep, with_fifo-keep,
}

-- What a runner holds: nothing, its FIFO, or its FIFO and an open descriptor of it.
pub data Held : Type 0 where
  nothing fifo reader : Held

-- What it holds after an event; `none` where the event is out of place.
abbrev pub next : Held → RunnerEvent → Option Held
next nothing fifo_created = some fifo
next fifo opened = some reader
next reader closed = some fifo
next fifo fifo_removed = some nothing
next fifo (sent msg result) = some fifo
next reader (sent msg result) = some reader
next fifo (submitted command_id) = some fifo
next fifo shutdown_sent = some fifo
next reader (printed text) = some reader
next reader (executed cmd run) = some reader
next reader parse_failed = some reader
next reader no_ack = some reader
next reader (executing command_id) = some reader
next reader (finished command_id) = some reader
next reader controller_exited = some reader
next other event = none

abbrev pub holds_after : Held → List RunnerEvent → Option Held
holds_after = after next

run_parsed-reader :
    (env : RunnerEnv) (o : Outcome ParsedCommand)
    → holds_after reader (run_parsed env o) ≡ some reader
unfolding after run_parsed
run_parsed-reader env (parsed cmd) = refl
run_parsed-reader env failed = refl
run_parsed-reader env endless = refl

-- What is left to show at each step of a run.
abbrev IsNothing : Option Held → Type 0
IsNothing h = h ≡ some nothing

module _ (env : RunnerEnv) where
  runner_run_status-IsNothing : IsNothing (holds_after nothing (runner_run_status env).1)
  unfolding after runner_run_status
  runner_run_status-IsNothing =
      with_fifo-keep next IsNothing env nothing fifo _ refl
        (send_to_controller-keep next IsNothing env fifo fifo 0 _ _ _ refl refl (
          with_open-keep next IsNothing env fifo reader nothing _ refl refl
            (after-append next reader reader (status_loop env.replies)
              (closed ∷ (fifo_removed ∷ []))
              (status_loop-stays next reader (λ t. refl) env.replies))
            refl))
        refl

  runner_run_shutdown-IsNothing : IsNothing (holds_after nothing (runner_run_shutdown env).1)
  unfolding after runner_run_shutdown
  runner_run_shutdown-IsNothing =
      with_fifo-keep next IsNothing env nothing fifo _ refl
        (send_to_controller-keep next IsNothing env fifo fifo 0 _ _ _ refl refl
          (with_open-keep next IsNothing env fifo reader nothing _ refl refl refl refl))
        refl

  authorized-IsNothing :
      (payload : Text) (reply : Option RpcMessage)
      → IsNothing (holds_after reader (authorized env payload reply).1)
  unfolding after authorized
  authorized-IsNothing payload none = refl
  authorized-IsNothing payload (some ack_msg) =
      after-append next reader reader (run_command env payload) _
        (run_parsed-reader env (parser_parse env.parsed_ok env.alloc (some payload)))
      ∙ send_to_controller-keep next IsNothing env reader reader 1 _ _ _ refl refl refl

  runner_run_execute-IsNothing :
      (user_id : ℤ) (command : Text)
      → IsNothing (holds_after nothing (runner_run_execute env user_id command).1)
  unfolding after runner_run_execute
  runner_run_execute-IsNothing user_id command =
      with_fifo-keep next IsNothing env nothing fifo _ refl
        (send_to_controller-keep next IsNothing env fifo fifo 0 _ _ _ refl refl (
          with_open-keep next IsNothing env fifo reader nothing _ refl refl
            (authorized-IsNothing _ (first_ack env.replies)) refl))
        refl

  chosen-nothing :
      (mode : RunnerMode) (user_id : ℤ) (command : Option Text)
      → holds_after nothing
          (run_request env (some (record { mode = mode; user_id = user_id; command = command }))).1
        ≡ some nothing
  unfolding after run_request
  chosen-nothing runner_mode_status user_id command = runner_run_status-IsNothing
  chosen-nothing runner_mode_shutdown user_id command = runner_run_shutdown-IsNothing
  chosen-nothing runner_mode_execute user_id none = refl
  chosen-nothing runner_mode_execute user_id (some command) =
      runner_run_execute-IsNothing user_id command

  run_request-nothing :
      (request : Option RunnerRequest)
      → holds_after nothing (run_request env request).1 ≡ some nothing
  unfolding after run_request
  run_request-nothing none = refl
  run_request-nothing (some request) = chosen-nothing request.mode request.user_id request.command

-- Whatever its arguments are and whichever calls fail, a runner removes the FIFO that it creates, opens it at
-- most while it exists, closes it before it removes it, reads, runs and prints only while it is open, and
-- holds neither at its end.
pub runner_main-nothing :
    (atoi : Text → ℤ) (env : RunnerEnv) (argv : List Text)
    → holds_after nothing (runner_main atoi env argv).1 ≡ some nothing
unfolding after runner_main
runner_main-nothing atoi env argv = run_request-nothing env (runner_parse_args atoi argv)
