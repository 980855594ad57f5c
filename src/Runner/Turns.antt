-- ===== src/Runner/Turns.antt =====
-- The order of what a runner of runner_cli.c does: it asks, waits for its turn, runs and reports.
use runner_orchestrator.Base.{
  ◌≡◌, refl, List, [], ◌∷◌, ◌++◌, Option, none, some, ℤ, pos, ℤ_discrete, ite, if_pos,
}
use runner_orchestrator.Protocol.{MsgType, submit, done, status_req, shutdown_req, RpcMessage}
use runner_orchestrator.Parser.{Text, ParsedCommand, Outcome, parsed, failed, endless, parser_parse}
use runner_orchestrator.Runner.{
  RunnerMode, runner_mode_execute, runner_mode_status, runner_mode_shutdown, RunnerRequest,
  runner_parse_args, RunnerEnv, RunnerEvent, fifo_removed, closed, sent, printed, executed,
  executing, finished, parse_failed, Run, send_to_controller, status_loop, runner_run_status,
  runner_run_shutdown, completion, run_parsed, first_ack, authorized, runner_run_execute,
  run_request, runner_main,
}
use runner_orchestrator.Runner.Traces.{
  after, after-append, status_loop-stays, send_to_controller-keep, with_open-keep, with_fifo-keep,
}

-- A runner has not asked for a command to run, has asked, has begun the command with an identifier, has run
-- its pipeline too or found that there is none, or has reported its end.
pub data Phase : Type 0 where
  idle asked reported : Phase
  begun ran : (command_id : ℤ) → Phase

abbrev pub report_of : (begun_id reported_id : ℤ) → Option Phase
report_of id id' = ite (ℤ_discrete id id') (some reported) none

-- What a message to the controller makes of the phase; `none` where it is out of place.
abbrev pub tell : Phase → MsgType → ℤ → Option Phase
tell idle submit command_id = some asked
tell idle status_req command_id = some idle
tell idle shutdown_req command_id = some idle
tell (begun id) done command_id = report_of id command_id
tell (ran id) done command_id = report_of id command_id
tell other type command_id = none

abbrev pub turn : Phase → RunnerEvent → Option Phase
turn phase (sent msg result) = tell phase msg.type msg.command_id
turn asked (executing command_id) = some (begun command_id)
turn phase (executing command_id) = none
turn (begun id) (executed cmd run) = some (ran id)
turn phase (executed cmd run) = none
turn (begun id) parse_failed = some (ran id)
turn phase parse_failed = none
turn reported (finished command_id) = some reported
turn phase (finished command_id) = none
turn idle (printed text) = some idle
turn phase (printed text) = none
turn phase other = some phase

-- Not in the middle of a command.
abbrev pub IsSettled : Option Phase → Type 0
IsSettled none = ⊥
IsSettled (some (begun id)) = ⊥
IsSettled (some (ran id)) = ⊥
IsSettled (some other) = Unit {0}

report_of-same : (id : ℤ) → report_of id id ≡ some reported
report_of-same id = if_pos (ℤ_discrete id id) refl (some reported) none

module _ (env : RunnerEnv) where
  runner_run_status-IsSettled : IsSettled (after turn idle (runner_run_status env).1)
  unfolding after runner_run_status
  runner_run_status-IsSettled =
      with_fifo-keep turn IsSettled env idle idle _ refl
        (send_to_controller-keep turn IsSettled env idle idle 0 _ _ _ refl tt (
          with_open-keep turn IsSettled env idle idle idle _ refl refl
            (rw
              (after-append turn idle idle (status_loop env.replies) (closed ∷ (fifo_removed ∷ []))
                (status_loop-stays turn idle (λ t. refl) env.replies))
              tt)
            tt))
        tt

  runner_run_shutdown-IsSettled : IsSettled (after turn idle (runner_run_shutdown env).1)
  unfolding after runner_run_shutdown
  runner_run_shutdown-IsSettled =
      with_fifo-keep turn IsSettled env idle idle _ refl
        (send_to_controller-keep turn IsSettled env idle idle 0 _ _ _ refl tt
          (with_open-keep turn IsSettled env idle idle idle _ refl refl tt tt))
        tt

  -- The last part of a run that was authorized.
  abbrev last_part : RpcMessage → Run
  last_part ack_msg =
      send_to_controller env 1 (completion env.pid ack_msg) (pos 1, closed ∷ (fifo_removed ∷ []))
        (pos 0, finished ack_msg.command_id ∷ (closed ∷ (fifo_removed ∷ [])))

  last_part-IsSettled :
      (ack_msg : RpcMessage) (phase : Phase)
      → tell phase done ack_msg.command_id ≡ some reported
      → IsSettled (after turn phase (last_part ack_msg).1)
  unfolding after
  last_part-IsSettled ack_msg phase e =
      send_to_controller-keep turn IsSettled env phase reported 1 _ _ _ e tt tt

  run_parsed-IsSettled :
      (ack_msg : RpcMessage) (o : Outcome ParsedCommand)
      → IsSettled
          (after turn (begun ack_msg.command_id) (run_parsed env o ++ (last_part ack_msg).1))
  unfolding after run_parsed
  run_parsed-IsSettled ack_msg (parsed cmd) =
      last_part-IsSettled ack_msg (ran ack_msg.command_id) (report_of-same ack_msg.command_id)
  run_parsed-IsSettled ack_msg failed =
      last_part-IsSettled ack_msg (ran ack_msg.command_id) (report_of-same ack_msg.command_id)
  run_parsed-IsSettled ack_msg endless =
      last_part-IsSettled ack_msg (begun ack_msg.command_id) (report_of-same ack_msg.command_id)

  authorized-IsSettled :
      (payload : Text) (reply : Option RpcMessage)
      → IsSettled (after turn asked (authorized env payload reply).1)
  unfolding after authorized
  authorized-IsSettled payload none = tt
  authorized-IsSettled payload (some ack_msg) =
      run_parsed-IsSettled ack_msg (parser_parse env.parsed_ok env.alloc (some payload))

  runner_run_execute-IsSettled :
      (user_id : ℤ) (command : Text)
      → IsSettled (after turn idle (runner_run_execute env user_id command).1)
  unfolding after runner_run_execute
  runner_run_execute-IsSettled user_id command =
      with_fifo-keep turn IsSettled env idle idle _ refl
        (send_to_controller-keep turn IsSettled env idle asked 0 _ _ _ refl tt (
          with_open-keep turn IsSettled env asked asked asked _ refl refl
            (authorized-IsSettled _ (first_ack env.replies)) tt))
        tt

  chosen-IsSettled :
      (mode : RunnerMode) (user_id : ℤ) (command : Option Text)
      → IsSettled (
          after turn idle
            (run_request env
              (some (record { mode = mode; user_id = user_id; command = command }))).1)
  unfolding after run_request
  chosen-IsSettled runner_mode_status user_id command = runner_run_status-IsSettled
  chosen-IsSettled runner_mode_shutdown user_id command = runner_run_shutdown-IsSettled
  chosen-IsSettled runner_mode_execute user_id none = tt
  chosen-IsSettled runner_mode_execute user_id (some command) =
      runner_run_execute-IsSettled user_id command

  run_request-IsSettled :
      (request : Option RunnerRequest) → IsSettled (after turn idle (run_request env request).1)
  unfolding after run_request
  run_request-IsSettled none = tt
  run_request-IsSettled (some request) =
      chosen-IsSettled request.mode request.user_id request.command

-- Whatever its arguments are and whichever calls fail, a runner begins a command only after it has tried to
-- send a SUBMIT, runs at most one pipeline and only then, and before its end tries to send exactly one DONE
-- with the identifier of the command that it began, whether the text was parsed or not; it prints texts of a
-- status only if it submitted nothing.
pub runner_main-IsSettled :
    (atoi : Text → ℤ) (env : RunnerEnv) (argv : List Text)
    → IsSettled (after turn idle (runner_main atoi env argv).1)
unfolding runner_main
runner_main-IsSettled atoi env argv = run_request-IsSettled env (runner_parse_args atoi argv)
