-- ===== src/Runner.antt =====
-- src/runner/runner_cli.c and src/runner/runner.c: the three modes of the runner. A run is its exit status
-- and what it does outside, in order.
pub mod Traces
pub mod Tidy
pub mod Turns
pub mod Command
pub mod Report
pub mod Shutdown
use runner_orchestrator.Base.{
  ℕ, zero, suc, Bool, true, false, not, ◌&&◌, ◌||◌, if◌then◌else◌, List, [], ◌∷◌, ◌++◌, take,
  Option, none, some, ℤ, pos,
}
use runner_orchestrator.Protocol.{
  MsgType, submit, status, shutdown, ack, done, status_req, status_resp, status_end, shutdown_req,
  shutdown_ack, RpcMessage, zeroed,
}
use runner_orchestrator.Controller.Status.{same_text}
use runner_orchestrator.Parser.{
  Text, CommandStage, ParsedCommand, Outcome, parsed, failed, endless, parser_parse,
}
use runner_orchestrator.Descriptors.{Table}
use runner_orchestrator.Executor.{ExecEnv, PipelineRun, execute_pipeline}
use runner_orchestrator.Ipc.{Mkfifo, SendEnv, is_error, ipc_create_fifo, ipc_send_atomic}

pub data RunnerMode : Type 0 where
  runner_mode_execute runner_mode_status runner_mode_shutdown : RunnerMode

pub record RunnerRequest : Type 0 where
  pub mode : RunnerMode
  pub user_id : ℤ
  pub command : Option Text

abbrev pub option_c : Text
option_c = b'-' ∷ b'c' ∷ []

abbrev pub option_s : Text
option_s = b'-' ∷ b's' ∷ []

abbrev pub option_e : Text
option_e = b'-' ∷ b'e' ∷ []

-- What `memset` with 0 leaves.
abbrev pub no_request : RunnerRequest
no_request = record { mode = runner_mode_execute; user_id = pos 0; command = none }

-- `argv` holds `argc` arguments, the program's name first; `none` where the usage is printed.
unfoldable pub runner_parse_args : (atoi : Text → ℤ) → (argv : List Text) → Option RunnerRequest
runner_parse_args atoi (program ∷ (mode ∷ [])) =
    if same_text mode option_c
    then some (record no_request { mode = runner_mode_status })
    else if same_text mode option_s
    then some (record no_request { mode = runner_mode_shutdown })
    else none
runner_parse_args atoi (program ∷ (mode ∷ (user ∷ (command ∷ [])))) =
    if same_text mode option_e
    then some (record { mode = runner_mode_execute; user_id = atoi user; command = some command })
    else none
runner_parse_args atoi other = none

-- What the calls of a runner meet: `send` is for each message sent, counted from 0; `replies` are the whole
-- messages that it can read before `read` returns something else; `fresh` and `table` are for the pipeline.
pub record RunnerEnv : Type 0 where
  pub pid : ℤ
  pub mkfifo : Mkfifo
  pub send : ℕ → SendEnv
  pub open_ok : Bool
  pub replies : List RpcMessage
  pub parsed_ok : Bool
  pub alloc : ℕ → Bool
  pub fresh : Table → ℕ
  pub exec : ExecEnv
  pub table : Table

-- What a runner does outside: its private FIFO, the messages that it tries to send, the pipeline that it
-- runs, the payloads that it prints, and its notices.
pub data RunnerEvent : Type 0 where
  fifo_created fifo_removed opened closed : RunnerEvent
  sent : RpcMessage → (result : ℤ) → RunnerEvent
  printed : Text → RunnerEvent
  executed : ParsedCommand → PipelineRun → RunnerEvent
  submitted executing finished : (command_id : ℤ) → RunnerEvent
  parse_failed no_ack shutdown_sent controller_exited : RunnerEvent

abbrev pub Run : Type 0
Run = ℤ × List RunnerEvent

abbrev pub then_run : List RunnerEvent → Run → Run
then_run earlier (code, later) = (code, earlier ++ later)

-- `create_runner_fifo`, and what follows if it succeeds.
unfoldable pub with_fifo : RunnerEnv → Run → Run
with_fifo env run =
    if is_error (ipc_create_fifo env.mkfifo) then (pos 1, []) else then_run (fifo_created ∷ []) run

-- A message to the controller, and what follows if it was sent, or else.
unfoldable pub send_to_controller : RunnerEnv → (i : ℕ) → RpcMessage → (failure success : Run) → Run
send_to_controller env i msg failure success =
    let result = ipc_send_atomic (env.send i) in
    then_run (sent msg result ∷ []) (if is_error result then failure else success)

-- `open` of the private FIFO.
unfoldable pub with_open : RunnerEnv → Run → Run
with_open env run = if env.open_ok then then_run (opened ∷ []) run else (pos 1, fifo_removed ∷ [])

abbrev pub is_status_resp : MsgType → Bool
is_status_resp status_resp = true
is_status_resp other = false

abbrev pub is_status_end : MsgType → Bool
is_status_end status_end = true
is_status_end other = false

-- The loop over the replies of `runner_run_status`.
unfoldable pub status_loop : List RpcMessage → List RunnerEvent
status_loop [] = []
status_loop (msg ∷ more) =
    let rest = status_loop more in
    (if is_status_resp msg.type then printed msg.payload ∷ [] else [])
    ++ (if is_status_end msg.type then [] else rest)

abbrev pub status_request : ℤ → RpcMessage
status_request pid = record zeroed { type = status_req; sender_pid = pid }

unfoldable pub runner_run_status : RunnerEnv → Run
runner_run_status env = with_fifo env (
    send_to_controller env 0 (status_request env.pid) (pos 1, fifo_removed ∷ [])
      (with_open env (pos 0, status_loop env.replies ++ (closed ∷ (fifo_removed ∷ [])))))

abbrev pub shutdown_request : ℤ → RpcMessage
shutdown_request pid = record zeroed { type = shutdown_req; sender_pid = pid }

-- The loop over the replies ends, with the first SHUTDOWN_ACK or without, and does nothing outside.
unfoldable pub runner_run_shutdown : RunnerEnv → Run
runner_run_shutdown env = with_fifo env (
    send_to_controller env 0 (shutdown_request env.pid) (pos 1, fifo_removed ∷ [])
      (then_run (shutdown_sent ∷ [])
        (with_open env (pos 0, controller_exited ∷ (closed ∷ (fifo_removed ∷ []))))))

-- `strncpy` copies all but the last of the 480 bytes of the payload.
abbrev pub submission : ℤ → ℤ → Text → RpcMessage
submission pid user_id command = record {
  type = submit;
  sender_pid = pid;
  user_id = user_id;
  command_id = pid;
  payload = take 479 command;
}

abbrev pub completion : ℤ → RpcMessage → RpcMessage
completion pid ack_msg = record zeroed {
  type = done;
  sender_pid = pid;
  user_id = ack_msg.user_id;
  command_id = ack_msg.command_id;
}

-- What follows `parser_parse`, which ends (Parser/Bounds).
unfoldable pub run_parsed : RunnerEnv → Outcome ParsedCommand → List RunnerEvent
run_parsed env (parsed cmd) =
    executed cmd (execute_pipeline env.fresh env.exec (some cmd) env.table) ∷ []
run_parsed env failed = parse_failed ∷ []
run_parsed env endless = []

abbrev pub run_command : RunnerEnv → Text → List RunnerEvent
run_command env payload = run_parsed env (parser_parse env.parsed_ok env.alloc (some payload))

abbrev pub first_ack : List RpcMessage → Option RpcMessage
first_ack [] = none
first_ack (msg ∷ more) = elim msg.type [ ack ↦ some msg | _ ↦ none ]

-- What follows `open`.
unfoldable pub authorized : RunnerEnv → Text → Option RpcMessage → Run
authorized env payload none = (pos 1, no_ack ∷ (closed ∷ (fifo_removed ∷ [])))
authorized env payload (some ack_msg) =
    then_run (executing ack_msg.command_id ∷ run_command env payload) (
      send_to_controller env 1 (completion env.pid ack_msg) (pos 1, closed ∷ (fifo_removed ∷ []))
        (pos 0, finished ack_msg.command_id ∷ (closed ∷ (fifo_removed ∷ []))))

unfoldable pub runner_run_execute : RunnerEnv → (user_id : ℤ) → (command : Text) → Run
runner_run_execute env user_id command =
    let msg = submission env.pid user_id command in
    with_fifo env (
      then_run (submitted msg.command_id ∷ []) (
        send_to_controller env 0 msg (pos 1, fifo_removed ∷ [])
          (with_open env (authorized env msg.payload (first_ack env.replies)))))

-- The dispatch on the mode. The usage is printed where there is no request; a request to execute has a
-- command.
unfoldable pub run_request : RunnerEnv → Option RunnerRequest → Run
run_request env none = (pos 1, [])
run_request env (some request) = elim request.mode [
  | runner_mode_status ↦ runner_run_status env
  | runner_mode_shutdown ↦ runner_run_shutdown env
  | runner_mode_execute ↦ elim request.command [
    | none ↦ (pos 1, [])
    | some command ↦ runner_run_execute env request.user_id command
  ]
]

unfoldable pub runner_main : (atoi : Text → ℤ) → RunnerEnv → (argv : List Text) → Run
runner_main atoi env argv = run_request env (runner_parse_args atoi argv)
