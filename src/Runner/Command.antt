-- ===== src/Runner/Command.antt =====
-- `runner -e` of runner_cli.c together with the command parser.
use runner_orchestrator.Base.{
  ℕ, ◌≤◌, ◌≡◌, refl, true, false, List, [], ◌∷◌, length, take_all, some, ℤ, pos, arith,
}
use runner_orchestrator.Protocol.{ack, RpcMessage}
use runner_orchestrator.Controller.Status.{same_text}
use runner_orchestrator.Parser.{Text, CommandStage, ParsedCommand}
use runner_orchestrator.Parser.Pipeline.{print_pipeline, AllPrintable, parser_parse-print_pipeline}
use runner_orchestrator.Executor.{execute_pipeline}
use runner_orchestrator.Ipc.{is_error, ipc_create_fifo, ipc_send_atomic}
use runner_orchestrator.Runner.{
  option_e, runner_parse_args, RunnerEnv, RunnerEvent, fifo_created, fifo_removed, opened, closed,
  sent, executed, submitted, executing, finished, with_fifo, send_to_controller, with_open,
  submission, completion, run_parsed, authorized, runner_run_execute, run_request, runner_main,
}

-- The calls of the runner succeed.
pub record Works (env : RunnerEnv) : Type 0 where
  pub creates : is_error (ipc_create_fifo env.mkfifo) ≡ false
  pub sends : (i : ℕ) → is_error (ipc_send_atomic (env.send i)) ≡ false
  pub opens : env.open_ok ≡ true
  pub parses : env.parsed_ok ≡ true
  pub allocates : env.alloc ≡ (λ _. true)

-- What such a runner does for a command that was authorized by `ack_msg`.
abbrev pub full_run :
    RunnerEnv
    → (user_id : ℤ) → (payload : Text) → (ack_msg : RpcMessage) → ParsedCommand
    → List RunnerEvent
full_run env user_id payload ack_msg cmd =
    fifo_created
    ∷ (submitted env.pid
        ∷ (sent (submission env.pid user_id payload) (ipc_send_atomic (env.send 0))
            ∷ (opened
                ∷ (executing ack_msg.command_id
                    ∷ (executed cmd (execute_pipeline env.fresh env.exec (some cmd) env.table)
                        ∷ (sent (completion env.pid ack_msg) (ipc_send_atomic (env.send 1))
                            ∷ (finished ack_msg.command_id ∷ (closed ∷ (fifo_removed ∷ [])))))))))

-- Suppose that all calls of the runner succeed and that the first message it reads is an ACK. Given as its
-- argument the text of a pipeline of at most 16 stages, each with 1 to 31 arguments, whose arguments and
-- targets are words, and which is at most 479 bytes long, the runner submits this text, runs exactly these
-- stages after the ACK, then sends the DONE with the identifiers of the ACK, and exits with 0.
pub runner_main-print_pipeline :
    (atoi : Text → ℤ) (env : RunnerEnv) (program user : Text) (stages : List CommandStage)
    (ack_msg : RpcMessage) (more : List RpcMessage)
    → Works env
    → AllPrintable stages
    → length stages ≤ 16
    → length (print_pipeline stages) ≤ 479
    → env.replies ≡ ack_msg ∷ more
    → ack_msg.type ≡ ack
    → runner_main atoi env (program ∷ (option_e ∷ (user ∷ (print_pipeline stages ∷ [])))) ≡ (
      pos 0,
      full_run env (atoi user) (print_pipeline stages) ack_msg (record { stages = stages }),
    )
unfolding runner_main runner_parse_args run_request same_text runner_run_execute with_fifo
    send_to_controller with_open authorized run_parsed
runner_main-print_pipeline atoi env program user stages ack_msg more w p few short r t =
    rw
      (
        w.creates,
        w.sends 0,
        w.opens,
        r,
        t,
        take_all 479 (print_pipeline stages) short,
        w.parses,
        w.allocates,
        parser_parse-print_pipeline stages p few (omega (arith, short)),
        w.sends 1,
      )
      refl
