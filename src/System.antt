-- ===== src/System.antt =====
-- The controller and its runners together: the messages between them through the FIFOs, in any order of the
-- processes' steps (src/controller/controller.c, src/runner/runner_cli.c).
pub mod Accounts
pub mod Reachable
use runner_orchestrator.Base.{
  ℕ, ◌+◌, ◌≡◌, Bool, true, false, if◌then◌else◌, List, [], ◌∷◌, ◌++◌, Option, none, some, ℤ,
  ℤ_discrete, ite,
}
use runner_orchestrator.Protocol.{RpcMessage}
use runner_orchestrator.Parser.{Text}
use runner_orchestrator.Controller.State.{ControllerState, Env, Effect, send, written, log_line}
use runner_orchestrator.Controller.Messages.{controller_handle_message}
use runner_orchestrator.Controller.Configure.{controller_configure}
use runner_orchestrator.Controller.Grants.{is_ack}
use runner_orchestrator.Runner.{status_request, shutdown_request, submission, completion, first_ack}

-- The messages on their way to the private FIFOs, each with the pid of its runner, in the order of sending.
abbrev pub Mail : Type 0
Mail = List (ℤ × RpcMessage)

-- A process in `runner_run_execute`: it waits for its first reply, or has read an ACK.
pub data Runner : Type 0 where
  waiting : (pid : ℤ) → Runner
  executing : (pid : ℤ) → (ack_msg : RpcMessage) → Runner

-- `server` is what stands in the FIFO of the controller.
pub record System : Type 0 where
  pub controller : ControllerState
  pub server : List RpcMessage
  pub mail : Mail
  pub runners : List Runner

-- What the controller sends.
unfoldable pub posted : List Effect → Mail
posted [] = []
posted (send to msg ∷ effects) = (to, msg) ∷ posted effects
posted (written to msg ∷ effects) = (to, msg) ∷ posted effects
posted (log_line user_id command_id elapsed_ms ∷ effects) = posted effects

abbrev pub keep_mail : (ℤ × RpcMessage) → Option (RpcMessage × Mail) → Option (RpcMessage × Mail)
keep_mail letter none = none
keep_mail letter (some (msg, rest)) = some (msg, letter ∷ rest)

-- The first message in the FIFO of a runner.
unfoldable pub receive : (pid : ℤ) → Mail → Option (RpcMessage × Mail)
receive pid [] = none
receive pid ((to, msg) ∷ mail) =
    ite (ℤ_discrete to pid) (some (msg, mail)) (keep_mail (to, msg) (receive pid mail))

-- What a runner is after its first reply: without an ACK it ends.
abbrev pub proceed : (pid : ℤ) → Option RpcMessage → List Runner
proceed pid none = []
proceed pid (some ack_msg) = executing pid ack_msg ∷ []

-- The steps of the processes. With `faults`, a message to a runner may be lost, as when its FIFO cannot be
-- opened, and a runner may end at any time, as when it is killed or cannot send.
pub data Step (faults : Bool) (y : System) : System → Type 0 where
  submits :
      (pid user_id : ℤ) (command : Text)
      → Step faults y (record y {
        server = y.server ++ (submission pid user_id command ∷ []);
        runners = y.runners ++ (waiting pid ∷ []);
      })
  asks_status :
      (pid : ℤ) → Step faults y (record y { server = y.server ++ (status_request pid ∷ []) })
  asks_shutdown :
      (pid : ℤ) → Step faults y (record y { server = y.server ++ (shutdown_request pid ∷ []) })
  handles :
      (env : Env) (msg : RpcMessage) (rest : List RpcMessage)
      → y.server ≡ msg ∷ rest
      → y.controller.keep_running ≡ true
      → Step faults y (record y {
        controller = (controller_handle_message env y.controller msg).0;
        server = rest;
        mail = y.mail ++ posted (controller_handle_message env y.controller msg).1;
      })
  reads_reply :
      (pid : ℤ) (before after : List Runner) (msg : RpcMessage) (mail : Mail)
      → y.runners ≡ before ++ (waiting pid ∷ after)
      → receive pid y.mail ≡ some (msg, mail)
      → Step faults y (record y {
        mail = mail;
        runners = before ++ (proceed pid (first_ack (msg ∷ [])) ++ after);
      })
  reads_other :
      (pid : ℤ) (msg : RpcMessage) (mail : Mail)
      → receive pid y.mail ≡ some (msg, mail)
      → is_ack msg.type ≡ false
      → Step faults y (record y { mail = mail })
  finishes :
      (pid : ℤ) (ack_msg : RpcMessage) (before after : List Runner)
      → y.runners ≡ before ++ (executing pid ack_msg ∷ after)
      → Step faults y (record y {
        server = y.server ++ (completion pid ack_msg ∷ []);
        runners = before ++ after;
      })
  loses :
      (letter : ℤ × RpcMessage) (before after : Mail)
      → faults ≡ true
      → y.mail ≡ before ++ (letter ∷ after)
      → Step faults y (record y { mail = before ++ after })
  dies :
      (runner : Runner) (before after : List Runner)
      → faults ≡ true
      → y.runners ≡ before ++ (runner ∷ after)
      → Step faults y (record y { runners = before ++ after })

-- The controller after `controller_configure`, and nobody else.
abbrev pub start : (atoi : List ℕ → ℤ) → (argv : List (List ℕ)) → System
start atoi argv = record {
  controller = controller_configure atoi argv;
  server = [];
  mail = [];
  runners = [];
}

pub data Reach (faults : Bool) (atoi : List ℕ → ℤ) (argv : List (List ℕ)) : System → Type 0 where
  started : Reach faults atoi argv (start atoi argv)
  stepped : {y z : System} → Reach faults atoi argv y → Step faults y z → Reach faults atoi argv z
