-- ===== src/Controller/Main.antt =====
-- src/controller/controller.c: `main`, from the arguments to the exit status.
pub mod Loops
use runner_orchestrator.Base.{
  ℕ, ◌≡◌, Bool, true, false, ◌&&◌, not, if◌then◌else◌, List, [], ◌∷◌, ◌++◌, map, Option, none, some,
  ℤ, pos,
}
use runner_orchestrator.Protocol.{RpcMessage}
use runner_orchestrator.Ipc.{Mkfifo, is_error, ipc_create_fifo}
use runner_orchestrator.Controller.State.{ControllerState, Env, Effect}
use runner_orchestrator.Controller.Handlers.{then_do}
use runner_orchestrator.Controller.Messages.{controller_handle_message}
use runner_orchestrator.Controller.Configure.{controller_configure}
use runner_orchestrator.Controller.Queues.{controller_init_queues, no_resources}

-- What one `open` of the public FIFO gives: an error, or a descriptor from which the messages can be read
-- whole before `read` returns something else.
pub data Session : Type 0 where
  refused : Session
  session : List (Env × RpcMessage) → Session

pub record MainEnv : Type 0 where
  pub waiting_ok : Bool
  pub running_ok : Bool
  pub mkfifo : Mkfifo
  pub sessions : List Session

-- What `main` does outside; `did` is what a handler does.
pub data MainEvent : Type 0 where
  queues_destroyed server_created server_opened server_closed server_removed : MainEvent
  did : Effect → MainEvent

-- The exit status, if `main` returns, and what was done.
abbrev pub MainRun : Type 0
MainRun = Option ℤ × List MainEvent

-- The inner loop.
unfoldable pub session_loop :
    ControllerState → List (Env × RpcMessage) → ControllerState × List Effect
session_loop s [] = (s, [])
session_loop s ((env, msg) ∷ more) =
    let (s', effects, stop) = controller_handle_message env s msg in
    let rest = session_loop s' more in if stop then (s', effects) else then_do rest effects

abbrev pub then_main : List MainEvent → MainRun → MainRun
then_main earlier (code, later) = (code, earlier ++ later)

abbrev pub leave : MainRun
leave = (some (pos 0), queues_destroyed ∷ (server_removed ∷ []))

-- The outer loop and what follows it. It goes on waiting where the sessions end.
unfoldable pub server_loop : ControllerState → List Session → MainRun
server_loop s [] = if s.keep_running then (none, []) else leave
server_loop s (refused ∷ more) =
    if s.keep_running then (some (pos 1), queues_destroyed ∷ []) else leave
server_loop s (session msgs ∷ more) =
    let (s', effects) = session_loop s msgs in
    let rest = server_loop s' more in
    if s.keep_running
    then then_main (server_opened ∷ (map did effects ++ (server_closed ∷ []))) rest
    else leave

unfoldable pub controller_main : (atoi : List ℕ → ℤ) → MainEnv → (argv : List (List ℕ)) → MainRun
controller_main atoi env argv =
    if is_error (controller_init_queues env.waiting_ok env.running_ok no_resources).1
    then (some (pos 1), queues_destroyed ∷ [])
    else if is_error (ipc_create_fifo env.mkfifo)
    then (some (pos 1), queues_destroyed ∷ [])
    else then_main (server_created ∷ []) (server_loop (controller_configure atoi argv) env.sessions)
