-- ===== src/Controller/Messages.antt =====
-- controller_handlers.c: the dispatch of a message; controller.c: the loop over the messages.
use runner_orchestrator.Base.{Bool, true, false, ◌&&◌, if◌then◌else◌, List, [], ◌∷◌, ◌++◌}
use runner_orchestrator.Protocol.{MsgType, submit, done, status_req, shutdown_req, RpcMessage}
use runner_orchestrator.Controller.State.{ControllerState, Env, Effect}
use runner_orchestrator.Controller.Status.{handle_status_req}
use runner_orchestrator.Controller.Handlers.{
  send_shutdown_ack_to_runner, handle_submit, handle_done, handle_shutdown_req, try_finish_shutdown,
  then_do,
}

-- The handler of a message's type; other types have none.
unfoldable pub dispatch :
    Env → ControllerState → RpcMessage → MsgType → ControllerState × List Effect
dispatch env s msg submit = handle_submit env s msg
dispatch env s msg done = handle_done env s msg
dispatch env s msg status_req = (s, handle_status_req env s msg)
dispatch env s msg shutdown_req = (handle_shutdown_req s msg, [])
dispatch env s msg other = (s, [])

abbrev pub is_submit : MsgType → Bool
is_submit submit = true
is_submit other = false

abbrev pub finish_with :
    ControllerState × List Effect × Bool → List Effect → ControllerState × List Effect × Bool
finish_with (s, later, stop) earlier = (s, earlier ++ later, stop)

unfoldable pub controller_handle_message :
    Env → ControllerState → RpcMessage → ControllerState × List Effect × Bool
unfolding dispatch
controller_handle_message env s msg =
    if is_submit msg.type && s.is_shutting_down
    then (s, send_shutdown_ack_to_runner env msg ∷ [], false)
    else let (s', did) = dispatch env s msg msg.type in finish_with (try_finish_shutdown s') did

-- The two loops of `main` over the messages that `ipc_read_blocking` returns whole: an end of the file
-- opens the FIFO anew, and the loops end when `keep_running` is 0.
unfoldable pub serve : ControllerState → List (Env × RpcMessage) → ControllerState × List Effect
serve s [] = (s, [])
serve s ((env, msg) ∷ more) = elim s.keep_running [
  | false ↦ (s, [])
  | true ↦ let (s', did, stop) = controller_handle_message env s msg in then_do (serve s' more) did
]
