-- ===== src/Controller/Shutdown.antt =====
-- When the main loop is told to stop.
use runner_orchestrator.Base.{
  ◌≡◌, refl, sym, inl, inr, Bool, true, false, Bool-cases, not, ◌&&◌, ◌==◌, if◌then◌else◌, ◌++◌,
  List, [], ◌∷◌, arith,
}
use runner_orchestrator.Protocol.{RpcMessage, zeroed, shutdown_ack}
use runner_orchestrator.Controller.State.{ControllerState, Env, Effect, send}
use runner_orchestrator.Controller.Handlers.{is_empty, try_finish_shutdown}
use runner_orchestrator.Controller.Messages.{dispatch, controller_handle_message, is_submit}
use runner_orchestrator.Controller.Invariant.{IsValid}
use runner_orchestrator.Controller.Invariant.Loop.{nil_of_length}
use runner_orchestrator.Controller.Invariant.Keep.{dispatch-IsValid}

-- Without a running job no job waits.
idle : (s : ControllerState) → IsValid s → s.running_count ≡ 0 → s.waiting_queue ≡ []
idle s v none = elim v.busy [
  | inl empty ↦ empty
  | inr full ↦ absurd (omega (arith, none, full, v.base.slots))
]

abbrev pub is_over : ControllerState → Bool
is_over s = s.is_shutting_down && is_empty s.running_queue

-- The last step of a message: the test on the waiting queue is implied by the others.
try_finish_shutdown-over :
    (s : ControllerState)
    → IsValid s
    → try_finish_shutdown s ≡ (
        if is_over s
        then (
          record s { keep_running = false },
          send s.shutdown_requester_pid (record zeroed { type = shutdown_ack }) ∷ [],
          true,
        )
        else (s, [], false))
unfolding try_finish_shutdown
try_finish_shutdown-over s v = elim (Bool-cases (s.running_count == 0)) [
  | inl none ↦ ground (arith, none, v.base.counted, idle s v (ground (arith, none)))
  | inr some ↦ ground (arith, some, v.base.counted)
]

abbrev pub is_refused : ControllerState → RpcMessage → Bool
is_refused s msg = is_submit msg.type && s.is_shutting_down

abbrev last_ack : ControllerState → Effect
last_ack s = send s.shutdown_requester_pid (record zeroed { type = shutdown_ack })

-- How a message ends whose handler left a valid state.
abbrev settle : ControllerState → List Effect → ControllerState × List Effect × Bool
settle s did =
    if is_over s
    then (record s { keep_running = false }, did ++ (last_ack s ∷ []), true)
    else (s, did ++ [], false)

controller_handle_message-settle :
    (env : Env) (s : ControllerState) (msg : RpcMessage)
    → IsValid s
    → is_refused s msg ≡ false
    → controller_handle_message env s msg
      ≡ settle (dispatch env s msg msg.type).0 (dispatch env s msg msg.type).1
unfolding controller_handle_message
controller_handle_message-settle env s msg v accepted = ground (
  arith,
  accepted,
  try_finish_shutdown-over (dispatch env s msg msg.type).0 (dispatch-IsValid env s msg msg.type v),
)

settle_flag :
    (s : ControllerState) (did : List Effect) → (settle s did).2 ≡ is_over (settle s did).0
settle_flag s did = elim (Bool-cases (is_over s)) [
  | inl over ↦ rw over (sym over)
  | inr on ↦ rw on (sym on)
]

-- In a valid state a message tells the main loop to stop exactly when it is not a refused submission, and
-- after it the controller is shutting down and no job runs.
pub controller_handle_message-stop :
    (env : Env) (s : ControllerState) (msg : RpcMessage)
    → IsValid s
    → (controller_handle_message env s msg).2
      ≡ (not (is_refused s msg) && is_over (controller_handle_message env s msg).0)
controller_handle_message-stop env s msg v = elim (Bool-cases (is_refused s msg)) [
  | inl refused ↦ rw refused (unfold controller_handle_message in rw refused)
  | inr accepted ↦
      rw (accepted, controller_handle_message-settle env s msg v accepted)
        (settle_flag (dispatch env s msg msg.type).0 (dispatch env s msg msg.type).1)
]

-- What holds when the main loop is told to stop: no job is left in either queue, the loop's flag is off,
-- and the last thing done was to send the requester of the shutdown an ACK of it.
pub record Stopped (r : ControllerState × List Effect × Bool) : Type 0 where
  pub running : r.0.running_queue ≡ []
  pub waiting : r.0.waiting_queue ≡ []
  pub flag : r.0.keep_running ≡ false
  pub earlier : List Effect
  pub told : r.1 ≡ earlier ++ (last_ack r.0 ∷ [])

settle-Stopped :
    (s : ControllerState) (did : List Effect)
    → IsValid s
    → is_over s ≡ true
    → Stopped (settle s did)
settle-Stopped s did v over = rw over (record {
  running = nil_of_length s.running_queue (ground (arith, over));
  waiting = idle s v (ground (arith, over, v.base.counted));
  flag = refl;
  earlier = did;
  told = refl;
})

-- When a message in a valid state tells the main loop to stop, no job is left in either queue, the loop's
-- flag is off, and the last thing done was to send the requester of the shutdown an ACK of it.
pub controller_handle_message-Stopped :
    (env : Env) (s : ControllerState) (msg : RpcMessage)
    → IsValid s
    → (controller_handle_message env s msg).2 ≡ true
    → Stopped (controller_handle_message env s msg)
controller_handle_message-Stopped env s msg v stop = elim (Bool-cases (is_refused s msg)) [
  | inl refused ↦ absurd (ground (arith, refused, controller_handle_message-stop env s msg v))
  | inr accepted ↦
      let s' = (dispatch env s msg msg.type).0 in
      elim (Bool-cases (is_over s')) [
        | inl over ↦ rw (controller_handle_message-settle env s msg v accepted) (
            settle-Stopped s' (dispatch env s msg msg.type).1
              (dispatch-IsValid env s msg msg.type v) over)
        | inr on ↦
            absurd (ground (arith, on, controller_handle_message-settle env s msg v accepted))
      ]
]
