-- ===== src/Runner/Shutdown/Answer.antt =====
-- The one message that a runner reads after its SHUTDOWN_REQ.
use runner_orchestrator.Base.{
  ◌≡◌, refl, sym, ◌∙◌, ap, Bool, true, false, Bool-cases, not, ◌&&◌, ◌||◌, ◌==◌, List, [], ◌∷◌,
  ◌++◌, inl, inr, ℤ, ℤ_discrete, if_pos, if◌then◌else◌, arith,
}
use mathlib.Core.List.{append-nil}
use runner_orchestrator.Protocol.{
  MsgType, submit, status, shutdown, ack, done, status_req, status_resp, status_end, shutdown_req,
  shutdown_ack, RpcMessage, zeroed,
}
use runner_orchestrator.Controller.State.{ControllerState, Env, Effect}
use runner_orchestrator.Controller.Handlers.{
  try_finish_shutdown, handle_shutdown_req, send_shutdown_ack_to_runner, then_do, is_empty,
}
use runner_orchestrator.Controller.Messages.{dispatch, controller_handle_message, serve, is_submit}
use runner_orchestrator.Runner.{shutdown_request}
use runner_orchestrator.Runner.Report.{delivered}
use runner_orchestrator.Runner.Shutdown.{
  AllSpare, Strangers, Waits, Silent, delivered-AllSpare, delivered-append, handle_done-Silent,
  handle_status_req-AllSpare,
}

abbrev pub is_shutdown_req : MsgType → Bool
is_shutdown_req shutdown_req = true
is_shutdown_req other = false

-- Messages of other runners, none of which asks for the end.
abbrev pub FromOthers : ℤ → List (Env × RpcMessage) → Type 0
FromOthers p [] = Unit {0}
FromOthers p ((env, msg) ∷ more) =
    ¬ (msg.sender_pid ≡ p) × (is_shutdown_req msg.type ≡ false) × FromOthers p more

abbrev pub the_end : RpcMessage
the_end = record zeroed { type = shutdown_ack }

-- What the runner is told while the controller goes from one state to another.
abbrev pub told : Bool → Bool → List RpcMessage
told true false = the_end ∷ []
told true true = []
told false after = []

told-if : (after : Bool) → told true after ≡ (if after then [] else the_end ∷ [])
told-if true = refl
told-if false = refl

module _ (p : ℤ) where
  asked-Waits :
      (s : ControllerState)
      → s.keep_running ≡ true
      → Strangers p s.waiting_queue
      → Waits p (handle_shutdown_req s (shutdown_request p))
  unfolding handle_shutdown_req
  asked-Waits s on strangers = record {
    down = refl;
    requester = refl;
    on = on;
    strangers = strangers;
  }

  dispatch-Silent :
      (env : Env) (s : ControllerState) (msg : RpcMessage) (type : MsgType)
      → Waits p s
      → ¬ (msg.sender_pid ≡ p)
      → is_submit type ≡ false
      → is_shutdown_req type ≡ false
      → Silent p (dispatch env s msg type)
  unfolding dispatch
  dispatch-Silent env s msg submit w other a b = absurd (cc a)
  dispatch-Silent env s msg shutdown_req w other a b = absurd (cc b)
  dispatch-Silent env s msg done w other a b = handle_done-Silent p env s msg w
  dispatch-Silent env s msg status_req w other a b =
      (w, handle_status_req-AllSpare p env s msg other)
  dispatch-Silent env s msg status w other a b = (w, tt)
  dispatch-Silent env s msg shutdown w other a b = (w, tt)
  dispatch-Silent env s msg ack w other a b = (w, tt)
  dispatch-Silent env s msg status_resp w other a b = (w, tt)
  dispatch-Silent env s msg status_end w other a b = (w, tt)
  dispatch-Silent env s msg shutdown_ack w other a b = (w, tt)

  -- A state in which the runner waits, or in which the controller has stopped; and what the runner was told.
  pub record Tells (r : ControllerState × List Effect) : Type 0 where
    pub waits : r.0.keep_running ≡ true → Waits p r.0
    pub hears : delivered p r.1 ≡ told true r.0.keep_running

  try_finish-Tells :
      (s : ControllerState) (did : List Effect)
      → Waits p s
      → AllSpare p did
      → Tells ((try_finish_shutdown s).0, did ++ (try_finish_shutdown s).1)
  unfolding try_finish_shutdown delivered
  try_finish-Tells s did w spared =
      elim (Bool-cases
        (not s.is_shutting_down || not (s.running_count == 0) || not (is_empty s.waiting_queue))) [
          | inl busy ↦ rw busy (record {
            waits = λ _. w;
            hears = delivered-AllSpare p did [] spared ∙ ap (told true) (sym (w.on));
          })
          | inr over ↦ rw over (record {
            waits = λ on. absurd (cc on);
            hears =
                delivered-AllSpare p did _ spared
                ∙ if_pos (ℤ_discrete s.shutdown_requester_pid p) w.requester _ _;
          })
        ]

  controller_handle_message-Tells :
      (env : Env) (s : ControllerState) (msg : RpcMessage)
      → Waits p s
      → ¬ (msg.sender_pid ≡ p)
      → is_shutdown_req msg.type ≡ false
      → Tells ((controller_handle_message env s msg).0, (controller_handle_message env s msg).1)
  unfolding controller_handle_message send_shutdown_ack_to_runner delivered
  controller_handle_message-Tells env s msg w other no_request =
      elim (Bool-cases (is_submit msg.type && s.is_shutting_down)) [
        | inl refused ↦ rw refused (record {
          waits = λ _. w;
          hears =
              delivered-AllSpare p (send_shutdown_ack_to_runner env msg ∷ []) [] (other, tt)
              ∙ ap (told true) (sym (w.on));
        })
        | inr accepted ↦
            let (w1, spared) =
              dispatch-Silent env s msg msg.type w other (ground (arith, accepted, w.down))
                no_request in
            rw accepted (try_finish-Tells _ _ w1 spared)
      ]

  serve-off :
      (s : ControllerState) (msgs : List (Env × RpcMessage))
      → s.keep_running ≡ false
      → serve s msgs ≡ (s, [])
  unfolding serve
  serve-off s [] off = refl
  serve-off s ((env, msg) ∷ more) off = simp (off, serve) refl

  -- The messages that follow one that the controller has handled.
  Tells-serve :
      (s : ControllerState) (did : List Effect) (msgs : List (Env × RpcMessage))
      → Tells (s, did)
      → FromOthers p msgs
      → Tells (then_do (serve s msgs) did)
  Tells-serve s did [] t f =
      unfold serve in record { waits = t.waits; hears = rw (append-nil did) (t.hears) }
  Tells-serve s did ((env, msg) ∷ more) t (other, no_request, f) =
      elim (Bool-cases s.keep_running) [
        | inl on ↦
            let r = controller_handle_message env s msg in
            let next =
              Tells-serve r.0 r.1 more
                (controller_handle_message-Tells env s msg (t.waits on) other no_request) f in
            let step : serve s ((env, msg) ∷ more) ≡ then_do (serve r.0 more) r.1 =
              unfold serve in simp (on, serve) refl in
            let silent : delivered p did ≡ [] = t.hears ∙ ap (told true) on in
            rw step (record {
              waits = next.waits;
              hears =
                  delivered-append p did (r.1 ++ (serve r.0 more).1)
                  ∙ ap (λ l. l ++ delivered p (r.1 ++ (serve r.0 more).1)) silent
                  ∙ next.hears;
            })
        | inr off ↦
            rw (serve-off s ((env, msg) ∷ more) off)
              (record { waits = t.waits; hears = rw (append-nil did) (t.hears) })
      ]

  -- A runner asks a controller that goes on for its end and has no job in its waiting queue; the messages that
  -- follow are of other runners and none of them asks for the end. Then the controller sends this runner nothing
  -- while it goes on, and exactly one message, a SHUTDOWN_ACK, when it stops.
  pub serve-shutdown_request :
      (env : Env) (s : ControllerState) (msgs : List (Env × RpcMessage))
      → s.keep_running ≡ true
      → Strangers p s.waiting_queue
      → FromOthers p msgs
      → delivered p (serve s ((env, shutdown_request p) ∷ msgs)).1
        ≡ (if (serve s ((env, shutdown_request p) ∷ msgs)).0.keep_running then [] else the_end ∷ [])
  serve-shutdown_request env s msgs on strangers f =
      let asked = handle_shutdown_req s (shutdown_request p) in
      let first = try_finish-Tells asked [] (asked-Waits s on strangers) tt in
      let step : serve s ((env, shutdown_request p) ∷ msgs)
          ≡ then_do (serve (try_finish_shutdown asked).0 msgs) (try_finish_shutdown asked).1 =
        unfold serve controller_handle_message dispatch in simp (on, serve) refl in
      rw step (
        (Tells-serve (try_finish_shutdown asked).0 (try_finish_shutdown asked).1 msgs first f).hears
        ∙ told-if _)
