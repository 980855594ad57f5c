-- ===== src/Controller/Remembered/Progress.antt =====
-- controller_handlers.c: each message serves a user who waits, or brings him closer.
use runner_orchestrator.Base.{
  ℕ, ◌+◌, ◌≡◌, sym, ap, subst, ◌∙◌, ◌⊎◌, inl, inr, true, false, Bool-cases, ◌&&◌, List, ◌++◌,
  length, ℤ, arith,
}
use runner_orchestrator.Protocol.{RpcMessage, MsgType, submit, done}
use runner_orchestrator.Scheduler.Fair.TurnOrder.{turn_order}
use runner_orchestrator.Scheduler.Fair.Waiting.{place}
use runner_orchestrator.Scheduler.Jobs.Starvation.{has_job}
use runner_orchestrator.Controller.State.{ControllerState, Env, Effect}
use runner_orchestrator.Controller.Status.{same_text, fair_name, is_fair_policy}
use runner_orchestrator.Controller.Handlers.{
  remember_fair_user, handle_submit, place_job, finish_job, handle_done, start_loop,
  start_waiting_jobs, handle_shutdown_req, try_finish_shutdown,
}
use runner_orchestrator.Controller.Messages.{dispatch, controller_handle_message, is_submit}
use runner_orchestrator.Controller.Conservation.{is_running, is_done, is_done_of_submit}
use runner_orchestrator.Controller.Load.{ends_job}
use runner_orchestrator.Controller.Invariant.{IsValid}
use runner_orchestrator.Controller.Invariant.Fixed.{dispatch-Same}
use runner_orchestrator.Controller.Invariant.Keep.{handle_done-IsValid, remember_fair_user-rest}
use runner_orchestrator.Controller.Remembered.{Remembers, Shrunk-Remembers}
use runner_orchestrator.Controller.Remembered.Keep.{finish_job-Shrunk}
use runner_orchestrator.Controller.Remembered.Turns.{
  acked, acked-append, Closer, FairMemory, start_loop-InLine,
}
use runner_orchestrator.Controller.Remembered.Steps.{
  Closer-trans, full_while_waiting, remember_fair_user-Closer, place_job-Closer,
  try_finish_shutdown-Closer, as_number, finish_job-Freed,
}

-- A part of the handling of messages serves the user, or brings him closer.
abbrev pub Progress : ℤ → ControllerState → ControllerState × List Effect → ℕ → Type 0
Progress u s r n = (acked u r.1 ≡ true) ⊎ Closer u s r.0 n

pub stays_near :
    (u : ℤ) (s : ControllerState)
    → is_fair_policy s ≡ true
    → has_job s.waiting_queue u ≡ true
    → Closer u s s 0
stays_near u s fair waits = record { fair = fair; waits = waits; near = omega arith }

pub Progress-trans :
    (u : ℤ) (s : ControllerState) (r r' : ControllerState × List Effect) (n k : ℕ)
    → Progress u s r n
    → (Closer u s r.0 n → Progress u r.0 r' k)
    → Progress u s (r'.0, r.1 ++ r'.1) (n + k)
Progress-trans u s r r' n k a next = elim a [
  | inl told ↦ inl (ground (arith, acked-append u r.1 r'.1, told))
  | inr near ↦ elim (next near) [
    | inl told ↦ inl (ground (arith, acked-append u r.1 r'.1, told))
    | inr nearer ↦ inr (Closer-trans u s r.0 r'.0 n k near nearer)
  ]
]

handle_done-limit :
    (env : Env) (s : ControllerState) (msg : RpcMessage)
    → (handle_done env s msg).0.parallel_limit ≡ s.parallel_limit
unfolding dispatch
handle_done-limit env s msg = (dispatch-Same env s msg done).0

module _ (u : ℤ) (env : Env) (memory : FairMemory env) where
  handle_submit-Progress :
      (s : ControllerState) (msg : RpcMessage)
      → IsValid s
      → is_fair_policy s ≡ true
      → has_job s.waiting_queue u ≡ true
      → Closer u s (handle_submit env s msg).0 0
  unfolding handle_submit
  handle_submit-Progress s msg v fair waits =
      let t = remember_fair_user true s msg.user_id in
      let first = remember_fair_user-Closer u s fair waits msg.user_id in
      let full =
        ap (λ x. x.running_count) (remember_fair_user-rest true s msg.user_id)
        ∙ full_while_waiting s u v waits
        ∙ sym (ap (λ x. x.parallel_limit) (remember_fair_user-rest true s msg.user_id)) in
      subst (λ b. Closer u s (place_job env (remember_fair_user b s msg.user_id) msg).0 0)
        (sym memory.realloc)
        (Closer-trans u s t (place_job env t msg).0 0 0 first
          (place_job-Closer u t first.fair first.waits env msg full))

  -- With every slot taken again after a DONE, the turns were given to those before the user.
  handle_done-Progress :
      (s : ControllerState) (msg : RpcMessage)
      → IsValid s
      → Remembers s
      → is_fair_policy s ≡ true
      → has_job s.waiting_queue u ≡ true
      → Progress u s (handle_done env s msg) (as_number (is_running msg.command_id s))
  unfolding handle_done start_waiting_jobs is_fair_policy
  handle_done-Progress s msg v m fair waits =
      let f = (finish_job env s msg).0 in
      let did = (finish_job env s msg).1 in
      let freed = finish_job-Freed env s msg v in
      let r = start_loop env (length f.waiting_queue) 0 f in
      let told = acked-append u did r.1 in
      let same : r.0.parallel_limit ≡ s.parallel_limit = handle_done-limit env s msg in
      elim (start_loop-InLine u env memory (length f.waiting_queue) 0 f
        (Shrunk-Remembers s f (finish_job-Shrunk env s msg) m)
        (ap (λ p. same_text p fair_name) freed.policy ∙ fair)
        (ap (λ q. has_job q u) freed.waiting ∙ waits)) [
          | inl served ↦ inl (ground (arith, told, served))
          | inr line ↦ inr (record {
            fair = line.fair;
            waits = line.waits;
            near = omega (
              arith,
              line.near,
              freed.slots,
              ap length (line.users ∙ freed.users),
              ap (λ l. place (turn_order l f.last_scheduled_user) u) freed.users,
              ap (λ l. place (turn_order s.fair_users l) u) freed.last,
              full_while_waiting s u v waits,
              full_while_waiting r.0 u (handle_done-IsValid env s msg v) line.waits,
              same,
            );
          })
        ]

  dispatch-Progress :
      (s : ControllerState) (msg : RpcMessage) (type : MsgType)
      → IsValid s
      → Remembers s
      → is_fair_policy s ≡ true
      → has_job s.waiting_queue u ≡ true
      → Progress u s
          (dispatch env s msg type)
          (as_number (is_done type && is_running msg.command_id s))
  unfolding dispatch handle_shutdown_req is_fair_policy
  dispatch-Progress s msg submit v m fair waits = inr (handle_submit-Progress s msg v fair waits)
  dispatch-Progress s msg done v m fair waits = handle_done-Progress s msg v m fair waits
  dispatch-Progress s msg other v m fair waits =
      inr (record { fair = fair; waits = waits; near = omega arith })

  pub message-Progress :
      (s : ControllerState) (msg : RpcMessage)
      → IsValid s
      → Remembers s
      → is_fair_policy s ≡ true
      → has_job s.waiting_queue u ≡ true
      → (let r = controller_handle_message env s msg in
          Progress u s (r.0, r.1) (as_number (ends_job s msg)))
  unfolding controller_handle_message
  message-Progress s msg v m fair waits =
      elim (Bool-cases (is_submit msg.type && s.is_shutting_down)) [
        | inl refused ↦ rw (refused, ends_none msg refused) (inr (stays_near u s fair waits))
        | inr accepted ↦
            let d = dispatch env s msg msg.type in
            let tf = try_finish_shutdown d.0 in
            let n = as_number (ends_job s msg) in
            rw accepted (
              subst (Progress u s (tf.0, d.1 ++ tf.1)) (no_more n) (
                Progress-trans u s d (tf.0, tf.1) n 0
                  (dispatch-Progress s msg msg.type v m fair waits)
                  (λ c. inr (try_finish_shutdown-Closer u d.0 c.fair c.waits))))
      ]
    where
      no_more : (n : ℕ) → n + 0 ≡ n
      no_more n = omega arith

      ends_none :
          (msg : RpcMessage)
          → (is_submit msg.type && s.is_shutting_down) ≡ true
          → ends_job s msg ≡ false
      ends_none msg refused = ground (arith, refused, is_done_of_submit msg.type)
