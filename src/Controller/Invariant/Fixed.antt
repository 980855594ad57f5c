-- ===== src/Controller/Invariant/Fixed.antt =====
-- controller_handlers.c: no handler touches the limit of the running jobs, and only the last
-- step of a message the flag of the main loop.
use runner_orchestrator.Base.{
  ℕ, zero, suc, ◌+◌, ◌≡◌, refl, ◌∙◌, inl, inr, true, not, length, Bool-cases, ◌&&◌, Option-cases,
  arith,
}
use runner_orchestrator.Protocol.{RpcMessage, MsgType, submit, done}
use runner_orchestrator.Scheduler.Job.{JobInfo}
use runner_orchestrator.Scheduler.Jobs.{remove_by_command_id}
use runner_orchestrator.Controller.State.{ControllerState, Env, Round}
use runner_orchestrator.Controller.Handlers.{
  handle_submit, place_job, finish_job, handle_done, start_job, start_loop, start_waiting_jobs,
  handle_shutdown_req, try_finish_shutdown, remember_fair_user,
}
use runner_orchestrator.Controller.Messages.{dispatch, controller_handle_message, is_submit}
use runner_orchestrator.Controller.Invariant.Start.{
  dequeue_by_policy-Leaves, start_cases, left_by, start_loop-stop, start_loop-step,
}

-- Neither the limit nor the flag of the main loop differs.
abbrev pub Same : ControllerState → ControllerState → Type 0
Same s t = (t.parallel_limit ≡ s.parallel_limit) × (t.keep_running ≡ s.keep_running)

Same-trans : (s t u : ControllerState) → Same s t → Same t u → Same s u
Same-trans s t u a b = (b.0 ∙ a.0, b.1 ∙ a.1)

start_job-Same :
    (env : Env) (r : Round) (s : ControllerState) (job : JobInfo) → Same s (start_job env r s job).0
unfolding start_job
start_job-Same env r s job = elim (Bool-cases r.node_ok) [
  | inl ok ↦ rw ok (refl, refl)
  | inr failed ↦ rw failed (refl, refl)
]

start_loop-Same : (env : Env) (k i : ℕ) (s : ControllerState) → Same s (start_loop env k i s).0
start_loop-Same env zero i s = unfold start_loop in (refl, refl)
start_loop-Same env (suc k) i s = elim (start_cases s) [
  | inl (stop, _) ↦ rw (start_loop-stop env (suc k) i s stop) (refl, refl)
  | inr (go, free, j, q, e) ↦
      let l = dequeue_by_policy-Leaves (env.rounds i) s j q e in
      let t = (start_job env (env.rounds i) (left_by s l) l.job).0 in
      rw (start_loop-step env k i s go l) (
        Same-trans s t (start_loop env k (i + 1) t).0
          (start_job-Same env (env.rounds i) (left_by s l) l.job) (start_loop-Same env k (i + 1) t))
]

finish_job-Same :
    (env : Env) (s : ControllerState) (msg : RpcMessage) → Same s (finish_job env s msg).0
unfolding finish_job
finish_job-Same env s msg =
    elim (Option-cases (remove_by_command_id msg.command_id s.running_queue)) [
      | inl missing ↦ rw (missing, finish_job) (refl, refl)
      | inr (found, e) ↦ rw (e, finish_job) (refl, refl)
    ]

handle_submit-Same :
    (env : Env) (s : ControllerState) (msg : RpcMessage) → Same s (handle_submit env s msg).0
unfolding handle_submit place_job remember_fair_user
handle_submit-Same env s msg = (ground arith, ground arith)

pub dispatch-Same :
    (env : Env) (s : ControllerState) (msg : RpcMessage) (type : MsgType)
    → Same s (dispatch env s msg type).0
unfolding dispatch handle_done start_waiting_jobs handle_shutdown_req
dispatch-Same env s msg submit = handle_submit-Same env s msg
dispatch-Same env s msg done =
    let t = (finish_job env s msg).0 in
    Same-trans s t (start_loop env (length t.waiting_queue) 0 t).0 (finish_job-Same env s msg)
      (start_loop-Same env (length t.waiting_queue) 0 t)
dispatch-Same env s msg other = (refl, refl)

try_finish_shutdown-limit :
    (s : ControllerState) → (try_finish_shutdown s).0.parallel_limit ≡ s.parallel_limit
unfolding try_finish_shutdown
try_finish_shutdown-limit s = ground arith

pub controller_handle_message-limit :
    (env : Env) (s : ControllerState) (msg : RpcMessage)
    → (controller_handle_message env s msg).0.parallel_limit ≡ s.parallel_limit
unfolding controller_handle_message
controller_handle_message-limit env s msg =
    elim (Bool-cases (is_submit msg.type && s.is_shutting_down)) [
      | inl refused ↦ rw refused refl
      | inr accepted ↦ rw accepted (
          try_finish_shutdown-limit (dispatch env s msg msg.type).0
          ∙ (dispatch-Same env s msg msg.type).0)
    ]

try_finish_shutdown-flag :
    (s : ControllerState)
    → s.keep_running ≡ true
    → (try_finish_shutdown s).2 ≡ not (try_finish_shutdown s).0.keep_running
unfolding try_finish_shutdown
try_finish_shutdown-flag s h = ground (arith, h)

-- What is returned to the main loop is whether its flag was turned off.
pub controller_handle_message-flag :
    (env : Env) (s : ControllerState) (msg : RpcMessage)
    → s.keep_running ≡ true
    → (controller_handle_message env s msg).2
      ≡ not (controller_handle_message env s msg).0.keep_running
unfolding controller_handle_message
controller_handle_message-flag env s msg h =
    elim (Bool-cases (is_submit msg.type && s.is_shutting_down)) [
      | inl refused ↦ rw refused (rw h refl)
      | inr accepted ↦ rw accepted (
          try_finish_shutdown-flag (dispatch env s msg msg.type).0
            ((dispatch-Same env s msg msg.type).1 ∙ h))
    ]
