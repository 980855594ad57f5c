-- ===== src/Controller/Remembered/Keep.antt =====
-- controller_handlers.c: every message keeps the users of waiting jobs in `fair_users`.
use runner_orchestrator.Base.{
  ◌≡◌, refl, inl, inr, true, Bool-cases, Option-cases, not, ◌&&◌, ◌||◌, ◌==◌, List, [], ◌∷◌, length,
}
use runner_orchestrator.Protocol.{MsgType, RpcMessage, submit, done}
use runner_orchestrator.Scheduler.Jobs.{remove_by_command_id}
use runner_orchestrator.Controller.State.{ControllerState, Env}
use runner_orchestrator.Controller.Handlers.{
  handle_submit, finish_job, handle_done, start_waiting_jobs, handle_shutdown_req,
  try_finish_shutdown, is_empty,
}
use runner_orchestrator.Controller.Messages.{dispatch, controller_handle_message, is_submit, serve}
use runner_orchestrator.Controller.Remembered.{
  Remembers, Grown-Remembers, handle_submit-Grown, Shrunk, Shrunk-Remembers, start_loop-Remembers,
}

pub finish_job-Shrunk :
    (env : Env) (s : ControllerState) (msg : RpcMessage) → Shrunk s (finish_job env s msg).0
unfolding finish_job
finish_job-Shrunk env s msg =
    elim (Option-cases (remove_by_command_id msg.command_id s.running_queue)) [
      | inl missing ↦ rw (missing, finish_job) (record { users = refl; queue = λ u h. h })
      | inr (found, e) ↦ rw (e, finish_job) (record { users = refl; queue = λ u h. h })
    ]

try_finish_shutdown-Remembers :
    (s : ControllerState) → Remembers s → Remembers (try_finish_shutdown s).0
unfolding try_finish_shutdown
try_finish_shutdown-Remembers s m =
    elim (Bool-cases
      (not s.is_shutting_down || not (s.running_count == 0) || not (is_empty s.waiting_queue))) [
        | inl stay ↦ rw stay m
        | inr stop ↦ rw stop (record { once = m.once; known = m.known })
      ]

pub dispatch-Remembers :
    (env : Env) (s : ControllerState) (msg : RpcMessage) (type : MsgType)
    → env.realloc_ok ≡ true
    → Remembers s
    → Remembers (dispatch env s msg type).0
unfolding dispatch handle_done start_waiting_jobs handle_shutdown_req
dispatch-Remembers env s msg submit ok m =
    Grown-Remembers s (handle_submit env s msg).0 msg.user_id (handle_submit-Grown env s msg ok) m
dispatch-Remembers env s msg done ok m =
    let t = (finish_job env s msg).0 in
    start_loop-Remembers env (length t.waiting_queue) 0 t
      (Shrunk-Remembers s t (finish_job-Shrunk env s msg) m)
dispatch-Remembers env s msg other ok m = record { once = m.once; known = m.known }

pub controller_handle_message-Remembers :
    (env : Env) (s : ControllerState) (msg : RpcMessage)
    → env.realloc_ok ≡ true
    → Remembers s
    → Remembers (controller_handle_message env s msg).0
unfolding controller_handle_message
controller_handle_message-Remembers env s msg ok m =
    elim (Bool-cases (is_submit msg.type && s.is_shutting_down)) [
      | inl refused ↦ rw refused m
      | inr accepted ↦ rw accepted (
          try_finish_shutdown-Remembers (dispatch env s msg msg.type).0
            (dispatch-Remembers env s msg msg.type ok m))
    ]

-- There is memory for the array of users while the messages are handled.
abbrev pub HasRealloc : List (Env × RpcMessage) → Type 0
HasRealloc [] = Unit {0}
HasRealloc ((env, msg) ∷ more) = (env.realloc_ok ≡ true) × HasRealloc more

pub serve-Remembers :
    (s : ControllerState) (msgs : List (Env × RpcMessage))
    → HasRealloc msgs
    → Remembers s
    → Remembers (serve s msgs).0
unfolding serve
serve-Remembers s [] ok m = m
serve-Remembers s ((env, msg) ∷ more) (ok, oks) m = elim (Bool-cases s.keep_running) [
  | inl running ↦
      rw (running, serve)
        (serve-Remembers (controller_handle_message env s msg).0 more oks
          (controller_handle_message-Remembers env s msg ok m))
  | inr stopped ↦ rw (stopped, serve) m
]
