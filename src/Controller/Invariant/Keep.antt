-- ===== src/Controller/Invariant/Keep.antt =====
-- The handlers and the main loop, against the invariant.
use runner_orchestrator.Base.{
  ◌+◌, ◌≤◌, ◌<◌, ◌≡◌, refl, inl, inr, Bool, true, false, Bool-cases, List, [], ◌∷◌, length,
  length-append, arith, ltb, ◌==◌, ℤ, ◌&&◌, ◌||◌, not,
}
use runner_orchestrator.Protocol.{RpcMessage, MsgType, submit, done, status_req, shutdown_req}
use runner_orchestrator.Scheduler.Job.{JobInfo, job_running, job_queued}
use runner_orchestrator.Scheduler.Jobs.{enqueue, remove_by_command_id}
use runner_orchestrator.Scheduler.Jobs.Laws.{remove_first-TakesOut, length-TakesOut}
use runner_orchestrator.Controller.State.{ControllerState, Env}
use runner_orchestrator.Controller.Handlers.{
  remember_fair_user, handle_submit, place_job, finish_job, handle_done, handle_shutdown_req,
  try_finish_shutdown, is_empty,
}
use runner_orchestrator.Controller.Messages.{dispatch, controller_handle_message, serve, is_submit}
use runner_orchestrator.Controller.Invariant.{IsCounted, IsValid}
use runner_orchestrator.Controller.Invariant.Start.{AllIn-append, AllIn-without}
use runner_orchestrator.Controller.Invariant.Loop.{start_waiting_jobs-IsValid}

-- If the entries of `fair_users` are within the allocated array, so they are after `remember_fair_user`,
-- whether there is memory for a longer array or not.
pub remember_fair_user-room :
    (ok : Bool) (s : ControllerState) (user : ℤ)
    → length s.fair_users ≤ s.fair_user_capacity
    → length (remember_fair_user ok s user).fair_users
      ≤ (remember_fair_user ok s user).fair_user_capacity
unfolding remember_fair_user
remember_fair_user-room ok s user h = ground (arith, length-append s.fair_users (user ∷ []))

-- The rest of the state is left alone.
pub remember_fair_user-rest :
    (ok : Bool) (s : ControllerState) (user : ℤ)
    → remember_fair_user ok s user ≡ record s {
      fair_users = (remember_fair_user ok s user).fair_users;
      fair_user_capacity = (remember_fair_user ok s user).fair_user_capacity;
    }
unfolding remember_fair_user
remember_fair_user-rest ok s user = ground arith

remember_fair_user-IsValid :
    (ok : Bool) (s : ControllerState) (user : ℤ)
    → IsValid s
    → IsValid (remember_fair_user ok s user)
remember_fair_user-IsValid ok s user v = rw (remember_fair_user-rest ok s user) (record {
  base = record {
    counted = v.base.counted;
    bounded = v.base.bounded;
    slots = v.base.slots;
    room = remember_fair_user-room ok s user v.base.room;
    running = v.base.running;
    waiting = v.base.waiting;
  };
  busy = v.busy;
})

-- What `handle_submit` does once the user is remembered.
accept-IsValid :
    (env : Env) (s : ControllerState) (job : JobInfo) (last : ℤ)
    → IsValid s
    → s.running_count < s.parallel_limit
    → job.state ≡ job_running
    → IsValid (record s {
      running_queue = enqueue s.running_queue job;
      running_count = s.running_count + 1;
      last_scheduled_user = last;
    })
unfolding enqueue
accept-IsValid env s job last v free e = record {
  base = record {
    counted = omega (arith, v.base.counted, length-append s.running_queue (job ∷ []));
    bounded = omega (arith, free);
    slots = v.base.slots;
    room = v.base.room;
    running = AllIn-append job_running s.running_queue (job ∷ []) v.base.running (e, tt);
    waiting = v.base.waiting;
  };
  busy = elim v.busy [ inl empty ↦ inl empty | inr full ↦ absurd (omega (arith, free, full)) ];
}

wait-IsValid :
    (s : ControllerState) (job : JobInfo)
    → IsValid s
    → ¬ (s.running_count < s.parallel_limit)
    → job.state ≡ job_queued
    → IsValid (record s { waiting_queue = enqueue s.waiting_queue job })
unfolding enqueue
wait-IsValid s job v full e = record {
  base = record {
    counted = v.base.counted;
    bounded = v.base.bounded;
    slots = v.base.slots;
    room = v.base.room;
    running = v.base.running;
    waiting = AllIn-append job_queued s.waiting_queue (job ∷ []) v.base.waiting (e, tt);
  };
  busy = inr (omega (arith, full, v.base.bounded));
}

place_job-IsValid :
    (env : Env) (s : ControllerState) (msg : RpcMessage)
    → IsValid s
    → IsValid (place_job env s msg).0
unfolding place_job
place_job-IsValid env s msg v = elim (Bool-cases (ltb s.running_count s.parallel_limit)) [
  | inl free ↦ elim (Bool-cases env.node_ok) [
    | inl ok ↦ rw (free, ok) (accept-IsValid env s _ msg.user_id v (ground (arith, free)) refl)
    | inr failed ↦ rw (free, failed) v
  ]
  | inr full ↦ elim (Bool-cases env.node_ok) [
    | inl ok ↦ rw (full, ok) (wait-IsValid s _ v (ground (arith, full)) refl)
    | inr failed ↦ rw (full, failed) v
  ]
]

handle_submit-IsValid :
    (env : Env) (s : ControllerState) (msg : RpcMessage)
    → IsValid s
    → IsValid (handle_submit env s msg).0
unfolding handle_submit
handle_submit-IsValid env s msg v =
    place_job-IsValid env (remember_fair_user env.realloc_ok s msg.user_id) msg
      (remember_fair_user-IsValid env.realloc_ok s msg.user_id v)

-- A finished job leaves a free slot, so only the counts are right before the next job is started.
finish_job-IsCounted :
    (env : Env) (s : ControllerState) (msg : RpcMessage)
    → IsValid s
    → IsCounted (finish_job env s msg).0
unfolding finish_job remove_by_command_id
finish_job-IsCounted env s msg v =
    elim (remove_first-TakesOut (λ j. j.command_id) msg.command_id s.running_queue) [
      | inl (t, found, first) ↦
          rw (t.result, finish_job)
            (record {
              counted = ground (arith, v.base.counted, length-TakesOut s.running_queue _ t);
              bounded = ground (arith, v.base.bounded);
              slots = v.base.slots;
              room = v.base.room;
              running =
                  AllIn-without job_running t.before t.taken t.after (rw t.split at v.base.running);
              waiting = v.base.waiting;
            })
      | inr (missing, _) ↦ rw (missing, finish_job) v.base
    ]

pub handle_done-IsValid :
    (env : Env) (s : ControllerState) (msg : RpcMessage)
    → IsValid s
    → IsValid (handle_done env s msg).0
unfolding handle_done
handle_done-IsValid env s msg v =
    start_waiting_jobs-IsValid env (finish_job env s msg).0 (finish_job-IsCounted env s msg v)

-- The invariant does not speak of the flags of the shutdown.
flags-IsValid :
    (s : ControllerState) (keep down : Bool) (pid : ℤ)
    → IsValid s
    → IsValid
        (record s { keep_running = keep; is_shutting_down = down; shutdown_requester_pid = pid })
flags-IsValid s keep down pid v = record {
  base = record {
    counted = v.base.counted;
    bounded = v.base.bounded;
    slots = v.base.slots;
    room = v.base.room;
    running = v.base.running;
    waiting = v.base.waiting;
  };
  busy = v.busy;
}

pub dispatch-IsValid :
    (env : Env) (s : ControllerState) (msg : RpcMessage) (type : MsgType)
    → IsValid s
    → IsValid (dispatch env s msg type).0
unfolding dispatch handle_shutdown_req
dispatch-IsValid env s msg submit v = handle_submit-IsValid env s msg v
dispatch-IsValid env s msg done v = handle_done-IsValid env s msg v
dispatch-IsValid env s msg shutdown_req v = flags-IsValid s s.keep_running true msg.sender_pid v
dispatch-IsValid env s msg status_req v = v
dispatch-IsValid env s msg other v = v

pub try_finish_shutdown-IsValid :
    (s : ControllerState) → IsValid s → IsValid (try_finish_shutdown s).0
unfolding try_finish_shutdown
try_finish_shutdown-IsValid s v =
    elim (Bool-cases
      (not s.is_shutting_down || not (s.running_count == 0) || not (is_empty s.waiting_queue))) [
        | inl stay ↦ rw stay v
        | inr stop ↦ rw stop (flags-IsValid s false s.is_shutting_down s.shutdown_requester_pid v)
      ]

-- A message in a valid state leaves a valid state, whatever its type and whatever the outside answers:
-- `running_count` is the length of the running queue and at most the positive `parallel_limit`, the
-- entries of `fair_users` are within the allocated array, each job's state is that of its queue, and no
-- job waits while a slot is free.
pub controller_handle_message-IsValid :
    (env : Env) (s : ControllerState) (msg : RpcMessage)
    → IsValid s
    → IsValid (controller_handle_message env s msg).0
unfolding controller_handle_message
controller_handle_message-IsValid env s msg v =
    elim (Bool-cases (is_submit msg.type && s.is_shutting_down)) [
      | inl refused ↦ rw refused v
      | inr handled ↦ rw handled (
          try_finish_shutdown-IsValid (dispatch env s msg msg.type).0
            (dispatch-IsValid env s msg msg.type v))
    ]

-- So it holds after any messages.
pub serve-IsValid :
    (s : ControllerState) (msgs : List (Env × RpcMessage)) → IsValid s → IsValid (serve s msgs).0
unfolding serve
serve-IsValid s [] v = v
serve-IsValid s ((env, msg) ∷ more) v = elim (Bool-cases s.keep_running) [
  | inl running ↦
      rw (running, serve)
        (serve-IsValid (controller_handle_message env s msg).0 more
          (controller_handle_message-IsValid env s msg v))
  | inr stopped ↦ rw (stopped, serve) v
]
