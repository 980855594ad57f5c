-- ===== src/Controller/Load.antt =====
-- controller_handlers.c: how many jobs a controller holds that is shutting down.
use runner_orchestrator.Base.{
  ℕ, zero, suc, ◌+◌, ◌≡◌, refl, ap, ◌∙◌, inl, inr, Bool, true, false, Bool-cases, not, ◌&&◌, ◌||◌,
  ◌==◌, if◌then◌else◌, List, [], ◌∷◌, length, length-append, Option, arith,
}
use runner_orchestrator.Protocol.{RpcMessage, MsgType, submit, done, shutdown_req}
use runner_orchestrator.Scheduler.Job.{JobInfo, job_running}
use runner_orchestrator.Scheduler.Jobs.{enqueue, remove_by_command_id}
use runner_orchestrator.Scheduler.Jobs.Laws.{remove_first-TakesOut}
use runner_orchestrator.Controller.State.{ControllerState, Env}
use runner_orchestrator.Controller.Handlers.{
  finish_job, handle_done, start_job, start_loop, start_waiting_jobs, handle_shutdown_req,
  try_finish_shutdown, is_empty,
}
use runner_orchestrator.Controller.Messages.{dispatch, controller_handle_message, is_submit}
use runner_orchestrator.Controller.Invariant.Start.{
  Leaves, dequeue_by_policy-Leaves, start_cases, left_by, start_loop-stop, start_loop-step,
}
use runner_orchestrator.Controller.Conservation.{
  HasMemory, is_running, is_done, is_done_of_submit, count_of-same, count_in-missing,
  count_in-middle, count_in,
}

-- The jobs in both queues.
abbrev pub load : ControllerState → ℕ
load s = length s.waiting_queue + length s.running_queue

-- The second state has the jobs of the first, in whichever queue, and is shutting down if it is.
record SameLoad (s s' : ControllerState) : Type 0 where
  pub jobs : load s' ≡ load s
  pub down : s'.is_shutting_down ≡ s.is_shutting_down

SameLoad-trans : (s s' s'' : ControllerState) → SameLoad s s' → SameLoad s' s'' → SameLoad s s''
SameLoad-trans s s' s'' a b = record { jobs = b.jobs ∙ a.jobs; down = b.down ∙ a.down }

-- Whether a message is the DONE of a job that runs.
abbrev pub ends_job : ControllerState → RpcMessage → Bool
ends_job s msg = is_done msg.type && is_running msg.command_id s

-- How many of the messages that the loop handles are, each when it comes, the DONE of a job that runs.
unfoldable pub ended : ControllerState → List (Env × RpcMessage) → ℕ
ended s [] = 0
ended s ((env, msg) ∷ more) =
    let later = ended (controller_handle_message env s msg).0 more in
    if s.keep_running then (if ends_job s msg then suc later else later) else 0

-- There is memory for the nodes while the messages are handled.
abbrev pub AllMemory : List (Env × RpcMessage) → Type 0
AllMemory [] = Unit {0}
AllMemory ((env, msg) ∷ more) = HasMemory env × AllMemory more

module _ (env : Env) (m : HasMemory env) where
  start_job-SameLoad :
      (i : ℕ) (s : ControllerState) {o : Option (JobInfo × ControllerState)} (l : Leaves s o)
      → SameLoad s (start_job env (env.rounds i) (left_by s l) l.job).0
  unfolding start_job enqueue
  start_job-SameLoad i s l = rw (m.nodes i) (record {
    jobs = omega (
      arith,
      ap length l.split,
      length-append l.before (l.job ∷ l.after),
      length-append l.before l.after,
      length-append s.running_queue (record l.job { state = job_running } ∷ []),
    );
    down = refl;
  })

  start_loop-SameLoad : (k i : ℕ) (s : ControllerState) → SameLoad s (start_loop env k i s).0
  start_loop-SameLoad zero i s = unfold start_loop in record { jobs = refl; down = refl }
  start_loop-SameLoad (suc k) i s = elim (start_cases s) [
    | inl (stop, _) ↦
        rw (start_loop-stop env (suc k) i s stop) (record { jobs = refl; down = refl })
    | inr (go, free, j, q, e) ↦
        let l = dequeue_by_policy-Leaves (env.rounds i) s j q e in
        let s' = (start_job env (env.rounds i) (left_by s l) l.job).0 in
        rw (start_loop-step env k i s go l) (
          SameLoad-trans s s' (start_loop env k (i + 1) s').0 (start_job-SameLoad i s l)
            (start_loop-SameLoad k (i + 1) s'))
  ]

  -- The DONE of a running job, wherever in the queue, takes a job away, and any other none.
  finish_job-load :
      (s : ControllerState) (msg : RpcMessage)
      → ((if is_running msg.command_id s
            then suc (load (finish_job env s msg).0)
            else load (finish_job env s msg).0)
          ≡ load s)
        × ((finish_job env s msg).0.is_shutting_down ≡ s.is_shutting_down)
  unfolding finish_job remove_by_command_id
  finish_job-load s msg =
      elim (remove_first-TakesOut (λ j. j.command_id) msg.command_id s.running_queue) [
        | inl (t, found, first) ↦
            let one =
              ap (count_in msg.command_id) t.split
              ∙ count_in-middle msg.command_id t.before t.taken t.after in
            rw (t.result, finish_job)
              (
                ground (
                  arith,
                  one,
                  found,
                  count_of-same msg.command_id,
                  ap length t.split,
                  length-append t.before (t.taken ∷ t.after),
                  length-append t.before t.after,
                ),
                refl,
              )
        | inr (missing, absent) ↦
            rw (missing, finish_job)
              (ground (arith, count_in-missing msg.command_id s.running_queue absent), refl)
      ]

  try_finish_shutdown-SameLoad : (s : ControllerState) → SameLoad s (try_finish_shutdown s).0
  unfolding try_finish_shutdown
  try_finish_shutdown-SameLoad s =
      elim (Bool-cases
        (not s.is_shutting_down || not (s.running_count == 0) || not (is_empty s.waiting_queue))) [
          | inl stay ↦ rw stay (record { jobs = refl; down = refl })
          | inr stop ↦ rw stop (record { jobs = refl; down = refl })
        ]

  -- What a message does to the number of jobs of a controller that is shutting down.
  pub record Served (s t : ControllerState) (one : Bool) : Type 0 where
    pub jobs : (if one then suc (load t) else load t) ≡ load s
    pub down : t.is_shutting_down ≡ true

  dispatch-Served :
      (s : ControllerState) (msg : RpcMessage) (type : MsgType)
      → s.is_shutting_down ≡ true
      → is_submit type ≡ false
      → Served s (dispatch env s msg type).0 (is_done type && is_running msg.command_id s)
  unfolding dispatch handle_done start_waiting_jobs handle_shutdown_req
  dispatch-Served s msg submit down other = absurd cc
  dispatch-Served s msg done down other =
      let f = (finish_job env s msg).0 in
      let (less, same) = finish_job-load s msg in
      let started = start_loop-SameLoad (length f.waiting_queue) 0 f in
      record { jobs = ground (arith, less, started.jobs); down = started.down ∙ same ∙ down }
  dispatch-Served s msg shutdown_req down other = record { jobs = refl; down = refl }
  dispatch-Served s msg other down o = record { jobs = refl; down = down }

  pub handled-Served :
      (s : ControllerState) (msg : RpcMessage)
      → s.is_shutting_down ≡ true
      → Served s (controller_handle_message env s msg).0 (ends_job s msg)
  unfolding controller_handle_message
  handled-Served s msg down = elim (Bool-cases (is_submit msg.type && s.is_shutting_down)) [
    | inl refused ↦
        rw refused
          (record { jobs = ground (arith, is_done_of_submit msg.type, refused); down = down })
    | inr accepted ↦
        let t = (dispatch env s msg msg.type).0 in
        let d = dispatch-Served s msg msg.type down (ground (arith, accepted, down)) in
        let last = try_finish_shutdown-SameLoad t in
        rw accepted (record { jobs = ground (arith, d.jobs, last.jobs); down = last.down ∙ d.down })
  ]
