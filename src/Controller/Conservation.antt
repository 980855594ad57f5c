-- ===== src/Controller/Conservation.antt =====
-- How many jobs with an identifier the controller holds.
use runner_orchestrator.Base.{
  ℕ, zero, suc, ◌+◌, ◌≡◌, refl, ap, ◌∙◌, inl, inr, Bool, true, false, Bool-cases, not, ◌&&◌, ◌||◌,
  ltb, ◌==◌, if◌then◌else◌, ite, if_pos, if_neg, List, [], ◌∷◌, ◌++◌, length, Option, ℤ, ℤ_discrete,
  arith,
}
use runner_orchestrator.Protocol.{RpcMessage, MsgType, submit, done}
use runner_orchestrator.Scheduler.Job.{JobInfo, job_running, job_queued, JobState}
use runner_orchestrator.Scheduler.Fair.{user_exists}
use runner_orchestrator.Scheduler.Jobs.{enqueue, remove_by_command_id}
use runner_orchestrator.Scheduler.Jobs.Laws.{keys, remove_first-TakesOut}
use runner_orchestrator.Controller.State.{ControllerState, Env, Round}
use runner_orchestrator.Controller.Handlers.{
  submitted_job, remember_fair_user, handle_submit, place_job, finish_job, handle_done, start_job,
  start_loop, start_waiting_jobs, handle_shutdown_req, try_finish_shutdown, is_empty,
}
use runner_orchestrator.Controller.Messages.{dispatch, controller_handle_message, is_submit}
use runner_orchestrator.Controller.Invariant.Start.{
  Leaves, dequeue_by_policy-Leaves, start_cases, left_by, start_loop-stop, start_loop-step,
}
use runner_orchestrator.Controller.Invariant.Keep.{remember_fair_user-rest}

-- 1 for a job with the identifier, 0 for another.
unfoldable pub count_of : ℤ → ℤ → ℕ
count_of id command = ite (ℤ_discrete command id) 1 0

unfoldable pub count_in : ℤ → List JobInfo → ℕ
count_in id [] = 0
count_in id (j ∷ q) = count_of id j.command_id + count_in id q

-- The jobs with the identifier in both queues.
abbrev pub held : ℤ → ControllerState → ℕ
held id s = count_in id s.waiting_queue + count_in id s.running_queue

module _ (id : ℤ) where
  count_in-append :
      (xs ys : List JobInfo) → count_in id (xs ++ ys) ≡ count_in id xs + count_in id ys
  unfolding count_in
  count_in-append [] ys = omega arith
  count_in-append (j ∷ xs) ys = omega (arith, count_in-append xs ys)

  count_in-single : (j : JobInfo) → count_in id (j ∷ []) ≡ count_of id j.command_id
  unfolding count_in
  count_in-single j = omega arith

  -- A job out of the middle.
  pub count_in-middle :
      (xs : List JobInfo) (j : JobInfo) (ys : List JobInfo)
      → count_in id (xs ++ (j ∷ ys)) ≡ count_of id j.command_id + count_in id (xs ++ ys)
  unfolding count_in
  count_in-middle xs j ys = omega (arith, count_in-append xs (j ∷ ys), count_in-append xs ys)

  -- A round moves a job.
  start_job-held :
      (env : Env) (r : Round) (s : ControllerState) {o : Option (JobInfo × ControllerState)}
      (l : Leaves s o)
      → r.node_ok ≡ true
      → held id (start_job env r (left_by s l) l.job).0 ≡ held id s
  unfolding start_job enqueue
  start_job-held env r s l ok = rw ok (
      omega (
        arith,
        ap (count_in id) l.split,
        count_in-middle l.before l.job l.after,
        count_in-append s.running_queue (moved ∷ []),
        count_in-single moved,
      ))
    where
      moved : JobInfo
      moved = record l.job { state = job_running }

  start_loop-held :
      (env : Env)
      → ((i : ℕ) → (env.rounds i).node_ok ≡ true)
      → (k i : ℕ) (s : ControllerState) → held id (start_loop env k i s).0 ≡ held id s
  start_loop-held env ok zero i s = unfold start_loop in refl
  start_loop-held env ok (suc k) i s = elim (start_cases s) [
    | inl (stop, _) ↦ rw (start_loop-stop env (suc k) i s stop) refl
    | inr (go, free, j, q, e) ↦
        let l = dequeue_by_policy-Leaves (env.rounds i) s j q e in
        rw (start_loop-step env k i s go l) (
          start_loop-held env ok k (i + 1) (start_job env (env.rounds i) (left_by s l) l.job).0
          ∙ start_job-held env (env.rounds i) s l (ok i))
  ]

-- Memory for each node.
pub record HasMemory (env : Env) : Type 0 where
  pub node : env.node_ok ≡ true
  pub nodes : (i : ℕ) → (env.rounds i).node_ok ≡ true

abbrev pub is_running : ℤ → ControllerState → Bool
is_running command s = ltb 0 (count_in command s.running_queue)

pub count_of-same : (id : ℤ) → count_of id id ≡ 1
unfolding count_of
count_of-same id = rw (if_pos (ℤ_discrete id id) refl) refl

pub count_in-missing :
    (v : ℤ) (q : List JobInfo)
    → user_exists (keys (λ j. j.command_id) q) v ≡ false
    → count_in v q ≡ 0
unfolding count_in count_of user_exists
count_in-missing v [] h = refl
count_in-missing v (j ∷ q) h = elim (ℤ_discrete j.command_id v) [
  | yes hit ↦ cc (rw (if_pos _ hit) at h)
  | no miss ↦ rw (if_neg _ miss) (omega (arith, count_in-missing v q (rw (if_neg _ miss) at h)))
]

finish_job-held :
    (id : ℤ) (env : Env) (s : ControllerState) (msg : RpcMessage)
    → held id (finish_job env s msg).0
        + (if is_running msg.command_id s then count_of id msg.command_id else 0)
      ≡ held id s
unfolding finish_job remove_by_command_id
finish_job-held id env s msg =
    elim (remove_first-TakesOut (λ j. j.command_id) msg.command_id s.running_queue) [
      | inl (t, found, first) ↦
          let all = ap (count_in id) t.split ∙ count_in-middle id t.before t.taken t.after in
          let one =
            ap (count_in msg.command_id) t.split
            ∙ count_in-middle msg.command_id t.before t.taken t.after in
          rw (t.result, finish_job) (ground (arith, all, one, found, count_of-same msg.command_id))
      | inr (missing, absent) ↦
          rw (missing, finish_job)
            (ground (arith, count_in-missing msg.command_id s.running_queue absent))
    ]

handle_done-held :
    (id : ℤ) (env : Env) (s : ControllerState) (msg : RpcMessage)
    → HasMemory env
    → held id (handle_done env s msg).0
        + (if is_running msg.command_id s then count_of id msg.command_id else 0)
      ≡ held id s
unfolding handle_done start_waiting_jobs
handle_done-held id env s msg m =
    ap (λ n. n + (if is_running msg.command_id s then count_of id msg.command_id else 0))
      (start_loop-held id env m.nodes (length (finish_job env s msg).0.waiting_queue) 0
        (finish_job env s msg).0)
    ∙ finish_job-held id env s msg

place_job-held :
    (id : ℤ) (env : Env) (s : ControllerState) (msg : RpcMessage)
    → HasMemory env
    → held id (place_job env s msg).0 ≡ held id s + count_of id msg.command_id
unfolding place_job enqueue submitted_job
place_job-held id env s msg m = elim (Bool-cases (ltb s.running_count s.parallel_limit)) [
  | inl free ↦ rw (free, m.node) (omega (arith, added s.running_queue job_running))
  | inr full ↦ rw (full, m.node) (omega (arith, added s.waiting_queue job_queued))
]
  where
    added :
        (q : List JobInfo) (state : JobState)
        → count_in id (q ++ (submitted_job env msg state ∷ []))
          ≡ count_in id q + count_of id msg.command_id
    added q state = omega (
      arith,
      count_in-append id q (submitted_job env msg state ∷ []),
      count_in-single id (submitted_job env msg state),
    )

handle_submit-held :
    (id : ℤ) (env : Env) (s : ControllerState) (msg : RpcMessage)
    → HasMemory env
    → held id (handle_submit env s msg).0 ≡ held id s + count_of id msg.command_id
unfolding handle_submit
handle_submit-held id env s msg m =
    place_job-held id env (remember_fair_user env.realloc_ok s msg.user_id) msg m
    ∙ rw (remember_fair_user-rest env.realloc_ok s msg.user_id) refl

-- What a message brings, and what it takes away.
abbrev pub brought : ℤ → ControllerState → RpcMessage → ℕ
brought id s msg =
    if is_submit msg.type && not s.is_shutting_down then count_of id msg.command_id else 0

abbrev pub is_done : MsgType → Bool
is_done done = true
is_done other = false

abbrev pub taken_away : ℤ → ControllerState → RpcMessage → ℕ
taken_away id s msg =
    if is_done msg.type && is_running msg.command_id s then count_of id msg.command_id else 0

pub is_done_of_submit : (type : MsgType) → is_submit type ≡ true → is_done type ≡ false
is_done_of_submit submit h = refl
is_done_of_submit other h = cc

try_finish_shutdown-held :
    (id : ℤ) (s : ControllerState) → held id (try_finish_shutdown s).0 ≡ held id s
unfolding try_finish_shutdown
try_finish_shutdown-held id s =
    elim (Bool-cases
      (not s.is_shutting_down || not (s.running_count == 0) || not (is_empty s.waiting_queue))) [
        | inl stay ↦ rw stay refl
        | inr stop ↦ rw stop refl
      ]

dispatch-held :
    (id : ℤ) (env : Env) (s : ControllerState) (msg : RpcMessage) (type : MsgType)
    → HasMemory env
    → (is_submit type && s.is_shutting_down) ≡ false
    → held id (dispatch env s msg type).0
        + (if is_done type && is_running msg.command_id s then count_of id msg.command_id else 0)
      ≡ held id s
        + (if is_submit type && not s.is_shutting_down then count_of id msg.command_id else 0)
unfolding dispatch handle_shutdown_req
dispatch-held id env s msg submit m accepted =
    ground (arith, accepted, handle_submit-held id env s msg m)
dispatch-held id env s msg done m accepted = omega (arith, handle_done-held id env s msg m)
dispatch-held id env s msg other m accepted = refl

-- Given memory for the nodes, a message neither loses nor doubles a job: for every identifier, the number of
-- jobs with it in the two queues grows by one for a submission of it that is not refused, shrinks by one
-- for a DONE of it while a job with it runs, and else stays.
pub controller_handle_message-held :
    (id : ℤ) (env : Env) (s : ControllerState) (msg : RpcMessage)
    → HasMemory env
    → held id (controller_handle_message env s msg).0 + taken_away id s msg
      ≡ held id s + brought id s msg
unfolding controller_handle_message
controller_handle_message-held id env s msg m =
    elim (Bool-cases (is_submit msg.type && s.is_shutting_down)) [
      | inl refused ↦ rw refused (ground (arith, refused, is_done_of_submit msg.type))
      | inr accepted ↦ rw accepted (
          ap (λ n. n + taken_away id s msg)
            (try_finish_shutdown-held id (dispatch env s msg msg.type).0)
          ∙ dispatch-held id env s msg msg.type m accepted)
    ]
