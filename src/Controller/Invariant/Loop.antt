-- ===== src/Controller/Invariant/Loop.antt =====
-- The loop of `start_waiting_jobs`, by induction on its rounds.
use runner_orchestrator.Base.{
  ℕ, zero, suc, ◌+◌, ◌≤◌, ◌<◌, ◌≡◌, refl, ap, inl, inr, Bool-cases, List, [], ◌∷◌, ◌++◌, length,
  length-append, Option, arith, dec_lt,
}
use runner_orchestrator.Scheduler.Job.{JobInfo, job_running, job_queued}
use runner_orchestrator.Scheduler.Jobs.{enqueue}
use runner_orchestrator.Controller.State.{ControllerState, Env, Round}
use runner_orchestrator.Controller.Handlers.{start_job, start_loop, start_waiting_jobs}
use runner_orchestrator.Controller.Invariant.{AllIn, IsCounted, IsBusy, IsValid}
use runner_orchestrator.Controller.Invariant.Start.{
  Leaves, dequeue_by_policy-Leaves, AllIn-append, AllIn-without, start_cases, left_by,
  start_loop-stop, start_loop-step,
}

module _ (env : Env) (r : Round) (s : ControllerState) {o : Option (JobInfo × ControllerState)}
    (l : Leaves s o) where
  -- One round keeps the counts, whether there is memory for the node or not.
  start_job-IsCounted :
      IsCounted s
      → s.running_count < s.parallel_limit
      → IsCounted (start_job env r (left_by s l) l.job).0
  unfolding start_job enqueue
  start_job-IsCounted v free = elim (Bool-cases r.node_ok) [
    | inl ok ↦ rw ok (record {
      counted = omega (
        arith,
        v.counted,
        length-append s.running_queue (record l.job { state = job_running } ∷ []),
      );
      bounded = omega (arith, free);
      slots = v.slots;
      room = v.room;
      running =
          AllIn-append job_running s.running_queue (record l.job { state = job_running } ∷ [])
            v.running (refl, tt);
      waiting = waiting;
    })
    | inr failed ↦ rw failed (record {
      counted = v.counted;
      bounded = v.bounded;
      slots = v.slots;
      room = v.room;
      running = v.running;
      waiting = waiting;
    })
  ]
    where
      waiting : AllIn job_queued (l.before ++ l.after)
      waiting = AllIn-without job_queued l.before l.job l.after (rw l.split at v.waiting)

  -- The waiting queue is one job shorter after a round.
  start_job-shorter :
      (k : ℕ)
      → length s.waiting_queue ≤ suc k
      → length (start_job env r (left_by s l) l.job).0.waiting_queue ≤ k
  unfolding start_job
  start_job-shorter k h = elim (Bool-cases r.node_ok) [
    | inl ok ↦ rw ok less
    | inr failed ↦ rw failed less
  ]
    where
      less : length (l.before ++ l.after) ≤ k
      less = omega (
        arith,
        h,
        ap length l.split,
        length-append l.before (l.job ∷ l.after),
        length-append l.before l.after,
      )

pub nil_of_length : (q : List JobInfo) → length q ≤ 0 → q ≡ []
nil_of_length [] h = refl
nil_of_length (j ∷ q) h = absurd (omega arith)

IsBusy-of :
    (s : ControllerState)
    → IsCounted s
    → (s.running_count < s.parallel_limit → s.waiting_queue ≡ [])
    → IsBusy s
IsBusy-of s v empty = elim (dec_lt s.running_count s.parallel_limit) [
  | yes free ↦ inl (empty free)
  | no full ↦ inr (omega (arith, v.bounded))
]

start_loop-IsValid :
    (env : Env) (k i : ℕ) (s : ControllerState)
    → IsCounted s
    → length s.waiting_queue ≤ k
    → IsValid (start_loop env k i s).0
start_loop-IsValid env zero i s v h =
    unfold start_loop in record { base = v; busy = inl (nil_of_length s.waiting_queue h) }
start_loop-IsValid env (suc k) i s v h = elim (start_cases s) [
  | inl (stop, empty) ↦
      rw (start_loop-stop env (suc k) i s stop) (record { base = v; busy = IsBusy-of s v empty })
  | inr (go, free, j, q, e) ↦
      let l = dequeue_by_policy-Leaves (env.rounds i) s j q e in
      rw (start_loop-step env k i s go l) (
        start_loop-IsValid env k (i + 1) (start_job env (env.rounds i) (left_by s l) l.job).0
          (start_job-IsCounted env (env.rounds i) s l v free)
          (start_job-shorter env (env.rounds i) s l k h))
]

-- When the counts, the array of users and the states of the jobs are right, they are right after
-- `start_waiting_jobs`, and then every slot is taken or no job waits.
pub start_waiting_jobs-IsValid :
    (env : Env) (s : ControllerState) → IsCounted s → IsValid (start_waiting_jobs env s).0
unfolding start_waiting_jobs
start_waiting_jobs-IsValid env s v =
    start_loop-IsValid env (length s.waiting_queue) 0 s v (omega arith)
