-- ===== src/Controller/Invariant/Start.antt =====
-- One round of `start_waiting_jobs`: what leaves the waiting queue, and what the loop does then.
use runner_orchestrator.Base.{
  ℕ, zero, suc, ◌+◌, ◌<◌, ◌≡◌, refl, ◌⊎◌, inl, inr, Bool, true, false, Bool-cases, not, ◌&&◌, ltb,
  ◌==◌, List, [], ◌∷◌, ◌++◌, length, List-cases, Option, some, ℤ, arith,
}
use runner_orchestrator.Scheduler.Job.{JobInfo, JobState}
use runner_orchestrator.Scheduler.Jobs.{Taken, dequeue}
use runner_orchestrator.Scheduler.Jobs.Laws.{
  TakesOut, dequeue_random-TakesOut, dequeue_fair-TakesOut,
}
use runner_orchestrator.Controller.State.{ControllerState, Env, Round}
use runner_orchestrator.Controller.Status.{same_text, is_fair_policy}
use runner_orchestrator.Controller.Handlers.{
  random_name, leave_waiting, leave_fairly, dequeue_by_policy, start_job, start_loop, then_do,
}
use runner_orchestrator.Controller.Invariant.{AllIn}

-- A job left the waiting queue; besides, at most the last scheduled user is new.
pub record Leaves (s : ControllerState) (r : Option (JobInfo × ControllerState)) : Type 0 where
  pub job : JobInfo
  pub before : List JobInfo
  pub after : List JobInfo
  pub last : ℤ
  pub split : s.waiting_queue ≡ before ++ (job ∷ after)
  pub result :
      r ≡ some (job, record s { waiting_queue = before ++ after; last_scheduled_user = last })

leave_waiting-Leaves :
    (s : ControllerState) (r : Taken) → TakesOut s.waiting_queue r → Leaves s (leave_waiting s r)
leave_waiting-Leaves s r t = record {
  job = t.taken;
  before = t.before;
  after = t.after;
  last = s.last_scheduled_user;
  split = t.split;
  result = rw t.result;
}

leave_fairly-Leaves :
    (s : ControllerState) (r : Taken) → TakesOut s.waiting_queue r → Leaves s (leave_fairly s r)
leave_fairly-Leaves s r t = record {
  job = t.taken;
  before = t.before;
  after = t.after;
  last = t.taken.user_id;
  split = t.split;
  result = rw t.result;
}

-- While jobs wait, every policy takes one.
pub dequeue_by_policy-Leaves :
    (r : Round) (s : ControllerState) (j : JobInfo) (q : List JobInfo)
    → s.waiting_queue ≡ j ∷ q
    → Leaves s (dequeue_by_policy r s)
unfolding dequeue_by_policy
dequeue_by_policy-Leaves r s j q e = elim (Bool-cases (same_text s.policy random_name)) [
  | inl random ↦ rw random (leave_waiting-Leaves s _ (rw e (dequeue_random-TakesOut r.rand j q).0))
  | inr other ↦ elim (Bool-cases (is_fair_policy s)) [
    | inl fair ↦
        rw (other, fair)
          (leave_fairly-Leaves s _
            (rw e (dequeue_fair-TakesOut r.users_ok s.fair_users s.last_scheduled_user j q)))
    | inr fcfs ↦
        rw (other, fcfs)
          (leave_waiting-Leaves s _ (
            unfold dequeue in
            rw e (record { taken = j; before = []; after = q; split = refl; result = refl })))
  ]
]

pub AllIn-append :
    (st : JobState) (xs ys : List JobInfo) → AllIn st xs → AllIn st ys → AllIn st (xs ++ ys)
AllIn-append st [] ys a b = b
AllIn-append st (x ∷ xs) ys a b = (a.0, AllIn-append st xs ys a.1 b)

pub AllIn-without :
    (st : JobState) (xs : List JobInfo) (t : JobInfo) (ys : List JobInfo)
    → AllIn st (xs ++ (t ∷ ys))
    → AllIn st (xs ++ ys)
AllIn-without st [] t ys a = a.1
AllIn-without st (x ∷ xs) t ys a = (a.0, AllIn-without st xs t ys a.1)

-- The loop's test.
abbrev pub may_start : ControllerState → Bool
may_start s = ltb s.running_count s.parallel_limit && not (length s.waiting_queue == 0)

-- A free slot and a waiting job, or the loop's end.
pub start_cases :
    (s : ControllerState)
    → ((may_start s ≡ false) × ((s.running_count < s.parallel_limit) → s.waiting_queue ≡ []))
      ⊎ ((may_start s ≡ true)
          × (s.running_count < s.parallel_limit)
          × (j : JobInfo) × (q : List JobInfo) × (s.waiting_queue ≡ j ∷ q))
start_cases s = elim (List-cases s.waiting_queue) [
  | inl e ↦ inl (ground (arith, e), λ _. e)
  | inr (j, q, e) ↦ elim (Bool-cases (ltb s.running_count s.parallel_limit)) [
    | inl free ↦ inr (ground (arith, e, free), ground (arith, free), j, q, e)
    | inr full ↦ inl (ground (arith, e, full), λ h. absurd (ground (arith, full)))
  ]
]

abbrev pub left_by :
    (s : ControllerState) {r : Option (JobInfo × ControllerState)} → Leaves s r → ControllerState
left_by s l = record s { waiting_queue = l.before ++ l.after; last_scheduled_user = l.last }

pub start_loop-stop :
    (env : Env) (k i : ℕ) (s : ControllerState)
    → may_start s ≡ false
    → start_loop env k i s ≡ (s, [])
unfolding start_loop
start_loop-stop env zero i s stop = refl
start_loop-stop env (suc k) i s stop = rw (stop, start_loop)

module _ (env : Env) (k i : ℕ) (s : ControllerState) where
  pub start_loop-step :
      may_start s ≡ true
      → (l : Leaves s (dequeue_by_policy (env.rounds i) s))
      → start_loop env (suc k) i s
        ≡ then_do
            (start_loop env k (i + 1) (start_job env (env.rounds i) (left_by s l) l.job).0)
            (start_job env (env.rounds i) (left_by s l) l.job).1
  unfolding start_loop
  start_loop-step go l = rw (go, l.result, start_loop)
