-- ===== src/Controller/Order/Policies.antt =====
-- Which waiting jobs `start_waiting_jobs` starts under the default and under the fair policy.
use mathlib.Core.List.{append-nil, append_assoc}
use runner_orchestrator.Base.{
  ℕ, zero, suc, ◌+◌, ◌-◌, ◌≤◌, ◌<◌, ◌≡◌, refl, sym, ap, ◌∙◌, inl, inr, true, false, List, [], ◌∷◌,
  ◌++◌, length, length-append, take, ℤ, arith, dec_lt,
}
use runner_orchestrator.Scheduler.Job.{JobInfo}
use runner_orchestrator.Scheduler.Jobs.{enqueue, dequeue}
use runner_orchestrator.Scheduler.Jobs.Laws.{dequeue_fair-next}
use runner_orchestrator.Scheduler.Jobs.FairOrder.{fair_order, fair_order-cons, fair_order-nil}
use runner_orchestrator.Controller.State.{ControllerState, Env, Round}
use runner_orchestrator.Controller.Status.{same_text, fair_name, is_fair_policy}
use runner_orchestrator.Controller.Handlers.{
  random_name, dequeue_by_policy, start_job, start_loop, start_waiting_jobs,
}
use runner_orchestrator.Controller.Invariant.Start.{
  Leaves, start_cases, left_by, start_loop-stop, start_loop-step,
}
use runner_orchestrator.Controller.Invariant.Loop.{nil_of_length}
use runner_orchestrator.Controller.Order.{as_running, all_running}

-- A job that leaves, and that is the next of an order; `order n last q` lists `n` jobs of `q`.
record TakesNext (order : ℕ → ℤ → List JobInfo → List JobInfo) (s : ControllerState) (r : Round)
    : Type 0 where
  leaves : Leaves s (dequeue_by_policy r s)
  next :
      (n : ℕ)
      → order (suc n) s.last_scheduled_user s.waiting_queue
        ≡ leaves.job ∷ order n leaves.job.user_id (leaves.before ++ leaves.after)

-- A policy that follows an order starts the first jobs of it, as many as there are free slots.
module _ (env : Env) (policy : List ℕ) (fair : List ℤ) (order : ℕ → ℤ → List JobInfo → List JobInfo)
    (order_zero : (last : ℤ) (q : List JobInfo) → order 0 last q ≡ [])
    (order_nil : (n : ℕ) (last : ℤ) → order n last [] ≡ [])
    (takes : (s : ControllerState) (i : ℕ) (j : JobInfo) (q : List JobInfo)
      → s.policy ≡ policy
      → s.fair_users ≡ fair
      → s.waiting_queue ≡ j ∷ q
      → TakesNext order s (env.rounds i))
    (ok : (i : ℕ) → (env.rounds i).node_ok ≡ true) where
  abbrev free_slots : ControllerState → ℕ
  free_slots s = s.parallel_limit - s.running_count

  abbrev in_order : ControllerState → List JobInfo
  in_order s = order (free_slots s) s.last_scheduled_user s.waiting_queue

  no_slot : (s : ControllerState) → ¬ (s.running_count < s.parallel_limit) → free_slots s ≡ 0
  no_slot s full = omega (arith, full)

  one_slot_less :
      (s : ControllerState)
      → s.running_count < s.parallel_limit
      → free_slots s ≡ suc (s.parallel_limit - (s.running_count + 1))
  one_slot_less s free = omega (arith, free)

  nothing_to_start :
      (s : ControllerState)
      → (s.running_count < s.parallel_limit → s.waiting_queue ≡ [])
      → in_order s ≡ []
  nothing_to_start s empty = elim (dec_lt s.running_count s.parallel_limit) [
    | yes free ↦
        ap (order (free_slots s) s.last_scheduled_user) (empty free)
        ∙ order_nil (free_slots s) s.last_scheduled_user
    | no full ↦
        ap (λ n. order n s.last_scheduled_user s.waiting_queue) (no_slot s full)
        ∙ order_zero s.last_scheduled_user s.waiting_queue
  ]

  -- The state after a round with memory.
  abbrev next_state :
      (s : ControllerState) (i : ℕ)
      → Leaves s (dequeue_by_policy (env.rounds i) s)
      → ControllerState
  next_state s i l = record (left_by s l) {
    running_queue = s.running_queue ++ (as_running l.job ∷ []);
    running_count = s.running_count + 1;
    last_scheduled_user = l.job.user_id;
  }

  start_job-next_state :
      (s : ControllerState) (i : ℕ) (l : Leaves s (dequeue_by_policy (env.rounds i) s))
      → (start_job env (env.rounds i) (left_by s l) l.job).0 ≡ next_state s i l
  unfolding start_job enqueue
  start_job-next_state s i l = rw (ok i) refl

  length_left :
      (s : ControllerState) {o : _} (l : Leaves s o)
      → length s.waiting_queue ≡ suc (length (l.before ++ l.after))
  length_left s l = omega (
    arith,
    ap length l.split,
    length-append l.before (l.job ∷ l.after),
    length-append l.before l.after,
  )

  start_loop-order :
      (k i : ℕ) (s : ControllerState)
      → s.policy ≡ policy
      → s.fair_users ≡ fair
      → length s.waiting_queue ≤ k
      → (start_loop env k i s).0.running_queue ≡ s.running_queue ++ all_running (in_order s)
  start_loop-order zero i s p f h =
      unfold start_loop in
      rw (nothing_to_start s (λ _. nil_of_length s.waiting_queue h))
        (sym (append-nil s.running_queue))
  start_loop-order (suc k) i s p f h = elim (start_cases s) [
    | inl (stop, empty) ↦
        rw (start_loop-stop env (suc k) i s stop, nothing_to_start s empty)
          (sym (append-nil s.running_queue))
    | inr (go, free, j, q, e) ↦
        let t = takes s i j q p f e in
        let l = t.leaves in
        rw (start_loop-step env k i s go l, start_job-next_state s i l)
          (start_loop-order k (i + 1) (next_state s i l) p f (omega (arith, h, length_left s l))
            ∙ append_assoc s.running_queue (as_running l.job ∷ [])
                (all_running (in_order (next_state s i l)))
            ∙ ap (λ jobs. s.running_queue ++ all_running jobs)
                (sym (
                  ap (λ n. order n s.last_scheduled_user s.waiting_queue) (one_slot_less s free)
                  ∙ t.next (s.parallel_limit - (s.running_count + 1)))))
  ]

take-nil : (n : ℕ) → take {A = JobInfo} n [] ≡ []
take-nil zero = refl
take-nil (suc n) = refl

-- Without a policy of another name the head leaves.
fcfs_takes :
    (s : ControllerState) (r : Round) (j : JobInfo) (q : List JobInfo)
    → same_text s.policy random_name ≡ false
    → is_fair_policy s ≡ false
    → s.waiting_queue ≡ j ∷ q
    → TakesNext (λ n last l. take n l) s r
unfolding dequeue_by_policy dequeue
fcfs_takes s r j q random fair e = record {
  leaves = record {
    job = j;
    before = [];
    after = q;
    last = s.last_scheduled_user;
    split = e;
    result = rw (random, fair, e);
  };
  next = λ n. rw e;
}

pub not_random :
    (policy : List ℕ) → same_text policy fair_name ≡ true → same_text policy random_name ≡ false
unfolding same_text
not_random [] e = refl
not_random (a ∷ more) e = ground (arith, e)

-- The job whose user's turn it is leaves.
fair_takes :
    (s : ControllerState) (r : Round) (j : JobInfo) (q : List JobInfo)
    → is_fair_policy s ≡ true
    → r.users_ok ≡ true
    → s.waiting_queue ≡ j ∷ q
    → TakesNext (λ n last l. fair_order n s.fair_users last l) s r
unfolding dequeue_by_policy
fair_takes s r j q fair ok e =
    let t = (dequeue_fair-next s.fair_users s.last_scheduled_user j q).0 in
    record {
      leaves = record {
        job = t.taken;
        before = t.before;
        after = t.after;
        last = t.taken.user_id;
        split = e ∙ t.split;
        result = rw (not_random s.policy (unfold is_fair_policy in fair), fair, ok, e, t.result);
      };
      next = λ n. rw e (
          fair_order-cons n s.fair_users s.last_scheduled_user (j ∷ q) t.taken (t.before ++ t.after)
            t.result);
    }

-- When neither the random nor the fair policy is named and there is memory for the nodes, the jobs that
-- `start_waiting_jobs` puts behind the running queue are the first of the waiting queue, as many as there
-- are free slots.
pub start_waiting_jobs-fcfs :
    (env : Env) (s : ControllerState)
    → same_text s.policy random_name ≡ false
    → is_fair_policy s ≡ false
    → ((i : ℕ) → (env.rounds i).node_ok ≡ true)
    → (start_waiting_jobs env s).0.running_queue
      ≡ s.running_queue ++ all_running (take (s.parallel_limit - s.running_count) s.waiting_queue)
unfolding start_waiting_jobs is_fair_policy
start_waiting_jobs-fcfs env s random fair ok =
    start_loop-order env s.policy s.fair_users (λ n last q. take n q) (λ last q. refl)
      (λ n last. take-nil n)
      (λ s' i j q p f e.
        fcfs_takes s' (env.rounds i) j q (rw p random) (unfold is_fair_policy in rw p fair) e)
      ok (length s.waiting_queue) 0 s refl refl (omega arith)

-- When the fair policy is named and there is memory for the users and the nodes, the jobs that
-- `start_waiting_jobs` puts behind the running queue are the first of the fair order of the waiting queue,
-- as many as there are free slots.
pub start_waiting_jobs-fair :
    (env : Env) (s : ControllerState)
    → is_fair_policy s ≡ true
    → ((i : ℕ) → (env.rounds i).users_ok ≡ true)
    → ((i : ℕ) → (env.rounds i).node_ok ≡ true)
    → (start_waiting_jobs env s).0.running_queue
      ≡ s.running_queue
        ++ all_running (
            fair_order
              (s.parallel_limit - s.running_count)
              s.fair_users
              s.last_scheduled_user
              s.waiting_queue)
unfolding start_waiting_jobs is_fair_policy
start_waiting_jobs-fair env s fair users ok =
    start_loop-order env s.policy s.fair_users (λ n last q. fair_order n s.fair_users last q)
      (λ last q. unfold fair_order in refl) (λ n last. fair_order-nil n s.fair_users last)
      (λ s' i j q p f e.
        rw (← f)
          (fair_takes s' (env.rounds i) j q (unfold is_fair_policy in rw p fair) (users i) e))
      ok (length s.waiting_queue) 0 s refl refl (omega arith)
