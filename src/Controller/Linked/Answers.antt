-- ===== src/Controller/Linked/Answers.antt =====
-- The loop of `start_waiting_jobs` on lists, for the answers that `malloc` gave in its rounds.
use runner_orchestrator.Base.{
  ℕ, zero, suc, ◌+◌, ◌≤◌, ◌≡◌, refl, sym, ◌∙◌, Bool, true, Bool-cases, List, ◌++◌, some, inl, inr,
  arith,
}
use runner_orchestrator.Scheduler.Job.{JobInfo}
use runner_orchestrator.Store.{Heap}
use runner_orchestrator.Controller.State.{ControllerState, Env, Round, Effect}
use runner_orchestrator.Controller.Handlers.{
  dequeue_by_policy, start_job, start_loop, then_do, send_ack_to_runner,
}
use runner_orchestrator.Controller.Invariant.Start.{
  dequeue_by_policy-Leaves, left_by, start_cases, may_start, start_loop-stop,
}
use runner_orchestrator.Controller.Linked.{Rounds, answer_at}
use runner_orchestrator.Controller.Linked.Views.{Does}

-- The outside with these answers of `malloc` in the rounds.
abbrev pub answered : Env → (ℕ → Bool) → Env
answered env a = record env { rounds = λ i. record (env.rounds i) { node_ok = a i } }

-- A round in which there is memory for the node, or not.
abbrev pub round : Env → ℕ → Bool → Round
round env i ok = record (env.rounds i) { node_ok = ok }

module _ (env : Env) where
  pub start_loop-took :
      (a : ℕ → Bool) (k i : ℕ) (t t1 : ControllerState) (job : JobInfo)
      → may_start t ≡ true
      → dequeue_by_policy (env.rounds i) t ≡ some (job, t1)
      → start_loop (answered env a) (suc k) i t
        ≡ then_do
            (start_loop (answered env a) k (i + 1) (start_job env (round env i (a i)) t1 job).0)
            (start_job env (round env i (a i)) t1 job).1
  unfolding start_loop start_job send_ack_to_runner
  start_loop-took a k i t t1 job go e =
      let e' : dequeue_by_policy ((answered env a).rounds i) t ≡ some (job, t1) =
        unfold dequeue_by_policy in e in
      rw (go, e', start_loop) refl

  -- The answers of the rounds before do not matter.
  pub start_loop-later :
      (a b : ℕ → Bool) (k i : ℕ) (t : ControllerState)
      → ((j : ℕ) → i ≤ j → a j ≡ b j)
      → start_loop (answered env a) k i t ≡ start_loop (answered env b) k i t
  start_loop-later a b zero i t same = unfold start_loop in refl
  start_loop-later a b (suc k) i t same = elim (start_cases t) [
    | inl (stop, _) ↦
        start_loop-stop (answered env a) (suc k) i t stop
        ∙ sym (start_loop-stop (answered env b) (suc k) i t stop)
    | inr (go, free, j, q, e) ↦
        let l = dequeue_by_policy-Leaves (env.rounds i) t j q e in
        rw
          (
            start_loop-took a k i t (left_by t l) l.job go l.result,
            start_loop-took b k i t (left_by t l) l.job go l.result,
            same i (omega arith),
            start_loop-later a b k (i + 1) _ (λ n h. same n (omega (arith, h))),
          )
          refl
  ]

  pub start_job-waiting :
      (r : Round) (t : ControllerState) (job : JobInfo)
      → (start_job env r t job).0.waiting_queue ≡ t.waiting_queue
  unfolding start_job
  start_job-waiting r t job = elim (Bool-cases r.node_ok) [
    | inl room ↦ rw room refl
    | inr full ↦ rw full refl
  ]

  -- A run of the loop, for the answers that `malloc` gave.
  abbrev pub Looped : Heap → (k i : ℕ) → ControllerState → Rounds → Heap → Type 0
  Looped h0 k i t (s, sent, a) g = Does h0 (start_loop (answered env a) k i t) (s, sent) g

  -- A round and what follows it.
  pub round-Looped :
      (h0 : Heap) (k i : ℕ) (t t1 : ControllerState) (job : JobInfo) (ok : Bool)
      (sent : List Effect) (x : Rounds) (g : Heap)
      → may_start t ≡ true
      → dequeue_by_policy (env.rounds i) t ≡ some (job, t1)
      → sent ≡ (start_job env (round env i ok) t1 job).1
      → Looped h0 k (i + 1) (start_job env (round env i ok) t1 job).0 x g
      → Looped h0 (suc k) i t (x.0, sent ++ x.1, answer_at i ok (x.2)) g
  round-Looped h0 k i t t1 job ok sent (s, sent', a) g go e same (shows, later) =
      let b = answer_at i ok a in
      let here : b i ≡ ok = ground arith in
      let step : start_loop (answered env b) (suc k) i t
          ≡ then_do
              (start_loop (answered env a) k (i + 1) (start_job env (round env i ok) t1 job).0)
              (start_job env (round env i ok) t1 job).1 =
        start_loop-took b k i t t1 job go e
        ∙ rw
            (
              here,
              start_loop-later b a k (i + 1) (start_job env (round env i ok) t1 job).0
                  (λ j h. ground (arith, h)),
            )
            refl in
      rw step (shows, rw (same, later) refl)
