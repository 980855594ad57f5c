-- ===== src/Controller/Linked/Loop.antt =====
-- `start_waiting_jobs` on the heap. What `malloc` has memory for is only known in the run: the state is that of
-- Controller/Handlers.antt for the answers that were given.
use runner_orchestrator.Base.{
  ℕ, zero, suc, ◌+◌, ◌≤◌, ◌≡◌, refl, sym, ap, true, false, not, ◌==◌, ◌&&◌, ltb, [], ◌∷◌, ◌++◌,
  length, length-append, some, inl, inr, arith, subst,
}
use runner_orchestrator.Scheduler.Job.{JobInfo}
use runner_orchestrator.Scheduler.Queue.{queue_is_empty, queue_get_size}
use runner_orchestrator.Store.{null, Heap, Ends, bind-Ends, continue, ◌>>=◌}
use runner_orchestrator.Controller.State.{ControllerState, Env}
use runner_orchestrator.Controller.Handlers.{dequeue_by_policy, start_job, start_waiting_jobs}
use runner_orchestrator.Controller.Invariant.Start.{
  dequeue_by_policy-Leaves, left_by, start_cases, may_start, start_loop-stop,
}
use runner_orchestrator.Controller.Linked.{
  PointerState, Malloc, dequeue_by_policy_heap, start_job_heap, start_loop_heap,
  start_waiting_jobs_heap, and_round, answer_at, unasked,
}
use runner_orchestrator.Controller.Linked.Operations.{queue_is_empty-Two}
use runner_orchestrator.Controller.Linked.Views.{
  Shows, Does, TookAs, IsMalloc, dequeue_by_policy_heap-TookAs,
}
use runner_orchestrator.Controller.Linked.Steps.{start_job_heap-Does}
use runner_orchestrator.Controller.Linked.Answers.{
  answered, round, Looped, round-Looped, start_job-waiting,
}

module _ (h0 : Heap) (env : Env) (malloc : Malloc) (unused : IsMalloc malloc) where
  -- The rest of a round, once a job is taken out of the waiting queue.
  round_heap-Looped :
      (k i : ℕ) (t t1 : ControllerState) (job : JobInfo) (s1 : PointerState) (g : Heap)
      → may_start t ≡ true
      → dequeue_by_policy (env.rounds i) t ≡ some (job, t1)
      → length t1.waiting_queue ≤ k
      → Shows h0 g s1 t1
      → ((g2 : Heap) (s2 : PointerState) (t2 : ControllerState)
          → length t2.waiting_queue ≤ k
          → Shows h0 g2 s2 t2
          → Ends (Looped env h0 k (i + 1) t2) (start_loop_heap env malloc (suc k) (i + 1) s2 g2))
      → Ends (Looped env h0 (suc k) i t) (
          continue (start_job_heap env malloc i s1 job g) λ (s2, sent).
            (start_loop_heap env malloc (suc k) (i + 1) s2
              >>= and_round i (not (malloc i g == null)) sent))
  round_heap-Looped k i t t1 job s1 g go e room shows ih =
      let r = round env i (not (malloc i g == null)) in
      bind-Ends (start_job_heap env malloc i s1 job g) _
        (subst
          (λ t'. Ends (Does h0 (start_job env r t' job)) (start_job_heap env malloc i s1 job g))
          (sym (shows.same))
          (start_job_heap-Does h0 g s1 shows.waiting shows.running shows.two env malloc unused r i
            job refl))
        λ (s2, sent) g2 (shows2, same).
          bind-Ends (start_loop_heap env malloc (suc k) (i + 1) s2 g2)
            (and_round i (not (malloc i g == null)) sent)
            (ih g2 s2 (start_job env r t1 job).0
              (omega (arith, room, ap length (start_job-waiting env r t1 job))) shows2)
            λ x g3 looped. record {
              value = (x.0, sent ++ x.1, answer_at i (not (malloc i g == null)) (x.2));
              heap = g3;
              ran = refl;
              holds = round-Looped env h0 k i t t1 job _ sent x g3 go e same looped;
            }

  -- The loop's test on the heap is that on the lists.
  test-Shows :
      (h : Heap) (s : PointerState) (t : ControllerState)
      → Shows h0 h s t
      → (ltb s.running_count s.parallel_limit && not (queue_is_empty s.waiting_queue)) ≡ may_start t
  test-Shows h s t shows =
      let (empty, _) =
        queue_is_empty-Two h0 h s.running_queue shows.waiting shows.running s.waiting_queue
          shows.two in
      rw (shows.same, empty) refl

  stopped-Looped :
      (k i : ℕ) (h : Heap) (s : PointerState) (t : ControllerState)
      → may_start t ≡ false
      → Shows h0 h s t
      → Ends (Looped env h0 k i t) (start_loop_heap env malloc (suc k) i s h)
  unfolding start_loop_heap
  stopped-Looped k i h s t stop shows =
      rw (test-Shows h s t shows, stop, start_loop_heap)
        (record {
          value = (s, [], unasked env);
          heap = h;
          ran = refl;
          holds = rw (start_loop-stop (answered env (unasked env)) k i t stop) (shows, refl);
        })

  took-Looped :
      (k i : ℕ) (h : Heap) (s : PointerState) (t t1 : ControllerState) (job : JobInfo)
      → may_start t ≡ true
      → dequeue_by_policy (env.rounds i) t ≡ some (job, t1)
      → length t1.waiting_queue ≤ k
      → Shows h0 h s t
      → ((g2 : Heap) (s2 : PointerState) (t2 : ControllerState)
          → length t2.waiting_queue ≤ k
          → Shows h0 g2 s2 t2
          → Ends (Looped env h0 k (i + 1) t2) (start_loop_heap env malloc (suc k) (i + 1) s2 g2))
      → Ends (Looped env h0 (suc k) i t) (start_loop_heap env malloc (suc (suc k)) i s h)
  unfolding start_loop_heap
  took-Looped k i h s t t1 job go e room shows ih =
      rw (test-Shows h s t shows, go, start_loop_heap)
        (bind-Ends (dequeue_by_policy_heap (env.rounds i) s h) _
          (subst (λ r. Ends (TookAs h0 t r) (dequeue_by_policy_heap (env.rounds i) s h)) e
            (subst
              (λ t'.
                Ends (TookAs h0 t' (dequeue_by_policy (env.rounds i) t'))
                  (dequeue_by_policy_heap (env.rounds i) s h))
              (sym (shows.same))
              (dequeue_by_policy_heap-TookAs h0 h s shows.waiting shows.running shows.two
                (env.rounds i))))
          λ (out, s1) g (same, shows1).
            rw same (round_heap-Looped k i t t1 job s1 g go e room shows1 ih))

  pub start_loop_heap-Looped :
      (k i : ℕ) (h : Heap) (s : PointerState) (t : ControllerState)
      → length t.waiting_queue ≤ k
      → Shows h0 h s t
      → Ends (Looped env h0 k i t) (start_loop_heap env malloc (suc k) i s h)
  start_loop_heap-Looped zero i h s t room shows = elim (start_cases t) [
    | inl (stop, _) ↦ stopped-Looped zero i h s t stop shows
    | inr (go, free, j, q, e) ↦ absurd (omega (arith, room, ap length e))
  ]
  start_loop_heap-Looped (suc k) i h s t room shows = elim (start_cases t) [
    | inl (stop, _) ↦ stopped-Looped (suc k) i h s t stop shows
    | inr (go, free, j, q, e) ↦
        let l = dequeue_by_policy-Leaves (env.rounds i) t j q e in
        took-Looped k i h s t (left_by t l) l.job go l.result
          (omega (
            arith,
            room,
            ap length l.split,
            length-append l.before (l.job ∷ l.after),
            length-append l.before l.after,
          ))
          shows (λ g2 s2 t2 room2 shows2. start_loop_heap-Looped k (i + 1) g2 s2 t2 room2 shows2)
  ]

  pub start_waiting_jobs_heap-Does :
      (h : Heap) (s : PointerState) (t : ControllerState)
      → Shows h0 h s t
      → Ends
          (λ (s', sent, a) g. Does h0 (start_waiting_jobs (answered env a) t) (s', sent) g)
          (start_waiting_jobs_heap env malloc s h)
  unfolding start_waiting_jobs start_waiting_jobs_heap
  start_waiting_jobs_heap-Does h s t shows =
      let (_, size) =
        queue_is_empty-Two h0 h s.running_queue shows.waiting shows.running s.waiting_queue
          shows.two in
      let same : queue_get_size s.waiting_queue + 1 ≡ suc (length t.waiting_queue) =
        omega (arith, size, ap (λ u. length u.waiting_queue) (shows.same)) in
      rw same (start_loop_heap-Looped (length t.waiting_queue) 0 h s t (omega arith) shows)
