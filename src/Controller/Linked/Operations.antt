-- ===== src/Controller/Linked/Operations.antt =====
-- The operations on one of the two queues: what they do to the lists of the jobs.
use runner_orchestrator.Base.{
  ℕ, ◌≡◌, refl, ap, ◌∙◌, Bool, false, not, Bool-cases, ◌==◌, if◌then◌else◌, List, [], ◌∷◌, ◌++◌,
  length, take-length, none, some, inl, inr, ℤ,
}
use runner_orchestrator.Scheduler.Job.{JobInfo}
use runner_orchestrator.Scheduler.Jobs.{
  Taken, enqueue, dequeue, dequeue_random, dequeue_fair, remove_by_command_id,
}
use runner_orchestrator.Store.{Addr, null, Heap, Exec, done, Ends}
use runner_orchestrator.Store.Cells.{Cells, jobs, jobs-append}
use runner_orchestrator.Scheduler.Queue.{
  QueuePtr, Removal, queue_enqueue, queue_dequeue, queue_dequeue_random, queue_dequeue_fair,
  queue_remove_by_command_id, queue_is_empty, queue_get_size, queue_copy_to_array,
}
use runner_orchestrator.Scheduler.Queue.Enqueue.{queue_enqueue-append, queue_enqueue-null}
use runner_orchestrator.Scheduler.Queue.Remove.{
  Implements, out_of, rest_of, Ends-mono, queue_remove_by_command_id-Implements,
}
use runner_orchestrator.Scheduler.Queue.Dequeue.{queue_dequeue-Implements}
use runner_orchestrator.Scheduler.Queue.DequeueRandom.{queue_dequeue_random-Implements}
use runner_orchestrator.Scheduler.Queue.DequeueFair.{last_after, queue_dequeue_fair-Implements}
use runner_orchestrator.Scheduler.Queue.Traverse.{queue_is_empty-jobs, queue_copy_to_array-take}
use runner_orchestrator.Controller.Linked.Two.{Two, TwoLeft, Two-Shrinks, Two-Enqueued}

module _ (h0 h : Heap) (q : QueuePtr) (xs ys : Cells) where
  -- What a removal from the first queue returns, and what it leaves.
  abbrev pub Removes : Taken → Removal → Heap → Type 0
  Removes r (out, p') g = (out ≡ out_of r) × TwoLeft h0 g p' q (rest_of (jobs xs) r) ys

  removal-Removes :
      (p : QueuePtr) (r : Taken) (run : Exec Removal)
      → Two h0 h p q xs ys
      → Ends (Implements h xs r) run
      → Ends (Removes r) run
  removal-Removes p r run t e = Ends-mono run e (λ (out, p') g (o, s). (
    o,
    record {
      cells = s.cells;
      left_jobs = s.left_jobs;
      two = Two-Shrinks h0 h g p q p' xs ys _ t s;
    },
  ))

  pub queue_dequeue-Removes :
      (p : QueuePtr) → Two h0 h p q xs ys → Ends (Removes (dequeue (jobs xs))) (queue_dequeue p h)
  queue_dequeue-Removes none t = absurd (t.first)
  queue_dequeue-Removes (some p) t =
      removal-Removes (some p) _ _ t (queue_dequeue-Implements h p xs t.first)

  pub queue_dequeue_random-Removes :
      (p : QueuePtr) (rand : ℕ)
      → Two h0 h p q xs ys
      → Ends (Removes (dequeue_random rand (jobs xs))) (queue_dequeue_random rand p h)
  queue_dequeue_random-Removes none rand t = absurd (t.first)
  queue_dequeue_random-Removes (some p) rand t =
      removal-Removes (some p) _ _ t (queue_dequeue_random-Implements h p xs rand t.first)

  pub queue_remove_by_command_id-Removes :
      (p : QueuePtr) (id : ℤ)
      → Two h0 h p q xs ys
      → Ends (Removes (remove_by_command_id id (jobs xs))) (queue_remove_by_command_id p id h)
  queue_remove_by_command_id-Removes none id t = absurd (t.first)
  queue_remove_by_command_id-Removes (some p) id t =
      removal-Removes (some p) _ _ t (queue_remove_by_command_id-Implements h p xs id t.first)

  -- The fair removal also tells the user of the job.
  pub queue_dequeue_fair-Removes :
      (p : QueuePtr) (ok : Bool) (fair : List ℤ) (last : ℤ)
      → Two h0 h p q xs ys
      → Ends
          (λ (x, now) g.
            Removes (dequeue_fair ok fair last (jobs xs)) x g
            × (now ≡ last_after last (dequeue_fair ok fair last (jobs xs))))
          (queue_dequeue_fair ok p fair last h)
  queue_dequeue_fair-Removes none ok fair last t = absurd (t.first)
  queue_dequeue_fair-Removes (some p) ok fair last t =
      Ends-mono _ (queue_dequeue_fair-Implements h p xs ok fair last t.first)
        (λ ((out, p'), now) g ((o, s), e). (
          (
            o,
            record {
              cells = s.cells;
              left_jobs = s.left_jobs;
              two = Two-Shrinks h0 h g (some p) q p' xs ys _ t s;
            },
          ),
          e,
        ))

  -- The jobs of the first queue, when one is put behind them or there is no memory for its node.
  abbrev pub Grows : JobInfo → Bool → Bool × QueuePtr → Heap → Type 0
  Grows j ok (ok', p') g =
      (ok' ≡ ok) × TwoLeft h0 g p' q (if ok then enqueue (jobs xs) j else jobs xs) ys

  -- `malloc` returns NULL, or an address where no node stands.
  pub queue_enqueue-Grows :
      (p : QueuePtr) (fresh : Addr) (j : JobInfo)
      → ((fresh == null) ≡ false → h fresh ≡ none)
      → Two h0 h p q xs ys
      → Ends (Grows j (not (fresh == null))) (queue_enqueue fresh p j h)
  unfolding enqueue
  queue_enqueue-Grows none fresh j unused t = absurd (t.first)
  queue_enqueue-Grows (some p) fresh j unused t = elim (Bool-cases (fresh == null)) [
    | inl full ↦
        rw (queue_enqueue-null h p fresh j full, full)
          (record {
            value = (false, some p);
            heap = h;
            ran = refl;
            holds = (refl, record { cells = xs; left_jobs = refl; two = t });
          })
    | inr room ↦ rw room (
        Ends-mono _ (queue_enqueue-append h p xs fresh j t.first room (unused room))
          (λ (ok, p') g e. (
            e.0,
            record {
              cells = xs ++ ((fresh, j) ∷ []);
              left_jobs = jobs-append xs ((fresh, j) ∷ []);
              two = Two-Enqueued h0 h g (some p) q p' xs ys fresh j ok t (unused room) e;
            },
          )))
  ]

  pub queue_is_empty-Two :
      (p : QueuePtr)
      → Two h0 h p q xs ys
      → (queue_is_empty p ≡ (length (jobs xs) == 0)) × (queue_get_size p ≡ length (jobs xs))
  queue_is_empty-Two none t = absurd (t.first)
  queue_is_empty-Two (some p) t = let (a, _, b) = queue_is_empty-jobs h p xs t.first in (a, b)

  pub queue_copy_to_array-Two :
      (p : QueuePtr)
      → Two h0 h p q xs ys
      → queue_copy_to_array p (queue_get_size p) h ≡ done (jobs xs) h
  queue_copy_to_array-Two none t = absurd (t.first)
  queue_copy_to_array-Two (some p) t =
      let (_, _, size) = queue_is_empty-jobs h p xs t.first in
      rw size (
        queue_copy_to_array-take h p xs (length (jobs xs)) t.first
        ∙ ap (λ l. done l h) (take-length (jobs xs)))
