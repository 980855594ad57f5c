-- ===== src/Scheduler/Queue/DequeueRandom.antt =====
-- `queue_dequeue_random`, against the list of jobs.
use native.Mathlib.Nat.{mod-lt}
use runner_orchestrator.Base.{
  ℕ, zero, suc, ◌<◌, ◌≡◌, refl, sym, ap, ◌∙◌, true, false, ◌==◌, [], ◌∷◌, ◌++◌, some, arith, length,
  ◌%◌, ◌-◌,
}
use runner_orchestrator.Scheduler.Job.{JobInfo}
use runner_orchestrator.Scheduler.Jobs.{dequeue, dequeue_random, remove_at}
use runner_orchestrator.Store.{Addr, null, node, Heap, done, load, load-done, Ends}
use runner_orchestrator.Store.Cells.{
  Cells, Linked, entry, last_addr, jobs, length-jobs, Linked-of_append,
}
use runner_orchestrator.Scheduler.Queue.{
  JobQueue, unlink, queue_dequeue, queue_dequeue_random, walk,
}
use runner_orchestrator.Scheduler.Queue.Chain.{IsQueue}
use runner_orchestrator.Scheduler.Queue.Unlink.{unlink-Removed, tail_is_last}
use runner_orchestrator.Scheduler.Queue.Remove.{
  Implements, Implements-untouched, Implements-of_Removed, Ends-mono,
}
use runner_orchestrator.Scheduler.Queue.Dequeue.{queue_dequeue-Implements}

-- The `for` loop moves `prev` over as many cells as it has rounds.
walk-last :
    (pre rest : Cells) (prev : Addr) (h : Heap)
    → Linked h (pre ++ rest) null
    → walk (length pre) prev (entry (pre ++ rest) null) h
      ≡ done (last_addr prev pre, entry rest null) h
unfolding walk
walk-last [] rest prev h l = refl
walk-last ((p, j) ∷ pre) rest prev h (ne, at, l) =
    rw (ne, load-done h p (node j (entry (pre ++ rest) null)) ne at) (walk-last pre rest p h l)

cell_at :
    (i : ℕ) (cs : Cells)
    → i < length cs
    → (pre : Cells) × (p : Addr) × (j : JobInfo) × (post : Cells) × (cs ≡ pre ++ ((p, j) ∷ post))
      × (length pre ≡ i)
cell_at i [] h = absurd (omega arith)
cell_at zero ((p, j) ∷ cs) h = ([], p, j, cs, refl, refl)
cell_at (suc i) ((p, j) ∷ cs) h =
    let (pre, a, k, post, e, l) = cell_at i cs (omega arith) in
    ((p, j) ∷ pre, a, k, post, ap (λ c. (p, j) ∷ c) e, ap suc l)

remove_at-split :
    (pre : Cells) (p : Addr) (j : JobInfo) (post : Cells)
    → remove_at (length pre) (jobs (pre ++ ((p, j) ∷ post))) ≡ some (j, jobs pre ++ jobs post)
unfolding remove_at
remove_at-split [] p j post = refl
remove_at-split ((a, k) ∷ pre) p j post = rw (remove_at-split pre p j post)

last_addr-ne_null :
    (h : Heap) (p : Addr) (j : JobInfo) (cs : Cells) (s : Addr)
    → Linked h ((p, j) ∷ cs) s
    → (last_addr p cs == null) ≡ false
last_addr-ne_null h p j [] s l = l.0
last_addr-ne_null h p j ((a, k) ∷ cs) s l = last_addr-ne_null h a k cs s l.2

-- Behind the first cell the code does what `unlink` does.
random-unlink :
    (h : Heap) (q : JobQueue) (rand : ℕ) (p : Addr) (j : JobInfo) (pre : Cells) (a : Addr)
    (k : JobInfo) (post : Cells)
    → IsQueue h q ((p, j) ∷ (pre ++ ((a, k) ∷ post)))
    → rand % q.size ≡ suc (length pre)
    → queue_dequeue_random rand (some q) h
      ≡ unlink q (last_addr p pre) a (node k (entry post null)) h
unfolding queue_dequeue_random unlink
random-unlink h q rand p j pre a k post w e = rw (
  head_not,
  picked,
  rounds,
  first,
  walked,
  tail.0,
  load-done h a (node k (entry post null)) tail.0 tail.1,
  prev_not,
  tail_is_last h q ((p, j) ∷ pre) a k post w,
)
  where
    head_not : (q.head == null) ≡ false
    head_not = ground (arith, w.head, w.linked.0)

    picked : (rand % q.size == 0) ≡ false
    picked = ground (arith, e)

    rounds : rand % q.size - 1 ≡ length pre
    rounds = omega (arith, e)

    first : load q.head h ≡ done (node j (entry (pre ++ ((a, k) ∷ post)) null)) h
    first = ap (λ b. load b h) w.head ∙ load-done h p _ w.linked.0 w.linked.1

    walked :
        walk (length pre) q.head (entry (pre ++ ((a, k) ∷ post)) null) h
        ≡ done (last_addr p pre, a) h
    walked =
        ap (λ b. walk (length pre) b (entry (pre ++ ((a, k) ∷ post)) null) h) w.head
        ∙ walk-last pre ((a, k) ∷ post) p h w.linked.2

    tail : Linked h ((a, k) ∷ post) null
    tail = (Linked-of_append h pre ((a, k) ∷ post) null w.linked.2).1

    prev_not : (last_addr p pre == null) ≡ false
    prev_not =
        last_addr-ne_null h p j pre a
          (Linked-of_append h ((p, j) ∷ pre) ((a, k) ∷ post) null w.linked).0

random_later :
    (h : Heap) (q : JobQueue) (rand i : ℕ) (p : Addr) (j : JobInfo) (cs : Cells)
    → IsQueue h q ((p, j) ∷ cs)
    → rand % q.size ≡ suc i
    → i < length cs
    → Ends
        (Implements h ((p, j) ∷ cs) (remove_at (suc i) (jobs ((p, j) ∷ cs))))
        (queue_dequeue_random rand (some q) h)
random_later h q rand i p j cs w e less =
    let (pre, a, k, post, split, len) = cell_at i cs less in
    let w' : IsQueue h q ((p, j) ∷ (pre ++ ((a, k) ∷ post))) = rw split at w in
    rw (split, random-unlink h q rand p j pre a k post w' (e ∙ ap suc (sym len)))
      (Ends-mono _ (unlink-Removed h q ((p, j) ∷ pre) a k post w') (
        Implements-of_Removed h ((p, j) ∷ pre) a k post _ (
          ap (λ n. remove_at (suc n) (jobs ((p, j) ∷ (pre ++ ((a, k) ∷ post))))) (sym len)
          ∙ remove_at-split ((p, j) ∷ pre) a k post)))

random_first :
    (h : Heap) (q : JobQueue) (rand : ℕ)
    → (q.head == null) ≡ false
    → rand % q.size ≡ 0
    → queue_dequeue_random rand (some q) h ≡ queue_dequeue (some q) h
unfolding queue_dequeue_random
random_first h q rand head_not e = rw (head_not, e)

-- On a queue that stands for some cells `queue_dequeue_random` ends; it takes the job at index
-- `rand() % size` and frees its node, and the queue then stands for the others; on an empty queue it
-- returns 0 and changes nothing.
pub queue_dequeue_random-Implements :
    (h : Heap) (q : JobQueue) (cs : Cells) (rand : ℕ)
    → IsQueue h q cs
    → Ends (Implements h cs (dequeue_random rand (jobs cs))) (queue_dequeue_random rand (some q) h)
unfolding dequeue_random
queue_dequeue_random-Implements h q [] rand w =
    unfold queue_dequeue_random remove_at in
    rw (empty_head)
      (record { value = _; heap = _; ran = refl; holds = Implements-untouched h q [] w })
  where
    empty_head : (q.head == null) ≡ true
    empty_head = ground (arith, w.head)
queue_dequeue_random-Implements h q ((p, j) ∷ cs) rand w = go (rand % q.size) refl
  where
    size : q.size ≡ suc (length (jobs cs))
    size = omega (arith, w.size, length-jobs cs)

    head_not : (q.head == null) ≡ false
    head_not = ground (arith, w.head, w.linked.0)

    go :
        (i : ℕ)
        → rand % q.size ≡ i
        → Ends
            (Implements h
              ((p, j) ∷ cs)
              (remove_at (rand % suc (length (jobs cs))) (jobs ((p, j) ∷ cs))))
            (queue_dequeue_random rand (some q) h)
    go zero e =
        unfold dequeue remove_at in
        rw (← size, e, random_first h q rand head_not e)
          (queue_dequeue-Implements h q ((p, j) ∷ cs) w)
    go (suc i) e =
        rw (← size, e)
          (random_later h q rand i p j cs w e
            (omega (arith, e, size, mod-lt rand {m = q.size}, length-jobs cs)))
