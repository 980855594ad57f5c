-- ===== src/Scheduler/Queue/Traverse.antt =====
-- The operations that go through all nodes: `queue_copy_to_array`, `queue_destroy`, and the counts.
use runner_orchestrator.Base.{
  ℕ, zero, suc, ◌+◌, ◌<◌, ◌≡◌, refl, ap, ◌∙◌, ◌==◌, if◌then◌else◌, [], ◌∷◌, some, none, arith,
  length, take,
}
use runner_orchestrator.Store.{Addr, null, node, Heap, done, write, load-done, free-done, Ends}
use runner_orchestrator.Store.Cells.{
  Cells, Linked, Distinct, entry, jobs, owns, length-jobs, Linked-frame,
}
use runner_orchestrator.Scheduler.Queue.{
  JobQueue, queue_copy_to_array, copy_loop, queue_destroy, destroy_loop, queue_is_empty,
  queue_get_size, queue_size,
}
use runner_orchestrator.Scheduler.Queue.Chain.{IsQueue}

copy_loop-take :
    (room : ℕ) (cs : Cells) (h : Heap)
    → Linked h cs null
    → copy_loop room (entry cs null) h ≡ done (take room (jobs cs)) h
unfolding copy_loop
copy_loop-take zero cs h l = refl
copy_loop-take (suc room) [] h l = refl
copy_loop-take (suc room) ((p, j) ∷ cs) h (ne, at, l) =
    rw (ne, load-done h p (node j (entry cs null)) ne at, copy_loop-take room cs h l)

-- On a queue that stands for some cells `queue_copy_to_array` ends; it copies the first `max_size` jobs in order and changes no node.
pub queue_copy_to_array-take :
    (h : Heap) (q : JobQueue) (cs : Cells) (max_size : ℕ)
    → IsQueue h q cs
    → queue_copy_to_array (some q) max_size h ≡ done (take max_size (jobs cs)) h
unfolding queue_copy_to_array
queue_copy_to_array-take h q cs max_size w =
    ap (λ a. copy_loop max_size a h) w.head ∙ copy_loop-take max_size cs h w.linked

-- `g` is `h` less the nodes of the cells.
abbrev pub Freed : Cells → Heap → Heap → Type 0
Freed cs h g = (a : Addr) → g a ≡ (if owns cs a then none else h a)

destroy_loop-Freed :
    (k : ℕ) (cs : Cells) (h : Heap)
    → Linked h cs null
    → Distinct cs
    → length cs < k
    → Ends (λ _. Freed cs h) (destroy_loop k (entry cs null) h)
unfolding destroy_loop
destroy_loop-Freed zero cs h l d f = absurd (omega arith)
destroy_loop-Freed (suc k) [] h l d f = record {
  value = tt;
  heap = h;
  ran = refl;
  holds = λ a. refl;
}
destroy_loop-Freed (suc k) ((p, j) ∷ cs) h (ne, at, l) (out, d) f =
    rw
      (
        ne,
        load-done h p (node j (entry cs null)) ne at,
        free-done h p (node j (entry cs null)) ne at,
      )
      (go (destroy_loop-Freed k cs (write h p none) kept d (omega arith)))
  where
    kept : Linked (write h p none) cs null
    kept = Linked-frame h (write h p none) cs null l (λ a o. unfold write in ground arith)

    go :
        Ends (λ _. Freed cs (write h p none)) (destroy_loop k (entry cs null) (write h p none))
        → Ends (λ _. Freed ((p, j) ∷ cs) h) (destroy_loop k (entry cs null) (write h p none))
    go rest = record {
      value = rest.value;
      heap = rest.heap;
      ran = rest.ran;
      holds = λ a. unfold write in ground (arith, rest.holds a);
    }

-- On a queue that stands for some cells `queue_destroy` ends; it frees each node of the queue and changes
-- no other, and never reads a node that it has freed.
pub queue_destroy-Freed :
    (h : Heap) (q : JobQueue) (cs : Cells)
    → IsQueue h q cs
    → Ends (λ _. Freed cs h) (queue_destroy (some q) h)
unfolding queue_destroy
queue_destroy-Freed h q cs w =
    rw (ap (λ a. destroy_loop (q.size + 1) a h) w.head)
      (destroy_loop-Freed (q.size + 1) cs h w.linked w.distinct (omega (arith, w.size)))

-- `queue_is_empty` and the two size functions tell of the jobs in the queue.
pub queue_is_empty-jobs :
    (h : Heap) (q : JobQueue) (cs : Cells)
    → IsQueue h q cs
    → (queue_is_empty (some q) ≡ (length (jobs cs) == 0))
      × (queue_size (some q) ≡ length (jobs cs))
      × (queue_get_size (some q) ≡ length (jobs cs))
unfolding queue_is_empty queue_size queue_get_size
queue_is_empty-jobs h q cs w = ground (arith, w.size, length-jobs cs)
