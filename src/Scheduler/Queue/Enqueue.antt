-- ===== src/Scheduler/Queue/Enqueue.antt =====
-- `queue_enqueue`, against the list of cells.
use mathlib.Core.List.{append_assoc}
use runner_orchestrator.Base.{
  ◌≡◌, refl, sym, ap, ◌∙◌, Bool, true, false, ◌==◌, [], ◌∷◌, ◌++◌, inl, inr, some, none, arith,
  length-append, ◌+◌,
}
use runner_orchestrator.Scheduler.Job.{JobInfo}
use runner_orchestrator.Store.{Addr, null, node, Heap, write, done, set_next-done, Ends, fill}
use runner_orchestrator.Store.Cells.{
  Cells, Linked, Apart, SameBut, entry, owns, owns-append, entry-append, relink, Cells-snoc,
  Distinct-append, not-owns_of_none, last_addr-append, Linked-of_append, Distinct-of_append,
}
use runner_orchestrator.Scheduler.Queue.{JobQueue, QueuePtr, queue_enqueue}
use runner_orchestrator.Scheduler.Queue.Chain.{IsQueue, PointsTo}

abbrev pub Enqueued : Heap → Cells → Addr → JobInfo → Bool × QueuePtr → Heap → Type 0
Enqueued h cs fresh j (ok, q) g =
    (ok ≡ true) × PointsTo g q (cs ++ ((fresh, j) ∷ [])) × SameBut (cs ++ ((fresh, j) ∷ [])) h g

enqueue_empty :
    (h : Heap) (q : JobQueue) (fresh : Addr) (j : JobInfo)
    → IsQueue h q []
    → (fresh == null) ≡ false
    → Ends (Enqueued h [] fresh j) (queue_enqueue fresh (some q) j h)
unfolding queue_enqueue fill write
enqueue_empty h q fresh j v ne =
    rw (ne, v.tail)
      (record {
        value = (true, _);
        heap = _;
        ran = refl;
        holds = (
          refl,
          record {
            linked = (ne, ground arith, tt);
            distinct = (refl, tt);
            head = refl;
            tail = refl;
            size = omega (arith, v.size);
          },
          λ a o. ground arith,
        );
      })

enqueue_behind :
    (h : Heap) (q : JobQueue) (init : Cells) (t : Addr) (k : JobInfo) (fresh : Addr) (j : JobInfo)
    → IsQueue h q (init ++ ((t, k) ∷ []))
    → (fresh == null) ≡ false
    → h fresh ≡ none
    → Ends (Enqueued h (init ++ ((t, k) ∷ [])) fresh j) (queue_enqueue fresh (some q) j h)
unfolding queue_enqueue fill write
enqueue_behind h q init t k fresh j v ne unused = record {
  value = (true, some (record q { tail = fresh; size = q.size + 1 }));
  heap = g;
  ran = ran;
  holds = (
    refl,
    record {
      linked = rw (append_assoc init ((t, k) ∷ []) ((fresh, j) ∷ [])) (
          relink h g init t k [] ((fresh, j) ∷ []) null null v.linked
            (λ a o. ground (arith, out_init, apart a o)) (ground arith)
            (ne, ground (arith, out_init), tt));
      distinct =
          Distinct-append (init ++ ((t, k) ∷ [])) ((fresh, j) ∷ []) v.distinct (refl, tt)
            (λ a o. ground (arith, out));
      head = v.head ∙ head;
      tail = sym (last_addr-append null (init ++ ((t, k) ∷ [])) ((fresh, j) ∷ []));
      size = omega (arith, v.size, length-append (init ++ ((t, k) ∷ [])) ((fresh, j) ∷ []));
    },
    λ a o. ground (
      arith,
      owns-append (init ++ ((t, k) ∷ [])) ((fresh, j) ∷ []) a,
      owns-append init ((t, k) ∷ []) a,
    ),
  );
}
  where
    g : Heap
    g = write (write h fresh (some (node j null))) t (some (node k fresh))

    last : Linked h ((t, k) ∷ []) null
    last = (Linked-of_append h init ((t, k) ∷ []) null v.linked).1

    out : owns (init ++ ((t, k) ∷ [])) fresh ≡ false
    out = not-owns_of_none h (init ++ ((t, k) ∷ [])) null fresh v.linked unused

    out_init : (owns init fresh ≡ false) × ((fresh == t) ≡ false)
    out_init = ground (arith, out, owns-append init ((t, k) ∷ []) fresh)

    apart : Apart init ((t, k) ∷ [])
    apart = (Distinct-of_append init ((t, k) ∷ []) v.distinct).2

    tail : q.tail ≡ t
    tail = v.tail ∙ last_addr-append null init ((t, k) ∷ [])

    head :
        entry (init ++ ((t, k) ∷ [])) null
        ≡ entry ((init ++ ((t, k) ∷ [])) ++ ((fresh, j) ∷ [])) null
    head =
        entry-append init ((t, k) ∷ []) null
        ∙ sym (
            ap (λ l. entry l null) (append_assoc init ((t, k) ∷ []) ((fresh, j) ∷ []))
            ∙ entry-append init ((t, k) ∷ (fresh, j) ∷ []) null)

    ran :
        queue_enqueue fresh (some q) j h
        ≡ done (true, some (record q { tail = fresh; size = q.size + 1 })) g
    ran =
        rw (ne, tail, last.0)
          (rw (
            set_next-done (write h fresh (some (node j null))) t (node k null) last.0
              (ground (arith, last, out_init)) fresh))

-- Given memory for a node where no node stands, `queue_enqueue` on a queue that stands for some cells
-- ends and returns 1, the queue then stands for these cells and the new one behind them, and no other
-- node is written.
pub queue_enqueue-append :
    (h : Heap) (q : JobQueue) (cs : Cells) (fresh : Addr) (j : JobInfo)
    → IsQueue h q cs
    → (fresh == null) ≡ false
    → h fresh ≡ none
    → Ends (Enqueued h cs fresh j) (queue_enqueue fresh (some q) j h)
queue_enqueue-append h q cs fresh j v ne unused = elim (Cells-snoc cs) [
  | inl e ↦ rw e (enqueue_empty h q fresh j (rw e at v) ne)
  | inr (init, t, k, e) ↦ rw e (enqueue_behind h q init t k fresh j (rw e at v) ne unused)
]

-- Without memory for the node it returns 0 and changes nothing.
pub queue_enqueue-null :
    (h : Heap) (q : JobQueue) (fresh : Addr) (j : JobInfo)
    → (fresh == null) ≡ true
    → queue_enqueue fresh (some q) j h ≡ done (false, some q) h
unfolding queue_enqueue
queue_enqueue-null h q fresh j e = rw e refl
