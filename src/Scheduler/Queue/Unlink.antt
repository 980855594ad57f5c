-- ===== src/Scheduler/Queue/Unlink.antt =====
-- Taking one node out of the list: what follows in the loops when the node is found.
use mathlib.Core.List.{append_assoc, append-nil}
use runner_orchestrator.Base.{
  ◌≡◌, refl, sym, ap, ◌∙◌, true, false, ◌==◌, [], ◌∷◌, ◌++◌, inl, inr, some, none, arith, length,
  length-append, ◌-◌, if◌then◌else◌,
}
use runner_orchestrator.Scheduler.Job.{JobInfo}
use runner_orchestrator.Store.{Addr, null, node, Heap, write, done, set_next-done, free-done, Ends}
use runner_orchestrator.Store.Cells.{
  Cells, Linked, Distinct, Apart, SameBut, entry, last_addr, owns, owns-append, entry-append,
  relink, Cells-snoc, Distinct-append, last_addr-append, Linked-of_append, Distinct-of_append,
  Linked-frame,
}
use runner_orchestrator.Scheduler.Queue.{JobQueue, Removal, unlink}
use runner_orchestrator.Scheduler.Queue.Chain.{IsQueue, PointsTo}

-- The cell goes out with its job, its node is freed, and nothing but the list is written.
abbrev pub Removed : Heap → Cells → Addr → JobInfo → Cells → Removal → Heap → Type 0
Removed h pre p j post (out, q) g =
    (out ≡ some j)
    × PointsTo g q (pre ++ post)
    × (g p ≡ none)
    × SameBut (pre ++ ((p, j) ∷ post)) h g

last_addr-owned :
    (p a : Addr) (j : JobInfo) (cs : Cells) → owns ((a, j) ∷ cs) (last_addr p ((a, j) ∷ cs)) ≡ true
last_addr-owned p a j [] = ground arith
last_addr-owned p a j ((b, k) ∷ cs) = ground (arith, last_addr-owned a b k cs)

ne_of_owned : (cs : Cells) (p a : Addr) → owns cs p ≡ false → owns cs a ≡ true → (a == p) ≡ false
ne_of_owned cs p a out o = ground arith

tail_kept :
    (pre : Cells) (p : Addr) (j : JobInfo) (post : Cells) (tail : Addr)
    → owns post p ≡ false
    → tail ≡ last_addr null (pre ++ ((p, j) ∷ post))
    → (if tail == p then last_addr null pre else tail) ≡ last_addr null (pre ++ post)
tail_kept pre p j [] tail out e =
    ground (arith, last_addr-append null pre ((p, j) ∷ []), append-nil pre)
tail_kept pre p j ((a, k) ∷ post) tail out e = ground (
  arith,
  last_addr-append null pre ((p, j) ∷ (a, k) ∷ post),
  last_addr-append null pre ((a, k) ∷ post),
  last_addr-owned p a k post,
)

Distinct-without :
    (pre : Cells) (p : Addr) (j : JobInfo) (post : Cells)
    → Distinct (pre ++ ((p, j) ∷ post))
    → Distinct (pre ++ post) × (owns pre p ≡ false) × (owns post p ≡ false)
Distinct-without pre p j post d =
    let (a, (out, b), apart) = Distinct-of_append pre ((p, j) ∷ post) d in
    (Distinct-append pre post a b (λ c o. ground (arith, apart c)), ground (arith, apart p), out)

size_less :
    (pre : Cells) (p : Addr) (j : JobInfo) (post : Cells)
    → length (pre ++ ((p, j) ∷ post)) - 1 ≡ length (pre ++ post)
size_less pre p j post = omega (arith, length-append pre ((p, j) ∷ post), length-append pre post)

unlink_head :
    (h : Heap) (q : JobQueue) (p : Addr) (j : JobInfo) (post : Cells)
    → IsQueue h q ((p, j) ∷ post)
    → Ends (Removed h [] p j post) (unlink q null p (node j (entry post null)) h)
unfolding unlink write
unlink_head h q p j post v = record {
  value = (
    some j,
    some (record {
      head = entry post null;
      tail = if q.tail == p then null else q.tail;
      size = q.size - 1;
    }),
  );
  heap = write h p none;
  ran = rw (free-done h p (node j (entry post null)) v.linked.0 v.linked.1);
  holds = (
    refl,
    record {
      linked =
          Linked-frame h (write h p none) post null v.linked.2 (λ a o. ground (arith, v.distinct));
      distinct = v.distinct.1;
      head = refl;
      tail = tail_kept [] p j post q.tail v.distinct.0 v.tail;
      size = ap (λ n. n - 1) v.size ∙ size_less [] p j post;
    },
    ground arith,
    λ a o. ground arith,
  );
}

unlink_later :
    (h : Heap) (q : JobQueue) (init : Cells) (t : Addr) (k : JobInfo) (p : Addr) (j : JobInfo)
    (post : Cells)
    → IsQueue h q ((init ++ ((t, k) ∷ [])) ++ ((p, j) ∷ post))
    → Ends (Removed h (init ++ ((t, k) ∷ [])) p j post) (unlink q t p (node j (entry post null)) h)
unfolding unlink write
unlink_later h q init t k p j post v = record {
  value = (some j, some q');
  heap = g;
  ran = ran;
  holds = (
    refl,
    record {
      linked = rw (append_assoc init ((t, k) ∷ []) post) (
          relink h g init t k ((p, j) ∷ post) post null null chain
            (λ a o. ground (arith, before a o)) (ground (arith, ne))
            (Linked-frame h g post null cells.1.2.2 (λ a o. ground (arith, behind a o))));
      distinct = others.0;
      head = v.head ∙ head;
      tail =
          ap (λ a. if q.tail == p then a else q.tail)
            (sym (last_addr-append null init ((t, k) ∷ [])))
          ∙ tail_kept (init ++ ((t, k) ∷ [])) p j post q.tail others.2 v.tail;
      size = ap (λ n. n - 1) v.size ∙ size_less (init ++ ((t, k) ∷ [])) p j post;
    },
    ground arith,
    λ a o. ground (arith, outside a o),
  );
}
  where
    g : Heap
    g = write (write h t (some (node k (entry post null)))) p none

    q' : JobQueue
    q' = record { head = q.head; tail = if q.tail == p then t else q.tail; size = q.size - 1 }

    chain : Linked h (init ++ ((t, k) ∷ (p, j) ∷ post)) null
    chain = rw (← append_assoc init ((t, k) ∷ []) ((p, j) ∷ post)) v.linked

    cells : Linked h init t × Linked h ((t, k) ∷ (p, j) ∷ post) null
    cells = Linked-of_append h init ((t, k) ∷ (p, j) ∷ post) null chain

    others :
        Distinct ((init ++ ((t, k) ∷ [])) ++ post)
        × (owns (init ++ ((t, k) ∷ [])) p ≡ false)
        × (owns post p ≡ false)
    others = Distinct-without (init ++ ((t, k) ∷ [])) p j post v.distinct

    parted : Distinct init × Distinct ((t, k) ∷ (p, j) ∷ post) × Apart init ((t, k) ∷ (p, j) ∷ post)
    parted =
        Distinct-of_append init ((t, k) ∷ (p, j) ∷ post)
          (rw (← append_assoc init ((t, k) ∷ []) ((p, j) ∷ post)) v.distinct)

    ne : (p == t) ≡ false
    ne = ground (arith, parted.1)

    before : (a : Addr) → owns init a ≡ true → ((a == t) ≡ false) × ((a == p) ≡ false)
    before a o = ground (arith, parted.2 a o)

    behind : (a : Addr) → owns post a ≡ true → ((a == t) ≡ false) × ((a == p) ≡ false)
    behind a o = ground (arith, parted.1)

    outside :
        (a : Addr)
        → owns ((init ++ ((t, k) ∷ [])) ++ ((p, j) ∷ post)) a ≡ false
        → ((a == t) ≡ false) × ((a == p) ≡ false)
    outside a o = ground (
      arith,
      owns-append (init ++ ((t, k) ∷ [])) ((p, j) ∷ post) a,
      owns-append init ((t, k) ∷ []) a,
    )

    head :
        entry ((init ++ ((t, k) ∷ [])) ++ ((p, j) ∷ post)) null
        ≡ entry ((init ++ ((t, k) ∷ [])) ++ post) null
    head =
        ap (λ l. entry l null) (append_assoc init ((t, k) ∷ []) ((p, j) ∷ post))
        ∙ entry-append init ((t, k) ∷ (p, j) ∷ post) null
        ∙ sym (entry-append init ((t, k) ∷ post) null)
        ∙ sym (ap (λ l. entry l null) (append_assoc init ((t, k) ∷ []) post))

    ran : unlink q t p (node j (entry post null)) h ≡ done (some j, some q') g
    ran = rw (
      cells.1.0,
      set_next-done h t (node k p) cells.1.0 cells.1.1 (entry post null),
      free-done (write h t (some (node k (entry post null)))) p (node j (entry post null))
          cells.1.2.0 (ground (arith, ne, cells.1.2.1)),
    )

-- The loops' last part takes the node at `curr` out, whether it is the first or not.
pub unlink-Removed :
    (h : Heap) (q : JobQueue) (pre : Cells) (p : Addr) (j : JobInfo) (post : Cells)
    → IsQueue h q (pre ++ ((p, j) ∷ post))
    → Ends (Removed h pre p j post) (unlink q (last_addr null pre) p (node j (entry post null)) h)
unlink-Removed h q pre p j post v = elim (Cells-snoc pre) [
  | inl e ↦ rw e (unlink_head h q p j post (rw e at v))
  | inr (init, t, k, e) ↦
      rw (e, last_addr-append null init ((t, k) ∷ []))
        (unlink_later h q init t k p j post (rw e at v))
]

-- `curr` is the tail exactly if no node follows it.
pub tail_is_last :
    (h : Heap) (q : JobQueue) (pre : Cells) (p : Addr) (j : JobInfo) (post : Cells)
    → IsQueue h q (pre ++ ((p, j) ∷ post))
    → (q.tail == p) ≡ (entry post null == null)
tail_is_last h q pre p j [] v = ground (arith, v.tail, last_addr-append null pre ((p, j) ∷ []))
tail_is_last h q pre p j ((a, k) ∷ post) v =
    rw (other, (Linked-of_append h pre ((p, j) ∷ (a, k) ∷ post) null v.linked).1.2.0)
  where
    out : owns ((a, k) ∷ post) p ≡ false
    out = (Distinct-without pre p j ((a, k) ∷ post) v.distinct).2

    tail : q.tail ≡ last_addr p ((a, k) ∷ post)
    tail = v.tail ∙ last_addr-append null pre ((p, j) ∷ (a, k) ∷ post)

    other : (q.tail == p) ≡ false
    other = rw tail (ne_of_owned ((a, k) ∷ post) p _ out (last_addr-owned p a k post))
