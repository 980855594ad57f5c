-- ===== src/Controller/Linked/Two.antt =====
-- The two queues in one heap: an operation on one of them leaves the other alone.
use runner_orchestrator.Base.{
  ◌≡◌, sym, ◌∙◌, Bool, true, false, Bool-cases, List, [], ◌∷◌, ◌++◌, none, some, inl, inr, arith,
}
use runner_orchestrator.Scheduler.Job.{JobInfo}
use runner_orchestrator.Store.{Addr, null, Heap}
use runner_orchestrator.Store.Cells.{
  Cells, Apart, owns, owns-append, jobs, Linked-frame, not-owns_of_none,
}
use runner_orchestrator.Scheduler.Queue.{QueuePtr}
use runner_orchestrator.Scheduler.Queue.Chain.{PointsTo}
use runner_orchestrator.Scheduler.Queue.Enqueue.{Enqueued}
use runner_orchestrator.Scheduler.Queue.Remove.{Shrinks}

-- Two queues that share no node. No other node differs from `h0`, where theirs are not in use.
pub record Two (h0 h : Heap) (p q : QueuePtr) (xs ys : Cells) : Type 0 where
  pub first : PointsTo h p xs
  pub second : PointsTo h q ys
  pub apart : Apart xs ys
  pub new_first : (a : Addr) → owns xs a ≡ true → h0 a ≡ none
  pub new_second : (a : Addr) → owns ys a ≡ true → h0 a ≡ none
  pub others : (a : Addr) → owns xs a ≡ false → owns ys a ≡ false → h a ≡ h0 a

pub Apart-swap : (xs ys : Cells) → Apart xs ys → Apart ys xs
Apart-swap xs ys apart a o = elim (Bool-cases (owns xs a)) [
  | inl shared ↦ absurd (cc (apart a shared, o))
  | inr out ↦ out
]

pub Two-swap :
    (h0 h : Heap) (p q : QueuePtr) (xs ys : Cells) → Two h0 h p q xs ys → Two h0 h q p ys xs
Two-swap h0 h p q xs ys t = record {
  first = t.second;
  second = t.first;
  apart = Apart-swap xs ys t.apart;
  new_first = t.new_second;
  new_second = t.new_first;
  others = λ a o o'. t.others a o' o;
}

-- A queue survives a change elsewhere.
pub PointsTo-frame :
    (h g : Heap) (q : QueuePtr) (ys : Cells)
    → PointsTo h q ys
    → ((a : Addr) → owns ys a ≡ true → g a ≡ h a)
    → PointsTo g q ys
PointsTo-frame h g none ys w same = absurd w
PointsTo-frame h g (some q) ys w same = record {
  linked = Linked-frame h g ys null w.linked same;
  distinct = w.distinct;
  head = w.head;
  tail = w.tail;
  size = w.size;
}

pub not-owns-unused :
    (h : Heap) (q : QueuePtr) (ys : Cells) (a : Addr)
    → PointsTo h q ys
    → h a ≡ none
    → owns ys a ≡ false
not-owns-unused h none ys a w e = absurd w
not-owns-unused h (some q) ys a w e = not-owns_of_none h ys null a w.linked e

pub Two-Shrinks :
    (h0 h g : Heap) (p q p' : QueuePtr) (xs ys : Cells) (left : List JobInfo)
    → Two h0 h p q xs ys
    → (s : Shrinks h xs left p' g) → Two h0 g p' q s.cells ys
Two-Shrinks h0 h g p q p' xs ys left t s = record {
  first = s.points;
  second = PointsTo-frame h g q ys t.second (λ a o. s.same a (Apart-swap xs ys t.apart a o));
  apart = λ a o. t.apart a (s.old a o);
  new_first = λ a o. t.new_first a (s.old a o);
  new_second = t.new_second;
  others = λ a o o'. elim (Bool-cases (owns xs a)) [
    | inl gone ↦ s.freed a gone o ∙ sym (t.new_first a gone)
    | inr never ↦ s.same a never ∙ t.others a never o'
  ];
}

pub Two-Enqueued :
    (h0 h g : Heap) (p q p' : QueuePtr) (xs ys : Cells) (fresh : Addr) (j : JobInfo) (ok : Bool)
    → Two h0 h p q xs ys
    → h fresh ≡ none
    → Enqueued h xs fresh j (ok, p') g
    → Two h0 g p' q (xs ++ ((fresh, j) ∷ [])) ys
Two-Enqueued h0 h g p q p' xs ys fresh j ok t unused (_, points, same) =
    let not_first = not-owns-unused h p xs fresh t.first unused in
    let not_second = not-owns-unused h q ys fresh t.second unused in
    let free : h0 fresh ≡ none = sym (t.others fresh not_first not_second) ∙ unused in
    record {
      first = points;
      second = PointsTo-frame h g q ys t.second (λ a o. same a (
          ground
            (arith, owns-append xs ((fresh, j) ∷ []) a, not_second, Apart-swap xs ys t.apart a o)));
      apart = λ a o. ground (arith, owns-append xs ((fresh, j) ∷ []) a, not_second, t.apart a);
      new_first = λ a o. ground (arith, owns-append xs ((fresh, j) ∷ []) a, free, t.new_first a);
      new_second = t.new_second;
      others =
          λ a o o'. same a o ∙ t.others a (ground (arith, owns-append xs ((fresh, j) ∷ []) a)) o';
    }

-- The first queue stands for these jobs.
pub record TwoLeft (h0 g : Heap) (p q : QueuePtr) (left : List JobInfo) (ys : Cells) : Type 0 where
  pub cells : Cells
  pub left_jobs : jobs cells ≡ left
  pub two : Two h0 g p q cells ys
