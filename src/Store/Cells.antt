-- ===== src/Store/Cells.antt =====
-- Linked lists of job nodes in the heap.
use runner_orchestrator.Base.{
  ◌≡◌, refl, ap, ◌∙◌, Bool, true, false, ◌||◌, ◌==◌, List, [], ◌∷◌, ◌++◌, ◌⊎◌, inl, inr, some, none,
  arith, length,
}
use runner_orchestrator.Scheduler.Job.{JobInfo}
use runner_orchestrator.Store.{Addr, null, node, Heap}

-- The nodes of a list in order: where each stands and its job.
abbrev pub Cells : Type 0
Cells = List (Addr × JobInfo)

abbrev pub jobs : Cells → List JobInfo
jobs [] = []
jobs ((p, j) ∷ cs) = j ∷ jobs cs

-- The first address, or that of what follows.
abbrev pub entry : Cells → Addr → Addr
entry [] stop = stop
entry ((p, j) ∷ cs) stop = p

abbrev pub last_addr : Addr → Cells → Addr
last_addr p [] = p
last_addr p ((a, j) ∷ cs) = last_addr a cs

-- The `next` pointers lead through the cells to `stop`.
abbrev pub Linked : Heap → Cells → Addr → Type 0
Linked h [] stop = Unit {0}
Linked h ((p, j) ∷ cs) stop =
    ((p == null) ≡ false) × (h p ≡ some (node j (entry cs stop))) × Linked h cs stop

abbrev pub owns : Cells → Addr → Bool
owns [] a = false
owns ((p, j) ∷ cs) a = (a == p) || owns cs a

abbrev pub Distinct : Cells → Type 0
Distinct [] = Unit {0}
Distinct ((p, j) ∷ cs) = (owns cs p ≡ false) × Distinct cs

abbrev pub Apart : Cells → Cells → Type 0
Apart xs ys = (a : Addr) → owns xs a ≡ true → owns ys a ≡ false

-- `g` is `h` but for the cells.
abbrev pub SameBut : Cells → Heap → Heap → Type 0
SameBut cs h g = (a : Addr) → owns cs a ≡ false → g a ≡ h a

pub jobs-append : (xs ys : Cells) → jobs (xs ++ ys) ≡ jobs xs ++ jobs ys
jobs-append [] ys = refl
jobs-append ((p, j) ∷ xs) ys = ap (◌∷◌ j) (jobs-append xs ys)

pub length-jobs : (xs : Cells) → length (jobs xs) ≡ length xs
length-jobs [] = refl
length-jobs ((p, j) ∷ xs) = omega (arith, length-jobs xs)

pub entry-append : (xs ys : Cells) (s : Addr) → entry (xs ++ ys) s ≡ entry xs (entry ys s)
entry-append [] ys s = refl
entry-append ((p, j) ∷ xs) ys s = refl

pub last_addr-append :
    (p : Addr) (xs ys : Cells) → last_addr p (xs ++ ys) ≡ last_addr (last_addr p xs) ys
last_addr-append p [] ys = refl
last_addr-append p ((a, j) ∷ xs) ys = last_addr-append a xs ys

pub owns-append : (xs ys : Cells) (a : Addr) → owns (xs ++ ys) a ≡ (owns xs a || owns ys a)
owns-append [] ys a = refl
owns-append ((p, j) ∷ xs) ys a = ground (arith, owns-append xs ys a)

pub Linked-append :
    (h : Heap) (xs ys : Cells) (s : Addr)
    → Linked h xs (entry ys s)
    → Linked h ys s
    → Linked h (xs ++ ys) s
Linked-append h [] ys s a b = b
Linked-append h ((p, j) ∷ xs) ys s (ne, at, a) b =
    (ne, rw (entry-append xs ys s) at, Linked-append h xs ys s a b)

pub Linked-of_append :
    (h : Heap) (xs ys : Cells) (s : Addr)
    → Linked h (xs ++ ys) s
    → Linked h xs (entry ys s) × Linked h ys s
Linked-of_append h [] ys s a = (tt, a)
Linked-of_append h ((p, j) ∷ xs) ys s (ne, at, a) =
    let (b, c) = Linked-of_append h xs ys s a in ((ne, rw (entry-append xs ys s) at at, b), c)

pub Distinct-of_append :
    (xs ys : Cells) → Distinct (xs ++ ys) → Distinct xs × Distinct ys × Apart xs ys
Distinct-of_append [] ys d = (tt, d, λ a h. cc)
Distinct-of_append ((p, j) ∷ xs) ys (out, d) =
    let (b, c, apart) = Distinct-of_append xs ys d in
    (
      (ground (arith, owns-append xs ys p), b),
      c,
      λ a h. ground (arith, owns-append xs ys p, apart a),
    )

pub Distinct-append :
    (xs ys : Cells) → Distinct xs → Distinct ys → Apart xs ys → Distinct (xs ++ ys)
Distinct-append [] ys a b apart = b
Distinct-append ((p, j) ∷ xs) ys (out, a) b apart = (
  ground (arith, owns-append xs ys p, apart p),
  Distinct-append xs ys a b (λ c h. apart c (ground arith)),
)

-- A list survives a change elsewhere.
pub Linked-frame :
    (h g : Heap) (xs : Cells) (s : Addr)
    → Linked h xs s
    → ((a : Addr) → owns xs a ≡ true → g a ≡ h a)
    → Linked g xs s
Linked-frame h g [] s l same = tt
Linked-frame h g ((p, j) ∷ xs) s (ne, at, l) same =
    (ne, same p (ground arith) ∙ at, Linked-frame h g xs s l (λ a o. same a (ground arith)))

-- Where nothing is allocated stands no cell.
pub not-owns_of_none :
    (h : Heap) (xs : Cells) (s a : Addr) → Linked h xs s → h a ≡ none → owns xs a ≡ false
not-owns_of_none h [] s a l e = refl
not-owns_of_none h ((p, j) ∷ xs) s a (ne, at, l) e = ground (arith, not-owns_of_none h xs s a l e)

pub not-owns-null : (h : Heap) (xs : Cells) (s : Addr) → Linked h xs s → owns xs null ≡ false
not-owns-null h [] s l = refl
not-owns-null h ((p, j) ∷ xs) s (ne, at, l) = ground (arith, not-owns-null h xs s l)

pub Cells-snoc :
    (xs : Cells)
    → (xs ≡ []) ⊎ ((init : Cells) × (t : Addr) × (j : JobInfo) × (xs ≡ init ++ ((t, j) ∷ [])))
Cells-snoc [] = inl refl
Cells-snoc ((p, j) ∷ xs) = elim (Cells-snoc xs) [
  | inl e ↦ inr ([], p, j, ap (λ l. (p, j) ∷ l) e)
  | inr (init, t, k, e) ↦ inr ((p, j) ∷ init, t, k, ap (λ l. (p, j) ∷ l) e)
]

-- The cell `t` is given another rest, and the cells before it are left alone.
pub relink :
    (h g : Heap) (init : Cells) (t : Addr) (k : JobInfo) (rest rest' : Cells) (s s' : Addr)
    → Linked h (init ++ ((t, k) ∷ rest)) s
    → ((a : Addr) → owns init a ≡ true → g a ≡ h a)
    → g t ≡ some (node k (entry rest' s'))
    → Linked g rest' s'
    → Linked g (init ++ ((t, k) ∷ rest')) s'
relink h g init t k rest rest' s s' l same at l' =
    let (a, (ne, was, b)) = Linked-of_append h init ((t, k) ∷ rest) s l in
    Linked-append g init ((t, k) ∷ rest') s' (Linked-frame h g init t a same) (ne, at, l')
