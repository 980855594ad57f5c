-- ===== src/Store.antt =====
-- The C heap as far as job nodes go: `job_node_t` of scheduler.c, and programs that read and write it.
pub mod Cells
use runner_orchestrator.Base.{
  ℕ, ◌≡◌, Bool, true, false, Option, none, some, ◌==◌, if◌then◌else◌, ap, refl, arith,
}
use runner_orchestrator.Scheduler.Job.{JobInfo}

abbrev pub Addr : Type 0
Addr = ℕ

abbrev pub null : Addr
null = 0

pub record JobNode : Type 0 where
  pub job : JobInfo
  pub next : Addr

abbrev pub node : JobInfo → Addr → JobNode
node j p = record { job = j; next = p }

-- What stands at an address; `none` where nothing is allocated.
abbrev pub Heap : Type 0
Heap = Addr → Option JobNode

unfoldable pub write : Heap → Addr → Option JobNode → Heap
write h p c a = if a == p then c else h a

-- How a program ends: with a value, at an address that holds no node, or not within its fuel.
pub data Exec (A : Type 0) : Type 0 where
  done : A → Heap → Exec A
  invalid : Exec A
  endless : Exec A

abbrev pub Prog : Type 0 → Type 0
Prog A = Heap → Exec A

abbrev pub pure : {A : Type 0} → A → Prog A
pure a = λ h. done a h

module _ {A B : Type 0} where
  abbrev pub continue : Exec A → (A → Prog B) → Exec B
  continue (done a h) k = k a h
  continue invalid k = invalid
  continue endless k = endless

  infixl 5 ◌>>=◌ ◌>>◌
  abbrev pub ◌>>=◌ : Prog A → (A → Prog B) → Prog B
  m >>= k = λ h. continue (m h) k

  abbrev pub ◌>>◌ : Prog A → Prog B → Prog B
  m >> k = m >>= λ _. k

-- The node that a pointer leads to. Reading through NULL or a freed pointer is invalid.
unfoldable pub load : Addr → Prog JobNode
load p h = if p == null then invalid else elim (h p) [ none ↦ invalid | some n ↦ done n h ]

-- `p->next = q`
unfoldable pub set_next : Addr → Addr → Prog (Unit {0})
set_next p q = load p >>= λ n h. done tt (write h p (some (node n.job q)))

unfoldable pub free : Addr → Prog (Unit {0})
free p = load p >>= λ n h. done tt (write h p none)

-- A new node at the address that `malloc` returned.
unfoldable pub fill : Addr → JobNode → Prog (Unit {0})
fill p n h = done tt (write h p (some n))

-- A program ends with a value, and what holds then.
pub record Ends {A : Type 0} (P : A → Heap → Type 0) (r : Exec A) : Type 0 where
  pub value : A
  pub heap : Heap
  pub ran : r ≡ done value heap
  pub holds : P value heap

pub bind-Ends :
    {A B : Type 0} {P : A → Heap → Type 0} {Q : B → Heap → Type 0} (r : Exec A) (k : A → Prog B)
    → Ends P r
    → ((a : A) (h : Heap) → P a h → Ends Q (k a h))
    → Ends Q (continue r k)
bind-Ends r k e next = rw (e.ran) (next e.value e.heap e.holds)

module _ (h : Heap) (p : Addr) (n : JobNode) (ne : (p == null) ≡ false) (at : h p ≡ some n) where
  pub load-done : load p h ≡ done n h
  unfolding load
  load-done = rw (ne, at)

  pub set_next-done : (q : Addr) → set_next p q h ≡ done tt (write h p (some (node n.job q)))
  unfolding set_next
  set_next-done q = rw load-done

  pub free-done : free p h ≡ done tt (write h p none)
  unfolding free
  free-done = rw load-done
