-- ===== src/Parser/Memory/Blocks.antt =====
-- The blocks in use as a list in which no address stands twice, and `malloc` and `free` on it.
use runner_orchestrator.Base.{
  ◌≡◌, refl, ◌∙◌, sym, suc, true, false, if◌then◌else◌, [], ◌∷◌, ◌++◌, none, some, ◌==◌, arith,
}
use runner_orchestrator.Parser.Memory.{
  Addr, null, Block, Blocks, find, erase, Memory, Allocator, Run, done, free, allocate,
}

abbrev pub Separate : Blocks → Type 0
Separate [] = Unit {0}
Separate ((p, b) ∷ bs) = ((p == null) ≡ false) × (find bs p ≡ none) × Separate bs

pub find-erase :
    (bs : Blocks) (p a : Addr) → find (erase bs p) a ≡ (if a == p then none else find bs a)
find-erase [] p a = ground arith
find-erase ((q, b) ∷ bs) p a = ground (arith, find-erase bs p a)

pub find-middle :
    (xs ys : Blocks) (p a : Addr) (b : Block)
    → Separate (xs ++ ((p, b) ∷ ys))
    → find (xs ++ ((p, b) ∷ ys)) a ≡ (if a == p then some b else find (xs ++ ys) a)
find-middle [] ys p a b s = refl
find-middle ((q, c) ∷ xs) ys p a b (ne, out, s) =
    ground (arith, find-middle xs ys p a b s, find-middle xs ys p q b s, out)

pub Separate-remove :
    (xs ys : Blocks) (p : Addr) (b : Block)
    → Separate (xs ++ ((p, b) ∷ ys))
    → ((p == null) ≡ false) × (find (xs ++ ys) p ≡ none) × Separate (xs ++ ys)
Separate-remove [] ys p b s = s
Separate-remove ((q, c) ∷ xs) ys p b (ne, out, s) =
    let (ne', out', s') = Separate-remove xs ys p b s in
    let at = find-middle xs ys p q b s in
    (ne', ground (arith, out, out', at), (ne, ground (arith, out, at), s'))

pub Separate-insert :
    (xs ys : Blocks) (p : Addr) (b : Block)
    → (p == null) ≡ false
    → find (xs ++ ys) p ≡ none
    → Separate (xs ++ ys)
    → Separate (xs ++ ((p, b) ∷ ys))
Separate-insert [] ys p b ne out s = (ne, out, s)
Separate-insert ((q, c) ∷ xs) ys p b ne out (ne', out', s) =
    let s' = Separate-insert xs ys p b ne (ground (arith, out)) s in
    (ne', ground (arith, out, out', find-middle xs ys p q b s'), s')

-- The blocks in use are exactly those of the list, each with its content.
pub record Holds (bs : Blocks) (m : Memory) : Type 0 where
  pub separate : Separate bs
  pub same : (a : Addr) → find m.blocks a ≡ find bs a

-- A block may stand anywhere in the list.
pub Holds-move :
    (xs ys : Blocks) (p : Addr) (b : Block) (m : Memory)
    → Holds ((p, b) ∷ (xs ++ ys)) m
    → Holds (xs ++ ((p, b) ∷ ys)) m
Holds-move xs ys p b m h =
    let (ne, out, s) = h.separate in
    let s' = Separate-insert xs ys p b ne out s in
    record { separate = s'; same = λ a. h.same a ∙ sym (find-middle xs ys p a b s') }

-- What `free` leaves of the blocks in use.
pub record Freed (bs : Blocks) (m : Memory) (r : Run (Unit {0})) : Type 0 where
  pub memory : Memory
  pub ran : r ≡ done tt memory
  pub asked : memory.asked ≡ m.asked
  pub holds : Holds bs memory

pub free-null : (bs : Blocks) (m : Memory) → Holds bs m → Freed bs m (free null m)
unfolding free
free-null bs m h = record { memory = m; ran = refl; asked = refl; holds = h }

-- A block in use can be freed, and no other changes.
pub free-Freed :
    (xs ys : Blocks) (p : Addr) (b : Block) (m : Memory)
    → Holds (xs ++ ((p, b) ∷ ys)) m
    → Freed (xs ++ ys) m (free p m)
unfolding free
free-Freed xs ys p b m h =
    let (ne, out, s) = Separate-remove xs ys p b h.separate in
    let middle = λ (a : Addr). find-middle xs ys p a b h.separate in
    let there : find m.blocks p ≡ some b = h.same p ∙ ground (arith, middle p) in
    record {
      memory = record m { blocks = erase m.blocks p };
      ran = rw (ne, there) refl;
      asked = refl;
      holds = record {
        separate = s;
        same = λ a. ground (arith, find-erase m.blocks p a, h.same a, middle a, out);
      };
    }

-- What `malloc` returns when it has memory: a block of its own.
pub record Allocated (bs : Blocks) (b : Block) (m : Memory) (r : Addr × Memory) : Type 0 where
  pub addr : Addr
  pub memory : Memory
  pub ran : r ≡ (addr, memory)
  pub not_null : (addr == null) ≡ false
  pub asked : memory.asked ≡ suc m.asked
  pub holds : Holds ((addr, b) ∷ bs) memory

module _ (malloc : Allocator) where
  pub allocate-Allocated :
      (bs : Blocks) (b : Block) (m : Memory)
      → malloc.alloc m.asked ≡ true
      → Holds bs m
      → Allocated bs b m (allocate malloc b m)
  unfolding allocate
  allocate-Allocated bs b m room h =
      let p : Addr = malloc.place m.asked m.blocks in
      record {
        addr = p;
        memory = record { blocks = (p, b) ∷ m.blocks; asked = suc m.asked };
        ran = rw room refl;
        not_null = malloc.not_null m.asked m.blocks;
        asked = refl;
        holds = record {
          separate = (
            malloc.not_null m.asked m.blocks,
            sym (h.same p) ∙ malloc.fresh m.asked m.blocks,
            h.separate,
          );
          same = λ a. ground (arith, h.same a);
        };
      }

  -- Without memory for it nothing changes.
  pub allocate-null :
      (b : Block) (m : Memory)
      → malloc.alloc m.asked ≡ false
      → allocate malloc b m ≡ (null, record m { asked = suc m.asked })
  unfolding allocate
  allocate-null b m full = rw full refl
