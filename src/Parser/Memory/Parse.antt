-- ===== src/Parser/Memory/Parse.antt =====
-- `parse_stage` with memory, beside the same function of Parser.antt.
use runner_orchestrator.Base.{
  ℕ, zero, suc, ◌+◌, ◌≡◌, refl, Bool, true, false, Bool-cases, ◌∷◌, length, Option, Option-cases,
  List-cases, none, some, inl, inr, arith, subst,
}
use runner_orchestrator.Parser.{
  Text, CommandStage, Outcome, parsed, failed, endless, skip_spaces, is_angle, take_token,
  parse_token, redirect_at, with_token, parse_loop, parse_stage, add_argument, set_target,
}
use runner_orchestrator.Parser.Memory.{
  Addr, characters, Blocks, Memory, Allocator, Run, done, ◌>>=◌, StagePointers, duplicate_range,
  parse_token_heap, with_pointer, parse_loop_heap, parse_stage_heap, replace_target, store_argument,
}
use runner_orchestrator.Parser.Memory.Blocks.{Holds, allocate-Allocated, allocate-null}
use runner_orchestrator.Parser.Memory.Held.{Held, nothing, pointers, stage_of, held}
use runner_orchestrator.Parser.Memory.Stored.{Stored, replace_target-Stored, store_argument-Stored}

-- A token in a block of its own.
record TookToken (bs : Blocks) (m : Memory) (token rest : Text) (r : Option (Addr × Text) × Memory)
    : Type 0 where
  addr : Addr
  memory : Memory
  ran : r ≡ (some (addr, rest), memory)
  asked : memory.asked ≡ suc m.asked
  holds : Holds ((addr, characters token) ∷ bs) memory

-- No token, and no block.
record TookNothing (bs : Blocks) (r : Option (Addr × Text) × Memory) : Type 0 where
  memory : Memory
  ran : r ≡ (none, memory)
  holds : Holds bs memory

abbrev Took : Blocks → Memory → Option (Text × Text) → Option (Addr × Text) × Memory → Type 0
Took bs m none r = TookNothing bs r
Took bs m (some (token, rest)) r = TookToken bs m token rest r

-- A stage that is read, and its blocks.
pub record ReadStage (base : Blocks) (stage : CommandStage) (asked : ℕ)
    (r : Run (Bool × StagePointers)) : Type 0 where
  pub now : Held
  pub memory : Memory
  pub ran : r ≡ done (true, pointers now) memory
  pub reads : stage_of now ≡ stage
  pub counts : memory.asked ≡ asked
  pub holds : Holds (held now base) memory

-- A stage that is given up, and the blocks that it holds by then.
pub record GaveUp (base : Blocks) (r : Run (Bool × StagePointers)) : Type 0 where
  pub now : Held
  pub memory : Memory
  pub ran : r ≡ done (false, pointers now) memory
  pub holds : Holds (held now base) memory

abbrev pub Reads :
    Blocks → (start : ℕ) → Outcome (CommandStage × ℕ) → Run (Bool × StagePointers) → Type 0
Reads base start (parsed (stage, n)) r = ReadStage base stage (start + n) r
Reads base start failed r = GaveUp base r
Reads base start endless r = r ≡ Run.endless

module _ (malloc : Allocator) where
  parse_token-Took :
      (bs : Blocks) (cursor : Text) (m : Memory)
      → Holds bs m
      → Took bs m (parse_token (malloc.alloc m.asked) cursor) (parse_token_heap malloc cursor m)
  unfolding parse_token parse_token_heap duplicate_range
  parse_token-Took bs cursor m h = elim (List-cases (skip_spaces cursor)) [
    | inl over ↦
        rw (over, parse_token, parse_token_heap) (record { memory = m; ran = refl; holds = h })
    | inr (c, cs, left) ↦ elim (Bool-cases (is_angle c)) [
      | inl angle ↦
          rw (left, angle, parse_token, parse_token_heap)
            (record { memory = m; ran = refl; holds = h })
      | inr plain ↦ elim (Bool-cases (malloc.alloc m.asked)) [
        | inl room ↦
            let a = allocate-Allocated malloc bs (characters (take_token (c ∷ cs)).0) m room h in
            rw (left, plain, room, a.ran, a.not_null, parse_token, parse_token_heap)
              (record {
                addr = a.addr;
                memory = a.memory;
                ran = refl;
                asked = a.asked;
                holds = a.holds;
              })
        | inr full ↦
            rw
              (
                left,
                plain,
                full,
                allocate-null malloc (characters (take_token (c ∷ cs)).0) m full,
                parse_token,
                parse_token_heap,
              )
              (record {
                memory = record m { asked = suc m.asked };
                ran = refl;
                holds = record { separate = h.separate; same = h.same };
              })
      ]
    ]
  ]

  module _ (base : Blocks) (start : ℕ) where
    -- What follows a token that is stored in the stage.
    bind-Reads :
        (stage : CommandStage) (m : Memory) (r : Run StagePointers)
        (a : CommandStage → Outcome (CommandStage × ℕ))
        (next : StagePointers → Memory → Run (Bool × StagePointers))
        → Stored base stage m r
        → ((o : Held) (m' : Memory)
            → Holds (held o base) m'
            → m'.asked ≡ m.asked
            → Reads base start (a (stage_of o)) (next (pointers o) m'))
        → Reads base start (a stage) (r >>= next)
    bind-Reads stage m r a next s ih = rw (s.ran) (
        subst (λ st. Reads base start (a st) (next (pointers s.now) s.memory)) (s.reads)
          (ih s.now s.memory s.holds s.asked))

    -- What a round does with the token, or without one.
    with_pointer-Reads :
        (o : Held) (m : Memory) (t : Option (Text × Text)) (p : Option (Addr × Text) × Memory)
        (a : Text → Text → Outcome (CommandStage × ℕ))
        (next : Addr → Text → Memory → Run (Bool × StagePointers))
        → Took (held o base) m t p
        → ((token rest : Text) (q : Addr) (m' : Memory)
            → Holds ((q, characters token) ∷ held o base) m'
            → m'.asked ≡ suc m.asked
            → Reads base start (a token rest) (next q rest m'))
        → Reads base start (with_token t a) (with_pointer malloc (pointers o) p next)
    with_pointer-Reads o m none p a next k ih =
        rw (k.ran) (record { now = o; memory = k.memory; ran = refl; holds = k.holds })
    with_pointer-Reads o m (some (token, rest)) p a next k ih =
        rw (k.ran) (ih token rest k.addr k.memory k.holds k.asked)

    abbrev granted : ℕ → Bool
    granted n = malloc.alloc (start + n)

    -- A round that stores a token by `store`, which is `add` on the stage of Parser.antt.
    round-Reads :
        (store : Addr → StagePointers → Memory → Run StagePointers)
        (add : Text → CommandStage → CommandStage) (k n : ℕ) (o : Held) (x : Text) (m : Memory)
        → m.asked ≡ start + n
        → Holds (held o base) m
        → ((q : Addr) (token : Text) (m1 : Memory)
            → Holds ((q, characters token) ∷ held o base) m1
            → Stored base (add token (stage_of o)) m1 (store q (pointers o) m1))
        → ((o2 : Held) (rest : Text) (m2 : Memory)
            → m2.asked ≡ start + (n + 1)
            → Holds (held o2 base) m2
            → Reads base start
                (parse_loop granted k (n + 1) (stage_of o2) rest)
                (parse_loop_heap malloc k (pointers o2) rest m2))
        → Reads base start
            (with_token
              (parse_token (granted n) x)
              (λ token next. parse_loop granted k (n + 1) (add token (stage_of o)) next))
            (with_pointer malloc (pointers o) (parse_token_heap malloc x m) (λ q next m1.
              store q (pointers o) m1 >>= λ stage'. parse_loop_heap malloc k stage' next))
    round-Reads store add k n o x m count h stores ih =
        with_pointer-Reads o m (parse_token (granted n) x) (parse_token_heap malloc x m)
          (λ token next. parse_loop granted k (n + 1) (add token (stage_of o)) next)
          (λ q next m1. store q (pointers o) m1 >>= λ stage'. parse_loop_heap malloc k stage' next)
          (subst
            (λ i.
              Took (held o base) m (parse_token (malloc.alloc i) x) (parse_token_heap malloc x m))
            count (parse_token-Took (held o base) x m h))
          λ token rest q m1 h1 one.
            bind-Reads (add token (stage_of o)) m1 (store q (pointers o) m1)
              (λ st. parse_loop granted k (n + 1) st rest)
              (λ st m2. parse_loop_heap malloc k st rest m2) (stores q token m1 h1)
              (λ o2 m2 h2 same. ih o2 rest m2 (omega (arith, one, same, count)) h2)

    parse_loop-Reads :
        (k n : ℕ) (o : Held) (cursor : Text) (m : Memory)
        → m.asked ≡ start + n
        → Holds (held o base) m
        → Reads base start
            (parse_loop granted k n (stage_of o) cursor)
            (parse_loop_heap malloc k (pointers o) cursor m)
    unfolding parse_loop parse_loop_heap
    parse_loop-Reads zero n o cursor m count h = refl
    parse_loop-Reads (suc k) n o cursor m count h = elim (List-cases (skip_spaces cursor)) [
      | inl over ↦
          rw (over, parse_loop, parse_loop_heap)
            (record { now = o; memory = m; ran = refl; reads = refl; counts = count; holds = h })
      | inr (c, cs, left) ↦ elim (Option-cases (redirect_at c cs)) [
        | inl none_there ↦
            rw (left, none_there, parse_loop, parse_loop_heap)
              (round-Reads store_argument add_argument k n o (c ∷ cs) m count h
                (λ q token m1 h1. store_argument-Stored q token o base m1 h1)
                (λ o2 rest m2 count2 h2. parse_loop-Reads k (n + 1) o2 rest m2 count2 h2))
        | inr ((t, y), e) ↦
            rw (left, e, parse_loop, parse_loop_heap)
              (round-Reads (replace_target t) (set_target t) k n o y m count h
                (λ q token m1 h1. replace_target-Stored t q token o base m1 h1)
                (λ o2 rest m2 count2 h2. parse_loop-Reads k (n + 1) o2 rest m2 count2 h2))
      ]
    ]

    pub parse_stage-Reads :
        (n : ℕ) (text : Text) (m : Memory)
        → m.asked ≡ start + n
        → Holds base m
        → Reads base start (parse_stage granted n text) (parse_stage_heap malloc text m)
    unfolding parse_stage parse_stage_heap
    parse_stage-Reads n text m count h = parse_loop-Reads (length text + 1) n nothing text m count h
