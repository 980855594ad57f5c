-- ===== src/Parser/Memory/Stored.antt =====
-- `*redirect_target = token` and `argv[argc] = token` of `parse_stage`: where the token's block goes.
use runner_orchestrator.Base.{
  ◌≡◌, refl, sym, Bool-cases, [], ◌∷◌, ◌++◌, length, ltb, Option, some, inl, inr, subst,
}
use mathlib.Core.List.{append_assoc}
use runner_orchestrator.Parser.{
  Text, CommandStage, Redirect, to_error, to_input, to_output, set_target, add_argument,
}
use runner_orchestrator.Parser.Memory.{
  Addr, characters, Blocks, Memory, Run, done, StagePointers, redirect_target, store_target,
  replace_target, store_argument,
}
use runner_orchestrator.Parser.Memory.Blocks.{Holds, Holds-move, free-Freed}
-- A token and the address of its copy.
use runner_orchestrator.Parser.Memory.Held.{
  Cell, Held, texts, addr_of, pointers, stage_of, argument_blocks, over, held, over-append,
  addrs-append, texts-append, length-addrs, argument_blocks-snoc, free_file-Freed,
}

-- A step that stores a token in a stage: the stage that it makes, and the blocks of that stage.
pub record Stored (base : Blocks) (stage : CommandStage) (m : Memory) (r : Run StagePointers)
    : Type 0 where
  pub now : Held
  pub memory : Memory
  pub ran : r ≡ done (pointers now) memory
  pub reads : stage_of now ≡ stage
  pub asked : memory.asked ≡ m.asked
  pub holds : Holds (held now base) memory

abbrev file : Redirect → Held → Option Cell
file to_error o = o.error_cell
file to_input o = o.input_cell
file to_output o = o.output_cell

abbrev put : Redirect → Cell → Held → Held
put to_error c o = record o { error_cell = some c }
put to_input c o = record o { input_cell = some c }
put to_output c o = record o { output_cell = some c }

-- Where the target's block stands among those of the stage.
record Spot (t : Redirect) (o : Held) (base : Blocks) : Type 0 where
  before : Blocks
  behind : Blocks
  was : held o base ≡ before ++ over (file t o) behind
  becomes : (c : Cell) → held (put t c o) base ≡ before ++ over (some c) behind

spot : (t : Redirect) (o : Held) (base : Blocks) → Spot t o base
spot to_error o base = record {
  before = argument_blocks o.args ++ over o.input_cell (over o.output_cell []);
  behind = base;
  was = simp (append_assoc, over-append);
  becomes = λ c. simp (append_assoc, over-append);
}
spot to_input o base = record {
  before = argument_blocks o.args;
  behind = over o.output_cell (over o.error_cell base);
  was = refl;
  becomes = λ c. refl;
}
spot to_output o base = record {
  before = argument_blocks o.args ++ over o.input_cell [];
  behind = over o.error_cell base;
  was = simp (append_assoc, over-append);
  becomes = λ c. simp (append_assoc, over-append);
}

redirect_target-file :
    (t : Redirect) (o : Held) → redirect_target t (pointers o) ≡ addr_of (file t o)
redirect_target-file to_error o = refl
redirect_target-file to_input o = refl
redirect_target-file to_output o = refl

store_target-put :
    (t : Redirect) (p : Addr) (token : Text) (o : Held)
    → store_target t p (pointers o) ≡ pointers (put t (p, token) o)
store_target-put to_error p token o = refl
store_target-put to_input p token o = refl
store_target-put to_output p token o = refl

stage_of-put :
    (t : Redirect) (p : Addr) (token : Text) (o : Held)
    → stage_of (put t (p, token) o) ≡ set_target t token (stage_of o)
stage_of-put to_error p token o = refl
stage_of-put to_input p token o = refl
stage_of-put to_output p token o = refl

-- The token of an operator takes the place of the one before it, whose block is freed.
pub replace_target-Stored :
    (t : Redirect) (p : Addr) (token : Text) (o : Held) (base : Blocks) (m : Memory)
    → Holds ((p, characters token) ∷ held o base) m
    → Stored base (set_target t token (stage_of o)) m (replace_target t p (pointers o) m)
unfolding replace_target
replace_target-Stored t p token o base m h =
    let s = spot t o base in
    let b = characters token in
    let f =
      free_file-Freed (file t o) ((p, b) ∷ s.before) s.behind m
        (subst (λ l. Holds ((p, b) ∷ l) m) (s.was) h) in
    record {
      now = put t (p, token) o;
      memory = f.memory;
      ran = rw (redirect_target-file t o, f.ran, store_target-put t p token o) refl;
      reads = stage_of-put t p token o;
      asked = f.asked;
      holds =
          subst (λ l. Holds l f.memory) (sym (s.becomes (p, token)))
            (Holds-move s.before s.behind p b f.memory f.holds);
    }

-- The token of an argument is the last of `argv`, or its block is freed when `argv` is full.
pub store_argument-Stored :
    (p : Addr) (token : Text) (o : Held) (base : Blocks) (m : Memory)
    → Holds ((p, characters token) ∷ held o base) m
    → Stored base (add_argument token (stage_of o)) m (store_argument p (pointers o) m)
unfolding store_argument
store_argument-Stored p token o base m h = elim (Bool-cases (ltb (length (texts o.args)) 31)) [
  | inl room ↦ record {
    now = record o { args = o.args ++ ((p, token) ∷ []) };
    memory = m;
    ran = rw (length-addrs o.args, room, addrs-append o.args ((p, token) ∷ [])) refl;
    reads = rw (room, texts-append o.args ((p, token) ∷ [])) refl;
    asked = refl;
    holds =
        subst (λ l. Holds l m) (sym (argument_blocks-snoc o.args p token _))
          (Holds-move (argument_blocks o.args) _ p (characters token) m h);
  }
  | inr full ↦
      let f = free-Freed [] (held o base) p (characters token) m h in
      record {
        now = o;
        memory = f.memory;
        ran = rw (length-addrs o.args, full, f.ran) refl;
        reads = rw full refl;
        asked = f.asked;
        holds = f.holds;
      }
]
