-- ===== src/Parser/Memory/Held.antt =====
-- The blocks that the tokens of a stage stand in, and `parser_destroy` on one stage.
use runner_orchestrator.Base.{
  ◌≡◌, refl, ◌∙◌, ap, suc, List, [], ◌∷◌, ◌++◌, length, Option, none, some,
}
use runner_orchestrator.Parser.{Text, CommandStage}
use runner_orchestrator.Parser.Memory.{
  Addr, null, characters, Blocks, Memory, Run, free, ◌>>◌, StagePointers, free_arguments,
  free_stage,
}
use runner_orchestrator.Parser.Memory.Blocks.{Holds, Freed, free-null, free-Freed}

-- A token and the address of its copy.
abbrev pub Cell : Type 0
Cell = Addr × Text

pub record Held : Type 0 where
  pub args : List Cell
  pub input_cell : Option Cell
  pub output_cell : Option Cell
  pub error_cell : Option Cell

abbrev pub nothing : Held
nothing = record { args = []; input_cell = none; output_cell = none; error_cell = none }

abbrev pub addrs : List Cell → List Addr
addrs [] = []
addrs ((p, t) ∷ cs) = p ∷ addrs cs

abbrev pub texts : List Cell → List Text
texts [] = []
texts ((p, t) ∷ cs) = t ∷ texts cs

abbrev pub addr_of : Option Cell → Addr
addr_of none = null
addr_of (some (p, t)) = p

abbrev pub text_of : Option Cell → Option Text
text_of none = none
text_of (some (p, t)) = some t

-- The pointers of the stage, and the tokens that they lead to.
abbrev pub pointers : Held → StagePointers
pointers o = record {
  argv = addrs o.args;
  input_file = addr_of o.input_cell;
  output_file = addr_of o.output_cell;
  error_file = addr_of o.error_cell;
}

abbrev pub stage_of : Held → CommandStage
stage_of o = record {
  argv = texts o.args;
  input_file = text_of o.input_cell;
  output_file = text_of o.output_cell;
  error_file = text_of o.error_cell;
}

abbrev pub argument_blocks : List Cell → Blocks
argument_blocks [] = []
argument_blocks ((p, t) ∷ cs) = (p, characters t) ∷ argument_blocks cs

abbrev pub over : Option Cell → Blocks → Blocks
over none bs = bs
over (some (p, t)) bs = (p, characters t) ∷ bs

-- The blocks of the stage in front of others.
abbrev pub held : Held → Blocks → Blocks
held o base =
    argument_blocks o.args ++ over o.input_cell (over o.output_cell (over o.error_cell base))

pub over-append : (c : Option Cell) (xs ys : Blocks) → over c xs ++ ys ≡ over c (xs ++ ys)
over-append none xs ys = refl
over-append (some (p, t)) xs ys = refl

pub addrs-append : (xs ys : List Cell) → addrs (xs ++ ys) ≡ addrs xs ++ addrs ys
addrs-append [] ys = refl
addrs-append ((p, t) ∷ xs) ys = ap (λ l. p ∷ l) (addrs-append xs ys)

pub texts-append : (xs ys : List Cell) → texts (xs ++ ys) ≡ texts xs ++ texts ys
texts-append [] ys = refl
texts-append ((p, t) ∷ xs) ys = ap (λ l. t ∷ l) (texts-append xs ys)

pub length-addrs : (xs : List Cell) → length (addrs xs) ≡ length (texts xs)
length-addrs [] = refl
length-addrs ((p, t) ∷ xs) = ap suc (length-addrs xs)

pub argument_blocks-snoc :
    (xs : List Cell) (p : Addr) (t : Text) (ys : Blocks)
    → argument_blocks (xs ++ ((p, t) ∷ [])) ++ ys ≡ argument_blocks xs ++ ((p, characters t) ∷ ys)
argument_blocks-snoc [] p t ys = refl
argument_blocks-snoc ((q, u) ∷ xs) p t ys =
    ap (λ l. (q, characters u) ∷ l) (argument_blocks-snoc xs p t ys)

-- One call after another.
pub Freed-then :
    (bs cs : Blocks) (m : Memory) (r : Run (Unit {0})) (next : Memory → Run (Unit {0}))
    → Freed bs m r
    → ((m' : Memory) → Holds bs m' → Freed cs m' (next m'))
    → Freed cs m (r >> next)
Freed-then bs cs m r next f then_freed =
    let g = then_freed f.memory f.holds in
    record {
      memory = g.memory;
      ran = rw (f.ran) (g.ran);
      asked = g.asked ∙ f.asked;
      holds = g.holds;
    }

-- `free` on a file, given or not.
pub free_file-Freed :
    (c : Option Cell) (xs ys : Blocks) (m : Memory)
    → Holds (xs ++ over c ys) m
    → Freed (xs ++ ys) m (free (addr_of c) m)
free_file-Freed none xs ys m h = free-null (xs ++ ys) m h
free_file-Freed (some (p, t)) xs ys m h = free-Freed xs ys p (characters t) m h

free_arguments-Freed :
    (cs : List Cell) (xs ys : Blocks) (m : Memory)
    → Holds (xs ++ (argument_blocks cs ++ ys)) m
    → Freed (xs ++ ys) m (free_arguments (addrs cs) m)
unfolding free_arguments
free_arguments-Freed [] xs ys m h = record { memory = m; ran = refl; asked = refl; holds = h }
free_arguments-Freed ((p, t) ∷ cs) xs ys m h =
    let rest = argument_blocks cs ++ ys in
    Freed-then (xs ++ rest) (xs ++ ys) m (free p m) (free_arguments (addrs cs))
      (free-Freed xs rest p (characters t) m h) (λ m' h'. free_arguments-Freed cs xs ys m' h')

-- `parser_destroy` gives back what a stage holds, and nothing else.
pub free_stage-Freed :
    (o : Held) (xs ys : Blocks) (m : Memory)
    → Holds (xs ++ held o ys) m
    → Freed (xs ++ ys) m (free_stage (pointers o) m)
unfolding free_stage
free_stage-Freed o xs ys m h =
    Freed-then (xs ++ over o.error_cell ys) (xs ++ ys) m _ (free (addr_of o.error_cell))
      (Freed-then (xs ++ over o.output_cell (over o.error_cell ys)) _ m _
        (free (addr_of o.output_cell))
        (Freed-then _ _ m _ (free (addr_of o.input_cell)) (free_arguments-Freed o.args xs _ m h)
          (free_file-Freed o.input_cell xs (over o.output_cell (over o.error_cell ys))))
        (free_file-Freed o.output_cell xs (over o.error_cell ys)))
      (free_file-Freed o.error_cell xs ys)
