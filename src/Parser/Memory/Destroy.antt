-- ===== src/Parser/Memory/Destroy.antt =====
-- `parser_destroy`: the blocks of a command go back, and no others.
use runner_orchestrator.Base.{◌≡◌, refl, sym, ◌∙◌, List, [], ◌∷◌, ◌++◌, some, map, subst}
use mathlib.Core.List.{append_assoc}
use runner_orchestrator.Parser.Memory.{
  Addr, command, Blocks, Memory, CommandPointer, free, free_stage, free_stages, parser_destroy,
}
use runner_orchestrator.Parser.Memory.Blocks.{Holds, Freed, free-Freed}
use runner_orchestrator.Parser.Memory.Held.{
  Held, pointers, held, over-append, Freed-then, free_stage-Freed,
}

-- The blocks of several stages in front of others; those of the last stage stand first.
abbrev pub all_held : List Held → Blocks → Blocks
all_held [] base = base
all_held (o ∷ os) base = all_held os (held o base)

pub held-append : (o : Held) (xs ys : Blocks) → held o xs ++ ys ≡ held o (xs ++ ys)
held-append o xs ys = simp (append_assoc, over-append)

all_held-append : (os : List Held) (xs ys : Blocks) → all_held os xs ++ ys ≡ all_held os (xs ++ ys)
all_held-append [] xs ys = refl
all_held-append (o ∷ os) xs ys = all_held-append os (held o xs) ys ∙ (rw (held-append o xs ys) refl)

-- What stands in front of what a command holds.
all_held-front :
    (xs : Blocks) (os : List Held) (ys : Blocks)
    → xs ++ all_held os ys ≡ (xs ++ all_held os []) ++ ys
all_held-front xs os ys = rw (append_assoc, all_held-append os [] ys) refl

pub free_stages-Freed :
    (os : List Held) (xs ys : Blocks) (m : Memory)
    → Holds (xs ++ all_held os ys) m
    → Freed (xs ++ ys) m (free_stages (map pointers os) m)
unfolding free_stages
free_stages-Freed [] xs ys m h = record { memory = m; ran = refl; asked = refl; holds = h }
free_stages-Freed (o ∷ os) xs ys m h =
    Freed-then (xs ++ all_held os ys) (xs ++ ys) m (free_stage (pointers o) m)
      (free_stages (map pointers os))
      (subst (λ l. Freed l m (free_stage (pointers o) m)) (sym (all_held-front xs os ys))
        (free_stage-Freed o (xs ++ all_held os []) ys m
          (subst (λ l. Holds l m) (all_held-front xs os (held o ys)) h)))
      (λ m' h'. free_stages-Freed os xs ys m' h')

-- The pointer to a command with the stages that hold these blocks.
abbrev pub command_at : Addr → List Held → CommandPointer
command_at p os = record { addr = p; stages = map pointers os }

pub parser_destroy-Freed :
    (os : List Held) (xs ys : Blocks) (p : Addr) (m : Memory)
    → Holds (xs ++ all_held os ((p, command) ∷ ys)) m
    → Freed (xs ++ ys) m (parser_destroy (some (command_at p os)) m)
unfolding parser_destroy
parser_destroy-Freed os xs ys p m h =
    Freed-then (xs ++ ((p, command) ∷ ys)) (xs ++ ys) m (free_stages (map pointers os) m) (free p)
      (free_stages-Freed os xs ((p, command) ∷ ys) m h) (λ m' h'. free-Freed xs ys p command m' h')
