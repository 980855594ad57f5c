-- ===== src/Descriptors.antt =====
-- The open files of a process: what a descriptor stands for, and the system calls that change it.
pub mod Laws
use runner_orchestrator.Base.{
  ℕ, ◌≡◌, ◌==◌, Bool, true, false, if◌then◌else◌, List, [], ◌∷◌, Option, none, some,
}

-- Open for reading, or created or emptied and open for writing.
pub data Mode : Type 0 where
  reading writing : Mode

-- What was open before, an end of a pipe, or a file by its name.
pub data Object : Type 0 where
  inherited : ℕ → Object
  read_end write_end : (pipe : ℕ) → Object
  file : Mode → List ℕ → Object

abbrev pub Table : Type 0
Table = List (ℕ × Object)

unfoldable pub lookup : Table → ℕ → Option Object
lookup [] f = none
lookup ((g, o) ∷ t) f = if f == g then some o else lookup t f

unfoldable pub close : ℕ → Table → Table
close f [] = []
close f ((g, o) ∷ t) = let rest = close f t in if f == g then rest else (g, o) ∷ rest

unfoldable pub put : ℕ → Object → Table → Table
put f o t = (f, o) ∷ close f t

-- `dup2(old, new)`; `none` for -1. It fails too when `old` is not open.
unfoldable pub dup2 : (ok : Bool) → (old new : ℕ) → Table → Option Table
dup2 false old new t = none
dup2 true old new t = elim (lookup t old) [ none ↦ none | some o ↦ some (put new o t) ]

-- The descriptor that the system chooses for a new file is not open.
abbrev pub IsFresh : (Table → ℕ) → Type 0
IsFresh fresh = (t : Table) → lookup t (fresh t) ≡ none
