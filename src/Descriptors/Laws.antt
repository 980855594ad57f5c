-- ===== src/Descriptors/Laws.antt =====
-- What a descriptor stands for after each call.
use runner_orchestrator.Base.{ℕ, ◌≡◌, ◌==◌, true, if◌then◌else◌, [], ◌∷◌, none, some, arith}
use runner_orchestrator.Descriptors.{Object, Table, lookup, close, put, dup2}

pub lookup-close :
    (f : ℕ) (t : Table) (x : ℕ) → lookup (close f t) x ≡ (if x == f then none else lookup t x)
unfolding lookup close
lookup-close f [] x = ground arith
lookup-close f ((g, o) ∷ t) x = ground (arith, lookup-close f t x)

pub lookup-put :
    (f : ℕ) (o : Object) (t : Table) (x : ℕ)
    → lookup (put f o t) x ≡ (if x == f then some o else lookup t x)
unfolding lookup put
lookup-put f o t x = ground (arith, lookup-close f t x)

pub dup2-eq :
    (old new : ℕ) (t : Table) (o : Object)
    → lookup t old ≡ some o
    → dup2 true old new t ≡ some (put new o t)
unfolding dup2
dup2-eq old new t o e = rw (e, dup2)
