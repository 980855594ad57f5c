-- ===== src/Scheduler/Fair/TurnOrder.antt =====
-- The order in which users have their turn, without indices.
use runner_orchestrator.Base.{if◌then◌else◌, ite, List, [], ◌∷◌, ◌++◌, ℤ, ℤ_discrete}
use runner_orchestrator.Scheduler.Fair.{user_exists}

-- The users behind `last`, then those from the front up to and with `last`, whom `seen` collects.
unfoldable pub turns_from : (seen : List ℤ) → List ℤ → ℤ → List ℤ
turns_from seen [] last = seen
turns_from seen (x ∷ xs) last =
    ite (ℤ_discrete x last) (xs ++ (seen ++ (x ∷ []))) (turns_from (seen ++ (x ∷ [])) xs last)

-- The whole list, from its front, if `last` is not in it.
unfoldable pub turn_order : List ℤ → ℤ → List ℤ
turn_order = turns_from []

-- The first user of a list who is active.
unfoldable pub first_active : (active turns : List ℤ) → ℤ → ℤ
first_active active [] otherwise = otherwise
first_active active (u ∷ us) otherwise =
    if user_exists active u then u else first_active active us otherwise
