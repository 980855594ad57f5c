-- ===== src/Scheduler/Fair/Grown.antt =====
-- scheduler.c: the turns after a new user is put behind the others.
use mathlib.Core.List.{append-nil}
use runner_orchestrator.Base.{
  suc, ◌≤◌, ◌≡◌, ap, if_pos, if_neg, List, [], ◌∷◌, ◌++◌, ℤ, ℤ_discrete, arith,
}
use runner_orchestrator.Scheduler.Fair.TurnOrder.{turns_from, turn_order}
use runner_orchestrator.Scheduler.Fair.Waiting.{place}

place-hit : (x : ℤ) (xs : List ℤ) (u : ℤ) → x ≡ u → place (x ∷ xs) u ≡ 0
unfolding place
place-hit x xs u hit = if_pos (ℤ_discrete x u) hit 0 (suc (place xs u))

place-miss : (x : ℤ) (xs : List ℤ) (u : ℤ) → ¬ (x ≡ u) → place (x ∷ xs) u ≡ suc (place xs u)
unfolding place
place-miss x xs u miss = if_neg (ℤ_discrete x u) miss 0 (suc (place xs u))

place_insert :
    (xs ys : List ℤ) (v u : ℤ) → place ((xs ++ (v ∷ [])) ++ ys) u ≤ suc (place (xs ++ ys) u)
place_insert [] ys v u = elim (ℤ_discrete v u) [
  | yes hit ↦ omega (arith, place-hit v ys u hit)
  | no miss ↦ omega (arith, place-miss v ys u miss)
]
place_insert (x ∷ xs) ys v u = elim (ℤ_discrete x u) [
  | yes hit ↦ omega (arith, place-hit x ((xs ++ (v ∷ [])) ++ ys) u hit)
  | no miss ↦ omega (
    arith,
    place-miss x ((xs ++ (v ∷ [])) ++ ys) u miss,
    place-miss x (xs ++ ys) u miss,
    place_insert xs ys v u,
  )
]

place_snoc : (xs : List ℤ) (v u : ℤ) → place (xs ++ (v ∷ [])) u ≤ suc (place xs u)
place_snoc xs v u = omega (
  arith,
  place_insert xs [] v u,
  ap (λ l. place l u) (append-nil (xs ++ (v ∷ []))),
  ap (λ l. place l u) (append-nil xs),
)

turns_from-grown :
    (seen xs : List ℤ) (last v u : ℤ)
    → place (turns_from seen (xs ++ (v ∷ [])) last) u ≤ suc (place (turns_from seen xs last) u)
unfolding turns_from
turns_from-grown seen [] last v u = elim (ℤ_discrete v last) [
  | yes hit ↦ rw (if_pos _ hit) (place_snoc seen v u)
  | no miss ↦ rw (if_neg _ miss) (place_snoc seen v u)
]
turns_from-grown seen (x ∷ xs) last v u = elim (ℤ_discrete x last) [
  | yes hit ↦
      rw
        (
          if_pos (ℤ_discrete x last) hit ((xs ++ (v ∷ [])) ++ (seen ++ (x ∷ [])))
              (turns_from (seen ++ (x ∷ [])) (xs ++ (v ∷ [])) last),
          if_pos (ℤ_discrete x last) hit (xs ++ (seen ++ (x ∷ [])))
              (turns_from (seen ++ (x ∷ [])) xs last),
        )
        (place_insert xs (seen ++ (x ∷ [])) v u)
  | no miss ↦
      rw
        (
          if_neg (ℤ_discrete x last) miss ((xs ++ (v ∷ [])) ++ (seen ++ (x ∷ [])))
              (turns_from (seen ++ (x ∷ [])) (xs ++ (v ∷ [])) last),
          if_neg (ℤ_discrete x last) miss (xs ++ (seen ++ (x ∷ [])))
              (turns_from (seen ++ (x ∷ [])) xs last),
        )
        (turns_from-grown (seen ++ (x ∷ [])) xs last v u)
]

-- A new user at the end of the array comes before another at most once.
pub turn_order-grown :
    (users : List ℤ) (last v u : ℤ)
    → place (turn_order (users ++ (v ∷ [])) last) u ≤ suc (place (turn_order users last) u)
unfolding turn_order
turn_order-grown users last v u = turns_from-grown [] users last v u
