-- ===== src/Scheduler/Fair/Active.antt =====
-- Where the user that is chosen comes from.
use native.Mathlib.Nat.{zero-add}
use runner_orchestrator.Base.{
  ℕ, ◌+◌, ◌≡◌, refl, inl, inr, true, List, [], ◌∷◌, ◌++◌, length, length-append, ℤ, arith, ◌||◌,
}
use runner_orchestrator.Scheduler.Fair.{
  user_at, user_exists, choose_next_user, choose_next_fair_user,
}
use runner_orchestrator.Scheduler.Fair.TurnOrder.{first_active}
use runner_orchestrator.Scheduler.Fair.Choice.{
  user_at-append_right, searched, choose_next_fair_user-first_active,
}

pub user_exists-head : (x : ℤ) (xs : List ℤ) → user_exists (x ∷ xs) x ≡ true
unfolding user_exists
user_exists-head x xs = ground arith

pub user_exists-append :
    (xs ys : List ℤ) (u : ℤ) → user_exists (xs ++ ys) u ≡ (user_exists xs u || user_exists ys u)
unfolding user_exists
user_exists-append [] ys u = refl
user_exists-append (x ∷ xs) ys u = ground (arith, user_exists-append xs ys u)

pub user_exists-middle : (xs : List ℤ) (u : ℤ) (ys : List ℤ) → user_exists (xs ++ (u ∷ ys)) u ≡ true
user_exists-middle xs u ys = ground (arith, user_exists-append xs (u ∷ ys) u, user_exists-head u ys)

-- The first active user of a list is active, if the one that is taken otherwise is.
first_active-exists :
    (active turns : List ℤ) (o : ℤ)
    → user_exists active o ≡ true
    → user_exists active (first_active active turns o) ≡ true
unfolding first_active
first_active-exists active [] o h = h
first_active-exists active (u ∷ us) o h = ground (arith, first_active-exists active us o h)

choose_next_user-last :
    (pre : List ℤ) (u : ℤ) (post : List ℤ) (k : ℕ)
    → k ≡ length pre + 1
    → ¬ (k ≡ length (pre ++ (u ∷ post)))
    → user_exists (pre ++ (u ∷ post)) (user_at (pre ++ (u ∷ post)) k) ≡ true
choose_next_user-last pre u [] k e h = absurd (h (omega (arith, length-append pre (u ∷ []))))
choose_next_user-last pre u (p ∷ ps) k e h =
    rw (user_at-append_right pre (u ∷ (p ∷ ps)) 1 k e)
      (ground (arith, user_exists-append pre (u ∷ (p ∷ ps)) p, user_exists-middle (u ∷ []) p ps))

-- Without a global order: the user behind the last one in the array, or the first.
choose_next_user-exists :
    (u : ℤ) (us : List ℤ) (last : ℤ) → user_exists (u ∷ us) (choose_next_user (u ∷ us) last) ≡ true
unfolding choose_next_user
choose_next_user-exists u us last = elim (searched [] 0 (u ∷ us) last) [
  | inl (a, b) ↦ rw a (ground (arith, user_exists-head u us))
  | inr (pre, post, e, a, b) ↦
      rw (a, zero-add (length pre))
        (ground (
          arith,
          user_exists-head u us,
          rw (← e) at (choose_next_user-last pre last post (length pre + 1) refl),
        ))
]

-- The user that `choose_next_fair_user` returns is among the active users, if there are any.
pub choose_next_fair_user-exists :
    (a : ℤ) (more fair : List ℤ) (last : ℤ)
    → user_exists (a ∷ more) (choose_next_fair_user (a ∷ more) fair last) ≡ true
unfolding choose_next_fair_user
choose_next_fair_user-exists a more [] last = choose_next_user-exists a more last
choose_next_fair_user-exists a more (f ∷ fs) last =
    rw (choose_next_fair_user-first_active a more f fs last)
      (first_active-exists (a ∷ more) _ a (user_exists-head a more))
