-- ===== src/Scheduler/Fair.antt =====
-- scheduler.c: whose turn it is under the fair policy. A C array and its count are one list.
pub mod TurnOrder
pub mod Choice
pub mod Active
pub mod Waiting
pub mod Grown
use runner_orchestrator.Base.{
  ℕ, zero, suc, ◌+◌, ◌%◌, Bool, true, false, if◌then◌else◌, ite, List, [], ◌∷◌, length, ℤ, pos,
  negsuc, pos_part, ◌+ℤ◌, ℤ_discrete, ℕ_discrete,
}

-- `users[i]`. Every read of the code is in range; the value out of range is arbitrary.
abbrev pub user_at : List ℤ → ℕ → ℤ
user_at [] i = pos 0
user_at (u ∷ us) zero = u
user_at (u ∷ us) (suc i) = user_at us i

unfoldable pub user_exists : List ℤ → ℤ → Bool
user_exists [] u = false
user_exists (x ∷ xs) u = ite (ℤ_discrete x u) true (user_exists xs u)

-- The search for `last_idx`, counting from `i`; -1 if the user is not there.
unfoldable pub index_from : ℕ → List ℤ → ℤ → ℤ
index_from i [] u = negsuc 0
index_from i (x ∷ xs) u = ite (ℤ_discrete x u) (pos i) (index_from (suc i) xs u)

unfoldable pub choose_next_user : List ℤ → ℤ → ℤ
choose_next_user [] last = negsuc 0
choose_next_user (u ∷ us) last =
    let last_idx = index_from 0 (u ∷ us) last in
    ite (ℤ_discrete last_idx (negsuc 0)) u (
      ite (ℕ_discrete (pos_part last_idx + 1) (length (u ∷ us))) u
        (user_at (u ∷ us) (pos_part last_idx + 1)))

-- `(last_idx + offset + fair_user_count) % fair_user_count`
abbrev pub turn_index : ℤ → ℕ → ℕ → ℕ
turn_index last_idx offset count = pos_part (last_idx +ℤ pos offset +ℤ pos count) % count

-- The loop over `offset`, with the rounds that are left.
unfoldable pub probe_turns : List ℤ → List ℤ → ℤ → (rounds offset : ℕ) → ℤ → ℤ
probe_turns active fair last_idx zero offset otherwise = otherwise
probe_turns active fair last_idx (suc n) offset otherwise =
    let u = user_at fair (turn_index last_idx offset (length fair)) in
    if user_exists active u then u else probe_turns active fair last_idx n (offset + 1) otherwise

unfoldable pub choose_next_fair_user : (active fair : List ℤ) → ℤ → ℤ
choose_next_fair_user [] fair last = negsuc 0
choose_next_fair_user (a ∷ more) [] last = choose_next_user (a ∷ more) last
choose_next_fair_user (a ∷ more) (f ∷ fs) last =
    probe_turns (a ∷ more) (f ∷ fs) (index_from 0 (f ∷ fs) last) (length (f ∷ fs)) 1 a
