-- ===== src/Scheduler/Fair/Choice.antt =====
-- `choose_next_fair_user` and `choose_next_user` without their indices.
use mathlib.Core.List.{append_assoc, append-nil}
use native.Mathlib.Nat.{zero-add, mod-eq_of_lt, mod-eq-sub-mod, add-mod_right}
use runner_orchestrator.Base.{
  ℕ, zero, suc, ◌+◌, ◌-◌, ◌≤◌, ◌<◌, ◌≡◌, refl, sym, ap, ◌∙◌, ◌⊎◌, inl, inr, List, [], ◌∷◌, ◌++◌,
  length, length-append, ℤ, pos, negsuc, ℤ_discrete, arith, pos-+ℤ-pos, negsuc_zero-+ℤ-pos, dec_lt,
  if_pos, if_neg,
}
use runner_orchestrator.Scheduler.Fair.{
  user_at, index_from, turn_index, probe_turns, choose_next_fair_user,
}
use runner_orchestrator.Scheduler.Fair.TurnOrder.{turns_from, turn_order, first_active}

pub user_at-append_left :
    (xs ys : List ℤ) (i : ℕ) → i < length xs → user_at (xs ++ ys) i ≡ user_at xs i
user_at-append_left [] ys i h = absurd (omega arith)
user_at-append_left (x ∷ xs) ys zero h = refl
user_at-append_left (x ∷ xs) ys (suc i) h = user_at-append_left xs ys i (omega arith)

pub user_at-append_right :
    (xs ys : List ℤ) (i k : ℕ) → k ≡ length xs + i → user_at (xs ++ ys) k ≡ user_at ys i
user_at-append_right [] ys i k e = ap (user_at ys) (omega arith)
user_at-append_right (x ∷ xs) ys i zero e = absurd (omega arith)
user_at-append_right (x ∷ xs) ys i (suc k) e = user_at-append_right xs ys i k (omega arith)

-- What the search for `last_idx` finds, and what the turn order is then.
abbrev pub Searched : List ℤ → ℕ → List ℤ → ℤ → Type 0
Searched seen i xs u =
    ((index_from i xs u ≡ negsuc 0) × (turns_from seen xs u ≡ seen ++ xs))
    ⊎ ((pre : List ℤ) × (post : List ℤ) × (xs ≡ pre ++ (u ∷ post))
        × (index_from i xs u ≡ pos (i + length pre))
        × (turns_from seen xs u ≡ post ++ ((seen ++ pre) ++ (u ∷ []))))

Searched-later :
    (seen : List ℤ) (i : ℕ) (x : ℤ) (xs : List ℤ) (u : ℤ)
    → ¬ (x ≡ u)
    → Searched (seen ++ (x ∷ [])) (suc i) xs u
    → Searched seen i (x ∷ xs) u
unfolding index_from turns_from
Searched-later seen i x xs u ne (inl (a, b)) =
    inl (rw (if_neg _ ne) a, rw (if_neg _ ne) (b ∙ append_assoc seen (x ∷ []) xs))
Searched-later seen i x xs u ne (inr (pre, post, e, a, b)) = inr (
  x ∷ pre,
  post,
  ap (◌∷◌ x) e,
  rw (if_neg _ ne) (a ∙ ap pos (omega arith)),
  rw (if_neg _ ne) (b ∙ ap (λ s. post ++ (s ++ (u ∷ []))) (append_assoc seen (x ∷ []) pre)),
)

pub searched : (seen : List ℤ) (i : ℕ) (xs : List ℤ) (u : ℤ) → Searched seen i xs u
unfolding index_from turns_from
searched seen i [] u = inl (refl, sym (append-nil seen))
searched seen i (x ∷ xs) u = elim (ℤ_discrete x u) [
  | yes same ↦ inr (
    [],
    xs,
    rw same,
    rw (if_pos _ same) (ap pos (omega arith)),
    rw (if_pos _ same) (rw (append-nil, same)),
  )
  | no ne ↦ Searched-later seen i x xs u ne (searched (seen ++ (x ∷ [])) (suc i) xs u)
]

-- The index of a turn behind position `k`: before the end of the array, or past it.
turn_index_found :
    (k off n j : ℕ)
    → k < n
    → off ≡ 1 + j
    → j < n
    → ((k + 1 + j < n) × (turn_index (pos k) off n ≡ k + 1 + j))
      ⊎ ((n ≤ k + 1 + j) × (turn_index (pos k) off n ≡ k + 1 + j - n))
turn_index_found k off n j hk e hj =
    rw (pos-+ℤ-pos k off, pos-+ℤ-pos (k + off) n, add-mod_right (k + off) n)
      (elim (dec_lt (k + 1 + j) n) [
        | yes before ↦ inl (before, mod-eq_of_lt (omega arith) ∙ omega arith)
        | no past ↦
            inr
              (omega arith, mod-eq-sub-mod (omega arith) ∙ mod-eq_of_lt (omega arith) ∙ omega arith)
      ])

turn_index_unknown : (off n j : ℕ) → off ≡ 1 + j → j < n → turn_index (negsuc 0) off n ≡ j
turn_index_unknown off n j e h =
    rw (negsuc_zero-+ℤ-pos off (omega arith), pos-+ℤ-pos (off - 1) n, add-mod_right (off - 1) n)
      (mod-eq_of_lt (omega arith) ∙ omega arith)

probe_turns-first_active :
    (active fair : List ℤ) (li : ℤ) (turns : List ℤ) (offset : ℕ) (o : ℤ)
    → ((j k : ℕ)
        → k ≡ offset + j
        → j < length turns
        → user_at fair (turn_index li k (length fair)) ≡ user_at turns j)
    → probe_turns active fair li (length turns) offset o ≡ first_active active turns o
unfolding probe_turns first_active
probe_turns-first_active active fair li [] offset o h = refl
probe_turns-first_active active fair li (u ∷ us) offset o h = rw (
  h 0 offset (omega arith) (omega arith),
  probe_turns-first_active active fair li us (offset + 1) o
      (λ j k e l. h (suc j) k (omega arith) (omega arith)),
)

read_found :
    (pre post : List ℤ) (u : ℤ) (j k : ℕ)
    → k ≡ 1 + j
    → j < length (pre ++ (u ∷ post))
    → user_at (pre ++ (u ∷ post)) (turn_index (pos (length pre)) k (length (pre ++ (u ∷ post))))
      ≡ user_at (post ++ (pre ++ (u ∷ []))) j
read_found pre post u j k e h =
    elim (turn_index_found (length pre) k (length (pre ++ (u ∷ post))) j (omega (arith, sizes)) e
      h) [
        | inl (before, t) ↦
            ap (user_at (pre ++ (u ∷ post))) t
            ∙ user_at-append_right pre (u ∷ post) (suc j) _ (omega arith)
            ∙ sym (user_at-append_left post _ j (omega (arith, sizes)))
        | inr (past, t) ↦
            ap (user_at (pre ++ (u ∷ post))) t
            ∙ ap (λ l. user_at l (i₀)) (sym (append_assoc pre (u ∷ []) post))
            ∙ user_at-append_left (pre ++ (u ∷ [])) post i₀
                (omega (arith, sizes, length-append pre (u ∷ [])))
            ∙ sym (user_at-append_right post (pre ++ (u ∷ [])) i₀ j (omega (arith, sizes)))
      ]
  where
    sizes : length (pre ++ (u ∷ post)) ≡ length pre + suc (length post)
    sizes = length-append pre (u ∷ post)

    i₀ : ℕ
    i₀ = length pre + 1 + j - length (pre ++ (u ∷ post))

-- The array read at the turns that follow `last` is the turn order.
turn_order-read :
    (fair : List ℤ) (last : ℤ) (j k : ℕ)
    → k ≡ 1 + j
    → j < length (turn_order fair last)
    → user_at fair (turn_index (index_from 0 fair last) k (length fair))
      ≡ user_at (turn_order fair last) j
unfolding turn_order
turn_order-read fair last j k e h = elim (searched [] 0 fair last) [
  | inl (a, b) ↦ rw (a, b) (ap (user_at fair) (turn_index_unknown k (length fair) j e (rw b at h)))
  | inr (pre, post, split, a, b) ↦
      rw (a, zero-add (length pre), b, split)
        (read_found pre post last j k e (
          omega (
            arith,
            ap length b,
            length-append pre (last ∷ post),
            length-append post (pre ++ (last ∷ [])),
            length-append pre (last ∷ []),
          )))
]

pub length-turn_order : (fair : List ℤ) (last : ℤ) → length (turn_order fair last) ≡ length fair
unfolding turn_order
length-turn_order fair last = elim (searched [] 0 fair last) [
  | inl (a, b) ↦ ap length b
  | inr (pre, post, split, a, b) ↦
      ap length b
      ∙ omega (
        arith,
        ap length split,
        length-append pre (last ∷ post),
        length-append post (pre ++ (last ∷ [])),
        length-append pre (last ∷ []),
      )
]

-- With active users and a global order of users that is not empty, `choose_next_fair_user` returns the
-- first active user in turn order, and the first of the active users if the global order has none.
pub choose_next_fair_user-first_active :
    (a : ℤ) (more : List ℤ) (f : ℤ) (fs : List ℤ) (last : ℤ)
    → choose_next_fair_user (a ∷ more) (f ∷ fs) last
      ≡ first_active (a ∷ more) (turn_order (f ∷ fs) last) a
unfolding choose_next_fair_user
choose_next_fair_user-first_active a more f fs last = rw (← length-turn_order (f ∷ fs) last) (
    probe_turns-first_active (a ∷ more) (f ∷ fs) (index_from 0 (f ∷ fs) last)
      (turn_order (f ∷ fs) last) 1 a (turn_order-read (f ∷ fs) last))
