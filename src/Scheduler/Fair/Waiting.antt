-- ===== src/Scheduler/Fair/Waiting.antt =====
-- scheduler.c: how many users have their turn before one that waits.
use mathlib.Core.List.{append_assoc, append-nil}
use runner_orchestrator.Base.{
  ℕ, suc, ◌+◌, ◌<◌, ◌≡◌, refl, sym, ap, ◌∙◌, subst, ◌⊎◌, inl, inr, Bool, true, false, ◌||◌,
  Bool-cases, ite, List, [], ◌∷◌, ◌++◌, length, ℤ, ℤ_discrete, arith, if_pos, if_neg,
}
use runner_orchestrator.Scheduler.Fair.{user_exists}
use runner_orchestrator.Scheduler.Fair.TurnOrder.{turns_from, turn_order, first_active}
use runner_orchestrator.Scheduler.Fair.Choice.{searched}
use runner_orchestrator.Scheduler.Fair.Active.{user_exists-head, user_exists-append}

-- How many users of a list come before one.
unfoldable pub place : List ℤ → ℤ → ℕ
place [] u = 0
place (x ∷ xs) u = ite (ℤ_discrete x u) 0 (suc (place xs u))

-- No user is in the list twice.
abbrev pub Once : List ℤ → Type 0
Once [] = Unit {0}
Once (x ∷ xs) = (user_exists xs x ≡ false) × Once xs

place-left : (xs ys : List ℤ) (u : ℤ) → user_exists xs u ≡ true → place (xs ++ ys) u ≡ place xs u
unfolding place user_exists
place-left [] ys u h = absurd cc
place-left (x ∷ xs) ys u h = elim (ℤ_discrete x u) [
  | yes hit ↦ if_pos (ℤ_discrete x u) hit 0 _ ∙ sym (if_pos (ℤ_discrete x u) hit 0 _)
  | no miss ↦
      if_neg (ℤ_discrete x u) miss 0 _
      ∙ ap suc (place-left xs ys u (rw (if_neg _ miss) at h))
      ∙ sym (if_neg (ℤ_discrete x u) miss 0 _)
]

place-right :
    (xs ys : List ℤ) (u : ℤ)
    → user_exists xs u ≡ false
    → place (xs ++ ys) u ≡ length xs + place ys u
unfolding place user_exists
place-right [] ys u h = omega arith
place-right (x ∷ xs) ys u h = elim (ℤ_discrete x u) [
  | yes hit ↦ absurd (cc (rw (if_pos _ hit) at h))
  | no miss ↦ rw (if_neg _ miss) (omega (arith, place-right xs ys u (rw (if_neg _ miss) at h)))
]

turns_from-middle :
    (seen pre post : List ℤ) (u : ℤ)
    → user_exists pre u ≡ false
    → turns_from seen (pre ++ (u ∷ post)) u ≡ post ++ ((seen ++ pre) ++ (u ∷ []))
unfolding turns_from user_exists
turns_from-middle seen [] post u h = rw (if_pos (ℤ_discrete u u) refl, append-nil seen) refl
turns_from-middle seen (x ∷ pre) post u h = elim (ℤ_discrete x u) [
  | yes hit ↦ absurd (cc (rw (if_pos _ hit) at h))
  | no miss ↦ rw (if_neg _ miss) (
      turns_from-middle (seen ++ (x ∷ [])) pre post u (rw (if_neg _ miss) at h)
      ∙ ap (λ l. post ++ (l ++ (u ∷ []))) (append_assoc seen (x ∷ []) pre))
]

Once-split : (pre post : List ℤ) (u : ℤ) → Once (pre ++ (u ∷ post)) → user_exists pre u ≡ false
unfolding user_exists
Once-split [] post u h = refl
Once-split (x ∷ pre) post u (out, h) = elim (ℤ_discrete x u) [
  | yes hit ↦
      absurd
        (ground (arith, out, hit, user_exists-append pre (u ∷ post) x, user_exists-head u post))
  | no miss ↦ rw (if_neg _ miss) (Once-split pre post u h)
]

-- Two ways to part a list.
parted :
    (xs : List ℤ) (v : ℤ) (rest ys zs : List ℤ)
    → xs ++ (v ∷ rest) ≡ ys ++ zs
    → ((more : List ℤ) × (ys ≡ xs ++ (v ∷ more)) × (rest ≡ more ++ zs))
      ⊎ ((more : List ℤ) × (xs ≡ ys ++ more) × (zs ≡ more ++ (v ∷ rest)))
parted xs v rest [] zs e = inr (xs, refl, sym e)
parted [] v rest (y ∷ ys) zs e = inl (ys, cc, cc)
parted (x ∷ xs) v rest (y ∷ ys) zs e = elim (parted xs v rest ys zs cc) [
  | inl (more, a, b) ↦ inl (more, cc, b)
  | inr (more, a, b) ↦ inr (more, cc, b)
]

turn_order-at :
    (users before : List ℤ) (v : ℤ) (behind : List ℤ)
    → Once users
    → users ≡ before ++ (v ∷ behind)
    → turn_order users v ≡ behind ++ (before ++ (v ∷ []))
unfolding turn_order
turn_order-at users before v behind once e =
    ap (λ l. turn_order l v) e
    ∙ turns_from-middle [] before behind v (Once-split before behind v (subst Once e once))

-- The turn order behind a user that stands in the turn order.
turn_order-rotates :
    (users : List ℤ) (last : ℤ) (before : List ℤ) (v : ℤ) (behind : List ℤ)
    → Once users
    → turn_order users last ≡ before ++ (v ∷ behind)
    → turn_order users v ≡ behind ++ (before ++ (v ∷ []))
unfolding turn_order
turn_order-rotates users last before v behind once e = elim (searched [] 0 users last) [
  | inl (_, all) ↦ turn_order-at users before v behind once (sym all ∙ e)
  | inr (pre, post, whole, _, order) ↦
      elim (parted before v behind post (pre ++ (last ∷ [])) (sym e ∙ order)) [
        | inl (more, a, b) ↦
            turn_order-at users (pre ++ (last ∷ before)) v more once (
              whole
              ∙ ap (λ l. pre ++ (last ∷ l)) a
              ∙ sym (append_assoc pre (last ∷ before) (v ∷ more)))
            ∙ ap (λ l. more ++ l)
                (append_assoc pre (last ∷ before) (v ∷ [])
                  ∙ sym (append_assoc pre (last ∷ []) (before ++ (v ∷ []))))
            ∙ sym (append_assoc more (pre ++ (last ∷ [])) (before ++ (v ∷ [])))
            ∙ ap (λ l. l ++ (before ++ (v ∷ []))) (sym b)
        | inr (more, a, b) ↦
            turn_order-at users more v (behind ++ post) once (
              whole
              ∙ sym (append_assoc pre (last ∷ []) post)
              ∙ ap (λ l. l ++ post) b
              ∙ append_assoc more (v ∷ behind) post)
            ∙ append_assoc behind post (more ++ (v ∷ []))
            ∙ ap (λ l. behind ++ l)
                (sym (append_assoc post more (v ∷ [])) ∙ ap (λ l. l ++ (v ∷ [])) (sym a))
      ]
]

pub turn_order-exists :
    (users : List ℤ) (last u : ℤ) → user_exists (turn_order users last) u ≡ user_exists users u
unfolding turn_order user_exists
turn_order-exists users last u = elim (searched [] 0 users last) [
  | inl (_, all) ↦ ap (λ l. user_exists l u) all
  | inr (pre, post, whole, _, order) ↦ ground (
    arith,
    ap (λ l. user_exists l u) whole,
    ap (λ l. user_exists l u) order,
    user_exists-append post (pre ++ (last ∷ [])) u,
    user_exists-append pre (last ∷ []) u,
    user_exists-append pre (last ∷ post) u,
  )
]

-- Where the first active user stands, if there is one.
first_active-split :
    (active turns : List ℤ) (otherwise u : ℤ)
    → user_exists turns u ≡ true
    → user_exists active u ≡ true
    → (before behind : List ℤ) × (turns ≡ before ++ (first_active active turns otherwise ∷ behind))
      × (user_exists before u ≡ false)
unfolding first_active user_exists
first_active-split active [] otherwise u h a = absurd cc
first_active-split active (x ∷ xs) otherwise u h a = elim (Bool-cases (user_exists active x)) [
  | inl first ↦ rw first ([], xs, refl, refl)
  | inr idle ↦ rw idle (elim (ℤ_discrete x u) [
    | yes same ↦ absurd (ground (arith, idle, a, same))
    | no other ↦
        let (before, behind, e, out) =
          first_active-split active xs otherwise u (rw (if_neg _ other) at h) a in
        (x ∷ before, behind, ap (λ l. x ∷ l) e, rw (if_neg _ other) out)
  ])
]

in_second : (b c : Bool) → (b || c) ≡ true → b ≡ false → c ≡ true
in_second true c h f = absurd cc
in_second false c h f = h

-- When another user is chosen, fewer users than before have their turn before an active one.
pub first_active-closer :
    (users active : List ℤ) (last otherwise u : ℤ)
    → Once users
    → user_exists users u ≡ true
    → user_exists active u ≡ true
    → (v : ℤ) → v ≡ first_active active (turn_order users last) otherwise
    → ¬ (v ≡ u)
    → place (turn_order users v) u < place (turn_order users last) u
unfolding place user_exists
first_active-closer users active last otherwise u once known waits v chosen other =
    let (before, behind, e, out) =
      first_active-split active (turn_order users last) otherwise u
        (turn_order-exists users last u ∙ known) waits in
    let order = e ∙ ap (λ w. before ++ (w ∷ behind)) (sym chosen) in
    let late =
      ap (λ l. place l u) order
      ∙ place-right before (v ∷ behind) u out
      ∙ ap (λ n. length before + n) (if_neg (ℤ_discrete v u) other 0 _) in
    let there =
      sym (user_exists-append before (v ∷ behind) u)
      ∙ ap (λ l. user_exists l u) (sym order)
      ∙ turn_order-exists users last u
      ∙ known in
    let found = in_second (user_exists before u) (user_exists (v ∷ behind) u) there out in
    let soon =
      ap (λ l. place l u) (turn_order-rotates users last before v behind once order)
      ∙ place-left behind (before ++ (v ∷ [])) u
          (sym (if_neg (ℤ_discrete v u) other true (user_exists behind u)) ∙ found) in
    omega (arith, late, soon)

pub place-lt : (users : List ℤ) (u : ℤ) → user_exists users u ≡ true → place users u < length users
unfolding place user_exists
place-lt [] u h = absurd cc
place-lt (x ∷ xs) u h = elim (ℤ_discrete x u) [
  | yes hit ↦ rw (if_pos _ hit) (omega arith)
  | no miss ↦ rw (if_neg _ miss) (omega (arith, place-lt xs u (rw (if_neg _ miss) at h)))
]
