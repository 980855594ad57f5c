-- ===== src/Parser/Words.antt =====
-- What the loops over single bytes do, and what is left of the text.
use runner_orchestrator.Base.{
  ℕ, ◌≤◌, ◌<◌, ◌≡◌, ap, Bool, false, Bool-cases, not, ◌||◌, [], ◌∷◌, length, some, inl, inr, arith,
  List-cases,
}
use runner_orchestrator.Parser.{
  Text, is_space, is_angle, skip_spaces, take_token, parse_token, Redirect, redirect_at,
}

pub length-skip_spaces : (x : Text) → length (skip_spaces x) ≤ length x
unfolding skip_spaces
length-skip_spaces [] = omega arith
length-skip_spaces (c ∷ cs) = elim (Bool-cases (is_space c)) [
  | inl space ↦ rw space (omega (arith, length-skip_spaces cs))
  | inr other ↦ rw other (omega arith)
]

-- What is left does not begin with a space.
pub skip_spaces-head : (x : Text) (c : ℕ) (cs : Text) → skip_spaces x ≡ c ∷ cs → is_space c ≡ false
unfolding skip_spaces
skip_spaces-head [] c cs e = cc
skip_spaces-head (d ∷ ds) c cs e = elim (Bool-cases (is_space d)) [
  | inl space ↦ skip_spaces-head ds c cs (rw space at e)
  | inr other ↦ ground (arith, rw other at e, other)
]

pub length-take_token : (x : Text) → length (take_token x).1 ≤ length x
unfolding take_token
length-take_token [] = omega arith
length-take_token (c ∷ cs) = elim (Bool-cases (is_space c || is_angle c)) [
  | inl stop ↦ rw stop (omega arith)
  | inr go ↦ rw go (omega (arith, length-take_token cs))
]

take_token-shorter :
    (c : ℕ) (cs : Text)
    → is_space c ≡ false
    → is_angle c ≡ false
    → length (take_token (c ∷ cs)).1 < length (c ∷ cs)
unfolding take_token
take_token-shorter c cs space angle = rw (space, angle) (omega (arith, length-take_token cs))

token_rest :
    (p : Text × Text) (token rest : Text) → some p ≡ some (token, rest) → length rest ≡ length p.1
token_rest p token rest e = ground (arith, e)

-- A token takes at least one byte.
pub length-parse_token :
    (ok : Bool) (x token rest : Text)
    → parse_token ok x ≡ some (token, rest)
    → length rest < length x
unfolding parse_token
length-parse_token ok x token rest e = elim (List-cases (skip_spaces x)) [
  | inl none_left ↦ cc (rw (none_left, parse_token) at e)
  | inr (c, cs, left) ↦ elim (Bool-cases (is_angle c || not ok)) [
    | inl refused ↦ cc (rw (left, refused, parse_token) at e)
    | inr taken ↦
        let same = rw (left, taken, parse_token) at e in
        let shorter =
          take_token-shorter c cs (skip_spaces-head x c cs left) (ground (arith, taken)) in
        omega (arith, shorter, token_rest _ token rest same, length-skip_spaces x, ap length left)
  ]
]

-- So does an operator.
pub length-redirect_at :
    (c : ℕ) (cs : Text) (t : Redirect) (rest : Text)
    → redirect_at c cs ≡ some (t, rest)
    → length rest < length (c ∷ cs)
unfolding redirect_at
length-redirect_at c [] t rest e = ground (arith, e)
length-redirect_at c (d ∷ ds) t rest e = ground (arith, e)
