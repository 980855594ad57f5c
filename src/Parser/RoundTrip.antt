-- ===== src/Parser/RoundTrip.antt =====
-- Commands as texts, and what the parser makes of them.
use mathlib.Core.List.{append-nil, append_assoc}
use runner_orchestrator.Base.{
  ℕ, zero, suc, ◌+◌, ◌≤◌, ◌<◌, ◌≡◌, refl, sym, subst, ◌==◌, true, false, List, [], ◌∷◌, ◌++◌,
  length, length-append, Option, none, some, arith,
}
use runner_orchestrator.Parser.{
  Text, is_space, is_angle, skip_spaces, take_token, CommandStage, parsed, parse_token, Redirect,
  redirect_at, set_target, add_argument, parse_loop, parse_stage, no_stage, to_error, to_input,
  to_output,
}

-- A byte that stands in a word as it is.
abbrev pub IsPlain : ℕ → Type 0
IsPlain c = (is_space c ≡ false) × (is_angle c ≡ false) × ((c == b'|') ≡ false)

abbrev pub AllPlain : Text → Type 0
AllPlain [] = Unit {0}
AllPlain (c ∷ cs) = IsPlain c × AllPlain cs

-- A word is not empty.
abbrev pub IsWord : Text → Type 0
IsWord [] = ⊥
IsWord (c ∷ cs) = IsPlain c × AllPlain cs

take_token-word : (w rest : Text) → AllPlain w → take_token (w ++ (32 ∷ rest)) ≡ (w, 32 ∷ rest)
unfolding take_token
take_token-word [] rest h = refl
take_token-word (c ∷ cs) rest ((space, angle, bar), h) =
    rw (space, angle, take_token-word cs rest h)

skip_spaces-word : (c : ℕ) (cs : Text) → is_space c ≡ false → skip_spaces (c ∷ cs) ≡ c ∷ cs
unfolding skip_spaces
skip_spaces-word c cs space = rw space

parse_token-word :
    (w rest : Text) → IsWord w → parse_token true (w ++ (32 ∷ rest)) ≡ some (w, 32 ∷ rest)
unfolding parse_token
parse_token-word [] rest h = absurd h
parse_token-word (c ∷ cs) rest ((space, angle, bar), h) = rw (
  skip_spaces-word c (cs ++ (32 ∷ rest)) space,
  angle,
  parse_token,
  take_token-word (c ∷ cs) rest ((space, angle, bar), h),
)

-- No operator begins with a word.
redirect_at-word :
    (c : ℕ) (cs rest : Text) → IsWord (c ∷ cs) → redirect_at c (cs ++ (32 ∷ rest)) ≡ none
unfolding redirect_at
redirect_at-word c [] rest ((space, angle, bar), h) = ground (arith, angle)
redirect_at-word c (d ∷ ds) rest ((space, angle, bar), ((space', angle', bar'), h)) =
    ground (arith, angle, angle')

-- An operator in front of a text.
abbrev pub operator : Redirect → Text → Text
operator to_error x = b'2' ∷ b'>' ∷ x
operator to_input x = b'<' ∷ x
operator to_output x = b'>' ∷ x

-- A space at the cursor makes no difference.
parse_loop-space :
    (k n : ℕ) (s : CommandStage) (x : Text)
    → parse_loop (λ _. true) k n s (32 ∷ x) ≡ parse_loop (λ _. true) k n s x
unfolding parse_loop skip_spaces
parse_loop-space zero n s x = refl
parse_loop-space (suc k) n s x = refl

-- One round over a word, and one over an operator with its target.
module _ (k n : ℕ) (s : CommandStage) where
  parse_loop-word :
      (w rest : Text)
      → IsWord w
      → parse_loop (λ _. true) (suc k) n s (w ++ (32 ∷ rest))
        ≡ parse_loop (λ _. true) k (n + 1) (add_argument w s) rest
  unfolding parse_loop
  parse_loop-word [] rest h = absurd h
  parse_loop-word (c ∷ cs) rest h =
      rw
        (
          skip_spaces-word c (cs ++ (32 ∷ rest)) h.0.0,
          redirect_at-word c cs rest h,
          parse_token-word (c ∷ cs) rest h,
          parse_loop,
        )
        (parse_loop-space k (n + 1) (add_argument (c ∷ cs) s) rest)

  parse_loop-target :
      (t : Redirect) (w rest : Text)
      → IsWord w
      → parse_loop (λ _. true) (suc k) n s (operator t (w ++ (32 ∷ rest)))
        ≡ parse_loop (λ _. true) k (n + 1) (set_target t w s) rest
  unfolding parse_loop skip_spaces redirect_at
  parse_loop-target t [] rest h = absurd h
  parse_loop-target to_error (c ∷ cs) rest h =
      rw (parse_token-word (c ∷ cs) rest h)
        (parse_loop-space k (n + 1) (set_target to_error (c ∷ cs) s) rest)
  parse_loop-target to_input (c ∷ cs) rest h =
      rw (parse_token-word (c ∷ cs) rest h)
        (parse_loop-space k (n + 1) (set_target to_input (c ∷ cs) s) rest)
  parse_loop-target to_output (c ∷ cs) rest h =
      rw (parse_token-word (c ∷ cs) rest h)
        (parse_loop-space k (n + 1) (set_target to_output (c ∷ cs) s) rest)

-- The arguments, each with a space behind it, and then the rest.
abbrev pub print_arguments : List Text → Text → Text
print_arguments [] rest = rest
print_arguments (w ∷ ws) rest = w ++ (32 ∷ print_arguments ws rest)

abbrev pub print_target : Redirect → Option Text → Text → Text
print_target t none rest = rest
print_target t (some w) rest = operator t (w ++ (32 ∷ rest))

abbrev pub print_stage : CommandStage → Text
print_stage s = print_arguments s.argv (
    print_target to_input s.input_file
      (print_target to_output s.output_file (print_target to_error s.error_file [])))

abbrev pub AllWords : List Text → Type 0
AllWords [] = Unit {0}
AllWords (w ∷ ws) = IsWord w × AllWords ws

abbrev pub IsTarget : Option Text → Type 0
IsTarget none = Unit {0}
IsTarget (some w) = IsWord w

-- A stage that a text can stand for.
pub record IsPrintable (s : CommandStage) : Type 0 where
  pub argv : AllWords s.argv
  pub input : IsTarget s.input_file
  pub output : IsTarget s.output_file
  pub error : IsTarget s.error_file
  pub room : length s.argv ≤ 31

-- The loop ends with a stage, from any count of tokens and any rounds above the length of the text.
abbrev Gives : CommandStage → CommandStage → Text → Type 0
Gives s from x =
    (k n : ℕ) → length x < k → (m : ℕ) × (parse_loop (λ _. true) k n from x ≡ parsed (s, m))

-- The stage once more arguments were read.
abbrev with_arguments : CommandStage → List Text → CommandStage
with_arguments from ws = record from { argv = ws }

add_argument-room :
    (w : Text) (from : CommandStage) (before : List Text)
    → length before < 31
    → add_argument w (with_arguments from before) ≡ with_arguments from (before ++ (w ∷ []))
add_argument-room w from before h = ground (arith, h)

print_arguments-Gives :
    (s from : CommandStage) (before ws : List Text) (rest : Text)
    → AllWords ws
    → length before + length ws ≤ 31
    → Gives s (with_arguments from (before ++ ws)) rest
    → Gives s (with_arguments from before) (print_arguments ws rest)
print_arguments-Gives s from before [] rest words room later k n h =
    subst (λ d. Gives s (with_arguments from d) rest) (append-nil before) later k n h
print_arguments-Gives s from before (w ∷ ws) rest (word, words) room later zero n h =
    absurd (omega (arith, h))
print_arguments-Gives s from before (w ∷ ws) rest (word, words) room later (suc k) n h =
    rw
      (
        parse_loop-word k n (with_arguments from before) w (print_arguments ws rest) word,
        add_argument-room w from before (omega (arith, room)),
      )
      (print_arguments-Gives s from (before ++ (w ∷ [])) ws rest words
        (omega (arith, room, length-append before (w ∷ [])))
        (subst (λ d. Gives s (with_arguments from d) rest) (sym (append_assoc before (w ∷ []) ws))
          later)
        k (n + 1) (omega (arith, h, length-append w (32 ∷ print_arguments ws rest))))

-- The stage once the target of an operator was read.
abbrev with_target : Redirect → Option Text → CommandStage → CommandStage
with_target t none from = from
with_target t (some w) from = set_target t w from

length-operator : (t : Redirect) (x : Text) → length x < length (operator t x)
length-operator to_error x = omega arith
length-operator to_input x = omega arith
length-operator to_output x = omega arith

print_target-Gives :
    (s from : CommandStage) (t : Redirect) (target : Option Text) (rest : Text)
    → IsTarget target
    → Gives s (with_target t target from) rest
    → Gives s from (print_target t target rest)
print_target-Gives s from t none rest word later k n h = later k n h
print_target-Gives s from t (some w) rest word later zero n h = absurd (omega (arith, h))
print_target-Gives s from t (some w) rest word later (suc k) n h =
    rw (parse_loop-target k n from t w rest word) (
      later k (n + 1)
        (omega (arith, h, length-operator t (w ++ (32 ∷ rest)), length-append w (32 ∷ rest))))

nothing_left : (s : CommandStage) → Gives s s []
unfolding parse_loop skip_spaces
nothing_left s zero n h = absurd (omega (arith, h))
nothing_left s (suc k) n h = (n, refl)

with_target-lem :
    (argv : List Text) (input output error : Option Text)
    → with_target to_error error
        (with_target to_output output (with_target to_input input (with_arguments no_stage argv)))
      ≡ record { argv = argv; input_file = input; output_file = output; error_file = error }
with_target-lem argv none none none = refl
with_target-lem argv none none (some e) = refl
with_target-lem argv none (some o) none = refl
with_target-lem argv none (some o) (some e) = refl
with_target-lem argv (some i) none none = refl
with_target-lem argv (some i) none (some e) = refl
with_target-lem argv (some i) (some o) none = refl
with_target-lem argv (some i) (some o) (some e) = refl

print_stage-Gives : (s : CommandStage) → IsPrintable s → Gives s no_stage (print_stage s)
print_stage-Gives s p =
    print_arguments-Gives s no_stage [] s.argv _ p.argv (omega (arith, p.room)) (
      print_target-Gives s _ to_input s.input_file _ p.input (
        print_target-Gives s _ to_output s.output_file _ p.output (
          print_target-Gives s _ to_error s.error_file [] p.error (
            subst (λ from. Gives s from [])
              (sym (with_target-lem s.argv s.input_file s.output_file s.error_file))
              (nothing_left s)))))

-- A stage of at most 31 arguments whose arguments and targets are words, that is, not empty and without
-- spaces, angle brackets and bars, is read back from its text when there is memory.
pub parse_stage-print_stage :
    (n : ℕ) (s : CommandStage)
    → IsPrintable s
    → (m : ℕ) × (parse_stage (λ _. true) n (print_stage s) ≡ parsed (s, m))
unfolding parse_stage
parse_stage-print_stage n s p = print_stage-Gives s p (length (print_stage s) + 1) n (omega arith)
