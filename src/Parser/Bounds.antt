-- ===== src/Parser/Bounds.antt =====
-- The loop of `parse_stage`, by induction on its rounds.
use runner_orchestrator.Base.{
  ℕ, zero, suc, ◌+◌, ◌≤◌, ◌<◌, ◌≡◌, refl, ap, Bool, true, false, Bool-cases, ltb, List, [], ◌∷◌,
  length, length-append, Option, Option-cases, none, some, inl, inr, arith, List-cases, take,
}
use runner_orchestrator.Parser.{
  Text, CommandStage, Outcome, parsed, failed, endless, skip_spaces, parse_token, Redirect,
  redirect_at, set_target, add_argument, with_token, parse_loop, parse_stage, no_stage, to_error,
  to_input, to_output, ParsedCommand, cons_stage, next_stages, parse_stages, as_command,
  parser_parse, stage_texts,
}
use runner_orchestrator.Parser.Words.{length-skip_spaces, length-parse_token, length-redirect_at}

-- The loop ends, and its stage leaves room for the NULL behind the arguments.
abbrev pub Fits : Outcome (CommandStage × ℕ) → Type 0
Fits (parsed (stage, n)) = length stage.argv ≤ 31
Fits failed = Unit {0}
Fits endless = ⊥

set_target-argv :
    (t : Redirect) (token : Text) (s : CommandStage) → (set_target t token s).argv ≡ s.argv
set_target-argv to_error token s = refl
set_target-argv to_input token s = refl
set_target-argv to_output token s = refl

add_argument-argv :
    (token : Text) (s : CommandStage) → length s.argv ≤ 31 → length (add_argument token s).argv ≤ 31
add_argument-argv token s h = elim (Bool-cases (ltb (length s.argv) 31)) [
  | inl free ↦ rw free (ground (arith, free, length-append s.argv (token ∷ [])))
  | inr full ↦ rw full h
]

-- What a round does with the token behind the text `x`.
with_token-Fits :
    (ok : Bool) (x : Text) (next : Text → Text → Outcome (CommandStage × ℕ))
    → ((token rest : Text) → length rest < length x → Fits (next token rest))
    → Fits (with_token (parse_token ok x) next)
with_token-Fits ok x next fits = elim (Option-cases (parse_token ok x)) [
  | inl none_there ↦ rw none_there tt
  | inr ((token, rest), e) ↦ rw e (fits token rest (length-parse_token ok x token rest e))
]

parse_loop-Fits :
    (alloc : ℕ → Bool) (k n : ℕ) (s : CommandStage) (x : Text)
    → length s.argv ≤ 31
    → length x < k
    → Fits (parse_loop alloc k n s x)
unfolding parse_loop
parse_loop-Fits alloc zero n s x fits h = absurd (omega (arith, h))
parse_loop-Fits alloc (suc k) n s x fits h = elim (List-cases (skip_spaces x)) [
  | inl over ↦ rw (over, parse_loop) fits
  | inr (c, cs, left) ↦ elim (Option-cases (redirect_at c cs)) [
    | inl none_there ↦
        rw (left, none_there, parse_loop)
          (with_token-Fits (alloc n) (c ∷ cs) _ λ token rest shorter.
            parse_loop-Fits alloc k (n + 1) (add_argument token s) rest
              (add_argument-argv token s fits)
              (omega (arith, shorter, h, length-skip_spaces x, ap length left)))
    | inr ((t, y), e) ↦
        rw (left, e, parse_loop)
          (with_token-Fits (alloc n) y _ λ token rest shorter.
            parse_loop-Fits alloc k (n + 1) (set_target t token s) rest
              (rw (set_target-argv t token s) fits)
              (omega (
                arith,
                shorter,
                h,
                length-skip_spaces x,
                ap length left,
                length-redirect_at c cs t y e,
              )))
  ]
]

-- `parse_stage` ends on every text, whatever memory there is; a stage that it returns has at most 31
-- arguments, so that the NULL behind them is within `argv`.
pub parse_stage-Fits : (alloc : ℕ → Bool) (n : ℕ) (x : Text) → Fits (parse_stage alloc n x)
unfolding parse_stage
parse_stage-Fits alloc n x =
    parse_loop-Fits alloc (length x + 1) n no_stage x (omega arith) (omega arith)

abbrev pub AllFit : List CommandStage → Type 0
AllFit [] = Unit {0}
AllFit (s ∷ stages) = (length s.argv ≤ 31) × AllFit stages

abbrev StagesFit : ℕ → Outcome (List CommandStage) → Type 0
StagesFit room (parsed stages) = (length stages ≤ room) × AllFit stages
StagesFit room failed = Unit {0}
StagesFit room endless = ⊥

-- The end of a round of `parse_stages`.
cons_stage-StagesFit :
    (room : ℕ) (s : CommandStage) (later : Outcome (List CommandStage))
    → length s.argv ≤ 31
    → StagesFit room later
    → StagesFit (suc room) (cons_stage s later)
cons_stage-StagesFit room s (parsed stages) a (b, c) = (omega (arith, b), (a, c))
cons_stage-StagesFit room s failed a b = tt
cons_stage-StagesFit room s endless a b = b

next_stages-StagesFit :
    (room : ℕ) (o : Outcome (CommandStage × ℕ)) (next : ℕ → Outcome (List CommandStage))
    → Fits o
    → ((n : ℕ) → StagesFit room (next n))
    → StagesFit (suc room) (next_stages o next)
next_stages-StagesFit room (parsed (s, n)) next fits later =
    cons_stage-StagesFit room s (next n) fits (later n)
next_stages-StagesFit room failed next fits later = tt
next_stages-StagesFit room endless next fits later = fits

parse_stages-StagesFit :
    (alloc : ℕ → Bool) (room n : ℕ) (texts : List Text)
    → StagesFit room (parse_stages alloc room n texts)
unfolding parse_stages
parse_stages-StagesFit alloc zero n texts = (omega arith, tt)
parse_stages-StagesFit alloc (suc room) n [] = (omega arith, tt)
parse_stages-StagesFit alloc (suc room) n (text ∷ texts) =
    next_stages-StagesFit room (parse_stage alloc n text) _ (parse_stage-Fits alloc n text)
      (λ n'. parse_stages-StagesFit alloc room n' texts)

abbrev pub CommandFits : Outcome ParsedCommand → Type 0
CommandFits (parsed cmd) = (length cmd.stages ≤ 16) × AllFit cmd.stages
CommandFits failed = Unit {0}
CommandFits endless = ⊥

as_command-CommandFits :
    (o : Outcome (List CommandStage)) → StagesFit 16 o → CommandFits (as_command o)
as_command-CommandFits (parsed stages) h = h
as_command-CommandFits failed h = tt
as_command-CommandFits endless h = h

-- `parser_parse` ends on every input, whatever memory there is: it returns NULL, or a command of at most 16
-- stages, each of which has at most 31 arguments, so that `stages` and `argv` are not overrun.
pub parser_parse-CommandFits :
    (allocated : Bool) (alloc : ℕ → Bool) (input : Option Text)
    → CommandFits (parser_parse allocated alloc input)
unfolding parser_parse
parser_parse-CommandFits allocated alloc none = tt
parser_parse-CommandFits false alloc (some input) = tt
parser_parse-CommandFits true alloc (some input) =
    as_command-CommandFits _ (parse_stages-StagesFit alloc 16 0 (stage_texts (take 1023 input)))
