-- ===== src/Parser/Pipeline.antt =====
-- Pipelines as texts, and what the parser makes of them.
use runner_orchestrator.Base.{
  ℕ, zero, suc, ◌≤◌, ◌<◌, ◌≡◌, refl, ap, ◌∙◌, ◌==◌, Bool, true, false, ◌||◌, List, [], ◌∷◌, ◌++◌,
  length, map, take_all, Option, none, some, arith,
}
use runner_orchestrator.Parser.{
  Text, CommandStage, parsed, Redirect, to_error, to_input, to_output, split_bars, add_text,
  stage_texts, parse_stages, parser_parse,
}
use runner_orchestrator.Parser.RoundTrip.{
  AllPlain, IsWord, AllWords, IsTarget, IsPrintable, print_arguments, print_target, print_stage,
  parse_stage-print_stage,
}

has_bar : Text → Bool
has_bar [] = false
has_bar (c ∷ cs) = (c == b'|') || has_bar cs

has_bar-append : (x y : Text) → has_bar (x ++ y) ≡ (has_bar x || has_bar y)
unfolding has_bar
has_bar-append [] y = refl
has_bar-append (c ∷ cs) y = ground (arith, has_bar-append cs y)

has_bar-plain : (w : Text) → AllPlain w → has_bar w ≡ false
unfolding has_bar
has_bar-plain [] h = refl
has_bar-plain (c ∷ cs) ((space, angle, bar), h) = ground (arith, bar, has_bar-plain cs h)

has_bar-word : (w : Text) → IsWord w → has_bar w ≡ false
has_bar-word [] h = absurd h
has_bar-word (c ∷ cs) h = has_bar-plain (c ∷ cs) h

-- A word with a space behind it adds no bar.
has_bar-spaced :
    (w rest : Text) → IsWord w → has_bar rest ≡ false → has_bar (w ++ (32 ∷ rest)) ≡ false
unfolding has_bar
has_bar-spaced w rest h e = ground (arith, has_bar-append w (32 ∷ rest), has_bar-word w h, e)

has_bar-print_arguments :
    (ws : List Text) (rest : Text)
    → AllWords ws
    → has_bar rest ≡ false
    → has_bar (print_arguments ws rest) ≡ false
has_bar-print_arguments [] rest h e = e
has_bar-print_arguments (w ∷ ws) rest (word, h) e =
    has_bar-spaced w (print_arguments ws rest) word (has_bar-print_arguments ws rest h e)

has_bar-print_target :
    (t : Redirect) (o : Option Text) (rest : Text)
    → IsTarget o
    → has_bar rest ≡ false
    → has_bar (print_target t o rest) ≡ false
unfolding has_bar
has_bar-print_target t none rest h e = e
has_bar-print_target to_error (some w) rest h e = has_bar-spaced w rest h e
has_bar-print_target to_input (some w) rest h e = has_bar-spaced w rest h e
has_bar-print_target to_output (some w) rest h e = has_bar-spaced w rest h e

has_bar-print_stage : (s : CommandStage) → IsPrintable s → has_bar (print_stage s) ≡ false
has_bar-print_stage s p = has_bar-print_arguments s.argv _ p.argv (
    has_bar-print_target to_input s.input_file _ p.input (
      has_bar-print_target to_output s.output_file _ p.output
        (has_bar-print_target to_error s.error_file [] p.error (unfold has_bar in refl))))

split_bars-alone : (x : Text) → has_bar x ≡ false → split_bars x ≡ (x, [])
unfolding has_bar split_bars
split_bars-alone [] h = refl
split_bars-alone (c ∷ cs) h = ground (arith, h, split_bars-alone cs)

split_bars-bar :
    (x y : Text)
    → has_bar x ≡ false
    → split_bars (x ++ (b'|' ∷ y)) ≡ (x, add_text (split_bars y).0 (split_bars y).1)
unfolding has_bar split_bars
split_bars-bar [] y h = refl
split_bars-bar (c ∷ cs) y h = ground (arith, h, split_bars-bar cs y)

-- The stages with a bar between each two.
abbrev pub print_pipeline : List CommandStage → Text
print_pipeline [] = []
print_pipeline (s ∷ []) = print_stage s
print_pipeline (s ∷ (s' ∷ more)) = print_stage s ++ (b'|' ∷ print_pipeline (s' ∷ more))

-- Each stage can be printed, and has an argument.
abbrev pub AllPrintable : List CommandStage → Type 0
AllPrintable [] = Unit {0}
AllPrintable (s ∷ stages) = IsPrintable s × (0 < length s.argv) × AllPrintable stages

-- A text that begins with an argument is not empty.
add_text-print_arguments :
    (ws : List Text) (rest : Text) (texts : List Text)
    → AllWords ws
    → 0 < length ws
    → add_text (print_arguments ws rest) texts ≡ print_arguments ws rest ∷ texts
add_text-print_arguments [] rest texts h named = absurd (omega (arith, named))
add_text-print_arguments ([] ∷ ws) rest texts (word, h) named = absurd word
add_text-print_arguments ((c ∷ cs) ∷ ws) rest texts h named = refl

add_text-print_stage :
    (s : CommandStage) (texts : List Text)
    → IsPrintable s
    → 0 < length s.argv
    → add_text (print_stage s) texts ≡ print_stage s ∷ texts
add_text-print_stage s texts p named = add_text-print_arguments s.argv _ texts p.argv named

stage_texts-print_pipeline :
    (stages : List CommandStage)
    → AllPrintable stages
    → stage_texts (print_pipeline stages) ≡ map print_stage stages
unfolding stage_texts split_bars
stage_texts-print_pipeline [] h = refl
stage_texts-print_pipeline (s ∷ []) (p, named, h) =
    rw (split_bars-alone (print_stage s) (has_bar-print_stage s p))
      (add_text-print_stage s [] p named)
stage_texts-print_pipeline (s ∷ (s' ∷ more)) (p, named, h) =
    rw (split_bars-bar (print_stage s) (print_pipeline (s' ∷ more)) (has_bar-print_stage s p)) (
      add_text-print_stage s _ p named
      ∙ ap (λ l. print_stage s ∷ l) (stage_texts-print_pipeline (s' ∷ more) h))

parse_stages-print_stage :
    (room n : ℕ) (stages : List CommandStage)
    → AllPrintable stages
    → length stages ≤ room
    → parse_stages (λ _. true) room n (map print_stage stages) ≡ parsed stages
unfolding parse_stages
parse_stages-print_stage zero n [] h l = refl
parse_stages-print_stage zero n (s ∷ stages) h l = absurd (omega (arith, l))
parse_stages-print_stage (suc room) n [] h l = refl
parse_stages-print_stage (suc room) n (s ∷ stages) (p, named, h) l =
    let (m, e) = parse_stage-print_stage n s p in
    rw (e, parse_stages-print_stage room m stages h (omega (arith, l)))

-- A pipeline of at most 16 stages, each with 1 to 31 arguments, whose arguments and targets are words (not
-- empty, and without spaces, angle brackets and bars), is read back from its text by `parser_parse` when
-- there is memory and the text fits the buffer.
pub parser_parse-print_pipeline :
    (stages : List CommandStage)
    → AllPrintable stages
    → length stages ≤ 16
    → length (print_pipeline stages) ≤ 1023
    → parser_parse true (λ _. true) (some (print_pipeline stages))
      ≡ parsed (record { stages = stages })
unfolding parser_parse
parser_parse-print_pipeline stages h few short = rw (
  take_all 1023 (print_pipeline stages) short,
  stage_texts-print_pipeline stages h,
  parse_stages-print_stage 16 0 stages h few,
)
