-- ===== src/Parser.antt =====
-- src/runner/parser.c: from the text of a command to the stages of its pipeline. A text is its bytes up
-- to the terminating zero; a cursor is the text from there on. `alloc` says of each token, counted from 0,
-- whether there is memory for its copy.
pub mod Words
pub mod Bounds
pub mod RoundTrip
pub mod Pipeline
pub mod Memory
use runner_orchestrator.Base.{
  ℕ, zero, suc, ◌+◌, leb, ltb, ◌==◌, Bool, true, false, not, ◌&&◌, ◌||◌, if◌then◌else◌, List, [],
  ◌∷◌, ◌++◌, length, take, get_elem?, Option, none, some, ℤ, pos, negsuc,
}

abbrev pub Text : Type 0
Text = List ℕ

abbrev pub parser_max_args : ℕ
parser_max_args = 32

abbrev pub parser_max_stages : ℕ
parser_max_stages = 16

pub record CommandStage : Type 0 where
  pub argv : List Text
  pub input_file : Option Text
  pub output_file : Option Text
  pub error_file : Option Text

-- What `memset` with 0 leaves.
abbrev pub no_stage : CommandStage
no_stage = record { argv = []; input_file = none; output_file = none; error_file = none }

-- `stage_count` is the length.
pub record ParsedCommand : Type 0 where
  pub stages : List CommandStage

-- How parsing ends: with a result, with a failure, or not within its rounds.
pub data Outcome (A : Type 0) : Type 0 where
  parsed : A → Outcome A
  failed : Outcome A
  endless : Outcome A

-- `isspace`
abbrev pub is_space : ℕ → Bool
is_space c = (c == 32) || leb 9 c && leb c 13

unfoldable pub skip_spaces : Text → Text
skip_spaces [] = []
skip_spaces (c ∷ cs) = if is_space c then skip_spaces cs else c ∷ cs

abbrev pub is_angle : ℕ → Bool
is_angle c = (c == b'<') || (c == b'>')

-- The `while` loop of `parse_token`: the token, and the rest behind it.
unfoldable pub take_token : Text → Text × Text
take_token [] = ([], [])
take_token (c ∷ cs) =
    let (token, rest) = take_token cs in
    if is_space c || is_angle c then ([], c ∷ cs) else (c ∷ token, rest)

-- `allocated`: whether `duplicate_range` got memory.
unfoldable pub parse_token : (allocated : Bool) → Text → Option (Text × Text)
parse_token allocated cursor = elim (skip_spaces cursor) [
  | [] ↦ none
  | c ∷ cs ↦ if is_angle c || not allocated then none else some (take_token (c ∷ cs))
]

pub data Redirect : Type 0 where
  to_error to_input to_output : Redirect

-- The operator at the cursor, and the cursor behind it.
unfoldable pub redirect_at : ℕ → Text → Option (Redirect × Text)
redirect_at c [] =
    if c == b'<' then some (to_input, []) else if c == b'>' then some (to_output, []) else none
redirect_at c (d ∷ ds) =
    if (c == b'2') && (d == b'>')
    then some (to_error, ds)
    else if c == b'<'
    then some (to_input, d ∷ ds)
    else if c == b'>'
    then some (to_output, d ∷ ds)
    else none

abbrev pub set_target : Redirect → Text → CommandStage → CommandStage
set_target to_error token stage = record stage { error_file = some token }
set_target to_input token stage = record stage { input_file = some token }
set_target to_output token stage = record stage { output_file = some token }

-- An argument beyond the room in `argv` is dropped.
abbrev pub add_argument : Text → CommandStage → CommandStage
add_argument token stage =
    if ltb (length stage.argv) 31 then record stage { argv = stage.argv ++ (token ∷ []) } else stage

-- What a round does with the token that it finds: the stage, and the count of tokens.
abbrev pub with_token :
    Option (Text × Text) → (Text → Text → Outcome (CommandStage × ℕ)) → Outcome (CommandStage × ℕ)
with_token none next = failed
with_token (some (token, rest)) next = next token rest

-- The loop of `parse_stage`, with the rounds that are left and the count of tokens.
unfoldable pub parse_loop :
    (alloc : ℕ → Bool) → (rounds tokens : ℕ) → CommandStage → Text → Outcome (CommandStage × ℕ)
parse_loop alloc zero n stage cursor = endless
parse_loop alloc (suc k) n stage cursor = elim (skip_spaces cursor) [
  | [] ↦ parsed (stage, n)
  | c ∷ cs ↦ elim (redirect_at c cs) [
    | some (target, rest) ↦
        with_token (parse_token (alloc n) rest)
          (λ token next. parse_loop alloc k (n + 1) (set_target target token stage) next)
    | none ↦
        with_token (parse_token (alloc n) (c ∷ cs))
          (λ token next. parse_loop alloc k (n + 1) (add_argument token stage) next)
  ]
]

-- Each round takes at least one byte.
unfoldable pub parse_stage : (alloc : ℕ → Bool) → (tokens : ℕ) → Text → Outcome (CommandStage × ℕ)
parse_stage alloc n text = parse_loop alloc (length text + 1) n no_stage text

abbrev pub add_text : Text → List Text → List Text
add_text [] texts = texts
add_text (c ∷ cs) texts = (c ∷ cs) ∷ texts

-- The text up to the first bar, and the texts that are not empty behind it.
unfoldable pub split_bars : Text → Text × List Text
split_bars [] = ([], [])
split_bars (c ∷ cs) =
    let (first, later) = split_bars cs in
    if c == b'|' then ([], add_text first later) else (c ∷ first, later)

-- What successive calls of `strtok_r` with "|" return.
unfoldable pub stage_texts : Text → List Text
stage_texts text = let (first, later) = split_bars text in add_text first later

abbrev pub cons_stage : CommandStage → Outcome (List CommandStage) → Outcome (List CommandStage)
cons_stage stage (parsed stages) = parsed (stage ∷ stages)
cons_stage stage failed = failed
cons_stage stage endless = endless

abbrev pub next_stages :
    Outcome (CommandStage × ℕ) → (ℕ → Outcome (List CommandStage)) → Outcome (List CommandStage)
next_stages (parsed (stage, n)) next = cons_stage stage (next n)
next_stages failed next = failed
next_stages endless next = endless

-- The loop over the stages, with the room that is left.
unfoldable pub parse_stages :
    (alloc : ℕ → Bool) → (room tokens : ℕ) → List Text → Outcome (List CommandStage)
parse_stages alloc zero n texts = parsed []
parse_stages alloc (suc room) n [] = parsed []
parse_stages alloc (suc room) n (text ∷ texts) =
    next_stages (parse_stage alloc n text) (λ n'. parse_stages alloc room n' texts)

abbrev pub as_command : Outcome (List CommandStage) → Outcome ParsedCommand
as_command endless = endless
as_command failed = failed
as_command (parsed stages) = parsed (record { stages = stages })

-- `allocated`: whether there is memory for the command. `none` is NULL. `strncpy` copies all but the last
-- of the 1024 bytes of `buffer`.
unfoldable pub parser_parse :
    (allocated : Bool) → (alloc : ℕ → Bool) → Option Text → Outcome ParsedCommand
parser_parse allocated alloc none = failed
parser_parse false alloc (some input) = failed
parser_parse true alloc (some input) =
    as_command (parse_stages alloc parser_max_stages 0 (stage_texts (take 1023 input)))

unfoldable pub parser_get_stage_count : Option ParsedCommand → ℕ
parser_get_stage_count none = 0
parser_get_stage_count (some cmd) = length cmd.stages

-- The test on the index that the four functions share, and the stage.
abbrev pub stage_at : Option ParsedCommand → ℤ → Option CommandStage
stage_at (some cmd) (pos i) = get_elem? cmd.stages i
stage_at other i = none

unfoldable pub parser_get_stage_argv : Option ParsedCommand → ℤ → Option (List Text)
parser_get_stage_argv cmd i = elim (stage_at cmd i) [ none ↦ none | some stage ↦ some stage.argv ]

pub parser_get_input_file : Option ParsedCommand → ℤ → Option Text
parser_get_input_file cmd i = elim (stage_at cmd i) [ none ↦ none | some stage ↦ stage.input_file ]

pub parser_get_output_file : Option ParsedCommand → ℤ → Option Text
parser_get_output_file cmd i = elim (stage_at cmd i) [
  | none ↦ none
  | some stage ↦ stage.output_file
]

pub parser_get_error_file : Option ParsedCommand → ℤ → Option Text
parser_get_error_file cmd i = elim (stage_at cmd i) [ none ↦ none | some stage ↦ stage.error_file ]
