-- ===== src/Parser/Memory.antt =====
-- src/runner/parser.c with the memory it takes and gives back: the blocks that `malloc` returned and
-- `free` has not had back. Parser.antt has the same functions with a token for the pointer to its copy.
-- The command's own block is kept by its address; its fields are passed by value.
pub mod Blocks
pub mod Held
pub mod Stored
pub mod Parse
pub mod Stages
pub mod Destroy
pub mod Ownership
use runner_orchestrator.Base.{
  ℕ, zero, suc, ◌+◌, ◌≡◌, ltb, ◌==◌, Bool, true, false, if◌then◌else◌, List, [], ◌∷◌, ◌++◌, length,
  take, Option, none, some,
}
use runner_orchestrator.Parser.{
  Text, skip_spaces, is_angle, take_token, Redirect, redirect_at, to_error, to_input, to_output,
  stage_texts, parser_max_stages,
}

abbrev pub Addr : Type 0
Addr = ℕ

abbrev pub null : Addr
null = 0

-- What a block holds: the copy of a token, or the struct of a command.
pub data Block : Type 0 where
  characters : Text → Block
  command : Block

abbrev pub Blocks : Type 0
Blocks = List (Addr × Block)

abbrev pub find : Blocks → Addr → Option Block
find [] a = none
find ((p, b) ∷ bs) a = if a == p then some b else find bs a

abbrev pub erase : Blocks → Addr → Blocks
erase [] a = []
erase ((p, b) ∷ bs) a = if a == p then erase bs a else (p, b) ∷ erase bs a

-- `asked` counts the calls of `malloc`.
pub record Memory : Type 0 where
  pub blocks : Blocks
  pub asked : ℕ

-- `malloc` of the C library: whether it has memory for a request, and where the block stands, which is
-- not at NULL and not in a block that is in use.
pub record Allocator : Type 0 where
  pub alloc : ℕ → Bool
  pub place : ℕ → Blocks → Addr
  pub not_null : (n : ℕ) (bs : Blocks) → (place n bs == null) ≡ false
  pub fresh : (n : ℕ) (bs : Blocks) → find bs (place n bs) ≡ none

-- How the parser ends: with a value, by a call of `free` on what is not in use, or not within its rounds.
pub data Run (A : Type 0) : Type 0 where
  done : A → Memory → Run A
  invalid : Run A
  endless : Run A

module _ {A B : Type 0} where
  infixl 5 ◌>>=◌ ◌>>◌
  abbrev pub ◌>>=◌ : Run A → (A → Memory → Run B) → Run B
  done a m >>= next = next a m
  invalid >>= next = invalid
  endless >>= next = endless

  abbrev pub ◌>>◌ : Run A → (Memory → Run B) → Run B
  r >> next = r >>= λ _ m. next m

-- `free`, which does nothing at NULL.
unfoldable pub free : Addr → Memory → Run (Unit {0})
free p m = if p == null then done tt m else elim (find m.blocks p) [
  | none ↦ invalid
  | some b ↦ done tt (record m { blocks = erase m.blocks p })
]

-- The stage as the struct holds it: pointers, and NULL for a file that is not given.
pub record StagePointers : Type 0 where
  pub argv : List Addr
  pub input_file : Addr
  pub output_file : Addr
  pub error_file : Addr

abbrev pub no_pointers : StagePointers
no_pointers = record { argv = []; input_file = null; output_file = null; error_file = null }

-- The block of the command, and the stages that `stage_count` counts.
pub record CommandPointer : Type 0 where
  pub addr : Addr
  pub stages : List StagePointers

-- What `*redirect_target` is.
abbrev pub redirect_target : Redirect → StagePointers → Addr
redirect_target to_error stage = stage.error_file
redirect_target to_input stage = stage.input_file
redirect_target to_output stage = stage.output_file

abbrev pub store_target : Redirect → Addr → StagePointers → StagePointers
store_target to_error token stage = record stage { error_file = token }
store_target to_input token stage = record stage { input_file = token }
store_target to_output token stage = record stage { output_file = token }

-- `free(*redirect_target); *redirect_target = token;`
unfoldable pub replace_target : Redirect → Addr → StagePointers → Memory → Run StagePointers
replace_target t token stage m =
    free (redirect_target t stage) m >> λ m'. done (store_target t token stage) m'

-- An argument beyond the room in `argv` is freed.
unfoldable pub store_argument : Addr → StagePointers → Memory → Run StagePointers
store_argument token stage m =
    if ltb (length stage.argv) 31
    then done (record stage { argv = stage.argv ++ (token ∷ []) }) m
    else (free token m >> λ m'. done stage m')

-- `parser_destroy` on one stage: the arguments up to the NULL, and the files.
unfoldable pub free_arguments : List Addr → Memory → Run (Unit {0})
free_arguments [] m = done tt m
free_arguments (p ∷ ps) m = free p m >> free_arguments ps

unfoldable pub free_stage : StagePointers → Memory → Run (Unit {0})
free_stage stage m =
    free_arguments stage.argv m
    >> free stage.input_file
    >> free stage.output_file
    >> free stage.error_file

unfoldable pub free_stages : List StagePointers → Memory → Run (Unit {0})
free_stages [] m = done tt m
free_stages (stage ∷ stages) m = free_stage stage m >> free_stages stages

-- `none` is NULL.
unfoldable pub parser_destroy : Option CommandPointer → Memory → Run (Unit {0})
parser_destroy none m = done tt m
parser_destroy (some cmd) m = free_stages cmd.stages m >> free cmd.addr

module _ (malloc : Allocator) where
  -- The address of a new block with this content, or NULL.
  unfoldable pub allocate : Block → Memory → Addr × Memory
  allocate b m =
      let asked = suc m.asked in
      if malloc.alloc m.asked
      then (
        malloc.place m.asked m.blocks,
        record { blocks = (malloc.place m.asked m.blocks, b) ∷ m.blocks; asked = asked },
      )
      else (null, record m { asked = asked })

  unfoldable pub duplicate_range : Text → Memory → Addr × Memory
  duplicate_range text m = allocate (characters text) m

  -- The pointer to the token and the text behind it; `none` is NULL.
  unfoldable pub parse_token_heap : Text → Memory → Option (Addr × Text) × Memory
  parse_token_heap cursor m = elim (skip_spaces cursor) [
    | [] ↦ (none, m)
    | c ∷ cs ↦
        let (token, rest) = take_token (c ∷ cs) in
        let (p, m') = duplicate_range token m in
        if is_angle c then (none, m) else if p == null then (none, m') else (some (p, rest), m')
  ]

  -- A token that is not there ends the stage with -1, which is `false`.
  abbrev pub with_pointer :
      StagePointers
      → Option (Addr × Text) × Memory
      → (Addr → Text → Memory → Run (Bool × StagePointers))
      → Run (Bool × StagePointers)
  with_pointer stage (none, m) next = done (false, stage) m
  with_pointer stage (some (p, rest), m) next = next p rest m

  -- The loop of `parse_stage`, with the rounds that are left.
  unfoldable pub parse_loop_heap :
      (rounds : ℕ) → StagePointers → Text → Memory → Run (Bool × StagePointers)
  parse_loop_heap zero stage cursor m = endless
  parse_loop_heap (suc k) stage cursor m = elim (skip_spaces cursor) [
    | [] ↦ done (true, stage) m
    | c ∷ cs ↦ elim (redirect_at c cs) [
      | some (t, rest) ↦
          with_pointer stage (parse_token_heap rest m)
            (λ p next m1. replace_target t p stage m1 >>= λ stage'. parse_loop_heap k stage' next)
      | none ↦
          with_pointer stage (parse_token_heap (c ∷ cs) m)
            (λ p next m1. store_argument p stage m1 >>= λ stage'. parse_loop_heap k stage' next)
    ]
  ]

  unfoldable pub parse_stage_heap : Text → Memory → Run (Bool × StagePointers)
  parse_stage_heap text m = parse_loop_heap (length text + 1) no_pointers text m

  -- The loop over the stages, with the room that is left: whether no stage failed, and the stages that
  -- are counted. The one that failed is not.
  unfoldable pub parse_stages_heap :
      (room : ℕ) → List Text → Memory → Run (Bool × List StagePointers)
  parse_stages_heap zero texts m = done (true, []) m
  parse_stages_heap (suc room) [] m = done (true, []) m
  parse_stages_heap (suc room) (text ∷ texts) m =
      let later = λ (m' : Memory). parse_stages_heap room texts m' in
      parse_stage_heap text m >>= λ (ok, stage) m'.
      if ok
      then (later m' >>= λ (all, stages) m''. done (all, stage ∷ stages) m'')
      else done (false, []) m'

  -- `none` is NULL.
  unfoldable pub parser_parse_heap : Option Text → Memory → Run (Option CommandPointer)
  parser_parse_heap none m = done none m
  parser_parse_heap (some input) m =
      let (p, m') = allocate command m in
      if p == null
      then done none m'
      else (parse_stages_heap parser_max_stages (stage_texts (take 1023 input)) m'
          >>= λ (ok, stages) m''.
              let cmd : CommandPointer = record { addr = p; stages = stages } in
              if ok
              then done (some cmd) m''
              else (parser_destroy (some cmd) m'' >> λ m3. done none m3))
