-- ===== src/Tests/Memory.antt =====
-- The parser with a `malloc` for tokens.
use runner_orchestrator.Base.{
  ℕ, ◌+◌, ◌≤◌, ◌<◌, ◌≡◌, refl, true, false, ◌==◌, [], ◌∷◌, none, some, arith,
}
use runner_orchestrator.Store.{null}
use runner_orchestrator.Parser.{
  parsed, parser_parse, stage_texts, split_bars, skip_spaces, redirect_at, take_token,
}
use runner_orchestrator.Parser.Pipeline.{print_pipeline, parser_parse-print_pipeline}
use runner_orchestrator.Parser.Memory.{
  Addr, characters, Blocks, find, Memory, Allocator, Run, parser_parse_heap, parser_destroy, ◌>>=◌,
  allocate, parse_stages_heap, parse_stage_heap, parse_loop_heap, parse_token_heap, duplicate_range,
  store_argument, free_stages, free,
}
use runner_orchestrator.Parser.Memory.Ownership.{
  Refines, parser_parse_heap-Refines, parser_destroy-parser_parse_heap,
}
use runner_orchestrator.Tests.Commands.{two_stages, two_stages-AllPrintable}

-- An address above all that are in use.
abbrev above : Blocks → ℕ
above [] = 1
above ((p, b) ∷ bs) = p + above bs

above-pos : (bs : Blocks) → 0 < above bs
above-pos [] = omega arith
above-pos ((p, b) ∷ bs) = omega (arith, above-pos bs)

find-above : (bs : Blocks) (a : ℕ) → above bs ≤ a → find bs a ≡ none
find-above [] a h = refl
find-above ((p, b) ∷ bs) a h = ground (arith, above-pos bs, find-above bs a)

above-ne-null : (bs : Blocks) → (above bs == null) ≡ false
above-ne-null bs = ground (arith, above-pos bs)

-- There is always memory.
abbrev bump : Allocator
bump = record {
  alloc = λ _. true;
  place = λ n bs. above bs;
  not_null = λ n bs. above-ne-null bs;
  fresh = λ n bs. find-above bs (above bs) (omega arith);
}

-- One block that is not of the parser.
abbrev at_start : Memory
at_start = record { blocks = (7, characters []) ∷ []; asked = 5 }

parser_parse_heap-Refines_example :
    Refines at_start.blocks
      (parser_parse true (λ _. true) (some (print_pipeline two_stages)))
      (parser_parse_heap bump (some (print_pipeline two_stages)) at_start)
parser_parse_heap-Refines_example =
    parser_parse_heap-Refines bump at_start (refl, refl, tt) (some (print_pipeline two_stages))

-- The redirection without a target fails, and the token before it is not freed.
leaves_token :
    parser_parse_heap bump (some (b'a' ∷ b'>' ∷ [])) at_start
    ≡ Run.done none
        (record { blocks = (16, characters (b'a' ∷ [])) ∷ (7, characters []) ∷ []; asked = 7 })
unfolding parser_parse_heap allocate parse_stages_heap stage_texts split_bars parse_stage_heap
    parse_loop_heap skip_spaces redirect_at parse_token_heap duplicate_range store_argument
    take_token parser_destroy free_stages free
leaves_token = refl

two_stages-parsed :
    parser_parse true (λ _. true) (some (print_pipeline two_stages))
    ≡ parsed (record { stages = two_stages })
two_stages-parsed =
    parser_parse-print_pipeline two_stages two_stages-AllPrintable (omega arith) (omega arith)

parser_destroy-parser_parse_heap_example :
    (g : Memory) × ((parser_parse_heap bump (some (print_pipeline two_stages)) at_start >>= λ c.
    parser_destroy c)
      ≡ Run.done tt g)
    × ((a : Addr) → find g.blocks a ≡ find at_start.blocks a)
parser_destroy-parser_parse_heap_example =
    parser_destroy-parser_parse_heap bump at_start (refl, refl, tt)
      (some (print_pipeline two_stages)) (record { stages = two_stages }) two_stages-parsed
