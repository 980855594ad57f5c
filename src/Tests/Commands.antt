-- ===== src/Tests/Commands.antt =====
-- The parser, on "cat 2 < in | wc" and its like.
use runner_orchestrator.Base.{◌≡◌, refl, true, List, [], ◌∷◌, none, some, arith}
use runner_orchestrator.Parser.{CommandStage, parsed, parser_parse}
use runner_orchestrator.Parser.Bounds.{CommandFits, parser_parse-CommandFits}
use runner_orchestrator.Parser.Pipeline.{AllPrintable, print_pipeline, parser_parse-print_pipeline}

-- cat 2 < i
abbrev reading : CommandStage
reading = record {
  argv = (b'c' ∷ b'a' ∷ b't' ∷ []) ∷ (b'2' ∷ []) ∷ [];
  input_file = some (b'i' ∷ []);
  output_file = none;
  error_file = none;
}

-- wc > o 2> e
abbrev counting : CommandStage
counting = record {
  argv = (b'w' ∷ b'c' ∷ []) ∷ [];
  input_file = none;
  output_file = some (b'o' ∷ []);
  error_file = some (b'e' ∷ []);
}

abbrev pub two_stages : List CommandStage
two_stages = reading ∷ counting ∷ []

pub two_stages-AllPrintable : AllPrintable two_stages
two_stages-AllPrintable = (
  record {
    argv = (
      ((refl, refl, refl), ((refl, refl, refl), ((refl, refl, refl), tt))),
      (((refl, refl, refl), tt), tt),
    );
    input = ((refl, refl, refl), tt);
    output = tt;
    error = tt;
    room = omega arith;
  },
  omega arith,
  (
    record {
      argv = (((refl, refl, refl), ((refl, refl, refl), tt)), tt);
      input = tt;
      output = ((refl, refl, refl), tt);
      error = ((refl, refl, refl), tt);
      room = omega arith;
    },
    omega arith,
    tt,
  ),
)

parser_parse-print_pipeline_example :
    parser_parse true (λ _. true) (some (print_pipeline two_stages))
    ≡ parsed (record { stages = two_stages })
parser_parse-print_pipeline_example =
    parser_parse-print_pipeline two_stages two_stages-AllPrintable (omega arith) (omega arith)

parser_parse-CommandFits_example :
    CommandFits (parser_parse true (λ _. true) (some (print_pipeline two_stages)))
parser_parse-CommandFits_example =
    parser_parse-CommandFits true (λ _. true) (some (print_pipeline two_stages))
