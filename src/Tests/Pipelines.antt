-- ===== src/Tests/Pipelines.antt =====
-- The executor, on the pipeline "cat 2 < i | wc > o 2> e".
use runner_orchestrator.Base.{
  ℕ, zero, suc, ◌+◌, ◌<◌, ◌≡◌, refl, ltb, ◌==◌, true, if◌then◌else◌, [], ◌∷◌, length, Option, some,
  none, arith, not, ◌&&◌, ◌≤◌,
}
use runner_orchestrator.Descriptors.{inherited, Table, lookup, IsFresh}
use runner_orchestrator.Parser.{ParsedCommand, parser_get_stage_count, parser_get_stage_argv}
use runner_orchestrator.Executor.{ChildEnv, ExecEnv, exited, execute_pipeline}
use runner_orchestrator.Executor.Child.{HasStandard, child_ok}
use runner_orchestrator.Executor.Parent.{Clean, execute_pipeline-Clean}
use runner_orchestrator.Executor.Status.{
  all_made, all_clean, as_result, execute_pipeline-result, execute_pipeline-waits, AllRun,
  execute_pipeline-AllRun,
}
use runner_orchestrator.Tests.Commands.{two_stages}

-- One more than the largest descriptor.
unfoldable pub above : Table → ℕ
above [] = 0
above ((f, o) ∷ t) = let rest = above t in if ltb f rest then rest else f + 1

lookup-above : (t : Table) (x : ℕ) → above t ≤ x → lookup t x ≡ none
unfolding above lookup
lookup-above [] x h = refl
lookup-above ((f, o) ∷ t) x h = ground (arith, h, lookup-above t x)

above-IsFresh : IsFresh above
above-IsFresh t = lookup-above t (above t) (omega arith)

abbrev pub terminal : Table
terminal = (0, inherited 0) ∷ (1, inherited 1) ∷ (2, inherited 2) ∷ []

terminal-HasStandard : HasStandard terminal
unfolding lookup
terminal-HasStandard = record { input = λ e. cc; output = λ e. cc; error = λ e. cc }

abbrev willing : ChildEnv
willing = record {
  pipe_in = true;
  pipe_out = true;
  open_in = true;
  dup_in = true;
  open_out = true;
  dup_out = true;
  open_err = true;
  dup_err = true;
}

abbrev pub smooth : ExecEnv
smooth = record {
  pipe_ok = λ _. true;
  fork_ok = λ _. true;
  child = λ _. willing;
  wait = λ _. some (exited 0);
}

abbrev two_commands : Option ParsedCommand
two_commands = some (record { stages = two_stages })

execute_pipeline-Clean_example :
    Clean terminal two_commands smooth 2 (execute_pipeline above smooth two_commands terminal)
unfolding parser_get_stage_count
execute_pipeline-Clean_example =
    execute_pipeline-Clean above smooth two_commands terminal above-IsFresh terminal-HasStandard

execute_pipeline-result_example :
    (execute_pipeline above smooth two_commands terminal).result
    ≡ as_result (not (2 == 0) && (all_made smooth 2 2 0 && all_clean smooth 2 0))
unfolding parser_get_stage_count
execute_pipeline-result_example = execute_pipeline-result above smooth two_commands terminal

execute_pipeline-waits_example :
    (execute_pipeline above smooth two_commands terminal).waits
    ≡ length (execute_pipeline above smooth two_commands terminal).children
execute_pipeline-waits_example =
    execute_pipeline-waits above smooth two_commands terminal (λ j e. cc)

two_commands-ok : (j : ℕ) → j < 2 → child_ok willing two_commands j ≡ true
unfolding parser_get_stage_argv
two_commands-ok zero h = refl
two_commands-ok (suc zero) h = refl
two_commands-ok (suc (suc j)) h = absurd (omega (arith, h))

execute_pipeline-AllRun_example :
    (length (execute_pipeline above smooth two_commands terminal).children ≡ 2)
    × AllRun two_commands 0 (execute_pipeline above smooth two_commands terminal).children
unfolding parser_get_stage_count all_made
execute_pipeline-AllRun_example =
    execute_pipeline-AllRun above smooth two_commands terminal above-IsFresh terminal-HasStandard
      refl two_commands-ok
