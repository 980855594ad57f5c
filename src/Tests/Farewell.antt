-- ===== src/Tests/Farewell.antt =====
-- A request to stop while one job runs and three wait, and the ends of the four.
use runner_orchestrator.Base.{ℕ, ◌==◌, false, ◌≡◌, refl, List, [], ◌∷◌, if◌then◌else◌, pos}
use runner_orchestrator.Protocol.{done, submit, RpcMessage}
use runner_orchestrator.Controller.State.{Env}
use runner_orchestrator.Controller.Status.{fair_name}
use runner_orchestrator.Controller.Messages.{serve}
use runner_orchestrator.Runner.{shutdown_request}
use runner_orchestrator.Runner.Report.{delivered}
use runner_orchestrator.Runner.Shutdown.Answer.{the_end, serve-shutdown_request}
use runner_orchestrator.Tests.{quiet, busy_state, message}

-- The second is turned away.
abbrev four_ends : List (Env × RpcMessage)
four_ends =
    (quiet, message done 510 1 10)
    ∷ (quiet, message submit 520 3 20)
    ∷ (quiet, message done 513 2 13)
    ∷ (quiet, message done 511 1 11)
    ∷ (quiet, message done 512 1 12)
    ∷ []

not_600 : (n : ℕ) → (n == 600) ≡ false → ¬ (pos n ≡ pos 600)
not_600 n other e = cc (other)

serve-shutdown_request_example :
    delivered
      (pos 600)
      (serve (busy_state fair_name) ((quiet, shutdown_request (pos 600)) ∷ four_ends)).1
    ≡ (if (serve
          (busy_state fair_name)
          ((quiet, shutdown_request (pos 600)) ∷ four_ends)).0.keep_running
        then []
        else the_end ∷ [])
serve-shutdown_request_example =
    serve-shutdown_request (pos 600) quiet (busy_state fair_name) four_ends refl
      (not_600 511 refl, (not_600 512 refl, (not_600 513 refl, tt)))
      (
        not_600 510 refl,
        refl,
        (
          not_600 520 refl,
          refl,
          (not_600 513 refl, refl, (not_600 511 refl, refl, (not_600 512 refl, refl, tt))),
        ),
      )
