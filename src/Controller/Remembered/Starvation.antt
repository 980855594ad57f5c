-- ===== src/Controller/Remembered/Starvation.antt =====
-- controller_handlers.c: how long a user may wait under the fair policy of the controller.
use runner_orchestrator.Base.{
  ℕ, suc, ◌+◌, ◌<◌, ◌≡◌, refl, subst, ◌∙◌, ◌⊎◌, inl, inr, Bool, true, false, Bool-cases,
  if◌then◌else◌, List, [], ◌∷◌, ◌++◌, length, ℤ, arith,
}
use runner_orchestrator.Protocol.{RpcMessage}
use runner_orchestrator.Scheduler.Fair.TurnOrder.{turn_order}
use runner_orchestrator.Scheduler.Fair.Waiting.{place-lt, turn_order-exists}
use runner_orchestrator.Scheduler.Fair.Choice.{length-turn_order}
use runner_orchestrator.Scheduler.Jobs.Starvation.{has_job}
use runner_orchestrator.Controller.State.{ControllerState, Env}
use runner_orchestrator.Controller.Status.{is_fair_policy}
use runner_orchestrator.Controller.Handlers.{then_do}
use runner_orchestrator.Controller.Messages.{controller_handle_message, serve}
use runner_orchestrator.Controller.Configure.{controller_configure, serve-IsValid_from_start}
use runner_orchestrator.Controller.Load.{ends_job, ended}
use runner_orchestrator.Controller.Drain.{ended-step, serve-halt}
use runner_orchestrator.Controller.Invariant.{IsValid}
use runner_orchestrator.Controller.Invariant.Keep.{controller_handle_message-IsValid}
use runner_orchestrator.Controller.Remembered.{Remembers}
use runner_orchestrator.Controller.Remembered.Keep.{
  HasRealloc, controller_handle_message-Remembers, serve-Remembers,
}
use runner_orchestrator.Controller.Remembered.Turns.{acked, FairMemory}
use runner_orchestrator.Controller.Remembered.Steps.{as_number}
use runner_orchestrator.Controller.Remembered.Progress.{
  Progress, stays_near, Progress-trans, message-Progress,
}

-- There is memory for the users, and for the nodes of the jobs that are started, while the messages are
-- handled.
abbrev pub AllFairMemory : List (Env × RpcMessage) → Type 0
AllFairMemory [] = Unit {0}
AllFairMemory ((env, msg) ∷ more) = FairMemory env × AllFairMemory more

serve-on :
    (s : ControllerState) (env : Env) (msg : RpcMessage) (more : List (Env × RpcMessage))
    → s.keep_running ≡ true
    → (let r = controller_handle_message env s msg in
        serve s ((env, msg) ∷ more) ≡ then_do (serve r.0 more) r.1)
unfolding serve
serve-on s env msg more running = simp (running, serve) refl

more_ended : (b : Bool) (n : ℕ) → as_number b + n ≡ (if b then suc n else n)
more_ended true n = omega arith
more_ended false n = omega arith

serve-Progress :
    (u : ℤ) (s : ControllerState) (msgs : List (Env × RpcMessage))
    → AllFairMemory msgs
    → IsValid s
    → Remembers s
    → is_fair_policy s ≡ true
    → has_job s.waiting_queue u ≡ true
    → Progress u s (serve s msgs) (ended s msgs)
serve-Progress u s [] memory v m fair waits = unfold serve ended in inr (stays_near u s fair waits)
serve-Progress u s ((env, msg) ∷ more) (memory, later) v m fair waits =
    elim (Bool-cases s.keep_running) [
      | inr stopped ↦
          let (same, none_ended) = serve-halt s ((env, msg) ∷ more) stopped in
          rw (same, none_ended) (inr (stays_near u s fair waits))
      | inl running ↦
          let r = controller_handle_message env s msg in
          rw (serve-on s env msg more running, ended-step s env msg more running)
            (subst (Progress u s ((serve r.0 more).0, r.1 ++ (serve r.0 more).1))
              (more_ended (ends_job s msg) (ended r.0 more))
              (Progress-trans u s (r.0, r.1) (serve r.0 more) (as_number (ends_job s msg))
                (ended r.0 more) (message-Progress u env memory s msg v m fair waits)
                (λ c.
                  serve-Progress u r.0 more later (controller_handle_message-IsValid env s msg v)
                    (controller_handle_message-Remembers env s msg memory.realloc m) c.fair
                    c.waits)))
    ]

-- Waiting is bounded under the fair policy, whatever the others submit meanwhile. Let a user have a waiting job
-- after any messages since the start, with memory for the array of users, and let the fair policy be named
-- then. After any further messages, with memory for the users and for the nodes of started jobs, either an
-- ACK for a job of the user was sent while they were handled, or the DONEs of running jobs that were handled
-- among them are fewer than the users that are remembered at their end.
pub serve-acked :
    (atoi : List ℕ → ℤ) (argv : List (List ℕ)) (before msgs : List (Env × RpcMessage)) (u : ℤ)
    → HasRealloc before
    → AllFairMemory msgs
    → is_fair_policy (serve (controller_configure atoi argv) before).0 ≡ true
    → has_job (serve (controller_configure atoi argv) before).0.waiting_queue u ≡ true
    → (let s = (serve (controller_configure atoi argv) before).0 in
        (acked u (serve s msgs).1 ≡ true) ⊎ (ended s msgs < length (serve s msgs).0.fair_users))
unfolding controller_configure
serve-acked atoi argv before msgs u ok memory fair waits =
    let s = (serve (controller_configure atoi argv) before).0 in
    let m =
      serve-Remembers (controller_configure atoi argv) before ok
        (record { once = tt; known = λ v h. h }) in
    elim (serve-Progress u s msgs memory (serve-IsValid_from_start atoi argv before) m fair waits) [
      | inl served ↦ inl served
      | inr c ↦ inr (
          omega (
            arith,
            c.near,
            place-lt (turn_order s.fair_users s.last_scheduled_user) u
                (turn_order-exists s.fair_users s.last_scheduled_user u ∙ m.known u waits),
            length-turn_order s.fair_users s.last_scheduled_user,
          ))
    ]
