-- ===== src/Controller/Grants.antt =====
-- The ACKs among what the controller does (controller_handlers.c), and its queues, by weights.
pub mod Report
pub mod Message
use runner_orchestrator.Base.{
  ℕ, zero, suc, ◌+◌, ◌≡◌, refl, sym, ap, ◌∙◌, inl, inr, Bool, true, false, Bool-cases, not, ◌&&◌,
  ◌||◌, ltb, ◌==◌, if◌then◌else◌, List, [], ◌∷◌, ◌++◌, length, take, map, ℤ, arith,
}
use runner_orchestrator.Protocol.{RpcMessage, MsgType, ack, submit, done, status_req}
use runner_orchestrator.Scheduler.Job.{JobInfo, job_running}
use runner_orchestrator.Scheduler.Jobs.{enqueue, remove_by_command_id}
use runner_orchestrator.Scheduler.Jobs.Laws.{remove_first-TakesOut}
use runner_orchestrator.Controller.State.{ControllerState, Env, Effect, send, written, log_line}
use runner_orchestrator.Controller.Status.{
  handle_status_req, write_status_message, write_status_jobs, write_scheduled, write_end,
  status_message, end_message, executing_text, waiting_snapshot,
}
use runner_orchestrator.Controller.Handlers.{
  submitted_job, remember_fair_user, handle_submit, place_job, finish_job, handle_done,
  log_finished_job, start_waiting_jobs, handle_shutdown_req, try_finish_shutdown, is_empty,
  send_ack_to_runner, send_shutdown_ack_to_runner,
}
use runner_orchestrator.Controller.Messages.{dispatch, controller_handle_message, is_submit}
use runner_orchestrator.Controller.Invariant.Keep.{remember_fair_user-rest}
use runner_orchestrator.Controller.Order.Acks.{Started, start_waiting_jobs-Started}
use runner_orchestrator.Controller.Conservation.{
  count_of, count_of-same, count_in-missing, count_in-middle, count_in, is_running, is_done,
}

abbrev pub is_ack : MsgType → Bool
is_ack ack = true
is_ack other = false

abbrev pub ack_weight : (ℤ → ℕ) → RpcMessage → ℕ
ack_weight w msg = if is_ack msg.type then w msg.command_id else 0

-- Identifiers weigh `w`: the sum over the ACKs among the effects, and over a queue.
unfoldable pub granted : (ℤ → ℕ) → List Effect → ℕ
granted w [] = 0
granted w (send to msg ∷ effects) = ack_weight w msg + granted w effects
granted w (written to msg ∷ effects) = ack_weight w msg + granted w effects
granted w (log_line user_id command_id elapsed_ms ∷ effects) = granted w effects

unfoldable pub weigh : (ℤ → ℕ) → List JobInfo → ℕ
weigh w [] = 0
weigh w (j ∷ q) = w j.command_id + weigh w q

module _ (w : ℤ → ℕ) where
  pub granted-append : (xs ys : List Effect) → granted w (xs ++ ys) ≡ granted w xs + granted w ys
  unfolding granted
  granted-append [] ys = omega arith
  granted-append (send to msg ∷ xs) ys = omega (arith, granted-append xs ys)
  granted-append (written to msg ∷ xs) ys = omega (arith, granted-append xs ys)
  granted-append (log_line user_id command_id elapsed_ms ∷ xs) ys = granted-append xs ys

  pub weigh-append : (xs ys : List JobInfo) → weigh w (xs ++ ys) ≡ weigh w xs + weigh w ys
  unfolding weigh
  weigh-append [] ys = omega arith
  weigh-append (j ∷ xs) ys = omega (arith, weigh-append xs ys)
