-- ===== src/Controller/Grants/Report.antt =====
-- `handle_status_req` of controller_handlers.c sends no ACK.
use runner_orchestrator.Base.{
  ℕ, ◌+◌, ◌≡◌, refl, inl, inr, false, Bool-cases, not, ◌&&◌, ltb, List, [], ◌∷◌, length, take, ℤ,
  arith,
}
use runner_orchestrator.Protocol.{RpcMessage}
use runner_orchestrator.Scheduler.Job.{JobInfo}
use runner_orchestrator.Controller.State.{ControllerState, Env, Effect}
use runner_orchestrator.Controller.Status.{
  handle_status_req, write_status_message, write_status_jobs, write_scheduled, write_end,
  status_message, end_message, executing_text, waiting_snapshot,
}
use runner_orchestrator.Controller.Grants.{is_ack, granted}

module _ (w : ℤ → ℕ) where
  module _ (env : Env) (to : ℤ) where
    write_status_message-granted :
        (i : ℕ) (msg : RpcMessage) (more otherwise : List Effect)
        → is_ack msg.type ≡ false
        → granted w more ≡ 0
        → granted w otherwise ≡ 0
        → granted w (write_status_message env to i msg more otherwise) ≡ 0
    unfolding granted
    write_status_message-granted i msg more otherwise kind m o =
        elim (Bool-cases (env.status.write_ok i)) [
          | inl ok ↦ rw (ok, granted, kind) (omega (arith, m))
          | inr failed ↦ rw failed o
        ]

    write_status_jobs-granted :
        (i : ℕ) (jobs : List JobInfo) (next : ℕ → List Effect)
        → ((k : ℕ) → granted w (next k) ≡ 0)
        → granted w (write_status_jobs env to i jobs next) ≡ 0
    unfolding granted write_status_jobs
    write_status_jobs-granted i [] next h = h i
    write_status_jobs-granted i (j ∷ jobs) next h = elim (Bool-cases (env.status.write_ok i)) [
      | inl ok ↦
          rw (ok, write_status_jobs) (omega (arith, write_status_jobs-granted (i + 1) jobs next h))
      | inr failed ↦ rw (failed, write_status_jobs) (h (i + 1))
    ]

    write_scheduled-granted :
        (s : ControllerState) (i : ℕ) → granted w (write_scheduled env s to i) ≡ 0
    unfolding write_scheduled write_end granted
    write_scheduled-granted s i =
        write_status_message-granted i _ _ [] refl
          (write_status_jobs-granted (i + 1) (waiting_snapshot env s) (write_end env to)
            (λ k. write_status_message-granted k (end_message env) [] [] refl refl refl))
          refl

  pub handle_status_req-granted :
      (env : Env) (s : ControllerState) (msg : RpcMessage)
      → granted w (handle_status_req env s msg) ≡ 0
  unfolding handle_status_req granted
  handle_status_req-granted env s msg =
      elim (Bool-cases (ltb 0 (length s.running_queue) && not env.status.run_ok)) [
        | inl no_run ↦ rw no_run refl
        | inr run ↦ elim (Bool-cases (ltb 0 (length s.waiting_queue) && not env.status.wait_ok)) [
          | inl no_wait ↦ rw (run, no_wait) refl
          | inr wait ↦ elim (Bool-cases (not env.status.open_ok)) [
            | inl closed ↦ rw (run, wait, closed) refl
            | inr opens ↦
                rw (run, wait, opens)
                  (write_status_message-granted env msg.sender_pid 0
                    (status_message env executing_text) reports [] refl
                    (write_status_jobs-granted env msg.sender_pid 1
                      (take (length s.running_queue) s.running_queue)
                      (write_scheduled env s msg.sender_pid)
                      (write_scheduled-granted env msg.sender_pid s))
                    refl)
          ]
        ]
      ]
    where
      reports : List Effect
      reports =
          write_status_jobs env msg.sender_pid 1 (take (length s.running_queue) s.running_queue)
            (write_scheduled env s msg.sender_pid)
