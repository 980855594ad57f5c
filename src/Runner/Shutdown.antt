-- ===== src/Runner/Shutdown.antt =====
-- `runner -s` of runner_cli.c together with the controller: what reaches the runner that asked for the end.
pub mod Answer
use runner_orchestrator.Base.{
  ℕ, zero, suc, ◌+◌, ◌≡◌, refl, ◌∙◌, ap, Bool, true, false, Bool-cases, ◌&&◌, List, [], ◌∷◌, ◌++◌,
  length, Option, Option-cases, none, some, inl, inr, ℤ, ℤ_discrete, if_pos, if_neg, if◌then◌else◌,
  not, ltb, take, subst,
}
use runner_orchestrator.Protocol.{MsgType, RpcMessage}
use runner_orchestrator.Scheduler.Job.{JobInfo, job_running}
use runner_orchestrator.Scheduler.Jobs.{remove_by_command_id}
use runner_orchestrator.Controller.State.{
  ControllerState, Env, Round, Effect, send, written, log_line,
}
use runner_orchestrator.Controller.Status.{
  write_status_jobs, write_end, write_scheduled, handle_status_req, waiting_snapshot,
  status_message, scheduled_text, executing_text, end_message,
}
use runner_orchestrator.Controller.Handlers.{
  start_job, start_loop, start_waiting_jobs, finish_job, handle_done, send_ack_to_runner,
  log_finished_job, then_do,
}
use runner_orchestrator.Controller.Invariant.Start.{
  Leaves, dequeue_by_policy-Leaves, left_by, start_cases, start_loop-stop, start_loop-step,
}
use runner_orchestrator.Runner.Report.{delivered}

-- Whom an effect is not for.
abbrev pub Spares : ℤ → Effect → Type 0
Spares p (send to msg) = ¬ (to ≡ p)
Spares p (written to msg) = ¬ (to ≡ p)
Spares p (log_line user_id command_id elapsed_ms) = Unit {0}

abbrev pub AllSpare : ℤ → List Effect → Type 0
AllSpare p [] = Unit {0}
AllSpare p (e ∷ effects) = Spares p e × AllSpare p effects

-- No job of the list is of the runner.
abbrev pub Strangers : ℤ → List JobInfo → Type 0
Strangers p [] = Unit {0}
Strangers p (j ∷ q) = ¬ (j.runner_pid ≡ p) × Strangers p q

module _ (p : ℤ) where
  pub AllSpare-append :
      (xs ys : List Effect) → AllSpare p xs → AllSpare p ys → AllSpare p (xs ++ ys)
  AllSpare-append [] ys a b = b
  AllSpare-append (x ∷ xs) ys (h, a) b = (h, AllSpare-append xs ys a b)

  if-AllSpare :
      (b : Bool) (xs ys : List Effect)
      → AllSpare p xs
      → AllSpare p ys
      → AllSpare p (if b then xs else ys)
  if-AllSpare true xs ys a b = a
  if-AllSpare false xs ys a b = b

  pub delivered-AllSpare :
      (xs ys : List Effect) → AllSpare p xs → delivered p (xs ++ ys) ≡ delivered p ys
  unfolding delivered
  delivered-AllSpare [] ys a = refl
  delivered-AllSpare (send to msg ∷ xs) ys (h, a) =
      if_neg (ℤ_discrete to p) h _ _ ∙ delivered-AllSpare xs ys a
  delivered-AllSpare (written to msg ∷ xs) ys (h, a) =
      if_neg (ℤ_discrete to p) h _ _ ∙ delivered-AllSpare xs ys a
  delivered-AllSpare (log_line u c e ∷ xs) ys (h, a) = delivered-AllSpare xs ys a

  Strangers-without :
      (xs : List JobInfo) (j : JobInfo) (ys : List JobInfo)
      → Strangers p (xs ++ (j ∷ ys))
      → ¬ (j.runner_pid ≡ p) × Strangers p (xs ++ ys)
  Strangers-without [] j ys s = s
  Strangers-without (x ∷ xs) j ys (h, s) =
      let (out, rest) = Strangers-without xs j ys s in (out, (h, rest))

  -- The runner waits for the end of a controller that has none of its jobs in its waiting queue.
  pub record Waits (s : ControllerState) : Type 0 where
    pub down : s.is_shutting_down ≡ true
    pub requester : s.shutdown_requester_pid ≡ p
    pub on : s.keep_running ≡ true
    pub strangers : Strangers p s.waiting_queue

  -- A step of the controller that tells the runner nothing.
  abbrev pub Silent : ControllerState × List Effect → Type 0
  Silent (s, effects) = Waits s × AllSpare p effects

  start_job-Silent :
      (env : Env) (r : Round) (s : ControllerState) (job : JobInfo)
      → ¬ (job.runner_pid ≡ p)
      → Waits s
      → Silent (start_job env r s job)
  unfolding start_job send_ack_to_runner
  start_job-Silent env r s job other w = elim (Bool-cases r.node_ok) [
    | inl room ↦ rw room (
      record { down = w.down; requester = w.requester; on = w.on; strangers = w.strangers },
      (other, tt),
    )
    | inr full ↦ rw full (w, tt)
  ]

  start_loop-Silent :
      (env : Env) (k i : ℕ) (s : ControllerState) → Waits s → Silent (start_loop env k i s)
  start_loop-Silent env zero i s w = unfold start_loop in (w, tt)
  start_loop-Silent env (suc k) i s w = elim (start_cases s) [
    | inl (stop, _) ↦ rw (start_loop-stop env (suc k) i s stop) (w, tt)
    | inr (go, free, j, q, e) ↦
        let l = dequeue_by_policy-Leaves (env.rounds i) s j q e in
        let (other, rest) =
          Strangers-without l.before l.job l.after (subst (Strangers p) (l.split) (w.strangers)) in
        let left : Waits (left_by s l) = record {
          down = w.down;
          requester = w.requester;
          on = w.on;
          strangers = rest;
        } in
        let (w1, spared) = start_job-Silent env (env.rounds i) (left_by s l) l.job other left in
        let (w2, later) =
          start_loop-Silent env k (i + 1) (start_job env (env.rounds i) (left_by s l) l.job).0 w1 in
        rw (start_loop-step env k i s go l) (w2, AllSpare-append _ _ spared later)
  ]

  finish_job-Silent :
      (env : Env) (s : ControllerState) (msg : RpcMessage) → Waits s → Silent (finish_job env s msg)
  unfolding finish_job log_finished_job
  finish_job-Silent env s msg w =
      elim (Option-cases (remove_by_command_id msg.command_id s.running_queue)) [
        | inl missing ↦ rw (missing, finish_job) (w, tt)
        | inr ((job, rest), e) ↦ elim (Bool-cases env.log_ok) [
          | inl ok ↦
              rw (e, ok, finish_job, log_finished_job)
                (
                  record {
                    down = w.down;
                    requester = w.requester;
                    on = w.on;
                    strangers = w.strangers;
                  },
                  (tt, tt),
                )
          | inr failed ↦
              rw (e, failed, finish_job, log_finished_job)
                (
                  record {
                    down = w.down;
                    requester = w.requester;
                    on = w.on;
                    strangers = w.strangers;
                  },
                  tt,
                )
        ]
      ]

  pub handle_done-Silent :
      (env : Env) (s : ControllerState) (msg : RpcMessage)
      → Waits s
      → Silent (handle_done env s msg)
  unfolding handle_done start_waiting_jobs
  handle_done-Silent env s msg w =
      let (w1, logged) = finish_job-Silent env s msg w in
      let t = (finish_job env s msg).0 in
      let (w2, later) = start_loop-Silent env (length t.waiting_queue) 0 t w1 in
      (w2, AllSpare-append _ _ logged later)

  module _ (env : Env) (to : ℤ) (other : ¬ (to ≡ p)) where
    write_status_jobs-AllSpare :
        (i : ℕ) (jobs : List JobInfo) (next : ℕ → List Effect)
        → ((j : ℕ) → AllSpare p (next j))
        → AllSpare p (write_status_jobs env to i jobs next)
    unfolding write_status_jobs
    write_status_jobs-AllSpare i [] next spared = spared i
    write_status_jobs-AllSpare i (job ∷ jobs) next spared =
        elim (Bool-cases (env.status.write_ok i)) [
          | inl ok ↦
              rw (ok, write_status_jobs)
                (other, write_status_jobs-AllSpare (i + 1) jobs next spared)
          | inr failed ↦ rw (failed, write_status_jobs) (spared (i + 1))
        ]

    write_end-AllSpare : (i : ℕ) → AllSpare p (write_end env to i)
    unfolding write_end
    write_end-AllSpare i = if-AllSpare (env.status.write_ok i) _ [] (other, tt) tt

    write_scheduled-AllSpare :
        (s : ControllerState) (i : ℕ) → AllSpare p (write_scheduled env s to i)
    unfolding write_scheduled
    write_scheduled-AllSpare s i =
        if-AllSpare (env.status.write_ok i) _ []
          (
            other,
            write_status_jobs-AllSpare (i + 1) (waiting_snapshot env s) (write_end env to)
                write_end-AllSpare,
          )
          tt

  pub handle_status_req-AllSpare :
      (env : Env) (s : ControllerState) (msg : RpcMessage)
      → ¬ (msg.sender_pid ≡ p)
      → AllSpare p (handle_status_req env s msg)
  unfolding handle_status_req
  handle_status_req-AllSpare env s msg other =
      let report : List Effect =
        written msg.sender_pid (status_message env executing_text)
        ∷ write_status_jobs env msg.sender_pid 1 (take (length s.running_queue) s.running_queue)
            (write_scheduled env s msg.sender_pid) in
      let spared : AllSpare p report = (
        other,
        write_status_jobs-AllSpare env msg.sender_pid other 1
            (take (length s.running_queue) s.running_queue) (write_scheduled env s msg.sender_pid)
            (write_scheduled-AllSpare env msg.sender_pid other s),
      ) in
      let begun : List Effect = if env.status.write_ok 0 then report else [] in
      let opened : List Effect = if not env.status.open_ok then [] else begun in
      let both : List Effect =
        if ltb 0 (length s.waiting_queue) && not env.status.wait_ok then [] else opened in
      if-AllSpare (ltb 0 (length s.running_queue) && not env.status.run_ok) [] both tt (
        if-AllSpare (ltb 0 (length s.waiting_queue) && not env.status.wait_ok) [] opened tt (
          if-AllSpare (not env.status.open_ok) [] begun tt
            (if-AllSpare (env.status.write_ok 0) report [] spared tt)))

  pub delivered-append :
      (xs ys : List Effect) → delivered p (xs ++ ys) ≡ delivered p xs ++ delivered p ys
  unfolding delivered
  delivered-append [] ys = refl
  delivered-append (send to msg ∷ xs) ys = elim (ℤ_discrete to p) [
    | yes same ↦ rw (if_pos _ same, if_pos _ same) (ap (λ l. msg ∷ l) (delivered-append xs ys))
    | no other ↦ rw (if_neg _ other, if_neg _ other) (delivered-append xs ys)
  ]
  delivered-append (written to msg ∷ xs) ys = elim (ℤ_discrete to p) [
    | yes same ↦ rw (if_pos _ same, if_pos _ same) (ap (λ l. msg ∷ l) (delivered-append xs ys))
    | no other ↦ rw (if_neg _ other, if_neg _ other) (delivered-append xs ys)
  ]
  delivered-append (log_line u c e ∷ xs) ys = delivered-append xs ys
