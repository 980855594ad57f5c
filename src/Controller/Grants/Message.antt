-- ===== src/Controller/Grants/Message.antt =====
-- The ACKs that the controller sends for a message (controller_handlers.c), against its running queue.
use runner_orchestrator.Base.{
  ℕ, ◌+◌, ◌≡◌, refl, sym, ap, ◌∙◌, inl, inr, Bool, true, false, Bool-cases, not, ◌&&◌, ◌||◌, ltb,
  ◌==◌, if◌then◌else◌, List, [], ◌∷◌, ◌++◌, map, ℤ, arith,
}
use runner_orchestrator.Protocol.{RpcMessage, MsgType, submit, done, status_req}
use runner_orchestrator.Scheduler.Job.{JobInfo, job_running}
use runner_orchestrator.Scheduler.Jobs.{enqueue, remove_by_command_id}
use runner_orchestrator.Scheduler.Jobs.Laws.{remove_first-TakesOut}
use runner_orchestrator.Controller.State.{ControllerState, Env}
use runner_orchestrator.Controller.Handlers.{
  submitted_job, remember_fair_user, handle_submit, place_job, finish_job, handle_done,
  log_finished_job, start_waiting_jobs, handle_shutdown_req, try_finish_shutdown, is_empty,
  send_ack_to_runner, send_shutdown_ack_to_runner,
}
use runner_orchestrator.Controller.Messages.{dispatch, controller_handle_message, is_submit}
use runner_orchestrator.Controller.Invariant.Keep.{remember_fair_user-rest}
use runner_orchestrator.Controller.Order.Acks.{start_waiting_jobs-Started}
use runner_orchestrator.Controller.Conservation.{
  count_of, count_of-same, count_in-missing, count_in-middle, count_in, is_running, is_done,
}
use runner_orchestrator.Controller.Grants.{granted, weigh, granted-append, weigh-append}
use runner_orchestrator.Controller.Grants.Report.{handle_status_req-granted}

module _ (w : ℤ → ℕ) where
  granted-acks :
      (env : Env) (jobs : List JobInfo)
      → granted w (map (send_ack_to_runner env) jobs) ≡ weigh w jobs
  unfolding granted weigh send_ack_to_runner
  granted-acks env [] = refl
  granted-acks env (j ∷ jobs) = omega (arith, granted-acks env jobs)

  start_waiting_jobs-granted :
      (env : Env) (s : ControllerState)
      → granted w (start_waiting_jobs env s).1 + weigh w s.running_queue
        ≡ weigh w (start_waiting_jobs env s).0.running_queue
  start_waiting_jobs-granted env s =
      let t = start_waiting_jobs-Started env s in
      omega (
        arith,
        ap (granted w) t.told,
        granted-acks env t.jobs,
        ap (weigh w) t.queued,
        weigh-append w s.running_queue t.jobs,
      )

  -- What a DONE takes out of the running queue.
  abbrev pub released : ControllerState → RpcMessage → ℕ
  released s msg = if is_done msg.type && is_running msg.command_id s then w msg.command_id else 0

  log_finished_job-granted : (env : Env) (job : JobInfo) → granted w (log_finished_job env job) ≡ 0
  unfolding log_finished_job granted
  log_finished_job-granted env job = elim (Bool-cases env.log_ok) [
    | inl ok ↦ rw ok refl
    | inr failed ↦ rw failed refl
  ]

  weigh-middle :
      (xs : List JobInfo) (j : JobInfo) (ys : List JobInfo)
      → weigh w (xs ++ (j ∷ ys)) ≡ w j.command_id + weigh w (xs ++ ys)
  unfolding weigh
  weigh-middle xs j ys = omega (arith, weigh-append w xs (j ∷ ys), weigh-append w xs ys)

  finish_job-granted :
      (env : Env) (s : ControllerState) (msg : RpcMessage)
      → (granted w (finish_job env s msg).1 ≡ 0)
        × (weigh w s.running_queue
            ≡ weigh w (finish_job env s msg).0.running_queue
              + (if is_running msg.command_id s then w msg.command_id else 0))
  unfolding finish_job remove_by_command_id granted
  finish_job-granted env s msg =
      elim (remove_first-TakesOut (λ j. j.command_id) msg.command_id s.running_queue) [
        | inl (t, found, first) ↦
            let all = ap (weigh w) t.split ∙ weigh-middle t.before t.taken t.after in
            let one =
              ap (count_in msg.command_id) t.split
              ∙ count_in-middle msg.command_id t.before t.taken t.after
              ∙ ap (λ v. count_of msg.command_id v + count_in msg.command_id (t.before ++ t.after))
                  found in
            rw (t.result, finish_job)
              (
                log_finished_job-granted env t.taken,
                ground (arith, all, one, ap w found, count_of-same msg.command_id),
              )
        | inr (missing, absent) ↦
            rw (missing, finish_job)
              (refl, ground (arith, count_in-missing msg.command_id s.running_queue absent))
      ]

  place_job-granted :
      (env : Env) (s : ControllerState) (msg : RpcMessage)
      → granted w (place_job env s msg).1 + weigh w s.running_queue
        ≡ weigh w (place_job env s msg).0.running_queue
  unfolding place_job enqueue submitted_job granted weigh send_ack_to_runner
  place_job-granted env s msg = elim (Bool-cases (ltb s.running_count s.parallel_limit)) [
    | inl free ↦ elim (Bool-cases env.node_ok) [
      | inl ok ↦
          rw (free, ok)
            (omega (arith, weigh-append w s.running_queue (submitted_job env msg job_running ∷ [])))
      | inr failed ↦ rw (free, failed) (omega arith)
    ]
    | inr full ↦ elim (Bool-cases env.node_ok) [
      | inl ok ↦ rw (full, ok) (omega arith)
      | inr failed ↦ rw (full, failed) (omega arith)
    ]
  ]

  handle_submit-granted :
      (env : Env) (s : ControllerState) (msg : RpcMessage)
      → granted w (handle_submit env s msg).1 + weigh w s.running_queue
        ≡ weigh w (handle_submit env s msg).0.running_queue
  unfolding handle_submit
  handle_submit-granted env s msg =
      ap (λ t. granted w (handle_submit env s msg).1 + weigh w t.running_queue)
        (sym (remember_fair_user-rest env.realloc_ok s msg.user_id))
      ∙ place_job-granted env (remember_fair_user env.realloc_ok s msg.user_id) msg

  handle_done-granted :
      (env : Env) (s : ControllerState) (msg : RpcMessage)
      → granted w (handle_done env s msg).1 + weigh w s.running_queue
        ≡ weigh w (handle_done env s msg).0.running_queue
          + (if is_running msg.command_id s then w msg.command_id else 0)
  unfolding handle_done
  handle_done-granted env s msg =
      let (logged, left) = finish_job-granted env s msg in
      omega (
        arith,
        logged,
        left,
        start_waiting_jobs-granted env (finish_job env s msg).0,
        granted-append w (finish_job env s msg).1
            (start_waiting_jobs env (finish_job env s msg).0).1,
      )

  try_finish_shutdown-granted :
      (s : ControllerState)
      → (granted w (try_finish_shutdown s).1 ≡ 0)
        × ((try_finish_shutdown s).0.running_queue ≡ s.running_queue)
  unfolding try_finish_shutdown granted
  try_finish_shutdown-granted s =
      elim (Bool-cases
        (not s.is_shutting_down || not (s.running_count == 0) || not (is_empty s.waiting_queue))) [
          | inl stay ↦ rw stay (refl, refl)
          | inr stop ↦ rw stop (refl, refl)
        ]

  dispatch-granted :
      (env : Env) (s : ControllerState) (msg : RpcMessage) (type : MsgType)
      → granted w (dispatch env s msg type).1 + weigh w s.running_queue
        ≡ weigh w (dispatch env s msg type).0.running_queue
          + (if is_done type && is_running msg.command_id s then w msg.command_id else 0)
  unfolding dispatch handle_shutdown_req granted
  dispatch-granted env s msg submit = omega (arith, handle_submit-granted env s msg)
  dispatch-granted env s msg done = handle_done-granted env s msg
  dispatch-granted env s msg status_req = omega (arith, handle_status_req-granted w env s msg)
  dispatch-granted env s msg other = omega arith

  done_of_submit :
      (type : MsgType) (b c : Bool) → (is_submit type && b) ≡ true → (is_done type && c) ≡ false
  done_of_submit submit b c h = refl
  done_of_submit other b c h = cc

  refused-granted :
      (env : Env) (s : ControllerState) (msg : RpcMessage)
      → (is_submit msg.type && s.is_shutting_down) ≡ true
      → granted w (send_shutdown_ack_to_runner env msg ∷ []) + weigh w s.running_queue
        ≡ weigh w s.running_queue + released s msg
  unfolding granted send_shutdown_ack_to_runner
  refused-granted env s msg h =
      rw (done_of_submit msg.type s.is_shutting_down (is_running msg.command_id s) h) (omega arith)

  -- Give each identifier a weight. Whatever message comes and whichever calls fail, the ACKs that the controller
  -- sends weigh what its running queue gains: the queue after the message, and the job that a DONE took out of
  -- it, weigh as much as the queue before and the ACKs.
  pub controller_handle_message-granted :
      (env : Env) (s : ControllerState) (msg : RpcMessage)
      → granted w (controller_handle_message env s msg).1 + weigh w s.running_queue
        ≡ weigh w (controller_handle_message env s msg).0.running_queue + released s msg
  unfolding controller_handle_message
  controller_handle_message-granted env s msg =
      elim (Bool-cases (is_submit msg.type && s.is_shutting_down)) [
        | inl refused ↦ rw refused (refused-granted env s msg refused)
        | inr accepted ↦
            let (told, same) = try_finish_shutdown-granted (dispatch env s msg msg.type).0 in
            rw accepted (
              omega (
                arith,
                told,
                ap (weigh w) same,
                dispatch-granted env s msg msg.type,
                granted-append w (dispatch env s msg msg.type).1
                    (try_finish_shutdown (dispatch env s msg msg.type).0).1,
              ))
      ]
