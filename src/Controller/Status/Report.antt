-- ===== src/Controller/Status/Report.antt =====
-- What a requester of the status reads.
use runner_orchestrator.Base.{
  ℕ, ◌+◌, ◌≡◌, refl, ap, ◌∙◌, Bool, true, false, not, ◌&&◌, ltb, if◌then◌else◌, List, [], ◌∷◌, ◌++◌,
  length, map, take, take-length, ℤ, inl, inr, Bool-cases, arith,
}
use Prim.Native.Nat.{min}
use runner_orchestrator.Protocol.{RpcMessage}
use runner_orchestrator.Scheduler.Job.{JobInfo}
use runner_orchestrator.Scheduler.Preview.Slots.{NamesUsers}
use runner_orchestrator.Scheduler.Preview.Order.{queue_copy_fair_to_array-fair_order}
use runner_orchestrator.Scheduler.Jobs.FairOrder.{fair_order}
use runner_orchestrator.Controller.State.{ControllerState, Env, Effect, written}
use runner_orchestrator.Controller.Status.{
  status_line, executing_text, scheduled_text, status_message, end_message, write_status_jobs,
  waiting_snapshot, write_end, write_scheduled, handle_status_req, is_fair_policy,
}

-- Memory for the snapshots, and a FIFO that opens and takes every write.
pub record Answers (env : Env) : Type 0 where
  pub run : env.status.run_ok ≡ true
  pub wait : env.status.wait_ok ≡ true
  pub arrays : env.status.arrays_ok ≡ true
  pub users : (i : ℕ) → env.status.users_ok i ≡ true
  pub opens : env.status.open_ok ≡ true
  pub writes : (i : ℕ) → env.status.write_ok i ≡ true

-- One line for each job.
abbrev pub lines : Env → List JobInfo → List RpcMessage
lines env q = map (λ j. status_message env (status_line j)) q

-- The jobs that wait, in the order in which the policy would take them, if it has one.
abbrev pub expected : ControllerState → List JobInfo
expected s =
    if is_fair_policy s
    then fair_order (length s.waiting_queue) s.fair_users s.last_scheduled_user s.waiting_queue
    else s.waiting_queue

module _ (env : Env) (a : Answers env) (runner : ℤ) where
  write_status_jobs-lines :
      (i : ℕ) (q : List JobInfo) (next : ℕ → List Effect) (rest : List Effect)
      → ((k : ℕ) → next k ≡ rest)
      → write_status_jobs env runner i q next ≡ map (written runner) (lines env q) ++ rest
  unfolding write_status_jobs
  write_status_jobs-lines i [] next rest same = same i
  write_status_jobs-lines i (j ∷ q) next rest same =
      rw (a.writes i, write_status_jobs)
        (ap (λ l. written runner (status_message env (status_line j)) ∷ l)
          (write_status_jobs-lines (i + 1) q next rest same))

  write_scheduled-lines :
      (s : ControllerState) (k : ℕ)
      → write_scheduled env s runner k
        ≡ written runner (status_message env scheduled_text)
          ∷ (map (written runner) (lines env (waiting_snapshot env s))
              ++ (written runner (end_message env) ∷ []))
  unfolding write_scheduled write_end
  write_scheduled-lines s k = rw (a.writes k) (
      ap (λ l. written runner (status_message env scheduled_text) ∷ l)
        (write_status_jobs-lines (k + 1) (waiting_snapshot env s) (write_end env runner) _
          (λ i. rw (a.writes i) refl)))

min_same : (n : ℕ) → min n n ≡ n
min_same n = omega arith

waiting_snapshot-expected :
    (env : Env) (s : ControllerState)
    → Answers env
    → NamesUsers s.waiting_queue
    → waiting_snapshot env s ≡ expected s
unfolding waiting_snapshot
waiting_snapshot-expected env s a named = elim (Bool-cases (is_fair_policy s)) [
  | inl fair ↦
      rw (fair, a.arrays)
        (queue_copy_fair_to_array-fair_order env.status.users_ok s.waiting_queue
            (length s.waiting_queue) s.last_scheduled_user s.fair_users a.users named
          ∙ ap (λ n. fair_order n s.fair_users s.last_scheduled_user s.waiting_queue)
              (min_same (length s.waiting_queue)))
  | inr other ↦ rw other (take-length s.waiting_queue)
]

and_not : (b c : Bool) → c ≡ true → (b && not c) ≡ false
and_not true c h = ap not h
and_not false c h = refl

handle_status_req-opened :
    (env : Env) (s : ControllerState) (msg : RpcMessage)
    → Answers env
    → handle_status_req env s msg
      ≡ written msg.sender_pid (status_message env executing_text)
        ∷ write_status_jobs env msg.sender_pid 1
            (take (length s.running_queue) s.running_queue)
            (write_scheduled env s msg.sender_pid)
unfolding handle_status_req
handle_status_req-opened env s msg a =
    rw
      (
        and_not (ltb 0 (length s.running_queue)) _ a.run,
        and_not (ltb 0 (length s.waiting_queue)) _ a.wait,
        a.opens,
        a.writes 0,
      )
      refl

-- Given memory, a FIFO that takes every write, and no waiting job of user -1, the requester of the status is
-- written, in this order: the heading of the running jobs, a line for each of them in the order of their
-- queue, the heading of the waiting jobs, a line for each of them, and the end; the waiting jobs come in the
-- order in which the fair policy would take them if it is named, and else in the order of their queue.
pub handle_status_req-lines :
    (env : Env) (s : ControllerState) (msg : RpcMessage)
    → Answers env
    → NamesUsers s.waiting_queue
    → handle_status_req env s msg
      ≡ written msg.sender_pid (status_message env executing_text)
        ∷ (map (written msg.sender_pid) (lines env s.running_queue)
            ++ (written msg.sender_pid (status_message env scheduled_text)
                ∷ (map (written msg.sender_pid) (lines env (expected s))
                    ++ (written msg.sender_pid (end_message env) ∷ []))))
handle_status_req-lines env s msg a named =
    handle_status_req-opened env s msg a
    ∙ ap (λ l. written msg.sender_pid (status_message env executing_text) ∷ l)
        (write_status_jobs-lines env a msg.sender_pid 1
            (take (length s.running_queue) s.running_queue) _ _
            (write_scheduled-lines env a msg.sender_pid s)
          ∙ rw (take-length s.running_queue, waiting_snapshot-expected env s a named) refl)
