-- ===== src/Controller/Status.antt =====
-- controller_handlers.c: `handle_status_req`, the report on the queues. It has no part in the state.
pub mod Report
use runner_orchestrator.Base.{
  ℕ, zero, suc, ◌+◌, ◌/◌, ◌%◌, ltb, Bool, true, false, not, ◌&&◌, if◌then◌else◌, List, [], ◌∷◌,
  length, take, ℤ, pos, negsuc, ◌==◌,
}
use runner_orchestrator.Protocol.{RpcMessage, zeroed, status_resp, status_end}
use runner_orchestrator.Scheduler.Job.{JobInfo}
use runner_orchestrator.Scheduler.Preview.{queue_copy_fair_to_array}
use runner_orchestrator.Controller.State.{ControllerState, Env, Effect, written}

-- `strcmp(a, b) == 0`
unfoldable pub same_text : List ℕ → List ℕ → Bool
same_text [] [] = true
same_text [] (b ∷ bs) = false
same_text (a ∷ more) [] = false
same_text (a ∷ more) (b ∷ bs) = (a == b) && same_text more bs

abbrev pub fair_name : List ℕ
fair_name = b'f' ∷ b'a' ∷ b'i' ∷ b'r' ∷ []

unfoldable pub is_fair_policy : ControllerState → Bool
unfolding same_text
is_fair_policy s = same_text s.policy fair_name

-- The decimal digits of a number in front of `rest`; `n + 1` rounds are enough for `n`.
digits_before : ℕ → ℕ → List ℕ → List ℕ
digits_before zero n rest = rest
digits_before (suc k) n rest = elim (ltb n 10) [
  | true ↦ (n + 48) ∷ rest
  | false ↦ digits_before k (n / 10) ((n % 10 + 48) ∷ rest)
]

-- `%d` and `%ld`
unfoldable pub print_int : ℤ → List ℕ → List ℕ
unfolding digits_before
print_int (pos n) rest = digits_before (n + 1) n rest
print_int (negsuc n) rest = b'-' ∷ digits_before (n + 2) (n + 1) rest

-- "user-id %d - command-id %ld\n"
unfoldable pub status_line : JobInfo → List ℕ
unfolding print_int
status_line job =
    b'u'
    ∷ b's'
    ∷ b'e'
    ∷ b'r'
    ∷ b'-'
    ∷ b'i'
    ∷ b'd'
    ∷ b' '
    ∷ print_int job.user_id (
        b' '
        ∷ b'-'
        ∷ b' '
        ∷ b'c'
        ∷ b'o'
        ∷ b'm'
        ∷ b'm'
        ∷ b'a'
        ∷ b'n'
        ∷ b'd'
        ∷ b'-'
        ∷ b'i'
        ∷ b'd'
        ∷ b' '
        ∷ print_int job.command_id (10 ∷ []))

-- "---\nExecuting\n"
abbrev pub executing_text : List ℕ
executing_text =
    b'-' ∷ b'-' ∷ b'-' ∷ 10 ∷ b'E' ∷ b'x' ∷ b'e' ∷ b'c' ∷ b'u' ∷ b't' ∷ b'i' ∷ b'n' ∷ b'g' ∷ 10 ∷ []

-- "---\nScheduled\n"
abbrev pub scheduled_text : List ℕ
scheduled_text =
    b'-' ∷ b'-' ∷ b'-' ∷ 10 ∷ b'S' ∷ b'c' ∷ b'h' ∷ b'e' ∷ b'd' ∷ b'u' ∷ b'l' ∷ b'e' ∷ b'd' ∷ 10 ∷ []

abbrev pub status_message : Env → List ℕ → RpcMessage
status_message env text = record zeroed { type = status_resp; sender_pid = env.pid; payload = text }

abbrev pub end_message : Env → RpcMessage
end_message env = record zeroed { type = status_end; sender_pid = env.pid }

-- The `i`th `write`: what it did, and what follows if it succeeded.
abbrev pub write_status_message :
    Env → ℤ → (i : ℕ) → RpcMessage → (if_written otherwise : List Effect) → List Effect
write_status_message env runner i msg if_written otherwise =
    if env.status.write_ok i then written runner msg ∷ if_written else otherwise

-- The lines of the jobs, from the `i`th `write` on, and then what follows. A failed write ends the lines
-- alone; `next` is given the count of the writes that were tried.
unfoldable pub write_status_jobs :
    Env → ℤ → (i : ℕ) → List JobInfo → (next : ℕ → List Effect) → List Effect
write_status_jobs env runner i [] next = next i
write_status_jobs env runner i (job ∷ jobs) next = elim (env.status.write_ok i) [
  | true ↦
      written runner (status_message env (status_line job))
      ∷ write_status_jobs env runner (i + 1) jobs next
  | false ↦ next (i + 1)
]

-- The snapshot of the waiting queue.
unfoldable pub waiting_snapshot : Env → ControllerState → List JobInfo
unfolding is_fair_policy
waiting_snapshot env s =
    if is_fair_policy s
    then queue_copy_fair_to_array env.status.arrays_ok env.status.users_ok s.waiting_queue
        (length s.waiting_queue) s.last_scheduled_user s.fair_users
    else take (length s.waiting_queue) s.waiting_queue

-- What follows the lines of the running jobs, and what follows those of the waiting ones.
unfoldable pub write_end : Env → ℤ → ℕ → List Effect
write_end env runner i = write_status_message env runner i (end_message env) [] []

unfoldable pub write_scheduled : Env → ControllerState → ℤ → ℕ → List Effect
unfolding write_end write_status_jobs waiting_snapshot
write_scheduled env s runner i =
    write_status_message env runner i (status_message env scheduled_text)
      (write_status_jobs env runner (i + 1) (waiting_snapshot env s) (write_end env runner)) []

unfoldable pub handle_status_req : Env → ControllerState → RpcMessage → List Effect
unfolding write_scheduled
handle_status_req env s msg =
    if ltb 0 (length s.running_queue) && not env.status.run_ok
    then []
    else if ltb 0 (length s.waiting_queue) && not env.status.wait_ok
    then []
    else if not env.status.open_ok
    then []
    else write_status_message env msg.sender_pid 0 (status_message env executing_text)
        (write_status_jobs env msg.sender_pid 1 (take (length s.running_queue) s.running_queue)
          (write_scheduled env s msg.sender_pid))
        []
