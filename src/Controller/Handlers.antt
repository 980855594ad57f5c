-- ===== src/Controller/Handlers.antt =====
-- controller_handlers.c: the handlers that change the state. Each returns the new state and what it does
-- outside, in order.
use runner_orchestrator.Base.{
  ℕ, zero, suc, ◌+◌, ◌-◌, ◌*◌, ◌==◌, ltb, Bool, true, false, not, ◌&&◌, ◌||◌, if◌then◌else◌, List,
  [], ◌∷◌, ◌++◌, length, Option, none, some, ℤ, ◌-ℤ◌, ◌+ℤ◌, ◌*ℤ◌, quot_ℤ,
}
use runner_orchestrator.Protocol.{ack, shutdown_ack, RpcMessage, zeroed}
use runner_orchestrator.Scheduler.Job.{JobInfo, JobState, job_queued, job_running, Timeval}
use runner_orchestrator.Scheduler.Fair.{user_exists}
use runner_orchestrator.Scheduler.Jobs.{
  Taken, enqueue, dequeue, dequeue_random, dequeue_fair, remove_by_command_id,
}
use runner_orchestrator.Controller.Status.{same_text, is_fair_policy}
use runner_orchestrator.Controller.State.{ControllerState, Round, Env, Effect, send, log_line}

abbrev pub random_name : List ℕ
random_name = b'r' ∷ b'a' ∷ b'n' ∷ b'd' ∷ b'o' ∷ b'm' ∷ []

unfoldable pub send_ack_to_runner : Env → JobInfo → Effect
send_ack_to_runner env job = send job.runner_pid (record zeroed {
  type = ack;
  sender_pid = env.pid;
  user_id = job.user_id;
  command_id = job.command_id;
})

unfoldable pub send_shutdown_ack_to_runner : Env → RpcMessage → Effect
send_shutdown_ack_to_runner env msg = send msg.sender_pid (record zeroed {
  type = shutdown_ack;
  sender_pid = env.pid;
  user_id = msg.user_id;
  command_id = msg.command_id;
})

-- `realloc_ok`: whether `realloc` returned memory.
unfoldable pub remember_fair_user : (realloc_ok : Bool) → ControllerState → ℤ → ControllerState
remember_fair_user realloc_ok s user =
    if user_exists s.fair_users user
    then s
    else if length s.fair_users == s.fair_user_capacity
    then (if realloc_ok
        then record s {
          fair_users = s.fair_users ++ (user ∷ []);
          fair_user_capacity = if s.fair_user_capacity == 0 then 8 else s.fair_user_capacity * 2;
        }
        else s)
    else record s { fair_users = s.fair_users ++ (user ∷ []) }

-- What a removal from the waiting queue makes of the state.
abbrev pub leave_waiting : ControllerState → Taken → Option (JobInfo × ControllerState)
leave_waiting s none = none
leave_waiting s (some (job, rest)) = some (job, record s { waiting_queue = rest })

-- `queue_dequeue_fair` writes `last_scheduled_user` too.
abbrev pub leave_fairly : ControllerState → Taken → Option (JobInfo × ControllerState)
leave_fairly s none = none
leave_fairly s (some (job, rest)) =
    some (job, record s { waiting_queue = rest; last_scheduled_user = job.user_id })

-- The three branches on the policy.
unfoldable pub dequeue_by_policy : Round → ControllerState → Option (JobInfo × ControllerState)
unfolding is_fair_policy
dequeue_by_policy r s =
    if same_text s.policy random_name
    then leave_waiting s (dequeue_random r.rand s.waiting_queue)
    else if is_fair_policy s
    then leave_fairly s (dequeue_fair r.users_ok s.fair_users s.last_scheduled_user s.waiting_queue)
    else leave_waiting s (dequeue s.waiting_queue)

-- The rest of the loop's body: without memory for the node the job is dropped.
unfoldable pub start_job : Env → Round → ControllerState → JobInfo → ControllerState × List Effect
start_job env r s job =
    let next_job = record job { state = job_running } in
    if r.node_ok
    then (
      record s {
        running_queue = enqueue s.running_queue next_job;
        running_count = s.running_count + 1;
        last_scheduled_user = job.user_id;
      },
      send_ack_to_runner env next_job ∷ [],
    )
    else (s, [])

abbrev pub is_empty : List JobInfo → Bool
is_empty q = length q == 0

abbrev pub then_do : ControllerState × List Effect → List Effect → ControllerState × List Effect
then_do (s, later) earlier = (s, earlier ++ later)

-- The `while` loop with the rounds that are left; `i` counts those that were made.
unfoldable pub start_loop : Env → ℕ → ℕ → ControllerState → ControllerState × List Effect
start_loop env zero i s = (s, [])
start_loop env (suc k) i s =
    elim (ltb s.running_count s.parallel_limit && not (is_empty s.waiting_queue)) [
      | false ↦ (s, [])
      | true ↦ elim (dequeue_by_policy (env.rounds i) s) [
        | none ↦ (s, [])
        | some (job, s') ↦
            let (s'', sent) = start_job env (env.rounds i) s' job in
            then_do (start_loop env k (i + 1) s'') sent
      ]
    ]

-- Each round takes a job out, so there are at most as many as waiting jobs.
unfoldable pub start_waiting_jobs : Env → ControllerState → ControllerState × List Effect
start_waiting_jobs env s = start_loop env (length s.waiting_queue) 0 s

unfoldable pub submitted_job : Env → RpcMessage → JobState → JobInfo
submitted_job env msg state = record {
  command_id = msg.command_id;
  user_id = msg.user_id;
  state = state;
  runner_pid = msg.sender_pid;
  start_time = env.now;
}

-- `handle_submit` once the user is remembered.
unfoldable pub place_job : Env → ControllerState → RpcMessage → ControllerState × List Effect
unfolding submitted_job
place_job env s msg =
    let running = submitted_job env msg job_running in
    if ltb s.running_count s.parallel_limit
    then (if env.node_ok
        then (
          record s {
            running_queue = enqueue s.running_queue running;
            running_count = s.running_count + 1;
            last_scheduled_user = msg.user_id;
          },
          send_ack_to_runner env running ∷ [],
        )
        else (s, []))
    else if env.node_ok
    then (
      record s { waiting_queue = enqueue s.waiting_queue (submitted_job env msg job_queued) },
      [],
    )
    else (s, [])

unfoldable pub handle_submit : Env → ControllerState → RpcMessage → ControllerState × List Effect
unfolding place_job
handle_submit env s msg = place_job env (remember_fair_user env.realloc_ok s msg.user_id) msg

-- Milliseconds from the first time to the second.
unfoldable pub elapsed_ms : Timeval → Timeval → ℤ
elapsed_ms start end =
    (end.tv_sec -ℤ start.tv_sec) *ℤ 1000 +ℤ quot_ℤ (end.tv_usec -ℤ start.tv_usec) 1000

unfoldable pub log_finished_job : Env → JobInfo → List Effect
log_finished_job env job =
    if env.log_ok
    then log_line job.user_id job.command_id (elapsed_ms job.start_time env.now) ∷ []
    else []

-- The part of `handle_done` before `start_waiting_jobs`.
unfoldable pub finish_job : Env → ControllerState → RpcMessage → ControllerState × List Effect
finish_job env s msg = elim (remove_by_command_id msg.command_id s.running_queue) [
  | none ↦ (s, [])
  | some (finished, rest) ↦ (
    record s {
      running_queue = rest;
      running_count = if ltb 0 s.running_count then s.running_count - 1 else s.running_count;
    },
    log_finished_job env finished,
  )
]

unfoldable pub handle_done : Env → ControllerState → RpcMessage → ControllerState × List Effect
handle_done env s msg =
    let (s', logged) = finish_job env s msg in then_do (start_waiting_jobs env s') logged

unfoldable pub handle_shutdown_req : ControllerState → RpcMessage → ControllerState
handle_shutdown_req s msg = record s {
  is_shutting_down = true;
  shutdown_requester_pid = msg.sender_pid;
}

-- The last part is the returned flag: whether the main loop shall stop.
unfoldable pub try_finish_shutdown : ControllerState → ControllerState × List Effect × Bool
try_finish_shutdown s =
    if not s.is_shutting_down || not (s.running_count == 0) || not (is_empty s.waiting_queue)
    then (s, [], false)
    else (
      record s { keep_running = false },
      send s.shutdown_requester_pid (record zeroed { type = shutdown_ack }) ∷ [],
      true,
    )
