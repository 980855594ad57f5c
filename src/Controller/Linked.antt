-- ===== src/Controller/Linked.antt =====
-- controller_handlers.c on the heap: the handlers with the two queues as pointers to linked nodes, and
-- `malloc` for each new node. Controller/Handlers.antt has the same handlers with the lists of the jobs.
pub mod Two
pub mod Operations
pub mod Views
pub mod Steps
pub mod Finish
pub mod Answers
pub mod Loop
pub mod Dispatch
pub mod Messages
use runner_orchestrator.Base.{
  ℕ, zero, suc, ◌+◌, ◌-◌, ◌==◌, ltb, Bool, true, false, not, ◌&&◌, ◌||◌, if◌then◌else◌, List, [],
  ◌∷◌, ◌++◌, Option, none, some, ℤ,
}
use runner_orchestrator.Protocol.{
  MsgType, submit, done, status_req, shutdown_req, shutdown_ack, RpcMessage, zeroed,
}
use runner_orchestrator.Store.{Addr, null, Heap, Prog, endless, pure, ◌>>=◌, ◌>>◌}
use runner_orchestrator.Scheduler.Job.{JobInfo, job_queued, job_running}
use runner_orchestrator.Scheduler.Queue.{
  QueuePtr, queue_create, queue_destroy, queue_enqueue, queue_dequeue, queue_dequeue_random,
  queue_dequeue_fair, queue_remove_by_command_id, queue_is_empty, queue_get_size,
  queue_copy_to_array,
}
use runner_orchestrator.Controller.State.{ControllerState, Env, Round, Effect, send}
use runner_orchestrator.Controller.Status.{same_text, is_fair_policy, handle_status_req}
use runner_orchestrator.Controller.Handlers.{
  random_name, remember_fair_user, submitted_job, send_ack_to_runner, send_shutdown_ack_to_runner,
  log_finished_job,
}
use runner_orchestrator.Controller.Messages.{is_submit}

-- The struct, with the pointers to the queues.
pub record PointerState : Type 0 where
  pub parallel_limit : ℕ
  pub running_count : ℕ
  pub keep_running : Bool
  pub is_shutting_down : Bool
  pub shutdown_requester_pid : ℤ
  pub last_scheduled_user : ℤ
  pub fair_users : List ℤ
  pub fair_user_capacity : ℕ
  pub waiting_queue : QueuePtr
  pub running_queue : QueuePtr
  pub policy : List ℕ

-- The same struct with lists for the queues.
abbrev pub view : PointerState → (waiting running : List JobInfo) → ControllerState
view s waiting running = record {
  parallel_limit = s.parallel_limit;
  running_count = s.running_count;
  keep_running = s.keep_running;
  is_shutting_down = s.is_shutting_down;
  shutdown_requester_pid = s.shutdown_requester_pid;
  last_scheduled_user = s.last_scheduled_user;
  fair_users = s.fair_users;
  fair_user_capacity = s.fair_user_capacity;
  waiting_queue = waiting;
  running_queue = running;
  policy = s.policy;
}

-- What `malloc` returns for the node of the `i`th round, or of the submission, by what is in use then.
abbrev pub Malloc : Type 0
Malloc = ℕ → Heap → Addr

-- `remember_fair_user` does not look at the queues.
unfoldable pub remember_user_heap : Bool → PointerState → ℤ → PointerState
remember_user_heap realloc_ok s user =
    let now = remember_fair_user realloc_ok (view s [] []) user in
    record s { fair_users = now.fair_users; fair_user_capacity = now.fair_user_capacity }

-- The job that leaves the waiting queue, if one does, and the state.
abbrev pub TakenFrom : Type 0
TakenFrom = Option JobInfo × PointerState

unfoldable pub dequeue_by_policy_heap : Round → PointerState → Prog TakenFrom
dequeue_by_policy_heap r s =
    if same_text s.policy random_name
    then (queue_dequeue_random r.rand s.waiting_queue >>= λ (job, q).
        pure (job, record s { waiting_queue = q }))
    else if is_fair_policy (view s [] [])
    then (queue_dequeue_fair r.users_ok s.waiting_queue s.fair_users s.last_scheduled_user
        >>= λ ((job, q), last).
            pure (job, record s { waiting_queue = q; last_scheduled_user = last }))
    else (queue_dequeue s.waiting_queue >>= λ (job, q). pure (job, record s { waiting_queue = q }))

-- What `start_waiting_jobs` and `handle_submit` do once the job's node is, or is not, in the running queue.
abbrev pub started :
    Env → PointerState → JobInfo → Bool × QueuePtr → Prog (PointerState × List Effect)
started env s job (true, q) = pure (
  record s {
    running_queue = q;
    running_count = s.running_count + 1;
    last_scheduled_user = job.user_id;
  },
  send_ack_to_runner env job ∷ [],
)
started env s job (false, q) = pure (record s { running_queue = q }, [])

unfoldable pub start_job_heap :
    Env → Malloc → ℕ → PointerState → JobInfo → Prog (PointerState × List Effect)
start_job_heap env malloc i s job h =
    let next_job = record job { state = job_running } in
    (queue_enqueue (malloc i h) s.running_queue next_job >>= started env s next_job) h

-- The state, what was done outside, and what `malloc` answered in the rounds. The answers are no part of the
-- program: they are noted for the comparison with Controller/Handlers.antt.
abbrev pub Rounds : Type 0
Rounds = PointerState × List Effect × (ℕ → Bool)

-- The answer of a round, and those of the others.
abbrev pub answer_at : ℕ → Bool → (ℕ → Bool) → ℕ → Bool
answer_at i ok a j = if j == i then ok else a j

-- The answers of the environment, for the rounds that are not made.
abbrev pub unasked : Env → ℕ → Bool
unasked env i = (env.rounds i).node_ok

abbrev pub and_round : ℕ → Bool → List Effect → Rounds → Prog Rounds
and_round i ok earlier (s, later, a) = pure (s, earlier ++ later, answer_at i ok a)

-- The `while` loop, with the rounds that are left.
unfoldable pub start_loop_heap : Env → Malloc → ℕ → ℕ → PointerState → Prog Rounds
start_loop_heap env malloc zero i s = λ h. endless
start_loop_heap env malloc (suc k) i s =
    elim (ltb s.running_count s.parallel_limit && not (queue_is_empty s.waiting_queue)) [
      | false ↦ pure (s, [], unasked env)
      | true ↦ dequeue_by_policy_heap (env.rounds i) s >>= λ (taken, s1). elim taken [
        | none ↦ pure (s1, [], unasked env)
        | some job ↦ λ h.
            (start_job_heap env malloc i s1 job >>= λ (s2, sent).
            (start_loop_heap env malloc k (i + 1) s2
              >>= and_round i (not (malloc i h == null)) sent))
              h
      ]
    ]

unfoldable pub start_waiting_jobs_heap : Env → Malloc → PointerState → Prog Rounds
start_waiting_jobs_heap env malloc s =
    start_loop_heap env malloc (queue_get_size s.waiting_queue + 1) 0 s

-- What a handler makes of the state and does outside, and what `malloc` answered: for the node of a
-- submission, and in the rounds.
abbrev pub Handled : Type 0
Handled = PointerState × List Effect × Bool × (ℕ → Bool)

unfoldable pub place_job_heap :
    Env → Malloc → PointerState → RpcMessage → Prog (PointerState × List Effect)
place_job_heap env malloc s msg h =
    if ltb s.running_count s.parallel_limit
    then (let job = submitted_job env msg job_running in
        (queue_enqueue (malloc 0 h) s.running_queue job >>= started env s job) h)
    else ((queue_enqueue (malloc 0 h) s.waiting_queue (submitted_job env msg job_queued)
          >>= λ (ok, q). pure (record s { waiting_queue = q }, []))
        h)

unfoldable pub handle_submit_heap : Env → Malloc → PointerState → RpcMessage → Prog Handled
handle_submit_heap env malloc s msg h =
    (place_job_heap env malloc (remember_user_heap env.realloc_ok s msg.user_id) msg
        >>= λ (s1, sent). pure (s1, sent, not (malloc 0 h == null), unasked env))
      h

-- The part of `handle_done` before `start_waiting_jobs`, once the removal is made.
abbrev pub finished_heap :
    Env → PointerState → Option JobInfo × QueuePtr → Prog (PointerState × List Effect)
finished_heap env s (none, q) = pure (record s { running_queue = q }, [])
finished_heap env s (some job, q) = pure (
  record s {
    running_queue = q;
    running_count = if ltb 0 s.running_count then s.running_count - 1 else s.running_count;
  },
  log_finished_job env job,
)

unfoldable pub finish_job_heap : Env → PointerState → RpcMessage → Prog (PointerState × List Effect)
finish_job_heap env s msg =
    queue_remove_by_command_id s.running_queue msg.command_id >>= finished_heap env s

unfoldable pub handle_done_heap : Env → Malloc → PointerState → RpcMessage → Prog Handled
handle_done_heap env malloc s msg = finish_job_heap env s msg >>= λ (s1, logged).
    (start_waiting_jobs_heap env malloc s1 >>= λ (s2, later, a).
    pure (s2, logged ++ later, env.node_ok, a))

-- The report is made of the jobs that the snapshots hold. `queue_copy_fair_to_array` reads the nodes in the
-- same order; which it then copies is said with the report.
unfoldable pub handle_status_req_heap : Env → PointerState → RpcMessage → Prog Handled
handle_status_req_heap env s msg = do
  running ← queue_copy_to_array s.running_queue (queue_get_size s.running_queue)
  waiting ← queue_copy_to_array s.waiting_queue (queue_get_size s.waiting_queue)
  pure (s, handle_status_req env (view s waiting running) msg, env.node_ok, unasked env)

unfoldable pub dispatch_heap : Env → Malloc → PointerState → RpcMessage → MsgType → Prog Handled
dispatch_heap env malloc s msg submit = handle_submit_heap env malloc s msg
dispatch_heap env malloc s msg done = handle_done_heap env malloc s msg
dispatch_heap env malloc s msg status_req = handle_status_req_heap env s msg
dispatch_heap env malloc s msg shutdown_req = pure (
  record s { is_shutting_down = true; shutdown_requester_pid = msg.sender_pid },
  [],
  env.node_ok,
  unasked env,
)
dispatch_heap env malloc s msg other = pure (s, [], env.node_ok, unasked env)

unfoldable pub try_finish_heap : PointerState → PointerState × List Effect × Bool
try_finish_heap s =
    if not s.is_shutting_down || not (s.running_count == 0) || not (queue_is_empty s.waiting_queue)
    then (s, [], false)
    else (
      record s { keep_running = false },
      send s.shutdown_requester_pid (record zeroed { type = shutdown_ack }) ∷ [],
      true,
    )

-- The flag for the main loop, and what `malloc` answered.
abbrev pub Replied : Type 0
Replied = PointerState × List Effect × Bool × Bool × (ℕ → Bool)

abbrev pub finish_heap :
    List Effect → Bool → (ℕ → Bool) → PointerState × List Effect × Bool → Prog Replied
finish_heap earlier ok a (s, later, stop) = pure (s, earlier ++ later, stop, ok, a)

unfoldable pub controller_handle_message_heap :
    Env → Malloc → PointerState → RpcMessage → Prog Replied
controller_handle_message_heap env malloc s msg =
    if is_submit msg.type && s.is_shutting_down
    then pure (s, send_shutdown_ack_to_runner env msg ∷ [], false, env.node_ok, unasked env)
    else (dispatch_heap env malloc s msg msg.type >>= λ (s1, did, ok, a).
        finish_heap did ok a (try_finish_heap s1))

-- What `malloc` answered, message by message.
abbrev pub Answers : Type 0
Answers = List (Bool × (ℕ → Bool))

abbrev pub and_then :
    List Effect
    → Bool × (ℕ → Bool)
    → PointerState × List Effect × Answers
    → Prog (PointerState × List Effect × Answers)
and_then earlier answer (s, later, answers) = pure (s, earlier ++ later, answer ∷ answers)

-- The two loops of `main` over the messages, each with its environment and its `malloc`.
unfoldable pub serve_heap :
    PointerState → List (Env × Malloc × RpcMessage) → Prog (PointerState × List Effect × Answers)
serve_heap s [] = pure (s, [], [])
serve_heap s ((env, malloc, msg) ∷ more) = elim s.keep_running [
  | false ↦ pure (s, [], [])
  | true ↦ controller_handle_message_heap env malloc s msg >>= λ (s1, did, stop, ok, a).
      (serve_heap s1 more >>= and_then did (ok, a))
]

-- `main` where both queues and the FIFO are created: the life of the queues, with the messages between.
unfoldable pub lifetime :
    PointerState → List (Env × Malloc × RpcMessage) → Prog (ControllerState × List Effect × Answers)
lifetime s msgs = do
  (s1, did, answers) ←
      serve_heap (record s { waiting_queue = queue_create true; running_queue = queue_create true })
        msgs
  queue_destroy s1.waiting_queue
  queue_destroy s1.running_queue
  pure (view s1 [] [], did, answers)
