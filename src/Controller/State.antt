-- ===== src/Controller/State.antt =====
-- include/controller/controller_handlers.h: the controller's state; what the handlers read of the
-- outside, and what they do there.
use runner_orchestrator.Base.{ℕ, Bool, List, ℤ}
use runner_orchestrator.Protocol.{RpcMessage}
use runner_orchestrator.Scheduler.Job.{JobInfo, Timeval}

-- `fair_users` holds the valid entries of the array, so that its length is `fair_user_count`. The
-- policy is the bytes of its name.
pub record ControllerState : Type 0 where
  pub parallel_limit : ℕ
  pub running_count : ℕ
  pub keep_running : Bool
  pub is_shutting_down : Bool
  pub shutdown_requester_pid : ℤ
  pub last_scheduled_user : ℤ
  pub fair_users : List ℤ
  pub fair_user_capacity : ℕ
  pub waiting_queue : List JobInfo
  pub running_queue : List JobInfo
  pub policy : List ℕ

-- What one round of `start_waiting_jobs` reads: `rand()`, whether there is memory for the array of users
-- in `queue_dequeue_fair`, and whether there is memory for the node in `queue_enqueue`.
pub record Round : Type 0 where
  pub rand : ℕ
  pub users_ok : Bool
  pub node_ok : Bool

-- What `handle_status_req` reads: whether there is memory for the two snapshots and for the arrays of
-- `queue_copy_fair_to_array`, whether the FIFO opens, and whether each `write` succeeds.
pub record StatusEnv : Type 0 where
  pub run_ok : Bool
  pub wait_ok : Bool
  pub arrays_ok : Bool
  pub users_ok : ℕ → Bool
  pub open_ok : Bool
  pub write_ok : ℕ → Bool

-- What the handling of one message reads of the outside.
pub record Env : Type 0 where
  pub pid : ℤ
  pub now : Timeval
  pub realloc_ok : Bool
  pub node_ok : Bool
  pub log_ok : Bool
  pub rounds : ℕ → Round
  pub status : StatusEnv

-- What a handler does outside: it tries to send a message to the FIFO of the runner with a pid, it
-- writes a message to a FIFO that is open, or it writes a line to the log.
pub data Effect : Type 0 where
  send : (runner_pid : ℤ) → RpcMessage → Effect
  written : (runner_pid : ℤ) → RpcMessage → Effect
  log_line : (user_id command_id elapsed_ms : ℤ) → Effect
