-- ===== src/Tests.antt =====
-- Concrete states on which the theorems and the definitions are tried.
pub mod Queues
pub mod Fairness
pub mod Messages
pub mod Commands
pub mod Reports
pub mod Pipelines
pub mod Runners
pub mod Processes
pub mod Programs
pub mod Memory
pub mod Nodes
pub mod Farewell
use runner_orchestrator.Base.{
  ℕ, ◌+◌, arith, ◌≡◌, refl, Bool, true, false, List, [], ◌∷◌, some, none, ℤ, pos, negsuc, inr,
}
use runner_orchestrator.Protocol.{RpcMessage, MsgType, zeroed, submit, done, shutdown_req}
use runner_orchestrator.Store.{Heap, node, write}
use runner_orchestrator.Store.Cells.{Cells}
use runner_orchestrator.Scheduler.Job.{JobInfo, JobState, job_queued, job_running, Timeval}
use runner_orchestrator.Scheduler.Queue.{JobQueue}
use runner_orchestrator.Scheduler.Queue.Chain.{IsQueue}
use runner_orchestrator.Controller.State.{ControllerState, Env, Round, StatusEnv}
use runner_orchestrator.Controller.Status.{fair_name}
use runner_orchestrator.Controller.Invariant.{IsCounted, IsValid}

abbrev pub noon : Timeval
noon = record { tv_sec = pos 100; tv_usec = pos 0 }

abbrev pub job_of : (command user : ℕ) → JobState → JobInfo
job_of command user state = record {
  command_id = pos command;
  user_id = pos user;
  state = state;
  runner_pid = pos (500 + command);
  start_time = noon;
}

-- Two jobs of user 1 and, between them, one of user 2.
abbrev pub three_jobs : List JobInfo
three_jobs = job_of 11 1 job_queued ∷ job_of 12 1 job_queued ∷ job_of 13 2 job_queued ∷ []

abbrev pub two_cells : Cells
two_cells = (1, job_of 11 1 job_queued) ∷ (2, job_of 13 2 job_queued) ∷ []

abbrev pub two_nodes : Heap
two_nodes =
    write (write (λ _. none) 1 (some (node (job_of 11 1 job_queued) 2))) 2
      (some (node (job_of 13 2 job_queued) 0))

abbrev pub two_queued : JobQueue
two_queued = record { head = 1; tail = 2; size = 2 }

pub two_queued-IsQueue : IsQueue two_nodes two_queued two_cells
unfolding write
two_queued-IsQueue = record {
  linked = (refl, refl, (refl, refl, tt));
  distinct = (refl, (refl, tt));
  head = refl;
  tail = refl;
  size = refl;
}

abbrev pub all_well : StatusEnv
all_well = record {
  run_ok = true;
  wait_ok = true;
  arrays_ok = true;
  users_ok = λ _. true;
  open_ok = true;
  write_ok = λ _. true;
}

abbrev pub quiet : Env
quiet = record {
  pid = pos 99;
  now = noon;
  realloc_ok = true;
  node_ok = true;
  log_ok = true;
  rounds = λ i. record { rand = i; users_ok = true; node_ok = true };
  status = all_well;
}

-- One slot, taken by a job of user 1, and three jobs that wait.
abbrev pub busy_state : (policy : List ℕ) → ControllerState
busy_state policy = record {
  parallel_limit = 1;
  running_count = 1;
  keep_running = true;
  is_shutting_down = false;
  shutdown_requester_pid = negsuc 0;
  last_scheduled_user = pos 1;
  fair_users = pos 1 ∷ pos 2 ∷ [];
  fair_user_capacity = 8;
  waiting_queue = three_jobs;
  running_queue = job_of 10 1 job_running ∷ [];
  policy = policy;
}

pub busy_state-IsValid : IsValid (busy_state fair_name)
busy_state-IsValid = record {
  base = record {
    counted = refl;
    slots = omega arith;
    bounded = omega arith;
    room = omega arith;
    running = (refl, tt);
    waiting = (refl, (refl, (refl, tt)));
  };
  busy = inr refl;
}

-- The same after a shutdown was requested, with no job that waits.
abbrev pub last_state : ControllerState
last_state = record (busy_state fair_name) {
  is_shutting_down = true;
  shutdown_requester_pid = pos 600;
  waiting_queue = [];
}

pub last_state-IsValid : IsValid last_state
last_state-IsValid = record {
  base = record {
    counted = refl;
    slots = omega arith;
    bounded = omega arith;
    room = omega arith;
    running = (refl, tt);
    waiting = tt;
  };
  busy = inr refl;
}

-- Two slots are free.
abbrev pub free_state : (policy : List ℕ) → ControllerState
free_state policy = record (busy_state policy) {
  parallel_limit = 2;
  running_count = 0;
  running_queue = [];
}

pub free_state-IsCounted : IsCounted (free_state fair_name)
free_state-IsCounted = record {
  counted = refl;
  slots = omega arith;
  bounded = omega arith;
  room = omega arith;
  running = tt;
  waiting = (refl, (refl, (refl, tt)));
}

abbrev pub message : MsgType → (pid user command : ℕ) → RpcMessage
message type pid user command = record zeroed {
  type = type;
  sender_pid = pos pid;
  user_id = pos user;
  command_id = pos command;
}
