-- ===== src/Scheduler/Job.antt =====
-- include/controller/scheduler.h: what the controller records of a submitted command.
use runner_orchestrator.Base.{ℤ}

pub data JobState : Type 0 where
  job_queued job_running : JobState

pub record Timeval : Type 0 where
  pub tv_sec : ℤ
  pub tv_usec : ℤ

pub record JobInfo : Type 0 where
  pub command_id : ℤ
  pub user_id : ℤ
  pub state : JobState
  pub runner_pid : ℤ
  pub start_time : Timeval
