-- ===== src/Controller/Order.antt =====
-- Which jobs `start_waiting_jobs` starts, in which order, and who is told.
pub mod Acks
pub mod Policies
use runner_orchestrator.Base.{ℕ, Bool, true, ◌≡◌, List, [], ◌∷◌}
use runner_orchestrator.Scheduler.Job.{JobInfo, job_running}

abbrev pub as_running : JobInfo → JobInfo
as_running job = record job { state = job_running }

-- The jobs as they stand in the running queue.
abbrev pub all_running : List JobInfo → List JobInfo
all_running [] = []
all_running (j ∷ q) = as_running j ∷ all_running q
