-- ===== src/Controller/Invariant.antt =====
-- What holds of the controller between two messages.
pub mod Start
pub mod Loop
pub mod Keep
pub mod Fixed
use runner_orchestrator.Base.{ℕ, ◌≤◌, ◌<◌, ◌≡◌, ◌⊎◌, List, [], ◌∷◌, length}
use runner_orchestrator.Scheduler.Job.{JobInfo, JobState, job_running, job_queued}
use runner_orchestrator.Controller.State.{ControllerState}

abbrev pub AllIn : JobState → List JobInfo → Type 0
AllIn state [] = Unit {0}
AllIn state (j ∷ q) = (j.state ≡ state) × AllIn state q

-- What holds also while a slot is free.
pub record IsCounted (s : ControllerState) : Type 0 where
  pub counted : s.running_count ≡ length s.running_queue
  pub slots : 0 < s.parallel_limit
  pub bounded : s.running_count ≤ s.parallel_limit
  pub room : length s.fair_users ≤ s.fair_user_capacity
  pub running : AllIn job_running s.running_queue
  pub waiting : AllIn job_queued s.waiting_queue

-- No job waits while a slot is free.
abbrev pub IsBusy : ControllerState → Type 0
IsBusy s = (s.waiting_queue ≡ []) ⊎ (s.running_count ≡ s.parallel_limit)

pub record IsValid (s : ControllerState) : Type 0 where
  pub base : IsCounted s
  pub busy : IsBusy s
