-- ===== src/Scheduler/Jobs.antt =====
-- scheduler.c on the sequence of queued jobs: what each queue operation does to the list of the jobs
-- from head to tail. Scheduler/Queue refines these definitions to linked nodes.
pub mod Laws
pub mod FairOrder
pub mod Starvation
use mathlib.Core.Option
use runner_orchestrator.Base.{
  ℕ, zero, suc, ◌+◌, ◌%◌, Bool, true, false, if◌then◌else◌, ite, List, [], ◌∷◌, ◌++◌, length, take,
  Option, none, some, ℤ, ℤ_discrete,
}
use runner_orchestrator.Scheduler.Job.{JobInfo}
use runner_orchestrator.Scheduler.Fair.{user_exists, choose_next_fair_user}

-- A job that was taken out, and the jobs that stay.
abbrev pub Taken : Type 0
Taken = Option (JobInfo × List JobInfo)

abbrev pub keep_front : JobInfo → Taken → Taken
keep_front j none = none
keep_front j (some (t, rest)) = some (t, j ∷ rest)

unfoldable pub enqueue : List JobInfo → JobInfo → List JobInfo
enqueue q j = q ++ (j ∷ [])

unfoldable pub dequeue : List JobInfo → Taken
dequeue [] = none
dequeue (j ∷ q) = some (j, q)

unfoldable pub remove_at : ℕ → List JobInfo → Taken
remove_at i [] = none
remove_at zero (j ∷ q) = some (j, q)
remove_at (suc i) (j ∷ q) = keep_front j (remove_at i q)

-- `rand` is the value of `rand()`.
unfoldable pub dequeue_random : ℕ → List JobInfo → Taken
dequeue_random rand q = remove_at (rand % length q) q

-- The first job whose key has the given value.
unfoldable pub remove_first : (JobInfo → ℤ) → ℤ → List JobInfo → Taken
remove_first key v [] = none
remove_first key v (j ∷ q) =
    ite (ℤ_discrete (key j) v) (some (j, q)) (keep_front j (remove_first key v q))

unfoldable pub remove_by_command_id : ℤ → List JobInfo → Taken
remove_by_command_id = remove_first (λ j. j.command_id)

-- The loop that lists each user with a queued job once, in the order of their first jobs.
unfoldable pub collect_users : List ℤ → List JobInfo → List ℤ
collect_users users [] = users
collect_users users (j ∷ q) =
    collect_users (if user_exists users j.user_id then users else users ++ (j.user_id ∷ [])) q

-- Without memory for the users the head is taken.
unfoldable pub dequeue_fair : (users_ok : Bool) → List ℤ → ℤ → List JobInfo → Taken
dequeue_fair false fair last q = dequeue q
dequeue_fair true fair last q =
    remove_first (λ j. j.user_id) (choose_next_fair_user (collect_users [] q) fair last) q
