-- ===== src/Scheduler/Preview.antt =====
-- scheduler.c: `queue_copy_fair_to_array`, the snapshot of the waiting queue for the status report
-- under the fair policy. `slots` pairs the arrays `used` and `jobs`.
pub mod Slots
pub mod Order
use Prim.Native.Nat.{min}
use runner_orchestrator.Base.{
  ℕ, zero, suc, ◌+◌, Bool, true, false, not, ◌&&◌, if◌then◌else◌, ite, List, [], ◌∷◌, ◌++◌, length,
  take, Option, none, some, ℤ, negsuc, ℤ_discrete,
}
use runner_orchestrator.Scheduler.Job.{JobInfo}
use runner_orchestrator.Scheduler.Fair.{user_exists, choose_next_fair_user}

abbrev pub Slots : Type 0
Slots = List (Bool × JobInfo)

-- `memset(used, 0, …)` and the copy of the jobs.
unfoldable pub fresh_slots : List JobInfo → Slots
fresh_slots [] = []
fresh_slots (j ∷ q) = (false, j) ∷ fresh_slots q

-- The loop that fills `users` from the jobs that are not used.
unfoldable pub unused_users : List ℤ → Slots → List ℤ
unused_users users [] = users
unused_users users ((used, j) ∷ slots) =
    unused_users
      (if not used && not (user_exists users j.user_id) then users ++ (j.user_id ∷ []) else users)
      slots

abbrev pub keep_slot : Bool × JobInfo → Option (JobInfo × Slots) → Option (JobInfo × Slots)
keep_slot s none = none
keep_slot s (some (j, slots)) = some (j, s ∷ slots)

-- The search for `target_idx`, and the job at it marked as used; `none` for -1.
unfoldable pub use_slot : ℤ → Slots → Option (JobInfo × Slots)
use_slot target [] = none
use_slot target ((true, j) ∷ slots) = keep_slot (true, j) (use_slot target slots)
use_slot target ((false, j) ∷ slots) =
    ite (ℤ_discrete j.user_id target) (some (j, (true, j) ∷ slots))
      (keep_slot (false, j) (use_slot target slots))

-- The `while` loop with the rounds that are left. `users_ok` says of each round whether there is memory
-- for `users`.
unfoldable pub copy_fair_loop :
    (users_ok : ℕ → Bool) → List ℤ → (rounds copied : ℕ) → Slots → ℤ → List JobInfo
copy_fair_loop users_ok fair zero copied slots last = []
copy_fair_loop users_ok fair (suc k) copied slots last = elim (users_ok copied) [
  | false ↦ []
  | true ↦
      let target = choose_next_fair_user (unused_users [] slots) fair last in
      elim (ℤ_discrete target (negsuc 0)) [
        | yes _ ↦ []
        | no _ ↦ elim (use_slot target slots) [
          | none ↦ []
          | some (j, slots') ↦ j ∷ copy_fair_loop users_ok fair k (copied + 1) slots' target
        ]
      ]
]

-- `arrays_ok`: whether there is memory for both `jobs` and `used`.
unfoldable pub queue_copy_fair_to_array :
    (arrays_ok : Bool) (users_ok : ℕ → Bool)
    → List JobInfo
    → (max_size : ℕ) → ℤ
    → List ℤ
    → List JobInfo
unfolding fresh_slots copy_fair_loop
queue_copy_fair_to_array arrays_ok users_ok q max_size last fair =
    if arrays_ok
    then copy_fair_loop users_ok fair (min max_size (length q)) 0 (fresh_slots q) last
    else take max_size q
