-- ===== src/Tests/Fairness.antt =====
-- Whose turn it is, on concrete users and jobs.
use Prim.Native.Nat.{min}
use runner_orchestrator.Base.{
  ◌≡◌, refl, true, List, [], ◌∷◌, length, ℤ, pos, ℤ_discrete, ℕ_discrete, ◌+ℤ◌,
}
use runner_orchestrator.Scheduler.Job.{JobInfo, job_queued}
use runner_orchestrator.Scheduler.Fair.{user_exists, index_from, probe_turns, choose_next_fair_user}
use runner_orchestrator.Scheduler.Fair.TurnOrder.{turn_order, first_active}
use runner_orchestrator.Scheduler.Fair.Choice.{choose_next_fair_user-first_active}
use runner_orchestrator.Scheduler.Jobs.FairOrder.{fair_order}
use runner_orchestrator.Scheduler.Preview.{queue_copy_fair_to_array, unused_users, use_slot}
use runner_orchestrator.Scheduler.Preview.Order.{queue_copy_fair_to_array-fair_order}
use runner_orchestrator.Tests.{job_of, three_jobs}

abbrev users_1_to_3 : List ℤ
users_1_to_3 = pos 1 ∷ pos 2 ∷ pos 3 ∷ []

choose_next_fair_user-first_active_example :
    choose_next_fair_user (pos 3 ∷ pos 1 ∷ []) users_1_to_3 (pos 1)
    ≡ first_active (pos 3 ∷ pos 1 ∷ []) (turn_order users_1_to_3 (pos 1)) (pos 3)
choose_next_fair_user-first_active_example =
    choose_next_fair_user-first_active (pos 3) (pos 1 ∷ []) (pos 1) (pos 2 ∷ pos 3 ∷ []) (pos 1)

abbrev later_jobs : List JobInfo
later_jobs = job_of 12 1 job_queued ∷ job_of 13 2 job_queued ∷ []

queue_copy_fair_to_array-fair_order_example :
    queue_copy_fair_to_array true (λ _. true) three_jobs 3 (pos 1) users_1_to_3
    ≡ fair_order (min 3 (length three_jobs)) users_1_to_3 (pos 1) three_jobs
unfolding user_exists ℤ_discrete
queue_copy_fair_to_array-fair_order_example =
    queue_copy_fair_to_array-fair_order (λ _. true) three_jobs 3 (pos 1) users_1_to_3 (λ _. refl)
      refl

-- After user 1 comes user 2, and then user 1 again.
preview_alternates :
    queue_copy_fair_to_array true (λ _. true) three_jobs 3 (pos 1) users_1_to_3
    ≡ job_of 13 2 job_queued ∷ job_of 11 1 job_queued ∷ job_of 12 1 job_queued ∷ []
unfolding queue_copy_fair_to_array choose_next_fair_user user_exists ℤ_discrete unused_users
    ℕ_discrete probe_turns ◌+ℤ◌ index_from use_slot
preview_alternates = refl
