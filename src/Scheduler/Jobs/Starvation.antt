-- ===== src/Scheduler/Jobs/Starvation.antt =====
-- scheduler.c: a fair removal brings the users closer that it does not serve.
use runner_orchestrator.Base.{
  ◌<◌, ◌≡◌, ap, Bool, true, List, [], ◌∷◌, ◌++◌, ℤ, ℤ_discrete, if_neg, arith,
}
use runner_orchestrator.Scheduler.Job.{JobInfo}
use runner_orchestrator.Scheduler.Fair.{user_exists, choose_next_fair_user}
use runner_orchestrator.Scheduler.Fair.TurnOrder.{turn_order}
use runner_orchestrator.Scheduler.Fair.Choice.{choose_next_fair_user-first_active}
use runner_orchestrator.Scheduler.Fair.Active.{user_exists-append}
use runner_orchestrator.Scheduler.Fair.Waiting.{Once, place, first_active-closer}
use runner_orchestrator.Scheduler.Jobs.Laws.{keys, user_key}
use runner_orchestrator.Scheduler.Preview.Slots.{keys-append}

-- A user has a job in the list.
abbrev pub has_job : List JobInfo → ℤ → Bool
has_job q u = user_exists (keys user_key q) u

-- When `choose_next_fair_user` names another user, fewer have their turn before an active one than before.
pub chosen-closer :
    (fair active : List ℤ) (last u : ℤ)
    → Once fair
    → user_exists fair u ≡ true
    → user_exists active u ≡ true
    → ¬ (choose_next_fair_user active fair last ≡ u)
    → place (turn_order fair (choose_next_fair_user active fair last)) u
      < place (turn_order fair last) u
unfolding user_exists
chosen-closer fair [] last u once known waits other = absurd cc
chosen-closer [] (a ∷ more) last u once known waits other = absurd cc
chosen-closer (f ∷ fs) (a ∷ more) last u once known waits other =
    first_active-closer (f ∷ fs) (a ∷ more) last a u once known waits _
      (choose_next_fair_user-first_active a more f fs last) other

-- The removal of another user's job leaves a user's jobs.
pub left_behind :
    (u : ℤ) (before : List JobInfo) (t : JobInfo) (after : List JobInfo)
    → ¬ (t.user_id ≡ u)
    → has_job (before ++ (t ∷ after)) u ≡ has_job (before ++ after) u
unfolding user_exists
left_behind u before t after other = ground (
  arith,
  ap (λ l. user_exists l u) (keys-append before (t ∷ after)),
  ap (λ l. user_exists l u) (keys-append before after),
  user_exists-append (keys user_key before) (t.user_id ∷ keys user_key after) u,
  user_exists-append (keys user_key before) (keys user_key after) u,
  if_neg (ℤ_discrete t.user_id u) other true (user_exists (keys user_key after) u),
)
