-- ===== src/Scheduler/Jobs/FairOrder.antt =====
-- The order in which the fair policy takes jobs, one removal after the other.
use runner_orchestrator.Base.{ℕ, zero, suc, ◌≡◌, refl, true, List, [], ◌∷◌, none, some, ℤ}
use runner_orchestrator.Scheduler.Job.{JobInfo}
use runner_orchestrator.Scheduler.Jobs.{dequeue_fair, remove_first}

-- The jobs that up to `k` successive fair removals take, in order.
unfoldable pub fair_order : ℕ → List ℤ → ℤ → List JobInfo → List JobInfo
fair_order zero fair last q = []
fair_order (suc k) fair last q = elim (dequeue_fair true fair last q) [
  | none ↦ []
  | some (j, rest) ↦ j ∷ fair_order k fair j.user_id rest
]

pub fair_order-cons :
    (k : ℕ) (fair : List ℤ) (last : ℤ) (q : List JobInfo) (j : JobInfo) (rest : List JobInfo)
    → dequeue_fair true fair last q ≡ some (j, rest)
    → fair_order (suc k) fair last q ≡ j ∷ fair_order k fair j.user_id rest
unfolding fair_order
fair_order-cons k fair last q j rest e = rw (e, fair_order)

pub fair_order-nil : (k : ℕ) (fair : List ℤ) (last : ℤ) → fair_order k fair last [] ≡ []
unfolding fair_order dequeue_fair remove_first
fair_order-nil zero fair last = refl
fair_order-nil (suc k) fair last = refl
