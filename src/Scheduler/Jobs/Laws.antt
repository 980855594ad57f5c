-- ===== src/Scheduler/Jobs/Laws.antt =====
-- Which job each operation takes out, and what stays.
use native.Mathlib.Nat.{mod-lt}
use runner_orchestrator.Base.{
  ℕ, zero, suc, ◌%◌, ◌<◌, ◌≡◌, refl, ap, sym, ◌∙◌, Bool, true, false, Bool-cases, List, [], ◌∷◌,
  ◌++◌, length, length-append, none, some, ℤ, ℤ_discrete, arith, if_pos, if_neg, ◌⊎◌, inl, inr,
  ◌||◌,
}
use runner_orchestrator.Scheduler.Job.{JobInfo}
use runner_orchestrator.Scheduler.Fair.{user_exists, choose_next_fair_user}
use runner_orchestrator.Scheduler.Fair.Active.{
  user_exists-append, user_exists-head, choose_next_fair_user-exists,
}
use runner_orchestrator.Scheduler.Jobs.{
  Taken, keep_front, dequeue, remove_at, dequeue_random, remove_first, collect_users, dequeue_fair,
}

-- The job `t` is taken out between `before` and `after`.
pub record TakesOut (q : List JobInfo) (r : Taken) : Type 0 where
  pub taken : JobInfo
  pub before : List JobInfo
  pub after : List JobInfo
  pub split : q ≡ before ++ (taken ∷ after)
  pub result : r ≡ some (taken, before ++ after)

abbrev pub keys : (JobInfo → ℤ) → List JobInfo → List ℤ
keys key [] = []
keys key (j ∷ q) = key j ∷ keys key q

later-TakesOut :
    (j : JobInfo) (q : List JobInfo) (r : Taken) → TakesOut q r → TakesOut (j ∷ q) (keep_front j r)
later-TakesOut j q r t = record {
  taken = t.taken;
  before = j ∷ t.before;
  after = t.after;
  split = ap (◌∷◌ j) t.split;
  result = rw t.result;
}

pub remove_at-TakesOut :
    (i : ℕ) (q : List JobInfo)
    → i < length q
    → (t : TakesOut q (remove_at i q)) × (length t.before ≡ i)
unfolding remove_at later-TakesOut
remove_at-TakesOut i [] h = absurd (omega arith)
remove_at-TakesOut zero (j ∷ q) h =
    (record { taken = j; before = []; after = q; split = refl; result = refl }, refl)
remove_at-TakesOut (suc i) (j ∷ q) h =
    let (t, e) = remove_at-TakesOut i q (omega arith) in (later-TakesOut j q _ t, ap suc e)

-- `remove_first` takes the first job with the value, or there is none.
pub remove_first-TakesOut :
    (key : JobInfo → ℤ) (v : ℤ) (q : List JobInfo)
    → ((t : TakesOut q (remove_first key v q)) × (key t.taken ≡ v)
        × (user_exists (keys key t.before) v ≡ false))
      ⊎ ((remove_first key v q ≡ none) × (user_exists (keys key q) v ≡ false))
unfolding remove_first user_exists later-TakesOut
remove_first-TakesOut key v [] = inr (refl, refl)
remove_first-TakesOut key v (j ∷ q) = elim (ℤ_discrete (key j) v) [
  | yes hit ↦ inl (
    record { taken = j; before = []; after = q; split = refl; result = rw (if_pos _ hit) },
    hit,
    refl,
  )
  | no miss ↦ rw (if_neg _ miss) (elim (remove_first-TakesOut key v q) [
    | inl (t, k, b) ↦ inl (later-TakesOut j q _ t, k, ground (arith))
    | inr (e, b) ↦ inr (rw e, ground (arith))
  ])
]

pub collect_users-exists :
    (users : List ℤ) (q : List JobInfo) (u : ℤ)
    → user_exists (collect_users users q) u
      ≡ (user_exists users u || user_exists (keys (λ j. j.user_id) q) u)
unfolding collect_users user_exists
collect_users-exists users [] u = ground arith
collect_users-exists users (j ∷ q) u = elim (Bool-cases (user_exists users j.user_id)) [
  | inl old ↦ rw old (ground (arith, collect_users-exists users q u))
  | inr new ↦ rw new (
      ground (
        arith,
        collect_users-exists (users ++ (j.user_id ∷ [])) q u,
        user_exists-append users (j.user_id ∷ []) u,
      ))
]

abbrev pub user_key : JobInfo → ℤ
user_key j = j.user_id

-- The user whose turn it is has a job in the queue.
pub next_user-exists :
    (fair : List ℤ) (last : ℤ) (j : JobInfo) (q : List JobInfo)
    → user_exists
        (keys user_key (j ∷ q))
        (choose_next_fair_user (collect_users [] (j ∷ q)) fair last)
      ≡ true
next_user-exists fair last j q = go (collect_users [] (j ∷ q)) refl
  where
    users :
        (u : ℤ) → user_exists (collect_users [] (j ∷ q)) u ≡ user_exists (keys user_key (j ∷ q)) u
    users u = unfold user_exists in collect_users-exists [] (j ∷ q) u

    go :
        (us : List ℤ)
        → collect_users [] (j ∷ q) ≡ us
        → user_exists
            (keys user_key (j ∷ q))
            (choose_next_fair_user (collect_users [] (j ∷ q)) fair last)
          ≡ true
    go [] e =
        unfold user_exists in
        ground (arith, users j.user_id, user_exists-head j.user_id (keys user_key q))
    go (a ∷ more) e = sym (users _) ∙ (rw e (choose_next_fair_user-exists a more fair last))

-- With memory for the users, and on a queue that is not empty, `dequeue_fair` takes a job out; its user
-- is the one that `choose_next_fair_user` names, and no job before it in the queue is of that user.
pub dequeue_fair-next :
    (fair : List ℤ) (last : ℤ) (j : JobInfo) (q : List JobInfo)
    → (t : TakesOut (j ∷ q) (dequeue_fair true fair last (j ∷ q))) × (t.taken.user_id
        ≡ choose_next_fair_user (collect_users [] (j ∷ q)) fair last)
      × (user_exists (keys user_key t.before) t.taken.user_id ≡ false)
unfolding dequeue_fair
dequeue_fair-next fair last j q =
    elim (remove_first-TakesOut user_key
      (choose_next_fair_user (collect_users [] (j ∷ q)) fair last) (j ∷ q)) [
        | inl (t, e, first) ↦ (t, e, rw e first)
        | inr (_, absent) ↦ cc (next_user-exists fair last j q)
      ]

-- On a queue that is not empty the fair policy takes a job, with memory for the users or without.
pub dequeue_fair-TakesOut :
    (ok : Bool) (fair : List ℤ) (last : ℤ) (j : JobInfo) (q : List JobInfo)
    → TakesOut (j ∷ q) (dequeue_fair ok fair last (j ∷ q))
unfolding dequeue_fair dequeue
dequeue_fair-TakesOut false fair last j q = record {
  taken = j;
  before = [];
  after = q;
  split = refl;
  result = refl;
}
dequeue_fair-TakesOut true fair last j q = (dequeue_fair-next fair last j q).0

pub dequeue_random-TakesOut :
    (rand : ℕ) (j : JobInfo) (q : List JobInfo)
    → (t : TakesOut (j ∷ q) (dequeue_random rand (j ∷ q))) × (length t.before
        ≡ rand % length (j ∷ q))
unfolding dequeue_random
dequeue_random-TakesOut rand j q =
    remove_at-TakesOut (rand % length (j ∷ q)) (j ∷ q) (mod-lt rand (omega arith))

pub length-TakesOut :
    (q : List JobInfo) (r : Taken) (t : TakesOut q r)
    → length q ≡ suc (length (t.before ++ t.after))
length-TakesOut q r t = omega (
  arith,
  ap length t.split,
  length-append t.before (t.taken ∷ t.after),
  length-append t.before t.after,
)
