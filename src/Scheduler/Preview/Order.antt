-- ===== src/Scheduler/Preview/Order.antt =====
-- The listed order, against that of successive removals by `queue_dequeue_fair`.
use Prim.Native.Nat.{min}
use runner_orchestrator.Base.{
  ℕ, zero, suc, ◌+◌, ◌≡◌, refl, ap, ◌∙◌, Bool, true, false, subst, List-cases, sym, List, [], ◌∷◌,
  ◌++◌, length, some, ℤ, negsuc, arith, ◌≢◌, inl, inr,
}
use runner_orchestrator.Scheduler.Job.{JobInfo}
use runner_orchestrator.Scheduler.Fair.{user_exists, choose_next_fair_user}
use runner_orchestrator.Scheduler.Jobs.{dequeue_fair, collect_users, remove_first}
use runner_orchestrator.Scheduler.Jobs.Laws.{user_key, keys, dequeue_fair-next, TakesOut}
use runner_orchestrator.Scheduler.Preview.{
  Slots, fresh_slots, unused_users, use_slot, copy_fair_loop, queue_copy_fair_to_array,
}
use runner_orchestrator.Scheduler.Jobs.FairOrder.{fair_order, fair_order-cons, fair_order-nil}
use runner_orchestrator.Scheduler.Preview.Slots.{
  unused, unused-fresh_slots, unused_users-collect_users, unused_after, use_slot-remove_first,
  used_slot, NamesUsers, NamesUsers-without,
}

abbrev target_of : List ℤ → ℤ → Slots → ℤ
target_of fair last slots = choose_next_fair_user (unused_users [] slots) fair last

module _ (users_ok : ℕ → Bool) (fair : List ℤ) (k copied : ℕ) (slots : Slots) (last : ℤ) where
  copy_fair_loop-stop :
      target_of fair last slots ≡ negsuc 0
      → copy_fair_loop users_ok fair (suc k) copied slots last ≡ []
  unfolding copy_fair_loop
  copy_fair_loop-stop e = ground arith

  copy_fair_loop-step :
      (j : JobInfo) (rest : Slots)
      → users_ok copied ≡ true
      → target_of fair last slots ≢ negsuc 0
      → use_slot (target_of fair last slots) slots ≡ some (j, rest)
      → copy_fair_loop users_ok fair (suc k) copied slots last
        ≡ j ∷ copy_fair_loop users_ok fair k (copied + 1) rest (target_of fair last slots)
  unfolding copy_fair_loop
  copy_fair_loop-step j rest ok named e = ground arith

-- What one round finds: no job, or the one that the fair policy takes.
data RoundFinds (fair : List ℤ) (last : ℤ) (slots : Slots) : Type 0 where
  no_job : target_of fair last slots ≡ negsuc 0 → unused slots ≡ [] → RoundFinds fair last slots
  takes :
      (j : JobInfo) (rest : Slots)
      → use_slot (target_of fair last slots) slots ≡ some (j, rest)
      → dequeue_fair true fair last (unused slots) ≡ some (j, unused rest)
      → target_of fair last slots ≡ j.user_id
      → NamesUsers (unused rest)
      → target_of fair last slots ≢ negsuc 0
      → RoundFinds fair last slots

round_takes :
    (fair : List ℤ) (last : ℤ) (slots : Slots) (j : JobInfo) (q : List JobInfo)
    → unused slots ≡ j ∷ q
    → NamesUsers (unused slots)
    → RoundFinds fair last slots
round_takes fair last slots j q e named =
    let (left, used, remaining) = used_slot _ taken rest found in
    takes taken left used (rw (e, remaining) result) target (rw remaining kept.0)
      (λ m. kept.1 (sym target ∙ m))
  where
    fair_removal :
        (t : TakesOut (j ∷ q) (dequeue_fair true fair last (j ∷ q))) × (t.taken.user_id
          ≡ choose_next_fair_user (collect_users [] (j ∷ q)) fair last)
        × (user_exists (keys user_key t.before) t.taken.user_id ≡ false)
    fair_removal = dequeue_fair-next fair last j q

    open fair_removal.0 use {taken, before, after, split, result}

    rest : List JobInfo
    rest = before ++ after

    chosen : target_of fair last slots ≡ choose_next_fair_user (collect_users [] (j ∷ q)) fair last
    chosen =
        ap (λ us. choose_next_fair_user us fair last)
          (unused_users-collect_users [] slots ∙ ap (collect_users []) e)

    target : target_of fair last slots ≡ taken.user_id
    target = chosen ∙ sym (fair_removal.1)

    found : unused_after (use_slot (target_of fair last slots) slots) ≡ some (taken, rest)
    found =
        use_slot-remove_first (target_of fair last slots) slots
        ∙ ap (remove_first user_key (target_of fair last slots)) e
        ∙ ap (λ v. remove_first user_key v (j ∷ q)) chosen
        ∙ (unfold dequeue_fair in result)

    kept : NamesUsers rest × (taken.user_id ≢ negsuc 0)
    kept = NamesUsers-without before taken after (subst NamesUsers (e ∙ split) named)

round_finds :
    (fair : List ℤ) (last : ℤ) (slots : Slots)
    → NamesUsers (unused slots)
    → RoundFinds fair last slots
round_finds fair last slots named = elim (List-cases (unused slots)) [
  | inl e ↦
      no_job
        (unfold choose_next_fair_user collect_users in rw (unused_users-collect_users [] slots, e))
        e
  | inr (j, q, e) ↦ round_takes fair last slots j q e named
]

module _ (users_ok : ℕ → Bool) (fair : List ℤ) (ok : (i : ℕ) → users_ok i ≡ true) where
  round_by_round :
      (k copied : ℕ) (slots : Slots) (last : ℤ)
      → ((c : ℕ) (l : Slots) (u : ℤ)
          → NamesUsers (unused l)
          → copy_fair_loop users_ok fair k c l u ≡ fair_order k fair u (unused l))
      → RoundFinds fair last slots
      → copy_fair_loop users_ok fair (suc k) copied slots last
        ≡ fair_order (suc k) fair last (unused slots)
  round_by_round k copied slots last later (no_job none_left empty) =
      copy_fair_loop-stop users_ok fair k copied slots last none_left
      ∙ sym (ap (fair_order (suc k) fair last) empty ∙ fair_order-nil (suc k) fair last)
  round_by_round k copied slots last later (takes j rest used removed who named some_user) =
      copy_fair_loop-step users_ok fair k copied slots last j rest (ok copied) some_user used
      ∙ ap (λ l. j ∷ l)
          (later (copied + 1) rest (target_of fair last slots) named
            ∙ ap (λ u. fair_order k fair u (unused rest)) who)
      ∙ sym (fair_order-cons k fair last (unused slots) j (unused rest) removed)

  copy_fair_loop-fair_order :
      (k copied : ℕ) (slots : Slots) (last : ℤ)
      → NamesUsers (unused slots)
      → copy_fair_loop users_ok fair k copied slots last ≡ fair_order k fair last (unused slots)
  copy_fair_loop-fair_order zero copied slots last named = unfold copy_fair_loop fair_order in refl
  copy_fair_loop-fair_order (suc k) copied slots last named =
      round_by_round k copied slots last (copy_fair_loop-fair_order k)
        (round_finds fair last slots named)

-- With memory for its arrays, and no queued job of user -1, `queue_copy_fair_to_array` lists the jobs that
-- successive calls of `queue_dequeue_fair` would take, in that order, up to `max_size` of them.
pub queue_copy_fair_to_array-fair_order :
    (users_ok : ℕ → Bool) (q : List JobInfo) (max_size : ℕ) (last : ℤ) (fair : List ℤ)
    → ((i : ℕ) → users_ok i ≡ true)
    → NamesUsers q
    → queue_copy_fair_to_array true users_ok q max_size last fair
      ≡ fair_order (min max_size (length q)) fair last q
unfolding queue_copy_fair_to_array
queue_copy_fair_to_array-fair_order users_ok q max_size last fair ok named =
    copy_fair_loop-fair_order users_ok fair ok (min max_size (length q)) 0 (fresh_slots q) last
      (subst NamesUsers (sym (unused-fresh_slots q)) named)
    ∙ ap (fair_order (min max_size (length q)) fair last) (unused-fresh_slots q)
