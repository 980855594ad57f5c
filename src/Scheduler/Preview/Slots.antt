-- ===== src/Scheduler/Preview/Slots.antt =====
-- The slots of `queue_copy_fair_to_array` that are not used yet, as a queue.
use runner_orchestrator.Base.{
  ◌≡◌, refl, ap, ◌∙◌, Bool, true, false, not, ◌||◌, if◌then◌else◌, List, [], ◌∷◌, ◌++◌, Option,
  none, some, ℤ, negsuc, ℤ_discrete, arith, ◌≢◌, if_pos, if_neg,
}
use runner_orchestrator.Scheduler.Job.{JobInfo}
use runner_orchestrator.Scheduler.Fair.{user_exists}
use runner_orchestrator.Scheduler.Fair.Active.{user_exists-append}
use runner_orchestrator.Scheduler.Jobs.{Taken, keep_front, collect_users, remove_first}
use runner_orchestrator.Scheduler.Jobs.Laws.{user_key, keys}
use runner_orchestrator.Scheduler.Preview.{Slots, fresh_slots, unused_users, use_slot, keep_slot}

unfoldable pub unused : Slots → List JobInfo
unused [] = []
unused ((used, j) ∷ slots) = if used then unused slots else j ∷ unused slots

pub unused-fresh_slots : (q : List JobInfo) → unused (fresh_slots q) ≡ q
unfolding unused fresh_slots
unused-fresh_slots [] = refl
unused-fresh_slots (j ∷ q) = ap (λ l. j ∷ l) (unused-fresh_slots q)

if_not : (b : Bool) (x y : List ℤ) → (if not b then x else y) ≡ (if b then y else x)
if_not true x y = refl
if_not false x y = refl

pub unused_users-collect_users :
    (users : List ℤ) (slots : Slots) → unused_users users slots ≡ collect_users users (unused slots)
unfolding unused unused_users collect_users
unused_users-collect_users users [] = refl
unused_users-collect_users users ((true, j) ∷ slots) = unused_users-collect_users users slots
unused_users-collect_users users ((false, j) ∷ slots) =
    rw (if_not (user_exists users j.user_id) (users ++ (j.user_id ∷ [])) users) (
      unused_users-collect_users
        (if user_exists users j.user_id then users else users ++ (j.user_id ∷ [])) slots)

abbrev pub unused_after : Option (JobInfo × Slots) → Taken
unused_after none = none
unused_after (some (j, slots)) = some (j, unused slots)

unused_after-keep_used :
    (j : JobInfo) (o : Option (JobInfo × Slots))
    → unused_after (keep_slot (true, j) o) ≡ unused_after o
unfolding unused
unused_after-keep_used j none = refl
unused_after-keep_used j (some (t, slots)) = refl

unused_after-keep_unused :
    (j : JobInfo) (o : Option (JobInfo × Slots))
    → unused_after (keep_slot (false, j) o) ≡ keep_front j (unused_after o)
unfolding unused
unused_after-keep_unused j none = refl
unused_after-keep_unused j (some (t, slots)) = refl

pub use_slot-remove_first :
    (target : ℤ) (slots : Slots)
    → unused_after (use_slot target slots) ≡ remove_first user_key target (unused slots)
unfolding unused use_slot remove_first
use_slot-remove_first target [] = refl
use_slot-remove_first target ((true, j) ∷ slots) =
    unused_after-keep_used j (use_slot target slots) ∙ use_slot-remove_first target slots
use_slot-remove_first target ((false, j) ∷ slots) = elim (ℤ_discrete j.user_id target) [
  | yes hit ↦ rw (if_pos _ hit, if_pos _ hit)
  | no miss ↦
      rw (if_neg _ miss, if_neg _ miss)
        (unused_after-keep_unused j (use_slot target slots)
          ∙ ap (keep_front j) (use_slot-remove_first target slots))
]

pub used_slot :
    (o : Option (JobInfo × Slots)) (t : JobInfo) (rest : List JobInfo)
    → unused_after o ≡ some (t, rest)
    → (left : Slots) × (o ≡ some (t, left)) × (unused left ≡ rest)
used_slot none t rest e = cc
used_slot (some (j, left)) t rest e = (left, ground (arith), ground (arith))

-- No queued job is one of user -1, which the code takes for "no user".
abbrev pub NamesUsers : List JobInfo → Type 0
NamesUsers q = user_exists (keys user_key q) (negsuc 0) ≡ false

pub keys-append :
    (xs ys : List JobInfo) → keys user_key (xs ++ ys) ≡ keys user_key xs ++ keys user_key ys
keys-append [] ys = refl
keys-append (j ∷ xs) ys = ap (λ l. j.user_id ∷ l) (keys-append xs ys)

parts_of :
    (xs : List ℤ) (u : ℤ) (ys : List ℤ)
    → user_exists (xs ++ (u ∷ ys)) (negsuc 0) ≡ false
    → (user_exists xs (negsuc 0) ≡ false) × (user_exists ys (negsuc 0) ≡ false) × (u ≢ negsuc 0)
unfolding user_exists
parts_of xs u ys h = (ground (arith, all), ground (arith, all), λ e. ground (arith, all, e))
  where
    all : (user_exists xs (negsuc 0) || user_exists (u ∷ ys) (negsuc 0)) ≡ false
    all = rw (← user_exists-append xs (u ∷ ys) (negsuc 0)) h

pub NamesUsers-without :
    (xs : List JobInfo) (t : JobInfo) (ys : List JobInfo)
    → NamesUsers (xs ++ (t ∷ ys))
    → NamesUsers (xs ++ ys) × (t.user_id ≢ negsuc 0)
NamesUsers-without xs t ys h = (
  ground (
    arith,
    parts,
    keys-append xs ys,
    user_exists-append (keys user_key xs) (keys user_key ys) (negsuc 0),
  ),
  parts.2,
)
  where
    apart : user_exists (keys user_key xs ++ (t.user_id ∷ keys user_key ys)) (negsuc 0) ≡ false
    apart = rw (← keys-append xs (t ∷ ys)) h

    parts :
        (user_exists (keys user_key xs) (negsuc 0) ≡ false)
        × (user_exists (keys user_key ys) (negsuc 0) ≡ false)
        × (t.user_id ≢ negsuc 0)
    parts = parts_of (keys user_key xs) t.user_id (keys user_key ys) apart
