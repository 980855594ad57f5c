-- ===== src/Controller/Remembered.antt =====
-- controller_handlers.c: `fair_users` has each user of a waiting job, once.
pub mod Turns
pub mod Keep
pub mod Steps
pub mod Progress
pub mod Starvation
use runner_orchestrator.Base.{
  ℕ, zero, suc, ◌+◌, ◌≡◌, refl, sym, ap, ◌∙◌, subst, Option, inl, inr, Bool, true, false,
  Bool-cases, Option-cases, not, ◌&&◌, ◌||◌, ltb, ◌==◌, if◌then◌else◌, ite, if_pos, if_neg, List,
  [], ◌∷◌, ◌++◌, length, ℤ, ℤ_discrete, arith,
}
use runner_orchestrator.Protocol.{MsgType, RpcMessage, submit, done}
use runner_orchestrator.Scheduler.Job.{JobInfo, job_queued}
use runner_orchestrator.Scheduler.Fair.{user_exists}
use runner_orchestrator.Scheduler.Fair.Active.{user_exists-append, user_exists-head}
use runner_orchestrator.Scheduler.Fair.Waiting.{Once}
use runner_orchestrator.Scheduler.Jobs.{enqueue, remove_by_command_id}
use runner_orchestrator.Scheduler.Jobs.Laws.{keys, user_key}
use runner_orchestrator.Scheduler.Jobs.FairOrder.{fair_order}
use runner_orchestrator.Scheduler.Jobs.Starvation.{has_job}
use runner_orchestrator.Scheduler.Preview.Slots.{keys-append}
use runner_orchestrator.Controller.State.{ControllerState, Env, Round}
use runner_orchestrator.Controller.Handlers.{
  submitted_job, remember_fair_user, handle_submit, place_job, finish_job, handle_done, start_job,
  start_loop, start_waiting_jobs, handle_shutdown_req, try_finish_shutdown, is_empty,
}
use runner_orchestrator.Controller.Messages.{dispatch, controller_handle_message, is_submit, serve}
use runner_orchestrator.Controller.Configure.{controller_configure}
use runner_orchestrator.Controller.Invariant.Start.{
  Leaves, dequeue_by_policy-Leaves, start_cases, left_by, start_loop-stop, start_loop-step,
}
use runner_orchestrator.Controller.Invariant.Keep.{remember_fair_user-rest}

abbrev AllKnown : List JobInfo → List ℤ → Type 0
AllKnown q users = (u : ℤ) → has_job q u ≡ true → user_exists users u ≡ true

pub record Remembers (s : ControllerState) : Type 0 where
  pub once : Once s.fair_users
  pub known : AllKnown s.waiting_queue s.fair_users

pub has_job-append :
    (xs ys : List JobInfo) (u : ℤ) → has_job (xs ++ ys) u ≡ (has_job xs u || has_job ys u)
has_job-append xs ys u =
    ap (λ l. user_exists l u) (keys-append xs ys)
    ∙ user_exists-append (keys user_key xs) (keys user_key ys) u

Once-snoc :
    (users : List ℤ) (u : ℤ) → Once users → user_exists users u ≡ false → Once (users ++ (u ∷ []))
unfolding user_exists
Once-snoc [] u once out = (refl, tt)
Once-snoc (x ∷ users) u (fresh, once) out = elim (ℤ_discrete x u) [
  | yes same ↦ absurd (cc (rw (if_pos _ same) at out))
  | no other ↦ (
    ground (
      arith,
      fresh,
      user_exists-append users (u ∷ []) x,
      if_neg (ℤ_discrete u x) (λ h. other (sym h)) true false,
    ),
    Once-snoc users u once (rw (if_neg _ other) at out),
  )
]

-- With memory `remember_fair_user` adds the user unless he is there.
remembered :
    (s : ControllerState) (user : ℤ)
    → (remember_fair_user true s user).fair_users
      ≡ (if user_exists s.fair_users user then s.fair_users else s.fair_users ++ (user ∷ []))
unfolding remember_fair_user
remembered s user = ground arith

-- The users after a submission, and a queue with at most one job of the submitter more.
pub record Grown (s t : ControllerState) (user : ℤ) : Type 0 where
  pub users : t.fair_users ≡ (remember_fair_user true s user).fair_users
  pub queue :
      (u : ℤ)
      → has_job t.waiting_queue u ≡ true
      → (has_job s.waiting_queue u || user_exists (user ∷ []) u) ≡ true

Once-remembered :
    (users : List ℤ) (user : ℤ)
    → Once users
    → Once (if user_exists users user then users else users ++ (user ∷ []))
Once-remembered users user once = elim (Bool-cases (user_exists users user)) [
  | inl old ↦ rw old once
  | inr new ↦ rw new (Once-snoc users user once new)
]

exists-remembered :
    (users : List ℤ) (user u : ℤ)
    → (user_exists users u || user_exists (user ∷ []) u) ≡ true
    → user_exists (if user_exists users user then users else users ++ (user ∷ [])) u ≡ true
unfolding user_exists
exists-remembered users user u h = elim (Bool-cases (user_exists users user)) [
  | inl old ↦ rw old (elim (ℤ_discrete user u) [
    | yes same ↦ ap (user_exists users) (sym same) ∙ old
    | no other ↦ in_first (user_exists users u) _ h (if_neg (ℤ_discrete user u) other true false)
  ])
  | inr new ↦ rw new (user_exists-append users (user ∷ []) u ∙ h)
]
  where
    in_first : (b c : Bool) → (b || c) ≡ true → c ≡ false → b ≡ true
    in_first true c h f = refl
    in_first false c h f = cc

pub Grown-Remembers :
    (s t : ControllerState) (user : ℤ) → Grown s t user → Remembers s → Remembers t
Grown-Remembers s t user g r =
    let now = g.users ∙ remembered s user in
    record {
      once = subst Once (sym now) (Once-remembered s.fair_users user r.once);
      known = λ u h.
          ap (λ l. user_exists l u) now
          ∙ exists-remembered s.fair_users user u (
              widen (has_job s.waiting_queue u) _ (user_exists (user ∷ []) u) (g.queue u h)
                (r.known u));
    }
  where
    widen : (a b c : Bool) → (a || c) ≡ true → (a ≡ true → b ≡ true) → (b || c) ≡ true
    widen true b c h f = ap (λ d. d || c) (f refl)
    widen false true c h f = refl
    widen false false c h f = h

place_job-queue :
    (env : Env) (s : ControllerState) (msg : RpcMessage)
    → ((place_job env s msg).0.fair_users ≡ s.fair_users)
      × ((u : ℤ)
          → has_job (place_job env s msg).0.waiting_queue u ≡ true
          → (has_job s.waiting_queue u || user_exists (msg.user_id ∷ []) u) ≡ true)
unfolding place_job enqueue submitted_job
place_job-queue env s msg = elim (Bool-cases (ltb s.running_count s.parallel_limit)) [
  | inl free ↦ elim (Bool-cases env.node_ok) [
    | inl ok ↦ rw (free, ok) (refl, λ u h. ap (λ b. b || user_exists (msg.user_id ∷ []) u) h)
    | inr failed ↦
        rw (free, failed) (refl, λ u h. ap (λ b. b || user_exists (msg.user_id ∷ []) u) h)
  ]
  | inr full ↦ elim (Bool-cases env.node_ok) [
    | inl ok ↦
        rw (full, ok)
          (
            refl,
            λ u h.
                sym (has_job-append s.waiting_queue (submitted_job env msg job_queued ∷ []) u) ∙ h,
          )
    | inr failed ↦
        rw (full, failed) (refl, λ u h. ap (λ b. b || user_exists (msg.user_id ∷ []) u) h)
  ]
]

pub handle_submit-Grown :
    (env : Env) (s : ControllerState) (msg : RpcMessage)
    → env.realloc_ok ≡ true
    → Grown s (handle_submit env s msg).0 msg.user_id
unfolding handle_submit
handle_submit-Grown env s msg ok =
    let t = remember_fair_user env.realloc_ok s msg.user_id in
    let (same, more) = place_job-queue env t msg in
    record {
      users = same ∙ ap (λ b. (remember_fair_user b s msg.user_id).fair_users) ok;
      queue = λ u h.
          ap (λ q. has_job q u || user_exists (msg.user_id ∷ []) u)
            (sym (ap (λ x. x.waiting_queue) (remember_fair_user-rest env.realloc_ok s msg.user_id)))
          ∙ more u h;
    }

-- A state with the same users and no other waiting jobs.
pub record Shrunk (s t : ControllerState) : Type 0 where
  pub users : t.fair_users ≡ s.fair_users
  pub queue : (u : ℤ) → has_job t.waiting_queue u ≡ true → has_job s.waiting_queue u ≡ true

pub Shrunk-Remembers : (s t : ControllerState) → Shrunk s t → Remembers s → Remembers t
Shrunk-Remembers s t k r = record {
  once = subst Once (sym k.users) r.once;
  known = λ u h. ap (λ l. user_exists l u) k.users ∙ r.known u (k.queue u h);
}

pub start_job-Shrunk :
    (env : Env) (r : Round) (s : ControllerState) {o : Option (JobInfo × ControllerState)}
    (l : Leaves s o)
    → Shrunk s (start_job env r (left_by s l) l.job).0
unfolding start_job user_exists
start_job-Shrunk env r s l = elim (Bool-cases r.node_ok) [
  | inl ok ↦ rw ok (record { users = refl; queue = fewer })
  | inr failed ↦ rw failed (record { users = refl; queue = fewer })
]
  where
    fewer : (u : ℤ) → has_job (l.before ++ l.after) u ≡ true → has_job s.waiting_queue u ≡ true
    fewer u h = ground (
      arith,
      h,
      ap (λ q. has_job q u) l.split,
      has_job-append l.before (l.job ∷ l.after) u,
      has_job-append l.before l.after u,
    )

pub start_loop-Remembers :
    (env : Env) (k i : ℕ) (s : ControllerState) → Remembers s → Remembers (start_loop env k i s).0
start_loop-Remembers env zero i s m = unfold start_loop in m
start_loop-Remembers env (suc k) i s m = elim (start_cases s) [
  | inl (stop, _) ↦ rw (start_loop-stop env (suc k) i s stop) m
  | inr (go, free, j, q, e) ↦
      let l = dequeue_by_policy-Leaves (env.rounds i) s j q e in
      rw (start_loop-step env k i s go l) (
        start_loop-Remembers env k (i + 1) (start_job env (env.rounds i) (left_by s l) l.job).0
          (Shrunk-Remembers s _ (start_job-Shrunk env (env.rounds i) s l) m))
]
