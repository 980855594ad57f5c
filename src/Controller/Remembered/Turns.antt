-- ===== src/Controller/Remembered/Turns.antt =====
-- controller_handlers.c: how many users have their turn before one that waits, while messages are handled.
use runner_orchestrator.Base.{
  ℕ, zero, suc, ◌+◌, ◌≤◌, ◌<◌, ◌≡◌, refl, sym, ap, ◌∙◌, ◌⊎◌, inl, inr, Bool, true, false, ◌&&◌,
  ◌||◌, ite, if_pos, List, [], ◌∷◌, ◌++◌, length, Option, ℤ, ℤ_discrete, arith,
}
use runner_orchestrator.Scheduler.Job.{JobInfo}
use runner_orchestrator.Scheduler.Fair.{user_exists}
use runner_orchestrator.Scheduler.Fair.TurnOrder.{turn_order}
use runner_orchestrator.Scheduler.Fair.Waiting.{place}
use runner_orchestrator.Scheduler.Jobs.{collect_users}
use runner_orchestrator.Scheduler.Jobs.Laws.{dequeue_fair-next, collect_users-exists}
use runner_orchestrator.Scheduler.Jobs.Starvation.{has_job, chosen-closer, left_behind}
use runner_orchestrator.Controller.State.{
  ControllerState, Env, Round, Effect, send, written, log_line,
}
use runner_orchestrator.Controller.Status.{is_fair_policy}
use runner_orchestrator.Controller.Handlers.{
  dequeue_by_policy, start_job, start_loop, send_ack_to_runner,
}
use runner_orchestrator.Controller.Invariant.Start.{
  Leaves, start_cases, left_by, start_loop-stop, start_loop-step,
}
use runner_orchestrator.Controller.Grants.{is_ack}
use runner_orchestrator.Controller.Order.Policies.{not_random}
use runner_orchestrator.Controller.Remembered.{Remembers, start_job-Shrunk, Shrunk-Remembers}

-- Whether an ACK for a job of the user is among the effects.
unfoldable pub acked : ℤ → List Effect → Bool
acked u [] = false
acked u (send to msg ∷ effects) =
    (is_ack msg.type && ite (ℤ_discrete msg.user_id u) true false) || acked u effects
acked u (written to msg ∷ effects) = acked u effects
acked u (log_line user_id command_id elapsed_ms ∷ effects) = acked u effects

pub acked-append : (u : ℤ) (xs ys : List Effect) → acked u (xs ++ ys) ≡ (acked u xs || acked u ys)
unfolding acked
acked-append u [] ys = refl
acked-append u (send to msg ∷ xs) ys = ground (arith, acked-append u xs ys)
acked-append u (written to msg ∷ xs) ys = acked-append u xs ys
acked-append u (log_line user_id command_id elapsed_ms ∷ xs) ys = acked-append u xs ys

-- How many of the remembered users have their turn before the user.
abbrev pub turns_before : ℤ → ControllerState → ℕ
turns_before u s = place (turn_order s.fair_users s.last_scheduled_user) u

-- What a part of the handling of a message leaves to a user that waits: he waits on, and of the remembered users,
-- less those who are new, `n` fewer have their turn before him.
pub record Closer (u : ℤ) (s t : ControllerState) (n : ℕ) : Type 0 where
  pub fair : is_fair_policy t ≡ true
  pub waits : has_job t.waiting_queue u ≡ true
  pub near : turns_before u t + n + length s.fair_users ≤ turns_before u s + length t.fair_users

module _ (u : ℤ) (s : ControllerState) (r : Round) (m : Remembers s)
    (fair : is_fair_policy s ≡ true) (users : r.users_ok ≡ true) where
  -- The job that the fair policy takes is of the user, or brings him closer.
  pub fair_round :
      (j : JobInfo) (q : List JobInfo)
      → s.waiting_queue ≡ j ∷ q
      → has_job s.waiting_queue u ≡ true
      → (l : Leaves s (dequeue_by_policy r s)) × (l.last ≡ l.job.user_id)
        × ((l.job.user_id ≡ u)
            ⊎ ((has_job (l.before ++ l.after) u ≡ true)
                × (place (turn_order s.fair_users l.last) u < turns_before u s)))
  unfolding dequeue_by_policy user_exists
  fair_round j q e waits =
      let (t, named, first) = dequeue_fair-next s.fair_users s.last_scheduled_user j q in
      let l : Leaves s (dequeue_by_policy r s) = record {
        job = t.taken;
        before = t.before;
        after = t.after;
        last = t.taken.user_id;
        split = e ∙ t.split;
        result = rw (not_random s.policy (unfold is_fair_policy in fair), fair, users, e, t.result);
      } in
      (
        l,
        refl,
        elim (ℤ_discrete t.taken.user_id u) [
          | yes served ↦ inl served
          | no other ↦ inr (
            sym (left_behind u t.before t.taken t.after other)
                ∙ ap (λ w. has_job w u) (sym (e ∙ t.split))
                ∙ waits,
            omega (
              arith,
              ap (λ v. place (turn_order s.fair_users v) u) named,
              chosen-closer s.fair_users (collect_users [] (j ∷ q)) s.last_scheduled_user u m.once
                  (m.known u waits)
                  (collect_users-exists [] (j ∷ q) u ∙ ap (λ w. has_job w u) (sym e) ∙ waits)
                  (λ h. other (named ∙ h)),
            ),
          )
        ],
      )

-- The user waits on, and no slot was given away but to one who was before him.
pub record InLine (u : ℤ) (s t : ControllerState) : Type 0 where
  pub fair : is_fair_policy t ≡ true
  pub waits : has_job t.waiting_queue u ≡ true
  pub users : t.fair_users ≡ s.fair_users
  pub near : turns_before u t + t.running_count ≤ turns_before u s + s.running_count

InLine-trans :
    (u : ℤ) (s s' s'' : ControllerState) → InLine u s s' → InLine u s' s'' → InLine u s s''
InLine-trans u s s' s'' a b = record {
  fair = b.fair;
  waits = b.waits;
  users = b.users ∙ a.users;
  near = omega (arith, a.near, b.near);
}

-- Memory for the array of users, and for the users and the nodes while jobs are started.
pub record FairMemory (env : Env) : Type 0 where
  pub realloc : env.realloc_ok ≡ true
  pub users : (i : ℕ) → (env.rounds i).users_ok ≡ true
  pub nodes : (i : ℕ) → (env.rounds i).node_ok ≡ true

module _ (u : ℤ) (env : Env) (m : FairMemory env) where
  start_job-acked :
      (i : ℕ) (s : ControllerState) (j : JobInfo)
      → j.user_id ≡ u
      → acked u (start_job env (env.rounds i) s j).1 ≡ true
  unfolding start_job acked send_ack_to_runner
  start_job-acked i s j e = rw (m.nodes i, if_pos (ℤ_discrete j.user_id u) e true false) refl

  start_job-InLine :
      (i : ℕ) (s : ControllerState) {o : Option (JobInfo × ControllerState)} (l : Leaves s o)
      → is_fair_policy s ≡ true
      → l.last ≡ l.job.user_id
      → has_job (l.before ++ l.after) u ≡ true
      → place (turn_order s.fair_users l.last) u < turns_before u s
      → InLine u s (start_job env (env.rounds i) (left_by s l) l.job).0
  unfolding start_job is_fair_policy
  start_job-InLine i s l fair last waits near = rw (m.nodes i) (record {
    fair = fair;
    waits = waits;
    users = refl;
    near = omega (arith, near, ap (λ v. place (turn_order s.fair_users v) u) last);
  })

  pub start_loop-InLine :
      (k i : ℕ) (s : ControllerState)
      → Remembers s
      → is_fair_policy s ≡ true
      → has_job s.waiting_queue u ≡ true
      → (acked u (start_loop env k i s).1 ≡ true) ⊎ InLine u s (start_loop env k i s).0
  start_loop-InLine zero i s r fair waits =
      unfold start_loop in
      inr (record { fair = fair; waits = waits; users = refl; near = omega arith })
  start_loop-InLine (suc k) i s r fair waits = elim (start_cases s) [
    | inl (stop, _) ↦
        rw (start_loop-stop env (suc k) i s stop)
          (inr (record { fair = fair; waits = waits; users = refl; near = omega arith }))
    | inr (go, free, j, q, e) ↦
        let (l, last, next) = fair_round u s (env.rounds i) r fair (m.users i) j q e waits in
        let s' = (start_job env (env.rounds i) (left_by s l) l.job).0 in
        let sent = (start_job env (env.rounds i) (left_by s l) l.job).1 in
        let rest = start_loop env k (i + 1) s' in
        rw (start_loop-step env k i s go l) (elim next [
          | inl served ↦ inl (
              acked-append u sent rest.1
              ∙ ap (λ b. b || acked u rest.1) (start_job-acked i (left_by s l) l.job served))
          | inr (still, nearer) ↦
              let line = start_job-InLine i s l fair last still nearer in
              let r' = Shrunk-Remembers s s' (start_job-Shrunk env (env.rounds i) s l) r in
              elim (start_loop-InLine k (i + 1) s' r' line.fair line.waits) [
                | inl served ↦ inl (ground (arith, acked-append u sent rest.1, served))
                | inr on ↦ inr (InLine-trans u s s' rest.0 line on)
              ]
        ])
  ]
