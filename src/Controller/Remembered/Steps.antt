-- ===== src/Controller/Remembered/Steps.antt =====
-- controller_handlers.c: what the parts of a message's handling do to the turns.
use runner_orchestrator.Base.{
  ℕ, ◌+◌, ◌≡◌, refl, ap, ◌∙◌, inl, inr, Bool, true, false, Bool-cases, not, ◌||◌, ltb, ◌==◌, [],
  ◌∷◌, length, length-append, ℤ, arith,
}
use runner_orchestrator.Protocol.{RpcMessage}
use runner_orchestrator.Scheduler.Job.{job_queued}
use runner_orchestrator.Scheduler.Jobs.{enqueue, remove_by_command_id}
use runner_orchestrator.Scheduler.Jobs.Laws.{remove_first-TakesOut, length-TakesOut}
use runner_orchestrator.Scheduler.Fair.{user_exists}
use runner_orchestrator.Scheduler.Jobs.Starvation.{has_job}
use runner_orchestrator.Controller.State.{ControllerState, Env}
use runner_orchestrator.Controller.Status.{is_fair_policy}
use runner_orchestrator.Controller.Handlers.{
  submitted_job, remember_fair_user, place_job, finish_job, try_finish_shutdown, is_empty,
}
use runner_orchestrator.Controller.Conservation.{
  is_running, count_of-same, count_in-missing, count_in-middle, count_in,
}
use runner_orchestrator.Controller.Invariant.{IsValid}
use runner_orchestrator.Controller.Remembered.{has_job-append}
use runner_orchestrator.Scheduler.Fair.Grown.{turn_order-grown}
use runner_orchestrator.Controller.Remembered.Turns.{Closer}

pub Closer-trans :
    (u : ℤ) (s s' s'' : ControllerState) (n k : ℕ)
    → Closer u s s' n
    → Closer u s' s'' k
    → Closer u s s'' (n + k)
Closer-trans u s s' s'' n k a b = record {
  fair = b.fair;
  waits = b.waits;
  near = omega (arith, a.near, b.near);
}

-- While a job waits, every slot is taken.
pub full_while_waiting :
    (s : ControllerState) (u : ℤ)
    → IsValid s
    → has_job s.waiting_queue u ≡ true
    → s.running_count ≡ s.parallel_limit
unfolding user_exists
full_while_waiting s u v waits = elim v.busy [
  | inl empty ↦ absurd (cc (ap (λ q. has_job q u) empty, waits))
  | inr full ↦ full
]

module _ (u : ℤ) (s : ControllerState) (fair : is_fair_policy s ≡ true)
    (waits : has_job s.waiting_queue u ≡ true) where
  pub remember_fair_user-Closer : (user : ℤ) → Closer u s (remember_fair_user true s user) 0
  unfolding remember_fair_user is_fair_policy
  remember_fair_user-Closer user = elim (Bool-cases (user_exists s.fair_users user)) [
    | inl old ↦ rw old (record { fair = fair; waits = waits; near = omega arith })
    | inr new ↦ elim (Bool-cases (length s.fair_users == s.fair_user_capacity)) [
      | inl grows ↦
          rw (new, grows)
            (record {
              fair = fair;
              waits = waits;
              near = omega (
                arith,
                length-append s.fair_users (user ∷ []),
                turn_order-grown s.fair_users s.last_scheduled_user user u,
              );
            })
      | inr room ↦
          rw (new, room)
            (record {
              fair = fair;
              waits = waits;
              near = omega (
                arith,
                length-append s.fair_users (user ∷ []),
                turn_order-grown s.fair_users s.last_scheduled_user user u,
              );
            })
    ]
  ]

  -- A submission is queued behind.
  pub place_job-Closer :
      (env : Env) (msg : RpcMessage)
      → s.running_count ≡ s.parallel_limit
      → Closer u s (place_job env s msg).0 0
  unfolding place_job enqueue submitted_job is_fair_policy
  place_job-Closer env msg full = elim (Bool-cases (ltb s.running_count s.parallel_limit)) [
    | inl free ↦ absurd (ground (arith, free, full))
    | inr none_free ↦ elim (Bool-cases env.node_ok) [
      | inl ok ↦
          rw (none_free, ok)
            (record {
              fair = fair;
              waits = ground (
                arith,
                has_job-append s.waiting_queue (submitted_job env msg job_queued ∷ []) u,
                waits,
              );
              near = omega arith;
            })
      | inr failed ↦
          rw (none_free, failed) (record { fair = fair; waits = waits; near = omega arith })
    ]
  ]

  pub try_finish_shutdown-Closer : Closer u s (try_finish_shutdown s).0 0
  unfolding try_finish_shutdown is_fair_policy
  try_finish_shutdown-Closer =
      elim (Bool-cases
        (not s.is_shutting_down || not (s.running_count == 0) || not (is_empty s.waiting_queue))) [
          | inl stay ↦ rw stay (record { fair = fair; waits = waits; near = omega arith })
          | inr stop ↦ rw stop (record { fair = fair; waits = waits; near = omega arith })
        ]

-- A DONE of a running job frees a slot, and nothing that the turns depend on is touched.
pub record Freed (s t : ControllerState) (n : ℕ) : Type 0 where
  pub slots : t.running_count + n ≡ s.running_count
  pub policy : t.policy ≡ s.policy
  pub waiting : t.waiting_queue ≡ s.waiting_queue
  pub users : t.fair_users ≡ s.fair_users
  pub last : t.last_scheduled_user ≡ s.last_scheduled_user

abbrev pub as_number : Bool → ℕ
as_number true = 1
as_number false = 0

pub finish_job-Freed :
    (env : Env) (s : ControllerState) (msg : RpcMessage)
    → IsValid s
    → Freed s (finish_job env s msg).0 (as_number (is_running msg.command_id s))
unfolding finish_job remove_by_command_id
finish_job-Freed env s msg v =
    elim (remove_first-TakesOut (λ j. j.command_id) msg.command_id s.running_queue) [
      | inl (t, found, first) ↦
          let one =
            ap (count_in msg.command_id) t.split
            ∙ count_in-middle msg.command_id t.before t.taken t.after in
          rw (t.result, finish_job)
            (record {
              slots = ground (
                arith,
                one,
                found,
                count_of-same msg.command_id,
                v.base.counted,
                length-TakesOut s.running_queue _ t,
              );
              policy = refl;
              waiting = refl;
              users = refl;
              last = refl;
            })
      | inr (missing, absent) ↦
          rw (missing, finish_job)
            (record {
              slots = ground (arith, count_in-missing msg.command_id s.running_queue absent);
              policy = refl;
              waiting = refl;
              users = refl;
              last = refl;
            })
    ]
