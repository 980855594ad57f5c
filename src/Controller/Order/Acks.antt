-- ===== src/Controller/Order/Acks.antt =====
-- Which runners are told of a start.
use mathlib.Core.List.{append-nil, append_assoc}
use runner_orchestrator.Base.{
  ℕ, zero, suc, ◌+◌, ◌≡◌, refl, sym, ap, ◌∙◌, inl, inr, Bool-cases, List, [], ◌∷◌, ◌++◌, length,
  length-append, map, Option, arith,
}
use runner_orchestrator.Scheduler.Job.{JobInfo}
use runner_orchestrator.Scheduler.Jobs.{enqueue}
use runner_orchestrator.Controller.State.{ControllerState, Env, Round, Effect}
use runner_orchestrator.Controller.Handlers.{
  start_job, start_loop, start_waiting_jobs, then_do, send_ack_to_runner,
}
use runner_orchestrator.Controller.Invariant.Start.{
  Leaves, dequeue_by_policy-Leaves, start_cases, left_by, start_loop-stop, start_loop-step,
}
use runner_orchestrator.Controller.Order.{as_running}

-- The jobs that were started: they are behind the running queue, they are counted, and an ACK went to
-- the runner of each, in order, and nothing else went out.
pub record Started (env : Env) (s : ControllerState) (r : ControllerState × List Effect)
    : Type 0 where
  pub jobs : List JobInfo
  pub queued : r.0.running_queue ≡ s.running_queue ++ jobs
  pub counted : r.0.running_count ≡ s.running_count + length jobs
  pub told : r.1 ≡ map (send_ack_to_runner env) jobs

module _ (env : Env) (r : Round) (s : ControllerState) {o : Option (JobInfo × ControllerState)}
    (l : Leaves s o) where
  start_job-Started : Started env s (start_job env r (left_by s l) l.job)
  unfolding start_job enqueue
  start_job-Started = elim (Bool-cases r.node_ok) [
    | inl ok ↦
        rw ok (record {
          jobs = as_running l.job ∷ [];
          queued = refl;
          counted = omega arith;
          told = refl;
        })
    | inr failed ↦ rw failed (record {
      jobs = [];
      queued = sym (append-nil s.running_queue);
      counted = omega arith;
      told = refl;
    })
  ]

map-append-told :
    (env : Env) (xs ys : List JobInfo)
    → map (send_ack_to_runner env) (xs ++ ys)
      ≡ map (send_ack_to_runner env) xs ++ map (send_ack_to_runner env) ys
map-append-told env [] ys = refl
map-append-told env (x ∷ xs) ys = ap (λ l. send_ack_to_runner env x ∷ l) (map-append-told env xs ys)

Started-then :
    (env : Env) (s : ControllerState) (first : ControllerState × List Effect)
    (second : ControllerState × List Effect)
    → Started env s first
    → Started env first.0 second
    → Started env s (then_do second first.1)
Started-then env s first second a b = record {
  jobs = a.jobs ++ b.jobs;
  queued = b.queued ∙ ap (λ q. q ++ b.jobs) a.queued ∙ append_assoc s.running_queue a.jobs b.jobs;
  counted = omega (arith, a.counted, b.counted, length-append a.jobs b.jobs);
  told = rw (a.told, b.told) (sym (map-append-told env a.jobs b.jobs));
}

nothing : (env : Env) (s : ControllerState) → Started env s (s, [])
nothing env s = record {
  jobs = [];
  queued = sym (append-nil s.running_queue);
  counted = omega arith;
  told = refl;
}

start_loop-Started :
    (env : Env) (k i : ℕ) (s : ControllerState) → Started env s (start_loop env k i s)
start_loop-Started env zero i s = unfold start_loop in nothing env s
start_loop-Started env (suc k) i s = elim (start_cases s) [
  | inl (stop, _) ↦ rw (start_loop-stop env (suc k) i s stop) (nothing env s)
  | inr (go, free, j, q, e) ↦
      let l = dequeue_by_policy-Leaves (env.rounds i) s j q e in
      rw (start_loop-step env k i s go l) (
        Started-then env s (start_job env (env.rounds i) (left_by s l) l.job)
          (start_loop env k (i + 1) (start_job env (env.rounds i) (left_by s l) l.job).0)
          (start_job-Started env (env.rounds i) s l)
          (start_loop-Started env k (i + 1) (start_job env (env.rounds i) (left_by s l) l.job).0))
]

-- The jobs that `start_waiting_jobs` puts behind the running queue are exactly those whose runners it
-- sends an ACK, in the same order, and `running_count` grows by their number.
pub start_waiting_jobs-Started :
    (env : Env) (s : ControllerState) → Started env s (start_waiting_jobs env s)
unfolding start_waiting_jobs
start_waiting_jobs-Started env s = start_loop-Started env (length s.waiting_queue) 0 s
