-- ===== src/Controller/Linked/Views.antt =====
-- The parts of the handlers that take one step on a queue, against those of Controller/Handlers.antt.
use runner_orchestrator.Base.{
  ℕ, ◌≡◌, refl, sym, ap, false, Bool-cases, ◌==◌, List, [], Option, none, some, inl, inr, ℤ,
}
use runner_orchestrator.Scheduler.Job.{JobInfo}
use runner_orchestrator.Scheduler.Jobs.{Taken}
use runner_orchestrator.Scheduler.Queue.DequeueFair.{last_after}
use runner_orchestrator.Scheduler.Queue.{Removal}
use runner_orchestrator.Store.{null, Heap, Ends, bind-Ends}
use runner_orchestrator.Store.Cells.{Cells, jobs}
use runner_orchestrator.Controller.State.{ControllerState, Round, Effect}
use runner_orchestrator.Controller.Status.{same_text, is_fair_policy}
use runner_orchestrator.Controller.Handlers.{
  random_name, leave_waiting, leave_fairly, dequeue_by_policy,
}
use runner_orchestrator.Controller.Linked.{
  PointerState, view, Malloc, TakenFrom, dequeue_by_policy_heap,
}
use runner_orchestrator.Controller.Linked.Two.{Two}
use runner_orchestrator.Controller.Linked.Operations.{
  Removes, queue_dequeue-Removes, queue_dequeue_random-Removes, queue_dequeue_fair-Removes,
}

-- The struct on the heap shows this state.
pub record Shows (h0 h : Heap) (s : PointerState) (t : ControllerState) : Type 0 where
  pub waiting : Cells
  pub running : Cells
  pub two : Two h0 h s.waiting_queue s.running_queue waiting running
  pub same : t ≡ view s (jobs waiting) (jobs running)

-- The state and the effects are those of the handler on lists.
abbrev pub Does : Heap → ControllerState × List Effect → PointerState × List Effect → Heap → Type 0
Does h0 (t, effects) (s, done_effects) g = Shows h0 g s t × (done_effects ≡ effects)

abbrev pub TookAs :
    Heap → ControllerState → Option (JobInfo × ControllerState) → TakenFrom → Heap → Type 0
TookAs h0 t none (out, s) g = (out ≡ none) × Shows h0 g s t
TookAs h0 t (some (job, t')) (out, s) g = (out ≡ some job) × Shows h0 g s t'

-- `malloc` returns NULL or an address where no node stands.
abbrev pub IsMalloc : Malloc → Type 0
IsMalloc malloc = (i : ℕ) (h : Heap) → (malloc i h == null) ≡ false → h (malloc i h) ≡ none

module _ (h0 h : Heap) (s : PointerState) (ws rs : Cells)
    (t : Two h0 h s.waiting_queue s.running_queue ws rs) where
  abbrev listed : ControllerState
  listed = view s (jobs ws) (jobs rs)

  leave_waiting-TookAs :
      (r : Taken) (x : Removal) (g : Heap)
      → Removes h0 h s.running_queue ws rs r x g
      → TookAs h0 listed (leave_waiting listed r) (x.0, record s { waiting_queue = x.1 }) g
  leave_waiting-TookAs none (out, p) g (o, left) = (
    o,
    record {
      waiting = left.cells;
      running = rs;
      two = left.two;
      same = ap (λ l. view s l (jobs rs)) (sym (left.left_jobs));
    },
  )
  leave_waiting-TookAs (some (job, rest)) (out, p) g (o, left) = (
    o,
    record {
      waiting = left.cells;
      running = rs;
      two = left.two;
      same = ap (λ l. view s l (jobs rs)) (sym (left.left_jobs));
    },
  )

  leave_fairly-TookAs :
      (r : Taken) (x : Removal) (now : ℤ) (g : Heap)
      → Removes h0 h s.running_queue ws rs r x g
      → now ≡ last_after s.last_scheduled_user r
      → TookAs h0 listed
          (leave_fairly listed r)
          (x.0, record s { waiting_queue = x.1; last_scheduled_user = now })
          g
  leave_fairly-TookAs none (out, p) now g (o, left) e = rw e (
    o,
    record {
      waiting = left.cells;
      running = rs;
      two = left.two;
      same = ap (λ l. view s l (jobs rs)) (sym (left.left_jobs));
    },
  )
  leave_fairly-TookAs (some (job, rest)) (out, p) now g (o, left) e = rw e (
    o,
    record {
      waiting = left.cells;
      running = rs;
      two = left.two;
      same =
          ap (λ l. view (record s { last_scheduled_user = job.user_id }) l (jobs rs))
            (sym (left.left_jobs));
    },
  )

  pub dequeue_by_policy_heap-TookAs :
      (r : Round)
      → Ends (TookAs h0 listed (dequeue_by_policy r listed)) (dequeue_by_policy_heap r s h)
  unfolding dequeue_by_policy dequeue_by_policy_heap is_fair_policy
  dequeue_by_policy_heap-TookAs r = elim (Bool-cases (same_text s.policy random_name)) [
    | inl random ↦ rw random (
        bind-Ends _ _
          (queue_dequeue_random-Removes h0 h s.running_queue ws rs s.waiting_queue r.rand t)
          (λ x g e. record {
            value = (x.0, record s { waiting_queue = x.1 });
            heap = g;
            ran = refl;
            holds = leave_waiting-TookAs _ x g e;
          }))
    | inr other ↦ elim (Bool-cases (is_fair_policy (view s [] []))) [
      | inl fair ↦
          rw (other, fair)
            (bind-Ends _ _
              (queue_dequeue_fair-Removes h0 h s.running_queue ws rs s.waiting_queue r.users_ok
                s.fair_users s.last_scheduled_user t)
              (λ (x, now) g (e, user). record {
                value = (x.0, record s { waiting_queue = x.1; last_scheduled_user = now });
                heap = g;
                ran = refl;
                holds = leave_fairly-TookAs _ x now g e user;
              }))
      | inr fcfs ↦
          rw (other, fcfs)
            (bind-Ends _ _ (queue_dequeue-Removes h0 h s.running_queue ws rs s.waiting_queue t)
              (λ x g e. record {
                value = (x.0, record s { waiting_queue = x.1 });
                heap = g;
                ran = refl;
                holds = leave_waiting-TookAs _ x g e;
              }))
    ]
  ]
