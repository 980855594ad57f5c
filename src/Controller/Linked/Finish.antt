-- ===== src/Controller/Linked/Finish.antt =====
-- `finish_job` on the heap: the job that leaves the running queue.
use runner_orchestrator.Base.{
  ◌-◌, ◌≡◌, refl, sym, ap, ltb, if◌then◌else◌, List, [], none, some, arith,
}
use runner_orchestrator.Protocol.{RpcMessage}
use runner_orchestrator.Scheduler.Jobs.{Taken, remove_by_command_id}
use runner_orchestrator.Scheduler.Queue.{Removal}
use runner_orchestrator.Store.{Heap, Ends, bind-Ends}
use runner_orchestrator.Store.Cells.{Cells, jobs}
use runner_orchestrator.Controller.State.{ControllerState, Env, Effect}
use runner_orchestrator.Controller.Handlers.{finish_job, log_finished_job}
use runner_orchestrator.Controller.Linked.{PointerState, view, finish_job_heap, finished_heap}
use runner_orchestrator.Controller.Linked.Two.{Two, Two-swap}
use runner_orchestrator.Controller.Linked.Operations.{Removes, queue_remove_by_command_id-Removes}
use runner_orchestrator.Controller.Linked.Views.{Does}

module _ (h0 h : Heap) (s : PointerState) (ws rs : Cells)
    (t : Two h0 h s.waiting_queue s.running_queue ws rs) where
  abbrev listed : ControllerState
  listed = view s (jobs ws) (jobs rs)

  swapped : Two h0 h s.running_queue s.waiting_queue rs ws
  swapped = Two-swap h0 h s.waiting_queue s.running_queue ws rs t

  -- What `finish_job` makes of the job that left the running queue.
  abbrev finished_as : Env → Taken → ControllerState × List Effect
  finished_as env none = (listed, [])
  finished_as env (some (job, rest)) = (
    record listed {
      running_queue = rest;
      running_count = if ltb 0 s.running_count then s.running_count - 1 else s.running_count;
    },
    log_finished_job env job,
  )

  finish_job-finished_as :
      (env : Env) (msg : RpcMessage) (r : Taken)
      → remove_by_command_id msg.command_id (jobs rs) ≡ r
      → finish_job env listed msg ≡ finished_as env r
  unfolding finish_job
  finish_job-finished_as env msg none e = rw (e, finish_job) refl
  finish_job-finished_as env msg (some (job, rest)) e = rw (e, finish_job) refl

  finished_heap-Does :
      (env : Env) (r : Taken) (x : Removal) (g : Heap)
      → Removes h0 h s.waiting_queue rs ws r x g
      → Ends (Does h0 (finished_as env r)) (finished_heap env s x g)
  finished_heap-Does env none (none, q) g (o, left) = record {
    value = _;
    heap = g;
    ran = refl;
    holds = (
      record {
        waiting = ws;
        running = left.cells;
        two = Two-swap h0 g q s.waiting_queue left.cells ws left.two;
        same = ap (λ l. view s (jobs ws) l) (sym (left.left_jobs));
      },
      refl,
    );
  }
  finished_heap-Does env none (some job, q) g (o, left) = absurd (cc o)
  finished_heap-Does env (some (job, rest)) (none, q) g (o, left) = absurd (cc o)
  finished_heap-Does env (some (job, rest)) (some job', q) g (o, left) = record {
    value = _;
    heap = g;
    ran = refl;
    holds = (
      record {
        waiting = ws;
        running = left.cells;
        two = Two-swap h0 g q s.waiting_queue left.cells ws left.two;
        same =
            ap
              (λ l. record listed {
                running_queue = l;
                running_count =
                    if ltb 0 s.running_count then s.running_count - 1 else s.running_count;
              })
              (sym (left.left_jobs));
      },
      ap (log_finished_job env) (ground (arith, o)),
    );
  }

  pub finish_job_heap-Does :
      (env : Env) (msg : RpcMessage)
      → Ends (Does h0 (finish_job env listed msg)) (finish_job_heap env s msg h)
  unfolding finish_job_heap
  finish_job_heap-Does env msg = rw (finish_job-finished_as env msg _ refl) (
      bind-Ends _ _
        (queue_remove_by_command_id-Removes h0 h s.waiting_queue rs ws s.running_queue
          msg.command_id swapped)
        (finished_heap-Does env _))
