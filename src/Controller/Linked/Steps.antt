-- ===== src/Controller/Linked/Steps.antt =====
-- A job that is put into a queue, against Controller/Handlers.antt.
use runner_orchestrator.Base.{
  ℕ, ◌+◌, ◌≡◌, refl, sym, ap, Bool, true, false, not, Bool-cases, ◌==◌, ltb, if◌then◌else◌, List,
  [], ◌∷◌, inl, inr,
}
use runner_orchestrator.Protocol.{RpcMessage}
use runner_orchestrator.Scheduler.Job.{JobInfo, job_running, job_queued}
use runner_orchestrator.Scheduler.Jobs.{enqueue}
use runner_orchestrator.Scheduler.Queue.{QueuePtr}
use runner_orchestrator.Store.{null, Heap, Ends, bind-Ends}
use runner_orchestrator.Store.Cells.{Cells, jobs}
use runner_orchestrator.Controller.State.{ControllerState, Env, Round, Effect}
use runner_orchestrator.Controller.Handlers.{
  start_job, place_job, send_ack_to_runner, submitted_job,
}
use runner_orchestrator.Controller.Linked.{
  PointerState, view, Malloc, start_job_heap, started, place_job_heap,
}
use runner_orchestrator.Controller.Linked.Two.{Two, Two-swap}
use runner_orchestrator.Controller.Linked.Operations.{Grows, queue_enqueue-Grows}
use runner_orchestrator.Controller.Linked.Views.{Does, IsMalloc}

module _ (h0 h : Heap) (s : PointerState) (ws rs : Cells)
    (t : Two h0 h s.waiting_queue s.running_queue ws rs) where
  abbrev listed : ControllerState
  listed = view s (jobs ws) (jobs rs)

  swapped : Two h0 h s.running_queue s.waiting_queue rs ws
  swapped = Two-swap h0 h s.waiting_queue s.running_queue ws rs t

  -- The state with the job in the running queue and its ACK, or neither.
  abbrev started_as : Env → JobInfo → Bool → ControllerState × List Effect
  started_as env job true = (
    record listed {
      running_queue = enqueue (jobs rs) job;
      running_count = s.running_count + 1;
      last_scheduled_user = job.user_id;
    },
    send_ack_to_runner env job ∷ [],
  )
  started_as env job false = (listed, [])

  started-Does :
      (env : Env) (job : JobInfo) (ok : Bool) (x : Bool × QueuePtr) (g : Heap)
      → Grows h0 h s.waiting_queue rs ws job ok x g
      → Ends (Does h0 (started_as env job ok)) (started env s job x g)
  started-Does env job true (true, q) g (e, left) = record {
    value = _;
    heap = g;
    ran = refl;
    holds = (
      record {
        waiting = ws;
        running = left.cells;
        two = Two-swap h0 g q s.waiting_queue left.cells ws left.two;
        same =
            ap
              (λ l. record listed {
                running_queue = l;
                running_count = s.running_count + 1;
                last_scheduled_user = job.user_id;
              })
              (sym (left.left_jobs));
      },
      refl,
    );
  }
  started-Does env job true (false, q) g (e, left) = absurd (cc e)
  started-Does env job false (true, q) g (e, left) = absurd (cc e)
  started-Does env job false (false, q) g (e, left) = record {
    value = _;
    heap = g;
    ran = refl;
    holds = (
      record {
        waiting = ws;
        running = left.cells;
        two = Two-swap h0 g q s.waiting_queue left.cells ws left.two;
        same = ap (λ l. view s (jobs ws) l) (sym (left.left_jobs));
      },
      refl,
    );
  }

  -- The state with the job in the waiting queue, or as it was.
  abbrev queued_as : JobInfo → Bool → ControllerState × List Effect
  queued_as job true = (record listed { waiting_queue = enqueue (jobs ws) job }, [])
  queued_as job false = (listed, [])

  queued-Does :
      (job : JobInfo) (ok : Bool) (x : Bool × QueuePtr) (g : Heap)
      → Grows h0 h s.running_queue ws rs job ok x g
      → Does h0 (queued_as job ok) (record s { waiting_queue = x.1 }, []) g
  queued-Does job true (r, q) g (e, left) = (
    record {
      waiting = left.cells;
      running = rs;
      two = left.two;
      same = ap (λ l. view s l (jobs rs)) (sym (left.left_jobs));
    },
    refl,
  )
  queued-Does job false (r, q) g (e, left) = (
    record {
      waiting = left.cells;
      running = rs;
      two = left.two;
      same = ap (λ l. view s l (jobs rs)) (sym (left.left_jobs));
    },
    refl,
  )

  start_job-started_as :
      (env : Env) (r : Round) (job : JobInfo)
      → start_job env r listed job ≡ started_as env (record job { state = job_running }) r.node_ok
  unfolding start_job
  start_job-started_as env r job = elim (Bool-cases r.node_ok) [
    | inl room ↦ rw room refl
    | inr full ↦ rw full refl
  ]

  place_job-as :
      (env : Env) (msg : RpcMessage) (ok : Bool)
      → env.node_ok ≡ ok
      → place_job env listed msg ≡ (
          if ltb s.running_count s.parallel_limit
          then started_as env (submitted_job env msg job_running) ok
          else queued_as (submitted_job env msg job_queued) ok)
  unfolding place_job submitted_job
  place_job-as env msg true answer = elim (Bool-cases (ltb s.running_count s.parallel_limit)) [
    | inl free ↦ rw (free, answer) refl
    | inr taken ↦ rw (taken, answer) refl
  ]
  place_job-as env msg false answer = elim (Bool-cases (ltb s.running_count s.parallel_limit)) [
    | inl free ↦ rw (free, answer) refl
    | inr taken ↦ rw (taken, answer) refl
  ]

  module _ (env : Env) (malloc : Malloc) (unused : IsMalloc malloc) where
    pub start_job_heap-Does :
        (r : Round) (i : ℕ) (job : JobInfo)
        → r.node_ok ≡ not (malloc i h == null)
        → Ends (Does h0 (start_job env r listed job)) (start_job_heap env malloc i s job h)
    unfolding start_job start_job_heap
    start_job_heap-Does r i job answer =
        let next_job = record job { state = job_running } in
        rw (start_job-started_as env r job, answer)
          (bind-Ends _ _
            (queue_enqueue-Grows h0 h s.waiting_queue rs ws s.running_queue (malloc i h) next_job
              (unused i h) swapped)
            (started-Does env next_job (not (malloc i h == null))))

    pub place_job_heap-Does :
        (msg : RpcMessage)
        → env.node_ok ≡ not (malloc 0 h == null)
        → Ends (Does h0 (place_job env listed msg)) (place_job_heap env malloc s msg h)
    unfolding place_job_heap
    place_job_heap-Does msg answer = elim (Bool-cases (ltb s.running_count s.parallel_limit)) [
      | inl free ↦
          rw (place_job-as env msg _ answer, free)
            (bind-Ends _ _
              (queue_enqueue-Grows h0 h s.waiting_queue rs ws s.running_queue (malloc 0 h)
                (submitted_job env msg job_running) (unused 0 h) swapped)
              (started-Does env (submitted_job env msg job_running) (not (malloc 0 h == null))))
      | inr taken ↦
          rw (place_job-as env msg _ answer, taken)
            (bind-Ends _ _
              (queue_enqueue-Grows h0 h s.running_queue ws rs s.waiting_queue (malloc 0 h)
                (submitted_job env msg job_queued) (unused 0 h) t)
              (λ x g e. record {
                value = (record s { waiting_queue = x.1 }, []);
                heap = g;
                ran = refl;
                holds = queued-Does (submitted_job env msg job_queued) _ x g e;
              }))
    ]
