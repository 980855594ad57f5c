-- ===== src/Controller/Linked/Dispatch.antt =====
-- The handlers of the single types of message, against those of Controller/Handlers.antt.
use runner_orchestrator.Base.{
  ℕ, ◌≡◌, refl, sym, ap, Bool, true, not, ◌==◌, List, [], ◌++◌, arith, subst, ℤ,
}
use runner_orchestrator.Protocol.{
  MsgType, submit, status, shutdown, ack, done, status_req, status_resp, status_end, shutdown_req,
  shutdown_ack, RpcMessage,
}
use runner_orchestrator.Store.{null, Heap, Ends, bind-Ends, pure}
use runner_orchestrator.Store.Cells.{jobs}
use runner_orchestrator.Controller.State.{ControllerState, Env, Effect}
use runner_orchestrator.Controller.Status.{handle_status_req}
use runner_orchestrator.Controller.Handlers.{
  remember_fair_user, place_job, finish_job, handle_submit, handle_done, handle_shutdown_req,
  send_ack_to_runner, submitted_job, log_finished_job,
}
use runner_orchestrator.Controller.Messages.{dispatch}
use runner_orchestrator.Controller.Linked.{
  PointerState, view, Malloc, remember_user_heap, place_job_heap, handle_submit_heap,
  finish_job_heap, handle_done_heap, start_waiting_jobs_heap, Handled, unasked,
  handle_status_req_heap, dispatch_heap,
}
use runner_orchestrator.Controller.Linked.Two.{Two-swap}
use runner_orchestrator.Controller.Linked.Operations.{queue_copy_to_array-Two}
use runner_orchestrator.Controller.Linked.Views.{Shows, Does, IsMalloc}
use runner_orchestrator.Controller.Linked.Steps.{place_job_heap-Does}
use runner_orchestrator.Controller.Linked.Finish.{finish_job_heap-Does}
use runner_orchestrator.Controller.Linked.Loop.{start_waiting_jobs_heap-Does}

-- The outside with these answers of `malloc`, for the submission's node and in the rounds.
abbrev pub given : Env → Bool → (ℕ → Bool) → Env
given env ok a = record env { node_ok = ok; rounds = λ i. record (env.rounds i) { node_ok = a i } }

-- A handler does what the one on lists does, for the answers that `malloc` gave.
abbrev pub DoesFor : Heap → Env → (Env → ControllerState × List Effect) → Handled → Heap → Type 0
DoesFor h0 env f (s, did, ok, a) g = Does h0 (f (given env ok a)) (s, did) g

remember_user_heap-Shows :
    (h0 h : Heap) (s : PointerState) (t : ControllerState) (ok : Bool) (user : ℤ)
    → Shows h0 h s t
    → Shows h0 h (remember_user_heap ok s user) (remember_fair_user ok t user)
unfolding remember_user_heap remember_fair_user
remember_user_heap-Shows h0 h s t ok user shows = record {
  waiting = shows.waiting;
  running = shows.running;
  two = shows.two;
  same = rw (shows.same) (ground arith);
}

-- What `malloc` answers is not read from the environment.
place_job_heap-given :
    (env : Env) (ok : Bool) (a : ℕ → Bool) (malloc : Malloc) (s : PointerState) (msg : RpcMessage)
    (h : Heap)
    → place_job_heap (given env ok a) malloc s msg h ≡ place_job_heap env malloc s msg h
unfolding place_job_heap submitted_job send_ack_to_runner
place_job_heap-given env ok a malloc s msg h = refl

finish_job-given :
    (env : Env) (ok : Bool) (a : ℕ → Bool) (t : ControllerState) (msg : RpcMessage)
    → finish_job (given env ok a) t msg ≡ finish_job env t msg
unfolding finish_job log_finished_job
finish_job-given env ok a t msg = refl

handle_shutdown_req-Shows :
    (h0 h : Heap) (s : PointerState) (t : ControllerState) (msg : RpcMessage)
    → Shows h0 h s t
    → Shows h0 h
        (record s { is_shutting_down = true; shutdown_requester_pid = msg.sender_pid })
        (handle_shutdown_req t msg)
unfolding handle_shutdown_req
handle_shutdown_req-Shows h0 h s t msg shows = record {
  waiting = shows.waiting;
  running = shows.running;
  two = shows.two;
  same = ap (λ (u : ControllerState). handle_shutdown_req u msg) (shows.same);
}

module _ (h0 : Heap) (env : Env) (malloc : Malloc) (unused : IsMalloc malloc) (h : Heap)
    (s : PointerState) (t : ControllerState) (msg : RpcMessage) (shows : Shows h0 h s t) where
  handle_submit_heap-Does :
      Ends (DoesFor h0 env (λ e. handle_submit e t msg)) (handle_submit_heap env malloc s msg h)
  unfolding handle_submit handle_submit_heap
  handle_submit_heap-Does =
      let ok = not (malloc 0 h == null) in
      let a = unasked env in
      let s1 = remember_user_heap env.realloc_ok s msg.user_id in
      let now = remember_user_heap-Shows h0 h s t env.realloc_ok msg.user_id shows in
      bind-Ends (place_job_heap env malloc s1 msg h) _
        (subst
          (λ t'.
            Ends (Does h0 (place_job (given env ok a) t' msg)) (place_job_heap env malloc s1 msg h))
          (sym (now.same))
          (subst
            (λ r.
              Ends
                (Does h0
                  (place_job (given env ok a) (view s1 (jobs now.waiting) (jobs now.running)) msg))
                r)
            (place_job_heap-given env ok a malloc s1 msg h)
            (place_job_heap-Does h0 h s1 now.waiting now.running now.two (given env ok a) malloc
              unused msg refl)))
        (λ x g d. record { value = (x.0, x.1, ok, a); heap = g; ran = refl; holds = d })

  handle_done_heap-Does :
      Ends (DoesFor h0 env (λ e. handle_done e t msg)) (handle_done_heap env malloc s msg h)
  unfolding handle_done handle_done_heap
  handle_done_heap-Does =
      bind-Ends (finish_job_heap env s msg h) _
        (subst (λ t'. Ends (Does h0 (finish_job env t' msg)) (finish_job_heap env s msg h))
          (sym (shows.same))
          (finish_job_heap-Does h0 h s shows.waiting shows.running shows.two env msg))
        λ (s1, logged) g (shows1, same).
          bind-Ends (start_waiting_jobs_heap env malloc s1 g) _
            (start_waiting_jobs_heap-Does h0 env malloc unused g s1 (finish_job env t msg).0 shows1)
            λ (s2, later, a) g2 (shows2, same2). record {
              value = (s2, logged ++ later, env.node_ok, a);
              heap = g2;
              ran = refl;
              holds = rw (finish_job-given env env.node_ok a t msg) (shows2, rw (same, same2) refl);
            }

  handle_status_req_heap-Does :
      Ends
        (DoesFor h0 env (λ e. (t, handle_status_req e t msg)))
        (handle_status_req_heap env s msg h)
  unfolding handle_status_req_heap
  handle_status_req_heap-Does =
      let two = shows.two in
      let back = Two-swap h0 h s.waiting_queue s.running_queue shows.waiting shows.running two in
      rw
        (
          queue_copy_to_array-Two h0 h s.waiting_queue shows.running shows.waiting s.running_queue
              back,
          queue_copy_to_array-Two h0 h s.running_queue shows.waiting shows.running s.waiting_queue
              two,
        )
        (record {
          value = _;
          heap = h;
          ran = refl;
          holds = (shows, ap (λ u. handle_status_req env u msg) (sym (shows.same)));
        })

  unhandled : Ends (DoesFor h0 env (λ e. (t, []))) (pure (s, [], env.node_ok, unasked env) h)
  unhandled = record { value = _; heap = h; ran = refl; holds = (shows, refl) }

  pub dispatch_heap-Does :
      (type : MsgType)
      → Ends (DoesFor h0 env (λ e. dispatch e t msg type)) (dispatch_heap env malloc s msg type h)
  unfolding dispatch dispatch_heap
  dispatch_heap-Does submit = handle_submit_heap-Does
  dispatch_heap-Does done = handle_done_heap-Does
  dispatch_heap-Does status_req = handle_status_req_heap-Does
  dispatch_heap-Does shutdown_req = record {
    value = _;
    heap = h;
    ran = refl;
    holds = (handle_shutdown_req-Shows h0 h s t msg shows, refl);
  }
  dispatch_heap-Does status = unhandled
  dispatch_heap-Does shutdown = unhandled
  dispatch_heap-Does ack = unhandled
  dispatch_heap-Does status_resp = unhandled
  dispatch_heap-Does status_end = unhandled
  dispatch_heap-Does shutdown_ack = unhandled
