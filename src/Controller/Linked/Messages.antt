-- ===== src/Controller/Linked/Messages.antt =====
-- `controller_handle_message` on the heap, against Controller/Messages.antt.
pub mod Served
use runner_orchestrator.Base.{
  ℕ, zero, suc, ◌+◌, ◌≡◌, refl, sym, ap, ◌∙◌, Bool, true, false, not, Bool-cases, ◌==◌, ◌&&◌, ◌||◌,
  ltb, if◌then◌else◌, List, [], ◌∷◌, ◌++◌, length, Option, none, some, inl, inr, arith, subst, ℤ,
}
use runner_orchestrator.Protocol.{
  MsgType, submit, status, shutdown, ack, done, status_req, status_resp, status_end, shutdown_req,
  shutdown_ack, RpcMessage,
}
use runner_orchestrator.Scheduler.Fair.{user_exists}
use runner_orchestrator.Scheduler.Queue.{queue_is_empty}
use runner_orchestrator.Scheduler.Queue.Remove.{Ends-mono}
use runner_orchestrator.Store.{null, Heap, Ends, bind-Ends, pure}
use runner_orchestrator.Store.Cells.{jobs}
use runner_orchestrator.Controller.State.{ControllerState, Env, Effect}
use runner_orchestrator.Controller.Status.{handle_status_req}
use runner_orchestrator.Controller.Handlers.{
  remember_fair_user, place_job, finish_job, handle_submit, handle_done, start_waiting_jobs,
  handle_shutdown_req, try_finish_shutdown, then_do, send_ack_to_runner, submitted_job,
  log_finished_job, send_shutdown_ack_to_runner,
}
use runner_orchestrator.Controller.Messages.{
  dispatch, controller_handle_message, finish_with, is_submit,
}
use runner_orchestrator.Controller.Linked.{
  Replied, unasked, PointerState, view, Malloc, remember_user_heap, place_job_heap,
  handle_submit_heap, finish_job_heap, handle_done_heap, start_waiting_jobs_heap, and_then,
  handle_status_req_heap, dispatch_heap, try_finish_heap, finish_heap,
  controller_handle_message_heap,
}
use runner_orchestrator.Controller.Linked.Two.{Two, Two-swap}
use runner_orchestrator.Controller.Linked.Operations.{queue_is_empty-Two, queue_copy_to_array-Two}
use runner_orchestrator.Controller.Linked.Views.{Shows, Does, IsMalloc}
use runner_orchestrator.Controller.Linked.Steps.{place_job_heap-Does}
use runner_orchestrator.Controller.Linked.Finish.{finish_job_heap-Does}
use runner_orchestrator.Controller.Linked.Loop.{start_waiting_jobs_heap-Does}
use runner_orchestrator.Controller.Linked.Dispatch.{given, dispatch_heap-Does}

-- The last step of a message, against that on the lists.
abbrev pub FinishesAs :
    Heap → Heap → ControllerState × List Effect × Bool → PointerState × List Effect × Bool → Type 0
FinishesAs h0 h (t, effects, stop) (s, done_effects, stop') =
    Shows h0 h s t × (done_effects ≡ effects) × (stop' ≡ stop)

try_finish_heap-FinishesAs :
    (h0 h : Heap) (s : PointerState) (t : ControllerState)
    → Shows h0 h s t
    → FinishesAs h0 h (try_finish_shutdown t) (try_finish_heap s)
unfolding try_finish_heap try_finish_shutdown
try_finish_heap-FinishesAs h0 h s t shows =
    let ws = shows.waiting in
    let (empty, _) =
      queue_is_empty-Two h0 h s.running_queue ws shows.running s.waiting_queue shows.two in
    let show : Shows h0 h s (view s (jobs ws) (jobs shows.running)) = record {
      waiting = ws;
      running = shows.running;
      two = shows.two;
      same = refl;
    } in
    let last : Shows h0 h (record s { keep_running = false })
        (view (record s { keep_running = false }) (jobs ws) (jobs shows.running)) =
      record { waiting = ws; running = shows.running; two = shows.two; same = refl } in
    subst (λ u. FinishesAs h0 h (try_finish_shutdown u) (try_finish_heap s)) (sym (shows.same))
      (elim (Bool-cases
        (not s.is_shutting_down || not (s.running_count == 0) || not (length (jobs ws) == 0))) [
          | inl on ↦ rw (empty, on) (show, refl, refl)
          | inr off ↦ rw (empty, off) (last, refl, refl)
        ])

-- A message and the handler on lists, for the answers that `malloc` gave: the same state, effects and flag.
abbrev pub Handles : Heap → Env → ControllerState → RpcMessage → Replied → Heap → Type 0
Handles h0 env t msg (s, did, stop, ok, a) g =
    FinishesAs h0 g (controller_handle_message (given env ok a) t msg) (s, did, stop)

module _ (h0 : Heap) (env : Env) (malloc : Malloc) (unused : IsMalloc malloc) (h : Heap)
    (s : PointerState) (t : ControllerState) (msg : RpcMessage) (shows : Shows h0 h s t) where
  -- In a heap where the two queues stand for lists of jobs and share no node, and with a `malloc` that returns
  -- NULL or an unused address, the handling of a message on linked nodes ends; it never reads or frees a node
  -- that is not in use. For the answers that `malloc` gave in this run, the effects and the stop flag are those of the
  -- handler on lists, and the struct and the nodes stand for the state that it leaves.
  pub controller_handle_message_heap-Handles :
      Ends (Handles h0 env t msg) (controller_handle_message_heap env malloc s msg h)
  unfolding controller_handle_message controller_handle_message_heap
  controller_handle_message_heap-Handles =
      let flag : t.is_shutting_down ≡ s.is_shutting_down =
        ap (λ u. u.is_shutting_down) (shows.same) in
      elim (Bool-cases (is_submit msg.type && s.is_shutting_down)) [
        | inl turned_away ↦
            let same : (is_submit msg.type && t.is_shutting_down) ≡ true =
              ap (λ b. is_submit msg.type && b) flag ∙ turned_away in
            rw turned_away (record {
              value =
                  (s, send_shutdown_ack_to_runner env msg ∷ [], false, env.node_ok, unasked env);
              heap = h;
              ran = refl;
              holds = rw same (shows, refl, refl);
            })
        | inr taken ↦
            let same : (is_submit msg.type && t.is_shutting_down) ≡ false =
              ap (λ b. is_submit msg.type && b) flag ∙ taken in
            rw taken (
              bind-Ends (dispatch_heap env malloc s msg msg.type h) _
                (dispatch_heap-Does h0 env malloc unused h s t msg shows msg.type)
                λ (s1, did, ok, a) g (shows1, equal).
                  let f = try_finish_heap-FinishesAs h0 g s1 _ shows1 in
                  record {
                    value = _;
                    heap = g;
                    ran = refl;
                    holds = rw same (f.0, rw (equal, f.1) refl, f.2);
                  })
      ]
