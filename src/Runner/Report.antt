-- ===== src/Runner/Report.antt =====
-- `runner -c` of runner_cli.c together with the controller's answer (controller_handlers.c).
use runner_orchestrator.Base.{
  ◌≡◌, refl, sym, ap, ◌∙◌, List, [], ◌∷◌, ◌++◌, map, ℤ, ℤ_discrete, ite, if_pos,
}
use mathlib.Core.List.{append_assoc, append-nil, map-append}
use runner_orchestrator.Protocol.{RpcMessage}
use runner_orchestrator.Parser.{Text}
use runner_orchestrator.Scheduler.Job.{JobInfo}
use runner_orchestrator.Scheduler.Preview.Slots.{NamesUsers}
use runner_orchestrator.Controller.State.{ControllerState, Env, Effect, send, written, log_line}
use runner_orchestrator.Controller.Status.{
  same_text, status_line, executing_text, scheduled_text, status_message, end_message,
  handle_status_req,
}
use runner_orchestrator.Controller.Status.Report.{Answers, lines, expected, handle_status_req-lines}
use runner_orchestrator.Controller.Messages.{dispatch, controller_handle_message}
use runner_orchestrator.Controller.Handlers.{try_finish_shutdown}
use runner_orchestrator.Runner.{
  option_c, RunnerEnv, RunnerEvent, printed, closed, fifo_removed, status_loop, status_request,
  with_fifo, send_to_controller, with_open, runner_run_status, runner_parse_args, run_request,
  runner_main,
}
use runner_orchestrator.Runner.Command.{Works}

-- The messages to a runner among the effects of the controller.
unfoldable pub delivered : (pid : ℤ) → List Effect → List RpcMessage
delivered pid [] = []
delivered pid (send to msg ∷ effects) =
    ite (ℤ_discrete to pid) (msg ∷ delivered pid effects) (delivered pid effects)
delivered pid (written to msg ∷ effects) =
    ite (ℤ_discrete to pid) (msg ∷ delivered pid effects) (delivered pid effects)
delivered pid (log_line user_id command_id elapsed_ms ∷ effects) = delivered pid effects

-- What a run prints of a status.
unfoldable pub texts : List RunnerEvent → List Text
texts [] = []
texts (printed text ∷ events) = text ∷ texts events
texts (other ∷ events) = texts events

delivered-written :
    (pid : ℤ) (msg : RpcMessage) (effects : List Effect)
    → delivered pid (written pid msg ∷ effects) ≡ msg ∷ delivered pid effects
unfolding delivered
delivered-written pid msg effects = if_pos (ℤ_discrete pid pid) refl _ _

delivered-append :
    (pid : ℤ) (msgs : List RpcMessage) (effects : List Effect)
    → delivered pid (map (written pid) msgs ++ effects) ≡ msgs ++ delivered pid effects
delivered-append pid [] effects = refl
delivered-append pid (msg ∷ msgs) effects =
    delivered-written pid msg (map (written pid) msgs ++ effects)
    ∙ ap (λ l. msg ∷ l) (delivered-append pid msgs effects)

texts-lines :
    (env : Env) (jobs : List JobInfo) (rest : List RpcMessage) (events : List RunnerEvent)
    → texts (status_loop (lines env jobs ++ rest) ++ events)
      ≡ map status_line jobs ++ texts (status_loop rest ++ events)
unfolding texts status_loop
texts-lines env [] rest events = refl
texts-lines env (j ∷ jobs) rest events =
    ap (λ l. status_line j ∷ l) (texts-lines env jobs rest events)

-- The replies of the controller, and what may come after its STATUS_END.
answer : (env : Env) (s : ControllerState) (rest : List RpcMessage) → List RpcMessage
answer env s rest =
    status_message env executing_text
    ∷ (lines env s.running_queue
        ++ (status_message env scheduled_text
            ∷ (lines env (expected s) ++ (end_message env ∷ rest))))

texts-answer :
    (env : Env) (s : ControllerState) (rest : List RpcMessage)
    → texts (status_loop (answer env s rest) ++ (closed ∷ (fifo_removed ∷ [])))
      ≡ executing_text
        ∷ (map status_line s.running_queue ++ (scheduled_text ∷ map status_line (expected s)))
unfolding answer texts status_loop
texts-answer env s rest =
    ap (λ l. executing_text ∷ l)
      (texts-lines env s.running_queue _ _
        ∙ ap (λ l. map status_line s.running_queue ++ (scheduled_text ∷ l))
            (texts-lines env (expected s) _ _ ∙ append-nil _))

answer-append :
    (env : Env) (s : ControllerState) (rest : List RpcMessage)
    → answer env s [] ++ rest ≡ answer env s rest
unfolding answer
answer-append env s rest =
    ap (λ l. status_message env executing_text ∷ l)
      (append_assoc (lines env s.running_queue) _ rest
        ∙ ap (λ l. lines env s.running_queue ++ (status_message env scheduled_text ∷ l))
            (append_assoc (lines env (expected s)) (end_message env ∷ []) rest))

handle_status_req-answer :
    (env : Env) (s : ControllerState) (pid : ℤ)
    → Answers env
    → NamesUsers s.waiting_queue
    → handle_status_req env s (status_request pid) ≡ map (written pid) (answer env s [])
unfolding answer
handle_status_req-answer env s pid a named =
    handle_status_req-lines env s (status_request pid) a named
    ∙ ap (λ l. written pid (status_message env executing_text) ∷ l)
        (sym (
          map-append (written pid) (lines env s.running_queue) _
          ∙ ap
              (λ l.
                map (written pid) (lines env s.running_queue)
                ++ (written pid (status_message env scheduled_text) ∷ l))
              (map-append (written pid) (lines env (expected s)) (end_message env ∷ []))))

delivered-answer :
    (env : Env) (s : ControllerState) (pid : ℤ)
    → Answers env
    → NamesUsers s.waiting_queue
    → delivered pid (controller_handle_message env s (status_request pid)).1
      ≡ answer env s (delivered pid (try_finish_shutdown s).1)
unfolding controller_handle_message dispatch
delivered-answer env s pid a named =
    ap (λ l. delivered pid (l ++ (try_finish_shutdown s).1))
      (handle_status_req-answer env s pid a named)
    ∙ delivered-append pid (answer env s []) (try_finish_shutdown s).1
    ∙ answer-append env s (delivered pid (try_finish_shutdown s).1)

-- Suppose that all calls of the runner succeed, and that it reads what the controller answers to its request:
-- the controller has memory, a FIFO that takes every write, and no waiting job of user -1. Then `runner -c`
-- prints the heading of the running jobs, a line for each of them, the heading of the waiting jobs, and a
-- line for each of them, in the order in which the fair policy would take them if it is named, and else in
-- the order of their queue, and nothing else, also while the controller shuts down.
pub runner_main-status :
    (atoi : Text → ℤ) (env : RunnerEnv) (program : Text) (controller : Env) (s : ControllerState)
    → Works env
    → Answers controller
    → NamesUsers s.waiting_queue
    → env.replies
      ≡ delivered env.pid (controller_handle_message controller s (status_request env.pid)).1
    → texts (runner_main atoi env (program ∷ (option_c ∷ []))).1
      ≡ executing_text
        ∷ (map status_line s.running_queue ++ (scheduled_text ∷ map status_line (expected s)))
unfolding runner_main runner_parse_args run_request runner_run_status with_fifo send_to_controller
    with_open texts same_text
runner_main-status atoi env program controller s w a named r =
    rw (w.creates, w.sends 0, w.opens, r, delivered-answer controller s env.pid a named)
      (texts-answer controller s (delivered env.pid (try_finish_shutdown s).1))
