-- ===== src/Controller/Drain.antt =====
-- How a shutdown comes to its end.
use runner_orchestrator.Base.{
  ℕ, suc, ◌+◌, ◌≡◌, refl, ap, ◌∙◌, inl, inr, true, false, Bool-cases, not, ◌==◌, if◌then◌else◌,
  List, [], ◌∷◌, length, arith,
}
use runner_orchestrator.Protocol.{RpcMessage}
use runner_orchestrator.Controller.State.{ControllerState, Env}
use runner_orchestrator.Controller.Handlers.{is_empty}
use runner_orchestrator.Controller.Messages.{controller_handle_message, serve}
use runner_orchestrator.Controller.Invariant.{IsValid}
use runner_orchestrator.Controller.Invariant.Fixed.{controller_handle_message-flag}
use runner_orchestrator.Controller.Invariant.Keep.{controller_handle_message-IsValid}
use runner_orchestrator.Controller.Conservation.{HasMemory}
use runner_orchestrator.Controller.Shutdown.{
  is_refused, controller_handle_message-stop, controller_handle_message-Stopped,
}
use runner_orchestrator.Controller.Load.{load, ends_job, ended, AllMemory, handled-Served}

module _ (env : Env) (m : HasMemory env) where
  -- A controller that goes on after a message has a running job.
  goes_on :
      (s : ControllerState) (msg : RpcMessage)
      → IsValid s
      → s.is_shutting_down ≡ true
      → is_empty s.running_queue ≡ false
      → (controller_handle_message env s msg).0.keep_running ≡ true
      → is_empty (controller_handle_message env s msg).0.running_queue ≡ false
  goes_on s msg v down busy running = elim (Bool-cases (is_refused s msg)) [
    | inl refused ↦ unfold controller_handle_message in rw refused busy
    | inr accepted ↦ elim (Bool-cases (controller_handle_message env s msg).2) [
      | inl stop ↦ absurd (cc (controller_handle_message-Stopped env s msg v stop).flag)
      | inr on ↦ ground (
        arith,
        on,
        accepted,
        controller_handle_message-stop env s msg v,
        (handled-Served env m s msg down).down,
      )
    ]
  ]

pub serve-step :
    (s : ControllerState) (env : Env) (msg : RpcMessage) (more : List (Env × RpcMessage))
    → s.keep_running ≡ true
    → (serve s ((env, msg) ∷ more)).0 ≡ (serve (controller_handle_message env s msg).0 more).0
unfolding serve
serve-step s env msg more running = simp (running, serve) refl

pub serve-halt :
    (s : ControllerState) (msgs : List (Env × RpcMessage))
    → s.keep_running ≡ false
    → (serve s msgs ≡ (s, [])) × (ended s msgs ≡ 0)
unfolding serve ended
serve-halt s [] stopped = (refl, refl)
serve-halt s ((env, msg) ∷ more) stopped = (simp (stopped, serve) refl, ground (arith, stopped))

pub ended-step :
    (s : ControllerState) (env : Env) (msg : RpcMessage) (more : List (Env × RpcMessage))
    → s.keep_running ≡ true
    → (let later = ended (controller_handle_message env s msg).0 more in
        ended s ((env, msg) ∷ more) ≡ (if ends_job s msg then suc later else later))
unfolding ended
ended-step s env msg more running = ground (arith, running)

-- What a shutdown has come to after some messages: the jobs in the queues are those of before less the DONEs of
-- running jobs, the loop's flag is off exactly when no job is left, and until then a job runs.
pub record Draining (s t : ControllerState) (n : ℕ) : Type 0 where
  pub jobs : load t + n ≡ load s
  pub flag : t.keep_running ≡ not (load t == 0)
  pub runs : is_empty t.running_queue ≡ (load t == 0)

-- A message that turns the flag off leaves no job.
stopped-load :
    (env : Env) (s : ControllerState) (msg : RpcMessage)
    → IsValid s
    → s.keep_running ≡ true
    → (controller_handle_message env s msg).0.keep_running ≡ false
    → Draining (controller_handle_message env s msg).0 (controller_handle_message env s msg).0 0
stopped-load env s msg v on off =
    let stop = controller_handle_message-flag env s msg on ∙ ap not off in
    let e = controller_handle_message-Stopped env s msg v stop in
    record {
      jobs = omega arith;
      flag = ground (arith, off, ap length e.running, ap length e.waiting);
      runs = ground (arith, ap length e.running, ap length e.waiting);
    }

-- A shutdown comes to its end. Given memory for the nodes, let a valid controller be shutting down while its loop
-- goes on and a job runs. Then after any messages the jobs in its queues are as many as before less the DONEs
-- of running jobs that were handled, in whatever order these came; the loop's flag is off exactly when no
-- job is left in the queues; and a job runs exactly while one is left.
pub serve-drains :
    (s : ControllerState) (msgs : List (Env × RpcMessage))
    → AllMemory msgs
    → IsValid s
    → s.is_shutting_down ≡ true
    → s.keep_running ≡ true
    → is_empty s.running_queue ≡ false
    → Draining s (serve s msgs).0 (ended s msgs)
serve-drains s [] m v down on busy =
    unfold serve ended in
    record { jobs = omega arith; flag = ground (arith, on, busy); runs = ground (arith, busy) }
serve-drains s ((env, msg) ∷ more) (m, ms) v down on busy =
    let s' = (controller_handle_message env s msg).0 in
    let d = handled-Served env m s msg down in
    let v' = controller_handle_message-IsValid env s msg v in
    let step = ended-step s env msg more on in
    rw (serve-step s env msg more on) (elim (Bool-cases s'.keep_running) [
      | inr off ↦
          let (same, none_ended) = serve-halt s' more off in
          let e = stopped-load env s msg v on off in
          rw same (record {
            jobs = ground (arith, d.jobs, step, none_ended);
            flag = e.flag;
            runs = e.runs;
          })
      | inl still ↦
          let e = serve-drains s' more ms v' d.down still (goes_on env m s msg v down busy still) in
          record { jobs = ground (arith, e.jobs, d.jobs, step); flag = e.flag; runs = e.runs }
    ])
