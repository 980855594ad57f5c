-- ===== src/System/Reachable.antt =====
-- What holds in every state that the controller and its runners can reach.
use runner_orchestrator.Base.{
  ℕ, ◌≤◌, ◌≡◌, refl, ap, ◌∙◌, Bool, false, not, List, [], ◌∷◌, length, ℤ, arith,
}
use runner_orchestrator.Scheduler.Job.{JobInfo}
use runner_orchestrator.Controller.State.{ControllerState}
use runner_orchestrator.Controller.Configure.{
  controller_configure, controller_configure-IsValid, limit_of,
}
use runner_orchestrator.Controller.Conservation.{count_of, count_in, count_of-same}
use runner_orchestrator.Controller.Grants.{weigh}
use runner_orchestrator.Controller.Invariant.{IsValid}
use runner_orchestrator.Controller.Invariant.Keep.{controller_handle_message-IsValid}
use runner_orchestrator.Controller.Invariant.Fixed.{
  controller_handle_message-limit, controller_handle_message-flag,
}
use runner_orchestrator.Controller.Shutdown.{controller_handle_message-Stopped}
use runner_orchestrator.System.{System, Step, handles, loses, dies, Reach, started, stepped}
use runner_orchestrator.System.Accounts.{
  in_runners, in_mail, in_server, outstanding, in_queue, lost, Step-Settles,
}

weigh-one : (q : List JobInfo) → weigh (λ _. 1) q ≡ length q
unfolding weigh
weigh-one [] = refl
weigh-one (j ∷ q) = omega (arith, weigh-one q)

weigh-count_of : (id : ℤ) (q : List JobInfo) → weigh (count_of id) q ≡ count_in id q
unfolding weigh count_in
weigh-count_of id [] = refl
weigh-count_of id (j ∷ q) = omega (arith, weigh-count_of id q)

-- The controller's part of a step.
record Kept (limit : ℕ) (s : ControllerState) : Type 0 where
  valid : IsValid s
  limited : s.parallel_limit ≡ limit
  stopped : s.keep_running ≡ false → (s.running_queue ≡ []) × (s.waiting_queue ≡ [])

Step-Kept :
    {faults : Bool} {limit : ℕ} {y z : System}
    → Step faults y z
    → Kept limit y.controller
    → Kept limit z.controller
Step-Kept {y} (handles env msg rest e keep) k = record {
  valid = controller_handle_message-IsValid env y.controller msg k.valid;
  limited = controller_handle_message-limit env y.controller msg ∙ k.limited;
  stopped = λ off.
      let stops = controller_handle_message-flag env y.controller msg keep ∙ ap not off in
      let end = controller_handle_message-Stopped env y.controller msg k.valid stops in
      (end.running, end.waiting);
}
Step-Kept other k = k

module _ {faults : Bool} {atoi : List ℕ → ℤ} {argv : List (List ℕ)} where
  Reach-Kept : {y : System} → Reach faults atoi argv y → Kept (limit_of atoi argv) y.controller
  unfolding controller_configure
  Reach-Kept started = record {
    valid = controller_configure-IsValid atoi argv;
    limited = refl;
    stopped = λ off. (refl, refl);
  }
  Reach-Kept (stepped r step) = Step-Kept step (Reach-Kept r)

  Reach-outstanding :
      (w : ℤ → ℕ) {y : System} → Reach faults atoi argv y → outstanding w y ≤ in_queue w y
  unfolding in_runners in_mail in_server weigh controller_configure
  Reach-outstanding w started = omega arith
  Reach-outstanding w (stepped r step) = omega (arith, Step-Settles w step, Reach-outstanding w r)

  -- In every state that the controller and its runners reach, whatever the order of their steps and though
  -- messages to runners are lost and runners end at any time, at most as many runners execute a command as
  -- the limit that the controller was started with.
  pub at_most_limit :
      {y : System} → Reach faults atoi argv y → in_runners (λ _. 1) y.runners ≤ limit_of atoi argv
  at_most_limit {y} r =
      let k = Reach-Kept r in
      omega (
        arith,
        Reach-outstanding (λ _. 1) r,
        weigh-one y.controller.running_queue,
        k.valid.base.counted,
        k.valid.base.bounded,
        k.limited,
      )

  -- In every such state, for every identifier there are at least as many jobs with it in the running queue as
  -- runners that execute a command with it, ACKs for it on their way, and DONEs for it still to be read.
  pub executing_in_queue :
      {y : System}
      → Reach faults atoi argv y
      → (id : ℤ) → outstanding (count_of id) y ≤ count_in id y.controller.running_queue
  executing_in_queue {y} r id =
      omega (arith, Reach-outstanding (count_of id) r, weigh-count_of id y.controller.running_queue)

  -- In every such state in which the controller has stopped, no job waits, no runner executes a command, no ACK
  -- is on its way, and no DONE is still to be read: a shutdown waits for every command that was begun.
  pub stopped-outstanding :
      {y : System}
      → Reach faults atoi argv y
      → y.controller.keep_running ≡ false
      → (outstanding (λ _. 1) y ≡ 0) × (y.controller.waiting_queue ≡ [])
  unfolding weigh
  stopped-outstanding {y} r off =
      let (running, waits) = (Reach-Kept r).stopped off in
      (omega (arith, Reach-outstanding (λ _. 1) r, ap (weigh (λ _. 1)) running), waits)

-- Without faults, nothing is left unsettled by a step from a state in which the accounts agree.
lossless :
    {y z : System} (step : Step false y z)
    → ((id : ℤ) → outstanding (count_of id) y ≡ in_queue (count_of id) y)
    → (w : ℤ → ℕ) → lost w step ≡ 0
unfolding lost in_server
lossless {y} (handles env msg rest e keep) agree w = ground (
  arith,
  agree msg.command_id,
  weigh-count_of msg.command_id y.controller.running_queue,
  ap (in_server (count_of msg.command_id)) e,
  count_of-same msg.command_id,
)
lossless (loses letter before after g e) agree w = absurd cc
lossless (dies runner before after g e) agree w = absurd cc
lossless other agree w = refl

module _ {atoi : List ℕ → ℤ} {argv : List (List ℕ)} where
  Reach-agree :
      {y : System} → Reach false atoi argv y → (w : ℤ → ℕ) → outstanding w y ≡ in_queue w y
  unfolding in_runners in_mail in_server weigh controller_configure
  Reach-agree started w = omega arith
  Reach-agree (stepped r step) w = omega (
    arith,
    Step-Settles w step,
    Reach-agree r w,
    lossless step (λ id. Reach-agree r (count_of id)) w,
  )

  -- In every state that the controller and its runners reach while no message to a runner is lost and no runner
  -- ends early, `running_count` is the number of the runners that execute a command, of the ACKs on their
  -- way, and of the DONEs still to be read: no slot is lost.
  pub running_count-outstanding :
      {y : System} → Reach false atoi argv y → y.controller.running_count ≡ outstanding (λ _. 1) y
  running_count-outstanding {y} r = omega (
    arith,
    Reach-agree r (λ _. 1),
    weigh-one y.controller.running_queue,
    (Reach-Kept r).valid.base.counted,
  )
