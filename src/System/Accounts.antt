-- ===== src/System/Accounts.antt =====
-- What is outstanding between the controller and its runners: the commands that runners execute, the ACKs on
-- their way, and the DONEs that the controller has not read.
use runner_orchestrator.Base.{
  ℕ, ◌+◌, ◌≡◌, refl, sym, ap, ◌∙◌, Bool, ◌&&◌, not, if◌then◌else◌, List, [], ◌∷◌, ◌++◌, Option,
  none, some, ℤ, ℤ_discrete, if_pos, if_neg, arith,
}
use runner_orchestrator.Protocol.{MsgType, RpcMessage, ack}
use runner_orchestrator.Controller.State.{ControllerState, Env, Effect, send, written, log_line}
use runner_orchestrator.Controller.Messages.{controller_handle_message}
use runner_orchestrator.Controller.Conservation.{is_done, is_running}
use runner_orchestrator.Controller.Grants.{ack_weight, granted, weigh}
use runner_orchestrator.Controller.Grants.Message.{released, controller_handle_message-granted}
use runner_orchestrator.Runner.{status_request, shutdown_request, submission, completion, first_ack}
use runner_orchestrator.System.{
  Mail, Runner, waiting, executing, System, posted, receive, keep_mail, proceed, Step, submits,
  asks_status, asks_shutdown, handles, reads_reply, reads_other, finishes, loses, dies,
}

-- Identifiers weigh `w`.
unfoldable pub in_runners : (ℤ → ℕ) → List Runner → ℕ
in_runners w [] = 0
in_runners w (waiting pid ∷ runners) = in_runners w runners
in_runners w (executing pid ack_msg ∷ runners) = w ack_msg.command_id + in_runners w runners

unfoldable pub in_mail : (ℤ → ℕ) → Mail → ℕ
in_mail w [] = 0
in_mail w ((to, msg) ∷ mail) = ack_weight w msg + in_mail w mail

abbrev pub done_weight : (ℤ → ℕ) → RpcMessage → ℕ
done_weight w msg = if is_done msg.type then w msg.command_id else 0

unfoldable pub in_server : (ℤ → ℕ) → List RpcMessage → ℕ
in_server w [] = 0
in_server w (msg ∷ server) = done_weight w msg + in_server w server

abbrev pub outstanding : (ℤ → ℕ) → System → ℕ
outstanding w y = in_runners w y.runners + in_mail w y.mail + in_server w y.server

abbrev pub in_queue : (ℤ → ℕ) → System → ℕ
in_queue w y = weigh w y.controller.running_queue

module _ (w : ℤ → ℕ) where
  in_runners-append :
      (xs ys : List Runner) → in_runners w (xs ++ ys) ≡ in_runners w xs + in_runners w ys
  unfolding in_runners
  in_runners-append [] ys = omega arith
  in_runners-append (waiting pid ∷ xs) ys = in_runners-append xs ys
  in_runners-append (executing pid ack_msg ∷ xs) ys = omega (arith, in_runners-append xs ys)

  in_mail-append : (xs ys : Mail) → in_mail w (xs ++ ys) ≡ in_mail w xs + in_mail w ys
  unfolding in_mail
  in_mail-append [] ys = omega arith
  in_mail-append ((to, msg) ∷ xs) ys = omega (arith, in_mail-append xs ys)

  in_server-append :
      (xs ys : List RpcMessage) → in_server w (xs ++ ys) ≡ in_server w xs + in_server w ys
  unfolding in_server
  in_server-append [] ys = omega arith
  in_server-append (msg ∷ xs) ys = omega (arith, in_server-append xs ys)

  in_mail-posted : (effects : List Effect) → in_mail w (posted effects) ≡ granted w effects
  unfolding in_mail posted granted
  in_mail-posted [] = refl
  in_mail-posted (send to msg ∷ effects) = omega (arith, in_mail-posted effects)
  in_mail-posted (written to msg ∷ effects) = omega (arith, in_mail-posted effects)
  in_mail-posted (log_line user_id command_id elapsed_ms ∷ effects) = in_mail-posted effects

  -- The account of a mail after one message is received; `all` is that of the mail if there is none.
  received : Option (RpcMessage × Mail) → (all : ℕ) → ℕ
  received none all = all
  received (some (msg, rest)) all = ack_weight w msg + in_mail w rest

  received-keep_mail :
      (letter : ℤ × RpcMessage) (o : Option (RpcMessage × Mail)) (all : ℕ)
      → received (keep_mail letter o) (ack_weight w letter.1 + all)
        ≡ ack_weight w letter.1 + received o all
  unfolding received in_mail
  received-keep_mail letter none all = refl
  received-keep_mail letter (some (msg, rest)) all = omega arith

  received-receive :
      (pid : ℤ) (mail : Mail) → received (receive pid mail) (in_mail w mail) ≡ in_mail w mail
  unfolding receive in_mail received
  received-receive pid [] = refl
  received-receive pid ((to, letter) ∷ mail) = elim (ℤ_discrete to pid) [
    | yes mine ↦ rw (if_pos _ mine) refl
    | no other ↦ rw (if_neg _ other) (
        received-keep_mail (to, letter) (receive pid mail) (in_mail w mail)
        ∙ ap (λ n. ack_weight w letter + n) (received-receive pid mail))
  ]

  in_mail-receive :
      (pid : ℤ) (mail : Mail) (msg : RpcMessage) (rest : Mail)
      → receive pid mail ≡ some (msg, rest)
      → ack_weight w msg + in_mail w rest ≡ in_mail w mail
  unfolding received
  in_mail-receive pid mail msg rest e =
      ap (λ o. received o (in_mail w mail)) (sym e) ∙ received-receive pid mail

  in_runners-proceed :
      (pid : ℤ) (msg : RpcMessage)
      → in_runners w (proceed pid (first_ack (msg ∷ []))) ≡ ack_weight w msg
  unfolding in_runners
  in_runners-proceed pid msg = go msg.type
    where
      go :
          (type : MsgType)
          → in_runners w (proceed pid (first_ack (record msg { type = type } ∷ [])))
            ≡ ack_weight w (record msg { type = type })
      go ack = omega arith
      go other = refl

  -- What a step takes off what is outstanding, and what it does not bring to the running queue.
  abbrev pub Settles : System → System → (lost : ℕ) → Type 0
  Settles y z lost = outstanding w z + in_queue w y + lost ≡ outstanding w y + in_queue w z

  -- A DONE for a job that does not run takes nothing out of the queue.
  abbrev pub unmatched : ControllerState → RpcMessage → ℕ
  unmatched s msg =
      if is_done msg.type && not (is_running msg.command_id s) then w msg.command_id else 0

  released-unmatched :
      (s : ControllerState) (msg : RpcMessage)
      → released w s msg + unmatched s msg ≡ done_weight w msg
  released-unmatched s msg = ground arith

  handles-Settles :
      (y : System) (env : Env) (msg : RpcMessage) (rest : List RpcMessage)
      → y.server ≡ msg ∷ rest
      → Settles y
          (record y {
            controller = (controller_handle_message env y.controller msg).0;
            server = rest;
            mail = y.mail ++ posted (controller_handle_message env y.controller msg).1;
          })
          (unmatched y.controller msg)
  unfolding in_server
  handles-Settles y env msg rest e = omega (
    arith,
    ap (in_server w) e,
    in_mail-append y.mail (posted (controller_handle_message env y.controller msg).1),
    in_mail-posted (controller_handle_message env y.controller msg).1,
    controller_handle_message-granted w env y.controller msg,
    released-unmatched y.controller msg,
  )

  -- What a step takes off the account of what is outstanding without settling it.
  unfoldable pub lost : {faults : Bool} {y z : System} → Step faults y z → ℕ
  lost {y} (handles env msg rest e keep) = unmatched y.controller msg
  lost (loses letter before after g e) = ack_weight w letter.1
  lost (dies runner before after g e) = in_runners w (runner ∷ [])
  lost other = 0

  pub Step-Settles :
      {faults : Bool} {y z : System} → (step : Step faults y z) → Settles y z (lost step)
  unfolding lost in_server in_runners in_mail
  Step-Settles {y} (submits pid user_id command) = omega (
    arith,
    in_server-append y.server (submission pid user_id command ∷ []),
    in_runners-append y.runners (waiting pid ∷ []),
  )
  Step-Settles {y} (asks_status pid) =
      omega (arith, in_server-append y.server (status_request pid ∷ []))
  Step-Settles {y} (asks_shutdown pid) =
      omega (arith, in_server-append y.server (shutdown_request pid ∷ []))
  Step-Settles {y} (handles env msg rest e keep) = handles-Settles y env msg rest e
  Step-Settles {y} (reads_reply pid before after msg mail e f) = omega (
    arith,
    ap (in_runners w) e,
    in_runners-append before (waiting pid ∷ after),
    in_runners-append before (proceed pid (first_ack (msg ∷ [])) ++ after),
    in_runners-append (proceed pid (first_ack (msg ∷ []))) after,
    in_runners-proceed pid msg,
    in_mail-receive pid y.mail msg mail f,
  )
  Step-Settles {y} (reads_other pid msg mail e f) =
      ground (arith, in_mail-receive pid y.mail msg mail e, f)
  Step-Settles {y} (finishes pid ack_msg before after e) = omega (
    arith,
    ap (in_runners w) e,
    in_runners-append before (executing pid ack_msg ∷ after),
    in_runners-append before after,
    in_server-append y.server (completion pid ack_msg ∷ []),
  )
  Step-Settles {y} (loses (to, msg) before after g e) = omega (
    arith,
    ap (in_mail w) e,
    in_mail-append before ((to, msg) ∷ after),
    in_mail-append before after,
  )
  Step-Settles {y} (dies runner before after g e) = omega (
    arith,
    ap (in_runners w) e,
    in_runners-append before (runner ∷ after),
    in_runners-append before after,
    in_runners-append (runner ∷ []) after,
  )
