-- ===== src/Controller/Main/Loops.antt =====
-- The two nested loops of `main` in controller.c, against one loop over all messages.
use runner_orchestrator.Base.{
  ℕ, ◌≡◌, refl, sym, ap, ◌∙◌, subst, Bool, true, false, Bool-cases, not, if◌then◌else◌, List, [],
  ◌∷◌, ◌++◌, map, Option, none, some, ℤ, pos, inl, inr,
}
use mathlib.Core.List.{append_assoc}
use runner_orchestrator.Protocol.{RpcMessage}
use runner_orchestrator.Controller.State.{ControllerState, Env, Effect}
use runner_orchestrator.Controller.Messages.{controller_handle_message, serve}
use runner_orchestrator.Controller.Handlers.{then_do}
use runner_orchestrator.Controller.Invariant.Fixed.{controller_handle_message-flag}
use runner_orchestrator.Controller.Configure.{controller_configure}
use runner_orchestrator.Controller.Queues.{controller_init_queues}
use runner_orchestrator.Ipc.{is_error, ipc_create_fifo}
use runner_orchestrator.Controller.Main.{
  Session, refused, session, MainEvent, queues_destroyed, server_opened, server_closed, did,
  MainRun, session_loop, server_loop, leave, then_main, MainEnv, controller_main,
}

-- All messages up to the first `open` that fails.
unfoldable pub all_messages : List Session → List (Env × RpcMessage)
all_messages [] = []
all_messages (refused ∷ more) = []
all_messages (session msgs ∷ more) = msgs ++ all_messages more

unfoldable pub handled : List MainEvent → List Effect
handled [] = []
handled (did e ∷ events) = e ∷ handled events
handled (other ∷ events) = handled events

-- How `main` ends if the flag is still on after all messages.
unfoldable pub ending : List Session → Option ℤ
ending [] = none
ending (refused ∷ more) = some (pos 1)
ending (session msgs ∷ more) = ending more

-- The clauses of `serve` and `server_loop` on the flag.
serve_clause :
    ControllerState
    → Env
    → RpcMessage
    → List (Env × RpcMessage)
    → Bool
    → ControllerState × List Effect
serve_clause s env msg more flag = elim flag [
  | false ↦ (s, [])
  | true ↦
      then_do (serve (controller_handle_message env s msg).0 more)
        (controller_handle_message env s msg).1
]

serve-going :
    (s : ControllerState) (env : Env) (msg : RpcMessage) (more : List (Env × RpcMessage))
    → s.keep_running ≡ true
    → serve s ((env, msg) ∷ more)
      ≡ then_do
          (serve (controller_handle_message env s msg).0 more)
          (controller_handle_message env s msg).1
unfolding serve serve_clause
serve-going s env msg more h = ap (serve_clause s env msg more) h

serve-stopped :
    (s : ControllerState) (msgs : List (Env × RpcMessage))
    → s.keep_running ≡ false
    → serve s msgs ≡ (s, [])
unfolding serve serve_clause
serve-stopped s [] h = refl
serve-stopped s ((env, msg) ∷ more) h = ap (serve_clause s env msg more) h

flag_of : (flag stop : Bool) → stop ≡ not flag → flag ≡ not stop
flag_of true stop h = ap not (sym h)
flag_of false stop h = ap not (sym h)

-- `serve` on the messages of a session and then on more.
session_loop-serve :
    (s : ControllerState) (msgs more : List (Env × RpcMessage))
    → s.keep_running ≡ true
    → serve s (msgs ++ more) ≡ (
      (serve (session_loop s msgs).0 more).0,
      (session_loop s msgs).1 ++ (serve (session_loop s msgs).0 more).1,
    )
unfolding serve session_loop
session_loop-serve s [] more h = refl
session_loop-serve s ((env, msg) ∷ msgs) more h =
    let r = controller_handle_message env s msg in
    elim (Bool-cases r.2) [
      | inl stop ↦
          let off =
            flag_of r.0.keep_running true (sym stop ∙ controller_handle_message-flag env s msg h) in
          serve-going s env msg (msgs ++ more) h
          ∙ rw (stop, serve-stopped r.0 (msgs ++ more) off, serve-stopped r.0 more off) refl
      | inr goes_on ↦
          let on =
            flag_of r.0.keep_running false
              (sym goes_on ∙ controller_handle_message-flag env s msg h) in
          serve-going s env msg (msgs ++ more) h
          ∙ rw (goes_on, session_loop-serve r.0 msgs more on)
              (ap (λ l. ((serve (session_loop r.0 msgs).0 more).0, l)) (sym (append_assoc r.1 _ _)))
    ]

handled-did :
    (effects : List Effect) (events : List MainEvent)
    → handled (map did effects ++ events) ≡ effects ++ handled events
unfolding handled
handled-did [] events = refl
handled-did (e ∷ effects) events = ap (λ l. e ∷ l) (handled-did effects events)

-- One pass of the outer loop, if the flag is on.
pass : ControllerState → List Session → MainRun
pass s [] = (none, [])
pass s (refused ∷ more) = (some (pos 1), queues_destroyed ∷ [])
pass s (session msgs ∷ more) =
    then_main (server_opened ∷ (map did (session_loop s msgs).1 ++ (server_closed ∷ [])))
      (server_loop (session_loop s msgs).0 more)

server_loop-pass :
    (s : ControllerState) (sessions : List Session)
    → server_loop s sessions ≡ (if s.keep_running then pass s sessions else leave)
unfolding server_loop pass
server_loop-pass s [] = refl
server_loop-pass s (refused ∷ more) = refl
server_loop-pass s (session msgs ∷ more) = refl

-- A run of `main` does what one loop over all messages does, and ends as its flag tells.
abbrev pub Agrees : MainRun → ControllerState × List Effect → List Session → Type 0
Agrees run served sessions =
    (handled run.1 ≡ served.1)
    × (run.0 ≡ (if served.0.keep_running then ending sessions else some (pos 0)))

Agrees-stopped :
    (s : ControllerState) (sessions : List Session)
    → s.keep_running ≡ false
    → Agrees (server_loop s sessions) (serve s (all_messages sessions)) sessions
unfolding handled
Agrees-stopped s sessions h =
    subst (λ run. Agrees run (serve s (all_messages sessions)) sessions)
      (sym (server_loop-pass s sessions ∙ ap (λ b. if b then pass s sessions else leave) h))
      (subst (λ served. Agrees leave served sessions)
        (sym (serve-stopped s (all_messages sessions) h))
        (refl, sym (ap (λ b. if b then ending sessions else some (pos 0)) h)))

Agrees-going :
    (s : ControllerState) (sessions : List Session) (served : ControllerState × List Effect)
    → s.keep_running ≡ true
    → Agrees (pass s sessions) served sessions
    → Agrees (server_loop s sessions) served sessions
Agrees-going s sessions served h agrees =
    subst (λ run. Agrees run served sessions)
      (sym (server_loop-pass s sessions ∙ ap (λ b. if b then pass s sessions else leave) h)) agrees

server_loop-serve :
    (s : ControllerState) (sessions : List Session)
    → Agrees (server_loop s sessions) (serve s (all_messages sessions)) sessions
unfolding handled all_messages ending pass serve
server_loop-serve s [] = elim (Bool-cases s.keep_running) [
  | inl on ↦
      Agrees-going s [] (s, []) on (refl, sym (ap (λ b. if b then none else some (pos 0)) on))
  | inr off ↦ Agrees-stopped s [] off
]
server_loop-serve s (refused ∷ more) = elim (Bool-cases s.keep_running) [
  | inl on ↦
      Agrees-going s (refused ∷ more) (s, []) on
        (refl, sym (ap (λ b. if b then some (pos 1) else some (pos 0)) on))
  | inr off ↦ Agrees-stopped s (refused ∷ more) off
]
server_loop-serve s (session msgs ∷ more) = elim (Bool-cases s.keep_running) [
  | inl on ↦
      let (s', effects) = session_loop s msgs in
      let (same, code) = server_loop-serve s' more in
      subst (λ served. Agrees (server_loop s (session msgs ∷ more)) served (session msgs ∷ more))
        (sym (session_loop-serve s msgs (all_messages more) on))
        (Agrees-going s (session msgs ∷ more)
          ((serve s' (all_messages more)).0, effects ++ (serve s' (all_messages more)).1) on
          (
            ap handled (
                  ap (λ l. server_opened ∷ l)
                    (append_assoc (map did effects) (server_closed ∷ []) (server_loop s' more).1))
                ∙ handled-did effects (server_closed ∷ (server_loop s' more).1)
                ∙ ap (λ l. effects ++ l) same,
            code,
          ))
  | inr off ↦ Agrees-stopped s (session msgs ∷ more) off
]

-- Given memory for the queues and a public FIFO, `main` does what one loop over all messages does that it reads
-- before an `open` fails, wherever the FIFO came to its end between them; it returns 0 exactly when that loop
-- turns its flag off, else 1 if an `open` failed, and else it waits on.
pub controller_main-serve :
    (atoi : List ℕ → ℤ) (env : MainEnv) (argv : List (List ℕ))
    → env.waiting_ok ≡ true
    → env.running_ok ≡ true
    → is_error (ipc_create_fifo env.mkfifo) ≡ false
    → Agrees
        (controller_main atoi env argv)
        (serve (controller_configure atoi argv) (all_messages env.sessions))
        env.sessions
unfolding controller_main controller_init_queues handled
controller_main-serve atoi env argv w r f =
    rw (w, r, f) (server_loop-serve (controller_configure atoi argv) env.sessions)
