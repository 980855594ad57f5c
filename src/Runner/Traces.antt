-- ===== src/Runner/Traces.antt =====
-- Automata that read what a runner of runner_cli.c does outside: the lemmas for any of them.
use runner_orchestrator.Base.{
  ℕ, ◌≡◌, refl, ◌∙◌, Bool, true, false, Bool-cases, if◌then◌else◌, List, [], ◌∷◌, ◌++◌, Option,
  Option-cases, none, some, inl, inr,
}
use runner_orchestrator.Protocol.{RpcMessage}
use runner_orchestrator.Parser.{Text}
use runner_orchestrator.Ipc.{is_error, ipc_create_fifo, ipc_send_atomic}
use runner_orchestrator.Runner.{
  RunnerEnv, RunnerEvent, fifo_created, fifo_removed, opened, sent, printed, Run, with_fifo,
  send_to_controller, with_open, is_status_resp, is_status_end, status_loop,
}

module _ {S : Type 0} (next : S → RunnerEvent → Option S) where
  -- The state after the events; `none` where one of them is out of place.
  unfoldable pub after : S → List RunnerEvent → Option S
  after s [] = some s
  after s (e ∷ events) = elim (next s e) [ none ↦ none | some s' ↦ after s' events ]

  pub after-append :
      (s s' : S) (xs ys : List RunnerEvent)
      → after s xs ≡ some s'
      → after s (xs ++ ys) ≡ after s' ys
  unfolding after
  after-append s s' [] ys e = cc
  after-append s s' (x ∷ xs) ys e = elim (Option-cases (next s x)) [
    | inl out ↦ absurd (cc (rw (after, out) at e))
    | inr (k, at) ↦ rw (after, at) (after-append k s' xs ys (rw (after, at) at e))
  ]

  when_response :
      (s : S) (b : Bool) (text : Text)
      → ((t : Text) → next s (printed t) ≡ some s)
      → after s (if b then printed text ∷ [] else []) ≡ some s
  unfolding after
  when_response s true text prints = rw (prints text) refl
  when_response s false text prints = refl

  pub status_loop-stays :
      (s : S)
      → ((t : Text) → next s (printed t) ≡ some s)
      → (msgs : List RpcMessage) → after s (status_loop msgs) ≡ some s
  unfolding after status_loop
  status_loop-stays s prints [] = refl
  status_loop-stays s prints (msg ∷ more) =
      after-append s s (if is_status_resp msg.type then printed msg.payload ∷ [] else [])
        (if is_status_end msg.type then [] else status_loop more)
        (when_response s (is_status_resp msg.type) msg.payload prints)
      ∙ elim (Bool-cases (is_status_end msg.type)) [
        | inl last ↦ rw last refl
        | inr other ↦ rw other (status_loop-stays s prints more)
      ]

  module _ (P : Option S → Type 0) (env : RunnerEnv) where
    pub send_to_controller-keep :
        (s s' : S) (i : ℕ) (msg : RpcMessage) (failure success : Run)
        → next s (sent msg (ipc_send_atomic (env.send i))) ≡ some s'
        → P (after s' failure.1)
        → P (after s' success.1)
        → P (after s (send_to_controller env i msg failure success).1)
    unfolding after send_to_controller
    send_to_controller-keep s s' i msg failure success e f g =
        rw (after, e)
          (elim (Bool-cases (is_error (ipc_send_atomic (env.send i)))) [
            | inl bad ↦ rw bad f
            | inr good ↦ rw good g
          ])

    pub with_open-keep :
        (s s' s'' : S) (run : Run)
        → next s opened ≡ some s'
        → next s fifo_removed ≡ some s''
        → P (after s' run.1)
        → P (some s'')
        → P (after s (with_open env run).1)
    unfolding after with_open
    with_open-keep s s' s'' run e f g h = elim (Bool-cases env.open_ok) [
      | inl opens ↦ rw (opens, after, e) g
      | inr fails ↦ rw (fails, after, f) h
    ]

    pub with_fifo-keep :
        (s s' : S) (run : Run)
        → next s fifo_created ≡ some s'
        → P (after s' run.1)
        → P (some s)
        → P (after s (with_fifo env run).1)
    unfolding after with_fifo
    with_fifo-keep s s' run e g h = elim (Bool-cases (is_error (ipc_create_fifo env.mkfifo))) [
      | inl bad ↦ rw bad h
      | inr good ↦ rw (good, after, e) g
    ]
