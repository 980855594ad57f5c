-- ===== src/Executor/Status.antt =====
-- What `execute_pipeline` returns, how many children it creates, and for how many it waits.
use runner_orchestrator.Base.{
  ℕ, zero, suc, ◌+◌, ◌-◌, ◌≤◌, ◌<◌, ◌≡◌, ◌≢◌, refl, ap, ◌∙◌, ltb, ◌==◌, Bool, true, false,
  Bool-cases, not, ◌&&◌, ◌||◌, List, [], ◌∷◌, ◌++◌, length, length-append, Option, Option-cases,
  none, some, ℤ, pos, negsuc, arith, inl, inr,
}
use runner_orchestrator.Descriptors.{Table, IsFresh}
use runner_orchestrator.Parser.{ParsedCommand, parser_get_stage_count, parser_get_stage_argv}
use runner_orchestrator.Executor.{
  ExecEnv, WaitStatus, is_success, ChildEnd, exits, execs, wait_loop, stage_loop, execute_pipeline,
}
use runner_orchestrator.Executor.Child.{HasStandard, child_ok}
use runner_orchestrator.Executor.Parent.{AllWired, execute_pipeline-Clean}

-- Whether `pipe` and `fork` succeed for the stages from `i` on; the last of the `n` needs no pipe.
unfoldable pub all_made : ExecEnv → (n rounds i : ℕ) → Bool
all_made env n zero i = true
all_made env n (suc k) i =
    (not (ltb i (n - 1)) || env.pipe_ok i) && (env.fork_ok i && all_made env n k (i + 1))

abbrev pub is_clean : Option WaitStatus → Bool
is_clean none = false
is_clean (some st) = is_success st

-- Whether the waits from the `j`th on tell of children that exited with 0.
unfoldable pub all_clean : ExecEnv → (rounds j : ℕ) → Bool
all_clean env zero j = true
all_clean env (suc k) j = is_clean (env.wait j) && all_clean env k (j + 1)

abbrev pub as_result : Bool → ℤ
as_result true = pos 0
as_result false = negsuc 0

wait_loop-result :
    (env : ExecEnv) (k j : ℕ) (any : Bool)
    → (wait_loop env k j any).0 ≡ as_result (not any && all_clean env k j)
unfolding wait_loop all_clean
wait_loop-result env zero j true = refl
wait_loop-result env zero j false = refl
wait_loop-result env (suc k) j any = elim (Option-cases (env.wait j)) [
  | inl broken ↦ rw (broken, wait_loop, all_clean) (ground arith)
  | inr (st, e) ↦
      rw (e, wait_loop, all_clean)
        (wait_loop-result env k (j + 1) (any || not (is_success st)) ∙ ap as_result (ground arith))
]

wait_loop-waits :
    (env : ExecEnv)
    → ((j : ℕ) → env.wait j ≢ none)
    → (k j : ℕ) (any : Bool) → (wait_loop env k j any).1 ≡ j + k
unfolding wait_loop
wait_loop-waits env ok zero j true = omega arith
wait_loop-waits env ok zero j false = omega arith
wait_loop-waits env ok (suc k) j any = elim (Option-cases (env.wait j)) [
  | inl broken ↦ absurd (ok j broken)
  | inr (st, e) ↦
      rw (e, wait_loop)
        (omega (arith, wait_loop-waits env ok k (j + 1) (any || not (is_success st))))
]

one_more :
    (i : ℕ) (cs : List ChildEnd) (c : ChildEnd) → length cs ≡ i → length (cs ++ (c ∷ [])) ≡ i + 1
one_more i cs c e = omega (arith, e, length-append cs (c ∷ []))

module _ (fresh : Table → ℕ) (env : ExecEnv) (cmd : Option ParsedCommand) (n : ℕ) where
  stage_loop-result :
      (k i : ℕ) (prev : Option ℕ) (t : Table) (children : List ChildEnd)
      → i + k ≡ n
      → length children ≡ i
      → (stage_loop fresh env cmd n k i prev t children).result
        ≡ as_result (all_made env n k i && all_clean env n 0)
  unfolding stage_loop all_made
  stage_loop-result zero i prev t children e l =
      wait_loop-result env (length children) 0 false
      ∙ ap (λ m. as_result (all_clean env m 0)) (omega (arith, e, l))
  stage_loop-result (suc k) i prev t children e l =
      elim (Bool-cases (ltb i (n - 1) && not (env.pipe_ok i))) [
        | inl broken ↦ rw (broken, stage_loop) (ground (arith, broken))
        | inr made ↦ elim (Bool-cases (env.fork_ok i)) [
          | inr alone ↦ rw (made, alone, stage_loop) (ground (arith, alone))
          | inl forked ↦
              rw (made, forked, stage_loop)
                (stage_loop-result k (i + 1) _ _ _ (omega (arith, e)) (one_more i children _ l)
                  ∙ ap as_result (ground (arith, made)))
        ]
      ]

  stage_loop-waits :
      ((j : ℕ) → env.wait j ≢ none)
      → (k i : ℕ) (prev : Option ℕ) (t : Table) (children : List ChildEnd)
      → (stage_loop fresh env cmd n k i prev t children).waits
        ≡ length (stage_loop fresh env cmd n k i prev t children).children
  unfolding stage_loop
  stage_loop-waits ok zero i prev t children =
      omega (arith, wait_loop-waits env ok (length children) 0 false)
  stage_loop-waits ok (suc k) i prev t children =
      elim (Bool-cases (ltb i (n - 1) && not (env.pipe_ok i))) [
        | inl broken ↦ rw (broken, stage_loop) refl
        | inr made ↦ elim (Bool-cases (env.fork_ok i)) [
          | inr alone ↦ rw (made, alone, stage_loop) refl
          | inl forked ↦ rw (made, forked, stage_loop) (stage_loop-waits ok k (i + 1) _ _ _)
        ]
      ]

  stage_loop-children :
      (k i : ℕ) (prev : Option ℕ) (t : Table) (children : List ChildEnd)
      → i + k ≡ n
      → length children ≡ i
      → all_made env n k i ≡ true
      → length (stage_loop fresh env cmd n k i prev t children).children ≡ n
  unfolding stage_loop all_made
  stage_loop-children zero i prev t children e l h = omega (arith, e, l)
  stage_loop-children (suc k) i prev t children e l h =
      elim (Bool-cases (ltb i (n - 1) && not (env.pipe_ok i))) [
        | inl broken ↦ absurd (ground (arith, broken, h))
        | inr made ↦ elim (Bool-cases (env.fork_ok i)) [
          | inr alone ↦ absurd (ground (arith, alone, h))
          | inl forked ↦
              rw (made, forked, stage_loop)
                (stage_loop-children k (i + 1) _ _ _ (omega (arith, e)) (one_more i children _ l)
                  (ground (arith, h)))
        ]
      ]

-- `execute_pipeline` returns 0 exactly when there is a stage, each `pipe` and each `fork` succeeds, and each
-- `wait` tells of a child that exited with 0; else it returns -1.
pub execute_pipeline-result :
    (fresh : Table → ℕ) (env : ExecEnv) (cmd : Option ParsedCommand) (base : Table)
    → (execute_pipeline fresh env cmd base).result ≡ (
        let n = parser_get_stage_count cmd in
        as_result (not (n == 0) && (all_made env n n 0 && all_clean env n 0)))
unfolding execute_pipeline parser_get_stage_count
execute_pipeline-result fresh env none base = refl
execute_pipeline-result fresh env (some cmd) base = elim (Bool-cases (length cmd.stages == 0)) [
  | inl empty ↦ rw empty refl
  | inr full ↦ rw full (
      stage_loop-result fresh env (some cmd) (length cmd.stages) (length cmd.stages) 0 none base []
        (omega arith) refl)
]

-- When no `wait` fails, `execute_pipeline` has called it once for each child that it created, on every path.
pub execute_pipeline-waits :
    (fresh : Table → ℕ) (env : ExecEnv) (cmd : Option ParsedCommand) (base : Table)
    → ((j : ℕ) → env.wait j ≢ none)
    → (execute_pipeline fresh env cmd base).waits
      ≡ length (execute_pipeline fresh env cmd base).children
unfolding execute_pipeline
execute_pipeline-waits fresh env none base ok = refl
execute_pipeline-waits fresh env (some cmd) base ok =
    elim (Bool-cases (parser_get_stage_count (some cmd) == 0)) [
      | inl empty ↦ rw empty refl
      | inr full ↦ rw full (
          stage_loop-waits fresh env (some cmd) _ ok (parser_get_stage_count (some cmd)) 0 none base
            [])
    ]

-- Each child from the `i`th on runs the program of its own stage, with the arguments of that stage.
abbrev pub AllRun : Option ParsedCommand → (i : ℕ) → List ChildEnd → Type 0
AllRun cmd i [] = Unit {0}
AllRun cmd i (exits ∷ cs) = ⊥
AllRun cmd i (execs argv t ∷ cs) =
    (parser_get_stage_argv cmd (pos i) ≡ some argv) × AllRun cmd (i + 1) cs

AllRun-of_AllWired :
    (base : Table) (cmd : Option ParsedCommand) (env : ExecEnv) (n i : ℕ) (cs : List ChildEnd)
    → i + length cs ≤ n
    → ((j : ℕ) → j < n → child_ok (env.child j) cmd j ≡ true)
    → AllWired base cmd env n i cs
    → AllRun cmd i cs
AllRun-of_AllWired base cmd env n i [] h ok w = tt
AllRun-of_AllWired base cmd env n i (exits ∷ cs) h ok w = cc (ok i (omega (arith, h)), w.0)
AllRun-of_AllWired base cmd env n i (execs argv t ∷ cs) h ok w =
    (w.0.0, AllRun-of_AllWired base cmd env n (i + 1) cs (omega (arith, h)) ok w.1)

execute_pipeline-children :
    (fresh : Table → ℕ) (env : ExecEnv) (cmd : Option ParsedCommand) (base : Table)
    → all_made env (parser_get_stage_count cmd) (parser_get_stage_count cmd) 0 ≡ true
    → length (execute_pipeline fresh env cmd base).children ≡ parser_get_stage_count cmd
unfolding execute_pipeline parser_get_stage_count
execute_pipeline-children fresh env none base made = refl
execute_pipeline-children fresh env (some cmd) base made =
    elim (Bool-cases (length cmd.stages == 0)) [
      | inl empty ↦ rw empty (ground (arith, empty))
      | inr full ↦ rw full (
          stage_loop-children fresh env (some cmd) (length cmd.stages) (length cmd.stages) 0 none
            base [] (omega arith) refl made)
    ]

-- Suppose the standard descriptors are open, the system gives a new file a descriptor that is not open, each
-- `pipe` and `fork` succeeds, and for each stage it has a program and all calls of its child succeed. Then
-- `execute_pipeline` creates exactly one child for each stage, and the child of each stage calls `execvp` with
-- the arguments of that very stage.
pub execute_pipeline-AllRun :
    (fresh : Table → ℕ) (env : ExecEnv) (cmd : Option ParsedCommand) (base : Table)
    → IsFresh fresh
    → HasStandard base
    → all_made env (parser_get_stage_count cmd) (parser_get_stage_count cmd) 0 ≡ true
    → ((j : ℕ) → j < parser_get_stage_count cmd → child_ok (env.child j) cmd j ≡ true)
    → (length (execute_pipeline fresh env cmd base).children ≡ parser_get_stage_count cmd)
      × AllRun cmd 0 (execute_pipeline fresh env cmd base).children
execute_pipeline-AllRun fresh env cmd base law std made ok =
    let count = execute_pipeline-children fresh env cmd base made in
    (
      count,
      AllRun-of_AllWired base cmd env (parser_get_stage_count cmd) 0
          (execute_pipeline fresh env cmd base).children (omega (arith, count)) ok
          (execute_pipeline-Clean fresh env cmd base law std).wired,
    )
