-- ===== src/Executor/Parent.antt =====
-- The files that the parent of executor.c has open when it returns, and what its children run.
use runner_orchestrator.Base.{
  ℕ, zero, suc, ◌+◌, ◌-◌, ◌≡◌, refl, subst, ltb, ◌==◌, Bool-cases, not, ◌&&◌, List, [], ◌∷◌, ◌++◌,
  length, length-append, Option, none, some, arith, inl, inr,
}
use runner_orchestrator.Descriptors.{read_end, write_end, Table, lookup, close, put, IsFresh}
use runner_orchestrator.Parser.{ParsedCommand, parser_get_stage_count}
use runner_orchestrator.Executor.{
  ExecEnv, ChildEnd, PipelineRun, abandon, close_if, child_run, make_pipe, stage_loop,
  execute_pipeline,
}
use runner_orchestrator.Executor.Files.{Shows}
use runner_orchestrator.Executor.Child.{Ready, HasStandard, IsWired, child_ok, child_run-IsWired}
use runner_orchestrator.Executor.Stages.{
  Between, closed-Shows, last-Ready, last-Between, piped-Ready, piped-Between, piped_closed-Shows,
}

add_zero : (i : ℕ) → i + 0 ≡ i
add_zero i = omega arith

add_more : (i m : ℕ) → i + suc m ≡ i + 1 + m
add_more i m = omega arith

count_of_children : (i : ℕ) (cs : List ChildEnd) → length cs ≡ i → i ≡ 0 + length cs
count_of_children i cs e = omega (arith, e)

-- Each child from the `i`th on is wired, or one of its calls failed.
abbrev pub AllWired : Table → Option ParsedCommand → ExecEnv → (n i : ℕ) → List ChildEnd → Type 0
AllWired base cmd env n i [] = Unit {0}
AllWired base cmd env n i (c ∷ cs) =
    IsWired base cmd n i (child_ok (env.child i) cmd i) c × AllWired base cmd env n (i + 1) cs

-- What holds when `execute_pipeline` returns: the parent has open what it had before, and the children are
-- wired.
pub record Clean (base : Table) (cmd : Option ParsedCommand) (env : ExecEnv) (n : ℕ)
    (run : PipelineRun) : Type 0 where
  pub restored : Shows (lookup base) run.table
  pub wired : AllWired base cmd env n 0 run.children

-- What holds before each round of the loop over the stages.
record InLoop (base : Table) (cmd : Option ParsedCommand) (env : ExecEnv) (n i : ℕ)
    (prev : Option ℕ) (t : Table) (children : List ChildEnd) : Type 0 where
  pub between : Between base n i prev t
  pub count : length children ≡ i
  pub wired : AllWired base cmd env n 0 children

module _ (fresh : Table → ℕ) (law : IsFresh fresh) (env : ExecEnv) (cmd : Option ParsedCommand)
    (base : Table) (std : HasStandard base) (n : ℕ) where
  AllWired-append :
      (i : ℕ) (cs : List ChildEnd) (c : ChildEnd)
      → AllWired base cmd env n i cs
      → IsWired base cmd n
          (i + length cs)
          (child_ok (env.child (i + length cs)) cmd (i + length cs))
          c
      → AllWired base cmd env n i (cs ++ (c ∷ []))
  AllWired-append i [] c h k =
      (subst (λ m. IsWired base cmd n m (child_ok (env.child m) cmd m) c) (add_zero i) k, tt)
  AllWired-append i (c' ∷ cs) c h k = (
    h.0,
    AllWired-append (i + 1) cs c h.1 (
        subst (λ m. IsWired base cmd n m (child_ok (env.child m) cmd m) c) (add_more i (length cs))
          k),
  )

  next_child-IsWired :
      (i : ℕ) (prev pr pw : Option ℕ) (t : Table) (children : List ChildEnd)
      → length children ≡ i
      → Ready base n i prev pr pw t
      → IsWired base cmd n
          (0 + length children)
          (child_ok (env.child (0 + length children)) cmd (0 + length children))
          (child_run fresh (env.child i) cmd n i prev pr pw t)
  next_child-IsWired i prev pr pw t children l ready =
      subst
        (λ m.
          IsWired base cmd n m (child_ok (env.child m) cmd m)
            (child_run fresh (env.child i) cmd n i prev pr pw t))
        (count_of_children i children l)
        (child_run-IsWired fresh law (env.child i) cmd base n i prev pr pw std t ready)

  -- A round that has created a child.
  InLoop-child :
      (i : ℕ) (prev pr pw prev' : Option ℕ) (t t' : Table) (children : List ChildEnd)
      → InLoop base cmd env n i prev t' children
      → Ready base n i prev pr pw t
      → {next : Table} → Between base n (i + 1) prev' next
      → InLoop base cmd env n
          (i + 1)
          prev'
          next
          (children ++ (child_run fresh (env.child i) cmd n i prev pr pw t ∷ []))
  InLoop-child i prev pr pw prev' t t' children l ready b = record {
    between = b;
    count = omega (
      arith,
      l.count,
      length-append children (child_run fresh (env.child i) cmd n i prev pr pw t ∷ []),
    );
    wired =
        AllWired-append 0 children _ l.wired
          (next_child-IsWired i prev pr pw t children l.count ready);
  }

  -- The loop stops with what the parent had before.
  stop-Clean :
      {i : ℕ} {prev : Option ℕ} {t : Table} {children : List ChildEnd}
      → InLoop base cmd env n i prev t children
      → (left : Table) → Shows (lookup base) left
      → Clean base cmd env n (abandon left children)
  stop-Clean l left shown = record { restored = shown; wired = l.wired }

  stage_loop-Clean :
      (k i : ℕ) (prev : Option ℕ) (t : Table) (children : List ChildEnd)
      → i + k ≡ n
      → InLoop base cmd env n i prev t children
      → Clean base cmd env n (stage_loop fresh env cmd n k i prev t children)
  unfolding stage_loop make_pipe
  stage_loop-Clean zero i prev t children e l = record {
    restored = λ x. ground (arith, l.between.shows x, l.between.before, e);
    wired = l.wired;
  }
  stage_loop-Clean (suc k) i prev t children e l =
      let b = l.between in
      let r = fresh t in
      let t' = put r (read_end i) t in
      let w' = fresh t' in
      let t'' = put w' (write_end i) t' in
      elim (Bool-cases (ltb i (n - 1) && not (env.pipe_ok i))) [
        | inl broken ↦ rw (broken, stage_loop) (stop-Clean l _ (closed-Shows base n i prev t b))
        | inr made ↦ elim (Bool-cases (ltb i (n - 1))) [
          | inl inner ↦ elim (Bool-cases (env.fork_ok i)) [
            | inr alone ↦
                rw (made, alone, inner, stage_loop, make_pipe)
                  (stop-Clean l _
                    (piped_closed-Shows base n i prev t b r w' (law t) (law t') inner))
            | inl forked ↦
                rw (made, forked, inner, stage_loop, make_pipe)
                  (stage_loop-Clean k (i + 1) (some r) (close w' (close_if prev t'')) _
                    (omega (arith, e))
                    (InLoop-child i prev (some r) (some w') (some r) t'' t children l
                      (piped-Ready base n i prev t b r w' (law t) (law t') inner)
                      (piped-Between base n i prev t b r w' (law t) (law t') inner)))
          ]
          | inr last ↦ elim (Bool-cases (env.fork_ok i)) [
            | inr alone ↦
                rw (made, alone, last, stage_loop) (stop-Clean l _ (closed-Shows base n i prev t b))
            | inl forked ↦
                rw (made, forked, last, stage_loop)
                  (stage_loop-Clean k (i + 1) none (close_if prev t) _ (omega (arith, e)) (
                    InLoop-child i prev none none none t t children l
                      (last-Ready base n i prev t b last (omega (arith, e)))
                      (last-Between base n i prev t b last (omega (arith, e)))))
          ]
        ]
      ]

-- Suppose the standard descriptors are open, and the system gives a new file a descriptor that is not
-- open. However the calls end, the parent has open what it had before when `execute_pipeline` returns. And
-- each child that was created either exits with 1 because one of its calls failed or its stage has no
-- program, or it runs the program of its stage with these files open and no others: at 0 the file named
-- behind "<", or else the read end of the pipe before it, or in the first stage what the parent had; at 1
-- the file behind ">", or the write end of the pipe behind it, or in the last stage what the parent had; at
-- 2 the file behind "2>", or what the parent had; and the other descriptors of the parent.
pub execute_pipeline-Clean :
    (fresh : Table → ℕ) (env : ExecEnv) (cmd : Option ParsedCommand) (base : Table)
    → IsFresh fresh
    → HasStandard base
    → Clean base cmd env (parser_get_stage_count cmd) (execute_pipeline fresh env cmd base)
unfolding execute_pipeline parser_get_stage_count
execute_pipeline-Clean fresh env none base law std = record { restored = λ x. refl; wired = tt }
execute_pipeline-Clean fresh env (some cmd) base law std =
    elim (Bool-cases (length cmd.stages == 0)) [
      | inl empty ↦ rw empty (record { restored = λ x. refl; wired = tt })
      | inr full ↦ rw full (
          stage_loop-Clean fresh law env (some cmd) base std (length cmd.stages) (length cmd.stages)
            0 none base [] (omega arith)
            (record {
              between = record { shows = λ x. refl; unused = λ x h. cc; before = refl };
              count = refl;
              wired = tt;
            }))
    ]
