-- ===== src/Executor.antt =====
-- src/runner/executor.c: the calls by which the runner runs a pipeline. Process tables stand in for the
-- parent and for each child; a descriptor that the code holds as -1 is `none`. Whether a call succeeds, and
-- the status of a child, is data.
pub mod Answer
pub mod Files
pub mod Child
pub mod Stages
pub mod Parent
pub mod Status
use runner_orchestrator.Base.{
  ℕ, zero, suc, ◌+◌, ◌-◌, ltb, ◌==◌, Bool, true, false, not, ◌&&◌, ◌||◌, if◌then◌else◌, List, [],
  ◌∷◌, ◌++◌, length, Option, none, some, ℤ, pos, negsuc,
}
use runner_orchestrator.Descriptors.{
  Mode, reading, writing, read_end, write_end, file, Table, close, put, dup2,
}
use runner_orchestrator.Parser.{
  Text, ParsedCommand, parser_get_stage_count, parser_get_stage_argv, parser_get_input_file,
  parser_get_output_file, parser_get_error_file,
}

-- Whether the calls of a child succeed: the `dup2` for each end of a pipe, and the `open` and the
-- `dup2` for each file.
pub record ChildEnv : Type 0 where
  pub pipe_in : Bool
  pub pipe_out : Bool
  pub open_in : Bool
  pub dup_in : Bool
  pub open_out : Bool
  pub dup_out : Bool
  pub open_err : Bool
  pub dup_err : Bool

pub data WaitStatus : Type 0 where
  exited : (code : ℕ) → WaitStatus
  killed : WaitStatus

-- Whether the calls for each stage succeed, and what each `wait` gives; `none` for -1.
pub record ExecEnv : Type 0 where
  pub pipe_ok : ℕ → Bool
  pub fork_ok : ℕ → Bool
  pub child : ℕ → ChildEnv
  pub wait : ℕ → Option WaitStatus

-- What a child does last: `_exit(1)`, or `execvp` with the files that are open then.
pub data ChildEnd : Type 0 where
  exits : ChildEnd
  execs : (argv : List Text) → Table → ChildEnd

infixl 5 ◌>>=◌
abbrev pub ◌>>=◌ : {A B : Type 0} → Option A → (A → Option B) → Option B
none >>= k = none
some a >>= k = k a

abbrev pub or_exit : Option (List Text × Table) → ChildEnd
or_exit none = exits
or_exit (some (argv, t)) = execs argv t

-- `if (fd != -1) close(fd)`
abbrev pub close_if : Option ℕ → Table → Table
close_if none t = t
close_if (some fd) t = close fd t

-- `if (fd != -1) dup2(fd, std)`
abbrev pub connect : (ok : Bool) → Option ℕ → (std : ℕ) → Table → Option Table
connect ok none std t = some t
connect ok (some fd) std t = dup2 ok fd std t

abbrev pub argv_of : Option (List Text) → Option (List Text)
argv_of (some (program ∷ more)) = some (program ∷ more)
argv_of other = none

-- What `execute_pipeline` returns, the parent's open files then, what the children did, and how often
-- `wait` was called.
pub record PipelineRun : Type 0 where
  pub result : ℤ
  pub table : Table
  pub children : List ChildEnd
  pub waits : ℕ

abbrev pub is_success : WaitStatus → Bool
is_success (exited zero) = true
is_success other = false

-- The loop over the children at the end, with the rounds that are left.
unfoldable pub wait_loop : ExecEnv → (rounds j : ℕ) → (any_child_failed : Bool) → ℤ × ℕ
wait_loop env zero j true = (negsuc 0, j)
wait_loop env zero j false = (pos 0, j)
wait_loop env (suc k) j failed = elim (env.wait j) [
  | none ↦ (negsuc 0, j + 1)
  | some st ↦ wait_loop env k (j + 1) (failed || not (is_success st))
]

-- Before a return on an error: `wait` for each child that was created.
abbrev pub abandon : Table → List ChildEnd → PipelineRun
abandon t children = record {
  result = negsuc 0;
  table = t;
  children = children;
  waits = length children;
}

module _ (fresh : Table → ℕ) where
  -- `open` the file, `dup2` it to the standard descriptor, and `close` it. On failure the child exits.
  unfoldable pub redirect :
      (open_ok dup_ok : Bool) → Mode → (std : ℕ) → Option Text → Table → Option Table
  redirect open_ok dup_ok mode std none t = some t
  redirect false dup_ok mode std (some name) t = none
  redirect true dup_ok mode std (some name) t = do
    t' ← dup2 dup_ok (fresh t) std (put (fresh t) (file mode name) t)
    some (close (fresh t) t')

  unfoldable pub redirect_all : ChildEnv → Option ParsedCommand → (i : ℤ) → Table → Option Table
  redirect_all e cmd i t = do
    t1 ← redirect e.open_in e.dup_in reading 0 (parser_get_input_file cmd i) t
    t2 ← redirect e.open_out e.dup_out writing 1 (parser_get_output_file cmd i) t1
    redirect e.open_err e.dup_err writing 2 (parser_get_error_file cmd i) t2

  -- The child of stage `i` of `n`: `prev` is the read end of the pipe before it, and `pr` and `pw` are the
  -- ends of the pipe behind it.
  unfoldable pub child_run :
      ChildEnv → Option ParsedCommand → (n i : ℕ) → (prev pr pw : Option ℕ) → Table → ChildEnd
  child_run e cmd n i prev pr pw t = or_exit (do
    t1 ← connect e.pipe_in prev 0 t
    t2 ← (if ltb i (n - 1) then connect e.pipe_out pw 1 t1 else some t1)
    argv ← argv_of (parser_get_stage_argv cmd (pos i))
    t3 ← redirect_all e cmd (pos i) (close_if pw (close_if pr (close_if prev t2)))
    some (argv, t3))

  -- `pipe` for stage `i`.
  unfoldable pub make_pipe : (i : ℕ) → Table → Option ℕ × Option ℕ × Table
  make_pipe i t =
      let r = fresh t in
      let t' = put r (read_end i) t in let w = fresh t' in (some r, some w, put w (write_end i) t')

  -- The loop over the stages with the rounds that are left, and what follows it.
  unfoldable pub stage_loop :
      ExecEnv
      → Option ParsedCommand
      → (n rounds i : ℕ) → (prev : Option ℕ) → Table
      → List ChildEnd
      → PipelineRun
  stage_loop env cmd n zero i prev t children =
      let (result, waits) = wait_loop env (length children) 0 false in
      record { result = result; table = t; children = children; waits = waits }
  stage_loop env cmd n (suc k) i prev t children = elim (ltb i (n - 1) && not (env.pipe_ok i)) [
    | true ↦ abandon (close_if prev t) children
    | false ↦
        let (pr, pw, t1) = (if ltb i (n - 1) then make_pipe i t else (none, none, t)) in
        elim (env.fork_ok i) [
          | false ↦ abandon (close_if prev (close_if pw (close_if pr t1))) children
          | true ↦
              let child = child_run (env.child i) cmd n i prev pr pw t1 in
              let t2 = close_if prev t1 in
              stage_loop env cmd n k (i + 1) (if ltb i (n - 1) then pr else none)
                (if ltb i (n - 1) then close_if pw t2 else t2) (children ++ (child ∷ []))
        ]
  ]

  unfoldable pub execute_pipeline : ExecEnv → Option ParsedCommand → Table → PipelineRun
  execute_pipeline env none t = record { result = negsuc 0; table = t; children = []; waits = 0 }
  execute_pipeline env (some cmd) t =
      if parser_get_stage_count (some cmd) == 0
      then record { result = negsuc 0; table = t; children = []; waits = 0 }
      else stage_loop env (some cmd) (parser_get_stage_count (some cmd))
          (parser_get_stage_count (some cmd)) 0 none t []
