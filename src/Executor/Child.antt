-- ===== src/Executor/Child.antt =====
-- The files that a child has open when it runs its program.
use runner_orchestrator.Base.{
  ℕ, ◌-◌, ◌≡◌, ◌≢◌, refl, sym, ◌∙◌, ltb, ◌==◌, Bool, true, false, Bool-cases, not, ◌&&◌, ◌||◌,
  if◌then◌else◌, List, [], ◌∷◌, Option, none, some, pos, arith, inl, inr,
}
use runner_orchestrator.Descriptors.{Object, read_end, write_end, Table, lookup, dup2, IsFresh}
use runner_orchestrator.Descriptors.Laws.{lookup-close, lookup-put, dup2-eq}
use runner_orchestrator.Parser.{Text, ParsedCommand, parser_get_stage_argv}
use runner_orchestrator.Executor.{
  ChildEnv, ChildEnd, exits, execs, ◌>>=◌, or_exit, close_if, connect, argv_of, redirect_all,
  child_run,
}
use runner_orchestrator.Executor.Answer.{Answer, Answer-bind, Answer-map}
use runner_orchestrator.Executor.Files.{Shows, with_files, files_ok, redirect_all-Shows}

-- The descriptors of a stage.
abbrev pub is_fd : Option ℕ → ℕ → Bool
is_fd none x = false
is_fd (some fd) x = x == fd

abbrev pub is_some : Option ℕ → Bool
is_some none = false
is_some (some fd) = true

-- The ends of pipes that are open while stage `i` is made ready, over the files that were open before.
abbrev pub with_ends : (i : ℕ) → (prev pr pw : Option ℕ) → Table → ℕ → Option Object
with_ends i prev pr pw base x =
    if is_fd pw x
    then some (write_end i)
    else if is_fd pr x
    then some (read_end i)
    else if is_fd prev x
    then some (read_end (i - 1))
    else lookup base x

pub record Ready (base : Table) (n i : ℕ) (prev pr pw : Option ℕ) (t : Table) : Type 0 where
  pub shows : Shows (with_ends i prev pr pw base) t
  pub unused : (x : ℕ) → is_fd prev x || is_fd pr x || is_fd pw x ≡ true → lookup base x ≡ none
  pub apart : (x : ℕ) → is_fd prev x ≡ true → (is_fd pr x || is_fd pw x) ≡ false
  pub apart_ends : (x : ℕ) → is_fd pr x ≡ true → is_fd pw x ≡ false
  pub before : is_some prev ≡ not (i == 0)
  pub behind : is_some pw ≡ ltb i (n - 1)

-- The standard descriptors are open.
pub record HasStandard (base : Table) : Type 0 where
  pub input : lookup base 0 ≢ none
  pub output : lookup base 1 ≢ none
  pub error : lookup base 2 ≢ none

pub lookup-close_if :
    (fd : Option ℕ) (t : Table) (x : ℕ)
    → lookup (close_if fd t) x ≡ (if is_fd fd x then none else lookup t x)
lookup-close_if none t x = refl
lookup-close_if (some fd) t x = lookup-close fd t x

abbrev at_std : Option ℕ → (std : ℕ) → Object → Table → ℕ → Option Object
at_std fd std o t x = if is_some fd && x == std then some o else lookup t x

connect-Shows :
    (ok : Bool) (fd : Option ℕ) (std : ℕ) (o : Object) (t : Table)
    → ((x : ℕ) → is_fd fd x ≡ true → lookup t x ≡ some o)
    → Answer ok (Shows (at_std fd std o t)) (connect ok fd std t)
connect-Shows ok none std o t at = λ x. refl
connect-Shows false (some fd) std o t at = unfold dup2 in refl
connect-Shows true (some fd) std o t at =
    rw (dup2-eq fd std t o (at fd (ground arith))) (λ x. lookup-put std o t x)

-- The wiring by pipes.
abbrev pub wired_pipes : Table → (n i : ℕ) → ℕ → Option Object
wired_pipes base n i x =
    if x == 0
    then (if i == 0 then lookup base 0 else some (read_end (i - 1)))
    else if x == 1
    then (if ltb i (n - 1) then some (write_end i) else lookup base 1)
    else lookup base x

module _ (base : Table) (n i : ℕ) (prev pr pw : Option ℕ) (t : Table) (std : HasStandard base)
    (r : Ready base n i prev pr pw t) where
  prev_end : (x : ℕ) → is_fd prev x ≡ true → lookup t x ≡ some (read_end (i - 1))
  prev_end x h = ground (arith, r.shows x, r.apart x h)

  -- An end is not a standard descriptor.
  not_standard : (s : ℕ) → lookup base s ≢ none → (is_fd prev s || is_fd pr s || is_fd pw s) ≡ false
  not_standard s opened = elim (Bool-cases (is_fd prev s || is_fd pr s || is_fd pw s)) [
    | inl one ↦ absurd (opened (r.unused s one))
    | inr none_of ↦ none_of
  ]

  write_end_after :
      (t1 : Table)
      → Shows (at_std prev 0 (read_end (i - 1)) t) t1
      → (x : ℕ) → is_fd pw x ≡ true
      → lookup t1 x ≡ some (write_end i)
  write_end_after t1 p x h = ground (arith, p x, r.shows x, h, not_standard 0 std.input)

  closed-Shows :
      (t1 t2 : Table)
      → Shows (at_std prev 0 (read_end (i - 1)) t) t1
      → Shows (at_std pw 1 (write_end i) t1) t2
      → Shows (wired_pipes base n i) (close_if pw (close_if pr (close_if prev t2)))
  closed-Shows t1 t2 p q x = ground (
    arith,
    lookup-close_if pw (close_if pr (close_if prev t2)) x,
    lookup-close_if pr (close_if prev t2) x,
    lookup-close_if prev t2 x,
    p x,
    q x,
    r.shows x,
    r.unused x,
    not_standard 0 std.input,
    not_standard 1 std.output,
    r.before,
    r.behind,
  )

abbrev pub runs_program : Option (List Text) → Bool
runs_program (some (program ∷ more)) = true
runs_program other = false

-- Whether all calls of a child succeed, and there is a program to run.
abbrev pub child_ok : ChildEnv → Option ParsedCommand → ℕ → Bool
child_ok e cmd i =
    e.pipe_in && (e.pipe_out && (runs_program (parser_get_stage_argv cmd (pos i)) && files_ok e))

-- What a child has open: the pipes to its neighbours, and its files in their place.
abbrev pub wired : Table → Option ParsedCommand → (n i : ℕ) → ℕ → Option Object
wired base cmd n i = with_files cmd (pos i) (wired_pipes base n i)

abbrev pub IsWired : Table → Option ParsedCommand → (n i : ℕ) → (ok : Bool) → ChildEnd → Type 0
IsWired base cmd n i ok exits = ok ≡ false
IsWired base cmd n i ok (execs argv t) =
    (parser_get_stage_argv cmd (pos i) ≡ some argv) × Shows (wired base cmd n i) t

or_exit-IsWired :
    (base : Table) (cmd : Option ParsedCommand) (n i : ℕ) (ok : Bool)
    (m : Option (List Text × Table))
    → Answer ok
        (λ p. (parser_get_stage_argv cmd (pos i) ≡ some p.0) × Shows (wired base cmd n i) p.1)
        m
    → IsWired base cmd n i ok (or_exit m)
or_exit-IsWired base cmd n i ok none h = h
or_exit-IsWired base cmd n i ok (some (argv, t)) h = h

argv_of-Answer :
    (o : Option (List Text)) → Answer (runs_program o) (λ argv. o ≡ some argv) (argv_of o)
argv_of-Answer none = refl
argv_of-Answer (some []) = refl
argv_of-Answer (some (program ∷ more)) = refl

module _ (fresh : Table → ℕ) (law : IsFresh fresh) (e : ChildEnv) (cmd : Option ParsedCommand)
    (base : Table) (n i : ℕ) (prev pr pw : Option ℕ) (std : HasStandard base) where
  abbrev Runs : List Text × Table → Type 0
  Runs p = (parser_get_stage_argv cmd (pos i) ≡ some p.0) × Shows (wired base cmd n i) p.1

  input_open : (t3 : Table) → Shows (wired_pipes base n i) t3 → lookup t3 0 ≢ none
  input_open t3 s h = ground (arith, h, s 0, std.input)

  output_open : (t3 : Table) → Shows (wired_pipes base n i) t3 → lookup t3 1 ≢ none
  output_open t3 s h = ground (arith, h, s 1, std.output)

  error_open : (t3 : Table) → Shows (wired_pipes base n i) t3 → lookup t3 2 ≢ none
  error_open t3 s h = std.error (sym (s 2) ∙ h)

  -- From the closed ends on.
  files-Runs :
      (t3 : Table)
      → Shows (wired_pipes base n i) t3
      → Answer (runs_program (parser_get_stage_argv cmd (pos i)) && files_ok e) Runs (
          argv_of (parser_get_stage_argv cmd (pos i)) >>= λ argv.
          redirect_all fresh e cmd (pos i) t3 >>= λ t4. some (argv, t4))
  files-Runs t3 s =
      Answer-bind {A = List Text} {B = List Text × Table}
        (λ argv. parser_get_stage_argv cmd (pos i) ≡ some argv) Runs
        (runs_program (parser_get_stage_argv cmd (pos i))) (files_ok e) _ _
        (argv_of-Answer (parser_get_stage_argv cmd (pos i)))
        λ argv found.
          Answer-map {A = Table} {B = List Text × Table}
            (Shows (with_files cmd (pos i) (lookup t3))) Runs (files_ok e)
            (redirect_all fresh e cmd (pos i) t3) (λ t4. (argv, t4))
            (redirect_all-Shows fresh law e cmd (pos i) t3 (input_open t3 s) (output_open t3 s)
              (error_open t3 s))
            (λ t4 q. (found, λ x. ground (arith, q x, s x, s 0, s 1, s 2)))

  out_pipe :
      (t : Table)
      → Ready base n i prev pr pw t
      → (t1 : Table) → Shows (at_std prev 0 (read_end (i - 1)) t) t1
      → Answer e.pipe_out
          (Shows (at_std pw 1 (write_end i) t1))
          (if ltb i (n - 1) then connect e.pipe_out pw 1 t1 else some t1)
  out_pipe t r t1 p = elim (Bool-cases (ltb i (n - 1))) [
    | inl inner ↦ rw inner (
        connect-Shows e.pipe_out pw 1 (write_end i) t1
          (write_end_after base n i prev pr pw t std r t1 p))
    | inr last ↦ rw last (λ x. ground (arith, r.behind, last))
  ]

  pub child_run-IsWired :
      (t : Table)
      → Ready base n i prev pr pw t
      → IsWired base cmd n i (child_ok e cmd i) (child_run fresh e cmd n i prev pr pw t)
  unfolding child_run
  child_run-IsWired t r = or_exit-IsWired base cmd n i (child_ok e cmd i) _ (
      Answer-bind {A = Table} {B = List Text × Table} (Shows (at_std prev 0 (read_end (i - 1)) t))
        Runs e.pipe_in _ _ _
        (connect-Shows e.pipe_in prev 0 (read_end (i - 1)) t (prev_end base n i prev pr pw t std r))
        λ t1 p.
          Answer-bind {A = Table} {B = List Text × Table} (Shows (at_std pw 1 (write_end i) t1))
            Runs e.pipe_out _ _ _ (out_pipe t r t1 p)
            λ t2 q. files-Runs _ (closed-Shows base n i prev pr pw t std r t1 t2 p q))
