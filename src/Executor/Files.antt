-- ===== src/Executor/Files.antt =====
-- The files of a stage (executor.c), opened over the standard descriptors.
use runner_orchestrator.Base.{
  ℕ, ◌≡◌, ◌≢◌, refl, sym, ◌∙◌, subst, ◌==◌, Bool, true, false, ◌&&◌, if◌then◌else◌, Option, none,
  some, ℤ, arith,
}
use runner_orchestrator.Descriptors.{
  Mode, reading, writing, Object, file, Table, lookup, put, dup2, IsFresh,
}
use runner_orchestrator.Descriptors.Laws.{lookup-close, lookup-put, dup2-eq}
use runner_orchestrator.Parser.{
  Text, ParsedCommand, parser_get_input_file, parser_get_output_file, parser_get_error_file,
}
use runner_orchestrator.Executor.{ChildEnv, redirect, redirect_all}
use runner_orchestrator.Executor.Answer.{Answer, Answer-bind, Answer-mono}

-- What the table shows.
abbrev pub Shows : (ℕ → Option Object) → Table → Type 0
Shows f t = (x : ℕ) → lookup t x ≡ f x

-- What a standard descriptor stands for once a file was opened for it, if one was named.
abbrev pub aimed : Mode → Option Text → Option Object → Option Object
aimed mode none old = old
aimed mode (some name) old = some (file mode name)

abbrev with_file : (std : ℕ) → Mode → Option Text → Table → ℕ → Option Object
with_file std mode name t x = if x == std then aimed mode name (lookup t std) else lookup t x

-- The three files of a stage, over what stood at the standard descriptors.
abbrev pub with_files : Option ParsedCommand → ℤ → (ℕ → Option Object) → ℕ → Option Object
with_files cmd i f x =
    if x == 0
    then aimed reading (parser_get_input_file cmd i) (f 0)
    else if x == 1
    then aimed writing (parser_get_output_file cmd i) (f 1)
    else if x == 2
    then aimed writing (parser_get_error_file cmd i) (f 2)
    else f x

abbrev pub files_ok : ChildEnv → Bool
files_ok e = (e.open_in && e.dup_in) && ((e.open_out && e.dup_out) && (e.open_err && e.dup_err))

module _ (fresh : Table → ℕ) (law : IsFresh fresh) where
  redirect-Shows :
      (open_ok dup_ok : Bool) (mode : Mode) (std : ℕ) (name : Option Text) (t : Table)
      → lookup t std ≢ none
      → Answer
          (open_ok && dup_ok)
          (Shows (with_file std mode name t))
          (redirect fresh open_ok dup_ok mode std name t)
  unfolding redirect
  redirect-Shows open_ok dup_ok mode std none t opened = λ x. ground arith
  redirect-Shows false dup_ok mode std (some name) t opened = refl
  redirect-Shows true false mode std (some name) t opened = unfold dup2 in refl
  redirect-Shows true true mode std (some name) t opened =
      rw
        (dup2-eq (fresh t) std (put (fresh t) (file mode name) t) (file mode name)
          (ground (arith, lookup-put (fresh t) (file mode name) t (fresh t))))
        (λ x. ground (
          arith,
          lookup-close (fresh t) (put std (file mode name) (put (fresh t) (file mode name) t)) x,
          lookup-put std (file mode name) (put (fresh t) (file mode name) t) x,
          lookup-put (fresh t) (file mode name) t x,
          law t,
          not_std,
        ))
    where
      not_std : fresh t ≢ std
      not_std e = opened (subst (λ f. lookup t f ≡ none) e (law t))

  pub redirect_all-Shows :
      (e : ChildEnv) (cmd : Option ParsedCommand) (i : ℤ) (t : Table)
      → lookup t 0 ≢ none
      → lookup t 1 ≢ none
      → lookup t 2 ≢ none
      → Answer (files_ok e) (Shows (with_files cmd i (lookup t))) (redirect_all fresh e cmd i t)
  unfolding redirect_all
  redirect_all-Shows e cmd i t in_open out_open err_open =
      Answer-bind {B = Table} (Shows (with_file 0 reading (parser_get_input_file cmd i) t))
        (Shows (with_files cmd i (lookup t))) (e.open_in && e.dup_in)
        ((e.open_out && e.dup_out) && (e.open_err && e.dup_err)) _ _
        (redirect-Shows e.open_in e.dup_in reading 0 (parser_get_input_file cmd i) t in_open)
        λ t1 p.
          Answer-bind {B = Table} (Shows (with_file 1 writing (parser_get_output_file cmd i) t1))
            (Shows (with_files cmd i (lookup t))) (e.open_out && e.dup_out)
            (e.open_err && e.dup_err) _ _
            (redirect-Shows e.open_out e.dup_out writing 1 (parser_get_output_file cmd i) t1
              (λ h. out_open (sym (p 1) ∙ h)))
            λ t2 q.
              Answer-mono {A = Table} (Shows (with_file 2 writing (parser_get_error_file cmd i) t2))
                (Shows (with_files cmd i (lookup t))) (e.open_err && e.dup_err) _
                (redirect-Shows e.open_err e.dup_err writing 2 (parser_get_error_file cmd i) t2
                  (λ h. err_open (sym (p 2) ∙ sym (q 2) ∙ h)))
                (λ t3 r x. ground (arith, r x, q x, p x, q 2, p 2, p 1))
