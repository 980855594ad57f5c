-- ===== src/Executor/Stages.antt =====
-- The files that the parent of executor.c has open from one stage to the next.
use runner_orchestrator.Base.{
  ℕ, ◌+◌, ◌-◌, ◌<◌, ◌≡◌, refl, sym, ltb, ◌==◌, true, false, not, ◌&&◌, if◌then◌else◌, Option, none,
  some, arith,
}
use runner_orchestrator.Descriptors.{read_end, write_end, Table, lookup, close, put}
use runner_orchestrator.Descriptors.Laws.{lookup-close, lookup-put}
use runner_orchestrator.Executor.{close_if}
use runner_orchestrator.Executor.Files.{Shows}
use runner_orchestrator.Executor.Child.{is_fd, is_some, Ready, lookup-close_if}

-- What the parent has open between two stages: the read end of the last pipe, besides what it had before.
pub record Between (base : Table) (n i : ℕ) (prev : Option ℕ) (t : Table) : Type 0 where
  pub shows :
      (x : ℕ) → lookup t x ≡ (if is_fd prev x then some (read_end (i - 1)) else lookup base x)
  pub unused : (x : ℕ) → is_fd prev x ≡ true → lookup base x ≡ none
  pub before : is_some prev ≡ (not (i == 0) && ltb i n)

module _ (base : Table) (n i : ℕ) (prev : Option ℕ) (t : Table) (b : Between base n i prev t) where
  pub closed-Shows : Shows (lookup base) (close_if prev t)
  closed-Shows x = ground (arith, lookup-close_if prev t x, b.shows x, b.unused x)

  pub last-Ready : ltb i (n - 1) ≡ false → i < n → Ready base n i prev none none t
  last-Ready last inside = record {
    shows = λ x. b.shows x;
    unused = λ x h. b.unused x (ground (arith, h));
    apart = λ x h. refl;
    apart_ends = λ x h. refl;
    before = ground (arith, b.before, inside);
    behind = sym last;
  }

  pub last-Between : ltb i (n - 1) ≡ false → i < n → Between base n (i + 1) none (close_if prev t)
  last-Between last inside = record {
    shows = closed-Shows;
    unused = λ x h. cc;
    before = ground (arith, last, inside);
  }

  -- Between two stages an end that was not open before is not open.
  unused_of : (f : ℕ) → lookup t f ≡ none → (lookup base f ≡ none) × (is_fd prev f ≡ false)
  unused_of f h = (ground (arith, b.shows f, h), ground (arith, b.shows f, h))

  module _ (r w : ℕ) (r_new : lookup t r ≡ none)
      (w_new : lookup (put r (read_end i) t) w ≡ none) where
    abbrev piped : Table
    piped = put w (write_end i) (put r (read_end i) t)

    w_apart : (w == r) ≡ false
    w_apart = ground (arith, lookup-put r (read_end i) t w, w_new)

    w_unused : lookup t w ≡ none
    w_unused = ground (arith, lookup-put r (read_end i) t w, w_new)

    pub piped-Ready : ltb i (n - 1) ≡ true → Ready base n i prev (some r) (some w) piped
    piped-Ready inner = record {
      shows = λ x. ground (
        arith,
        lookup-put w (write_end i) (put r (read_end i) t) x,
        lookup-put r (read_end i) t x,
        b.shows x,
      );
      unused = λ x h. ground (arith, h, b.unused x, unused_of r r_new, unused_of w w_unused);
      apart = λ x h. ground (arith, h, unused_of r r_new, unused_of w w_unused);
      apart_ends = λ x h. ground (arith, h, w_apart);
      before = ground (arith, b.before, inner);
      behind = sym inner;
    }

    pub piped-Between :
        ltb i (n - 1) ≡ true → Between base n (i + 1) (some r) (close w (close_if prev piped))
    piped-Between inner = record {
      shows = λ x. ground (
        arith,
        lookup-close w (close_if prev piped) x,
        lookup-close_if prev piped x,
        (piped-Ready inner).shows x,
        (piped-Ready inner).unused x,
        (piped-Ready inner).apart x,
        (piped-Ready inner).apart_ends x,
      );
      unused = λ x h. ground (arith, h, unused_of r r_new);
      before = ground (arith, inner);
    }

    pub piped_closed-Shows :
        ltb i (n - 1) ≡ true → Shows (lookup base) (close_if prev (close w (close r piped)))
    piped_closed-Shows inner x = ground (
      arith,
      lookup-close_if prev (close w (close r piped)) x,
      lookup-close w (close r piped) x,
      lookup-close r piped x,
      (piped-Ready inner).shows x,
      (piped-Ready inner).unused x,
    )
