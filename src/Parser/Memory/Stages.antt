-- ===== src/Parser/Memory/Stages.antt =====
-- The loop of `parser_parse` over the stages, with memory, beside the same loop of Parser.antt.
use runner_orchestrator.Base.{
  ℕ, zero, suc, ◌+◌, ◌≡◌, refl, ap, Bool, true, false, List, [], ◌∷◌, subst, map, if◌then◌else◌,
}
use runner_orchestrator.Parser.{
  Text, CommandStage, Outcome, parsed, failed, endless, parse_stage, cons_stage, next_stages,
  parse_stages,
}
use runner_orchestrator.Parser.Memory.{
  Blocks, Memory, Allocator, Run, done, ◌>>=◌, StagePointers, parse_stage_heap, parse_stages_heap,
}
use runner_orchestrator.Parser.Memory.Blocks.{Holds}
use runner_orchestrator.Parser.Memory.Held.{Held, pointers, stage_of, held}
use runner_orchestrator.Parser.Memory.Parse.{Reads, parse_stage-Reads}
use runner_orchestrator.Parser.Memory.Destroy.{all_held}

-- The stages that are counted, when all are read.
pub record ReadStages (base : Blocks) (stages : List CommandStage)
    (r : Run (Bool × List StagePointers)) : Type 0 where
  pub now : List Held
  pub memory : Memory
  pub ran : r ≡ done (true, map pointers now) memory
  pub reads : map stage_of now ≡ stages
  pub holds : Holds (all_held now base) memory

-- The stages before one that is given up, and what that one holds.
pub record GaveUpStages (base : Blocks) (r : Run (Bool × List StagePointers)) : Type 0 where
  pub now : List Held
  pub last : Held
  pub memory : Memory
  pub ran : r ≡ done (false, map pointers now) memory
  pub holds : Holds (held last (all_held now base)) memory

abbrev pub ReadsStages :
    Blocks → Outcome (List CommandStage) → Run (Bool × List StagePointers) → Type 0
ReadsStages base (parsed stages) r = ReadStages base stages r
ReadsStages base failed r = GaveUpStages base r
ReadsStages base endless r = r ≡ Run.endless

abbrev pub counted :
    StagePointers → Bool × List StagePointers → Memory → Run (Bool × List StagePointers)
counted stage (all, stages) m = done (all, stage ∷ stages) m

cons_stage-ReadsStages :
    (base : Blocks) (o : Held) (later : Outcome (List CommandStage))
    (r : Run (Bool × List StagePointers))
    → ReadsStages (held o base) later r
    → ReadsStages base (cons_stage (stage_of o) later) (r >>= counted (pointers o))
cons_stage-ReadsStages base o (parsed stages) r e = record {
  now = o ∷ e.now;
  memory = e.memory;
  ran = rw (e.ran) refl;
  reads = ap (λ l. stage_of o ∷ l) (e.reads);
  holds = e.holds;
}
cons_stage-ReadsStages base o failed r e = record {
  now = o ∷ e.now;
  last = e.last;
  memory = e.memory;
  ran = rw (e.ran) refl;
  holds = e.holds;
}
cons_stage-ReadsStages base o endless r e = rw e refl

module _ (malloc : Allocator) (start : ℕ) where
  abbrev pub granted : ℕ → Bool
  granted n = malloc.alloc (start + n)

  -- What `parse_stages` does with a stage that is read, or given up.
  next_stages-ReadsStages :
      (room : ℕ) (base : Blocks) (texts : List Text) (o : Outcome (CommandStage × ℕ))
      (r : Run (Bool × StagePointers))
      → Reads base start o r
      → ((n : ℕ) (base' : Blocks) (m : Memory)
          → m.asked ≡ start + n
          → Holds base' m
          → ReadsStages base'
              (parse_stages granted room n texts)
              (parse_stages_heap malloc room texts m))
      → ReadsStages base (next_stages o (λ n. parse_stages granted room n texts)) (
          r >>= λ (ok, stage) m'.
          if ok
          then (parse_stages_heap malloc room texts m' >>= counted stage)
          else done (false, []) m')
  next_stages-ReadsStages room base texts (parsed (stage, n)) r e ih = rw (e.ran) (
      subst
        (λ st.
          ReadsStages base (cons_stage st (parse_stages granted room n texts))
            (parse_stages_heap malloc room texts e.memory >>= counted (pointers e.now)))
        (e.reads)
        (cons_stage-ReadsStages base e.now (parse_stages granted room n texts)
          (parse_stages_heap malloc room texts e.memory)
          (ih n (held e.now base) e.memory e.counts e.holds)))
  next_stages-ReadsStages room base texts failed r e ih =
      rw (e.ran) (record { now = []; last = e.now; memory = e.memory; ran = refl; holds = e.holds })
  next_stages-ReadsStages room base texts endless r e ih = rw e refl

  pub parse_stages-ReadsStages :
      (room n : ℕ) (base : Blocks) (texts : List Text) (m : Memory)
      → m.asked ≡ start + n
      → Holds base m
      → ReadsStages base (parse_stages granted room n texts) (parse_stages_heap malloc room texts m)
  unfolding parse_stages parse_stages_heap
  parse_stages-ReadsStages zero n base texts m count h = record {
    now = [];
    memory = m;
    ran = refl;
    reads = refl;
    holds = h;
  }
  parse_stages-ReadsStages (suc room) n base [] m count h = record {
    now = [];
    memory = m;
    ran = refl;
    reads = refl;
    holds = h;
  }
  parse_stages-ReadsStages (suc room) n base (text ∷ texts) m count h =
      next_stages-ReadsStages room base texts (parse_stage granted n text)
        (parse_stage_heap malloc text m) (parse_stage-Reads malloc base start n text m count h)
        (λ n' base' m' count' h'. parse_stages-ReadsStages room n' base' texts m' count' h')
