-- ===== src/Parser/Memory/Ownership.antt =====
-- `parser_parse` with memory: what it holds when it returns, and `parser_destroy` after it.
use runner_orchestrator.Base.{
  suc, ◌+◌, ◌≡◌, refl, sym, Bool, true, Bool-cases, List, [], ◌∷◌, Option, none, some, inl, inr,
  arith, subst, map, take, if◌then◌else◌,
}
use runner_orchestrator.Parser.{
  Text, CommandStage, ParsedCommand, Outcome, parsed, failed, endless, as_command, parser_parse,
  stage_texts, parser_max_stages,
}
use runner_orchestrator.Parser.Bounds.{CommandFits, parser_parse-CommandFits}
use runner_orchestrator.Parser.Memory.{
  Addr, command, Blocks, find, Memory, Allocator, Run, done, ◌>>=◌, ◌>>◌, StagePointers,
  CommandPointer, parser_parse_heap, parser_destroy,
}
use runner_orchestrator.Parser.Memory.Blocks.{Separate, Holds, allocate-Allocated, allocate-null}
use runner_orchestrator.Parser.Memory.Held.{Held, nothing, stage_of, held}
use runner_orchestrator.Parser.Memory.Destroy.{
  all_held, held-append, command_at, parser_destroy-Freed,
}
use runner_orchestrator.Parser.Memory.Stages.{ReadsStages, parse_stages-ReadsStages}

-- The command that `parser_parse` returns, and all that it holds.
pub record OwnsCommand (base : Blocks) (cmd : ParsedCommand) (r : Run (Option CommandPointer))
    : Type 0 where
  pub now : List Held
  pub addr : Addr
  pub memory : Memory
  pub ran : r ≡ done (some (command_at addr now)) memory
  pub reads : map stage_of now ≡ cmd.stages
  pub holds : Holds (all_held now ((addr, command) ∷ base)) memory

-- NULL, and what is left in use: the blocks of one stage.
pub record Refused (base : Blocks) (r : Run (Option CommandPointer)) : Type 0 where
  pub left : Held
  pub memory : Memory
  pub ran : r ≡ done none memory
  pub holds : Holds (held left base) memory

abbrev pub Refines : Blocks → Outcome ParsedCommand → Run (Option CommandPointer) → Type 0
Refines base (parsed cmd) r = OwnsCommand base cmd r
Refines base failed r = Refused base r
Refines base endless r = ⊥

-- The end of `parser_parse`: the command, or `parser_destroy` and NULL.
abbrev finish : Addr → Bool × List StagePointers → Memory → Run (Option CommandPointer)
finish p (ok, stages) m =
    let cmd : CommandPointer = record { addr = p; stages = stages } in
    if ok then done (some cmd) m else (parser_destroy (some cmd) m >> λ m'. done none m')

finish-Refines :
    (base : Blocks) (p : Addr) (o : Outcome (List CommandStage))
    (r : Run (Bool × List StagePointers))
    → CommandFits (as_command o)
    → ReadsStages ((p, command) ∷ base) o r
    → Refines base (as_command o) (r >>= finish p)
finish-Refines base p (parsed stages) r fits e = record {
  now = e.now;
  addr = p;
  memory = e.memory;
  ran = rw (e.ran) refl;
  reads = e.reads;
  holds = e.holds;
}
finish-Refines base p failed r fits e =
    let f = parser_destroy-Freed e.now (held e.last []) base p e.memory (
      subst (λ l. Holds l e.memory)
        (sym (held-append e.last [] (all_held e.now ((p, command) ∷ base)))) e.holds) in
    record {
      left = e.last;
      memory = f.memory;
      ran = rw (e.ran, f.ran) refl;
      holds = subst (λ l. Holds l f.memory) (held-append e.last [] base) f.holds;
    }
finish-Refines base p endless r fits e = fits

module _ (malloc : Allocator) (m : Memory) (separate : Separate m.blocks) where
  here : Holds m.blocks m
  here = record { separate = separate; same = λ a. refl }

  -- Beside the parser of Parser.antt, with the same answers of `malloc`: when that one returns a command, the
  -- pointers lead to the same tokens, each in a block of its own, and the blocks in use are those of before,
  -- the command's and its tokens'; otherwise the result is NULL, and besides the blocks of before only tokens
  -- of one stage are in use. No block is freed that is not in use, and the parser always returns.
  pub parser_parse_heap-Refines :
      (input : Option Text)
      → Refines m.blocks
          (parser_parse (malloc.alloc m.asked) (λ n. malloc.alloc (suc m.asked + n)) input)
          (parser_parse_heap malloc input m)
  unfolding parser_parse parser_parse_heap
  parser_parse_heap-Refines none = record { left = nothing; memory = m; ran = refl; holds = here }
  parser_parse_heap-Refines (some input) = elim (Bool-cases (malloc.alloc m.asked)) [
    | inl room ↦
        let a = allocate-Allocated malloc m.blocks command m room here in
        rw (room, a.ran, a.not_null, parser_parse, parser_parse_heap)
          (finish-Refines m.blocks a.addr _ _
            (unfold parser_parse in
              parser_parse-CommandFits true (λ n. malloc.alloc (suc m.asked + n)) (some input))
            (parse_stages-ReadsStages malloc (suc m.asked) parser_max_stages 0
              ((a.addr, command) ∷ m.blocks) (stage_texts (take 1023 input)) a.memory
              (omega (arith, a.asked)) a.holds))
    | inr full ↦
        rw (full, allocate-null malloc command m full, parser_parse, parser_parse_heap)
          (record {
            left = nothing;
            memory = record m { asked = suc m.asked };
            ran = refl;
            holds = record { separate = separate; same = λ a. refl };
          })
  ]

  -- When the text is accepted, `parser_destroy` on the command ends, and leaves every block in use as it was
  -- before `parser_parse`, and no other.
  pub parser_destroy-parser_parse_heap :
      (input : Option Text) (cmd : ParsedCommand)
      → parser_parse (malloc.alloc m.asked) (λ n. malloc.alloc (suc m.asked + n)) input ≡ parsed cmd
      → (g : Memory) × ((parser_parse_heap malloc input m >>= λ c. parser_destroy c) ≡ done tt g)
        × ((a : Addr) → find g.blocks a ≡ find m.blocks a)
  parser_destroy-parser_parse_heap input cmd accepted =
      let o : OwnsCommand m.blocks cmd (parser_parse_heap malloc input m) =
        subst (λ x. Refines m.blocks x (parser_parse_heap malloc input m)) accepted
          (parser_parse_heap-Refines input) in
      let f = parser_destroy-Freed o.now [] m.blocks o.addr o.memory o.holds in
      (f.memory, rw (o.ran) (f.ran), f.holds.same)
