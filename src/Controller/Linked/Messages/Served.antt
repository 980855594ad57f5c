-- ===== src/Controller/Linked/Messages/Served.antt =====
-- controller.c: the messages of a whole run on the heap, from the creation of the queues to their end.
use runner_orchestrator.Base.{
  ◌≡◌, refl, sym, ap, ◌∙◌, true, false, Bool-cases, List, [], ◌∷◌, ◌++◌, none, some, inl, inr,
}
use runner_orchestrator.Protocol.{RpcMessage}
use runner_orchestrator.Store.{Addr, Heap, Ends, bind-Ends}
use runner_orchestrator.Store.Cells.{Cells, owns}
use runner_orchestrator.Scheduler.Queue.{QueuePtr, queue_create, queue_destroy}
use runner_orchestrator.Scheduler.Queue.Chain.{PointsTo}
use runner_orchestrator.Scheduler.Queue.Traverse.{Freed, queue_destroy-Freed}
use runner_orchestrator.Controller.State.{ControllerState, Env, Effect}
use runner_orchestrator.Controller.Messages.{serve}
use runner_orchestrator.Controller.Linked.{
  Answers, PointerState, view, Malloc, and_then, controller_handle_message_heap, serve_heap,
  lifetime,
}
use runner_orchestrator.Controller.Linked.Two.{Two, Apart-swap, PointsTo-frame}
use runner_orchestrator.Controller.Linked.Views.{Shows, Does, IsMalloc}
use runner_orchestrator.Controller.Linked.Dispatch.{given}
use runner_orchestrator.Controller.Linked.Messages.{controller_handle_message_heap-Handles}

abbrev pub Inputs : Type 0
Inputs = List (Env × Malloc × RpcMessage)

-- Each message with the answers that `malloc` gave; none are noted once the loop is left.
abbrev pub with_answers : Inputs → Answers → List (Env × RpcMessage)
with_answers [] answers = []
with_answers ((env, malloc, msg) ∷ more) [] = (env, msg) ∷ with_answers more []
with_answers ((env, malloc, msg) ∷ more) ((ok, a) ∷ answers) =
    (given env ok a, msg) ∷ with_answers more answers

abbrev pub AllMalloc : Inputs → Type 0
AllMalloc [] = Unit {0}
AllMalloc ((env, malloc, msg) ∷ more) = IsMalloc malloc × AllMalloc more

-- Over any messages the controller on the heap does what the one on lists does, for the answers of `malloc`.
abbrev pub Serves :
    Heap → ControllerState → Inputs → PointerState × List Effect × Answers → Heap → Type 0
Serves h0 t msgs (s, did, answers) g = Does h0 (serve t (with_answers msgs answers)) (s, did) g

serve_heap-Serves :
    (h0 h : Heap) (s : PointerState) (t : ControllerState) (msgs : Inputs)
    → AllMalloc msgs
    → Shows h0 h s t
    → Ends (Serves h0 t msgs) (serve_heap s msgs h)
unfolding serve serve_heap
serve_heap-Serves h0 h s t [] unused shows = record {
  value = (s, [], []);
  heap = h;
  ran = refl;
  holds = (shows, refl);
}
serve_heap-Serves h0 h s t ((env, malloc, msg) ∷ more) (unused, rest) shows =
    let flag : t.keep_running ≡ s.keep_running = ap (λ u. u.keep_running) (shows.same) in
    elim (Bool-cases s.keep_running) [
      | inl on ↦
          let on' : t.keep_running ≡ true = flag ∙ on in
          rw (on, serve_heap)
            (bind-Ends (controller_handle_message_heap env malloc s msg h) _
              (controller_handle_message_heap-Handles h0 env malloc unused h s t msg shows)
              λ (s1, did, stop, ok, a) g (shows1, same, _).
                bind-Ends (serve_heap s1 more g) (and_then did (ok, a))
                  (serve_heap-Serves h0 g s1 _ more rest shows1)
                  λ (s2, later, answers) g2 (shows2, same2). record {
                    value = (s2, did ++ later, (ok, a) ∷ answers);
                    heap = g2;
                    ran = refl;
                    holds = rw (on', serve) (shows2, rw (same, same2) refl);
                  })
      | inr off ↦
          let off' : t.keep_running ≡ false = flag ∙ off in
          rw (off, serve_heap)
            (record {
              value = (s, [], []);
              heap = h;
              ran = refl;
              holds = rw (off', serve) (shows, refl);
            })
    ]

destroyed :
    (h : Heap) (q : QueuePtr) (cs : Cells)
    → PointsTo h q cs
    → Ends (λ _. Freed cs h) (queue_destroy q h)
destroyed h none cs w = absurd w
destroyed h (some q) cs w = queue_destroy-Freed h q cs w

-- The end of both queues leaves the heap as it was before their first node.
both_destroyed :
    (h0 h g k : Heap) (p q : QueuePtr) (xs ys : Cells)
    → Two h0 h p q xs ys
    → Freed xs h g
    → Freed ys g k
    → (a : Addr) → k a ≡ h0 a
both_destroyed h0 h g k p q xs ys t first second a = second a ∙ elim (Bool-cases (owns ys a)) [
  | inl later ↦ rw later (sym (t.new_second a later))
  | inr kept ↦ rw kept (
      first a ∙ elim (Bool-cases (owns xs a)) [
        | inl earlier ↦ rw earlier (sym (t.new_first a earlier))
        | inr none_of ↦ rw none_of (t.others a none_of kept)
      ])
]

-- The struct with new queues.
abbrev fresh_queues : PointerState → PointerState
fresh_queues s = record s { waiting_queue = queue_create true; running_queue = queue_create true }

fresh_queues-Shows : (h : Heap) (s : PointerState) → Shows h h (fresh_queues s) (view s [] [])
unfolding queue_create
fresh_queues-Shows h s = record {
  waiting = [];
  running = [];
  two = record {
    first = record { linked = tt; distinct = tt; head = refl; tail = refl; size = refl };
    second = record { linked = tt; distinct = tt; head = refl; tail = refl; size = refl };
    apart = λ a o. cc;
    new_first = λ a o. absurd (cc o);
    new_second = λ a o. absurd (cc o);
    others = λ a o o'. refl;
  };
  same = refl;
}

abbrev pub without_queues : ControllerState → ControllerState
without_queues t = record t { waiting_queue = []; running_queue = [] }

-- What the whole run returns: the effects and the fields of the controller on lists; and a heap as before.
pub record Lives (h0 : Heap) (s : PointerState) (msgs : Inputs)
    (x : ControllerState × List Effect × Answers) (g : Heap) : Type 0 where
  pub effects : x.1 ≡ (serve (view s [] []) (with_answers msgs (x.2))).1
  pub fields : x.0 ≡ without_queues (serve (view s [] []) (with_answers msgs (x.2))).0
  pub heap : (a : Addr) → g a ≡ h0 a

-- From the creation of the two queues over any messages to `queue_destroy`, with a `malloc` that returns NULL
-- or an unused address, the run on linked nodes ends and never reads or frees a node that is not in use; its
-- effects and the fields of the state are those of the controller on lists, for the answers that `malloc` gave
-- in this run, and at the end exactly the nodes of before are in use, unchanged.
pub lifetime-Lives :
    (h : Heap) (s : PointerState) (msgs : Inputs)
    → AllMalloc msgs
    → Ends (Lives h s msgs) (lifetime s msgs h)
unfolding lifetime
lifetime-Lives h s msgs unused =
    bind-Ends (serve_heap (fresh_queues s) msgs h) _
      (serve_heap-Serves h h (fresh_queues s) (view s [] []) msgs unused (fresh_queues-Shows h s))
      λ (s1, did, answers) g (shows, same).
        bind-Ends (queue_destroy s1.waiting_queue g) _
          (destroyed g s1.waiting_queue shows.waiting shows.two.first)
          λ u g1 freed.
            bind-Ends (queue_destroy s1.running_queue g1) _
              (destroyed g1 s1.running_queue shows.running (
                PointsTo-frame g g1 s1.running_queue shows.running shows.two.second (λ a o.
                  freed a ∙ rw (Apart-swap shows.waiting shows.running shows.two.apart a o) refl)))
              λ v g2 freed2. record {
                value = (view s1 [] [], did, answers);
                heap = g2;
                ran = refl;
                holds = record {
                  effects = same;
                  fields = ap without_queues (sym (shows.same));
                  heap =
                      both_destroyed h g g1 g2 s1.waiting_queue s1.running_queue shows.waiting
                        shows.running shows.two freed freed2;
                };
              }
