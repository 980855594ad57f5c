-- ===== src/Controller/Queues.antt =====
-- controller_handlers.c: the two queues of the controller, from their creation to their end, on the heap.
use runner_orchestrator.Base.{
  ℕ, ◌≡◌, refl, Bool-cases, inl, inr, ◌∙◌, Bool, true, false, ◌||◌, List, [], if◌then◌else◌, none,
  some, ℤ, pos, negsuc, ◌++◌,
}
use runner_orchestrator.Store.{Addr, Heap, Prog, ◌>>◌, pure, Ends, bind-Ends}
use runner_orchestrator.Store.Cells.{Cells, Apart, owns, owns-append, Linked-frame}
use runner_orchestrator.Scheduler.Queue.{JobQueue, QueuePtr, queue_create, queue_destroy}
use runner_orchestrator.Scheduler.Queue.Chain.{IsQueue}
use runner_orchestrator.Scheduler.Queue.Traverse.{Freed, queue_destroy-Freed}

abbrev pub is_null : QueuePtr → Bool
is_null none = true
is_null (some q) = false

-- The part of the controller's state that is allocated.
pub record Resources : Type 0 where
  pub waiting_queue : QueuePtr
  pub running_queue : QueuePtr
  pub fair_users : List ℤ
  pub fair_user_capacity : ℕ

-- Whether there is memory for each queue; and what is returned.
unfoldable pub controller_init_queues : (waiting_ok running_ok : Bool) → Resources → Resources × ℤ
unfolding queue_create
controller_init_queues waiting_ok running_ok s =
    let waiting = queue_create waiting_ok in
    let running = queue_create running_ok in
    (
      record s { waiting_queue = waiting; running_queue = running },
      if is_null waiting || is_null running then negsuc 0 else pos 0,
    )

abbrev pub no_resources : Resources
no_resources = record {
  waiting_queue = none;
  running_queue = none;
  fair_users = [];
  fair_user_capacity = 0;
}

-- The array of users is not on the heap of the nodes: its `free` leaves no trace there.
unfoldable pub controller_destroy_queues : Resources → Prog Resources
controller_destroy_queues s = do
  queue_destroy s.waiting_queue
  queue_destroy s.running_queue
  pure no_resources

IsQueue-after_Freed :
    (h g : Heap) (ws rs : Cells) (rq : JobQueue)
    → Freed ws h g
    → Apart ws rs
    → IsQueue h rq rs
    → IsQueue g rq rs
IsQueue-after_Freed h g ws rs rq f apart w = record {
  linked = Linked-frame h g rs _ w.linked (λ a o. other a o);
  distinct = w.distinct;
  head = w.head;
  tail = w.tail;
  size = w.size;
}
  where
    other : (a : Addr) → owns rs a ≡ true → g a ≡ h a
    other a o = elim (Bool-cases (owns ws a)) [
      | inl shared ↦ absurd (cc (apart a shared, o))
      | inr kept ↦ f a ∙ rw kept refl
    ]

Freed-append : (h g k : Heap) (ws rs : Cells) → Freed ws h g → Freed rs g k → Freed (ws ++ rs) h k
Freed-append h g k ws rs first second a = second a ∙ elim (Bool-cases (owns rs a)) [
  | inl later ↦
      rw (owns-append ws rs a, later)
        (elim (Bool-cases (owns ws a)) [
          | inl earlier ↦ rw earlier refl
          | inr none_of ↦ rw none_of refl
        ])
  | inr kept ↦
      rw (owns-append ws rs a, kept)
        (first a ∙ elim (Bool-cases (owns ws a)) [
          | inl earlier ↦ rw earlier refl
          | inr none_of ↦ rw none_of refl
        ])
]

-- On two queues that stand for cells of which none is shared, `controller_destroy_queues` ends; it frees each
-- node of both queues and changes no other, never reads a node that it has freed, and leaves no pointer to a
-- queue and no user behind.
pub controller_destroy_queues-Freed :
    (h : Heap) (s : Resources) (wq rq : JobQueue) (ws rs : Cells)
    → s.waiting_queue ≡ some wq
    → s.running_queue ≡ some rq
    → IsQueue h wq ws
    → IsQueue h rq rs
    → Apart ws rs
    → Ends (λ left g. (left ≡ no_resources) × Freed (ws ++ rs) h g) (controller_destroy_queues s h)
unfolding controller_destroy_queues
controller_destroy_queues-Freed h s wq rq ws rs ew er w r apart =
    rw (ew, er)
      (bind-Ends (queue_destroy (some wq) h) _ (queue_destroy-Freed h wq ws w) λ u g f.
        bind-Ends (queue_destroy (some rq) g) _
          (queue_destroy-Freed g rq rs (IsQueue-after_Freed h g ws rs rq f apart r))
          λ v k f'. record {
            value = no_resources;
            heap = k;
            ran = refl;
            holds = (refl, Freed-append h g k ws rs f f');
          })
