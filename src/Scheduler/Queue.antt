-- ===== src/Scheduler/Queue.antt =====
-- scheduler.c: `job_queue_t` and its operations on linked nodes. A queue pointer is `none` where it
-- is NULL. An operation returns its result and the queue that `q` points at afterwards; a result that
-- goes out through a pointer is `some` where the code returns 1. Each `while` over the nodes runs on
-- one round more than `size`.
pub mod Chain
pub mod Enqueue
pub mod Unlink
pub mod Remove
pub mod Dequeue
pub mod DequeueRandom
pub mod DequeueFair
pub mod Traverse
use runner_orchestrator.Base.{
  ℕ, zero, suc, ◌+◌, ◌-◌, ◌%◌, Bool, true, false, ◌==◌, if◌then◌else◌, ite, List, [], ◌∷◌, ◌++◌,
  Option, none, some, ℤ, ℤ_discrete,
}
use runner_orchestrator.Store.{
  Addr, null, JobNode, node, Heap, Prog, endless, pure, ◌>>=◌, ◌>>◌, load, set_next, free, fill,
}
use runner_orchestrator.Scheduler.Job.{JobInfo}
use runner_orchestrator.Scheduler.Fair.{user_exists, choose_next_fair_user}

pub record JobQueue : Type 0 where
  pub head : Addr
  pub tail : Addr
  pub size : ℕ

abbrev pub QueuePtr : Type 0
QueuePtr = Option JobQueue

-- `allocated`: whether `malloc` returned memory for the queue object.
unfoldable pub queue_create : (allocated : Bool) → QueuePtr
queue_create false = none
queue_create true = some (record { head = null; tail = null; size = 0 })

pub destroy_loop : ℕ → Addr → Prog (Unit {0})
destroy_loop zero curr = λ h. endless
destroy_loop (suc k) curr =
    if curr == null then pure tt else do n ← load curr; free curr; destroy_loop k n.next

pub queue_destroy : QueuePtr → Prog (Unit {0})
unfolding destroy_loop
queue_destroy none = pure tt
queue_destroy (some q) = destroy_loop (q.size + 1) q.head

-- The two branches on `q->tail`, and the count.
link_last : Addr → JobQueue → Prog (Bool × QueuePtr)
link_last fresh q =
    if q.tail == null
    then pure (true, some (record { head = fresh; tail = fresh; size = q.size + 1 }))
    else do set_next q.tail fresh; pure (true, some (record q { tail = fresh; size = q.size + 1 }))

-- `fresh` is the address that `malloc` returned for the node, NULL on failure.
pub queue_enqueue : (fresh : Addr) → QueuePtr → JobInfo → Prog (Bool × QueuePtr)
unfolding link_last
queue_enqueue fresh none job = pure (false, none)
queue_enqueue fresh (some q) job =
    if fresh == null then pure (false, some q) else do fill fresh (node job null); link_last fresh q

-- What an operation that takes a job out returns, and the queue.
abbrev pub Removal : Type 0
Removal = Option JobInfo × QueuePtr

pub queue_dequeue : QueuePtr → Prog Removal
queue_dequeue none = pure (none, none)
queue_dequeue (some q) = if q.head == null then pure (none, some q) else do
  old_head ← load q.head
  free q.head
  pure (
    some old_head.job,
    some (record {
      head = old_head.next;
      tail = if old_head.next == null then null else q.tail;
      size = q.size - 1;
    }),
  )

-- The `for` loop that moves `prev` and `curr` on, with the rounds that are left.
pub walk : ℕ → (prev curr : Addr) → Prog (Addr × Addr)
walk zero prev curr = pure (prev, curr)
walk (suc k) prev curr =
    if curr == null then pure (prev, curr) else do n ← load curr; walk k curr n.next

pub queue_dequeue_random : (rand : ℕ) → QueuePtr → Prog Removal
unfolding walk
queue_dequeue_random rand none = pure (none, none)
queue_dequeue_random rand (some q) =
    if q.head == null
    then pure (none, some q)
    else if rand % q.size == 0
    then queue_dequeue (some q)
    else do
      first ← load q.head
      (prev, curr) ← walk (rand % q.size - 1) q.head first.next
      if curr == null then pure (none, some q) else do
        n ← load curr
        set_next prev n.next
        free curr
        pure (
          some n.job,
          some (record q { tail = if n.next == null then prev else q.tail; size = q.size - 1 }),
        )

-- `if (a == b)` between programs.
abbrev pub if_equal : {A : Type 0} → ℤ → ℤ → Prog A → Prog A → Prog A
if_equal a b m n = λ h. ite (ℤ_discrete a b) (m h) (n h)

-- The loop that looks for the first node whose key has the value, `prev` one node behind `curr`.
pub find_loop : (JobInfo → ℤ) → ℤ → ℕ → (prev curr : Addr) → Prog (Option (Addr × Addr × JobNode))
find_loop key v zero prev curr = λ h. endless
find_loop key v (suc k) prev curr = if curr == null then pure none else do
  n ← load curr
  if_equal (key n.job) v (pure (some (prev, curr, n))) (find_loop key v k curr n.next)

-- What follows in the loop when the node is found.
pub unlink : JobQueue → (prev curr : Addr) → JobNode → Prog Removal
unlink q prev curr n = do
  (if prev == null then pure tt else set_next prev n.next)
  free curr
  pure (
    some n.job,
    some (record {
      head = if prev == null then n.next else q.head;
      tail = if q.tail == curr then prev else q.tail;
      size = q.size - 1;
    }),
  )

pub unlink_found : JobQueue → Option (Addr × Addr × JobNode) → Prog Removal
unfolding unlink
unlink_found q none = pure (none, some q)
unlink_found q (some (prev, curr, n)) = unlink q prev curr n

pub remove_first_node : (JobInfo → ℤ) → ℤ → JobQueue → Prog Removal
unfolding find_loop unlink_found
remove_first_node key v q = find_loop key v (q.size + 1) null q.head >>= unlink_found q

pub queue_remove_by_command_id : QueuePtr → ℤ → Prog Removal
unfolding remove_first_node
queue_remove_by_command_id none id = pure (none, none)
queue_remove_by_command_id (some q) id = remove_first_node (λ j. j.command_id) id q

-- The loop that fills `users`.
pub collect_loop : ℕ → List ℤ → Addr → Prog (List ℤ)
collect_loop zero users curr = λ h. endless
collect_loop (suc k) users curr = if curr == null then pure users else do
  n ← load curr
  collect_loop k (if user_exists users n.job.user_id then users else users ++ (n.job.user_id ∷ []))
      n.next

-- `allocated`: whether `malloc` returned memory for `users`. The last number returned is what
-- `*last_user_id` holds afterwards.
pub queue_dequeue_fair : (allocated : Bool) → QueuePtr → List ℤ → ℤ → Prog (Removal × ℤ)
unfolding collect_loop remove_first_node
queue_dequeue_fair allocated none fair last = pure ((none, none), last)
queue_dequeue_fair false (some q) fair last = do
  (out, q') ← queue_dequeue (some q)
  pure ((out, q'), elim out [ none ↦ last | some j ↦ j.user_id ])
queue_dequeue_fair true (some q) fair last =
    if q.head == null then pure ((none, some q), last) else do
      users ← collect_loop (q.size + 1) [] q.head
      let target = choose_next_fair_user users fair last
      (out, q') ← remove_first_node (λ j. j.user_id) target q
      pure ((out, q'), elim out [ none ↦ last | some j ↦ target ])

pub queue_is_empty : QueuePtr → Bool
queue_is_empty none = true
queue_is_empty (some q) = q.size == 0

pub queue_size : QueuePtr → ℕ
queue_size none = 0
queue_size (some q) = q.size

pub queue_get_size : QueuePtr → ℕ
queue_get_size none = 0
queue_get_size (some q) = q.size

-- The jobs copied, by the room that is left in the array.
pub copy_loop : ℕ → Addr → Prog (List JobInfo)
copy_loop zero curr = pure []
copy_loop (suc room) curr =
    if curr == null
    then pure []
    else do n ← load curr; rest ← copy_loop room n.next; pure (n.job ∷ rest)

pub queue_copy_to_array : QueuePtr → (max_size : ℕ) → Prog (List JobInfo)
unfolding copy_loop
queue_copy_to_array none max_size = pure []
queue_copy_to_array (some q) max_size = copy_loop max_size q.head
