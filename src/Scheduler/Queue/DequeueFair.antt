-- ===== src/Scheduler/Queue/DequeueFair.antt =====
-- `queue_dequeue_fair`, against the list of jobs.
use runner_orchestrator.Base.{
  ℕ, zero, suc, ◌+◌, ◌<◌, ◌≡◌, refl, ap, ◌∙◌, Bool, true, false, ◌==◌, List, [], ◌∷◌, inl, inr,
  some, none, arith, length, Option, ℤ,
}
use runner_orchestrator.Scheduler.Job.{JobInfo}
use runner_orchestrator.Scheduler.Fair.{choose_next_fair_user}
use runner_orchestrator.Scheduler.Jobs.{Taken, dequeue_fair, remove_first, collect_users}
use runner_orchestrator.Scheduler.Jobs.Laws.{user_key, remove_first-TakesOut}
use runner_orchestrator.Store.{
  null, node, Heap, done, load-done, Ends, Exec, pure, continue, bind-Ends,
}
use runner_orchestrator.Store.Cells.{Cells, Linked, entry, jobs}
use runner_orchestrator.Scheduler.Queue.{JobQueue, Removal, queue_dequeue_fair, collect_loop}
use runner_orchestrator.Scheduler.Queue.Chain.{IsQueue}
use runner_orchestrator.Scheduler.Queue.Remove.{
  Implements, Implements-untouched, out_of, remove_first_node-Implements,
}
use runner_orchestrator.Scheduler.Queue.Dequeue.{queue_dequeue-Implements}

-- The loop over the nodes collects the users of the jobs.
collect_loop-done :
    (k : ℕ) (users : List ℤ) (cs : Cells) (h : Heap)
    → Linked h cs null
    → length cs < k
    → collect_loop k users (entry cs null) h ≡ done (collect_users users (jobs cs)) h
unfolding collect_loop collect_users
collect_loop-done zero users cs h l f = absurd (omega arith)
collect_loop-done (suc k) users [] h l f = refl
collect_loop-done (suc k) users ((p, j) ∷ cs) h (ne, at, l) f =
    rw (ne, load-done h p (node j (entry cs null)) ne at)
      (collect_loop-done k _ cs h l (omega arith))

-- What `*last_user_id` holds after a removal: the user of the job that went out.
abbrev pub last_after : ℤ → Taken → ℤ
last_after last none = last
last_after last (some (t, rest)) = t.user_id

abbrev pub FairImplements : Heap → Cells → ℤ → Taken → Removal × ℤ → Heap → Type 0
FairImplements h cs last r (x, now) g = Implements h cs r x g × (now ≡ last_after last r)

-- The end of both branches, where the removed job decides the user that is remembered.
remember :
    (last : ℤ) (r : Taken) (out : Option JobInfo) (user : JobInfo → ℤ)
    → ((t : JobInfo) (rest : List JobInfo) → r ≡ some (t, rest) → user t ≡ t.user_id)
    → out ≡ out_of r
    → (elim out [ none ↦ last | some j ↦ user j ]) ≡ last_after last r
remember last none out user same e = rw e
remember last (some (t, rest)) out user same e = rw e (same t rest refl)

remember-Ends :
    (h : Heap) (cs : Cells) (last : ℤ) (r : Taken) (m : Exec Removal) (user : JobInfo → ℤ)
    → ((t : JobInfo) (rest : List JobInfo) → r ≡ some (t, rest) → user t ≡ t.user_id)
    → Ends (Implements h cs r) m
    → Ends
        (FairImplements h cs last r)
        (continue m λ x. pure (x, elim x.0 [ none ↦ last | some j ↦ user j ]))
remember-Ends h cs last r m user same e = bind-Ends m _ e λ x g d. record {
  value = _;
  heap = _;
  ran = refl;
  holds = (d, remember last r x.0 user same d.0);
}

-- The job that goes out is one of the user it was looked up by.
taken_user :
    (v : ℤ) (q : List JobInfo) (t : JobInfo) (rest : List JobInfo)
    → remove_first user_key v q ≡ some (t, rest)
    → v ≡ t.user_id
taken_user v q t rest e = elim (remove_first-TakesOut user_key v q) [
  | inl (w, k, _) ↦ ground (arith, w.result)
  | inr (n, _) ↦ cc
]

-- On a queue that stands for some cells `queue_dequeue_fair` ends; it takes the job that `dequeue_fair`
-- takes from the list of jobs, with memory for the users or without, frees its node, and writes its user
-- to `*last_user_id`; the queue then stands for the others. On an empty queue it returns 0 and changes
-- nothing.
pub queue_dequeue_fair-Implements :
    (h : Heap) (q : JobQueue) (cs : Cells) (allocated : Bool) (fair : List ℤ) (last : ℤ)
    → IsQueue h q cs
    → Ends
        (FairImplements h cs last (dequeue_fair allocated fair last (jobs cs)))
        (queue_dequeue_fair allocated (some q) fair last h)
unfolding queue_dequeue_fair dequeue_fair
queue_dequeue_fair-Implements h q cs false fair last w =
    remember-Ends h cs last _ _ user_key (λ t rest e. refl) (queue_dequeue-Implements h q cs w)
queue_dequeue_fair-Implements h q [] true fair last w = rw empty_head (
    unfold remove_first in
    record { value = _; heap = _; ran = refl; holds = (Implements-untouched h q [] w, refl) })
  where
    empty_head : (q.head == null) ≡ true
    empty_head = ground (arith, w.head)
queue_dequeue_fair-Implements h q ((p, j) ∷ cs) true fair last w =
    rw (head_not, collected)
      (remember-Ends h ((p, j) ∷ cs) last _ _ (λ t. target) (taken_user target (j ∷ jobs cs))
        (remove_first_node-Implements user_key target h q ((p, j) ∷ cs) w))
  where
    target : ℤ
    target = choose_next_fair_user (collect_users [] (j ∷ jobs cs)) fair last

    head_not : (q.head == null) ≡ false
    head_not = ground (arith, w.head, w.linked.0)

    collected : collect_loop (q.size + 1) [] q.head h ≡ done (collect_users [] (j ∷ jobs cs)) h
    collected =
        ap (λ a. collect_loop (q.size + 1) [] a h) w.head
        ∙ collect_loop-done (q.size + 1) [] ((p, j) ∷ cs) h w.linked (omega (arith, w.size))
