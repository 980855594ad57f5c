-- ===== src/Scheduler/Queue/Remove.antt =====
-- The removal by key, against the list of jobs.
use runner_orchestrator.Base.{
  ℕ, zero, suc, ◌<◌, ◌≡◌, refl, ap, ◌∙◌, ◌⊎◌, true, false, ◌==◌, List, [], ◌∷◌, ◌++◌, inl, inr,
  some, none, arith, length, ◌+◌, Option, if_pos, if_neg, ℤ, ℤ_discrete,
}
use runner_orchestrator.Scheduler.Job.{JobInfo}
use runner_orchestrator.Scheduler.Jobs.{Taken, remove_first, remove_by_command_id}
use runner_orchestrator.Store.{Addr, null, node, Heap, done, load-done, Exec, Ends}
use runner_orchestrator.Store.Cells.{
  Cells, Linked, SameBut, entry, last_addr, owns, owns-append, jobs, jobs-append,
}
use runner_orchestrator.Scheduler.Queue.{
  JobQueue, QueuePtr, Removal, find_loop, unlink_found, remove_first_node,
  queue_remove_by_command_id,
}
use runner_orchestrator.Scheduler.Queue.Chain.{IsQueue, PointsTo}
use runner_orchestrator.Scheduler.Queue.Unlink.{Removed, unlink-Removed}

abbrev pub out_of : Taken → Option JobInfo
out_of none = none
out_of (some (t, rest)) = some t

abbrev pub rest_of : List JobInfo → Taken → List JobInfo
rest_of q none = q
rest_of q (some (t, rest)) = rest

-- The nodes left stand for the jobs left; a node that went out is freed; no other node is written.
pub record Shrinks (h : Heap) (cs : Cells) (left : List JobInfo) (q : QueuePtr) (g : Heap)
    : Type 0 where
  pub cells : Cells
  pub points : PointsTo g q cells
  pub left_jobs : jobs cells ≡ left
  pub same : SameBut cs h g
  pub old : (a : Addr) → owns cells a ≡ true → owns cs a ≡ true
  pub freed : (a : Addr) → owns cs a ≡ true → owns cells a ≡ false → g a ≡ none

-- A removal does to the nodes what `r` does to the jobs.
abbrev pub Implements : Heap → Cells → Taken → Removal → Heap → Type 0
Implements h cs r (out, q) g = (out ≡ out_of r) × Shrinks h cs (rest_of (jobs cs) r) q g

pub Implements-untouched :
    (h : Heap) (q : JobQueue) (cs : Cells) → IsQueue h q cs → Implements h cs none (none, some q) h
Implements-untouched h q cs v = (
  refl,
  record {
    cells = cs;
    points = v;
    left_jobs = refl;
    same = λ a o. refl;
    old = λ a o. o;
    freed = λ a o n. cc;
  },
)

pub Implements-of_Removed :
    (h : Heap) (pre : Cells) (p : Addr) (j : JobInfo) (post : Cells) (r : Taken)
    → r ≡ some (j, jobs pre ++ jobs post)
    → (x : Removal) (g : Heap) → Removed h pre p j post x g
    → Implements h (pre ++ ((p, j) ∷ post)) r x g
Implements-of_Removed h pre p j post r e (out, q) g (o, v, gone, same) = rw e (
  o,
  record {
    cells = pre ++ post;
    points = v;
    left_jobs = jobs-append pre post;
    same = same;
    old = λ a o. ground (arith, owns-append pre post a, owns-append pre ((p, j) ∷ post) a);
    freed = λ a o n. ground (arith, owns-append pre post a, owns-append pre ((p, j) ∷ post) a);
  },
)

pub Ends-mono :
    {A : Type 0} {P : A → Heap → Type 0} {Q : A → Heap → Type 0} (r : Exec A)
    → Ends P r
    → ((a : A) (h : Heap) → P a h → Q a h)
    → Ends Q r
Ends-mono r e weaken = record {
  value = e.value;
  heap = e.heap;
  ran = e.ran;
  holds = weaken e.value e.heap e.holds;
}

-- The search stops at the cell that `remove_first` takes, or finds none, and writes nothing.
abbrev Found : (JobInfo → ℤ) → ℤ → ℕ → Addr → Cells → Heap → Type 0
Found key v k prev cs h =
    ((pre : Cells) × (p : Addr) × (j : JobInfo) × (post : Cells) × (cs ≡ pre ++ ((p, j) ∷ post))
      × (find_loop key v k prev (entry cs null) h
          ≡ done (some (last_addr prev pre, p, node j (entry post null))) h)
      × (remove_first key v (jobs cs) ≡ some (j, jobs pre ++ jobs post)))
    ⊎ ((find_loop key v k prev (entry cs null) h ≡ done none h)
        × (remove_first key v (jobs cs) ≡ none))

module _ (key : JobInfo → ℤ) (v : ℤ) (k : ℕ) (prev p : Addr) (j : JobInfo) (next : Addr) (h : Heap)
    (ne : (p == null) ≡ false) (at : h p ≡ some (node j next)) where
  find_loop-hit :
      key j ≡ v → find_loop key v (suc k) prev p h ≡ done (some (prev, p, node j next)) h
  unfolding find_loop
  find_loop-hit hit = rw (ne, load-done h p (node j next) ne at, if_pos _ hit)

  find_loop-miss : ¬ (key j ≡ v) → find_loop key v (suc k) prev p h ≡ find_loop key v k p next h
  unfolding find_loop
  find_loop-miss miss = rw (ne, load-done h p (node j next) ne at, if_neg _ miss)

find_loop-Found :
    (key : JobInfo → ℤ) (v : ℤ) (k : ℕ) (prev : Addr) (cs : Cells) (h : Heap)
    → Linked h cs null
    → length cs < k
    → Found key v k prev cs h
unfolding remove_first
find_loop-Found key v zero prev cs h l f = absurd (omega arith)
find_loop-Found key v (suc k) prev [] h l f = inr (unfold find_loop in refl, refl)
find_loop-Found key v (suc k) prev ((p, j) ∷ cs) h (ne, at, l) f = elim (ℤ_discrete (key j) v) [
  | yes hit ↦
      inl ([], p, j, cs, refl, find_loop-hit key v k prev p j _ h ne at hit, rw (if_pos _ hit))
  | no miss ↦ elim (find_loop-Found key v k p cs h l (omega arith)) [
    | inl (pre, a, i, post, e, r, t) ↦ inl (
      (p, j) ∷ pre,
      a,
      i,
      post,
      ap (λ c. (p, j) ∷ c) e,
      find_loop-miss key v k prev p j _ h ne at miss ∙ r,
      rw (if_neg _ miss, t),
    )
    | inr (r, t) ↦ inr (find_loop-miss key v k prev p j _ h ne at miss ∙ r, rw (if_neg _ miss, t))
  ]
]

pub remove_first_node-Implements :
    (key : JobInfo → ℤ) (v : ℤ) (h : Heap) (q : JobQueue) (cs : Cells)
    → IsQueue h q cs
    → Ends (Implements h cs (remove_first key v (jobs cs))) (remove_first_node key v q h)
unfolding remove_first_node unlink_found
remove_first_node-Implements key v h q cs w =
    elim (find_loop-Found key v (q.size + 1) null cs h w.linked (omega (arith, w.size))) [
      | inl (pre, p, j, post, e, r, t) ↦ rw (from_head ∙ r) (
          Ends-mono _ (unlink-Removed h q pre p j post (rw e at w))
            (λ x g d. rw e (Implements-of_Removed h pre p j post _ (rw e at t) x g d)))
      | inr (r, t) ↦
          rw (from_head ∙ r, t)
            (record { value = _; heap = _; ran = refl; holds = Implements-untouched h q cs w })
    ]
  where
    from_head :
        find_loop key v (q.size + 1) null q.head h
        ≡ find_loop key v (q.size + 1) null (entry cs null) h
    from_head = ap (λ a. find_loop key v (q.size + 1) null a h) w.head

-- On a queue that stands for some cells `queue_remove_by_command_id` ends; it takes out the first job with
-- the identifier, if there is one, and frees its node, and head, tail and size then stand for the rest.
pub queue_remove_by_command_id-Implements :
    (h : Heap) (q : JobQueue) (cs : Cells) (id : ℤ)
    → IsQueue h q cs
    → Ends
        (Implements h cs (remove_by_command_id id (jobs cs)))
        (queue_remove_by_command_id (some q) id h)
unfolding queue_remove_by_command_id remove_by_command_id
queue_remove_by_command_id-Implements h q cs id w =
    remove_first_node-Implements (λ j. j.command_id) id h q cs w
