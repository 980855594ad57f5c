-- ===== src/Scheduler/Queue/Dequeue.antt =====
-- `queue_dequeue`, against the list of jobs.
use runner_orchestrator.Base.{◌≡◌, refl, true, ◌==◌, [], ◌∷◌, some, arith}
use runner_orchestrator.Scheduler.Job.{JobInfo}
use runner_orchestrator.Scheduler.Jobs.{dequeue}
use runner_orchestrator.Store.{Addr, null, node, Heap, load-done, Ends}
use runner_orchestrator.Store.Cells.{Cells, entry, jobs}
use runner_orchestrator.Scheduler.Queue.{JobQueue, unlink, queue_dequeue}
use runner_orchestrator.Scheduler.Queue.Chain.{IsQueue}
use runner_orchestrator.Scheduler.Queue.Unlink.{unlink-Removed, tail_is_last}
use runner_orchestrator.Scheduler.Queue.Remove.{
  Implements, Implements-untouched, Implements-of_Removed, Ends-mono,
}

queue_dequeue-unlink :
    (h : Heap) (q : JobQueue) (p : Addr) (j : JobInfo) (post : Cells)
    → IsQueue h q ((p, j) ∷ post)
    → queue_dequeue (some q) h ≡ unlink q null p (node j (entry post null)) h
unfolding queue_dequeue unlink
queue_dequeue-unlink h q p j post w = rw (
  w.head,
  w.linked.0,
  load-done h p (node j (entry post null)) w.linked.0 w.linked.1,
  tail_is_last h q [] p j post w,
)

-- On a queue that stands for some cells `queue_dequeue` ends; it takes the job at the head and frees its
-- node, and the queue then stands for the others; on an empty queue it returns 0 and changes nothing.
pub queue_dequeue-Implements :
    (h : Heap) (q : JobQueue) (cs : Cells)
    → IsQueue h q cs
    → Ends (Implements h cs (dequeue (jobs cs))) (queue_dequeue (some q) h)
unfolding dequeue
queue_dequeue-Implements h q [] w =
    unfold queue_dequeue in
    rw (empty_head)
      (record { value = _; heap = _; ran = refl; holds = Implements-untouched h q [] w })
  where
    empty_head : (q.head == null) ≡ true
    empty_head = ground (arith, w.head)
queue_dequeue-Implements h q ((p, j) ∷ post) w =
    rw (queue_dequeue-unlink h q p j post w)
      (Ends-mono _ (unlink-Removed h q [] p j post w) (Implements-of_Removed h [] p j post _ refl))
