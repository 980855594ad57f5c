-- ===== src/Tests/Queues.antt =====
-- The operations on linked nodes, on a queue of two jobs.
use runner_orchestrator.Base.{refl, true, [], ◌∷◌, some, pos}
use runner_orchestrator.Store.{Ends, write}
use runner_orchestrator.Store.Cells.{jobs}
use runner_orchestrator.Scheduler.Job.{job_queued}
use runner_orchestrator.Scheduler.Jobs.{dequeue, dequeue_random, dequeue_fair, remove_by_command_id}
use runner_orchestrator.Scheduler.Queue.{
  queue_enqueue, queue_dequeue, queue_dequeue_random, queue_dequeue_fair,
  queue_remove_by_command_id,
}
use runner_orchestrator.Scheduler.Queue.Enqueue.{Enqueued, queue_enqueue-append}
use runner_orchestrator.Scheduler.Queue.Remove.{Implements, queue_remove_by_command_id-Implements}
use runner_orchestrator.Scheduler.Queue.Dequeue.{queue_dequeue-Implements}
use runner_orchestrator.Scheduler.Queue.DequeueRandom.{queue_dequeue_random-Implements}
use runner_orchestrator.Scheduler.Queue.DequeueFair.{FairImplements, queue_dequeue_fair-Implements}
use runner_orchestrator.Tests.{job_of, two_cells, two_nodes, two_queued, two_queued-IsQueue}

queue_enqueue-append_example :
    Ends
      (Enqueued two_nodes two_cells 3 (job_of 14 3 job_queued))
      (queue_enqueue 3 (some two_queued) (job_of 14 3 job_queued) two_nodes)
unfolding write
queue_enqueue-append_example =
    queue_enqueue-append two_nodes two_queued two_cells 3 (job_of 14 3 job_queued)
      two_queued-IsQueue refl refl

queue_dequeue-Implements_example :
    Ends
      (Implements two_nodes two_cells (dequeue (jobs two_cells)))
      (queue_dequeue (some two_queued) two_nodes)
queue_dequeue-Implements_example =
    queue_dequeue-Implements two_nodes two_queued two_cells two_queued-IsQueue

queue_dequeue_random-Implements_example :
    Ends
      (Implements two_nodes two_cells (dequeue_random 3 (jobs two_cells)))
      (queue_dequeue_random 3 (some two_queued) two_nodes)
queue_dequeue_random-Implements_example =
    queue_dequeue_random-Implements two_nodes two_queued two_cells 3 two_queued-IsQueue

queue_dequeue_fair-Implements_example :
    Ends
      (FairImplements two_nodes two_cells
        (pos 1)
        (dequeue_fair true (pos 1 ∷ pos 2 ∷ []) (pos 1) (jobs two_cells)))
      (queue_dequeue_fair true (some two_queued) (pos 1 ∷ pos 2 ∷ []) (pos 1) two_nodes)
queue_dequeue_fair-Implements_example =
    queue_dequeue_fair-Implements two_nodes two_queued two_cells true (pos 1 ∷ pos 2 ∷ []) (pos 1)
      two_queued-IsQueue

queue_remove_by_command_id-Implements_example :
    Ends
      (Implements two_nodes two_cells (remove_by_command_id (pos 13) (jobs two_cells)))
      (queue_remove_by_command_id (some two_queued) (pos 13) two_nodes)
queue_remove_by_command_id-Implements_example =
    queue_remove_by_command_id-Implements two_nodes two_queued two_cells (pos 13) two_queued-IsQueue
