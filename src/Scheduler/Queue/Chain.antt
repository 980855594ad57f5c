-- ===== src/Scheduler/Queue/Chain.antt =====
-- When a queue object stands for a list of cells.
use runner_orchestrator.Base.{◌≡◌, length, none, some}
use runner_orchestrator.Store.{null, Heap}
use runner_orchestrator.Store.Cells.{Cells, Linked, Distinct, entry, last_addr}
use runner_orchestrator.Scheduler.Queue.{JobQueue, QueuePtr}

pub record IsQueue (h : Heap) (q : JobQueue) (cs : Cells) : Type 0 where
  pub linked : Linked h cs null
  pub distinct : Distinct cs
  pub head : q.head ≡ entry cs null
  pub tail : q.tail ≡ last_addr null cs
  pub size : q.size ≡ length cs

-- A pointer to a queue object that stands for the cells.
abbrev pub PointsTo : Heap → QueuePtr → Cells → Type 0
PointsTo h none cs = ⊥
PointsTo h (some q) cs = IsQueue h q cs
