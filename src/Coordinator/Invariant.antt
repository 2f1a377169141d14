-- ===== src/Coordinator/Invariant.antt =====
-- The invariant of the tables: how the fields of a task fit together, which tasks the queue still
-- holds, who owns what is assigned, and what the counter of finished tasks counts.
use data_communication.Prelude.{
  ℕ, ◌-◌, ◌≤◌, ◌<◌, ◌≡◌, true, false, not, is_some, range_from, total, leb, ◌==◌,
}
use data_communication.Coordinator.State.{Tables, Task, task_count, worker_count}
use data_communication.Coordinator.Assign.{is_dead, is_done}
use data_communication.Coordinator.Detect.{is_held_by}
use data_communication.Coordinator.Summary.{done_weight, is_pending}

-- A worker identity that the tables know.
abbrev pub IsMember : ℕ → Type 0
IsMember i = (1 ≤ i) × (i ≤ worker_count)

-- A task is committed once if it is done and never else; exactly a done task has a result; exactly
-- a task that was never handed out has epoch 0 and no owner.
pub record IsSound (task : Task) : Type 0 where
  pub once : task.commit_count ≡ done_weight task
  pub valued : is_some task.value ≡ is_done task.state
  pub epochs : (task.epoch == 0) ≡ is_pending task.state
  pub owned : is_some task.owner ≡ not (is_pending task.state)

-- The part of the invariant that says nothing of the workers.
pub record IsOrdered (t : Tables) : Type 0 where
  -- the first task that was never handed out
  pub next : ℕ
  pub next_le : next ≤ task_count
  pub queued : t.queue ≡ range_from next (task_count - next)
  pub waiting : (k : ℕ) → k < task_count → is_pending (t.tasks k).state ≡ leb next k
  pub sound : (k : ℕ) → k < task_count → IsSound (t.tasks k)
  pub counted : t.done_count ≡ total done_weight task_count t.tasks

-- All members have been declared dead.
abbrev pub NoneLeft : Tables → Type 0
NoneLeft t = (i : ℕ) → IsMember i → is_dead (t.workers i).health ≡ true

pub record IsValid (t : Tables) : Type 0 where
  -- the first task that was never handed out
  pub next : ℕ
  pub next_le : next ≤ task_count
  pub queued : t.queue ≡ range_from next (task_count - next)
  pub waiting : (k : ℕ) → k < task_count → is_pending (t.tasks k).state ≡ leb next k
  pub sound : (k : ℕ) → k < task_count → IsSound (t.tasks k)
  pub counted : t.done_count ≡ total done_weight task_count t.tasks
  -- what is assigned belongs to a member that has not been declared dead
  pub live :
      (k i : ℕ)
      → k < task_count
      → is_held_by i (t.tasks k) ≡ true
      → IsMember i × (is_dead (t.workers i).health ≡ false)
