-- ===== src/Coordinator/Summary.antt =====
-- HW3/hw3/coordinator/tables.py: `snapshot` and `verify`.
use data_communication.Prelude.{
  ℕ, suc, Bool, true, false, ◌&&◌, List, ltb, ◌==◌, keep_if, get_or, total,
}
use data_communication.Coordinator.State.{
  Tables, Task, TaskState, pending, worker_ids, task_count, expected_prime_count,
}
use data_communication.Coordinator.Assign.{is_dead, is_suspect, is_done, is_assigned}
use data_communication.Coordinator.Detect.{is_alive}

abbrev pub as_number : Bool → ℕ
as_number true = 1
as_number false = 0

abbrev pub is_pending : TaskState → Bool
is_pending pending = true
is_pending _ = false

-- The weights of a task in the sums over `self.tasks`.
abbrev pub pending_weight : Task → ℕ
pending_weight task = as_number (is_pending task.state)

abbrev pub assigned_weight : Task → ℕ
assigned_weight task = as_number (is_assigned task.state)

abbrev pub done_weight : Task → ℕ
done_weight task = as_number (is_done task.state)

abbrev pub commits_weight : Task → ℕ
commits_weight task = task.commit_count

abbrev pub double_weight : Task → ℕ
double_weight task = as_number (ltb 1 task.commit_count)

-- `task.result or 0`
abbrev pub value_weight : Task → ℕ
value_weight task = get_or task.value 0

-- `all(c == 1 for c in commits)` over the first `n` tasks.
unfoldable pub all_once : ℕ → (ℕ → Task) → Bool
all_once ℕ.zero ts = true
all_once (suc n) ts = (ts n).commit_count == 1 && all_once n ts

pub record Summary : Type 0 where
  pub pending : ℕ
  pub assigned : ℕ
  pub done : ℕ
  pub alive_workers : List ℕ
  pub suspect_workers : List ℕ
  pub dead_workers : List ℕ
  pub commits : ℕ
  pub double_commit : ℕ
  pub sum : ℕ
  pub all_commit_once : Bool

unfoldable pub snapshot : Tables → Summary
snapshot t = record {
  pending = total pending_weight task_count t.tasks;
  assigned = total assigned_weight task_count t.tasks;
  done = total done_weight task_count t.tasks;
  alive_workers = keep_if (λ i. is_alive (t.workers i).health) worker_ids;
  suspect_workers = keep_if (λ i. is_suspect (t.workers i).health) worker_ids;
  dead_workers = keep_if (λ i. is_dead (t.workers i).health) worker_ids;
  commits = total commits_weight task_count t.tasks;
  double_commit = total double_weight task_count t.tasks;
  sum = total value_weight task_count t.tasks;
  all_commit_once = all_once task_count t.tasks;
}

-- `summary["pass"]` of `verify`.
unfoldable pub verify : Tables → Bool
unfolding snapshot
verify t =
    let s = snapshot t in
    (s.done == task_count) && s.all_commit_once && (s.sum == expected_prime_count)
