-- ===== src/Coordinator/Commits.antt =====
-- HW3/hw3/coordinator/tables.py: when a result is taken, and what a run does with it.
use data_communication.Prelude.{
  ℕ, suc, ◌≤◌, ◌<◌, ◌≡◌, ◌≢◌, ◌↔◌, refl, sym, ◌∙◌, true, false, ◌&&◌, some, is_some, ◌==◌, total,
  total_full, arith, update, Bool-cases, inl, inr, if◌then◌else◌,
}
use data_communication.Coordinator.State.{Tables, Task, ack, task_count, expected_prime_count}
use data_communication.Coordinator.Assign.{
  is_done, Sender, stale_reason, commit_task, commit_result,
}
use data_communication.Coordinator.Summary.{done_weight, value_weight, all_once, verify}
use data_communication.Coordinator.Steps.{Run, Reach}
use data_communication.Coordinator.Invariant.{IsValid}
use data_communication.Coordinator.Keeps.{IsValid-init, Run-IsValid}
use data_communication.Coordinator.History.{Run-Advances}

-- The conditions under which `result` commits.
pub record IsCurrent (s : Sender) (i epoch : ℕ) (task : Task) : Type 0 where
  pub sent_alive : s.is_gone ≡ false
  pub open_still : is_done task.state ≡ false
  pub same_epoch : epoch ≡ task.epoch
  pub same_owner : task.owner ≡ some i

-- Exactly then `result` acknowledges a result: its sender was not dead when it was read, the task is
-- not done, and the task's epoch and owner are those of the result.
pub commit_result-ack :
    (now : ℕ) (s : Sender) (i k epoch value : ℕ) (t : Tables)
    → ((commit_result now s i k epoch value t).reply ≡ some (ack k))
      ↔ IsCurrent s i epoch (t.tasks k)
unfolding commit_result
commit_result-ack now s i k epoch value t = (λ h. ground arith, λ h. ground arith)

pub commit_result-tasks :
    (now : ℕ) (s : Sender) (i k epoch value : ℕ) (t : Tables)
    → (commit_result now s i k epoch value t).tables.tasks ≡ (
        if is_some (stale_reason s.is_gone i epoch (t.tasks k))
        then t.tasks
        else update t.tasks k (commit_task now value (t.tasks k)))
unfolding commit_result
commit_result-tasks now s i k epoch value t = ground arith

all_once_lem :
    (n : ℕ) (ts : ℕ → Task) → ((k : ℕ) → k < n → (ts k).commit_count ≡ 1) → all_once n ts ≡ true
unfolding all_once
all_once_lem ℕ.zero ts h = refl
all_once_lem (suc n) ts h = ground (arith, h n, all_once_lem n ts (λ k lt. h k (omega arith)))

done_weight-le : (task : Task) → done_weight task ≤ 1
done_weight-le task = ground arith

module _ (t : Tables) (v : IsValid t) where
  open v use {sound, counted}

  all_done : t.done_count ≡ task_count → (k : ℕ) → k < task_count → done_weight (t.tasks k) ≡ 1
  all_done full =
      total_full done_weight task_count t.tasks (λ i lt. done_weight-le (t.tasks i))
        (sym counted ∙ full)

  verify_of_valid : verify t ≡ (
      (t.done_count == task_count)
      && (total value_weight task_count t.tasks == expected_prime_count))
  unfolding verify
  verify_of_valid = elim (Bool-cases (t.done_count == task_count)) [
    | inl full ↦ ground (
      arith,
      counted,
      all_once_lem task_count t.tasks
          (λ k lt. omega (arith, (sound k lt).once, all_done (ground arith) k lt)),
    )
    | inr part ↦ ground (arith, counted)
  ]

-- Of a run of the Coordinator from its start: `verify` passes exactly if all tasks are counted as
-- done and the results add up to the expected count of primes.
pub Reach-verify :
    (t : Tables)
    → Reach t
    → verify t ≡ (
        (t.done_count == task_count)
        && (total value_weight task_count t.tasks == expected_prime_count))
Reach-verify t r = verify_of_valid t (Run-IsValid IsValid-init r)

-- In a run from the start, a task that is done has been committed once, and it stays exactly as it
-- is, with its result, through every further step.
pub commit_once :
    (t u : Tables) (k : ℕ)
    → Reach t
    → Run t u
    → k < task_count
    → is_done (t.tasks k).state ≡ true
    → ((t.tasks k).commit_count ≡ 1) × (u.tasks k ≡ t.tasks k)
commit_once t u k r r' lt d =
    let v = Run-IsValid IsValid-init r in
    (ground (arith, (v.sound k lt).once), (Run-Advances v r' k lt).frozen d)

-- Whatever the sections of `result` read of its sender, and however late, a result with an epoch
-- that the task has left is not taken and changes no task and no count.
pub late_result_refused :
    (t u : Tables) (k : ℕ) (now : ℕ) (s : Sender) (i epoch value : ℕ)
    → Reach t
    → Run t u
    → k < task_count
    → epoch < (t.tasks k).epoch
    → let o = commit_result now s i k epoch value u in
      (o.reply ≢ some (ack k)) × (o.tables.tasks ≡ u.tasks) × (o.tables.done_count ≡ u.done_count)
unfolding commit_result
late_result_refused t u k now s i epoch value r r' lt old =
    let up : (t.tasks k).epoch ≤ (u.tasks k).epoch =
      (Run-Advances (Run-IsValid IsValid-init r) r' k lt).rising in
    (λ e. ground arith, ground arith, ground arith)
