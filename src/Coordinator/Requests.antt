-- ===== src/Coordinator/Requests.antt =====
-- HW3/hw3/coordinator/tables.py: `request` and `rejoin` by their outcome.
use data_communication.Prelude.{
  ℕ, ◌-◌, ◌<◌, ◌≡◌, ◌≢◌, ◌↔◌, ◌⊎◌, refl, sym, ◌∙◌, true, false, ◌||◌, not, some, List, [], ◌∷◌,
  arith, inl, inr,
}
use data_communication.Coordinator.State.{Tables, Reply, Outcome, task_count, assigned}
use data_communication.Coordinator.Register.{is_running}
use data_communication.Coordinator.Assign.{is_dead, request, hand_out, rejoin}
use data_communication.Coordinator.Detect.{is_held_by}
use data_communication.Coordinator.Summary.{is_pending}
use data_communication.Coordinator.Steps.{Reach}
use data_communication.Coordinator.Invariant.{IsValid}
use data_communication.Coordinator.Keeps.{IsValid-init, Run-IsValid}
use data_communication.Coordinator.History.{head-pending}
use data_communication.Coordinator.Scan.{nil-range_from}

-- The worker `i` was given task `k`, which had never been given out.
pub record Gave (t : Tables) (i k : ℕ) (o : Outcome) : Type 0 where
  pub in_range : k < task_count
  pub fresh : is_pending (t.tasks k).state ≡ true
  pub told : o.reply ≡ some (Reply.assign k 1)
  pub given : o.tables.tasks k ≡ record (t.tasks k) { state = assigned; owner = some i; epoch = 1 }
  pub others : (j : ℕ) → j ≢ k → o.tables.tasks j ≡ t.tasks j

-- Nothing was left to give.
pub record Exhausted (t : Tables) (o : Outcome) : Type 0 where
  pub all_given : (k : ℕ) → k < task_count → is_pending (t.tasks k).state ≡ false
  pub told : o.reply ≡ some Reply.no_task
  pub same : o.tables.tasks ≡ t.tasks

hand_out_lem :
    (now i : ℕ) (q : List ℕ) (t : Tables)
    → t.queue ≡ q
    → IsValid t
    → Exhausted t (hand_out now i q t) ⊎ ((k : ℕ) × Gave t i k (hand_out now i q t))
unfolding hand_out
hand_out_lem now i [] t e v = inl (record {
  all_given = λ k lt.
      ground
        (arith, nil-range_from v.next (task_count - v.next) (sym e ∙ v.queued), v.waiting k lt);
  told = refl;
  same = refl;
})
hand_out_lem now i (k ∷ rest) t e v = inr (
  k,
  record {
    in_range = (head-pending k rest t e v).0;
    fresh = (head-pending k rest t e v).1;
    told = refl;
    given = ground arith;
    others = λ j ne. ground arith;
  },
)

-- In a run from the start, the request of a worker that is not dead while the phase is RUNNING
-- either gives it, with epoch 1, a task that was never given out, and changes no other task, or
-- answers NO_TASK, changes no task, and every task has been given out.
pub request_lem :
    (t : Tables) (now i : ℕ)
    → Reach t
    → is_running t.phase ≡ true
    → is_dead (t.workers i).health ≡ false
    → Exhausted t (request now i t) ⊎ ((k : ℕ) × Gave t i k (request now i t))
unfolding request
request_lem t now i r run live =
    rw (refused-false) (hand_out_lem now i t.queue t refl (Run-IsValid IsValid-init r))
  where
    refused-false : (not (is_running t.phase) || is_dead (t.workers i).health) ≡ false
    refused-false = ground arith

-- In a run from the start, a REJOIN is welcomed exactly if the phase is RUNNING and the worker was
-- declared dead; it is then alive again and owns no assigned task, and no task has changed.
rejoin_lem :
    (t : Tables) (now i : ℕ)
    → Reach t
    → let o = rejoin now i t in
      ((o.reply ≡ some Reply.welcome)
        ↔ ((is_running t.phase ≡ true) × (is_dead (t.workers i).health ≡ true)))
      × (o.tables.tasks ≡ t.tasks)
      × (o.reply ≡ some Reply.welcome
          → (is_dead (o.tables.workers i).health ≡ false)
            × ((k : ℕ) → k < task_count → is_held_by i (o.tables.tasks k) ≡ false))
unfolding rejoin
rejoin_lem t now i r =
    let v = Run-IsValid IsValid-init r in
    (
      (λ h. ground arith, λ h. ground arith),
      ground arith,
      λ h. (ground arith, λ k lt. ground (arith, v.live k i lt)),
    )
