-- ===== src/ReadyQueue/Examples.antt =====
-- A queue of three tasks, and the theorems applied to it.
use mathlib.Core.List.{Perm, reverse}
use data_communication.Prelude.{
  ℕ, ◌<◌, min, ◌≡◌, refl, Bool, true, false, none, some, [], ◌∷◌, ◌++◌, map, length, keep_if, All,
}
use data_communication.ReadyQueue.State
use data_communication.ReadyQueue.State.{WorkerTask, ReadyQueue, init, is_for, release}
use data_communication.ReadyQueue.Order.{Dequeued, dequeue_lem}
use data_communication.ReadyQueue.Reserve.{is_free, cancel-reserve, confirm-reserve}
use data_communication.ReadyQueue.Steps.{Step, Run, Follows, Run-Follows}

abbrev task : ℕ → Bool → WorkerTask
task key retry = record {
  key = key;
  value = 7;
  attempt = 1;
  enqueued_at = 2;
  reserved_transfer_id = none;
  failed_retry = retry;
  accumulated_waiting_time = 0;
}

abbrev three : ReadyQueue
three = record {
  queue = task 1 false ∷ task 2 true ∷ task 3 false ∷ [];
  max_size = 10;
  completed_transfer_ids = 8 ∷ [];
  queue_version = 3;
}

-- The retry comes first.
retry_first : (State.dequeue three).1 ≡ some (task 2 true)
unfolding State.dequeue State.take_first
retry_first = refl

dequeue_lem_example : Dequeued three (State.dequeue three)
dequeue_lem_example = dequeue_lem three

unused : All (λ t. is_for 9 t ≡ false) three.queue
unused = (refl, (refl, (refl, tt)))

-- The last two tasks are reserved, the last one first.
reserved_last : map (λ t. t.key) (State.reserve_for_transfer 9 2 three).1 ≡ 3 ∷ 2 ∷ []
unfolding State.reserve_for_transfer State.mark
reserved_last = refl

cancel-reserve_example :
    ((State.cancel_transfer 9 (State.reserve_for_transfer 9 2 three).0).0.queue ≡ three.queue)
    × ((State.cancel_transfer 9 (State.reserve_for_transfer 9 2 three).0).1
        ≡ length (State.reserve_for_transfer 9 2 three).1)
cancel-reserve_example = cancel-reserve 9 2 three unused refl

confirm-reserve_example :
    let reserved = State.reserve_for_transfer 9 2 three in
    let confirmed = State.confirm_transfer 9 reserved.0 in
    (confirmed.1 ≡ reverse reserved.1)
    × Perm (confirmed.0.queue ++ map (release 9) confirmed.1) three.queue
    × (0 < 2 → length reserved.1 ≡ min 2 (length (keep_if is_free three.queue)))
confirm-reserve_example = confirm-reserve 9 2 three unused refl

Run-Follows_example : Follows (init 10) (State.dequeue (State.enqueue (task 4 true) (init 10)).0).0
Run-Follows_example =
    Run-Follows (Run.next (Run.next Run.here (Step.enqueue (task 4 true))) Step.dequeue)
