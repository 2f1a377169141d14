-- ===== src/ReadyQueue/Lengths.antt =====
-- HW1/worker.py: how the operations of the queue of a worker change its length.
use data_communication.Prelude.{
  ℕ, suc, ◌≤◌, ◌≡◌, inl, inr, refl, ap, true, not, Option, none, some, List, [], ◌∷◌, ◌++◌, length,
  length-append, keep_if, elem, leb, Bool-cases, arith,
}
use mathlib.Core.List.{reverse}
use data_communication.ReadyQueue.State
use data_communication.ReadyQueue.State.{WorkerTask, ReadyQueue, is_for, is_none, release, mark}
use data_communication.ReadyQueue.Order.{dequeue_lem, Dequeued}
use data_communication.ReadyQueue.Reserve.{length-reverse}
use data_communication.ReadyQueue.Steps.{length-removed, mark-length, length-keep_if, length-map}

-- The queue is no longer than before, and has the same size.
pub record Shrinks (q r : ReadyQueue) : Type 0 where
  pub same_max : r.max_size ≡ q.max_size
  pub shorter : length r.queue ≤ length q.queue

Shrinks-refl : (q : ReadyQueue) → Shrinks q q
Shrinks-refl q = record { same_max = refl; shorter = omega arith }

Dequeued-Shrinks :
    (q : ReadyQueue) (r : ReadyQueue × Option WorkerTask)
    → r.0.max_size ≡ q.max_size
    → Dequeued q r
    → Shrinks q r.0
Dequeued-Shrinks q (r, none) m (e, _) = rw e (Shrinks-refl q)
Dequeued-Shrinks q (r, some t) m
      (free, (before, after, (split, rest, none_before, passes)), retry, version) =
    record {
      same_max = m;
      shorter = omega (arith, length-removed before t after, ap length split, ap length rest);
    }

dequeue-same_max : (q : ReadyQueue) → (State.dequeue q).0.max_size ≡ q.max_size
unfolding State.dequeue
dequeue-same_max q = ground arith

pub dequeue-Shrinks : (q : ReadyQueue) → Shrinks q (State.dequeue q).0
dequeue-Shrinks q = Dequeued-Shrinks q (State.dequeue q) (dequeue-same_max q) (dequeue_lem q)

pub reserve-Shrinks :
    (id count : ℕ) (q : ReadyQueue) → Shrinks q (State.reserve_for_transfer id count q).0
unfolding State.reserve_for_transfer
reserve-Shrinks id count q = elim (Bool-cases (elem id q.completed_transfer_ids)) [
  | inl done ↦ rw done (Shrinks-refl q)
  | inr fresh ↦ elim (Bool-cases (is_none (reverse (keep_if (is_for id) q.queue)))) [
    | inr again ↦ rw (fresh, again) (Shrinks-refl q)
    | inl first ↦
        rw (fresh, first)
          (record {
            same_max = refl;
            shorter = omega (
              arith,
              length-reverse (mark id count (reverse q.queue)).0,
              mark-length id count (reverse q.queue),
              length-reverse q.queue,
            );
          })
  ]
]

pub confirm-Shrinks : (id : ℕ) (q : ReadyQueue) → Shrinks q (State.confirm_transfer id q).0
unfolding State.confirm_transfer
confirm-Shrinks id q = elim (Bool-cases (elem id q.completed_transfer_ids)) [
  | inl done ↦ rw done (Shrinks-refl q)
  | inr fresh ↦ elim (Bool-cases (is_none (keep_if (is_for id) q.queue))) [
    | inl nothing ↦
        rw (fresh, nothing)
          (record { same_max = refl; shorter = length-keep_if (λ t. not (is_for id t)) q.queue })
    | inr some_for ↦
        rw (fresh, some_for)
          (record { same_max = refl; shorter = length-keep_if (λ t. not (is_for id t)) q.queue })
  ]
]

pub cancel-Shrinks : (id : ℕ) (q : ReadyQueue) → Shrinks q (State.cancel_transfer id q).0
unfolding State.cancel_transfer
cancel-Shrinks id q = record {
  same_max = refl;
  shorter = omega (arith, length-map (release id) q.queue);
}

-- A queue that is not full takes a task.
pub enqueue_taken :
    (t : WorkerTask) (q : ReadyQueue)
    → suc (length q.queue) ≤ q.max_size
    → State.enqueue t q
      ≡ (record q { queue = q.queue ++ t ∷ []; queue_version = suc q.queue_version }, true)
unfolding State.enqueue
enqueue_taken t q room = elim (Bool-cases (leb q.max_size (length q.queue))) [
  | inl full ↦ absurd (ground (arith, full, room))
  | inr free ↦ rw free refl
]

pub length-enqueued :
    (t : WorkerTask) (ts : List WorkerTask) → length (ts ++ t ∷ []) ≡ suc (length ts)
length-enqueued t ts = omega (arith, length-append ts (t ∷ []))
