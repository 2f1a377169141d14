-- ===== src/TaskWorker/Promise.antt =====
-- HW1/worker.py: in no order of the threads does a worker run out of the places that it has promised.
use data_communication.Prelude.{
  ℕ, ◌+◌, ◌-◌, ◌*◌, ◌/◌, ◌≤◌, ◌≢◌, inl, inr, refl, subst, Bool, true, false, ◌||◌, not, Option,
  none, some, List, ◌∷◌, ◌++◌, length, elem, min, ltb, ◌==◌, if◌then◌else◌, Bool-cases, arith,
}
use data_communication.ReadyQueue.State.{
  WorkerTask, ReadyQueue, reserve_for_transfer, cancel_transfer,
}
use data_communication.ReadyQueue.Lengths.{
  Shrinks, reserve-Shrinks, confirm-Shrinks, cancel-Shrinks,
}
use data_communication.TaskWorker.State.{TaskWorker, no_room, create_message}
use data_communication.TaskWorker.Tasks
use data_communication.TaskWorker.Moves
use data_communication.TaskWorker.Room.{Waiting, promised, Step, Reach, IsRoomy}
use data_communication.TaskWorker.Keeps.{
  Gives, task-IsRoomy, confirmed-IsRoomy, start-IsRoomy, process_current-IsRoomy, promise-IsRoomy,
  fill-IsRoomy, shrunk-IsRoomy,
}

process_ack-IsRoomy :
    (request_id key attempt started_at finished_at waiting_time : ℕ) (succeeds : Bool)
    (w : TaskWorker) (ts : Waiting)
    → IsRoomy (w, ts)
    → Gives
        (λ w'. IsRoomy (w', ts))
        (Tasks.handle_process_ack request_id key attempt started_at finished_at waiting_time
          succeeds w)
unfolding Tasks.handle_process_ack
process_ack-IsRoomy request_id key attempt started_at finished_at waiting_time succeeds w ts v =
    process_current-IsRoomy request_id key attempt started_at finished_at waiting_time succeeds w ts
      w.current_task v

released-IsRoomy :
    (transfer_id : ℕ) (w : TaskWorker) (ts : Waiting) (r : ReadyQueue × ℕ)
    → Shrinks w.ready_queue r.0
    → IsRoomy (w, ts)
    → Gives (λ w'. IsRoomy (w', ts)) (Moves.released transfer_id w r)
released-IsRoomy transfer_id w ts (q, canceled) s v = elim (Bool-cases (canceled == 0)) [
  | inl e ↦ rw e tt
  | inr e ↦ rw e (
      shrunk-IsRoomy w
        (record (create_message w) { ready_queue = q; p2p_events = transfer_id ∷ w.p2p_events }) ts
        v s refl refl)
]

transfer_confirmed-IsRoomy :
    (transfer_id : ℕ) (w : TaskWorker) (ts : Waiting)
    → IsRoomy (w, ts)
    → Gives (λ w'. IsRoomy (w', ts)) (Moves.handle_transfer_confirmed transfer_id w)
unfolding Moves.handle_transfer_confirmed
transfer_confirmed-IsRoomy transfer_id w ts v =
    elim (Bool-cases (elem transfer_id w.outgoing_transfers)) [
      | inl e ↦ rw e v
      | inr e ↦ elim (Bool-cases (elem transfer_id w.p2p_events)) [
        | inl e' ↦ rw (e, e') v
        | inr e' ↦
            rw (e, e')
              (released-IsRoomy transfer_id w ts (cancel_transfer transfer_id w.ready_queue)
                (cancel-Shrinks transfer_id w.ready_queue) v)
      ]
    ]

reserve-IsRoomy :
    (transfer_id : ℕ) (target : Option (ℕ × ℕ)) (w : TaskWorker) (ts : Waiting)
    → IsRoomy (w, ts)
    → IsRoomy ((Moves.reserve_outgoing transfer_id target w).0, ts)
unfolding Moves.reserve_outgoing
reserve-IsRoomy transfer_id none w ts v = v
reserve-IsRoomy transfer_id (some (transfer_count, target_size)) w ts v =
    let before = length w.ready_queue.queue in
    let count = min transfer_count ((before - target_size) / 2) in
    elim (Bool-cases (not (ltb 15 (before * 2)) || count == 0)) [
      | inl e ↦ rw e v
      | inr e ↦ rw e (
          shrunk-IsRoomy w
            (record (create_message w) {
              ready_queue = (reserve_for_transfer transfer_id count w.ready_queue).0;
            })
            ts v (reserve-Shrinks transfer_id count w.ready_queue) refl refl)
    ]

settle-IsRoomy :
    (transfer_id : ℕ) (accepts : Bool) (w : TaskWorker) (ts : Waiting)
    → IsRoomy (w, ts)
    → IsRoomy (Moves.settle_outgoing transfer_id accepts w, ts)
unfolding Moves.settle_outgoing
settle-IsRoomy transfer_id true w ts v =
    shrunk-IsRoomy w (Moves.settle_outgoing transfer_id true w) ts v
      (confirm-Shrinks transfer_id w.ready_queue) refl refl
settle-IsRoomy transfer_id false w ts v =
    shrunk-IsRoomy w (Moves.settle_outgoing transfer_id false w) ts v
      (cancel-Shrinks transfer_id w.ready_queue) refl refl

Step-IsRoomy : {s t : TaskWorker × Waiting} → Step s t → IsRoomy s → IsRoomy t
Step-IsRoomy (Step.tick w ts now) v = v
Step-IsRoomy (Step.set_flags w ts running ready stopping closing p2p_failed) v = v
Step-IsRoomy (Step.message w ts) v = v
Step-IsRoomy (Step.task {w} ts key value attempt failed_retry e) v =
    subst (Gives (λ r. IsRoomy (r.0, ts))) e (task-IsRoomy key value attempt failed_retry w ts v)
Step-IsRoomy (Step.confirmed {w} ts request_id key attempt enqueued_at e) v =
    subst (Gives (λ w'. IsRoomy (w', ts))) e
      (confirmed-IsRoomy request_id key attempt enqueued_at w ts v).0
Step-IsRoomy (Step.start w ts draw) v = start-IsRoomy draw w ts v
Step-IsRoomy
      (Step.process_ack {w} ts request_id key attempt started_at finished_at waiting_time succeeds
        e)
      v =
    subst (Gives (λ w'. IsRoomy (w', ts))) e (
      process_ack-IsRoomy request_id key attempt started_at finished_at waiting_time succeeds w ts
        v)
Step-IsRoomy (Step.promise {w} ts incoming e) v =
    subst (Gives (λ r. IsRoomy (r.0, if r.1 then incoming ∷ ts else ts))) e
      (promise-IsRoomy incoming w ts v)
Step-IsRoomy (Step.fill {w} ts rest transfer_id started_at arrived_at incoming e) v =
    subst (Gives (λ w'. IsRoomy (w', ts ++ rest))) e
      (fill-IsRoomy transfer_id started_at arrived_at incoming w ts rest v).0
Step-IsRoomy (Step.transfer_confirmed {w} ts transfer_id e) v =
    subst (Gives (λ w'. IsRoomy (w', ts))) e (transfer_confirmed-IsRoomy transfer_id w ts v)
Step-IsRoomy (Step.reserve w ts transfer_id target) v = reserve-IsRoomy transfer_id target w ts v
Step-IsRoomy (Step.settle w ts transfer_id accepts) v = settle-IsRoomy transfer_id accepts w ts v

Reach-IsRoomy : {s : TaskWorker × Waiting} → Reach s → IsRoomy s
unfolding promised
Reach-IsRoomy Reach.here = (refl, omega arith)
Reach-IsRoomy (Reach.next r st) = Step-IsRoomy st (Reach-IsRoomy r)

-- In every state that the threads of a worker reach, in any order of their sections: the queue with the
-- tasks that wait to be confirmed and the promised places does not pass its size; neither the
-- confirmation of an accepted task nor the arrival of tasks for which places were promised fails for want of room.
pub room_as_promised :
    {w : TaskWorker} (ts rest : Waiting) (incoming : List WorkerTask)
    (request_id key attempt enqueued_at transfer_id started_at arrived_at : ℕ)
    → Reach (w, ts ++ incoming ∷ rest)
    → (length w.ready_queue.queue + (length w.pending_tasks + w.incoming_slots)
        ≤ w.ready_queue.max_size)
      × (Tasks.handle_task_confirmed request_id key attempt enqueued_at w ≢ inl no_room)
      × (Moves.fill_slots transfer_id started_at arrived_at incoming w ≢ inl no_room)
room_as_promised {w} ts rest incoming request_id key attempt enqueued_at transfer_id started_at
      arrived_at r =
    let v = Reach-IsRoomy r in
    (
      v.1,
      (confirmed-IsRoomy request_id key attempt enqueued_at w (ts ++ incoming ∷ rest) v).1,
      (fill-IsRoomy transfer_id started_at arrived_at incoming w ts rest v).1,
    )
