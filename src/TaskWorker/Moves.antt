-- ===== src/TaskWorker/Moves.antt =====
-- HW1/worker.py: the sections under the locks of `_receive_transfer`, `_handle_transfer_confirmed` and
-- `_run_p2p_check`, between which the other threads go on.
use data_communication.Prelude.{
  ℕ, ◌+◌, ◌-◌, ◌*◌, ◌/◌, min, Bool, true, false, ◌||◌, not, Option, none, some, List, [], ◌∷◌, ◌⊎◌,
  inl, inr, length, keep_if, elem, map, ltb, ◌==◌, if◌then◌else◌,
}
use data_communication.ReadyQueue.State.{
  WorkerTask, ReadyQueue, enqueue, reserve_for_transfer, confirm_transfer, cancel_transfer,
}
use data_communication.TaskWorker.State.{
  TaskWorker, Fault, no_room, wrong_time, no_reservation, closed, create_message,
}
use data_communication.TaskWorker.Tasks.{has_room}

-- The first section of `_receive_transfer`: places for all the tasks, or a refusal.
unfoldable pub promise_slots : List WorkerTask → TaskWorker → Fault ⊎ (TaskWorker × Bool)
promise_slots incoming w =
    if w.closing
    then inl closed
    else if not (has_room (length incoming) w)
    then inr (w, false)
    else inr (record w { incoming_slots = w.incoming_slots + length incoming }, true)

abbrev pub arrived : ℕ → ℕ → WorkerTask → WorkerTask
arrived transfer_id arrived_at t = record t {
  enqueued_at = arrived_at;
  reserved_transfer_id = some transfer_id;
}

-- The loop that puts the tasks into the queue; `none` is the RuntimeError.
unfoldable pub enqueue_all : List WorkerTask → ReadyQueue → Option ReadyQueue
unfolding enqueue
enqueue_all [] q = some q
enqueue_all (t ∷ ts) q =
    let rest = enqueue_all ts (enqueue t q).0 in if (enqueue t q).1 then rest else none

abbrev pub filled : List WorkerTask → TaskWorker → Option ReadyQueue → Fault ⊎ TaskWorker
filled incoming w none = inl no_room
filled incoming w (some q) = inr (record w {
  ready_queue = q;
  incoming_slots = w.incoming_slots - length incoming;
  message_number = w.message_number + length incoming;
})

-- The second section, once TIME_ACK has told the time of the arrival.
unfoldable pub fill_slots : ℕ → ℕ → ℕ → List WorkerTask → TaskWorker → Fault ⊎ TaskWorker
unfolding enqueue_all
fill_slots transfer_id started_at arrived_at incoming w =
    if ltb arrived_at started_at
    then inl wrong_time
    else if w.closing
    then inl closed
    else filled incoming w
        (enqueue_all (map (arrived transfer_id arrived_at) incoming) w.ready_queue)

abbrev pub released : ℕ → TaskWorker → ReadyQueue × ℕ → Fault ⊎ TaskWorker
released transfer_id w (q, canceled) =
    if canceled == 0
    then inl no_reservation
    else inr
        (record (create_message w) { ready_queue = q; p2p_events = transfer_id ∷ w.p2p_events })

-- `_handle_transfer_confirmed`
unfoldable pub handle_transfer_confirmed : ℕ → TaskWorker → Fault ⊎ TaskWorker
handle_transfer_confirmed transfer_id w =
    if elem transfer_id w.outgoing_transfers
    then inr (record w {
      outgoing_transfers = keep_if (λ id. not (id == transfer_id)) w.outgoing_transfers;
    })
    else if elem transfer_id w.p2p_events
    then inr w
    else released transfer_id w (cancel_transfer transfer_id w.ready_queue)

-- The tasks of `_run_p2p_check` that are reserved for the target, of which the count and the size of the
-- queue are known; none if there is no target. A message tells of the queue, or that nothing moves.
unfoldable pub reserve_outgoing : ℕ → Option (ℕ × ℕ) → TaskWorker → TaskWorker × List WorkerTask
reserve_outgoing transfer_id none w = (create_message w, [])
reserve_outgoing transfer_id (some (transfer_count, target_size)) w =
    let before = length w.ready_queue.queue in
    let count = min transfer_count ((before - target_size) / 2) in
    let p = reserve_for_transfer transfer_id count w.ready_queue in
    if not (ltb 15 (before * 2)) || count == 0
    then (create_message w, [])
    else (record (create_message w) { ready_queue = p.0 }, p.1)

-- The end of `_run_p2p_check`, when the target has accepted or rejected the tasks.
unfoldable pub settle_outgoing : ℕ → Bool → TaskWorker → TaskWorker
settle_outgoing transfer_id true w = record w {
  ready_queue = (confirm_transfer transfer_id w.ready_queue).0;
  p2p_events = transfer_id ∷ w.p2p_events;
  outgoing_transfers = transfer_id ∷ w.outgoing_transfers;
  message_number = w.message_number + 2;
}
settle_outgoing transfer_id false w = record w {
  ready_queue = (cancel_transfer transfer_id w.ready_queue).0;
  message_number = w.message_number + 2;
}
