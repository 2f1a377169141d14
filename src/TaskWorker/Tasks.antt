-- ===== src/TaskWorker/Tasks.antt =====
-- HW1/worker.py: `_handle_task`, `_handle_task_confirmed`, `start_next_task` and `_handle_process_ack`.
use data_communication.Prelude.{
  ℕ, suc, ◌+◌, ◌-◌, ◌%◌, Bool, true, false, ◌&&◌, ◌||◌, not, Option, none, some, List, [], ◌∷◌, ◌⊎◌,
  inl, inr, lookup, insert, length, keep_if, is_some, is_num, ltb, leb, ◌==◌, if◌then◌else◌,
}
use data_communication.ReadyQueue.State.{
  WorkerTask, ReadyQueue, has_capacity, queue_state, enqueue, dequeue,
}
use data_communication.TaskWorker.State.{
  TaskWorker, Pending, Fault, bad_field, mismatch, late, no_room, wrong_time, early_start,
  other_wait, other_value, create_message,
}

-- The room for `count` more tasks, besides those that were promised a place.
abbrev pub has_room : ℕ → TaskWorker → Bool
has_room count w = has_capacity (length w.pending_tasks + w.incoming_slots + count) w.ready_queue

-- `_handle_task`: whether the task is accepted, and the state of the queue.
unfoldable pub handle_task : ℕ → ℕ → ℕ → Bool → TaskWorker → Fault ⊎ (TaskWorker × Bool × (ℕ × ℕ))
handle_task key value attempt failed_retry w =
    let accepted = has_room 1 w in
    let pending : Pending = record {
      key = key;
      value = value;
      attempt = attempt;
      failed_retry = failed_retry;
    } in
    let w' = create_message w in
    if not (leb 1 attempt) || not (leb 1 value && leb value 100)
    then inl bad_field
    else inr (
      record w' {
        pending_tasks =
            if accepted then insert w'.message_number pending w.pending_tasks else w.pending_tasks;
      },
      accepted,
      queue_state w.ready_queue,
    )

abbrev pub has_identity : ℕ → ℕ → List (ℕ × ℕ) → Bool
has_identity key attempt [] = false
has_identity key attempt (id ∷ ids) = id.0 == key && id.1 == attempt || has_identity key attempt ids

abbrev pub add_reassignment : WorkerTask → List (ℕ × ℕ) → List (ℕ × ℕ)
add_reassignment t ids =
    if t.failed_retry && not (has_identity t.key t.attempt ids)
    then (t.key, t.attempt) ∷ ids
    else ids

abbrev pub to_task : Pending → ℕ → WorkerTask
to_task p enqueued_at = record {
  key = p.key;
  value = p.value;
  attempt = p.attempt;
  enqueued_at = enqueued_at;
  reserved_transfer_id = none;
  failed_retry = p.failed_retry;
  accumulated_waiting_time = 0;
}

-- After `enqueue` of the task that was confirmed.
abbrev pub entered : ℕ → WorkerTask → TaskWorker → ReadyQueue × Bool → Fault ⊎ TaskWorker
entered request_id t w (q, false) = inl no_room
entered request_id t w (q, true) = inr (record (create_message w) {
  ready_queue = q;
  pending_tasks = keep_if (λ entry. not (entry.0 == request_id)) w.pending_tasks;
  reassignments = add_reassignment t w.reassignments;
})

abbrev pub confirm_pending : ℕ → ℕ → ℕ → ℕ → TaskWorker → Option Pending → Fault ⊎ TaskWorker
confirm_pending request_id key attempt enqueued_at w none = inl mismatch
confirm_pending request_id key attempt enqueued_at w (some p) =
    if not (leb 1 attempt)
    then inl bad_field
    else if not (key == p.key) || not (attempt == p.attempt)
    then inl mismatch
    else if ltb w.clock enqueued_at
    then inl late
    else entered request_id (to_task p enqueued_at) w
        (enqueue (to_task p enqueued_at) w.ready_queue)

unfoldable pub handle_task_confirmed : ℕ → ℕ → ℕ → ℕ → TaskWorker → Fault ⊎ TaskWorker
handle_task_confirmed request_id key attempt enqueued_at w =
    confirm_pending request_id key attempt enqueued_at w (lookup request_id w.pending_tasks)

-- After `dequeue`; `draw` is what the random generator gives.
abbrev pub started : ℕ → TaskWorker → ReadyQueue × Option WorkerTask → TaskWorker
started draw w (q, none) = record w { ready_queue = q }
started draw w (q, some t) = record (create_message w) {
  ready_queue = q;
  current_task = some t;
  processing_time = some (1 + draw % 3);
  process_request_id = some (suc w.message_number);
}

unfoldable pub start_next_task : ℕ → TaskWorker → TaskWorker
start_next_task draw w =
    if w.stopping || w.p2p_failed || not w.running || not w.ready || is_some w.current_task
    then w
    else started draw w (dequeue w.ready_queue)

-- `finished_at - started_at` is the processing time.
abbrev pub takes : Option ℕ → ℕ → ℕ → Bool
takes none started_at finished_at = false
takes (some duration) started_at finished_at = finished_at == started_at + duration

abbrev pub is_other_value : Option ℕ → ℕ → Bool
is_other_value none value = false
is_other_value (some old) value = not (old == value)

-- The result of a task, with what `_handle_master_message` resets after it was sent.
abbrev pub finish_task : Bool → ℕ → WorkerTask → TaskWorker → TaskWorker
finish_task succeeds wait t w = record (create_message w) {
  total_waiting_time = w.total_waiting_time + wait;
  processing_count = w.processing_count + 1;
  storage = if succeeds then insert t.key t.value w.storage else w.storage;
  failure_count = if succeeds then w.failure_count else w.failure_count + 1;
  current_task = none;
  process_request_id = none;
  processing_time = none;
}

abbrev pub process_current :
    ℕ → ℕ → ℕ → ℕ → ℕ → ℕ → Bool → TaskWorker → Option WorkerTask → Fault ⊎ TaskWorker
process_current request_id key attempt started_at finished_at waiting_time succeeds w none =
    inl mismatch
process_current request_id key attempt started_at finished_at waiting_time succeeds w (some t) =
    let wait = t.accumulated_waiting_time + started_at - t.enqueued_at in
    if not (is_num w.process_request_id request_id)
      || not (key == t.key)
      || not (attempt == t.attempt)
    then inl mismatch
    else if ltb w.clock finished_at || not (takes w.processing_time started_at finished_at)
    then inl wrong_time
    else if ltb started_at t.enqueued_at
    then inl early_start
    else if not (wait == waiting_time)
    then inl other_wait
    else if succeeds && is_other_value (lookup t.key w.storage) t.value
    then inl other_value
    else inr (finish_task succeeds wait t w)

-- `_handle_process_ack`; whether the task succeeds is what the random generator gives.
unfoldable pub handle_process_ack : ℕ → ℕ → ℕ → ℕ → ℕ → ℕ → Bool → TaskWorker → Fault ⊎ TaskWorker
handle_process_ack request_id key attempt started_at finished_at waiting_time succeeds w =
    process_current request_id key attempt started_at finished_at waiting_time succeeds w
      w.current_task
