-- ===== src/Master/Process.antt =====
-- HW1/master.py: `processing_start`, `task_result` and `finish_if_ready`.
use data_communication.Prelude.{
  ℕ, ◌+◌, ◌-◌, Bool, true, false, ◌&&◌, ◌||◌, not, Option, none, some, List, [], ◌∷◌, ◌++◌, length,
  elem, is_some, is_num, all_of, leb, ◌==◌, if◌then◌else◌, update,
}
use data_communication.Master.State.{
  Master, Book, Task, TaskState, Message, is_waiting, is_accepted, is_done, on_worker, on_task,
  with_book,
}
use data_communication.Master.Clock.{add_time, send}
use data_communication.Master.Assign.{update_queue, no_check, ◌>>=◌}

abbrev pub start : ℕ → ℕ → Task → Task
start now duration t = record t {
  waiting_time = t.waiting_time + now - t.enqueued_at;
  started_at = now;
  processing_time = some duration;
  state = TaskState.processing;
}

abbrev pub finish_at : ℕ → Task → Task
finish_at now t = record t { finished_at = now }

-- `processing_start` once the queue is updated: up to the processing, up to `send`, and all of it.
abbrev pub running : ℕ → ℕ → ℕ → Master → Master
running i key duration m =
    on_worker i (λ w. record w { active = some key })
      (with_book (on_task key (start m.clock duration)) m)

abbrev pub processed : ℕ → Master → Master
processed key m = with_book (on_task key (finish_at m.clock)) m

abbrev pub process_message : ℕ → ℕ → Task → Message
process_message message_id key t =
    Message.process_ack message_id key t.attempt t.started_at t.finished_at t.waiting_time

unfoldable pub run_task : ℕ → ℕ → ℕ → ℕ → Master → Master
unfolding add_time send
run_task i key message_id duration m =
    let m3 = processed key (add_time duration (running i key duration m)) in
    (send i (process_message message_id key (m3.book.tasks key)) m3).0

unfoldable pub processing_start : ℕ → ℕ → ℕ → ℕ → ℕ → ℕ → ℕ → Master → Option Master
unfolding run_task
processing_start i key attempt message_id duration size version m =
    let t = m.book.tasks key in
    if not (elem key m.book.keys)
    then none
    else if not (is_num t.owner i)
        || not (t.attempt == attempt)
        || not (is_accepted t.state)
        || is_some (m.workers i).active
    then none
    else if not (leb 1 duration && leb duration 3)
    then none
    else do m' ← update_queue i size version none m; some (run_task i key message_id duration m')

-- The field `status` of a RESULT.
pub data ResultStatus : Type 0 where
  success fail other : ResultStatus

abbrev pub is_other : ResultStatus → Bool
is_other ResultStatus.other = true
is_other _ = false

abbrev pub finish_task : ℕ → Book → Book
finish_task key b = record (on_task key (λ t. record t { state = TaskState.done }) b) {
  completed = update b.completed key (some (b.tasks key).value);
}

abbrev pub fail_on : ℕ → Task → Task
fail_on i t = record t { state = TaskState.waiting; owner = none; failed_worker = some i }

abbrev pub retry_task : ℕ → ℕ → Book → Book
retry_task i key b = record (on_task key (fail_on i) b) { retry_tasks = b.retry_tasks ++ key ∷ [] }

abbrev pub settle : ResultStatus → ℕ → ℕ → ℕ → Master → Master
settle ResultStatus.success i key wait m = with_book (finish_task key) (
    on_worker i
      (λ w. record w { active = none; waiting = w.waiting + wait; success = w.success + 1 }) m)
settle _ i key wait m =
    with_book (retry_task i key) (
      on_worker i (λ w. record w { active = none; waiting = w.waiting + wait; fail = w.fail + 1 })
        m)

unfoldable pub task_result : ℕ → ℕ → ℕ → ℕ → ResultStatus → ℕ → ℕ → Master → Option Master
task_result i key attempt value status duration wait m =
    let t = m.book.tasks key in
    if not (elem key m.book.keys)
    then none
    else if not (t.attempt == attempt) || is_done t.state || is_waiting t.state
    then some m
    else if not (is_num t.owner i)
    then none
    else if not (value == t.value) || is_other status
    then none
    else if not (is_num t.processing_time duration) || not (wait == t.waiting_time)
    then none
    else some (settle status i key wait m)

-- `self.completed == self.original`
abbrev pub is_complete : Book → Bool
is_complete b = all_of (λ k. is_num (b.completed k) (b.tasks k).value) b.keys

-- The loop that sends STOP to each worker.
unfoldable pub send_stops : ℕ → List ℕ → Master → Master
unfolding send
send_stops completed_at [] m = m
send_stops completed_at (i ∷ is) m =
    let sent = send i (Message.stop completed_at (m.clock + 1)) m in
    send_stops completed_at is (
      on_worker i (λ w. record w { stop_request = some sent.1; stats_at = some sent.0.clock })
        sent.0)

abbrev pub first_time : ℕ → Option ℕ → ℕ
first_time now none = now
first_time now (some at) = at

unfoldable pub finish_if_ready : Master → Master
unfolding send_stops
finish_if_ready m =
    if m.stopping || not (is_complete m.book)
    then m
    else let at = first_time m.clock m.completed_at in
      let m1 = record m { completed_at = some at } in
      if not (length m.transfer_times == 0) || not (no_check m)
      then m1
      else send_stops at m.worker_ids (record m1 { stopping = true })
