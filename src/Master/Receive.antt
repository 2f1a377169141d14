-- ===== src/Master/Receive.antt =====
-- HW1/master.py: `handle_message`, and one round of the loop of `run`. The names of the sender and the
-- receiver stand as the test that the code makes of them.
use data_communication.Prelude.{
  ℕ, suc, ◌+◌, Bool, true, false, ◌&&◌, ◌||◌, not, Option, none, some, List, [], ◌∷◌, is_some, ◌==◌,
  if◌then◌else◌,
}
use data_communication.Master.State.{Master, on_worker}
use data_communication.Master.Clock.{add_time, randint}
use data_communication.Master.Assign
use data_communication.Master.Assign.{update_queue, all_ready, distribute, ◌>>=◌}
use data_communication.Master.Process.{
  processing_start, task_result, ResultStatus, finish_if_ready, is_complete,
}
use data_communication.Master.Transfer.{
  check_load, transfer_time, transfer_result, check_cost, Phase,
}

pub data Kind : Type 0 where
  ready : Kind
  queue_status : (size version : ℕ) (request_id : Option ℕ) → Kind
  task_ack : (key attempt request_id : ℕ) (is_accepted : Bool) (size version : ℕ) → Kind
  process_start : (key attempt duration size version : ℕ) → Kind
  result :
      (key attempt value : ℕ) (status : ResultStatus) (duration wait size version : ℕ)
      (request_id : Option ℕ)
      → Kind
  p2p_transfer :
      (source target transfer_id : ℕ) (items : List (ℕ × ℕ)) (request_id : ℕ) (ids : List ℕ) → Kind
  p2p_time : (transfer_id source target : ℕ) (phase : Phase) (ids : List ℕ) → Kind
  p2p_cost : (request_id : ℕ) (transfer_id : Option ℕ) (ids : List ℕ) → Kind
  p2p_failure : Kind
  other : Kind

-- The first check of a worker that has none planned.
abbrev pub plan_first : ℕ → Master → Master
plan_first i m =
    if is_some (m.workers i).next_check
    then m
    else record (on_worker i (λ w. record w { next_check = some (m.clock + randint m) }) m) {
      drawn = suc m.drawn;
    }

unfoldable pub plan_checks : List ℕ → Master → Master
plan_checks [] m = m
plan_checks (i ∷ is) m = plan_checks is (plan_first i m)

unfoldable pub worker_ready : ℕ → Master → Master
unfolding plan_checks
worker_ready i m =
    let m1 = on_worker i (λ w. record w { ready = true }) m in
    if all_ready m1 then plan_checks m1.worker_ids m1 else m1

abbrev pub handle_kind : ℕ → ℕ → Kind → Master → Option Master
handle_kind i message_id Kind.ready m = some (worker_ready i m)
handle_kind i message_id (Kind.queue_status size version request_id) m =
    update_queue i size version request_id m
handle_kind i message_id (Kind.task_ack key attempt request_id is_accepted size version) m =
    Assign.task_ack i key attempt request_id message_id is_accepted size version m
handle_kind i message_id (Kind.process_start key attempt duration size version) m =
    processing_start i key attempt message_id duration size version m
handle_kind i message_id
      (Kind.result key attempt value status duration wait size version request_id) m =
    update_queue i size version request_id m
    >>= task_result i key attempt value status duration wait
handle_kind i message_id (Kind.p2p_transfer source target transfer_id items request_id ids) m =
    transfer_result i source target transfer_id items request_id message_id ids m
handle_kind i message_id (Kind.p2p_time transfer_id source target phase ids) m =
    transfer_time i transfer_id source target phase message_id ids m
handle_kind i message_id (Kind.p2p_cost request_id transfer_id ids) m =
    check_cost i request_id transfer_id ids m
handle_kind i message_id Kind.p2p_failure m = none
handle_kind i message_id Kind.other m = none

abbrev pub is_seen : ℕ → ℕ → List (ℕ × ℕ) → Bool
is_seen i message_id [] = false
is_seen i message_id (seen ∷ rest) =
    seen.0 == i && seen.1 == message_id || is_seen i message_id rest

abbrev pub see : ℕ → ℕ → Master → Master
see i message_id m = record m { seen_messages = (i, message_id) ∷ m.seen_messages }

unfoldable pub handle_message : ℕ → ℕ → Bool → Kind → Master → Option Master
unfolding add_time
handle_message i message_id is_addressed kind m =
    if not is_addressed
    then none
    else if is_seen i message_id m.seen_messages
    then some m
    else handle_kind i message_id kind (add_time 1 m) >>= (λ m'. some (see i message_id m'))

-- What `run` does after a message.
unfoldable pub after_message : Master → Master
unfolding distribute finish_if_ready check_load
after_message m =
    let m1 = finish_if_ready (distribute m) in
    if m.stopping then m else if is_complete m1.book then m1 else check_load m1

unfoldable pub round : ℕ → ℕ → Bool → Kind → Master → Option Master
unfolding handle_message after_message
round i message_id is_addressed kind m =
    handle_message i message_id is_addressed kind m >>= (λ m'. some (after_message m'))
