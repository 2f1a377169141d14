-- ===== src/Master/Rounds.antt =====
-- HW1/master.py: a round of the loop of `run` as steps of the tasks' lives, and the states that the
-- Master reaches.
use data_communication.Prelude.{
  ℕ, ◌≡◌, refl, sym, subst, ◌∙◌, inl, inr, Bool, true, false, not, some, List, [], ◌∷◌, elem,
  is_some, ◌==◌, ==→eq, if◌then◌else◌, Bool-cases, arith,
}
use data_communication.Master.State.{Master, Book, new_book, is_accepted, on_worker}
use data_communication.Master.Clock.{add_time}
use data_communication.Master.Sends.{add_time-book}
use data_communication.Master.Life.{Event, Changes, answer_of, outcome_of}
use data_communication.Master.Assign
use data_communication.Master.Assign.{update_queue, all_ready, no_check, distribute, first_waiting}
use data_communication.Master.Process.{task_result, finish_if_ready, is_complete}
use data_communication.Master.Transfer.{no_twice, check_load}
use data_communication.Master.Receive.{
  Kind, plan_first, plan_checks, worker_ready, handle_kind, is_seen, see, handle_message,
  after_message, round,
}
use data_communication.Master.Refines.{
  LeadsTo, LeadsTo-bind, LeadsTo-guard, same_book, update_queue-LeadsTo, task_ack-LeadsTo,
  distribute-Changes,
}
use data_communication.Master.Outcomes.{
  processing_start-LeadsTo, task_result-LeadsTo, finish_if_ready-book,
}
use data_communication.Master.Costs.{transfer_time-LeadsTo, check_cost-LeadsTo, check_load-book}
use data_communication.Master.Moves.{transfer_result-LeadsTo}
use data_communication.Master.Balance.{count, IsBalanced, Changes-IsBalanced}

plan_first-book : (i : ℕ) (m : Master) → (plan_first i m).book ≡ m.book
plan_first-book i m = elim (Bool-cases (is_some (m.workers i).next_check)) [
  | inl e ↦ rw e refl
  | inr e ↦ rw e refl
]

plan_checks-book : (ids : List ℕ) (m : Master) → (plan_checks ids m).book ≡ m.book
unfolding plan_checks
plan_checks-book [] m = refl
plan_checks-book (i ∷ is) m = plan_checks-book is (plan_first i m) ∙ plan_first-book i m

worker_ready-book : (i : ℕ) (m : Master) → (worker_ready i m).book ≡ m.book
unfolding worker_ready
worker_ready-book i m =
    elim (Bool-cases (all_ready (on_worker i (λ w. record w { ready = true }) m))) [
      | inl e ↦
          rw e (plan_checks-book m.worker_ids (on_worker i (λ w. record w { ready = true }) m))
      | inr e ↦ rw e refl
    ]

-- What a message says of tasks.
abbrev pub event_of : Kind → Event
event_of Kind.ready = Event.nothing
event_of (Kind.queue_status size version request_id) = Event.nothing
event_of (Kind.task_ack key attempt request_id is_accepted size version) =
    answer_of is_accepted key attempt request_id
event_of (Kind.process_start key attempt duration size version) = Event.starts key attempt duration
event_of (Kind.result key attempt value status duration wait size version request_id) =
    outcome_of status key attempt value
event_of (Kind.p2p_transfer source target transfer_id items request_id ids) =
    Event.moves target items
event_of (Kind.p2p_time transfer_id source target phase ids) = Event.nothing
event_of (Kind.p2p_cost request_id transfer_id ids) = Event.nothing
event_of Kind.p2p_failure = Event.nothing
event_of Kind.other = Event.nothing

handle_kind-LeadsTo :
    (i message_id : ℕ) (kind : Kind) (m : Master)
    → LeadsTo i (event_of kind) m.book (handle_kind i message_id kind m)
handle_kind-LeadsTo i message_id Kind.ready m = same_book i Event.nothing (worker_ready-book i m)
handle_kind-LeadsTo i message_id (Kind.queue_status size version request_id) m =
    update_queue-LeadsTo i Event.nothing i size version request_id m
handle_kind-LeadsTo i message_id (Kind.task_ack key attempt request_id is_accepted size version) m =
    task_ack-LeadsTo i key attempt request_id message_id is_accepted size version m
handle_kind-LeadsTo i message_id (Kind.process_start key attempt duration size version) m =
    processing_start-LeadsTo i key attempt message_id duration size version m
handle_kind-LeadsTo i message_id
      (Kind.result key attempt value status duration wait size version request_id) m =
    LeadsTo-bind i (outcome_of status key attempt value) m.book
      (update_queue i size version request_id m)
      (task_result i key attempt value status duration wait)
      (update_queue-LeadsTo i (outcome_of status key attempt value) i size version request_id m)
      (task_result-LeadsTo i key attempt value status duration wait)
handle_kind-LeadsTo i message_id (Kind.p2p_transfer source target transfer_id items request_id ids)
      m =
    transfer_result-LeadsTo i source target transfer_id items request_id message_id ids m
handle_kind-LeadsTo i message_id (Kind.p2p_time transfer_id source target phase ids) m =
    transfer_time-LeadsTo i Event.nothing i transfer_id source target phase message_id ids m
handle_kind-LeadsTo i message_id (Kind.p2p_cost request_id transfer_id ids) m =
    check_cost-LeadsTo i Event.nothing i request_id transfer_id ids m
handle_kind-LeadsTo i message_id Kind.p2p_failure m = tt
handle_kind-LeadsTo i message_id Kind.other m = tt

pub handle_message-LeadsTo :
    (i message_id : ℕ) (is_addressed : Bool) (kind : Kind) (m : Master)
    → LeadsTo i (event_of kind) m.book (handle_message i message_id is_addressed kind m)
unfolding handle_message
handle_message-LeadsTo i message_id is_addressed kind m =
    LeadsTo-guard i (event_of kind) m.book (not is_addressed) _ (λ _. new_or_seen)
  where
    handled : LeadsTo i (event_of kind) m.book (handle_kind i message_id kind (add_time 1 m))
    handled =
        subst (λ b. LeadsTo i (event_of kind) b (handle_kind i message_id kind (add_time 1 m)))
          (add_time-book 1 m) (handle_kind-LeadsTo i message_id kind (add_time 1 m))

    new_or_seen : LeadsTo i (event_of kind) m.book (
        if is_seen i message_id m.seen_messages
        then some m
        else Assign.◌>>=◌
            (handle_kind i message_id kind (add_time 1 m))
            (λ m'. some (see i message_id m')))
    new_or_seen = elim (Bool-cases (is_seen i message_id m.seen_messages)) [
      | inl e ↦ rw e Changes.same
      | inr e ↦ rw e (
          LeadsTo-bind i (event_of kind) m.book (handle_kind i message_id kind (add_time 1 m))
            (λ m'. some (see i message_id m')) handled (λ m'. Changes.same))
    ]

module _ (i : ℕ) (what : Event) where
  either-Changes :
      (b : Book) (c : Bool) (m m' : Master)
      → Changes i what b m.book
      → Changes i what b m'.book
      → Changes i what b (if c then m else m').book
  either-Changes b true m m' h h' = h
  either-Changes b false m m' h h' = h'

  finished-Changes : (m : Master) → Changes i what m.book (finish_if_ready (distribute m)).book
  finished-Changes m =
      subst (Changes i what m.book) (sym (finish_if_ready-book (distribute m)))
        (distribute-Changes i what m)

  checked-Changes :
      (b : Book) (m : Master) → Changes i what b m.book → Changes i what b (check_load m).book
  checked-Changes b m h = subst (Changes i what b) (sym (check_load-book m)) h

  after_message-Changes : (m : Master) → Changes i what m.book (after_message m).book
  unfolding after_message
  after_message-Changes m =
      let m1 = finish_if_ready (distribute m) in
      either-Changes m.book m.stopping m (if is_complete m1.book then m1 else check_load m1)
        Changes.same
        (either-Changes m.book (is_complete m1.book) m1 (check_load m1) (finished-Changes m)
          (checked-Changes m.book m1 (finished-Changes m)))

-- Whatever message worker `i` sends, a round raises an exception or changes the book of the tasks only
-- by steps that this message allows: waiting tasks are given, and sent requests get their numbers;
-- and of the tasks that the message names, with its attempt, and that worker `i` owns, a sent one is
-- accepted or declined as a TASK_ACK with the number of its request says, an accepted one is processed
-- for the 1 to 3 seconds of a PROCESS_START, one that is given and not done succeeds or fails as a RESULT
-- with its value says, and an accepted one moves to the target of a P2P_TRANSFER.
pub round-LeadsTo :
    (i message_id : ℕ) (is_addressed : Bool) (kind : Kind) (m : Master)
    → LeadsTo i (event_of kind) m.book (round i message_id is_addressed kind m)
unfolding round
round-LeadsTo i message_id is_addressed kind m =
    LeadsTo-bind i (event_of kind) m.book (handle_message i message_id is_addressed kind m)
      (λ m'. some (after_message m')) (handle_message-LeadsTo i message_id is_addressed kind m)
      (after_message-Changes i (event_of kind))

-- The states that the loop of `run` reaches from a state in which all tasks are new.
pub data Run (keys : List ℕ) (values : ℕ → ℕ) : Master → Type 0 where
  begin : (m : Master) → m.book ≡ new_book keys values → Run keys values m
  step :
      {m m' : Master} (i message_id : ℕ) (is_addressed : Bool) (kind : Kind)
      → Run keys values m
      → round i message_id is_addressed kind m ≡ some m'
      → Run keys values m'

pub round-Changes :
    (m m' : Master) (i message_id : ℕ) (is_addressed : Bool) (kind : Kind)
    → round i message_id is_addressed kind m ≡ some m'
    → Changes i (event_of kind) m.book m'.book
round-Changes m m' i message_id is_addressed kind e =
    subst (LeadsTo i (event_of kind) m.book) e (round-LeadsTo i message_id is_addressed kind m)

-- Each key is once in the first queue.
count-keys :
    (k : ℕ) (keys : List ℕ) → no_twice keys ≡ true → count k keys ≡ (if elem k keys then 1 else 0)
unfolding count
count-keys k [] once = refl
count-keys k (x ∷ keys) once = elim (Bool-cases (x == k)) [
  | inl same ↦
      let away : elem k keys ≡ false =
        subst (λ j. elem j keys ≡ false) (==→eq x k same) (ground (arith, once)) in
      rw same (ground (arith, count-keys k keys (ground (arith, once)), away))
  | inr other ↦ rw other (count-keys k keys (ground (arith, once)))
]

new_book-IsBalanced :
    (keys : List ℕ) (values : ℕ → ℕ)
    → no_twice keys ≡ true
    → IsBalanced keys values (new_book keys values)
unfolding count
new_book-IsBalanced keys values once =
    (refl, λ k. (ground (arith, count-keys k keys once), refl, refl, refl))

-- In every state that the Master reaches from tasks with different keys: a task that waits stands in
-- one of the two queues exactly once and has no owner; any other task has an owner and stands in no queue;
-- each task has the value it began with, and exactly the tasks that are done have it among the results.
pub Run-IsBalanced :
    {keys : List ℕ} {values : ℕ → ℕ} {m : Master}
    → no_twice keys ≡ true
    → Run keys values m
    → IsBalanced keys values m.book
Run-IsBalanced {keys} {values} once (Run.begin m e) =
    subst (IsBalanced keys values) (sym e) (new_book-IsBalanced keys values once)
Run-IsBalanced {keys} {values} {m = m'} once
      (Run.step {m = m} i message_id is_addressed kind run e) =
    Changes-IsBalanced keys values (round-Changes m m' i message_id is_addressed kind e)
      (Run-IsBalanced once run)
