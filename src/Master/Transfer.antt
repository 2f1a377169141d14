-- ===== src/Master/Transfer.antt =====
-- HW1/master.py: the checks of the workers' loads and the transfers of tasks between workers:
-- `check_load`, `transfer_time`, `peer_cost`, `transfer_result`, and P2P_COST in `handle_message`.
use data_communication.Prelude.{
  ℕ, ◌+◌, ◌-◌, Bool, true, false, ◌&&◌, ◌||◌, not, Option, none, some, List, [], ◌∷◌, ◌++◌, length,
  keep_if, elem, map, lookup, insert, Dict, is_some, is_num, all_of, ltb, ◌==◌, if◌then◌else◌,
}
use data_communication.Master.State.{
  Master, Book, Task, Worker, Check, Message, TransferTime, Signature, is_accepted, on_worker,
  on_task, with_book,
}
use data_communication.Master.Clock.{add_time, send, is_overloaded}
use data_communication.Master.Assign.{all_ready, no_check, ◌>>=◌}

-- The request of one check.
abbrev pub sending_check : ℕ → Master → Master
sending_check i m = on_worker i (λ w. record w { check_request = some Check.sending }) m

unfoldable pub send_check : ℕ → Master → Master
unfolding send
send_check i m =
    let sent = send i (Message.p2p_check (m.workers i).check_at) (sending_check i m) in
    on_worker i (λ w. record w { check_request = some (Check.request sent.1) }) sent.0

-- The check of one worker in the loop of `check_load`.
unfoldable pub check_worker : ℕ → Master → Master
unfolding send_check
check_worker i m =
    let w = m.workers i in
    let m1 = on_worker i (λ w. record w { check_due = false }) m in
    if not w.check_due
    then m
    else if is_overloaded w && not (is_some w.check_request)
    then send_check i m1
    else m1

unfoldable pub check_workers : List ℕ → Master → Master
unfolding check_worker
check_workers [] m = m
check_workers (i ∷ is) m = check_workers is (check_worker i m)

unfoldable pub check_load : Master → Master
unfolding check_workers
check_load m =
    if m.stopping || not (length m.worker_ids == 4) || not (all_ready m)
    then m
    else if not (no_check m)
    then m
    else check_workers m.worker_ids m

-- `set(ids) - self.peer_messages` of ids without repetition, and whether an id stands twice.
abbrev pub new_ids : List ℕ → List ℕ → List ℕ
new_ids ids known = keep_if (λ x. not (elem x known)) ids

abbrev pub no_twice : List ℕ → Bool
no_twice [] = true
no_twice (x ∷ xs) = not (elem x xs) && no_twice xs

unfoldable pub peer_cost : List ℕ → ℕ → Master → Option Master
unfolding add_time
peer_cost ids minimum m =
    if ltb (length ids) minimum || not (no_twice ids)
    then none
    else let m1 = add_time (length (new_ids ids m.peer_messages)) m in
      some (record m1 { peer_messages = new_ids ids m.peer_messages ++ m.peer_messages })

-- `phase` of P2P_TIME.
pub data Phase : Type 0 where
  send_phase recv_phase other_phase : Phase

abbrev pub is_request : Option Check → ℕ → Bool
is_request (some (Check.request id)) request_id = id == request_id
is_request _ request_id = false

-- The two phases of `transfer_time`, after the cost of the communication is added.
unfoldable pub start_transfer : ℕ → ℕ → ℕ → ℕ → Master → Option Master
start_transfer i transfer_id source target m =
    if not (i == source) || not (is_some (m.workers source).check_request)
    then none
    else if is_some (lookup transfer_id m.transfer_times)
        || is_some (lookup transfer_id m.transfers)
    then none
    else some (record m {
      transfer_times =
          insert transfer_id
            (record {
              source = source;
              target = target;
              started_at = m.clock;
              request_id = (m.workers source).check_request;
              arrived_at = none;
            })
            m.transfer_times;
    })

unfoldable pub arrive_transfer : ℕ → ℕ → ℕ → ℕ → Master → Option Master
arrive_transfer i transfer_id source target m = elim (lookup transfer_id m.transfer_times) [
  | none ↦ none
  | some t ↦
      if not (i == target)
        || not (source == t.source)
        || not (target == t.target)
        || is_some t.arrived_at
      then none
      else some (record m {
        transfer_times =
            insert transfer_id (record t { arrived_at = some m.clock }) m.transfer_times;
      })
]

abbrev pub enter_phase : Phase → ℕ → ℕ → ℕ → ℕ → Master → Option Master
enter_phase Phase.send_phase i transfer_id source target m =
    start_transfer i transfer_id source target m
enter_phase Phase.recv_phase i transfer_id source target m =
    arrive_transfer i transfer_id source target m
enter_phase Phase.other_phase i transfer_id source target m = none

abbrev pub is_send : Phase → Bool
is_send Phase.send_phase = true
is_send _ = false

unfoldable pub transfer_time : ℕ → ℕ → ℕ → ℕ → Phase → ℕ → List ℕ → Master → Option Master
unfolding peer_cost start_transfer arrive_transfer send
transfer_time i transfer_id source target phase message_id ids m =
    if source == target || not (elem target m.worker_ids) then none else do
      m1 ← peer_cost ids 0 m
      m2 ← enter_phase phase i transfer_id source target m1
      some (send i (Message.time_ack message_id transfer_id (is_send phase) m2.clock) m2).0

-- `sorted` of the items, pairs of key and attempt.
abbrev pub item_before : ℕ × ℕ → ℕ × ℕ → Bool
item_before a b = ltb a.0 b.0 || a.0 == b.0 && ltb a.1 b.1

unfoldable pub insert_item : ℕ × ℕ → List (ℕ × ℕ) → List (ℕ × ℕ)
insert_item a [] = a ∷ []
insert_item a (b ∷ bs) = if item_before b a then b ∷ insert_item a bs else a ∷ b ∷ bs

unfoldable pub sort_items : List (ℕ × ℕ) → List (ℕ × ℕ)
unfolding insert_item
sort_items [] = []
sort_items (a ∷ as') = insert_item a (sort_items as')

-- An item that may move: the task is the source's, of this attempt, and not yet processed.
abbrev pub may_move : ℕ → Book → ℕ × ℕ → Bool
may_move source b item =
    let t = b.tasks item.0 in
    elem item.0 b.keys && is_num t.owner source && t.attempt == item.1 && is_accepted t.state

-- A task waits in the queue of its source until the transfer starts; a negative waiting time, of a task that
-- was accepted after that, stops at 0 here.
abbrev pub move_task : ℕ → ℕ → ℕ → Task → Task
move_task target started_at arrived_at t = record t {
  waiting_time = t.waiting_time + started_at - t.enqueued_at;
  enqueued_at = arrived_at;
  owner = some target;
}

unfoldable pub move_tasks : ℕ → ℕ → ℕ → List (ℕ × ℕ) → Book → Book
move_tasks target started_at arrived_at [] b = b
move_tasks target started_at arrived_at (item ∷ items) b =
    move_tasks target started_at arrived_at items
      (on_task item.0 (move_task target started_at arrived_at) b)

-- `del self.transfer_times[transfer_id]`
abbrev pub remove_time : ℕ → Dict TransferTime → Dict TransferTime
remove_time transfer_id times = keep_if (λ entry. not (entry.0 == transfer_id)) times

abbrev pub one_event : Worker → Worker
one_event w = record w { p2p_events = w.p2p_events + 1 }

-- `transfer_result` once all is checked and the cost is added: up to the messages, and all of it.
abbrev pub moving : ℕ → ℕ → ℕ → List (ℕ × ℕ) → ℕ → ℕ → Master → Master
moving source target transfer_id items started_at arrived_at m =
    with_book (move_tasks target started_at arrived_at items) (
      on_worker target one_event (
        on_worker source one_event (record m {
          transfers = insert transfer_id (source, target, sort_items items) m.transfers;
        })))

unfoldable pub move : ℕ → ℕ → ℕ → List (ℕ × ℕ) → ℕ → ℕ → ℕ → Master → Master
unfolding move_tasks send sort_items
move source target transfer_id items message_id started_at arrived_at m =
    let confirmed = Message.transfer_confirmed message_id transfer_id items started_at arrived_at in
    let m2 = moving source target transfer_id items started_at arrived_at m in
    let m3 = (send target confirmed (send source confirmed m2).0).0 in
    record (on_worker source (λ w. record w { check_request = none }) m3) {
      transfer_times = remove_time transfer_id m3.transfer_times;
    }

abbrev pub same_items : List (ℕ × ℕ) → List (ℕ × ℕ) → Bool
same_items [] [] = true
same_items (a ∷ as') (b ∷ bs) = a.0 == b.0 && a.1 == b.1 && same_items as' bs
same_items _ _ = false

abbrev pub same_signature : Signature → Signature → Bool
same_signature (s, t, items) (s', t', items') = s == s' && t == t' && same_items items items'

abbrev pub complete_move :
    ℕ → ℕ → ℕ → List (ℕ × ℕ) → ℕ → List ℕ → Option TransferTime → Master → Option Master
complete_move source target transfer_id items message_id ids none m = none
complete_move source target transfer_id items message_id ids (some times) m =
    elim times.arrived_at [
      | none ↦ none
      | some arrived_at ↦
          if not (times.source == source) || not (times.target == target)
          then none
          else if length items == 0 || not (no_twice (map (λ item. item.0) items))
          then none
          else if not (all_of (may_move source m.book) items)
          then none
          else do
            m' ← peer_cost ids 2 m
            some (move source target transfer_id items message_id times.started_at arrived_at m')
    ]

unfoldable pub transfer_result :
    ℕ → ℕ → ℕ → ℕ → List (ℕ × ℕ) → ℕ → ℕ → List ℕ → Master → Option Master
unfolding move
transfer_result i source target transfer_id items request_id message_id ids m =
    if not (i == source) || source == target || not (elem target m.worker_ids)
    then none
    else elim (lookup transfer_id m.transfers) [
      | some signature ↦
          if same_signature signature (source, target, sort_items items) then some m else none
      | none ↦
          if not (is_request (m.workers i).check_request request_id)
          then none
          else complete_move source target transfer_id items message_id ids
              (lookup transfer_id m.transfer_times) m
    ]

-- The reservation that a P2P_COST cancels.
abbrev pub cancel_time : ℕ → Option ℕ → Master → Option Master
cancel_time i none m = some m
cancel_time i (some transfer_id) m = elim (lookup transfer_id m.transfer_times) [
  | none ↦ none
  | some t ↦
      if not (t.source == i) || is_some t.arrived_at
      then none
      else some (record m { transfer_times = remove_time transfer_id m.transfer_times })
]

unfoldable pub check_cost : ℕ → ℕ → Option ℕ → List ℕ → Master → Option Master
unfolding peer_cost
check_cost i request_id transfer_id ids m =
    if not (is_request (m.workers i).check_request request_id) then none else do
      m1 ← cancel_time i transfer_id m
      m2 ← peer_cost ids 0 m1
      some (on_worker i (λ w. record w { check_request = none }) m2)
