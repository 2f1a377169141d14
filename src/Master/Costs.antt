-- ===== src/Master/Costs.antt =====
-- HW1/master.py: what the messages between workers do to the book of the tasks, but for the result of a
-- transfer: they leave it alone.
use data_communication.Prelude.{
  ℕ, ◌≡◌, refl, ◌∙◌, inl, inr, false, ◌&&◌, ◌||◌, not, Option, none, some, List, [], ◌∷◌, length,
  elem, is_some, ltb, ◌==◌, if◌then◌else◌, lookup, insert, Bool-cases,
}
use data_communication.Master.State.{Master, Book, Message, TransferTime, on_worker}
use data_communication.Master.Clock.{is_overloaded}
use data_communication.Master.Sends.{add_time-book, send-book}
use data_communication.Master.Life.{Event, Changes}
use data_communication.Master.Assign.{all_ready, no_check, ◌>>=◌}
use data_communication.Master.Transfer
use data_communication.Master.Transfer.{
  check_worker, check_workers, check_load, send_check, peer_cost, no_twice, start_transfer,
  arrive_transfer, enter_phase, Phase, is_send, transfer_time, may_move, move_tasks, move,
  complete_move, transfer_result, same_signature, sort_items, is_request, cancel_time, check_cost,
}
use data_communication.Master.Refines.{LeadsTo, LeadsTo-bind, LeadsTo-guard, same_book}

-- Handlers that raise or leave the book alone.
abbrev pub KeepsBook : Book → Option Master → Type 0
KeepsBook b none = Unit
KeepsBook b (some m) = m.book ≡ b

pub peer_cost-KeepsBook :
    (ids : List ℕ) (minimum : ℕ) (m : Master) → KeepsBook m.book (peer_cost ids minimum m)
unfolding peer_cost
peer_cost-KeepsBook ids minimum m =
    elim (Bool-cases (ltb (length ids) minimum || not (no_twice ids))) [
      | inl e ↦ rw e tt
      | inr e ↦ rw e (add_time-book (length (Transfer.new_ids ids m.peer_messages)) m)
    ]

module _ (who : ℕ) (what : Event) where
  KeepsBook-LeadsTo : (b : Book) (o : Option Master) → KeepsBook b o → LeadsTo who what b o
  KeepsBook-LeadsTo b none h = tt
  KeepsBook-LeadsTo b (some m) h = same_book who what h

  pub LeadsTo-kept :
      (b : Book) (o : Option Master) (f : Master → Option Master)
      → KeepsBook b o
      → ((m : Master) → m.book ≡ b → LeadsTo who what b (f m))
      → LeadsTo who what b (o >>= f)
  LeadsTo-kept b none f h k = tt
  LeadsTo-kept b (some m) f h k = k m h

  peer_cost-LeadsTo :
      (ids : List ℕ) (minimum : ℕ) (m : Master) → LeadsTo who what m.book (peer_cost ids minimum m)
  peer_cost-LeadsTo ids minimum m =
      KeepsBook-LeadsTo m.book (peer_cost ids minimum m) (peer_cost-KeepsBook ids minimum m)

  start_transfer-LeadsTo :
      (i transfer_id source target : ℕ) (m : Master)
      → LeadsTo who what m.book (start_transfer i transfer_id source target m)
  unfolding start_transfer
  start_transfer-LeadsTo i transfer_id source target m =
      LeadsTo-guard who what m.book
        (not (i == source) || not (is_some (m.workers source).check_request)) _
        (λ _.
          LeadsTo-guard who what m.book
            (is_some (lookup transfer_id m.transfer_times)
              || is_some (lookup transfer_id m.transfers))
            _ (λ _. Changes.same))

  arrive_transfer-LeadsTo :
      (i transfer_id source target : ℕ) (m : Master)
      → LeadsTo who what m.book (arrive_transfer i transfer_id source target m)
  unfolding arrive_transfer
  arrive_transfer-LeadsTo i transfer_id source target m =
      arrived (lookup transfer_id m.transfer_times)
    where
      arrived :
          (o : Option TransferTime)
          → LeadsTo who what m.book (elim o [
            | none ↦ none
            | some t ↦
                if not (i == target)
                  || not (source == t.source)
                  || not (target == t.target)
                  || is_some t.arrived_at
                then none
                else some (record m {
                  transfer_times =
                      insert transfer_id (record t { arrived_at = some m.clock }) m.transfer_times;
                })
          ])
      arrived none = tt
      arrived (some t) =
          LeadsTo-guard who what m.book
            (not (i == target)
              || not (source == t.source)
              || not (target == t.target)
              || is_some t.arrived_at)
            _ (λ _. Changes.same)

  enter_phase-LeadsTo :
      (phase : Phase) (i transfer_id source target : ℕ) (m : Master)
      → LeadsTo who what m.book (enter_phase phase i transfer_id source target m)
  enter_phase-LeadsTo Phase.other_phase i transfer_id source target m = tt
  enter_phase-LeadsTo Phase.send_phase i transfer_id source target m =
      start_transfer-LeadsTo i transfer_id source target m
  enter_phase-LeadsTo Phase.recv_phase i transfer_id source target m =
      arrive_transfer-LeadsTo i transfer_id source target m

  pub transfer_time-LeadsTo :
      (i transfer_id source target : ℕ) (phase : Phase) (message_id : ℕ) (ids : List ℕ) (m : Master)
      → LeadsTo who what m.book (transfer_time i transfer_id source target phase message_id ids m)
  unfolding transfer_time
  transfer_time-LeadsTo i transfer_id source target phase message_id ids m =
      LeadsTo-guard who what m.book (source == target || not (elem target m.worker_ids)) _ (λ _.
        LeadsTo-bind who what m.book (peer_cost ids 0 m) _ (peer_cost-LeadsTo ids 0 m) (λ m1.
          LeadsTo-bind who what m1.book (enter_phase phase i transfer_id source target m1) _
            (enter_phase-LeadsTo phase i transfer_id source target m1)
            (λ m2.
              same_book who what (
                send-book i (Message.time_ack message_id transfer_id (is_send phase) m2.clock)
                  m2))))

module _ (who : ℕ) (what : Event) where
  cancel_time-LeadsTo :
      (i : ℕ) (transfer_id : Option ℕ) (m : Master)
      → LeadsTo who what m.book (cancel_time i transfer_id m)
  cancel_time-LeadsTo i none m = Changes.same
  cancel_time-LeadsTo i (some transfer_id) m = cancel (lookup transfer_id m.transfer_times)
    where
      cancel :
          (o : Option TransferTime)
          → LeadsTo who what m.book (elim o [
            | none ↦ none
            | some t ↦
                if not (t.source == i) || is_some t.arrived_at
                then none
                else some (record m {
                  transfer_times = Transfer.remove_time transfer_id m.transfer_times;
                })
          ])
      cancel none = tt
      cancel (some t) =
          LeadsTo-guard who what m.book (not (t.source == i) || is_some t.arrived_at) _
            (λ _. Changes.same)

  pub check_cost-LeadsTo :
      (i request_id : ℕ) (transfer_id : Option ℕ) (ids : List ℕ) (m : Master)
      → LeadsTo who what m.book (check_cost i request_id transfer_id ids m)
  unfolding check_cost
  check_cost-LeadsTo i request_id transfer_id ids m =
      LeadsTo-guard who what m.book (not (is_request (m.workers i).check_request request_id)) _
        (λ _.
          LeadsTo-bind who what m.book (cancel_time i transfer_id m) _
            (cancel_time-LeadsTo i transfer_id m)
            (λ m1.
              LeadsTo-bind who what m1.book (peer_cost ids 0 m1)
                (λ m2. some (on_worker i (λ w. record w { check_request = none }) m2))
                (peer_cost-LeadsTo who what ids 0 m1) (λ m2. Changes.same)))

check_worker-book : (i : ℕ) (m : Master) → (check_worker i m).book ≡ m.book
unfolding check_worker
check_worker-book i m = elim (Bool-cases (not (m.workers i).check_due)) [
  | inl e ↦ rw e refl
  | inr e ↦
      elim (Bool-cases (is_overloaded (m.workers i) && not (is_some (m.workers i).check_request))) [
        | inl over ↦ rw (e, over) (sent-book (on_worker i (λ w. record w { check_due = false }) m))
        | inr under ↦ rw (e, under) refl
      ]
]
  where
    sent-book : (m : Master) → (send_check i m).book ≡ m.book
    sent-book m =
        unfold send_check in
        send-book i (Message.p2p_check (m.workers i).check_at) (Transfer.sending_check i m)

check_workers-book : (ids : List ℕ) (m : Master) → (check_workers ids m).book ≡ m.book
unfolding check_workers
check_workers-book [] m = refl
check_workers-book (i ∷ is) m = check_workers-book is (check_worker i m) ∙ check_worker-book i m

pub check_load-book : (m : Master) → (check_load m).book ≡ m.book
unfolding check_load
check_load-book m =
    elim (Bool-cases (m.stopping || not (length m.worker_ids == 4) || not (all_ready m))) [
      | inl e ↦ rw e refl
      | inr e ↦ elim (Bool-cases (not (no_check m))) [
        | inl e' ↦ rw (e, e') refl
        | inr e' ↦ rw (e, e') (check_workers-book m.worker_ids m)
      ]
    ]
