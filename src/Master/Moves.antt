-- ===== src/Master/Moves.antt =====
-- HW1/master.py: what the result of a transfer does to the book of the tasks, as steps of their life.
use data_communication.Prelude.{
  ℕ, ◌≡◌, refl, sym, subst, ◌∙◌, inl, inr, true, false, ◌||◌, not, Option, none, some, List, [],
  ◌∷◌, All, map, length, elem, all_of, ◌==◌, ==→eq, if◌then◌else◌, lookup, Bool-cases, arith,
}
use data_communication.Master.State
use data_communication.Master.State.{
  Master, Book, Task, TaskState, Message, TransferTime, Check, Worker, is_waiting, is_accepted,
  is_done, on_worker, on_task, with_book,
}
use data_communication.Master.Clock.{send}
use data_communication.Master.Sends.{send-book}
use data_communication.Master.Life.{Event, Owns, Listed, Change, Changes, one, join}
use data_communication.Master.Assign.{◌>>=◌}
use data_communication.Master.Transfer
use data_communication.Master.Transfer.{
  check_worker, check_workers, check_load, send_check, peer_cost, no_twice, start_transfer,
  arrive_transfer, enter_phase, Phase, is_send, transfer_time, may_move, move_tasks, move,
  complete_move, transfer_result, same_signature, sort_items, is_request, cancel_time, check_cost,
}
use data_communication.Master.Refines.{LeadsTo, LeadsTo-guard, owned}
use data_communication.Master.Costs.{LeadsTo-kept, peer_cost-KeepsBook}

-- The items are tasks of the source with these attempts, that are accepted.
MayMove : ℕ → Book → List (ℕ × ℕ) → Type 0
MayMove source b items =
    All (λ item. Owns source item.0 item.1 b × (is_accepted (b.tasks item.0).state ≡ true)) items

all-MayMove :
    (source : ℕ) (b : Book) (items : List (ℕ × ℕ))
    → all_of (may_move source b) items ≡ true
    → MayMove source b items
unfolding MayMove
all-MayMove source b [] h = tt
all-MayMove source b (item ∷ items) h = (
  (
    owned source item.0 item.1 b (ground (arith, h)) (ground (arith, h)) (ground (arith, h)),
    ground (arith, h),
  ),
  all-MayMove source b items (ground (arith, h)),
)

-- A change of another task leaves them so.
other-MayMove :
    (source key : ℕ) (f : Task → Task) (b : Book) (items : List (ℕ × ℕ))
    → elem key (map (λ item. item.0) items) ≡ false
    → MayMove source b items
    → MayMove source (on_task key f b) items
unfolding MayMove
other-MayMove source key f b [] away may = tt
other-MayMove source key f b (item ∷ items) away (is, rest) =
    let other : (key == item.0) ≡ false = ground (arith, away) in
    (rw other is, other-MayMove source key f b items (ground (arith, away)) rest)

-- The tasks of a transfer, which are different ones, move one after the other.
move_tasks-Changes :
    (source target started_at arrived_at : ℕ) (listed items : List (ℕ × ℕ)) (b : Book)
    → ((item : ℕ × ℕ) → Listed item items → Listed item listed)
    → no_twice (map (λ item. item.0) items) ≡ true
    → MayMove source b items
    → Changes source (Event.moves target listed) b (move_tasks target started_at arrived_at items b)
unfolding move_tasks MayMove
move_tasks-Changes source target started_at arrived_at listed [] b part once may = Changes.same
move_tasks-Changes source target started_at arrived_at listed (item ∷ items) b part once
      ((owns, is), rest) =
    let f = Transfer.move_task target started_at arrived_at in
    join
      (one (
        Change.moved item.0 item.1 target listed started_at arrived_at (part item (inl refl)) owns
          is))
      (move_tasks-Changes source target started_at arrived_at listed items (on_task item.0 f b)
        (λ a there. part a (inr there)) (ground (arith, once))
        (other-MayMove source item.0 f b items (ground (arith, once)) rest))

move-Changes :
    (source target transfer_id : ℕ) (items : List (ℕ × ℕ)) (message_id started_at arrived_at : ℕ)
    (m : Master)
    → no_twice (map (λ item. item.0) items) ≡ true
    → MayMove source m.book items
    → Changes source
        (Event.moves target items)
        m.book
        (move source target transfer_id items message_id started_at arrived_at m).book
unfolding move
move-Changes source target transfer_id items message_id started_at arrived_at m once may =
    let confirmed = Message.transfer_confirmed message_id transfer_id items started_at arrived_at in
    let m2 = Transfer.moving source target transfer_id items started_at arrived_at m in
    subst (Changes source (Event.moves target items) m.book)
      (sym
        (send-book target confirmed (send source confirmed m2).0 ∙ send-book source confirmed m2))
      (move_tasks-Changes source target started_at arrived_at items items m.book (λ a there. there)
        once may)

complete_move-LeadsTo :
    (source target transfer_id : ℕ) (items : List (ℕ × ℕ)) (message_id : ℕ) (ids : List ℕ)
    (times : Option TransferTime) (m : Master)
    → LeadsTo source
        (Event.moves target items)
        m.book
        (complete_move source target transfer_id items message_id ids times m)
complete_move-LeadsTo source target transfer_id items message_id ids none m = tt
complete_move-LeadsTo source target transfer_id items message_id ids (some times) m =
    arrived times.arrived_at
  where
    moves :
        (arrived_at : ℕ)
        → no_twice (map (λ item. item.0) items) ≡ true
        → all_of (may_move source m.book) items ≡ true
        → (m' : Master) → m'.book ≡ m.book
        → Changes source
            (Event.moves target items)
            m.book
            (move source target transfer_id items message_id times.started_at arrived_at m').book
    moves arrived_at once may m' e =
        subst
          (λ b.
            Changes source (Event.moves target items) b
              (move source target transfer_id items message_id times.started_at arrived_at m').book)
          e
          (move-Changes source target transfer_id items message_id times.started_at arrived_at m'
            once
            (all-MayMove source m'.book items
              (subst (λ b. all_of (may_move source b) items ≡ true) (sym e) may)))

    arrived :
        (o : Option ℕ)
        → LeadsTo source (Event.moves target items) m.book (elim o [
          | none ↦ none
          | some arrived_at ↦
              if not (times.source == source) || not (times.target == target)
              then none
              else if length items == 0 || not (no_twice (map (λ item. item.0) items))
              then none
              else if not (all_of (may_move source m.book) items)
              then none
              else do
                m' ← peer_cost ids 2 m
                some
                    (move source target transfer_id items message_id times.started_at arrived_at m')
        ])
    arrived none = tt
    arrived (some arrived_at) =
        LeadsTo-guard source (Event.moves target items) m.book
          (not (times.source == source) || not (times.target == target)) _
          (λ _.
            LeadsTo-guard source (Event.moves target items) m.book
              (length items == 0 || not (no_twice (map (λ item. item.0) items))) _
              (λ once.
                LeadsTo-guard source (Event.moves target items) m.book
                  (not (all_of (may_move source m.book) items)) _
                  (λ may.
                    LeadsTo-kept source (Event.moves target items) m.book (peer_cost ids 2 m) _
                      (peer_cost-KeepsBook ids 2 m)
                      (moves arrived_at (ground (arith, once)) (ground (arith, may))))))

known-LeadsTo :
    (i source target transfer_id : ℕ) (items : List (ℕ × ℕ)) (request_id message_id : ℕ)
    (ids : List ℕ) (o : Option State.Signature) (m : Master)
    → LeadsTo source (Event.moves target items) m.book (elim o [
      | some signature ↦
          if same_signature signature (source, target, sort_items items) then some m else none
      | none ↦
          if not (is_request (m.workers i).check_request request_id)
          then none
          else complete_move source target transfer_id items message_id ids
              (lookup transfer_id m.transfer_times)
              m
    ])
known-LeadsTo i source target transfer_id items request_id message_id ids (some signature) m =
    elim (Bool-cases (same_signature signature (source, target, sort_items items))) [
      | inl e ↦ rw e Changes.same
      | inr e ↦ rw e tt
    ]
known-LeadsTo i source target transfer_id items request_id message_id ids none m =
    LeadsTo-guard source (Event.moves target items) m.book
      (not (is_request (m.workers i).check_request request_id)) _
      (λ _.
        complete_move-LeadsTo source target transfer_id items message_id ids
          (lookup transfer_id m.transfer_times) m)

as_sender :
    {i source : ℕ} (what : Event) (b : Book) (o : Option Master)
    → source ≡ i
    → LeadsTo source what b o
    → LeadsTo i what b o
as_sender what b o e h = subst (λ who. LeadsTo who what b o) e h

pub transfer_result-LeadsTo :
    (i source target transfer_id : ℕ) (items : List (ℕ × ℕ)) (request_id message_id : ℕ)
    (ids : List ℕ) (m : Master)
    → LeadsTo i
        (Event.moves target items)
        m.book
        (transfer_result i source target transfer_id items request_id message_id ids m)
unfolding transfer_result
transfer_result-LeadsTo i source target transfer_id items request_id message_id ids m =
    LeadsTo-guard i (Event.moves target items) m.book
      (not (i == source) || source == target || not (elem target m.worker_ids)) _
      (λ sender.
        as_sender (Event.moves target items) m.book _
          (sym (==→eq i source (ground (arith, sender))))
          (known-LeadsTo i source target transfer_id items request_id message_id ids
            (lookup transfer_id m.transfers) m))
