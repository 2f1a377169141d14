-- ===== src/Master/Stops.antt =====
-- HW1/master.py: the STOP messages of `finish_if_ready`, and what the handling before it leaves.
use data_communication.Prelude.{
  ℕ, zero, suc, ◌+◌, ◌≡◌, refl, ap, subst, ◌∙◌, inl, inr, List, [], ◌∷◌, length, not, ◌||◌, ◌==◌,
  Bool-cases, Option-cases,
}
use data_communication.Master.State.{Master, Sent, Message}
use data_communication.Master.Clock.{send}
use data_communication.Master.Sends.{send-stays, send-outbox, send-completed}
use data_communication.Master.Assign
use data_communication.Master.Assign.{
  next_assignment, assign, distribute_loop, distribute, all_ready, no_check,
}
use data_communication.Master.Process.{send_stops}
use data_communication.Master.Refines.{loop-none, loop-some}

-- One STOP after the other is sent, to each of the workers, with the time `at` at which all was complete
-- and the time at which it is sent; `before` is what was sent before, the last first.
pub data AddsStops (at : ℕ) : List ℕ → List Sent → List Sent → Type 0 where
  no_worker : {sent : List Sent} → AddsStops at [] sent sent
  one_more :
      {i : ℕ} {ids : List ℕ} {before after : List Sent} (message_id clock : ℕ)
      → AddsStops at ids
          (record {
            receiver = i;
            message_id = message_id;
            clock = clock;
            message = Message.stop at clock;
          }
            ∷ before)
          after
      → AddsStops at (i ∷ ids) before after

pub send_stops-AddsStops :
    (at : ℕ) (ids : List ℕ) (m : Master) → AddsStops at ids m.outbox (send_stops at ids m).outbox
unfolding send_stops
send_stops-AddsStops at [] m = AddsStops.no_worker
send_stops-AddsStops at (i ∷ is) m =
    let sent = send i (Message.stop at (m.clock + 1)) m in
    AddsStops.one_more sent.1 (m.clock + 1) (
      subst (λ o. AddsStops at is o (send_stops at (i ∷ is) m).outbox)
        (send-outbox i (Message.stop at (m.clock + 1)) m) (send_stops-AddsStops at is _))

pub send_stops-stays :
    (at : ℕ) (ids : List ℕ) (m : Master) → (send_stops at ids m).stopping ≡ m.stopping
unfolding send_stops
send_stops-stays at [] m = refl
send_stops-stays at (i ∷ is) m =
    send_stops-stays at is _ ∙ send-stays i (Message.stop at (m.clock + 1)) m

pub send_stops-completed :
    (at : ℕ) (ids : List ℕ) (m : Master) → (send_stops at ids m).completed_at ≡ m.completed_at
unfolding send_stops
send_stops-completed at [] m = refl
send_stops-completed at (i ∷ is) m =
    send_stops-completed at is _ ∙ send-completed i (Message.stop at (m.clock + 1)) m

assign-stays : (key i : ℕ) (m : Master) → (assign key i m).stopping ≡ m.stopping
unfolding assign
assign-stays key i m =
    let m1 = Assign.given key i m in send-stays i (Assign.task_message key (m1.book.tasks key)) m1

distribute_loop-stays : (left : ℕ) (m : Master) → (distribute_loop left m).stopping ≡ m.stopping
distribute_loop-stays zero m = unfold distribute_loop in refl
distribute_loop-stays (suc left) m = elim (Option-cases (next_assignment m)) [
  | inl e ↦ ap (λ m'. m'.stopping) (loop-none left m e)
  | inr ((key, i), e) ↦
      ap (λ m'. m'.stopping) (loop-some left m key i e)
      ∙ distribute_loop-stays left (assign key i m)
      ∙ assign-stays key i m
]

pub distribute-stays : (m : Master) → (distribute m).stopping ≡ m.stopping
unfolding distribute
distribute-stays m = elim (Bool-cases (not (length m.worker_ids == 4) || not (all_ready m))) [
  | inl e ↦ rw e refl
  | inr e ↦ elim (Bool-cases (not (no_check m))) [
    | inl e' ↦ rw (e, e') refl
    | inr e' ↦
        rw (e, e') (distribute_loop-stays (length m.book.retry_tasks + length m.book.new_tasks) m)
  ]
]
