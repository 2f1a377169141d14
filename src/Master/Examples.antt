-- ===== src/Master/Examples.antt =====
-- A run with one task, from READY to its result, and the theorems applied to it.
use data_communication.Prelude.{
  ℕ, ◌+◌, ◌*◌, ◌≡◌, refl, ◌⊎◌, true, false, Option, none, some, List, [], ◌∷◌, get_or, is_some, not,
  ◌==◌, arith,
}
use data_communication.Master.State.{Master, init, new_worker}
use data_communication.Master.Clock
use data_communication.Master.Clock.{is_due}
use data_communication.Master.Ticks.{add_time_lem}
use data_communication.Master.Assign
use data_communication.Master.Choose.{IsChosen, turns, choose_worker_lem}
use data_communication.Master.Process
use data_communication.Master.Process.{ResultStatus}
use data_communication.Master.Receive
use data_communication.Master.Receive.{Kind}
use data_communication.Master.Life.{Event}
use data_communication.Master.Refines.{LeadsTo}
use data_communication.Master.Balance.{IsBalanced}
use data_communication.Master.Rounds.{Run, round-LeadsTo, Run-IsBalanced}
use data_communication.Master.Done.{done_stays}
use data_communication.Master.Finish.{IsReady, HasStopped, GoesOn, finish_if_ready_lem}

abbrev keys : List ℕ
keys = 7 ∷ []

abbrev values : ℕ → ℕ
values k = k * 10

-- Three of the workers have said READY.
abbrev fresh : Master
fresh = record (init keys values (λ n. n) (1 ∷ 2 ∷ 3 ∷ 4 ∷ []) 4) {
  workers = λ i. record new_worker { ready = not (i == 4) };
}

-- The state after a round, for one that raises nothing.
abbrev after : ℕ → ℕ → Kind → Master → Master
after i message_id kind m = get_or (Receive.round i message_id true kind m) m

returns : (o : Option Master) (m : Master) → is_some o ≡ true → o ≡ some (get_or o m)
returns none m h = absurd (ground (arith, h))
returns (some m') m h = refl

follow :
    (i message_id : ℕ) (kind : Kind) (m : Master)
    → is_some (Receive.round i message_id true kind m) ≡ true
    → Run keys values m
    → Run keys values (after i message_id kind m)
follow i message_id kind m h run =
    Run.step i message_id true kind run (returns (Receive.round i message_id true kind m) m h)

abbrev ready : Master
ready = after 4 1 Kind.ready fresh

abbrev accepted : Master
accepted = after 1 2 (Kind.task_ack 7 1 1 true 1 1) ready

abbrev started : Master
started = after 1 3 (Kind.process_start 7 1 2 0 2) accepted

abbrev success : Kind
success = Kind.result 7 1 70 ResultStatus.success 2 (started.book.tasks 7).waiting_time 0 3 none

abbrev finished : Master
finished = after 1 4 success started

finished-stops : finished.stopping ≡ true
unfolding Receive.round Receive.worker_ready Assign.task_ack Process.processing_start
    Process.task_result
finished-stops = refl

accepted-Run : Run keys values accepted
unfolding Receive.round Receive.worker_ready Assign.task_ack Process.processing_start
    Process.task_result
accepted-Run =
    follow 1 2 (Kind.task_ack 7 1 1 true 1 1) ready refl
      (follow 4 1 Kind.ready fresh refl (Run.begin fresh refl))

started-Run : Run keys values started
unfolding Receive.round Receive.worker_ready Assign.task_ack Process.processing_start
    Process.task_result
started-Run = follow 1 3 (Kind.process_start 7 1 2 0 2) accepted refl accepted-Run

finished-Run : Run keys values finished
unfolding Receive.round Receive.worker_ready Assign.task_ack Process.processing_start
    Process.task_result
finished-Run = follow 1 4 success started refl started-Run

add_time_lem_example :
    let m' = Clock.add_time 9 ready in
    (m'.clock ≡ ready.clock + 9) × (is_due (ready.clock + 9) (m'.workers 2).next_check ≡ false)
unfolding Receive.round Receive.worker_ready Assign.task_ack Process.processing_start
    Process.task_result
add_time_lem_example = add_time_lem 9 ready 2 refl refl

choose_worker_lem_example :
    IsChosen (some 2) ready.workers (turns ready.last_worker) (Assign.choose_worker (some 2) ready)
choose_worker_lem_example = choose_worker_lem (some 2) ready

round-LeadsTo_example :
    LeadsTo 1 (Event.succeeds 7 1 70) started.book (Receive.round 1 4 true success started)
round-LeadsTo_example = round-LeadsTo 1 4 true success started

Run-IsBalanced_example : IsBalanced keys values finished.book
Run-IsBalanced_example = Run-IsBalanced refl finished-Run

done_stays_example :
    let m' = after 2 2 Kind.ready finished in
    (m'.book.tasks 7 ≡ finished.book.tasks 7) × (m'.book.completed 7 ≡ some 70)
unfolding Receive.round Receive.worker_ready Assign.task_ack Process.processing_start
    Process.task_result
done_stays_example =
    done_stays 7 2 2 true Kind.ready refl finished-Run
      (returns (Receive.round 2 2 true Kind.ready finished) finished refl) refl

abbrev answered : Master
answered = get_or (Receive.handle_message 1 4 true success started) started

finish_if_ready_lem_example :
    let m = Assign.distribute answered in
    (IsReady keys values m × HasStopped m (Process.finish_if_ready m))
    ⊎ (¬ IsReady keys values m × GoesOn m (Process.finish_if_ready m))
unfolding Receive.round Receive.worker_ready Assign.task_ack Process.processing_start
    Process.task_result
finish_if_ready_lem_example =
    finish_if_ready_lem 1 4 true success refl started-Run
      (returns (Receive.handle_message 1 4 true success started) started refl) refl
