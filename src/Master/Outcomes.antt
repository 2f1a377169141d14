-- ===== src/Master/Outcomes.antt =====
-- HW1/master.py: what processing and finishing do to the book of the tasks, as steps of their life.
use data_communication.Prelude.{
  ℕ, ◌+◌, ◌≡◌, refl, sym, ap, subst, ◌∙◌, ◌⊎◌, inl, inr, true, false, ◌&&◌, ◌||◌, not, none, some,
  List, [], ◌∷◌, length, elem, is_some, is_num, leb, ◌==◌, ==_refl, ==→eq, ◌≤◌, if◌then◌else◌,
  Bool-cases, arith,
}
use data_communication.Master.State.{
  Master, Book, Task, TaskState, Message, is_waiting, is_accepted, is_done, on_task,
}
use data_communication.Master.Clock.{add_time}
use data_communication.Master.Sends.{add_time-book, send-book}
use data_communication.Master.Life.{Event, Owns, IsOpen, Change, Changes, outcome_of, one}
use data_communication.Master.Assign.{update_queue, no_check, ◌>>=◌}
use data_communication.Master.Process
use data_communication.Master.Process.{
  run_task, processing_start, ResultStatus, is_other, settle, task_result, send_stops, is_complete,
  first_time, finish_if_ready,
}
use data_communication.Master.Refines.{LeadsTo, LeadsTo-guard, owned}

-- The processing that started comes to an end.
processed-Changes :
    (b : Book) (i key attempt duration : ℕ) (m : Master)
    → Changes i (Event.starts key attempt duration) b m.book
    → Owns i key attempt m.book
    → (m.book.tasks key).state ≡ TaskState.processing
    → Changes i
        (Event.starts key attempt duration)
        b
        (Process.processed key (add_time duration m)).book
processed-Changes b i key attempt duration m h owns runs =
    subst
      (λ b'.
        Changes i (Event.starts key attempt duration) b
          (on_task key (Process.finish_at (add_time duration m).clock) b'))
      (sym (add_time-book duration m))
      (Changes.then h (Change.ended key attempt duration (add_time duration m).clock owns runs))

module _ (i key attempt duration : ℕ) where
  run_task-Changes :
      (message_id : ℕ) (m : Master)
      → Owns i key attempt m.book
      → is_accepted (m.book.tasks key).state ≡ true
      → (1 ≤ duration) × (duration ≤ 3)
      → Changes i
          (Event.starts key attempt duration)
          m.book
          (run_task i key message_id duration m).book
  unfolding run_task
  run_task-Changes message_id m (there, owner, times) is limits =
      let m3 = Process.processed key (add_time duration (Process.running i key duration m)) in
      subst (Changes i (Event.starts key attempt duration) m.book)
        (sym (send-book i (Process.process_message message_id key (m3.book.tasks key)) m3))
        (processed-Changes m.book i key attempt duration (Process.running i key duration m)
          (one (Change.started key attempt m.clock duration (there, owner, times) is limits))
          (rw (==_refl key) (there, owner, times)) (rw (==_refl key) refl))

  run_updated :
      (message_id size version : ℕ) (m : Master)
      → Owns i key attempt m.book
      → is_accepted (m.book.tasks key).state ≡ true
      → (1 ≤ duration) × (duration ≤ 3)
      → LeadsTo i (Event.starts key attempt duration) m.book (
          update_queue i size version none m
          >>= (λ m'. some (run_task i key message_id duration m')))
  unfolding update_queue
  run_updated message_id size version m owns is limits = elim (Bool-cases (leb size 10)) [
    | inl e ↦ rw e (run_task-Changes message_id _ owns is limits)
    | inr e ↦ rw e tt
  ]

pub processing_start-LeadsTo :
    (i key attempt message_id duration size version : ℕ) (m : Master)
    → LeadsTo i
        (Event.starts key attempt duration)
        m.book
        (processing_start i key attempt message_id duration size version m)
unfolding processing_start
processing_start-LeadsTo i key attempt message_id duration size version m =
    LeadsTo-guard i (Event.starts key attempt duration) m.book (not (elem key m.book.keys)) _
      (λ there.
        LeadsTo-guard i (Event.starts key attempt duration) m.book
          (not (is_num t.owner i)
            || not (t.attempt == attempt)
            || not (is_accepted t.state)
            || is_some (m.workers i).active)
          _
          (λ ready.
            LeadsTo-guard i (Event.starts key attempt duration) m.book
              (not (leb 1 duration && leb duration 3)) _
              (λ limits.
                run_updated i key attempt duration message_id size version m
                  (owned i key attempt m.book (ground (arith, there)) (ground (arith, ready))
                    (ground (arith, ready)))
                  (ground (arith, ready)) (ground (arith, limits), ground (arith, limits)))))
  where
    t : Task
    t = m.book.tasks key

settle-Changes :
    (status : ResultStatus) (i key attempt value wait : ℕ) (m : Master)
    → Owns i key attempt m.book
    → IsOpen key m.book
    → (m.book.tasks key).value ≡ value
    → is_other status ≡ false
    → Changes i (outcome_of status key attempt value) m.book (settle status i key wait m).book
settle-Changes ResultStatus.success i key attempt value wait m owns is_open named known =
    one (Change.succeeded key attempt value owns is_open named)
settle-Changes ResultStatus.fail i key attempt value wait m owns is_open named known =
    one (Change.failed key attempt value owns is_open named)
settle-Changes ResultStatus.other i key attempt value wait m owns is_open named known =
    absurd (ground (arith, known))

pub task_result-LeadsTo :
    (i key attempt value : ℕ) (status : ResultStatus) (duration wait : ℕ) (m : Master)
    → LeadsTo i
        (outcome_of status key attempt value)
        m.book
        (task_result i key attempt value status duration wait m)
unfolding task_result
task_result-LeadsTo i key attempt value status duration wait m =
    LeadsTo-guard i what m.book (not (elem key m.book.keys)) _ (λ there. current there)
  where
    what : Event
    what = outcome_of status key attempt value

    t : Task
    t = m.book.tasks key

    current :
        not (elem key m.book.keys) ≡ false
        → LeadsTo i what m.book (
            if not (t.attempt == attempt) || is_done t.state || is_waiting t.state
            then some m
            else if not (is_num t.owner i)
            then none
            else if not (value == t.value) || is_other status
            then none
            else if not (is_num t.processing_time duration) || not (wait == t.waiting_time)
            then none
            else some (settle status i key wait m))
    current there =
        elim (Bool-cases (not (t.attempt == attempt) || is_done t.state || is_waiting t.state)) [
          | inl e ↦ rw e Changes.same
          | inr e ↦ rw e (
              LeadsTo-guard i what m.book (not (is_num t.owner i)) _ (λ owner.
                LeadsTo-guard i what m.book (not (value == t.value) || is_other status) _ (λ named.
                  LeadsTo-guard i what m.book
                    (not (is_num t.processing_time duration) || not (wait == t.waiting_time)) _
                    (λ _.
                      settle-Changes status i key attempt value wait m
                        (owned i key attempt m.book (ground (arith, there)) (ground (arith, owner))
                          (ground (arith, e)))
                        (ground (arith, e), ground (arith, e))
                        (sym (==→eq value t.value (ground (arith, named))))
                        (ground (arith, named))))))
        ]

send_stops-book : (at : ℕ) (ids : List ℕ) (m : Master) → (send_stops at ids m).book ≡ m.book
unfolding send_stops
send_stops-book at [] m = refl
send_stops-book at (i ∷ is) m =
    send_stops-book at is _ ∙ send-book i (Message.stop at (m.clock + 1)) m

-- What `finish_if_ready` does, by its three outcomes.
pub finish-cases :
    (m : Master)
    → let stops = record m {
      completed_at = some (first_time m.clock m.completed_at);
      stopping = true;
    } in
      (finish_if_ready m ≡ m)
      ⊎ ((is_complete m.book ≡ true)
          × ((finish_if_ready m
                ≡ record m { completed_at = some (first_time m.clock m.completed_at) })
              ⊎ ((finish_if_ready m
                    ≡ send_stops (first_time m.clock m.completed_at) m.worker_ids stops)
                  × (length m.transfer_times ≡ 0)
                  × (no_check m ≡ true))))
unfolding finish_if_ready
finish-cases m = elim (Bool-cases (m.stopping || not (is_complete m.book))) [
  | inl e ↦ inl (rw e refl)
  | inr e ↦ elim (Bool-cases (not (length m.transfer_times == 0) || not (no_check m))) [
    | inl busy ↦ inr (ground (arith, e), inl (rw (e, busy) refl))
    | inr idle ↦
        inr (ground (arith, e), inr (rw (e, idle) refl, ground (arith, idle), ground (arith, idle)))
  ]
]

pub finish_if_ready-book : (m : Master) → (finish_if_ready m).book ≡ m.book
finish_if_ready-book m = elim (finish-cases m) [
  | inl e ↦ ap (λ m'. m'.book) e
  | inr (complete, inl e) ↦ ap (λ m'. m'.book) e
  | inr (complete, inr (e, no_times, idle)) ↦
      ap (λ m'. m'.book) e
      ∙ send_stops-book (first_time m.clock m.completed_at) m.worker_ids
          (record m { completed_at = some (first_time m.clock m.completed_at); stopping = true })
]
