-- ===== src/Master/Refines.antt =====
-- HW1/master.py: what each handler does to the book of the tasks, as steps of their life.
use data_communication.Prelude.{
  ℕ, zero, suc, ◌+◌, ◌≡◌, refl, sym, ap, subst, ◌∙◌, inl, inr, Bool, true, false, ◌||◌, not, Option,
  none, some, length, elem, is_num, leb, ◌==◌, ==_refl, ==→eq, if◌then◌else◌, Bool-cases,
  Option-cases, arith,
}
use data_communication.Master.State.{Master, Book, Task, Message, is_sent, on_task}
use data_communication.Master.Clock.{send}
use data_communication.Master.Sends.{send-book}
use data_communication.Master.Life.{Event, Owns, Change, Changes, answer_of, one, join}
use data_communication.Master.Assign
use data_communication.Master.Assign.{
  first_waiting, pop_waiting, update_queue, chosen, next_assignment, choose_worker, assign,
  distribute_loop, distribute, confirm, decline, acknowledge, all_ready, no_check, ◌>>=◌,
}

-- A handler that raises leaves no book.
abbrev pub LeadsTo : ℕ → Event → Book → Option Master → Type 0
LeadsTo who what b none = Unit
LeadsTo who what b (some m) = Changes who what b m.book

module _ (who : ℕ) (what : Event) where
  pub LeadsTo-bind :
      (b : Book) (o : Option Master) (f : Master → Option Master)
      → LeadsTo who what b o
      → ((m : Master) → LeadsTo who what m.book (f m))
      → LeadsTo who what b (o >>= f)
  LeadsTo-bind b none f h k = tt
  LeadsTo-bind b (some m) f h k = append (f m) (k m)
    where
      append : (o : Option Master) → LeadsTo who what m.book o → LeadsTo who what b o
      append none h' = tt
      append (some m') h' = join h h'

  -- Raise, or go on.
  pub LeadsTo-guard :
      (b : Book) (c : Bool) (o : Option Master)
      → (c ≡ false → LeadsTo who what b o)
      → LeadsTo who what b (if c then none else o)
  LeadsTo-guard b true o h = tt
  LeadsTo-guard b false o h = h refl

  pub same_book : {b b' : Book} → b' ≡ b → Changes who what b b'
  same_book {b} e = subst (Changes who what b) (sym e) Changes.same

  numbered-Changes :
      (b : Book) (key i : ℕ) (message : Message) (m : Master)
      → Changes who what b m.book
      → is_sent (m.book.tasks key).state ≡ true
      → let sent = send i message m in
        Changes who what b (on_task key (Assign.number sent.1) sent.0.book)
  numbered-Changes b key i message m h is =
      subst (λ b'. Changes who what b (on_task key (Assign.number (send i message m).1) b'))
        (sym (send-book i message m)) (Changes.then h (Change.numbered key (send i message m).1 is))

  assign-Changes :
      (key i : ℕ) (m : Master)
      → first_waiting m.book.retry_tasks m.book.new_tasks ≡ some key
      → Changes who what m.book (assign key i m).book
  unfolding assign
  assign-Changes key i m e =
      let m1 = Assign.given key i m in
      numbered-Changes m.book key i (Assign.task_message key (m1.book.tasks key)) m1
        (one (Change.assigned key i e)) (rw (==_refl key) refl)

chosen-first : (o : Option ℕ) (m : Master) (key i : ℕ) → chosen o m ≡ some (key, i) → o ≡ some key
chosen-first none m key i e = absurd (ground (arith, e))
chosen-first (some k) m key i e = with_worker (choose_worker (m.book.tasks k).failed_worker m) e
  where
    with_worker : (o : Option ℕ) → Assign.pair_with k o ≡ some (key, i) → some k ≡ some key
    with_worker none e = absurd (ground (arith, e))
    with_worker (some j) e = ground (arith, e)

next_chosen :
    (m : Master) → chosen (first_waiting m.book.retry_tasks m.book.new_tasks) m ≡ next_assignment m
unfolding next_assignment
next_chosen m = refl

pub loop-none :
    (left : ℕ) (m : Master) → next_assignment m ≡ none → distribute_loop (suc left) m ≡ m
unfolding distribute_loop
loop-none left m e = rw (e, distribute_loop) refl

pub loop-some :
    (left : ℕ) (m : Master) (key i : ℕ)
    → next_assignment m ≡ some (key, i)
    → distribute_loop (suc left) m ≡ distribute_loop left (assign key i m)
unfolding distribute_loop
loop-some left m key i e = rw (e, distribute_loop) refl

module _ (who : ℕ) (what : Event) where
  distribute_loop-Changes :
      (left : ℕ) (m : Master) → Changes who what m.book (distribute_loop left m).book
  distribute_loop-Changes zero m = unfold distribute_loop in Changes.same
  distribute_loop-Changes (suc left) m = elim (Option-cases (next_assignment m)) [
    | inl e ↦ subst (λ m'. Changes who what m.book m'.book) (sym (loop-none left m e)) Changes.same
    | inr ((key, i), e) ↦
        subst (λ m'. Changes who what m.book m'.book) (sym (loop-some left m key i e))
          (join
            (assign-Changes who what key i m (
              chosen-first (first_waiting m.book.retry_tasks m.book.new_tasks) m key i
                (next_chosen m ∙ e)))
            (distribute_loop-Changes left (assign key i m)))
  ]

  pub distribute-Changes : (m : Master) → Changes who what m.book (distribute m).book
  unfolding distribute
  distribute-Changes m = elim (Bool-cases (not (length m.worker_ids == 4) || not (all_ready m))) [
    | inl e ↦ rw e Changes.same
    | inr e ↦ elim (Bool-cases (not (no_check m))) [
      | inl e' ↦ rw (e, e') Changes.same
      | inr e' ↦
          rw (e, e')
            (distribute_loop-Changes (length m.book.retry_tasks + length m.book.new_tasks) m)
    ]
  ]

  pub update_queue-LeadsTo :
      (i size version : ℕ) (request_id : Option ℕ) (m : Master)
      → LeadsTo who what m.book (update_queue i size version request_id m)
  unfolding update_queue
  update_queue-LeadsTo i size version request_id m = elim (Bool-cases (leb size 10)) [
    | inl e ↦ rw e Changes.same
    | inr e ↦ rw e tt
  ]

is_num-some : (o : Option ℕ) (i : ℕ) → is_num o i ≡ true → o ≡ some i
is_num-some none i h = absurd (ground (arith, h))
is_num-some (some j) i h = ap some (==→eq j i h)

-- What the tests of a handler show of a task.
pub owned :
    (i key attempt : ℕ) (b : Book)
    → elem key b.keys ≡ true
    → is_num (b.tasks key).owner i ≡ true
    → ((b.tasks key).attempt == attempt) ≡ true
    → Owns i key attempt b
owned i key attempt b there owner times =
    (there, is_num-some (b.tasks key).owner i owner, ==→eq (b.tasks key).attempt attempt times)

confirm-Changes :
    (i key attempt request_id message_id : ℕ) (m : Master)
    → Owns i key attempt m.book
    → is_sent (m.book.tasks key).state ≡ true
    → (m.book.tasks key).request_id ≡ request_id
    → Changes i (Event.accepts key attempt request_id) m.book (confirm i key message_id m).book
unfolding confirm
confirm-Changes i key attempt request_id message_id m owns is named =
    subst (Changes i (Event.accepts key attempt request_id) m.book)
      (sym (
        send-book i (Message.task_confirmed message_id key (m.book.tasks key).attempt m.clock)
          (Assign.accepted_by i key m)))
      (one (Change.taken key attempt request_id m.clock owns is named))

answered :
    (is_accepted : Bool) (i key attempt request_id message_id : ℕ) (m : Master)
    → Owns i key attempt m.book
    → is_sent (m.book.tasks key).state ≡ true
    → (m.book.tasks key).request_id ≡ request_id
    → Changes i
        (answer_of is_accepted key attempt request_id)
        m.book
        (if is_accepted then confirm i key message_id m else decline i key m).book
answered true i key attempt request_id message_id m owns is named =
    confirm-Changes i key attempt request_id message_id m owns is named
answered false i key attempt request_id message_id m owns is named =
    one (Change.declined key attempt request_id owns is named)

acknowledge-LeadsTo :
    (i key attempt request_id message_id : ℕ) (is_accepted : Bool) (m : Master)
    → LeadsTo i
        (answer_of is_accepted key attempt request_id)
        m.book
        (acknowledge i key attempt request_id message_id is_accepted m)
unfolding acknowledge
acknowledge-LeadsTo i key attempt request_id message_id is_accepted m =
    LeadsTo-guard i (answer_of is_accepted key attempt request_id) m.book
      (not (elem key m.book.keys)) _ (λ there. current there)
  where
    t : Task
    t = m.book.tasks key

    current :
        not (elem key m.book.keys) ≡ false
        → LeadsTo i (answer_of is_accepted key attempt request_id) m.book (
            if not (is_num t.owner i) || not (t.attempt == attempt) || not (is_sent t.state)
            then some m
            else if not (request_id == t.request_id)
            then none
            else some (if is_accepted then confirm i key message_id m else decline i key m))
    current there =
        elim (Bool-cases
          (not (is_num t.owner i) || not (t.attempt == attempt) || not (is_sent t.state))) [
            | inl e ↦ rw e Changes.same
            | inr e ↦ rw e (
                LeadsTo-guard i (answer_of is_accepted key attempt request_id) m.book
                  (not (request_id == t.request_id)) _
                  (λ named.
                    answered is_accepted i key attempt request_id message_id m
                      (owned i key attempt m.book (ground (arith, there)) (ground (arith, e))
                        (ground (arith, e)))
                      (ground (arith, e))
                      (sym (==→eq request_id t.request_id (ground (arith, named))))))
          ]

pub task_ack-LeadsTo :
    (i key attempt request_id message_id : ℕ) (is_accepted : Bool) (size version : ℕ) (m : Master)
    → LeadsTo i
        (answer_of is_accepted key attempt request_id)
        m.book
        (Assign.task_ack i key attempt request_id message_id is_accepted size version m)
unfolding Assign.task_ack
task_ack-LeadsTo i key attempt request_id message_id is_accepted size version m =
    LeadsTo-bind i (answer_of is_accepted key attempt request_id) m.book
      (update_queue i size version (some request_id) m)
      (acknowledge i key attempt request_id message_id is_accepted)
      (update_queue-LeadsTo i (answer_of is_accepted key attempt request_id) i size version
        (some request_id) m)
      (acknowledge-LeadsTo i key attempt request_id message_id is_accepted)
