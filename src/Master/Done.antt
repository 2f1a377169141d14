-- ===== src/Master/Done.antt =====
-- HW1/master.py: what happens to tasks that are done, and when the Master stops.
use data_communication.Prelude.{
  ℕ, ◌+◌, ◌<◌, ◌≡◌, refl, ap, subst, ◌∙◌, inl, inr, Bool, true, false, some, List, [], ◌∷◌, length,
  ◌==◌, ==→eq, Bool-cases, arith,
}
use data_communication.Master.State.{Master, Book, is_done}
use data_communication.Master.Life.{Event, Change, Changes}
use data_communication.Master.Assign.{first_waiting, pop_waiting}
use data_communication.Master.Transfer.{no_twice}
use data_communication.Master.Receive.{Kind, round}
use data_communication.Master.Balance.{count, IsBalanced, Changes-IsBalanced}
use data_communication.Master.Rounds.{Run, Run-IsBalanced, round-Changes}

-- What a step of another task, or of one that is not done, leaves of the task `k`.
abbrev pub StaysDone : ℕ → Book → Book → Type 0
StaysDone k b b' = (b'.tasks k ≡ b.tasks k) × (b'.completed k ≡ b.completed k)

-- A task that is not done is another one than `k`, which is.
other_task :
    (k key : ℕ) (b : Book)
    → is_done (b.tasks k).state ≡ true
    → is_done (b.tasks key).state ≡ false
    → (key == k) ≡ false
other_task k key b done undone = elim (Bool-cases (key == k)) [
  | inl same ↦ absurd (
      ground
        (arith, subst (λ j. is_done (b.tasks j).state ≡ false) (==→eq key k same) undone, done))
  | inr other ↦ other
]

first_waiting-queued :
    (key : ℕ) (retry new : List ℕ)
    → first_waiting retry new ≡ some key
    → 0 < count key new + count key retry
unfolding count
first_waiting-queued key [] [] e = absurd (ground (arith, e))
first_waiting-queued key (x ∷ retry) new e = ground (arith, e)
first_waiting-queued key [] (x ∷ new) e = ground (arith, e)

-- The next task to give is not done.
first_waiting-undone :
    (keys : List ℕ) (values : ℕ → ℕ) (key : ℕ) (b : Book)
    → IsBalanced keys values b
    → first_waiting b.retry_tasks b.new_tasks ≡ some key
    → is_done (b.tasks key).state ≡ false
first_waiting-undone keys values key b v e =
    ground (arith, (v.1 key).0, first_waiting-queued key b.retry_tasks b.new_tasks e)

pop-StaysDone : (k : ℕ) (b : Book) → StaysDone k b (pop_waiting b)
pop-StaysDone k b = elim (Bool-cases (length b.retry_tasks == 0)) [
  | inl e ↦ rw e (refl, refl)
  | inr e ↦ rw e (refl, refl)
]

module _ (keys : List ℕ) (values : ℕ → ℕ) (k : ℕ) where
  Change-StaysDone :
      {i : ℕ} {e : Event} {b b' : Book}
      → Change i b e b'
      → IsBalanced keys values b
      → is_done (b.tasks k).state ≡ true
      → StaysDone k b b'
  Change-StaysDone {b} (Change.assigned key j h) v done =
      rw (other_task k key b done (first_waiting-undone keys values key b v h)) (pop-StaysDone k b)
  Change-StaysDone {b} (Change.numbered key request_id s) v done =
      rw (other_task k key b done (ground (arith, s))) (refl, refl)
  Change-StaysDone {b} (Change.taken key attempt request_id at owns s named) v done =
      rw (other_task k key b done (ground (arith, s))) (refl, refl)
  Change-StaysDone {b} (Change.declined key attempt request_id owns s named) v done =
      rw (other_task k key b done (ground (arith, s))) (refl, refl)
  Change-StaysDone {b} (Change.started key attempt now duration owns s limits) v done =
      rw (other_task k key b done (ground (arith, s))) (refl, refl)
  Change-StaysDone {b} (Change.ended key attempt duration at owns s) v done =
      rw (other_task k key b done (ground (arith, s))) (refl, refl)
  Change-StaysDone {b} (Change.succeeded key attempt value owns (runs, undone) named) v done =
      rw (other_task k key b done undone) (refl, refl)
  Change-StaysDone {b} (Change.failed key attempt value owns (runs, undone) named) v done =
      rw (other_task k key b done undone) (refl, refl)
  Change-StaysDone {b} (Change.moved key attempt target items started_at arrived_at listed owns s) v
        done =
      rw (other_task k key b done (ground (arith, s))) (refl, refl)

  Changes-StaysDone :
      {i : ℕ} {e : Event} {b b' : Book}
      → Changes i e b b'
      → IsBalanced keys values b
      → is_done (b.tasks k).state ≡ true
      → StaysDone k b b'
  Changes-StaysDone Changes.same v done = (refl, refl)
  Changes-StaysDone (Changes.then cs c) v done =
      let before = Changes-StaysDone cs v done in
      let after =
        Change-StaysDone c (Changes-IsBalanced keys values cs v)
          (ap (λ t. is_done t.state) before.0 ∙ done) in
      (after.0 ∙ before.0, after.1 ∙ before.1)

-- A task that is done in a state that the Master reaches is just as it was after any further message,
-- and its result is the value it began with.
pub done_stays :
    {keys : List ℕ} {values : ℕ → ℕ} {m m' : Master} (k i message_id : ℕ) (is_addressed : Bool)
    (kind : Kind)
    → no_twice keys ≡ true
    → Run keys values m
    → round i message_id is_addressed kind m ≡ some m'
    → is_done (m.book.tasks k).state ≡ true
    → (m'.book.tasks k ≡ m.book.tasks k) × (m'.book.completed k ≡ some (values k))
done_stays {keys} {values} {m} {m'} k i message_id is_addressed kind once run e done =
    let v = Run-IsBalanced once run in
    let stays =
      Changes-StaysDone keys values k (round-Changes m m' i message_id is_addressed kind e) v
        done in
    (stays.0, stays.1 ∙ (v.1 k).2 ∙ ground (arith, done))
