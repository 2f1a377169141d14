-- ===== src/Master/Life.antt =====
-- HW1/master.py: the life of a task as the book of the Master records it, one step at a time.
use data_communication.Prelude.{ℕ, ◌≡◌, ◌⊎◌, ◌≤◌, Bool, true, false, some, List, [], ◌∷◌, elem}
use data_communication.Master.State.{
  Book, TaskState, is_waiting, is_sent, is_accepted, is_done, on_task,
}
use data_communication.Master.Assign
use data_communication.Master.Assign.{first_waiting, pop_waiting}
use data_communication.Master.Process
use data_communication.Master.Process.{ResultStatus, finish_task, retry_task}
use data_communication.Master.Transfer.{move_task}

-- What a worker says of its tasks: that it accepts or declines the request for a task, that it starts one,
-- that one succeeded or failed, and that it moves some to another worker; or nothing of this kind.
pub data Event : Type 0 where
  accepts declines : (key attempt request_id : ℕ) → Event
  starts : (key attempt duration : ℕ) → Event
  succeeds fails : (key attempt value : ℕ) → Event
  moves : (target : ℕ) (items : List (ℕ × ℕ)) → Event
  nothing : Event

abbrev pub answer_of : Bool → ℕ → ℕ → ℕ → Event
answer_of true key attempt request_id = Event.accepts key attempt request_id
answer_of false key attempt request_id = Event.declines key attempt request_id

abbrev pub outcome_of : ResultStatus → ℕ → ℕ → ℕ → Event
outcome_of ResultStatus.success key attempt value = Event.succeeds key attempt value
outcome_of ResultStatus.fail key attempt value = Event.fails key attempt value
outcome_of ResultStatus.other key attempt value = Event.nothing

-- In the book, worker `i` owns the task `key`, which is given for the time `attempt`.
abbrev pub Owns : ℕ → ℕ → ℕ → Book → Type 0
Owns i key attempt b =
    (elem key b.keys ≡ true) × ((b.tasks key).owner ≡ some i) × ((b.tasks key).attempt ≡ attempt)

abbrev pub Listed : ℕ × ℕ → List (ℕ × ℕ) → Type 0
Listed a [] = ⊥
Listed a (item ∷ items) = (a ≡ item) ⊎ Listed a items

-- The task is given to a worker and not done.
abbrev pub IsOpen : ℕ → Book → Type 0
IsOpen key b = (is_waiting (b.tasks key).state ≡ false) × (is_done (b.tasks key).state ≡ false)

-- What may happen to a book when worker `i` says something. Whatever it says, the next waiting task may be
-- given to a worker, and the request for a task that was sent gets its number. Else only what the worker
-- says happens, and only to a task that it owns, which has the attempt that the worker names: the request
-- for the task, by its number, is accepted or declined; an accepted task starts, for 1 to 3 seconds, and ends; an open
-- task of the named value succeeds or fails; and a listed task that is accepted moves.
pub data Change (i : ℕ) (b : Book) : Event → Book → Type 0 where
  assigned :
      {e : Event} (key j : ℕ)
      → first_waiting b.retry_tasks b.new_tasks ≡ some key
      → Change i b e (on_task key (Assign.give j) (pop_waiting b))
  numbered :
      {e : Event} (key request_id : ℕ)
      → is_sent (b.tasks key).state ≡ true
      → Change i b e (on_task key (Assign.number request_id) b)
  taken :
      (key attempt request_id at : ℕ)
      → Owns i key attempt b
      → is_sent (b.tasks key).state ≡ true
      → (b.tasks key).request_id ≡ request_id
      → Change i b (Event.accepts key attempt request_id) (on_task key (Assign.accept at) b)
  declined :
      (key attempt request_id : ℕ)
      → Owns i key attempt b
      → is_sent (b.tasks key).state ≡ true
      → (b.tasks key).request_id ≡ request_id
      → Change i b (Event.declines key attempt request_id) (Assign.take_back key b)
  started :
      (key attempt now duration : ℕ)
      → Owns i key attempt b
      → is_accepted (b.tasks key).state ≡ true
      → (1 ≤ duration) × (duration ≤ 3)
      → Change i b (Event.starts key attempt duration) (on_task key (Process.start now duration) b)
  ended :
      (key attempt duration at : ℕ)
      → Owns i key attempt b
      → (b.tasks key).state ≡ TaskState.processing
      → Change i b (Event.starts key attempt duration) (on_task key (Process.finish_at at) b)
  succeeded :
      (key attempt value : ℕ)
      → Owns i key attempt b
      → IsOpen key b
      → (b.tasks key).value ≡ value
      → Change i b (Event.succeeds key attempt value) (finish_task key b)
  failed :
      (key attempt value : ℕ)
      → Owns i key attempt b
      → IsOpen key b
      → (b.tasks key).value ≡ value
      → Change i b (Event.fails key attempt value) (retry_task i key b)
  moved :
      (key attempt target : ℕ) (items : List (ℕ × ℕ)) (started_at arrived_at : ℕ)
      → Listed (key, attempt) items
      → Owns i key attempt b
      → is_accepted (b.tasks key).state ≡ true
      → Change i b
          (Event.moves target items)
          (on_task key (move_task target started_at arrived_at) b)

pub data Changes (i : ℕ) (e : Event) (b : Book) : Book → Type 0 where
  same : Changes i e b b
  then : {b' b'' : Book} → Changes i e b b' → Change i b' e b'' → Changes i e b b''

pub one : {i : ℕ} {e : Event} {b b' : Book} → Change i b e b' → Changes i e b b'
one c = Changes.then Changes.same c

pub join : {i : ℕ} {e : Event} {a b c : Book} → Changes i e a b → Changes i e b c → Changes i e a c
join first Changes.same = first
join first (Changes.then rest c) = Changes.then (join first rest) c
