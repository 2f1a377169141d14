-- ===== src/Master/Assign.antt =====
-- HW1/master.py: `update_queue`, `queue_load`, `choose_worker`, `distribute` and `task_ack`.
use data_communication.Prelude.{
  ℕ, zero, suc, ◌+◌, ◌-◌, ◌%◌, Bool, true, false, ◌&&◌, ◌||◌, not, Option, none, some, List, [],
  ◌∷◌, ◌++◌, length, keep_if, elem, insert, is_some, is_num, all_of, ltb, leb, ◌==◌, if◌then◌else◌,
}
use data_communication.Master.State.{
  Master, Book, Task, TaskState, Worker, Message, is_sent, is_accepted, on_worker, on_task,
  with_book,
}
use data_communication.Master.Clock.{send}

infixl 5 ◌>>=◌
abbrev pub ◌>>=◌ : {A B : Type 0} → Option A → (A → Option B) → Option B
none >>= f = none
some a >>= f = f a

-- `version > worker["queue_version"]`, which is -1 at first.
abbrev pub is_newer : ℕ → Option ℕ → Bool
is_newer version none = true
is_newer version (some old) = ltb old version

-- `confirmed_id == request_id` of an entry of `pending`, for a request id that is there.
abbrev pub is_confirmed : Option ℕ → ℕ × Option ℕ → Bool
is_confirmed none entry = false
is_confirmed (some request_id) entry = is_num entry.1 request_id

abbrev pub report_queue : ℕ → ℕ → Option ℕ → Worker → Worker
report_queue size version request_id w = record w {
  queue_size = if is_newer version w.queue_version then size else w.queue_size;
  queue_version = if is_newer version w.queue_version then some version else w.queue_version;
  pending = keep_if (λ entry. not (is_confirmed request_id entry)) w.pending;
}

unfoldable pub update_queue : ℕ → ℕ → ℕ → Option ℕ → Master → Option Master
update_queue i size version request_id m =
    if leb size 10 then some (on_worker i (report_queue size version request_id) m) else none

abbrev pub queue_load : Worker → ℕ
queue_load w = w.queue_size + length w.pending

-- The workers that may take a task, from the one after `last_worker` on.
abbrev pub may_take : Option ℕ → (ℕ → Worker) → ℕ → Bool
may_take excluded workers i = not (is_num excluded i) && ltb (queue_load (workers i)) 10

abbrev pub turn : ℕ → ℕ → ℕ
turn last offset = (last + offset - 1) % 4 + 1

abbrev pub candidates : Option ℕ → ℕ → (ℕ → Worker) → List ℕ
candidates excluded last workers =
    keep_if (may_take excluded workers) (turn last 1 ∷ turn last 2 ∷ turn last 3 ∷ turn last 4 ∷ [])

-- `min(candidates, key=queue_load)`: the first one of the least load.
unfoldable pub least_loaded : (ℕ → Worker) → List ℕ → Option ℕ
least_loaded workers [] = none
least_loaded workers (i ∷ is) = elim (least_loaded workers is) [
  | none ↦ some i
  | some j ↦ if leb (queue_load (workers i)) (queue_load (workers j)) then some i else some j
]

unfoldable pub choose_worker : Option ℕ → Master → Option ℕ
unfolding least_loaded
choose_worker excluded m = least_loaded m.workers (candidates excluded m.last_worker m.workers)

-- `waiting[0]` of `retry_tasks`, or else of `new_tasks`; and `waiting.popleft()`.
abbrev pub first_waiting : List ℕ → List ℕ → Option ℕ
first_waiting (key ∷ retry) new = some key
first_waiting [] (key ∷ new) = some key
first_waiting [] [] = none

abbrev pub tail : List ℕ → List ℕ
tail [] = []
tail (x ∷ xs) = xs

abbrev pub pop_waiting : Book → Book
pop_waiting b =
    if length b.retry_tasks == 0
    then record b { new_tasks = tail b.new_tasks }
    else record b { retry_tasks = tail b.retry_tasks }

abbrev pub give : ℕ → Task → Task
give i t = record t {
  attempt = t.attempt + 1;
  owner = some i;
  state = TaskState.sent;
  waiting_time = 0;
}

abbrev pub number : ℕ → Task → Task
number request_id t = record t { request_id = request_id }

-- The body of the loop of `distribute`, for the task `key` and the worker `i`: up to `send`, what is
-- sent, and all of it.
abbrev pub given : ℕ → ℕ → Master → Master
given key i m =
    record (on_worker i (λ w. record w { pending = insert key none w.pending })
      (with_book (λ b. on_task key (give i) (pop_waiting b)) m)) { last_worker = i }

abbrev pub task_message : ℕ → Task → Message
task_message key t = Message.task key t.value t.attempt (ltb 1 t.attempt) (is_some t.failed_worker)

unfoldable pub assign : ℕ → ℕ → Master → Master
unfolding send
assign key i m =
    let m1 = given key i m in
    let sent = send i (task_message key (m1.book.tasks key)) m1 in
    with_book (on_task key (number sent.1)) sent.0

abbrev pub pair_with : ℕ → Option ℕ → Option (ℕ × ℕ)
pair_with key none = none
pair_with key (some i) = some (key, i)

abbrev pub chosen : Option ℕ → Master → Option (ℕ × ℕ)
chosen none m = none
chosen (some key) m = pair_with key (choose_worker (m.book.tasks key).failed_worker m)

-- The next task and its worker, or that the loop ends.
unfoldable pub next_assignment : Master → Option (ℕ × ℕ)
unfolding choose_worker
next_assignment m = chosen (first_waiting m.book.retry_tasks m.book.new_tasks) m

-- The loop; each round takes one of the waiting tasks.
unfoldable pub distribute_loop : ℕ → Master → Master
unfolding next_assignment assign
distribute_loop zero m = m
distribute_loop (suc left) m = elim (next_assignment m) [
  | none ↦ m
  | some (key, i) ↦ distribute_loop left (assign key i m)
]

abbrev pub all_ready : Master → Bool
all_ready m = all_of (λ i. (m.workers i).ready) m.worker_ids

abbrev pub no_check : Master → Bool
no_check m = all_of (λ i. not (is_some (m.workers i).check_request)) m.worker_ids

unfoldable pub distribute : Master → Master
unfolding distribute_loop
distribute m =
    if not (length m.worker_ids == 4) || not (all_ready m)
    then m
    else if not (no_check m)
    then m
    else distribute_loop (length m.book.retry_tasks + length m.book.new_tasks) m

abbrev pub accept : ℕ → Task → Task
accept at t = record t { state = TaskState.accepted; enqueued_at = at }

-- The end of `task_ack` for an accepted task, up to `send` and all of it, and for one that was not.
abbrev pub accepted_by : ℕ → ℕ → Master → Master
accepted_by i key m =
    on_worker i
      (λ w. record w {
        reassignments =
            if is_some (m.book.tasks key).failed_worker
            then w.reassignments + 1
            else w.reassignments;
      })
      (with_book (on_task key (accept m.clock)) m)

unfoldable pub confirm : ℕ → ℕ → ℕ → Master → Master
unfolding send
confirm i key message_id m =
    let attempt = (m.book.tasks key).attempt in
    let sent =
      send i (Message.task_confirmed message_id key attempt m.clock) (accepted_by i key m) in
    on_worker i (λ w. record w { pending = insert key (some sent.1) w.pending }) sent.0

abbrev pub wait_again : Task → Task
wait_again t = record t { state = TaskState.waiting; owner = none }

abbrev pub take_back : ℕ → Book → Book
take_back key b = record (on_task key wait_again b) { retry_tasks = b.retry_tasks ++ key ∷ [] }

abbrev pub decline : ℕ → ℕ → Master → Master
decline i key m =
    with_book (take_back key) (
      on_worker i (λ w. record w { pending = keep_if (λ entry. not (entry.0 == key)) w.pending }) m)

-- `task_ack` after `update_queue`.
unfoldable pub acknowledge : ℕ → ℕ → ℕ → ℕ → ℕ → Bool → Master → Option Master
unfolding confirm
acknowledge i key attempt request_id message_id is_accepted m =
    let t = m.book.tasks key in
    if not (elem key m.book.keys)
    then none
    else if not (is_num t.owner i) || not (t.attempt == attempt) || not (is_sent t.state)
    then some m
    else if not (request_id == t.request_id)
    then none
    else some (if is_accepted then confirm i key message_id m else decline i key m)

unfoldable pub task_ack : ℕ → ℕ → ℕ → ℕ → ℕ → Bool → ℕ → ℕ → Master → Option Master
unfolding update_queue acknowledge
task_ack i key attempt request_id message_id is_accepted size version m = do
  m' ← update_queue i size version (some request_id) m
  acknowledge i key attempt request_id message_id is_accepted m'
