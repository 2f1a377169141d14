-- ===== src/Master/State.antt =====
-- HW1/master.py: the state of the Master. Times are whole seconds: all costs that the code adds up are
-- whole. A key stands for its four hexadecimal digits, a message id for its text. `none` of a handler
-- is an exception, which ends the program. The fields of the messages have their types, and a request
-- id of a message is never null.
use data_communication.Prelude.{ℕ, Bool, true, false, Option, none, List, [], Dict, update}

pub data TaskState : Type 0 where
  waiting sent accepted processing done : TaskState

pub record Task : Type 0 where
  pub value : ℕ
  pub attempt : ℕ
  pub state : TaskState
  pub owner : Option ℕ
  pub failed_worker : Option ℕ
  pub waiting_time : ℕ
  pub request_id : ℕ
  pub enqueued_at : ℕ
  pub started_at : ℕ
  pub processing_time : Option ℕ
  pub finished_at : ℕ

-- A P2P check that is under way: `"SENDING"`, or the id of the request.
pub data Check : Type 0 where
  sending : Check
  request : ℕ → Check

pub record Worker : Type 0 where
  pub ready : Bool
  pub queue_size : ℕ
  pub queue_version : Option ℕ
  pub pending : Dict (Option ℕ)
  pub success : ℕ
  pub fail : ℕ
  pub waiting : ℕ
  pub reassignments : ℕ
  pub p2p_events : ℕ
  pub active : Option ℕ
  pub next_check : Option ℕ
  pub check_due : Bool
  pub check_at : Option ℕ
  pub check_request : Option Check
  pub stop_request : Option ℕ
  pub stats_at : Option ℕ

-- What the Master sends.
pub data Message : Type 0 where
  task : (key value attempt : ℕ) (is_retry failed_retry : Bool) → Message
  task_confirmed : (request_id key attempt enqueued_at : ℕ) → Message
  process_ack : (request_id key attempt started_at finished_at waiting_time : ℕ) → Message
  p2p_check : (scheduled_at : Option ℕ) → Message
  time_ack : (request_id transfer_id : ℕ) (is_send : Bool) (event_at : ℕ) → Message
  transfer_confirmed :
      (request_id transfer_id : ℕ) (tasks : List (ℕ × ℕ)) (transfer_started_at new_enqueued_at : ℕ)
      → Message
  stop : (work_completed_at total_execution_time : ℕ) → Message

pub record Sent : Type 0 where
  pub receiver : ℕ
  pub message_id : ℕ
  pub clock : ℕ
  pub message : Message

-- What the Master knows of the tasks: `keys` are those of `self.original`.
pub record Book : Type 0 where
  pub keys : List ℕ
  pub tasks : ℕ → Task
  pub new_tasks : List ℕ
  pub retry_tasks : List ℕ
  pub completed : ℕ → Option ℕ

pub record TransferTime : Type 0 where
  pub source : ℕ
  pub target : ℕ
  pub started_at : ℕ
  pub request_id : Option Check
  pub arrived_at : Option ℕ

-- The source, the target and the sorted items.
abbrev pub Signature : Type 0
Signature = ℕ × ℕ × List (ℕ × ℕ)

-- `worker_ids` are the keys of `self.workers` in their order; `draws` is the random generator, of which
-- `drawn` numbers were taken; `outbox` is what was sent, the last first.
pub record Master : Type 0 where
  pub book : Book
  pub workers : ℕ → Worker
  pub worker_ids : List ℕ
  pub transfers : Dict Signature
  pub seen_messages : List (ℕ × ℕ)
  pub peer_messages : List ℕ
  pub transfer_times : Dict TransferTime
  pub clock : ℕ
  pub last_worker : ℕ
  pub message_number : ℕ
  pub stopping : Bool
  pub completed_at : Option ℕ
  pub draws : ℕ → ℕ
  pub drawn : ℕ
  pub outbox : List Sent

abbrev pub new_task : ℕ → Task
new_task value = record {
  value = value;
  attempt = 0;
  state = TaskState.waiting;
  owner = none;
  failed_worker = none;
  waiting_time = 0;
  request_id = 0;
  enqueued_at = 0;
  started_at = 0;
  processing_time = none;
  finished_at = 0;
}

-- What `register_worker` stores.
abbrev pub new_worker : Worker
new_worker = record {
  ready = false;
  queue_size = 0;
  queue_version = none;
  pending = [];
  success = 0;
  fail = 0;
  waiting = 0;
  reassignments = 0;
  p2p_events = 0;
  active = none;
  next_check = none;
  check_due = false;
  check_at = none;
  check_request = none;
  stop_request = none;
  stats_at = none;
}

-- The random tasks.
abbrev pub new_book : List ℕ → (ℕ → ℕ) → Book
new_book keys values = record {
  keys = keys;
  tasks = λ k. new_task (values k);
  new_tasks = keys;
  retry_tasks = [];
  completed = λ k. none;
}

-- The Master with its random tasks, once four workers are registered in the order `ids`.
abbrev pub init : List ℕ → (ℕ → ℕ) → (ℕ → ℕ) → List ℕ → ℕ → Master
init keys values draws ids clock = record {
  book = new_book keys values;
  workers = λ i. new_worker;
  worker_ids = ids;
  transfers = [];
  seen_messages = [];
  peer_messages = [];
  transfer_times = [];
  clock = clock;
  last_worker = 0;
  message_number = 0;
  stopping = false;
  completed_at = none;
  draws = draws;
  drawn = 0;
  outbox = [];
}

abbrev pub is_waiting : TaskState → Bool
is_waiting TaskState.waiting = true
is_waiting _ = false

abbrev pub is_sent : TaskState → Bool
is_sent TaskState.sent = true
is_sent _ = false

abbrev pub is_accepted : TaskState → Bool
is_accepted TaskState.accepted = true
is_accepted _ = false

abbrev pub is_done : TaskState → Bool
is_done TaskState.done = true
is_done _ = false

-- A change of one worker, and of one task.
abbrev pub on_worker : ℕ → (Worker → Worker) → Master → Master
on_worker i f m = record m { workers = update m.workers i (f (m.workers i)) }

abbrev pub on_task : ℕ → (Task → Task) → Book → Book
on_task key f b = record b { tasks = update b.tasks key (f (b.tasks key)) }

abbrev pub with_book : (Book → Book) → Master → Master
with_book f m = record m { book = f m.book }
