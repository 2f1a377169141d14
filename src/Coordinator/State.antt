-- ===== src/Coordinator/State.antt =====
-- HW3/hw3/coordinator/tables.py: the tables of the Coordinator, and HW3/hw3/common/settings.py.
-- A clock reading is a whole number of milliseconds. A channel is a number, its identity; the field
-- `worker_id` of a channel object is `registered`. `worker.rejoin_record` and `self.rejoins` share
-- one dictionary, so the first is the position of the record in the second.
use Prim.Native.String.{String}
use data_communication.Prelude.{
  ℕ, suc, ◌+◌, Bool, false, Option, none, List, [], ◌∷◌, length, range_from,
}

abbrev pub worker_count : ℕ
worker_count = 10

abbrev pub task_count : ℕ
task_count = 1000

abbrev pub suspect_timeout : ℕ
suspect_timeout = 3000

abbrev pub dead_timeout : ℕ
dead_timeout = 5000

abbrev pub expected_prime_count : ℕ
expected_prime_count = 5761455

-- `range(1, WORKER_COUNT + 1)`, the keys of `workers` in their order.
abbrev pub worker_ids : List ℕ
worker_ids = 1 ∷ 2 ∷ 3 ∷ 4 ∷ 5 ∷ 6 ∷ 7 ∷ 8 ∷ 9 ∷ 10 ∷ []

pub data TaskState : Type 0 where
  pending assigned done : TaskState

pub record Task : Type 0 where
  pub state : TaskState
  pub owner : Option ℕ
  pub epoch : ℕ
  pub value : Option ℕ
  pub commit_count : ℕ
  pub committed_at : Option ℕ

pub data Health : Type 0 where
  alive suspect dead : Health

pub record Worker : Type 0 where
  pub channel : Option ℕ
  pub peer : Option (String × ℕ)
  pub ring_ok : Bool
  pub health : Health
  pub last_hb : ℕ
  pub rejoin_count : ℕ
  pub crash_count : ℕ
  pub rejoin_record : Option ℕ

pub record Rejoin : Type 0 where
  pub worker : ℕ
  pub rejoin_count : ℕ
  pub time : ℕ
  pub first_assign : Option ℕ
  pub first_task : Option ℕ
  pub commits : ℕ

pub record Fault : Type 0 where
  pub worker : ℕ
  pub crash_count : ℕ
  pub time : ℕ
  pub last_hb : ℕ
  pub tasks : List ℕ
  pub to_worker : ℕ

pub data Phase : Type 0 where
  registering ring running : Phase

pub record Tables : Type 0 where
  pub sequence : ℕ
  pub tasks : ℕ → Task
  pub workers : ℕ → Worker
  pub registered : ℕ → Option ℕ
  pub queue : List ℕ
  pub done_count : ℕ
  pub phase : Phase
  pub started_at : Option ℕ
  pub detector_enabled : Bool
  pub faults : List Fault
  pub rejoins : List Rejoin

abbrev pub new_task : Task
new_task = record {
  state = pending;
  owner = none;
  epoch = 0;
  value = none;
  commit_count = 0;
  committed_at = none;
}

abbrev pub new_worker : Worker
new_worker = record {
  channel = none;
  peer = none;
  ring_ok = false;
  health = alive;
  last_hb = 0;
  rejoin_count = 0;
  crash_count = 0;
  rejoin_record = none;
}

-- `Tables.__init__`
abbrev pub init : Tables
init = record {
  sequence = 0;
  tasks = λ _. new_task;
  workers = λ _. new_worker;
  registered = λ _. none;
  queue = range_from 0 task_count;
  done_count = 0;
  phase = registering;
  started_at = none;
  detector_enabled = false;
  faults = [];
  rejoins = [];
}

pub data Reason : Type 0 where
  from_dead already_done stale_epoch : Reason

-- The kind and the fields of an event.
pub data Kind : Type 0 where
  late_hello : ℕ → Kind
  hello : ℕ → String → ℕ → ℕ → Kind
  unexpected_ring_ok : ℕ → Kind
  ring_ok : ℕ → ℕ → Kind
  start : ℕ → Kind
  hb : ℕ → Kind
  back_alive : ℕ → Kind
  not_assignable : ℕ → Kind
  no_task : ℕ → ℕ → Kind
  assign : ℕ → ℕ → ℕ → ℕ → Kind
  result : ℕ → ℕ → ℕ → ℕ → Kind
  reject_stale : Reason → ℕ → ℕ → ℕ → ℕ → Kind
  commit : ℕ → ℕ → ℕ → ℕ → ℕ → ℕ → Kind
  retry_later : ℕ → Kind
  rejoin : ℕ → ℕ → ℕ → Kind
  welcome : ℕ → ℕ → Kind
  suspect : ℕ → ℕ → ℕ → Kind
  dead : ℕ → ℕ → ℕ → ℕ → List ℕ → ℕ → List ℕ → Kind
  takeover : ℕ → ℕ → ℕ → ℕ → ℕ → Kind
  dead_scan : ℕ → ℕ → List ℕ → Kind

pub data Status : Type 0 where
  info warn success : Status

-- The status that each call of `event` gives.
pub status : Kind → Status
status (late_hello _) = warn
status (unexpected_ring_ok _) = warn
status (not_assignable _) = warn
status (reject_stale _ _ _ _ _) = warn
status (start _) = success
status (commit _ _ _ _ _ _) = success
status (rejoin _ _ _) = success
status (takeover _ _ _ _ _) = success
status _ = info

pub record Event : Type 0 where
  pub seq : ℕ
  pub kind : Kind

-- `event`, for a row of calls: each takes the next number.
unfoldable pub stamp : ℕ → List Kind → List Event
stamp n [] = []
stamp n (k ∷ ks) = record { seq = suc n; kind = k } ∷ stamp (suc n) ks

pub data Reply : Type 0 where
  no_task : Reply
  assign : ℕ → ℕ → Reply
  reject_stale : ℕ → Reason → Reply
  ack : ℕ → Reply
  retry_later : Reply
  welcome : Reply

pub record Outcome : Type 0 where
  pub tables : Tables
  pub reply : Option Reply
  pub events : List Event

-- An operation ends in tables `t` with a reply, having called `event` for `ks` in this order.
abbrev pub answer : Tables → Option Reply → List Kind → Outcome
answer t r ks = record {
  tables = record t { sequence = t.sequence + length ks };
  reply = r;
  events = stamp t.sequence ks;
}
