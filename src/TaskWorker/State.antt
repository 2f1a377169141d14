-- ===== src/TaskWorker/State.antt =====
-- HW1/worker.py: the state of `Worker`. A key or an id stands for its text, and a time is a number of
-- seconds: the Master adds up whole costs only. A fault is an exception, which ends the worker.
use data_communication.Prelude.{ℕ, suc, Bool, false, Option, none, List, [], Dict}
use data_communication.ReadyQueue.State
use data_communication.ReadyQueue.State.{WorkerTask, ReadyQueue}

-- A task that was accepted and that the Master has not confirmed yet.
pub record Pending : Type 0 where
  pub key : ℕ
  pub value : ℕ
  pub attempt : ℕ
  pub failed_retry : Bool

pub record TaskWorker : Type 0 where
  pub ready_queue : ReadyQueue
  pub pending_tasks : Dict Pending
  pub incoming_slots : ℕ
  pub storage : Dict ℕ
  pub failure_count : ℕ
  pub processing_count : ℕ
  pub total_waiting_time : ℕ
  pub p2p_events : List ℕ
  pub reassignments : List (ℕ × ℕ)
  pub clock : ℕ
  pub current_task : Option WorkerTask
  pub processing_time : Option ℕ
  pub process_request_id : Option ℕ
  pub outgoing_transfers : List ℕ
  pub message_number : ℕ
  pub running : Bool
  pub ready : Bool
  pub stopping : Bool
  pub closing : Bool
  pub p2p_failed : Bool

pub data Fault : Type 0 where
  bad_field mismatch late no_room wrong_time early_start other_wait other_value no_reservation
        closed :
      Fault

abbrev pub init : TaskWorker
init = record {
  ready_queue = State.init 10;
  pending_tasks = [];
  incoming_slots = 0;
  storage = [];
  failure_count = 0;
  processing_count = 0;
  total_waiting_time = 0;
  p2p_events = [];
  reassignments = [];
  clock = 0;
  current_task = none;
  processing_time = none;
  process_request_id = none;
  outgoing_transfers = [];
  message_number = 0;
  running = false;
  ready = false;
  stopping = false;
  closing = false;
  p2p_failed = false;
}

-- `create_message`: the id of the next message is the number after this one.
abbrev pub create_message : TaskWorker → TaskWorker
create_message w = record w { message_number = suc w.message_number }
