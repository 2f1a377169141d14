-- ===== src/TaskWorker/Room.antt =====
-- HW1/worker.py: the room in the queue of a worker, whatever its threads do in whatever order.
use data_communication.Prelude.{
  ℕ, ◌+◌, ◌≤◌, ◌≡◌, inr, Bool, true, Option, List, [], ◌∷◌, ◌++◌, length,
}
use data_communication.ReadyQueue.State.{WorkerTask}
use data_communication.TaskWorker.State.{TaskWorker, create_message, init}
use data_communication.TaskWorker.Tasks
use data_communication.TaskWorker.Tasks.{has_room}
use data_communication.TaskWorker.Moves

-- The tasks of a thread that waits for their arrival in `_receive_transfer`.
abbrev pub Waiting : Type 0
Waiting = List (List WorkerTask)

unfoldable pub promised : Waiting → ℕ
promised [] = 0
promised (tasks ∷ rest) = length tasks + promised rest

-- One section of one thread. A handler that raises ends the worker; a thread that raises while it waits
-- keeps its places.
pub data Step : TaskWorker × Waiting → TaskWorker × Waiting → Type 0 where
  tick : (w : TaskWorker) (ts : Waiting) (now : ℕ) → Step (w, ts) (record w { clock = now }, ts)
  set_flags :
      (w : TaskWorker) (ts : Waiting) (running ready stopping closing p2p_failed : Bool)
      → Step
          (w, ts)
          (
            record w {
              running = running;
              ready = ready;
              stopping = stopping;
              closing = closing;
              p2p_failed = p2p_failed;
            },
            ts,
          )
  message : (w : TaskWorker) (ts : Waiting) → Step (w, ts) (create_message w, ts)
  task :
      {w w' : TaskWorker} {accepted : Bool} {state : ℕ × ℕ} (ts : Waiting) (key value attempt : ℕ)
      (failed_retry : Bool)
      → Tasks.handle_task key value attempt failed_retry w ≡ inr (w', accepted, state)
      → Step (w, ts) (w', ts)
  confirmed :
      {w w' : TaskWorker} (ts : Waiting) (request_id key attempt enqueued_at : ℕ)
      → Tasks.handle_task_confirmed request_id key attempt enqueued_at w ≡ inr w'
      → Step (w, ts) (w', ts)
  start :
      (w : TaskWorker) (ts : Waiting) (draw : ℕ) → Step (w, ts) (Tasks.start_next_task draw w, ts)
  process_ack :
      {w w' : TaskWorker} (ts : Waiting)
      (request_id key attempt started_at finished_at waiting_time : ℕ) (succeeds : Bool)
      → Tasks.handle_process_ack request_id key attempt started_at finished_at waiting_time succeeds
          w
        ≡ inr w'
      → Step (w, ts) (w', ts)
  promise :
      {w w' : TaskWorker} (ts : Waiting) (incoming : List WorkerTask)
      → Moves.promise_slots incoming w ≡ inr (w', true)
      → Step (w, ts) (w', incoming ∷ ts)
  fill :
      {w w' : TaskWorker} (ts rest : Waiting) (transfer_id started_at arrived_at : ℕ)
      (incoming : List WorkerTask)
      → Moves.fill_slots transfer_id started_at arrived_at incoming w ≡ inr w'
      → Step (w, ts ++ incoming ∷ rest) (w', ts ++ rest)
  transfer_confirmed :
      {w w' : TaskWorker} (ts : Waiting) (transfer_id : ℕ)
      → Moves.handle_transfer_confirmed transfer_id w ≡ inr w'
      → Step (w, ts) (w', ts)
  reserve :
      (w : TaskWorker) (ts : Waiting) (transfer_id : ℕ) (target : Option (ℕ × ℕ))
      → Step (w, ts) ((Moves.reserve_outgoing transfer_id target w).0, ts)
  settle :
      (w : TaskWorker) (ts : Waiting) (transfer_id : ℕ) (accepts : Bool)
      → Step (w, ts) (Moves.settle_outgoing transfer_id accepts w, ts)

pub data Reach : TaskWorker × Waiting → Type 0 where
  here : Reach (init, [])
  next : {s t : TaskWorker × Waiting} → Reach s → Step s t → Reach t

-- All promised places are there: for the tasks that wait to be confirmed, and those on their way.
abbrev pub IsRoomy : TaskWorker × Waiting → Type 0
IsRoomy (w, ts) =
    (w.incoming_slots ≡ promised ts)
    × (length w.ready_queue.queue + (length w.pending_tasks + w.incoming_slots)
        ≤ w.ready_queue.max_size)
