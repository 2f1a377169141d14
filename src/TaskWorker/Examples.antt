-- ===== src/TaskWorker/Examples.antt =====
-- A worker with a task that waits to be confirmed and one on its way, and the theorem applied to it.
use data_communication.Prelude.{
  ◌+◌, ◌≤◌, ◌≢◌, refl, inl, true, false, none, List, [], ◌∷◌, insert, length,
}
use data_communication.ReadyQueue.State.{WorkerTask}
use data_communication.TaskWorker.State.{TaskWorker, no_room, init}
use data_communication.TaskWorker.Tasks
use data_communication.TaskWorker.Moves
use data_communication.TaskWorker.Room.{Step, Reach}
use data_communication.TaskWorker.Promise.{room_as_promised}

abbrev incoming : List WorkerTask
incoming =
    record {
      key = 7;
      value = 42;
      attempt = 1;
      enqueued_at = 3;
      reserved_transfer_id = none;
      failed_retry = false;
      accumulated_waiting_time = 2;
    }
    ∷ []

abbrev promising : TaskWorker
promising = record init { incoming_slots = 1 }

abbrev waiting : TaskWorker
waiting = record promising {
  pending_tasks = (1, record { key = 8; value = 5; attempt = 2; failed_retry = true }) ∷ [];
  message_number = 1;
}

waiting-Reach : Reach (waiting, incoming ∷ [])
unfolding Tasks.handle_task Moves.promise_slots insert
waiting-Reach =
    Reach.next (Reach.next Reach.here (Step.promise [] incoming refl))
      (Step.task (incoming ∷ []) 8 5 2 true refl)

room_as_promised_example :
    (length waiting.ready_queue.queue + (length waiting.pending_tasks + waiting.incoming_slots)
      ≤ waiting.ready_queue.max_size)
    × (Tasks.handle_task_confirmed 1 8 2 0 waiting ≢ inl no_room)
    × (Moves.fill_slots 9 3 4 incoming waiting ≢ inl no_room)
room_as_promised_example = room_as_promised [] [] incoming 1 8 2 0 9 3 4 waiting-Reach
