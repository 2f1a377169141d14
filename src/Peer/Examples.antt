-- ===== src/Peer/Examples.antt =====
-- A transfer of one task, and the theorems applied to it.
use data_communication.Prelude.{
  ℕ, ◌≤◌, ◌≡◌, refl, false, none, some, List, [], ◌∷◌, map, length, ◌⊎◌, inr,
}
use data_communication.Peer.Values
use data_communication.Peer.Values.{Value, text, int, truth}
use data_communication.Peer.Clean
use data_communication.Peer.Clean.{RawTasks, tasks, dict, CleanTask}
use data_communication.Peer.Cleaned.{AreClean}
use data_communication.Peer.Again.{to_raw, clean_tasks-AreClean}
use data_communication.Peer.Transfers
use data_communication.Peer.Transfers.{Answer, Node, init}
use data_communication.Peer.Once.{Step, Reach, IsSound, handed_on_once}
use data_communication.Peer.Target.{
  Answers, find_transfer_target, IsFair, find_transfer_target-IsFair,
}
use data_communication.Peer.Handler.{
  Request, handle_request, kind_transfer, TakesNew, handle_request-TakesNew,
}

-- One task, its key in lower case and its times left to their defaults where they have any.
abbrev raw : RawTasks
raw = tasks (
    dict (record {
      key = some (text (b'0' ∷ b'a' ∷ b'f' ∷ b'9' ∷ []));
      value = some (int 42);
      attempt = some (int 1);
      enqueued_at = some (int 3);
      accumulated_waiting_time = none;
      failed_retry = none;
    })
    ∷ [])

abbrev cleaned : List CleanTask
cleaned =
    record {
      key = b'0' ∷ b'A' ∷ b'F' ∷ b'9' ∷ [];
      value = 42;
      attempt = 1;
      enqueued_at = 3000;
      accumulated_waiting_time = 0;
      failed_retry = false;
    }
    ∷ []

raw-cleaned : Clean.clean_tasks raw ≡ inr cleaned
unfolding Clean.clean_tasks Values.read_clock
raw-cleaned = refl

clean_tasks-AreClean_example :
    (1 ≤ length cleaned)
    × AreClean [] cleaned
    × (Clean.clean_tasks (tasks (map to_raw cleaned)) ≡ inr cleaned)
clean_tasks-AreClean_example = clean_tasks-AreClean raw cleaned raw-cleaned

-- A transfer that was handed on, and refused, and that arrives again.
abbrev node : Node
node = (Transfers.receive_transfer (Answer.refuses 5) 2 (some 7) raw init).0

node-Reach : Reach (Transfers.receive_transfer (Answer.takes 1) 2 (some 7) raw node).0
node-Reach =
    Reach.next (Reach.next Reach.here (Step.receive (Answer.refuses 5) 2 (some 7) raw))
      (Step.receive (Answer.takes 1) 2 (some 7) raw)

handed_on_once_example : IsSound (Transfers.receive_transfer (Answer.takes 1) 2 (some 7) raw node).0
handed_on_once_example = handed_on_once node-Reach

-- Worker 3 has the shortest queue, worker 4 does not answer.
abbrev answers : Answers
answers = (2, some (6, 9)) ∷ (3, some (2, 4)) ∷ (4, none) ∷ []

three_tasks : (find_transfer_target 9 answers).transfer_count ≡ 3
unfolding find_transfer_target
three_tasks = refl

find_transfer_target-IsFair_example :
    let plan = find_transfer_target 9 answers in IsFair 9 answers (plan.target, plan.transfer_count)
find_transfer_target-IsFair_example = find_transfer_target-IsFair 9 answers

abbrev worker : ℕ → Value
worker c = text (b'W' ∷ b'O' ∷ b'R' ∷ b'K' ∷ b'E' ∷ b'R' ∷ c ∷ [])

abbrev request : Request
request = record {
  header = record {
    kind = text kind_transfer;
    message_id = text (b'm' ∷ []);
    sender = worker b'2';
    receiver = worker b'1';
    clock = int 4;
  };
  transfer_id = text (b't' ∷ []);
  tasks = raw;
}

handle_request-TakesNew_example :
    let n' = (handle_request 1 length (3, 8) (Answer.takes 1) request init).0 in
    (n' ≡ init) ⊎ TakesNew (Answer.takes 1) 1 length request init n'
handle_request-TakesNew_example =
    handle_request-TakesNew 1 length (3, 8) (Answer.takes 1) request init
