-- ===== src/Peer/Transfers.antt =====
-- HW1/p2p.py: the transfers that a node has received, and its answers. The ids of transfers and
-- messages are numbers that stand for the texts. Each operation runs under `transfer_lock`, the call
-- of `transfer_receiver` included; `calls` notes these calls.
use data_communication.Prelude.{
  ℕ, Bool, true, false, ◌&&◌, ◌||◌, not, Option, none, some, List, [], ◌∷◌, ◌++◌, inl, inr, Dict,
  lookup, insert, elem, ◌==◌, if◌then◌else◌,
}
use data_communication.Wire.Text.{same}
use data_communication.Peer.Values.{P2pError, bad_transfer_id}
use data_communication.Peer.Clean.{RawTasks, CleanTask, clean_tasks}

pub data Status : Type 0 where
  accepted rejected unknown : Status

-- The reasons that the node gives itself, and those of `transfer_receiver`.
pub data Reason : Type 0 where
  other_source other_tasks unfinished no_record : Reason
  given : ℕ → Reason

-- What `transfer_receiver` does: it takes the tasks, it refuses them, or it raises an exception.
pub data Answer : Type 0 where
  takes refuses : ℕ → Answer
  raises : Answer

pub record Receipt : Type 0 where
  pub source_id : ℕ
  pub signature : List CleanTask
  pub status : Status
  pub reason : Reason
  pub response_ids : List ℕ

pub record Call : Type 0 where
  pub transfer_id : ℕ
  pub source_id : ℕ
  pub tasks : List CleanTask
  pub answer : Answer

pub record Node : Type 0 where
  pub received_transfers : Dict Receipt
  pub calls : List Call

abbrev pub init : Node
init = record { received_transfers = []; calls = [] }

pub data Outcome : Type 0 where
  error : P2pError → Outcome
  broken : Outcome
  reply : Status → Reason → List ℕ → Outcome

abbrev pub same_bool : Bool → Bool → Bool
same_bool true b = b
same_bool false b = not b

-- The equality of two signatures, the JSON texts of the tasks.
unfoldable pub same_task : CleanTask → CleanTask → Bool
same_task t u =
    same t.key u.key
    && t.value == u.value
    && t.attempt == u.attempt
    && t.enqueued_at == u.enqueued_at
    && t.accumulated_waiting_time == u.accumulated_waiting_time
    && same_bool t.failed_retry u.failed_retry

unfoldable pub same_tasks : List CleanTask → List CleanTask → Bool
unfolding same_task
same_tasks [] [] = true
same_tasks (t ∷ ts) (u ∷ us) = same_task t u && same_tasks ts us
same_tasks _ _ = false

abbrev pub status_of : Answer → Status
status_of (takes _) = accepted
status_of (refuses _) = rejected
status_of raises = unknown

abbrev pub reason_of : Answer → Reason
reason_of (takes r) = given r
reason_of (refuses r) = given r
reason_of raises = unfinished

-- The answer to a transfer that is known.
abbrev pub known_transfer : ℕ → List CleanTask → Receipt → Outcome
known_transfer sender ts previous =
    if not (previous.source_id == sender)
    then reply rejected other_source []
    else if not (same_tasks previous.signature ts)
    then reply rejected other_tasks []
    else reply previous.status previous.reason []

abbrev pub outcome_of : Answer → Outcome
outcome_of raises = broken
outcome_of (takes r) = reply accepted (given r) []
outcome_of (refuses r) = reply rejected (given r) []

-- A new transfer: the record that is made first is what stays if `transfer_receiver` raises.
abbrev pub new_transfer : Answer → ℕ → ℕ → List CleanTask → Node → Node
new_transfer answer sender id ts n = record {
  received_transfers =
      insert id
        (record {
          source_id = sender;
          signature = ts;
          status = status_of answer;
          reason = reason_of answer;
          response_ids = [];
        })
        n.received_transfers;
  calls = record { transfer_id = id; source_id = sender; tasks = ts; answer = answer } ∷ n.calls;
}

-- `_receive_transfer` of tasks that are clean.
unfoldable pub receive_clean : Answer → ℕ → ℕ → List CleanTask → Node → Node × Outcome
receive_clean answer sender id ts n = elim (lookup id n.received_transfers) [
  | some previous ↦ (n, known_transfer sender ts previous)
  | none ↦ (new_transfer answer sender id ts n, outcome_of answer)
]

-- `_receive_transfer`; `none` is a transfer id that `_read_transfer_id` refuses.
unfoldable pub receive_transfer : Answer → ℕ → Option ℕ → RawTasks → Node → Node × Outcome
receive_transfer answer sender none raw n = (n, error bad_transfer_id)
receive_transfer answer sender (some id) raw n = elim (clean_tasks raw) [
  | inl e ↦ (n, error e)
  | inr ts ↦ receive_clean answer sender id ts n
]

-- `_transfer_status`
unfoldable pub transfer_status : ℕ → Option ℕ → Node → Outcome
transfer_status sender none n = error bad_transfer_id
transfer_status sender (some id) n = elim (lookup id n.received_transfers) [
  | none ↦ reply unknown no_record []
  | some previous ↦
      if not (previous.source_id == sender)
      then reply rejected other_source []
      else reply previous.status previous.reason previous.response_ids
]

-- `_record_sent_response`; `is_transfer` tells whether the request was P2P_TRANSFER or P2P_STATUS.
unfoldable pub record_sent_response : Bool → ℕ → ℕ → ℕ → Node → Node
record_sent_response is_transfer sender id response_id n =
    if not is_transfer then n else elim (lookup id n.received_transfers) [
      | none ↦ n
      | some previous ↦
          if not (previous.source_id == sender) || elem response_id previous.response_ids
          then n
          else record n {
            received_transfers =
                insert id
                  (record previous { response_ids = previous.response_ids ++ response_id ∷ [] })
                  n.received_transfers;
          }
    ]
