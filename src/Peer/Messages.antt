-- ===== src/Peer/Messages.antt =====
-- HW1/p2p.py: the tests of a whole message, `_validate_common` and `_check_response`.
use data_communication.Prelude.{
  ℕ, Bool, true, false, ◌&&◌, ◌||◌, not, Option, none, some, [], ◌∷◌, ◌⊎◌, inl, inr, ◌==◌,
  if◌then◌else◌,
}
use data_communication.Wire.Text.{Text, same}
use data_communication.Peer.Values.{
  Value, text, P2pError, from_self, not_for_me, wrong_sender, no_type, no_id, wrong_type,
  wrong_transfer, bad_status, read_worker_name, read_clock, is_filled, ◌>>=◌,
}

-- The fields that every message has; `null` is a field that is missing.
pub record Header : Type 0 where
  pub kind : Value
  pub message_id : Value
  pub sender : Value
  pub receiver : Value
  pub clock : Value

abbrev pub is_unexpected : Option ℕ → ℕ → Bool
is_unexpected none sender = false
is_unexpected (some expected) sender = not (sender == expected)

-- The tests of `_validate_common` once both names are read.
unfoldable pub check_nodes : ℕ → Option ℕ → Value → ℕ → ℕ → P2pError ⊎ ℕ
check_nodes me expected_sender clock sender receiver =
    if sender == me
    then inl from_self
    else if not (receiver == me)
    then inl not_for_me
    else if is_unexpected expected_sender sender
    then inl wrong_sender
    else read_clock clock >>= (λ at. inr sender)

unfoldable pub check_names : ℕ → Option ℕ → Header → P2pError ⊎ ℕ
unfolding check_nodes
check_names me expected_sender m = do
  sender ← read_worker_name m.sender
  receiver ← read_worker_name m.receiver
  check_nodes me expected_sender m.clock sender receiver

-- `_validate_common` in the node of the worker `me`: the number of the sender.
unfoldable pub validate_common : ℕ → Option ℕ → Header → P2pError ⊎ ℕ
unfolding check_names
validate_common me expected_sender m =
    if not (is_filled m.kind)
    then inl no_type
    else if not (is_filled m.message_id)
    then inl no_id
    else check_names me expected_sender m

abbrev pub same_text : Value → Text → Bool
same_text (text t) expected = same t expected
same_text _ expected = false

-- `"ACCEPTED"`, `"REJECTED"` and `"UNKNOWN"`
abbrev pub is_status : Value → Bool
is_status v =
    same_text v (b'A' ∷ b'C' ∷ b'C' ∷ b'E' ∷ b'P' ∷ b'T' ∷ b'E' ∷ b'D' ∷ [])
    || same_text v (b'R' ∷ b'E' ∷ b'J' ∷ b'E' ∷ b'C' ∷ b'T' ∷ b'E' ∷ b'D' ∷ [])
    || same_text v (b'U' ∷ b'N' ∷ b'K' ∷ b'N' ∷ b'O' ∷ b'W' ∷ b'N' ∷ [])

-- What `_check_response` reads of an answer.
pub record Response : Type 0 where
  pub kind : Value
  pub transfer_id : Value
  pub status : Value

pub data Expected : Type 0 where
  queue_ack ack status_ack : Expected

abbrev pub is_transfer_ack : Expected → Bool
is_transfer_ack queue_ack = false
is_transfer_ack _ = true

abbrev pub other_transfer : Option Text → Value → Bool
other_transfer none v = false
other_transfer (some id) v = not (same_text v id)

-- `_check_response`; `kind` is the text of the expected type.
unfoldable pub check_response : Expected → Text → Option Text → Response → Option P2pError
check_response expected kind transfer_id r =
    if not (same_text r.kind kind)
    then some wrong_type
    else if other_transfer transfer_id r.transfer_id
    then some wrong_transfer
    else if is_transfer_ack expected && not (is_status r.status)
    then some bad_status
    else none
