-- ===== src/Wire/Messages.antt =====
-- HW3/hw3/common/protocol.py: messages, their kinds and the number of fields of each.
use data_communication.Prelude.{
  ℕ, Bool, true, false, Option, none, some, List, [], ◌∷◌, if◌then◌else◌,
}
use data_communication.Wire.Text.{Text, same}

-- The errors that ProtocolError is raised with.
pub data ProtocolError : Type 0 where
  not_decimal out_of_range line_break bad_token unknown_kind wrong_count : ProtocolError
  not_first_epoch no_source bad_reason bad_line bad_separator : ProtocolError

-- The result of a test that raises no error.
pub data Ok : Type 0 where
  passed : Ok

pub record Message : Type 0 where
  pub kind : Text
  pub fields : List Text

abbrev pub kind_hello : Text
kind_hello = b'H' ∷ b'E' ∷ b'L' ∷ b'L' ∷ b'O' ∷ []

abbrev pub kind_ring_ok : Text
kind_ring_ok = b'R' ∷ b'I' ∷ b'N' ∷ b'G' ∷ b'_' ∷ b'O' ∷ b'K' ∷ []

abbrev pub kind_hb : Text
kind_hb = b'H' ∷ b'B' ∷ []

abbrev pub kind_req : Text
kind_req = b'R' ∷ b'E' ∷ b'Q' ∷ []

abbrev pub kind_result : Text
kind_result = b'R' ∷ b'E' ∷ b'S' ∷ b'U' ∷ b'L' ∷ b'T' ∷ []

abbrev pub kind_rejoin : Text
kind_rejoin = b'R' ∷ b'E' ∷ b'J' ∷ b'O' ∷ b'I' ∷ b'N' ∷ []

abbrev pub kind_ring : Text
kind_ring = b'R' ∷ b'I' ∷ b'N' ∷ b'G' ∷ []

abbrev pub kind_start : Text
kind_start = b'S' ∷ b'T' ∷ b'A' ∷ b'R' ∷ b'T' ∷ []

abbrev pub kind_assign : Text
kind_assign = b'A' ∷ b'S' ∷ b'S' ∷ b'I' ∷ b'G' ∷ b'N' ∷ []

abbrev pub kind_no_task : Text
kind_no_task = b'N' ∷ b'O' ∷ b'_' ∷ b'T' ∷ b'A' ∷ b'S' ∷ b'K' ∷ []

abbrev pub kind_takeover : Text
kind_takeover = b'T' ∷ b'A' ∷ b'K' ∷ b'E' ∷ b'O' ∷ b'V' ∷ b'E' ∷ b'R' ∷ []

abbrev pub kind_ack : Text
kind_ack = b'A' ∷ b'C' ∷ b'K' ∷ []

abbrev pub kind_reject_stale : Text
kind_reject_stale =
    b'R' ∷ b'E' ∷ b'J' ∷ b'E' ∷ b'C' ∷ b'T' ∷ b'_' ∷ b'S' ∷ b'T' ∷ b'A' ∷ b'L' ∷ b'E' ∷ []

abbrev pub kind_welcome : Text
kind_welcome = b'W' ∷ b'E' ∷ b'L' ∷ b'C' ∷ b'O' ∷ b'M' ∷ b'E' ∷ []

abbrev pub kind_retry_later : Text
kind_retry_later = b'R' ∷ b'E' ∷ b'T' ∷ b'R' ∷ b'Y' ∷ b'_' ∷ b'L' ∷ b'A' ∷ b'T' ∷ b'E' ∷ b'R' ∷ []

abbrev pub kind_bye : Text
kind_bye = b'B' ∷ b'Y' ∷ b'E' ∷ []

abbrev pub kind_peer : Text
kind_peer = b'P' ∷ b'E' ∷ b'E' ∷ b'R' ∷ []

abbrev pub kind_ckpt : Text
kind_ckpt = b'C' ∷ b'K' ∷ b'P' ∷ b'T' ∷ []

abbrev pub kind_launcher : Text
kind_launcher = b'L' ∷ b'A' ∷ b'U' ∷ b'N' ∷ b'C' ∷ b'H' ∷ b'E' ∷ b'R' ∷ []

abbrev pub kind_crash : Text
kind_crash = b'C' ∷ b'R' ∷ b'A' ∷ b'S' ∷ b'H' ∷ []

abbrev pub kind_restart : Text
kind_restart = b'R' ∷ b'E' ∷ b'S' ∷ b'T' ∷ b'A' ∷ b'R' ∷ b'T' ∷ []

abbrev pub kind_ready : Text
kind_ready = b'R' ∷ b'E' ∷ b'A' ∷ b'D' ∷ b'Y' ∷ []

abbrev pub kind_rejoined : Text
kind_rejoined = b'R' ∷ b'E' ∷ b'J' ∷ b'O' ∷ b'I' ∷ b'N' ∷ b'E' ∷ b'D' ∷ []

abbrev pub reason_dead : Text
reason_dead = b'D' ∷ b'E' ∷ b'A' ∷ b'D' ∷ []

abbrev pub reason_done : Text
reason_done = b'D' ∷ b'O' ∷ b'N' ∷ b'E' ∷ []

abbrev pub reason_epoch : Text
reason_epoch = b'E' ∷ b'P' ∷ b'O' ∷ b'C' ∷ b'H' ∷ []

abbrev pub from_prefix : Text
from_prefix = b'f' ∷ b'r' ∷ b'o' ∷ b'm' ∷ b'=' ∷ []

-- `_FIELD_COUNTS`
abbrev pub field_counts : List (Text × ℕ)
field_counts =
    (kind_hello, 3)
    ∷ (kind_ring_ok, 1)
    ∷ (kind_hb, 1)
    ∷ (kind_req, 1)
    ∷ (kind_result, 3)
    ∷ (kind_rejoin, 1)
    ∷ (kind_ring, 3)
    ∷ (kind_start, 0)
    ∷ (kind_assign, 2)
    ∷ (kind_no_task, 0)
    ∷ (kind_takeover, 3)
    ∷ (kind_ack, 1)
    ∷ (kind_reject_stale, 2)
    ∷ (kind_welcome, 0)
    ∷ (kind_retry_later, 0)
    ∷ (kind_bye, 0)
    ∷ (kind_peer, 1)
    ∷ (kind_ckpt, 4)
    ∷ (kind_launcher, 0)
    ∷ (kind_crash, 0)
    ∷ (kind_restart, 0)
    ∷ (kind_ready, 1)
    ∷ (kind_rejoined, 1)
    ∷ []

-- `_FIELD_COUNTS.get(kind)`
unfoldable pub count_of : List (Text × ℕ) → Text → Option ℕ
count_of [] kind = none
count_of ((k, n) ∷ rest) kind = if same k kind then some n else count_of rest kind

-- `kind in {...}`
abbrev pub is_in : Text → List Text → Bool
is_in kind [] = false
is_in kind (k ∷ ks) = if same k kind then true else is_in kind ks
