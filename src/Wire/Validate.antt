-- ===== src/Wire/Validate.antt =====
-- HW3/hw3/common/protocol.py: `_integer` and `_validate`.
use data_communication.Prelude.{
  ℕ, ◌-◌, Bool, false, ◌&&◌, ◌||◌, not, Option, none, some, List, [], ◌∷◌, ◌⊎◌, inl, inr, length,
  get_elem?, get_or, ltb, ◌==◌, if◌then◌else◌,
}
use data_communication.Coordinator.State.{worker_count, task_count}
use data_communication.Wire.Text.{
  Text, is_space, is_digit, any_of, is_empty, number, starts_with, from_index,
}
use data_communication.Wire.Messages.{
  ProtocolError, Ok, passed, not_decimal, out_of_range, line_break, bad_token, unknown_kind,
  wrong_count, not_first_epoch, no_source, bad_reason, Message, field_counts, count_of, is_in,
  from_prefix, kind_ack, kind_assign, kind_ckpt, kind_hb, kind_hello, kind_peer, kind_ready,
  kind_reject_stale, kind_rejoin, kind_rejoined, kind_req, kind_result, kind_ring, kind_ring_ok,
  kind_takeover, reason_dead, reason_done, reason_epoch,
}

infixl 5 ◌>>=◌
abbrev pub ◌>>=◌ : {A B : Type 0} → ProtocolError ⊎ A → (A → ProtocolError ⊎ B) → ProtocolError ⊎ B
inl e >>= f = inl e
inr a >>= f = f a

abbrev pub above : ℕ → Option ℕ → Bool
above n none = false
above n (some maximum) = ltb maximum n

-- `_integer`
unfoldable pub integer : Text → ℕ → Option ℕ → ProtocolError ⊎ ℕ
integer value minimum maximum =
    if is_empty value || any_of (λ c. not (is_digit c)) value
    then inl not_decimal
    else if ltb (number value) minimum || above (number value) maximum
    then inl out_of_range
    else inr (number value)

-- `fields[i]`, after the test of their number.
abbrev pub field : List Text → ℕ → Text
field fields i = get_or (get_elem? fields i) []

unfoldable pub check_ids : Text → List Text → ProtocolError ⊎ Ok
unfolding integer
check_ids kind fields = do
  worker ← integer (field fields 0) 1 (some worker_count)
  (if is_in kind (kind_hello ∷ kind_ring ∷ [])
      then integer (field fields 2) 1 (some 65535) >>= (λ port. inr passed)
      else inr passed)

-- What a task message has after its task and epoch.
unfoldable pub check_rest : Text → List Text → ProtocolError ⊎ Ok
unfolding integer
check_rest kind fields =
    if is_in kind (kind_result ∷ [])
    then integer (field fields 2) 0 none >>= (λ value. inr passed)
    else if is_in kind (kind_assign ∷ [])
    then if number (field fields 1) == 1 then inr passed else inl not_first_epoch
    else if is_in kind (kind_takeover ∷ [])
    then if starts_with (field fields 2) from_prefix
      then integer (from_index 5 (field fields 2)) 1 (some worker_count) >>= (λ source. inr passed)
      else inl no_source
    else if is_in kind (kind_ckpt ∷ [])
    then integer (field fields 2) 1 (some 9)
      >>= (λ step. integer (field fields 3) 0 none >>= (λ value. inr passed))
    else inr passed

unfoldable pub check_task : Text → List Text → ProtocolError ⊎ Ok
unfolding check_rest
check_task kind fields = do
  task ← integer (field fields 0) 0 (some (task_count - 1))
  epoch ← integer (field fields 1) (if is_in kind (kind_takeover ∷ []) then 2 else 1) none
  check_rest kind fields

unfoldable pub check_answer : Text → List Text → ProtocolError ⊎ Ok
check_answer kind fields = do
  task ← integer (field fields 0) 0 (some (task_count - 1))
  (if is_in kind (kind_reject_stale ∷ [])
        && not (is_in (field fields 1) (reason_dead ∷ reason_done ∷ reason_epoch ∷ []))
      then inl bad_reason
      else inr passed)

-- `_validate` after the test of the number of fields.
unfoldable pub check_fields : Text → List Text → ProtocolError ⊎ Ok
unfolding check_ids check_task check_answer
check_fields kind fields =
    if is_in kind (
      kind_hello ∷ kind_ring ∷ kind_ring_ok ∷ kind_hb ∷ kind_req ∷ kind_rejoin ∷ kind_peer
      ∷ kind_ready ∷ kind_rejoined ∷ [])
    then check_ids kind fields
    else if is_in kind (kind_result ∷ kind_assign ∷ kind_takeover ∷ kind_ckpt ∷ [])
    then check_task kind fields
    else if is_in kind (kind_ack ∷ kind_reject_stale ∷ [])
    then check_answer kind fields
    else inr passed

-- `_validate` after the tests of the tokens.
unfoldable pub check_kind : Message → ProtocolError ⊎ Ok
check_kind m = elim (count_of field_counts m.kind) [
  | none ↦ inl unknown_kind
  | some count ↦
      if not (length m.fields == count) then inl wrong_count else check_fields m.kind m.fields
]

abbrev pub has_break : Text → Bool
has_break t = any_of (λ c. c == 13) t || any_of (λ c. c == 10) t

-- `_validate`; the tests of the Python types are the types of the model.
unfoldable pub validate : Message → ProtocolError ⊎ Ok
validate m =
    if any_of has_break (m.kind ∷ m.fields)
    then inl line_break
    else if any_of (λ t. is_empty t || any_of is_space t) (m.kind ∷ m.fields)
    then inl bad_token
    else check_kind m
