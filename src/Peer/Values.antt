-- ===== src/Peer/Values.antt =====
-- HW1/p2p.py: the values of a JSON message, the errors, and the tests of single fields.
use data_communication.Prelude.{
  ℕ, ◌*◌, Bool, false, ◌&&◌, ◌||◌, not, [], ◌∷◌, ◌⊎◌, inl, inr, leb, if◌then◌else◌,
}
use data_communication.Wire.Text.{
  Text, any_of, is_digit, is_empty, number, starts_with, from_index, strip,
}

-- A value. A finite float that is not negative is a number of thousandths; `bad_real` is any other
-- float, `below_zero` a negative integer, `other` a list or an object.
pub data Value : Type 0 where
  null bad_real below_zero other : Value
  truth : Bool → Value
  int : ℕ → Value
  real : ℕ → Value
  text : Text → Value

-- The reasons of a P2PError.
pub data P2pError : Type 0 where
  bad_name bad_worker bad_clock bad_transfer_id bad_queue : P2pError
  no_tasks no_object bad_key bad_value bad_attempt bad_waiting bad_retry twice : P2pError
  no_type no_id from_self not_for_me wrong_sender : P2pError
  wrong_type wrong_transfer bad_status : P2pError

infixl 5 ◌>>=◌
abbrev pub ◌>>=◌ : {A B : Type 0} → P2pError ⊎ A → (A → P2pError ⊎ B) → P2pError ⊎ B
inl e >>= f = inl e
inr a >>= f = f a

abbrev pub per_second : ℕ
per_second = 1000

-- `_read_clock`
unfoldable pub read_clock : Value → P2pError ⊎ ℕ
read_clock (int n) = inr (n * per_second)
read_clock (real n) = inr n
read_clock _ = inl bad_clock

-- `_read_worker_name`; a digit is one of ASCII.
abbrev pub worker_prefix : Text
worker_prefix = b'W' ∷ b'O' ∷ b'R' ∷ b'K' ∷ b'E' ∷ b'R' ∷ []

unfoldable pub worker_number : Text → P2pError ⊎ ℕ
worker_number t =
    if not (starts_with t worker_prefix)
    then inl bad_name
    else let rest = from_index 6 t in
      if is_empty rest || any_of (λ c. not (is_digit c)) rest
      then inl bad_name
      else if leb 1 (number rest) && leb (number rest) 4
      then inr (number rest)
      else inl bad_worker

unfoldable pub read_worker_name : Value → P2pError ⊎ ℕ
unfolding worker_number
read_worker_name (text t) = worker_number t
read_worker_name _ = inl bad_name

-- `isinstance(value, str) and value.strip()`
unfoldable pub is_filled : Value → Bool
is_filled (text t) = not (is_empty (strip t))
is_filled _ = false

-- `_read_transfer_id`
unfoldable pub read_transfer_id : Value → P2pError ⊎ Text
read_transfer_id (text t) = if is_empty (strip t) then inl bad_transfer_id else inr t
read_transfer_id _ = inl bad_transfer_id

-- `_read_queue_state`
unfoldable pub read_queue_state : Value → Value → P2pError ⊎ (ℕ × ℕ)
read_queue_state (int size) (int version) =
    if leb size 10 then inr (size, version) else inl bad_queue
read_queue_state _ _ = inl bad_queue
