-- ===== src/Peer/Clean.antt =====
-- HW1/p2p.py: `clean_tasks`, the test of the tasks of a transfer.
use data_communication.Prelude.{
  ℕ, ◌-◌, ◌*◌, Bool, false, ◌&&◌, ◌||◌, not, Option, none, some, List, [], ◌∷◌, ◌⊎◌, inl, inr, map,
  length, get_or, leb, ltb, ◌==◌, if◌then◌else◌,
}
use data_communication.Wire.Text.{Text, any_of, same, is_digit}
use data_communication.Peer.Values.{
  Value, null, truth, int, real, text, P2pError, no_tasks, no_object, bad_key, bad_value,
  bad_attempt, bad_waiting, bad_retry, twice, read_clock, per_second, ◌>>=◌,
}

-- The object of a task, by the fields that the code reads; `none` is a field that is missing.
pub record TaskFields : Type 0 where
  pub key : Option Value
  pub value : Option Value
  pub attempt : Option Value
  pub enqueued_at : Option Value
  pub accumulated_waiting_time : Option Value
  pub failed_retry : Option Value

pub data RawTask : Type 0 where
  no_dict : RawTask
  dict : TaskFields → RawTask

-- The field `tasks`: not a list, or a list.
pub data RawTasks : Type 0 where
  no_list : RawTasks
  tasks : List RawTask → RawTasks

pub record CleanTask : Type 0 where
  pub key : Text
  pub value : ℕ
  pub attempt : ℕ
  pub enqueued_at : ℕ
  pub accumulated_waiting_time : ℕ
  pub failed_retry : Bool

-- `character in "0123456789abcdefABCDEF"`
abbrev pub is_hex : ℕ → Bool
is_hex c = is_digit c || leb 97 c && leb c 102 || leb 65 c && leb c 70

-- `str.upper` of a hexadecimal digit.
abbrev pub upper : ℕ → ℕ
upper c = if leb 97 c && leb c 122 then c - 32 else c

unfoldable pub clean_key : Option Value → P2pError ⊎ Text
clean_key (some (text t)) =
    if not (length t == 4) || any_of (λ c. not (is_hex c)) t then inl bad_key else inr (map upper t)
clean_key _ = inl bad_key

unfoldable pub clean_value : Option Value → P2pError ⊎ ℕ
clean_value (some (int n)) = if leb 1 n && leb n 100 then inr n else inl bad_value
clean_value _ = inl bad_value

unfoldable pub clean_attempt : Option Value → P2pError ⊎ ℕ
clean_attempt (some (int n)) = if ltb n 1 then inl bad_attempt else inr n
clean_attempt _ = inl bad_attempt

unfoldable pub clean_waiting : Option Value → P2pError ⊎ ℕ
clean_waiting none = inr 0
clean_waiting (some (int n)) = inr (n * per_second)
clean_waiting (some (real n)) = inr n
clean_waiting _ = inl bad_waiting

unfoldable pub clean_retry : Option Value → P2pError ⊎ Bool
clean_retry none = inr false
clean_retry (some (truth b)) = inr b
clean_retry _ = inl bad_retry

-- `identity in identities`
abbrev pub is_known : Text → ℕ → List (Text × ℕ) → Bool
is_known key attempt identities = any_of (λ i. same i.0 key && i.1 == attempt) identities

-- The body of the loop.
unfoldable pub clean_task : List (Text × ℕ) → RawTask → P2pError ⊎ CleanTask
unfolding clean_key clean_value clean_attempt clean_waiting clean_retry
clean_task identities no_dict = inl no_object
clean_task identities (dict t) = do
  key ← clean_key t.key
  value ← clean_value t.value
  attempt ← clean_attempt t.attempt
  enqueued_at ← read_clock (get_or t.enqueued_at null)
  waiting_time ← clean_waiting t.accumulated_waiting_time
  failed_retry ← clean_retry t.failed_retry
  (if is_known key attempt identities
      then inl twice
      else inr (record {
        key = key;
        value = value;
        attempt = attempt;
        enqueued_at = enqueued_at;
        accumulated_waiting_time = waiting_time;
        failed_retry = failed_retry;
      }))

-- The loop, with the identities so far.
unfoldable pub clean_all : List (Text × ℕ) → List RawTask → P2pError ⊎ List CleanTask
unfolding clean_task
clean_all identities [] = inr []
clean_all identities (raw ∷ raws) = do
  t ← clean_task identities raw
  ts ← clean_all ((t.key, t.attempt) ∷ identities) raws
  inr (t ∷ ts)

unfoldable pub clean_tasks : RawTasks → P2pError ⊎ List CleanTask
unfolding clean_all
clean_tasks (tasks (raw ∷ raws)) = clean_all [] (raw ∷ raws)
clean_tasks _ = inl no_tasks
