-- ===== src/Wire/Ranges.antt =====
-- The numbers of the messages that HW3/hw3/common/protocol.py lets pass.
use data_communication.Prelude.{
  ℕ, ◌≤◌, ◌<◌, ◌≡◌, refl, sym, ap₂, subst, true, false, not, Option, none, some, List, [], ◌∷◌, ◌⊎◌,
  inl, inr, arith,
}
use data_communication.Wire.Text.{Text, any_of, is_empty, is_digit, number, same}
use data_communication.Wire.Messages.{
  ProtocolError, Ok, passed, Message, count_of, kind_result, kind_ckpt,
}
use data_communication.Wire.Validate.{
  integer, above, validate, check_kind, check_fields, check_task, check_rest, ◌>>=◌,
}
use data_communication.Wire.Codec.{parse, parse-valid}

-- A text of decimal digits, one at least, whose number is at least `low`.
abbrev pub IsNumeral : ℕ → Text → Type 0
IsNumeral low t =
    (is_empty t ≡ false) × (any_of (λ c. not (is_digit c)) t ≡ false) × (low ≤ number t)

integer-IsNumeral :
    (t : Text) (low : ℕ) (high : Option ℕ) (n : ℕ)
    → integer t low high ≡ inr n
    → IsNumeral low t × (above (number t) high ≡ false)
unfolding integer
integer-IsNumeral t low high n h = ground arith

bound :
    {B : Type 0} (v : ProtocolError ⊎ ℕ) (f : ℕ → ProtocolError ⊎ B) (b : B)
    → (v >>= f) ≡ inr b
    → (n : ℕ) × ((v ≡ inr n) × (f n ≡ inr b))
bound (inl e) f b h = ground arith
bound (inr n) f b h = (n, (refl, h))

-- A numeral in the tests of a message, and the tests after it.
next-IsNumeral :
    (t : Text) (low : ℕ) (high : Option ℕ) (v : ProtocolError ⊎ Ok)
    → (integer t low high >>= (λ n. v)) ≡ inr passed
    → (IsNumeral low t × (above (number t) high ≡ false)) × (v ≡ inr passed)
next-IsNumeral t low high v h =
    let (n, (e, rest)) = bound (integer t low high) (λ n. v) passed h in
    (integer-IsNumeral t low high n e, rest)

abbrev pub IsResult : List Text → Type 0
IsResult (task ∷ epoch ∷ value ∷ []) =
    IsNumeral 0 task × (number task < 1000) × IsNumeral 1 epoch × IsNumeral 0 value
IsResult _ = ⊥

abbrev pub IsCheckpoint : List Text → Type 0
IsCheckpoint (task ∷ epoch ∷ step ∷ sum ∷ []) =
    IsNumeral 0 task
    × (number task < 1000)
    × IsNumeral 1 epoch
    × IsNumeral 1 step
    × (number step ≤ 9)
    × IsNumeral 0 sum
IsCheckpoint _ = ⊥

task_fields :
    (kind : Text) (task epoch : Text) (rest : List Text) (low : ℕ)
    → (integer task 0 (some 999)
        >>= (λ k. integer epoch low none >>= (λ e. check_rest kind (task ∷ epoch ∷ rest))))
      ≡ inr passed
    → IsNumeral 0 task
      × (number task < 1000)
      × IsNumeral low epoch
      × (check_rest kind (task ∷ epoch ∷ rest) ≡ inr passed)
task_fields kind task epoch rest low h =
    let (t, h') =
      next-IsNumeral task 0 (some 999)
        (integer epoch low none >>= (λ e. check_rest kind (task ∷ epoch ∷ rest))) h in
    let (e, h'') = next-IsNumeral epoch low none (check_rest kind (task ∷ epoch ∷ rest)) h' in
    (t.0, ground arith, e.0, h'')

fields-IsResult :
    (fields : List Text)
    → check_kind (record { kind = kind_result; fields = fields }) ≡ inr passed
    → IsResult fields
unfolding check_kind check_fields check_task count_of same
fields-IsResult (task ∷ epoch ∷ value ∷ []) h =
    let (t, small, e, rest) = task_fields kind_result task epoch (value ∷ []) 1 h in
    let (v, _) = next-IsNumeral value 0 none (inr passed) (unfold check_rest in rest) in
    (t, small, e, v.0)
fields-IsResult _ h = ground arith

fields-IsCheckpoint :
    (fields : List Text)
    → check_kind (record { kind = kind_ckpt; fields = fields }) ≡ inr passed
    → IsCheckpoint fields
unfolding check_kind check_fields check_task count_of same
fields-IsCheckpoint (task ∷ epoch ∷ step ∷ sum ∷ []) h =
    let (t, small, e, rest) = task_fields kind_ckpt task epoch (step ∷ sum ∷ []) 1 h in
    let (k, rest') =
      next-IsNumeral step 1 (some 9) (integer sum 0 none >>= (λ n. inr passed))
        (unfold check_rest in rest) in
    let (v, _) = next-IsNumeral sum 0 none (inr passed) rest' in
    (t, small, e, k.0, ground arith, v.0)
fields-IsCheckpoint _ h = ground arith

same-eq : (s t : Text) → same s t ≡ true → s ≡ t
unfolding same
same-eq [] [] h = refl
same-eq [] (b ∷ t) h = ground arith
same-eq (a ∷ s) [] h = ground arith
same-eq (a ∷ s) (b ∷ t) h =
    ap₂ {C = Text} (λ x r. x ∷ r) (ground arith) (same-eq s t (ground arith))

valid-check_kind : (m : Message) → validate m ≡ inr passed → check_kind m ≡ inr passed
unfolding validate
valid-check_kind m h = ground arith

of_kind :
    (kind : Text) (m : Message)
    → same kind m.kind ≡ true
    → validate m ≡ inr passed
    → check_kind (record { kind = kind; fields = m.fields }) ≡ inr passed
of_kind kind m h v =
    subst (λ k. check_kind (record { kind = k; fields = m.fields }) ≡ inr passed)
      (sym (same-eq kind m.kind h)) (valid-check_kind m v)

-- A line that is parsed as a RESULT has three fields: decimal numerals of a task below 1000, of an
-- epoch of 1 or more, and of a value.
pub parsed-IsResult :
    (line : Text) (m : Message)
    → parse line ≡ inr m
    → same kind_result m.kind ≡ true
    → IsResult m.fields
parsed-IsResult line m h k =
    fields-IsResult m.fields (of_kind kind_result m k (parse-valid line m h))

-- A line that is parsed as a CKPT has four fields: decimal numerals of a task below 1000, of an epoch
-- of 1 or more, of a step from 1 to 9, and of a partial count.
pub parsed-IsCheckpoint :
    (line : Text) (m : Message)
    → parse line ≡ inr m
    → same kind_ckpt m.kind ≡ true
    → IsCheckpoint m.fields
parsed-IsCheckpoint line m h k =
    fields-IsCheckpoint m.fields (of_kind kind_ckpt m k (parse-valid line m h))
