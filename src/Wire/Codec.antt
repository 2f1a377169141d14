-- ===== src/Wire/Codec.antt =====
-- HW3/hw3/common/protocol.py: `encode` and `parse`, and their round trips.
use data_communication.Prelude.{
  ℕ, true, false, ◌||◌, not, List, [], ◌∷◌, ◌⊎◌, inl, inr, ◌≡◌, refl, sym, ap, subst, ◌∙◌, ◌==◌,
  if◌then◌else◌, arith,
}
use data_communication.Wire.Text.{
  Text, is_space, any_of, is_empty, same, strip, double_blank, split, join,
}
use data_communication.Wire.Words.{
  Words, IsSplit, same_refl, join-split, split-join, any_of-join, double_blank-join, is_empty-join,
  strip-join,
}
use data_communication.Wire.Messages.{ProtocolError, Ok, passed, bad_line, bad_separator, Message}
use data_communication.Wire.Validate.{validate, has_break, ◌>>=◌}

unfoldable pub encode : Message → ProtocolError ⊎ Text
encode m = validate m >>= (λ ok. inr (join m.kind m.fields))

abbrev pub to_message : List Text → Message
to_message [] = record { kind = []; fields = [] }
to_message (t ∷ ts) = record { kind = t; fields = ts }

unfoldable pub parse : Text → ProtocolError ⊎ Message
parse line =
    if is_empty line || has_break line
    then inl bad_line
    else if not (same (strip line) line) || any_of (λ c. c == 9) line || double_blank false line
    then inl bad_separator
    else validate (to_message (split line)) >>= (λ ok. inr (to_message (split line)))

not_bad-Words :
    (ts : List Text) → any_of (λ t. is_empty t || any_of is_space t) ts ≡ false → Words ts
not_bad-Words [] h = tt
not_bad-Words (t ∷ ts) h = (ground arith, not_bad-Words ts (ground arith))

valid-Words : (m : Message) → validate m ≡ inr passed → Words (m.kind ∷ m.fields)
unfolding validate
valid-Words m h = not_bad-Words (m.kind ∷ m.fields) (ground arith)

-- What `encode` and `parse` say when they succeed.
encoded :
    (v : ProtocolError ⊎ Ok) (s line : Text)
    → (v >>= (λ ok. inr s)) ≡ inr line
    → (v ≡ inr passed) × (s ≡ line)
encoded (inl e) s line h = ground arith
encoded (inr passed) s line h = (refl, ground arith)

parsed :
    (v : ProtocolError ⊎ Ok) (n m : Message)
    → (v >>= (λ ok. inr n)) ≡ inr m
    → (v ≡ inr passed) × (n ≡ m)
parsed (inl e) n m h = ground arith
parsed (inr passed) n m h = (refl, ground arith)

not_space : (d : ℕ) → is_space d ≡ true → (c : ℕ) → is_space c ≡ false → (c == d) ≡ false
unfolding is_space
not_space d y c n = ground arith

parse-join : (m : Message) → validate m ≡ inr passed → parse (join m.kind m.fields) ≡ inr m
unfolding parse is_space
parse-join m v =
    let ws = valid-Words m v in
    rw
      (
        is_empty-join m.kind m.fields ws.0,
        any_of-join (λ c. c == 13) m.kind m.fields (not_space 13 refl) refl ws,
        any_of-join (λ c. c == 10) m.kind m.fields (not_space 10 refl) refl ws,
        any_of-join (λ c. c == 9) m.kind m.fields (not_space 9 refl) refl ws,
        strip-join m.kind m.fields ws,
        same_refl (join m.kind m.fields),
        double_blank-join false m.kind m.fields ws,
        split-join m.kind m.fields ws,
        v,
      )
      refl

-- What `encode` makes of a message, `parse` reads as the same message.
pub encode-parse : (m : Message) (line : Text) → encode m ≡ inr line → parse line ≡ inr m
unfolding encode
encode-parse m line h =
    let (v, e) = encoded (validate m) (join m.kind m.fields) line h in
    subst (λ s. parse s ≡ inr m) e (parse-join m v)

IsSplit-to_message :
    (line : Text) (ts : List Text)
    → IsSplit line ts
    → join (to_message ts).kind (to_message ts).fields ≡ line
IsSplit-to_message line [] h = elim h [ ]
IsSplit-to_message line (t ∷ ts) h = h

-- What passes the tests of `parse` was read by the last of them.
accepted :
    (line : Text) (m : Message)
    → parse line ≡ inr m
    → (validate (to_message (split line)) >>= (λ ok. inr (to_message (split line)))) ≡ inr m
unfolding parse
accepted line m h = ground arith

pub parse-valid : (line : Text) (m : Message) → parse line ≡ inr m → validate m ≡ inr passed
parse-valid line m h =
    let (v, e) =
      parsed (validate (to_message (split line))) (to_message (split line)) m (accepted line m h) in
    subst (λ n. validate n ≡ inr passed) e v

-- What `parse` reads of a line, `encode` makes the same line of.
pub parse-encode : (line : Text) (m : Message) → parse line ≡ inr m → encode m ≡ inr line
unfolding encode
parse-encode line m h =
    let (v, e) =
      parsed (validate (to_message (split line))) (to_message (split line)) m (accepted line m h) in
    let joined = IsSplit-to_message line (split line) (join-split line) in
    rw (parse-valid line m h) (ap inr (ap (λ n. join n.kind n.fields) (sym e) ∙ joined))
