-- ===== src/Wire/Examples.antt =====
-- Messages that are encoded and parsed, lines that are refused, and the theorems applied to them.
use data_communication.Prelude.{true, some, List, [], ◌∷◌, ◌≡◌, refl, inl, inr}
use data_communication.Wire.Text
use data_communication.Wire.Text.{Text}
use data_communication.Wire.Messages
use data_communication.Wire.Messages.{Message, kind_result, kind_ckpt}
use data_communication.Wire.Validate
use data_communication.Wire.Codec.{encode, parse, encode-parse, parse-encode}
use data_communication.Wire.Lines
use data_communication.Wire.Lines.{feed_all, send_all, empty, received}
use data_communication.Wire.Ranges.{IsResult, IsCheckpoint, parsed-IsResult, parsed-IsCheckpoint}

-- RESULT 7 1 9
abbrev a_result : Message
a_result = record { kind = kind_result; fields = (b'7' ∷ []) ∷ (b'1' ∷ []) ∷ (b'9' ∷ []) ∷ [] }

abbrev result_line : Text
result_line = b'R' ∷ b'E' ∷ b'S' ∷ b'U' ∷ b'L' ∷ b'T' ∷ b' ' ∷ b'7' ∷ b' ' ∷ b'1' ∷ b' ' ∷ b'9' ∷ []

a_result-encode : encode a_result ≡ inr result_line
unfolding encode Validate.validate Validate.check_kind Validate.check_fields Validate.check_task
    Validate.check_rest Validate.integer Messages.count_of Text.same Text.join Text.number_from
    Text.is_space
a_result-encode = refl

encode-parse_example : parse result_line ≡ inr a_result
encode-parse_example = encode-parse a_result result_line a_result-encode

parse-encode_example : encode a_result ≡ inr result_line
parse-encode_example = parse-encode result_line a_result encode-parse_example

same_result : Text.same kind_result kind_result ≡ true
unfolding Text.same
same_result = refl

parsed-IsResult_example : IsResult a_result.fields
parsed-IsResult_example = parsed-IsResult result_line a_result encode-parse_example same_result

-- CKPT 7 1 4 9
abbrev a_checkpoint : Message
a_checkpoint = record {
  kind = kind_ckpt;
  fields = (b'7' ∷ []) ∷ (b'1' ∷ []) ∷ (b'4' ∷ []) ∷ (b'9' ∷ []) ∷ [];
}

abbrev checkpoint_line : Text
checkpoint_line =
    b'C' ∷ b'K' ∷ b'P' ∷ b'T' ∷ b' ' ∷ b'7' ∷ b' ' ∷ b'1' ∷ b' ' ∷ b'4' ∷ b' ' ∷ b'9' ∷ []

a_checkpoint-encode : encode a_checkpoint ≡ inr checkpoint_line
unfolding encode Validate.validate Validate.check_kind Validate.check_fields Validate.check_task
    Validate.check_rest Validate.integer Messages.count_of Text.same Text.join Text.number_from
    Text.is_space
a_checkpoint-encode = refl

same_checkpoint : Text.same kind_ckpt kind_ckpt ≡ true
unfolding Text.same
same_checkpoint = refl

parsed-IsCheckpoint_example : IsCheckpoint a_checkpoint.fields
parsed-IsCheckpoint_example =
    parsed-IsCheckpoint checkpoint_line a_checkpoint
      (encode-parse a_checkpoint checkpoint_line a_checkpoint-encode) same_checkpoint

-- Two blanks are refused.
two_blanks : parse (b'B' ∷ b'Y' ∷ b'E' ∷ b' ' ∷ b' ' ∷ []) ≡ inl Messages.bad_separator
unfolding parse Text.strip Text.lstrip Text.rstrip Text.same Text.is_space
two_blanks = refl

-- Two lines in three chunks, which end within a line and at its end.
abbrev bye : Text
bye = b'B' ∷ b'Y' ∷ b'E' ∷ []

abbrev chunks : List Text
chunks = (b'B' ∷ b'Y' ∷ b'E' ∷ 10 ∷ b'B' ∷ []) ∷ (b'Y' ∷ b'E' ∷ []) ∷ (10 ∷ []) ∷ []

two_sent : send_all (bye ∷ bye ∷ []) ≡ some (b'B' ∷ b'Y' ∷ b'E' ∷ 10 ∷ b'B' ∷ b'Y' ∷ b'E' ∷ 10 ∷ [])
unfolding send_all Lines.send_line
two_sent = refl

received_example : feed_all chunks empty ≡ (empty, bye ∷ bye ∷ [])
received_example = received (bye ∷ bye ∷ []) chunks two_sent
