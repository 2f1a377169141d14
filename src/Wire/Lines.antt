-- ===== src/Wire/Lines.antt =====
-- HW3/hw3/common/transport.py: `LineBuffer` and `send_line`, on text. Python's incremental decoder is
-- left out: a chunk is what it decodes of the bytes that one `recv` returns.
use data_communication.Prelude.{
  ℕ, false, ◌||◌, Option, none, some, List, [], ◌∷◌, ◌++◌, ◌≡◌, refl, sym, subst, ◌∙◌, ◌==◌,
  if◌then◌else◌, inl, inr, Bool-cases, Option-cases, arith,
}
use mathlib.Core.List.{append-nil, append_assoc}
use data_communication.Wire.Text.{Text, any_of}
use data_communication.Wire.Validate.{has_break}

abbrev pub newline : ℕ
newline = 10

abbrev pub Pieces : Type 0
Pieces = List Text × Text

abbrev pub in_first : ℕ → Pieces → Pieces
in_first c ([], rest) = ([], c ∷ rest)
in_first c (l ∷ ls, rest) = ((c ∷ l) ∷ ls, rest)

-- `text.split("\n")` and its `pop()`: the whole lines, and what is after the last newline.
unfoldable pub cut : Text → Pieces
cut [] = ([], [])
cut (c ∷ s) = let p = cut s in if c == newline then ([] ∷ p.0, p.1) else in_first c p

pub record LineBuffer : Type 0 where
  pub text : Text

abbrev pub empty : LineBuffer
empty = record { text = [] }

unfoldable pub feed : Text → LineBuffer → LineBuffer × List Text
feed chunk b = let p = cut (b.text ++ chunk) in (record { text = p.1 }, p.0)

-- The chunks of a connection, one after the other, with all the lines that come out.
unfoldable pub feed_all : List Text → LineBuffer → LineBuffer × List Text
unfolding feed
feed_all [] b = (b, [])
feed_all (chunk ∷ chunks) b =
    let p = feed chunk b in let q = feed_all chunks p.0 in (q.0, p.1 ++ q.1)

-- The payload of a line; `none` is the ValueError.
unfoldable pub send_line : Text → Option Text
send_line line = if has_break line then none else some (line ++ newline ∷ [])

-- What a sender of several lines puts on the connection.
unfoldable pub send_all : List Text → Option Text
send_all [] = some []
send_all (line ∷ lines) =
    let rest = send_all lines in
    elim (send_line line) [
      | none ↦ none
      | some s ↦ elim rest [ none ↦ none | some t ↦ some (s ++ t) ]
    ]

abbrev pub concat : List Text → Text
concat [] = []
concat (s ∷ ss) = s ++ concat ss

-- The pieces of a text that goes on after the pieces `p`.
abbrev after : Pieces → Text → Pieces
after p b = let q = cut (p.1 ++ b) in (p.0 ++ q.0, q.1)

in_first-after :
    (c : ℕ) (p : Pieces) (b : Text)
    → (c == newline) ≡ false
    → in_first c (after p b) ≡ after (in_first c p) b
unfolding cut
in_first-after c ([], rest) b e = rw e refl
in_first-after c (l ∷ ls, rest) b e = refl

cut-append : (a b : Text) → cut (a ++ b) ≡ after (cut a) b
unfolding cut
cut-append [] b = refl
cut-append (c ∷ a) b = elim (Bool-cases (c == newline)) [
  | inl e ↦ rw (e, cut-append a b) refl
  | inr e ↦ rw (e, cut-append a b) (in_first-after c (cut a) b e)
]

in_first-rest :
    (c : ℕ) (p : Pieces)
    → (c == newline) ≡ false
    → cut p.1 ≡ ([], p.1)
    → cut (in_first c p).1 ≡ ([], (in_first c p).1)
unfolding cut
in_first-rest c ([], rest) e h = rw (e, h) refl
in_first-rest c (l ∷ ls, rest) e h = h

-- What stays in the buffer has no whole line.
cut-rest : (s : Text) → cut (cut s).1 ≡ ([], (cut s).1)
unfolding cut
cut-rest [] = refl
cut-rest (c ∷ s) = elim (Bool-cases (c == newline)) [
  | inl e ↦ rw e (cut-rest s)
  | inr e ↦ rw e (in_first-rest c (cut s) e (cut-rest s))
]

-- The buffer after some chunks and the lines so far are the pieces of all the text.
abbrev fed : Pieces → LineBuffer × List Text
fed p = (record { text = p.1 }, p.0)

feed_all-cut :
    (chunks : List Text) (b : LineBuffer)
    → cut b.text ≡ ([], b.text)
    → feed_all chunks b ≡ fed (cut (b.text ++ concat chunks))
unfolding feed_all feed
feed_all-cut [] b e = rw (append-nil b.text, e) refl
feed_all-cut (chunk ∷ chunks) b e =
    rw
      (
        feed_all-cut chunks (record { text = (cut (b.text ++ chunk)).1 })
            (cut-rest (b.text ++ chunk)),
        sym (append_assoc b.text chunk (concat chunks)),
        cut-append (b.text ++ chunk) (concat chunks),
      )
      refl

cut-line :
    (l s : Text)
    → any_of (λ c. c == newline) l ≡ false
    → cut (l ++ newline ∷ s) ≡ (l ∷ (cut s).0, (cut s).1)
unfolding cut
cut-line [] s h = refl
cut-line (c ∷ l) s h =
    let e : (c == newline) ≡ false = ground arith in rw (e, cut-line l s (ground arith)) refl

no_newline :
    (l : Text)
    → any_of (λ c. c == 13) l || any_of (λ c. c == 10) l ≡ false
    → any_of (λ c. c == newline) l ≡ false
no_newline l h = ground arith

send_all-cut : (lines : List Text) (s : Text) → send_all lines ≡ some s → cut s ≡ (lines, [])
unfolding send_all send_line cut
send_all-cut [] [] h = refl
send_all-cut [] (c ∷ s) h = ground arith
send_all-cut (line ∷ lines) s h = elim (Bool-cases (has_break line)) [
  | inl bad ↦ ground (arith, bad, h)
  | inr fine ↦ elim (Option-cases (send_all lines)) [
    | inl nothing ↦ ground (arith, fine, nothing, h)
    | inr (t, more) ↦
        let whole : line ++ newline ∷ [] ++ t ≡ s = ground (arith, fine, more, h) in
        subst (λ r. cut r ≡ (line ∷ lines, [])) whole
          (rw
            (
              append_assoc line (newline ∷ []) t,
              cut-line line t (no_newline line fine),
              send_all-cut lines t more,
            )
            refl)
  ]
]

-- However the text of several sent lines is cut into chunks, the buffer gives back exactly these
-- lines, in order, and nothing stays in it.
pub received :
    (lines chunks : List Text)
    → send_all lines ≡ some (concat chunks)
    → feed_all chunks empty ≡ (empty, lines)
unfolding cut
received lines chunks h =
    feed_all-cut chunks empty refl ∙ rw (send_all-cut lines (concat chunks) h) refl
