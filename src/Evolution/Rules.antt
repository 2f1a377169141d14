-- ===== src/Evolution/Rules.antt =====
-- HW4/src/worker/rules.py. A character is its code, a row a function of the column and a work board
-- `w` a function of the row; the code reads and writes it below its height and width only.
use data_communication.Prelude.{
  ℕ, ◌+◌, ◌-◌, ◌*◌, ◌%◌, Bool, ◌&&◌, ◌||◌, not, Option, none, some, List, [], ◌∷◌, length,
  get_elem?, get_or, keep_if, elem, ◌==◌, min, if◌then◌else◌,
}

abbrev pub Row : Type 0
Row = ℕ → ℕ

abbrev pub Grid : Type 0
Grid = ℕ → Row

abbrev pub space : ℕ
space = b' '

abbrev pub at_sign : ℕ
at_sign = b'@'

abbrev pub plus_sign : ℕ
plus_sign = b'+'

-- `RAMP`
abbrev pub ramp : List ℕ
ramp = b' ' ∷ b'.' ∷ b':' ∷ b'-' ∷ b'=' ∷ b'+' ∷ b'*' ∷ b'#' ∷ b'%' ∷ b'@' ∷ []

-- `NEXT`, where `none` is a KeyError.
unfoldable pub next_of : ℕ → Option ℕ
next_of c =
    if c == b' '
    then some b'.'
    else if c == b'.'
    then some b':'
    else if c == b':'
    then some b'-'
    else if c == b'-'
    then some b'='
    else if c == b'='
    then some b'+'
    else if c == b'+'
    then some b'*'
    else if c == b'*'
    then some b'#'
    else if c == b'#'
    then some b'%'
    else if c == b'%'
    then some b'@'
    else if c == b'@'
    then some b' '
    else none

-- The eight cells around column `x`, in the order of the code.
abbrev pub around : ℕ → Row → Row → Row → ℕ → List ℕ
around width above row below x =
    let left = (x + width - 1) % width in
    let right = (x + 1) % width in
    above left
    ∷ above x
    ∷ above right
    ∷ row left
    ∷ row right
    ∷ below left
    ∷ below x
    ∷ below right
    ∷ []

-- The character that is born, by the living cells around.
unfoldable pub birth : List ℕ → ℕ
birth (a ∷ b ∷ c ∷ []) = if a == b || a == c then a else if b == c then b else min a (min b c)
birth _ = space

unfoldable pub rule1_cell : ℕ → Row → Row → Row → ℕ → ℕ
unfolding birth
rule1_cell width above row below x =
    let parents = keep_if (λ c. not (c == space)) (around width above row below x) in
    if not (row x == space)
    then (if length parents == 2 || length parents == 3 then row x else space)
    else birth parents

unfoldable pub rule2_cell : ℕ → Row → Row → Row → ℕ → ℕ
rule2_cell width above row below x =
    let count = length (keep_if (λ c. c == at_sign) (around width above row below x)) in
    if row x == at_sign
    then plus_sign
    else if row x == plus_sign
    then space
    else if row x == space && count == 2
    then at_sign
    else space

-- A KeyError of `NEXT` leaves the character; the characters of a cyclic board are all in `ramp`.
unfoldable pub rule3_cell : ℕ → Row → Row → Row → ℕ → ℕ
rule3_cell width above row below x = elim (next_of (row x)) [
  | none ↦ row x
  | some target ↦
      if elem target
        (above x ∷ below x ∷ row ((x + width - 1) % width) ∷ row ((x + 1) % width) ∷ [])
      then target
      else row x
]

-- `char not in " ."`
abbrev pub paints : ℕ → Bool
paints c = not (c == b' ') && not (c == b'.')

unfoldable pub repaint : Grid → Grid → Grid
repaint w c i x = if paints (c i x) then c i x else w i x

unfoldable pub to_brian : Grid → Grid
to_brian w i x = if w i x == space then space else at_sign

-- `RAMP[n % 10]`
unfoldable pub ramp_at : ℕ → ℕ
ramp_at n = get_or (get_elem? ramp (n % 10)) space

-- `RAMP[1:]`
abbrev pub is_lit : ℕ → Bool
is_lit c = elem c (b'.' ∷ b':' ∷ b'-' ∷ b'=' ∷ b'+' ∷ b'*' ∷ b'#' ∷ b'%' ∷ b'@' ∷ [])

unfoldable pub to_cyclic : Grid → ℕ → ℕ → Grid
to_cyclic w ytop team i x =
    let y = (ytop + i) % 80 in
    if is_lit (w i x) then w i x else ramp_at (7 * x + 3 * y + x * y % 11 + team)
