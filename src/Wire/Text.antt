-- ===== src/Wire/Text.antt =====
-- Python's strings as lists of code points, with the methods that HW3/hw3/common/protocol.py calls.
use data_communication.Prelude.{
  ℕ, zero, suc, ◌+◌, ◌*◌, ◌-◌, Bool, true, false, ◌&&◌, ◌||◌, List, [], ◌∷◌, ◌++◌, elem, leb, ◌==◌,
  if◌then◌else◌,
}

abbrev pub Text : Type 0
Text = List ℕ

abbrev pub blank : ℕ
blank = 32

-- `str.isspace` of a character.
unfoldable pub is_space : ℕ → Bool
is_space c =
    leb 9 c && leb c 13
    || leb 28 c && leb c 32
    || leb 8192 c && leb c 8202
    || elem c (133 ∷ 160 ∷ 5760 ∷ 8232 ∷ 8233 ∷ 8239 ∷ 8287 ∷ 12288 ∷ [])

-- `isascii` and `isdecimal` of a character.
abbrev pub is_digit : ℕ → Bool
is_digit c = leb 48 c && leb c 57

abbrev pub any_of {ℓ} : {A : Type ℓ} → (A → Bool) → List A → Bool
any_of p [] = false
any_of p (x ∷ xs) = p x || any_of p xs

abbrev pub is_empty : Text → Bool
is_empty [] = true
is_empty _ = false

-- `s == t`
unfoldable pub same : Text → Text → Bool
same [] [] = true
same (a ∷ s) (b ∷ t) = a == b && same s t
same _ _ = false

unfoldable pub starts_with : Text → Text → Bool
starts_with s [] = true
starts_with (a ∷ s) (b ∷ t) = a == b && starts_with s t
starts_with [] (b ∷ t) = false

-- `s[n:]`
unfoldable pub from_index : ℕ → Text → Text
from_index zero s = s
from_index (suc n) [] = []
from_index (suc n) (c ∷ s) = from_index n s

-- `int(s)` of decimal digits that follow a number `n`.
unfoldable pub number_from : ℕ → Text → ℕ
number_from n [] = n
number_from n (c ∷ s) = number_from (n * 10 + (c - 48)) s

abbrev pub number : Text → ℕ
number s = number_from 0 s

unfoldable pub lstrip : Text → Text
lstrip [] = []
lstrip (c ∷ s) = let rest = lstrip s in if is_space c then rest else c ∷ s

unfoldable pub rstrip : Text → Text
rstrip [] = []
rstrip (c ∷ s) = let rest = rstrip s in if is_space c && is_empty rest then [] else c ∷ rest

unfoldable pub strip : Text → Text
strip s = rstrip (lstrip s)

-- `"  " in s`, where `before` tells whether a blank comes before `s`.
unfoldable pub double_blank : Bool → Text → Bool
double_blank before [] = false
double_blank before (c ∷ s) = before && c == blank || double_blank (c == blank) s

abbrev pub cons_head : ℕ → List Text → List Text
cons_head c [] = (c ∷ []) ∷ []
cons_head c (t ∷ ts) = (c ∷ t) ∷ ts

-- `s.split(" ")`
unfoldable pub split : Text → List Text
split [] = [] ∷ []
split (c ∷ s) = let rest = split s in if c == blank then [] ∷ rest else cons_head c rest

-- `" ".join((t, *ts))`
unfoldable pub join : Text → List Text → Text
join t [] = t
join t (u ∷ ts) = t ++ blank ∷ join u ts
