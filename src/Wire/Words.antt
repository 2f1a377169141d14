-- ===== src/Wire/Words.antt =====
-- Words without white space, joined by single blanks and split again.
use data_communication.Prelude.{
  ℕ, Bool, true, false, ◌&&◌, ◌||◌, not, List, [], ◌∷◌, ◌++◌, All, ◌≡◌, refl, subst, ap, ◌∙◌, ◌==◌,
  if◌then◌else◌, Bool-cases, arith, inl, inr,
}
use mathlib.Core.List.{append-nil}
use data_communication.Wire.Text.{
  Text, blank, is_space, any_of, is_empty, same, lstrip, rstrip, strip, double_blank, cons_head,
  split, join,
}

-- A token: it is not empty and has no white space.
abbrev pub is_word : Text → Bool
is_word t = not (is_empty t || any_of is_space t)

blank-is_space : (c : ℕ) → is_space c ≡ false → (c == blank) ≡ false
unfolding is_space
blank-is_space c h = ground arith

pub same_refl : (s : Text) → same s s ≡ true
unfolding same
same_refl [] = refl
same_refl (c ∷ s) = ground (arith, same_refl s)

-- What splits into words joins to the same text.
pub join-cons_head : (c : ℕ) (t : Text) (ts : List Text) → join (c ∷ t) ts ≡ c ∷ join t ts
unfolding join
join-cons_head c t [] = refl
join-cons_head c t (u ∷ ts) = refl

-- `split` gives one part more than there are blanks: a first one and the others.
abbrev pub IsSplit : Text → List Text → Type 0
IsSplit s [] = ⊥
IsSplit s (t ∷ ts) = join t ts ≡ s

IsSplit-cons_head :
    (c : ℕ) (s : Text) (ts : List Text) → IsSplit s ts → IsSplit (c ∷ s) (cons_head c ts)
IsSplit-cons_head c s [] h = elim h [ ]
IsSplit-cons_head c s (t ∷ ts) h = join-cons_head c t ts ∙ ap (λ r. c ∷ r) h

IsSplit-blank : (s : Text) (ts : List Text) → IsSplit s ts → IsSplit (blank ∷ s) ([] ∷ ts)
unfolding join
IsSplit-blank s [] h = elim h [ ]
IsSplit-blank s (t ∷ ts) h = ap (λ r. blank ∷ r) h

pub join-split : (s : Text) → IsSplit s (split s)
unfolding split join
join-split [] = refl
join-split (c ∷ s) = elim (Bool-cases (c == blank)) [
  | inl e ↦ rw (e, eq c e) (IsSplit-blank s (split s) (join-split s))
  | inr e ↦ rw e (IsSplit-cons_head c s (split s) (join-split s))
]
  where
    eq : (c : ℕ) → (c == blank) ≡ true → c ≡ blank
    eq c h = ground arith

split-word : (t : Text) → any_of is_space t ≡ false → split t ≡ t ∷ []
unfolding split
split-word [] h = refl
split-word (c ∷ t) h =
    rw (blank-is_space c (ground arith)) (ap (cons_head c) (split-word t (ground arith)))

split-append : (t s : Text) → any_of is_space t ≡ false → split (t ++ blank ∷ s) ≡ t ∷ split s
unfolding split
split-append [] s h = refl
split-append (c ∷ t) s h =
    rw (blank-is_space c (ground arith)) (ap (cons_head c) (split-append t s (ground arith)))

abbrev pub Words : List Text → Type 0
Words ts = All (λ t. is_word t ≡ true) ts

spaceless : (t : Text) → is_word t ≡ true → any_of is_space t ≡ false
spaceless t h = ground arith

pub split-join : (t : Text) (ts : List Text) → Words (t ∷ ts) → split (join t ts) ≡ t ∷ ts
unfolding join
split-join t [] (w, _) = split-word t (spaceless t w)
split-join t (u ∷ ts) (w, ws) =
    split-append t (join u ts) (spaceless t w) ∙ ap (λ r. t ∷ r) (split-join u ts ws)

-- A character class of white space without the blank does not occur in joined words.
any_of-append :
    (p : ℕ → Bool) (t s : Text)
    → ((c : ℕ) → is_space c ≡ false → p c ≡ false)
    → any_of is_space t ≡ false
    → any_of p (t ++ s) ≡ any_of p s
any_of-append p [] s h e = refl
any_of-append p (c ∷ t) s h e = rw (h c (ground arith)) (any_of-append p t s h (ground arith))

pub any_of-join :
    (p : ℕ → Bool) (t : Text) (ts : List Text)
    → ((c : ℕ) → is_space c ≡ false → p c ≡ false)
    → p blank ≡ false
    → Words (t ∷ ts)
    → any_of p (join t ts) ≡ false
unfolding join
any_of-join p t [] h b (w, _) =
    subst (λ r. any_of p r ≡ false) (append-nil t) (any_of-append p t [] h (spaceless t w))
any_of-join p t (u ∷ ts) h b (w, ws) =
    any_of-append p t (blank ∷ join u ts) h (spaceless t w) ∙ rw b (any_of-join p u ts h b ws)

pub double_blank-append :
    (t s : Text) → any_of is_space t ≡ false → double_blank false (t ++ s) ≡ double_blank false s
unfolding double_blank
double_blank-append [] s h = refl
double_blank-append (c ∷ t) s h =
    rw (blank-is_space c (ground arith)) (double_blank-append t s (ground arith))

double_blank-word :
    (before : Bool) (t s : Text)
    → is_word t ≡ true
    → double_blank before (t ++ s) ≡ double_blank false s
unfolding double_blank
double_blank-word before [] s h = ground arith
double_blank-word before (c ∷ t) s h =
    rw (blank-is_space c (ground arith)) (ground (arith, double_blank-append t s (ground arith)))

pub double_blank-join :
    (before : Bool) (t : Text) (ts : List Text)
    → Words (t ∷ ts)
    → double_blank before (join t ts) ≡ false
unfolding join double_blank
double_blank-join before t [] (w, _) =
    subst (λ r. double_blank before r ≡ false) (append-nil t) (double_blank-word before t [] w)
double_blank-join before t (u ∷ ts) (w, ws) =
    double_blank-word before t (blank ∷ join u ts) w ∙ double_blank-join true u ts ws

-- White space at the ends: `strip` leaves joined words as they are.
rstrip-append : (t s : Text) → is_empty s ≡ false → rstrip s ≡ s → rstrip (t ++ s) ≡ t ++ s
unfolding rstrip
rstrip-append [] s n h = h
rstrip-append (c ∷ t) s n h = rw (rstrip-append t s n h, still t) (keep (is_space c))
  where
    still : (t : Text) → is_empty (t ++ s) ≡ false
    still [] = n
    still (b ∷ t) = refl

    keep : (b : Bool) → (if b && false then [] else c ∷ (t ++ s)) ≡ c ∷ (t ++ s)
    keep true = refl
    keep false = refl

rstrip-word : (t : Text) → any_of is_space t ≡ false → rstrip t ≡ t
unfolding rstrip
rstrip-word [] h = refl
rstrip-word (c ∷ t) h =
    let e : is_space c ≡ false = ground arith in
    rw e (ap (λ r. c ∷ r) (rstrip-word t (ground arith)))

pub is_empty-join : (t : Text) (ts : List Text) → is_word t ≡ true → is_empty (join t ts) ≡ false
unfolding join
is_empty-join [] ts w = ground arith
is_empty-join (c ∷ t) [] w = refl
is_empty-join (c ∷ t) (u ∷ ts) w = refl

rstrip-join : (t : Text) (ts : List Text) → Words (t ∷ ts) → rstrip (join t ts) ≡ join t ts
unfolding join rstrip is_space
rstrip-join t [] (w, _) = rstrip-word t (spaceless t w)
rstrip-join t (u ∷ ts) (w, ws) =
    rstrip-append t (blank ∷ join u ts) refl
      (rw (rstrip-join u ts ws, is_empty-join u ts ws.0) refl)

lstrip-join : (t : Text) (ts : List Text) → is_word t ≡ true → lstrip (join t ts) ≡ join t ts
lstrip-join [] ts w = ground arith
lstrip-join (c ∷ t) ts w =
    rw (join-cons_head c t ts) (unfold lstrip in first (join t ts) (ground arith))
  where
    first : (s : Text) → is_space c ≡ false → (if is_space c then lstrip s else c ∷ s) ≡ c ∷ s
    first s e = rw e refl

pub strip-join : (t : Text) (ts : List Text) → Words (t ∷ ts) → strip (join t ts) ≡ join t ts
unfolding strip
strip-join t ts ws = rw (lstrip-join t ts ws.0) (rstrip-join t ts ws)
