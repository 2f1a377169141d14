-- ===== src/Coordinator/Target.antt =====
-- HW3/hw3/coordinator/tables.py: the choice that `next_alive` makes along the ring.
use data_communication.Prelude.{
  ℕ, suc, ◌+◌, ◌-◌, ◌%◌, ◌≤◌, ◌≡◌, ◌≢◌, ◌⊎◌, refl, Bool, true, false, Option, none, some, List, [],
  ◌∷◌, map, All, ◌==◌, elem, arith, inl, inr, subst, Bool-cases, ==→eq,
}
use data_communication.Coordinator.State.{Worker, Health, worker_count}
use data_communication.Coordinator.Assign.{is_suspect}
use data_communication.Coordinator.Detect.{is_alive, ring_order, first_with, or_else, next_alive}
use data_communication.Coordinator.Invariant.{IsMember}

-- How many places worker `i` is behind `source` along the ring.
pub distance : ℕ → ℕ → ℕ
distance source i = (i + worker_count - source) % worker_count

-- The distances grow along the list.
abbrev IsGrowing : (ℕ → ℕ) → List ℕ → Type 0
IsGrowing f [] = Unit
IsGrowing f (x ∷ xs) = All (λ i. f x ≤ f i) xs × IsGrowing f xs

elem-All : (P : ℕ → Type 0) (xs : List ℕ) (i : ℕ) → All P xs → elem i xs ≡ true → P i
elem-All P [] i h e = absurd (cc)
elem-All P (x ∷ xs) i h e = elim (Bool-cases (x == i)) [
  | inl here ↦ subst P (==→eq x i here) h.0
  | inr later ↦ elem-All P xs i h.1 (ground arith)
]

first_with-le :
    (f : ℕ → ℕ) (p : Health → Bool) (ws : ℕ → Worker) (xs : List ℕ) (i j : ℕ)
    → IsGrowing f xs
    → first_with p ws xs ≡ some j
    → elem i xs ≡ true
    → p (ws i).health ≡ true
    → f j ≤ f i
first_with-le f p ws [] i j g e m h = cc
first_with-le f p ws (x ∷ xs) i j g e m h =
    ground (arith, first_with-le f p ws xs i j g.1, elem-All (λ i. f x ≤ f i) xs i g.0)

first_with-none :
    (p : Health → Bool) (ws : ℕ → Worker) (xs : List ℕ) (i : ℕ)
    → first_with p ws xs ≡ none
    → elem i xs ≡ true
    → p (ws i).health ≡ false
first_with-none p ws [] i e m = cc
first_with-none p ws (x ∷ xs) i e m = ground (arith, first_with-none p ws xs i)

elem-map :
    (f : ℕ → ℕ) (o i : ℕ) (os : List ℕ) → elem o os ≡ true → i ≡ f o → elem i (map f os) ≡ true
elem-map f o i [] m e = cc
elem-map f o i (x ∷ os) m e = ground (arith, elem-map f o i os)

abbrev offsets : List ℕ
offsets = 1 ∷ 2 ∷ 3 ∷ 4 ∷ 5 ∷ 6 ∷ 7 ∷ 8 ∷ 9 ∷ []

elem-offsets : (o : ℕ) → 1 ≤ o → o ≤ 9 → elem o offsets ≡ true
elem-offsets o h h' = ground arith

elem-ring_order :
    (source i : ℕ) → IsMember source → IsMember i → i ≢ source → elem i (ring_order source) ≡ true
unfolding ring_order
elem-ring_order source i s m ne =
    elem-map (λ offset. suc ((source + offset - 1) % worker_count)) ((i + 10 - source) % 10) i
      offsets (elem-offsets ((i + 10 - source) % 10) (omega arith) (omega arith)) (omega arith)

ring_order-IsGrowing :
    (source : ℕ) → IsMember source → IsGrowing (distance source) (ring_order source)
unfolding ring_order distance
ring_order-IsGrowing source s = omega arith

-- All of the ring order are members, and none is the source.
ring_order-others :
    (source : ℕ) → IsMember source → All (λ j. IsMember j × (j ≢ source)) (ring_order source)
unfolding ring_order
ring_order-others source s = (
  next 1 (omega arith) (omega arith),
  (
    next 2 (omega arith) (omega arith),
    (
      next 3 (omega arith) (omega arith),
      (
        next 4 (omega arith) (omega arith),
        (
          next 5 (omega arith) (omega arith),
          (
            next 6 (omega arith) (omega arith),
            (
              next 7 (omega arith) (omega arith),
              (next 8 (omega arith) (omega arith), (next 9 (omega arith) (omega arith), tt)),
            ),
          ),
        ),
      ),
    ),
  ),
)
  where
    next :
        (o : ℕ)
        → 1 ≤ o
        → o ≤ 9
        → let j = suc ((source + o - 1) % worker_count) in IsMember j × (j ≢ source)
    next o low high = ((omega arith, omega arith), λ e. absurd (omega (arith, e)))

-- What is true of all in the list is true of the first that fits.
first_with-All :
    (P : ℕ → Type 0) (p : Health → Bool) (ws : ℕ → Worker) (xs : List ℕ) (j : ℕ)
    → All P xs
    → first_with p ws xs ≡ some j
    → P j
first_with-All P p ws [] j h e = absurd (ground (arith, e))
first_with-All P p ws (x ∷ xs) j h e = elim (Bool-cases (p (ws x).health)) [
  | inl fit ↦ subst P (ground (arith, e, fit)) h.0
  | inr unfit ↦ first_with-All P p ws xs j h.1 (ground (arith, e, unfit))
]

-- `j` is the nearest of the other members with health `p`.
pub record IsNearest (p : Health → Bool) (source : ℕ) (ws : ℕ → Worker) (j : ℕ) : Type 0 where
  pub member : IsMember j
  pub other : j ≢ source
  pub fits : p (ws j).health ≡ true
  pub nearest :
      (i : ℕ)
      → IsMember i
      → i ≢ source
      → p (ws i).health ≡ true
      → distance source j ≤ distance source i

-- No other member has health `p`.
abbrev pub NoOther : (Health → Bool) → ℕ → (ℕ → Worker) → Type 0
NoOther p source ws = (i : ℕ) → IsMember i → i ≢ source → p (ws i).health ≡ false

module _ (source : ℕ) (ws : ℕ → Worker) (s : IsMember source) where
  first_with-fits :
      (p : Health → Bool) (xs : List ℕ) (j : ℕ)
      → first_with p ws xs ≡ some j
      → p (ws j).health ≡ true
  first_with-fits p [] j e = cc
  first_with-fits p (x ∷ xs) j e = ground (arith, first_with-fits p xs j)

  first_with-IsNearest :
      (p : Health → Bool) (j : ℕ)
      → first_with p ws (ring_order source) ≡ some j
      → IsNearest p source ws j
  first_with-IsNearest p j e = record {
    member =
        (first_with-All (λ j. IsMember j × (j ≢ source)) p ws (ring_order source) j
          (ring_order-others source s) e).0;
    other =
        (first_with-All (λ j. IsMember j × (j ≢ source)) p ws (ring_order source) j
          (ring_order-others source s) e).1;
    fits = first_with-fits p (ring_order source) j e;
    nearest = λ i m ne h.
        first_with-le (distance source) p ws (ring_order source) i j (ring_order-IsGrowing source s)
          e (elem-ring_order source i s m ne) h;
  }

  first_with-NoOther :
      (p : Health → Bool) → first_with p ws (ring_order source) ≡ none → NoOther p source ws
  first_with-NoOther p e i m ne =
      first_with-none p ws (ring_order source) i e (elem-ring_order source i s m ne)

  -- The outcome of `next_alive`, by the result.
  pub Target : Option ℕ → Type 0
  Target (some j) =
      IsNearest is_alive source ws j
      ⊎ (NoOther is_alive source ws × IsNearest is_suspect source ws j)
  Target none = NoOther is_alive source ws × NoOther is_suspect source ws

  or_else_lem :
      (a b : Option ℕ)
      → first_with is_alive ws (ring_order source) ≡ a
      → first_with is_suspect ws (ring_order source) ≡ b
      → Target (or_else a b)
  unfolding Target
  or_else_lem (some j) b e f = inl (first_with-IsNearest is_alive j e)
  or_else_lem none (some j) e f =
      inr (first_with-NoOther is_alive e, first_with-IsNearest is_suspect j f)
  or_else_lem none none e f = (first_with-NoOther is_alive e, first_with-NoOther is_suspect f)

  -- `next_alive` finds, of the other members, the nearest along the ring that is alive; if none is
  -- alive, the nearest that is suspect; and it fails only if all the others are dead.
  pub next_alive_lem : Target (next_alive source ws)
  unfolding next_alive
  next_alive_lem = or_else_lem _ _ refl refl

  pub next_alive-none :
      next_alive source ws ≡ none → NoOther is_alive source ws × NoOther is_suspect source ws
  unfolding Target
  next_alive-none e = subst Target e next_alive_lem
