-- ===== src/Barrier/Invariant.antt =====
-- The runs of the barrier of HW4/src/assigner/barrier.py, and what holds in each of their states.
-- `sent k r` stands for the edges that worker `k` sends in round `r`, `first` for the first halos.
use data_communication.Prelude.{
  ℕ, zero, suc, ◌≤◌, ◌<◌, ◌≡◌, Bool, true, Option, none, some, is_num, ltb, total, if◌then◌else◌,
}
use data_communication.Evolution.Distributed.{above_of, below_of}
use data_communication.Barrier.Sections
use data_communication.Barrier.Sections.{
  Barrier, Edges, Place, starting, exchanging, waiting, leaving, returned, initial,
}

-- The halos of worker `k` in round `r`: the last row that the worker above sent in the round before,
-- and the first row that the worker below sent.
abbrev pub due : ℕ → (ℕ → ℕ → Edges) → (ℕ → Edges) → ℕ → ℕ → Edges
due n sent first zero k = first k
due n sent first (suc r) k = ((sent (above_of n k) r).1, (sent (below_of n k) r).0)

abbrev pub is_before : Option ℕ → ℕ → Bool
is_before none r = true
is_before (some q) r = ltb q r

abbrev pub weight : ℕ → Option ℕ → ℕ
weight r o = if is_num o r then 1 else 0

module _ (n rounds : ℕ) (sent : ℕ → ℕ → Edges) (first : ℕ → Edges) where
  pub data Step (s : Barrier) : Barrier → Type 0 where
    enter : (k : ℕ) → k < n → Step s (Sections.enter k s).0
    arrive : (k : ℕ) → k < n → Step s (Sections.arrive (sent k) k s).0
    wake : (k : ℕ) → k < n → Step s (Sections.wake rounds k s)
    advance : Step s (Sections.advance n rounds s)
    fail : Step s (Sections.fail s)

  pub data Reach : Barrier → Type 0 where
    here : Reach (initial rounds first)
    next : {s t : Barrier} → Reach s → Step s t → Reach t

-- What the place of a handler says in round `round`.
abbrev pub Fits : ℕ → ℕ → Edges → Option ℕ → Place → Type 0
Fits rounds round halo seen (starting r) =
    (r ≡ round) × (r < rounds) × (is_before seen round ≡ true)
Fits rounds round halo seen (exchanging r h) =
    (r ≡ round) × (r < rounds) × (is_before seen round ≡ true) × (h ≡ halo)
Fits rounds round halo seen (waiting r) =
    (seen ≡ some r) × (r ≤ round) × (round ≤ suc r) × (r < rounds)
Fits rounds round halo seen leaving = (round ≡ rounds) × (is_before seen round ≡ true)
Fits rounds round halo seen returned = ⊥

pub record IsSound (n rounds : ℕ) (sent : ℕ → ℕ → Edges) (first : ℕ → Edges) (s : Barrier)
    : Type 0 where
  pub places : (k : ℕ) → k < n → Fits rounds s.round (s.halos k) (s.seen k) (s.place k)
  pub delivered :
      (k : ℕ) → k < n → is_num (s.seen k) s.round ≡ true → s.edges k ≡ some (sent k s.round)
  pub counted : s.arrived ≡ total (weight s.round) n s.seen
  pub right : (k : ℕ) → k < n → s.halos k ≡ due n sent first s.round k
  pub within : s.round ≤ rounds
