-- ===== src/Evolution/Agree.antt =====
-- The workers together, and the single reference board.
use data_communication.Prelude.{
  ℕ, zero, suc, ◌+◌, ◌-◌, ◌%◌, ◌≤◌, ◌<◌, ◌≡◌, ◌⊎◌, inl, inr, refl, sym, ap, subst, ◌∙◌, true,
  Option, some, arith,
}
use data_communication.Evolution.Rules.{Row}
use data_communication.Evolution.Board.{Board, step, first_row, last_row, height, rounds}
use data_communication.Evolution.Partition.{is_count, band_start, initial_halos, assigned_board}
use data_communication.Evolution.Distributed.{
  Job, ◌>>=◌, reference, above_of, below_of, start_board, halos, workers,
}
use data_communication.Evolution.Torus.{torus}
use data_communication.Evolution.Refines.{place, Follows, step-Follows, new_board-Follows}

-- What the bands of `n` workers give to worker `k`.
record BandLaws (n k : ℕ) : Type 0 where
  up_in : above_of n k < n
  down_in : below_of n k < n
  grows : band_start n k < band_start n (suc k)
  fits : band_start n (suc k) ≤ height
  up_ends : band_start n (suc (above_of n k)) % height ≡ band_start n k % height
  down_starts : band_start n (below_of n k) % height ≡ band_start n (suc k) % height

counts :
    (n : ℕ) → is_count n ≡ true → (n ≡ 1) ⊎ ((n ≡ 4) ⊎ ((n ≡ 5) ⊎ ((n ≡ 6) ⊎ ((n ≡ 7) ⊎ (n ≡ 8)))))
counts n h = ground arith

module _ (k : ℕ) where
  laws1 : k < 1 → BandLaws 1 k
  unfolding band_start
  laws1 lt = omega arith

  laws4 : k < 4 → BandLaws 4 k
  unfolding band_start
  laws4 lt = omega arith

  laws5 : k < 5 → BandLaws 5 k
  unfolding band_start
  laws5 lt = omega arith

  laws6 : k < 6 → BandLaws 6 k
  unfolding band_start
  laws6 lt = omega arith

  laws7 : k < 7 → BandLaws 7 k
  unfolding band_start
  laws7 lt = omega arith

  laws8 : k < 8 → BandLaws 8 k
  unfolding band_start
  laws8 lt = omega arith

band_laws : (n k : ℕ) → is_count n ≡ true → k < n → BandLaws n k
band_laws n k h lt = by_count (counts n h) lt
  where
    by_count :
        (n ≡ 1) ⊎ ((n ≡ 4) ⊎ ((n ≡ 5) ⊎ ((n ≡ 6) ⊎ ((n ≡ 7) ⊎ (n ≡ 8))))) → k < n → BandLaws n k
    by_count (inl e) l = subst (λ m. k < m → BandLaws m k) (sym e) (laws1 k) l
    by_count (inr (inl e)) l = subst (λ m. k < m → BandLaws m k) (sym e) (laws4 k) l
    by_count (inr (inr (inl e))) l = subst (λ m. k < m → BandLaws m k) (sym e) (laws5 k) l
    by_count (inr (inr (inr (inl e)))) l = subst (λ m. k < m → BandLaws m k) (sym e) (laws6 k) l
    by_count (inr (inr (inr (inr (inl e))))) l =
        subst (λ m. k < m → BandLaws m k) (sym e) (laws7 k) l
    by_count (inr (inr (inr (inr (inr e))))) l =
        subst (λ m. k < m → BandLaws m k) (sym e) (laws8 k) l

-- How many rows worker `k` has.
abbrev pub band_rows : ℕ → ℕ → ℕ
band_rows n k = band_start n (suc k) - band_start n k

-- The board after `r` rounds is there, and it follows the torus.
abbrev pub Reached : Job → ℕ → ℕ → ℕ → Option Board → Type 0
Reached j r y0 h o = (b : Board) × (o ≡ some b) × Follows j r y0 h b

module _ (j : Job) where
  bind-step :
      (r y0 h : ℕ) (o : Option Board) (top bottom : Board → Row)
      → r < rounds
      → (got : Reached j r y0 h o) → top got.0 ≡ torus j r (place y0 0)
      → bottom got.0 ≡ torus j r (place y0 (suc h))
      → Reached j (suc r) y0 h (o >>= λ b. step r (top b) (bottom b) b)
  bind-step r y0 h o top bottom lt (b, e, f) t u =
      rw e (step-Follows j r y0 h (top b) (bottom b) b f t u lt)

  -- The single board of the reference follows the torus through every round, and no step fails.
  pub reference-Reached : (r : ℕ) → r ≤ rounds → Reached j r 0 height (reference j r)
  unfolding reference
  reference-Reached zero le = (
    _,
    refl,
    new_board-Follows j 0 height j.canvas0 (omega arith) (λ i. ap j.canvas0 (omega arith)),
  )
  reference-Reached (suc r) le =
      let got = reference-Reached r (omega arith) in
      bind-step r 0 height (reference j r) (λ b. b.cur height) (λ b. b.cur 1) (omega arith) got
        (got.2.rows height (omega arith) (omega arith)) (got.2.rows 1 (omega arith) (omega arith))

module _ (j : Job) (n : ℕ) (ok : is_count n ≡ true) where
  abbrev WorkerReached : ℕ → ℕ → Type 0
  WorkerReached r k = Reached j r (band_start n k) (band_rows n k) (workers j n r k)

  -- The row above band `k` is the last of the band above, and the row below is the first of the next.
  last_row-place :
      (r k : ℕ) (b : Board)
      → k < n
      → Follows j r (band_start n (above_of n k)) (band_rows n (above_of n k)) b
      → last_row b ≡ torus j r (place (band_start n k) 0)
  unfolding last_row
  last_row-place r k b lt f =
      let up = band_laws n k ok lt in
      let own = band_laws n (above_of n k) ok up.up_in in
      ap b.cur f.size
      ∙ f.rows (band_rows n (above_of n k)) (omega (arith, own.grows)) (omega arith)
      ∙ ap (torus j r) (omega (arith, own.grows, up.up_ends))

  first_row-place :
      (r k : ℕ) (b : Board)
      → k < n
      → Follows j r (band_start n (below_of n k)) (band_rows n (below_of n k)) b
      → first_row b ≡ torus j r (place (band_start n k) (suc (band_rows n k)))
  unfolding first_row
  first_row-place r k b lt f =
      let down = band_laws n k ok lt in
      let own = band_laws n (below_of n k) ok down.down_in in
      f.rows 1 (omega arith) (omega (arith, own.grows))
      ∙ ap (torus j r) (omega (arith, down.grows, down.down_starts))

  -- The halos that worker `k` gets in round `r` are the rows of the torus around its band.
  abbrev HalosReached : ℕ → ℕ → Type 0
  HalosReached r k =
      (edges : Row × Row) × (halos j n r k (workers j n r) ≡ some edges)
      × (edges.0 ≡ torus j r (place (band_start n k) 0))
      × (edges.1 ≡ torus j r (place (band_start n k) (suc (band_rows n k))))

  halos-Reached :
      (r k : ℕ)
      → k < n
      → WorkerReached r k
      → WorkerReached r (above_of n k)
      → WorkerReached r (below_of n k)
      → HalosReached r k
  unfolding halos initial_halos torus
  halos-Reached zero k lt own up down =
      let laws = band_laws n k ok lt in
      (_, refl, ap j.canvas0 (omega arith), ap j.canvas0 (omega (arith, laws.grows, laws.fits)))
  halos-Reached (suc r) k lt own (up, eu, fu) (down, ed, fd) = (
    (last_row up, first_row down),
    rw (eu, ed),
    last_row-place (suc r) k up lt fu,
    first_row-place (suc r) k down lt fd,
  )

  -- Each worker follows its own rows of the torus through every round, and no step fails.
  pub workers-Reached : (r k : ℕ) → r ≤ rounds → k < n → WorkerReached r k
  unfolding workers start_board assigned_board
  workers-Reached zero k le lt =
      let laws = band_laws n k ok lt in
      (
        _,
        refl,
        new_board-Follows j (band_start n k) (band_rows n k) (λ i. j.canvas0 (band_start n k + i))
            (omega (arith, laws.grows, laws.fits)) (λ i. refl),
      )
  workers-Reached (suc r) k le lt =
      let laws = band_laws n k ok lt in
      let own = workers-Reached r k (omega arith) lt in
      let around =
        halos-Reached r k lt own (workers-Reached r (above_of n k) (omega arith) laws.up_in)
          (workers-Reached r (below_of n k) (omega arith) laws.down_in) in
      rw around.1 (
        bind-step j r (band_start n k) (band_rows n k) (workers j n r k) (λ _. around.0.0)
          (λ _. around.0.1) (omega arith) own around.2 around.3)

-- With any allowed number of workers, after any number of rounds up to 3000, every worker has a
-- board, the reference has one, and each row of the worker is the row of the reference at its place.
pub workers-agree-reference :
    (j : Job) (n k r : ℕ)
    → is_count n ≡ true
    → k < n
    → r ≤ rounds
    → (b : Board) × (c : Board) × (workers j n r k ≡ some b)
      × (reference j r ≡ some c)
      × ((i : ℕ) → 1 ≤ i → i ≤ b.h → b.cur i ≡ c.cur (band_start n k + i))
workers-agree-reference j n k r ok lt le =
    let laws = band_laws n k ok lt in
    let (b, eb, fb) = workers-Reached j n ok r k le lt in
    let (c, ec, fc) = reference-Reached j r le in
    (
      b,
      c,
      eb,
      ec,
      λ i low high.
          fb.rows i low (omega (arith, fb.size))
          ∙ ap (torus j r) (omega arith)
          ∙ sym (
              fc.rows (band_start n k + i) (omega arith)
                (omega (arith, fb.size, laws.grows, laws.fits))),
    )
