-- ===== src/Evolution/Partition.antt =====
-- HW4/src/assigner/partition.py: the bands of the workers and what each worker gets.
use data_communication.Prelude.{
  ℕ, suc, ◌+◌, ◌-◌, ◌*◌, ◌/◌, ◌%◌, Bool, ◌&&◌, Option, none, some, [], ◌∷◌, elem, ltb,
  if◌then◌else◌,
}
use data_communication.Evolution.Rules.{Row, Grid}
use data_communication.Evolution.Board.{Board, new_board, height}

abbrev pub is_count : ℕ → Bool
is_count n = elem n (1 ∷ 4 ∷ 5 ∷ 6 ∷ 7 ∷ 8 ∷ [])

-- Where band `k` of `n` begins; it ends where the next begins.
unfoldable pub band_start : ℕ → ℕ → ℕ
band_start n k = height * k / n

-- `bands(n)[k]`; `none` is the ValueError, and a `k` that is out of range.
unfoldable pub bands : ℕ → ℕ → Option (ℕ × ℕ)
unfolding band_start
bands n k = if is_count n && ltb k n then some (band_start n k, band_start n (suc k)) else none

-- The rows `assignment_rows` takes of the second and third canvas, row `i` of the extended band.
unfoldable pub extended : Grid → ℕ → Grid
extended canvas y0 i = canvas ((y0 + i + height - 1) % height)

-- The board that a worker builds from its assignment.
unfoldable pub assigned_board : ℕ → Grid → Grid → Grid → ℕ → ℕ → ℕ → Board
unfolding extended
assigned_board width canvas0 canvas1 canvas2 team y0 y1 =
    new_board (y1 - y0) width (λ i. canvas0 (y0 + i)) (extended canvas1 y0) (extended canvas2 y0) y0
      team

-- `initial_halos`
unfoldable pub initial_halos : Grid → ℕ → ℕ → Row × Row
initial_halos canvas y0 y1 = (canvas ((y0 + height - 1) % height), canvas (y1 % height))
