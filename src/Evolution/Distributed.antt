-- ===== src/Evolution/Distributed.antt =====
-- The two ways to run the evolution. `reference` is the loop of HW4/src/worker/reference.py, one
-- board for all rows. `workers` is HW4/src/assigner/barrier.py with HW4/src/worker/__main__.py: in
-- each round every worker steps with the halos that the barrier made of the edges of the round
-- before, and no worker starts a round before all have finished the last.
use data_communication.Prelude.{ℕ, zero, suc, ◌+◌, ◌-◌, ◌%◌, Option, none, some}
use data_communication.Evolution.Rules.{Row, Grid}
use data_communication.Evolution.Board.{Board, new_board, step, first_row, last_row, height}
use data_communication.Evolution.Partition.{band_start, extended, assigned_board, initial_halos}

infixl 5 ◌>>=◌
abbrev pub ◌>>=◌ : {A B : Type 0} → Option A → (A → Option B) → Option B
none >>= f = none
some a >>= f = f a

-- The three canvases, their width and the team number.
pub record Job : Type 0 where
  pub width : ℕ
  pub team : ℕ
  pub canvas0 : Grid
  pub canvas1 : Grid
  pub canvas2 : Grid

-- The board of all rows after `r` rounds: row 80 is above row 1, row 1 below row 80.
unfoldable pub reference : Job → ℕ → Option Board
reference j zero =
    some (new_board height j.width j.canvas0 (extended j.canvas1 0) (extended j.canvas2 0) 0 j.team)
reference j (suc r) = do b ← reference j r; step r (b.cur height) (b.cur 1) b

-- The neighbour of worker `k` above, and below.
abbrev pub above_of : ℕ → ℕ → ℕ
above_of n k = (k + n - 1) % n

abbrev pub below_of : ℕ → ℕ → ℕ
below_of n k = (k + 1) % n

unfoldable pub start_board : Job → ℕ → ℕ → Board
start_board j n k =
    assigned_board j.width j.canvas0 j.canvas1 j.canvas2 j.team (band_start n k)
      (band_start n (suc k))

-- The halos of round `r`: of the canvas in round 0, and of the edges after that.
unfoldable pub halos : Job → ℕ → ℕ → ℕ → (ℕ → Option Board) → Option (Row × Row)
halos j n zero k boards = some (initial_halos j.canvas0 (band_start n k) (band_start n (suc k)))
halos j n (suc r) k boards = do
  up ← boards (above_of n k)
  down ← boards (below_of n k)
  some (last_row up, first_row down)

-- The board of worker `k` of `n` after `r` rounds.
unfoldable pub workers : Job → ℕ → ℕ → ℕ → Option Board
workers j n zero k = some (start_board j n k)
workers j n (suc r) k = do
  edges ← halos j n r k (workers j n r)
  b ← workers j n r k
  step r edges.0 edges.1 b
