-- ===== src/Evolution/Torus.antt =====
-- The specification: the evolution of a whole board whose rows and columns close on themselves. A
-- row is named by its place on the board, and every row is computed from its two neighbours.
use data_communication.Prelude.{ℕ, zero, suc, ◌+◌, ◌-◌, ◌*◌, ◌%◌, ◌==◌, if◌then◌else◌}
use data_communication.Evolution.Rules.{Grid, repaint, to_brian, is_lit, ramp_at}
use data_communication.Evolution.Board.{cell, height}
use data_communication.Evolution.Distributed.{Job}

-- The conversion to the cyclic board, row by its place.
unfoldable pub cyclic : ℕ → Grid → Grid
cyclic team g y x = if is_lit (g y x) then g y x else ramp_at (7 * x + 3 * y + x * y % 11 + team)

unfoldable pub converted : Job → ℕ → Grid → Grid
converted j r g =
    if r == 1000
    then to_brian (repaint g j.canvas1)
    else if r == 2000
    then cyclic j.team (repaint g j.canvas2)
    else g

unfoldable pub evolve : Job → ℕ → Grid → Grid
evolve j r g y =
    let c = converted j r g in
    cell r j.width (c ((y + height - 1) % height)) (c y) (c ((y + 1) % height))

-- The board after `r` rounds.
unfoldable pub torus : Job → ℕ → Grid
torus j zero = j.canvas0
torus j (suc r) = evolve j r (torus j r)
