-- ===== src/Evolution/Board.antt =====
-- HW4/src/worker/board.py: `Board`. Row 0 and row h + 1 are the halos.
use data_communication.Prelude.{
  ℕ, suc, ◌+◌, ◌-◌, ◌/◌, ◌%◌, ◌&&◌, ◌||◌, not, Option, none, some, ◌==◌, leb, ltb, if◌then◌else◌,
}
use data_communication.Evolution.Rules.{
  Row, Grid, space, rule1_cell, rule2_cell, rule3_cell, repaint, to_brian, to_cyclic,
}

abbrev pub height : ℕ
height = 80

abbrev pub rounds : ℕ
rounds = 3000

pub record Board : Type 0 where
  pub h : ℕ
  pub width : ℕ
  pub y0 : ℕ
  pub team : ℕ
  pub cur : Grid
  pub next : Grid
  pub canvas1 : Grid
  pub canvas2 : Grid
  pub round : ℕ

-- `Board.__init__`, of the `h` rows of a band.
unfoldable pub new_board : ℕ → ℕ → Grid → Grid → Grid → ℕ → ℕ → Board
new_board h width rows canvas1 canvas2 y0 team = record {
  h = h;
  width = width;
  y0 = y0;
  team = team;
  cur = λ i. if leb 1 i && leb i h then rows (i - 1) else λ _. space;
  next = λ _ _. space;
  canvas1 = canvas1;
  canvas2 = canvas2;
  round = 0;
}

-- `self.cur[0][:], self.cur[-1][:] = top, bottom`
unfoldable pub with_halos : ℕ → Row → Row → Grid → Grid
with_halos h top bottom w i = if i == 0 then top else if i == suc h then bottom else w i

-- The change of rules at rounds 1000 and 2000.
unfoldable pub convert : ℕ → ℕ → ℕ → Grid → Grid → Grid → Grid
convert r y0 team canvas1 canvas2 w =
    if r == 1000
    then to_brian (repaint w canvas1)
    else if r == 2000
    then to_cyclic (repaint w canvas2) ((y0 + height - 1) % height) team
    else w

-- `(rule1_cell, rule2_cell, rule3_cell)[r // 1000]`
unfoldable pub cell : ℕ → ℕ → Row → Row → Row → ℕ → ℕ
cell r = if r / 1000 == 0 then rule1_cell else if r / 1000 == 1 then rule2_cell else rule3_cell

-- `none` is the ValueError of a wrong round.
unfoldable pub step : ℕ → Row → Row → Board → Option Board
step r top bottom b =
    if not (r == b.round) || not (ltb r rounds)
    then none
    else let w = convert r b.y0 b.team b.canvas1 b.canvas2 (with_halos b.h top bottom b.cur) in
      some (record b {
        cur = λ i.
            if leb 1 i && leb i b.h then cell r b.width (w (i - 1)) (w i) (w (i + 1)) else b.next i;
        next = w;
        round = b.round + 1;
      })

-- The edges that `result` sends: the first and the last row of the band.
unfoldable pub first_row : Board → Row
first_row b = b.cur 1

unfoldable pub last_row : Board → Row
last_row b = b.cur b.h
