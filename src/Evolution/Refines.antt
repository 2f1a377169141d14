-- ===== src/Evolution/Refines.antt =====
-- A board that holds some rows of the torus, compared with the torus round by round.
use data_communication.Prelude.{
  ℕ, suc, ◌+◌, ◌-◌, ◌*◌, ◌%◌, ◌≤◌, ◌<◌, ◌≡◌, refl, sym, ap, ap₂, not, ◌||◌, ◌&&◌, ==→eq, ◌∙◌, true,
  false, some, ◌==◌, leb, ltb, if◌then◌else◌, arith, inl, inr, Bool-cases,
}
use data_communication.Evolution.Rules.{
  Row, Grid, space, repaint, to_brian, to_cyclic, paints, is_lit, ramp_at, at_sign,
}
use data_communication.Evolution.Board.{
  Board, new_board, with_halos, convert, cell, step, height, rounds,
}
use data_communication.Evolution.Partition.{extended}
use data_communication.Evolution.Distributed.{Job}
use data_communication.Evolution.Torus.{cyclic, converted, evolve, torus}

-- The place on the torus of row `i` of a board whose row 1 has place `y0`.
abbrev pub place : ℕ → ℕ → ℕ
place y0 i = (y0 + i + height - 1) % height

-- Board `b` holds the `h` rows from `y0` of the torus after `r` rounds.
pub record Follows (j : Job) (r y0 h : ℕ) (b : Board) : Type 0 where
  pub size : b.h ≡ h
  pub wide : b.width ≡ j.width
  pub start : b.y0 ≡ y0
  pub group : b.team ≡ j.team
  pub first : b.canvas1 ≡ extended j.canvas1 y0
  pub second : b.canvas2 ≡ extended j.canvas2 y0
  pub at : b.round ≡ r
  pub rows : (i : ℕ) → 1 ≤ i → i ≤ h → b.cur i ≡ torus j r (place y0 i)

module _ (w g : Grid) (y0 i : ℕ) (e : w i ≡ g (place y0 i)) where
  repaint-place : (c : Grid) → repaint w (extended c y0) i ≡ repaint g c (place y0 i)
  unfolding repaint extended
  repaint-place c =
      ap {B = Row} (λ row x. if paints (c (place y0 i) x) then c (place y0 i) x else row x) e

  to_brian-place : to_brian w i ≡ to_brian g (place y0 i)
  unfolding to_brian
  to_brian-place = ap {B = Row} (λ row x. if row x == space then space else at_sign) e

  to_cyclic-place :
      (team : ℕ) → to_cyclic w ((y0 + height - 1) % height) team i ≡ cyclic team g (place y0 i)
  unfolding to_cyclic cyclic
  to_cyclic-place team =
      ap₂ {C = Row}
        (λ y row x. if is_lit (row x) then row x else ramp_at (7 * x + 3 * y + x * y % 11 + team))
        (same_place) e
    where
      same_place : ((y0 + height - 1) % height + i) % 80 ≡ place y0 i
      same_place = omega arith

convert-place :
    (j : Job) (r y0 i : ℕ) (w g : Grid)
    → w i ≡ g (place y0 i)
    → convert r y0 j.team (extended j.canvas1 y0) (extended j.canvas2 y0) w i
      ≡ converted j r g (place y0 i)
unfolding convert converted
convert-place j r y0 i w g e = elim (Bool-cases (r == 1000)) [
  | inl brian ↦ rw brian (
      to_brian-place (repaint w (extended j.canvas1 y0)) (repaint g j.canvas1) y0 i
        (repaint-place w g y0 i e j.canvas1))
  | inr other ↦ elim (Bool-cases (r == 2000)) [
    | inl turn ↦
        rw (other, turn)
          (to_cyclic-place (repaint w (extended j.canvas2 y0)) (repaint g j.canvas2) y0 i
            (repaint-place w g y0 i e j.canvas2) j.team)
    | inr plain ↦ rw (other, plain) e
  ]
]

with_halos-place :
    (h y0 i : ℕ) (top bottom : Row) (w g : Grid)
    → top ≡ g (place y0 0)
    → bottom ≡ g (place y0 (suc h))
    → ((k : ℕ) → 1 ≤ k → k ≤ h → w k ≡ g (place y0 k))
    → i ≤ suc h
    → with_halos h top bottom w i ≡ g (place y0 i)
unfolding with_halos
with_halos-place h y0 i top bottom w g t b rows le = elim (Bool-cases (i == 0)) [
  | inl is_top ↦ rw is_top (t ∙ ap (λ k. g (place y0 k)) (sym (==→eq i 0 is_top)))
  | inr below ↦ elim (Bool-cases (i == suc h)) [
    | inl is_bottom ↦
        rw (below, is_bottom) (b ∙ ap (λ k. g (place y0 k)) (sym (==→eq i (suc h) is_bottom)))
    | inr inner ↦ rw (below, inner) (rows i (ground arith) (ground arith))
  ]
]

module _ (j : Job) (r y0 h : ℕ) (top bottom : Row) (b : Board) (f : Follows j r y0 h b)
    (t : top ≡ torus j r (place y0 0)) (u : bottom ≡ torus j r (place y0 (suc h))) where
  -- The work board of the step, after the halos and the conversion.
  abbrev work : Grid
  work = convert r b.y0 b.team b.canvas1 b.canvas2 (with_halos b.h top bottom b.cur)

  work-place : (i : ℕ) → i ≤ suc h → work i ≡ converted j r (torus j r) (place y0 i)
  work-place i le =
      simp (f.start, f.group, f.first, f.second, f.size)
        (convert-place j r y0 i (with_halos h top bottom b.cur) (torus j r)
          (with_halos-place h y0 i top bottom b.cur (torus j r) t u f.rows le))

  abbrev stepped : Board
  stepped = record b {
    cur = λ i.
        if leb 1 i && leb i b.h
        then cell r b.width (work (i - 1)) (work i) (work (i + 1))
        else b.next i;
    next = work;
    round = b.round + 1;
  }

  step-stepped : r < rounds → step r top bottom b ≡ some stepped
  unfolding step
  step-stepped lt = rw in_turn
    where
      in_turn : (not (r == b.round) || not (ltb r rounds)) ≡ false
      in_turn = ground (arith, f.at)

  stepped-rows : (i : ℕ) → 1 ≤ i → i ≤ h → stepped.cur i ≡ torus j (suc r) (place y0 i)
  unfolding torus evolve
  stepped-rows i low high = rw inside (λ k.
      cell r (f.wide k)
        ((work-place (i - 1) (omega arith) ∙ ap (converted j r (torus j r)) above) k)
        (work-place i (omega arith) k)
        ((work-place (i + 1) (omega arith) ∙ ap (converted j r (torus j r)) below) k))
    where
      inside : (leb 1 i && leb i b.h) ≡ true
      inside = ground (arith, f.size)

      above : place y0 (i - 1) ≡ (place y0 i + height - 1) % height
      above = omega arith

      below : place y0 (i + 1) ≡ (place y0 i + 1) % height
      below = omega arith

  stepped-Follows : Follows j (suc r) y0 h stepped
  stepped-Follows = record {
    size = f.size;
    wide = f.wide;
    start = f.start;
    group = f.group;
    first = f.first;
    second = f.second;
    at = omega (arith, f.at);
    rows = stepped-rows;
  }

  -- A round that is in turn gives a board that follows the torus one round further.
  pub step-Follows :
      r < rounds → (b' : Board) × (step r top bottom b ≡ some b') × Follows j (suc r) y0 h b'
  step-Follows lt = (stepped, step-stepped lt, stepped-Follows)

-- A new board of `h` rows from `y0` follows the torus before the first round.
pub new_board-Follows :
    (j : Job) (y0 h : ℕ) (rows : Grid)
    → y0 + h ≤ height
    → ((i : ℕ) → rows i ≡ j.canvas0 (y0 + i))
    → Follows j 0 y0 h
        (new_board h j.width rows (extended j.canvas1 y0) (extended j.canvas2 y0) y0 j.team)
unfolding new_board torus
new_board-Follows j y0 h rows fits same = record {
  size = refl;
  wide = refl;
  start = refl;
  group = refl;
  first = refl;
  second = refl;
  at = refl;
  rows = λ i low high. rw (inside i low high) (same (i - 1) ∙ ap j.canvas0 (same_place i low high));
}
  where
    inside : (i : ℕ) → 1 ≤ i → i ≤ h → (leb 1 i && leb i h) ≡ true
    inside i low high = ground arith

    same_place : (i : ℕ) → 1 ≤ i → i ≤ h → y0 + (i - 1) ≡ place y0 i
    same_place i low high = omega arith
