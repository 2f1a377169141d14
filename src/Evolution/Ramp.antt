-- ===== src/Evolution/Ramp.antt =====
-- The characters of a board in the third phase, which the cyclic rule looks up in `NEXT`.
use data_communication.Prelude.{
  ℕ, zero, suc, ◌+◌, ◌*◌, ◌/◌, ◌%◌, ◌≤◌, ◌<◌, ◌≡◌, inl, inr, refl, ap, ◌∙◌, Bool, true, false, some,
  arith, elem, get_or, get_elem?, is_some, ◌==◌, if◌then◌else◌, Bool-cases, Option-cases,
}
use data_communication.Evolution.Rules.{
  Row, Grid, ramp, next_of, is_lit, ramp_at, rule3_cell, repaint,
}
use data_communication.Evolution.Partition.{is_count, band_start}
use data_communication.Evolution.Distributed.{Job, workers}
use data_communication.Evolution.Torus.{cyclic, converted, evolve, torus}
use data_communication.Evolution.Refines.{place}
use data_communication.Evolution.Agree.{workers-Reached}
use data_communication.Evolution.Board.{Board, cell, rounds}

unfoldable pub in_ramp : ℕ → Bool
in_ramp c = elem c ramp

-- Exactly the characters of `RAMP` have a next one.
next_of_lem : (c : ℕ) → is_some (next_of c) ≡ in_ramp c
unfolding next_of in_ramp
next_of_lem c = ground arith

next_of-ramp : (c d : ℕ) → next_of c ≡ some d → in_ramp d ≡ true
unfolding next_of in_ramp
next_of-ramp c d e = ground arith

index-ramp : (m : ℕ) → m < 10 → in_ramp (get_or (get_elem? ramp m) b' ') ≡ true
unfolding in_ramp
index-ramp zero lt = refl
index-ramp (suc zero) lt = refl
index-ramp (suc (suc zero)) lt = refl
index-ramp (suc (suc (suc zero))) lt = refl
index-ramp (suc (suc (suc (suc zero)))) lt = refl
index-ramp (suc (suc (suc (suc (suc zero))))) lt = refl
index-ramp (suc (suc (suc (suc (suc (suc zero)))))) lt = refl
index-ramp (suc (suc (suc (suc (suc (suc (suc zero))))))) lt = refl
index-ramp (suc (suc (suc (suc (suc (suc (suc (suc zero)))))))) lt = refl
index-ramp (suc (suc (suc (suc (suc (suc (suc (suc (suc zero))))))))) lt = refl
index-ramp (suc (suc (suc (suc (suc (suc (suc (suc (suc (suc m)))))))))) lt = absurd (omega arith)

ramp_at-ramp : (n : ℕ) → in_ramp (ramp_at n) ≡ true
unfolding ramp_at
ramp_at-ramp n = index-ramp (n % 10) (omega arith)

is_lit-ramp : (c : ℕ) → is_lit c ≡ true → in_ramp c ≡ true
unfolding in_ramp
is_lit-ramp c h = ground arith

if-ramp :
    (t : Bool) (c d : ℕ)
    → (t ≡ true → in_ramp c ≡ true)
    → in_ramp d ≡ true
    → in_ramp (if t then c else d) ≡ true
if-ramp true c d hc hd = hc refl
if-ramp false c d hc hd = hd

cyclic-ramp : (team : ℕ) (g : Grid) (y x : ℕ) → in_ramp (cyclic team g y x) ≡ true
unfolding cyclic
cyclic-ramp team g y x =
    if-ramp (is_lit (g y x)) _ _ (is_lit-ramp (g y x))
      (ramp_at-ramp (7 * x + 3 * y + x * y % 11 + team))

rule3_cell-ramp :
    (width : ℕ) (above row below : Row) (x : ℕ)
    → in_ramp (row x) ≡ true
    → in_ramp (rule3_cell width above row below x) ≡ true
unfolding rule3_cell
rule3_cell-ramp width above row below x h = elim (Option-cases (next_of (row x))) [
  | inl none_next ↦ rw (none_next, rule3_cell) h
  | inr (d, e) ↦ rw (e, rule3_cell) (if-ramp _ d (row x) (λ _. next_of-ramp (row x) d e) h)
]

evolve-ramp :
    (j : Job) (r : ℕ) (g : Grid) (y x : ℕ)
    → 2000 ≤ r
    → r < rounds
    → (2000 < r → in_ramp (g y x) ≡ true)
    → in_ramp (evolve j r g y x) ≡ true
unfolding evolve cell converted
evolve-ramp j r g y x low high h = elim (Bool-cases (r == 2000)) [
  | inl turn ↦
      rw (not_first, not_second, not_brian, turn)
        (rule3_cell-ramp j.width _ (cyclic j.team (repaint g j.canvas2) y) _ x
          (cyclic-ramp j.team (repaint g j.canvas2) y x))
  | inr later ↦
      rw (not_first, not_second, not_brian, later)
        (rule3_cell-ramp j.width _ (g y) _ x (h (ground arith)))
]
  where
    not_first : (r / 1000 == 0) ≡ false
    not_first = ground arith

    not_second : (r / 1000 == 1) ≡ false
    not_second = ground arith

    not_brian : (r == 1000) ≡ false
    not_brian = ground arith

torus-ramp : (j : Job) (r y x : ℕ) → 2000 < r → r ≤ rounds → in_ramp (torus j r y x) ≡ true
unfolding torus
torus-ramp j zero y x low high = absurd (omega arith)
torus-ramp j (suc r) y x low high =
    evolve-ramp j r (torus j r) y x (omega arith) (omega arith)
      (λ l. torus-ramp j r y x l (omega arith))

-- With any allowed number of workers, after r rounds, 2000 < r ≤ 3000, each worker has a board, and
-- `NEXT` has an entry for each character of its band.
pub workers-have-next :
    (j : Job) (n k r : ℕ)
    → is_count n ≡ true
    → k < n
    → 2000 < r
    → r ≤ rounds
    → (b : Board) × (workers j n r k ≡ some b)
      × ((i x : ℕ) → 1 ≤ i → i ≤ b.h → is_some (next_of (b.cur i x)) ≡ true)
workers-have-next j n k r ok lt low high =
    let (b, e, f) = workers-Reached j n ok r k high lt in
    (
      b,
      e,
      λ i x one le.
          next_of_lem (b.cur i x)
          ∙ ap (λ (row : Row). in_ramp (row x)) (f.rows i one (omega (arith, f.size)))
          ∙ torus-ramp j r (place (band_start n k) i) x low high,
    )
