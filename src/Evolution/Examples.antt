-- ===== src/Evolution/Examples.antt =====
-- The theorems on the evolution at a concrete job.
use data_communication.Prelude.{
  ℕ, ◌+◌, ◌*◌, ◌%◌, ◌≤◌, ◌≡◌, refl, true, some, is_some, ◌==◌, if◌then◌else◌, arith,
}
use data_communication.Evolution.Rules.{next_of, rule1_cell, rule2_cell, rule3_cell}
use data_communication.Evolution.Board.{Board}
use data_communication.Evolution.Partition.{band_start}
use data_communication.Evolution.Distributed.{Job, workers, reference}
use data_communication.Evolution.Agree.{workers-agree-reference}
use data_communication.Evolution.Ramp.{workers-have-next}

-- Stripes, spots and a cross of characters.
abbrev job : Job
job = record {
  width = 160;
  team = 2;
  canvas0 = λ y x. if (x + y) % 3 == 0 then b'#' else b' ';
  canvas1 = λ y x. if (x * y) % 7 == 1 then b'@' else b'.';
  canvas2 = λ y x. if x == y then b'*' else b' ';
}

-- Of three parents two agree, and the cell takes their character.
birth_of_three :
    rule1_cell 4
      (λ x. if x == 0 then b'#' else b' ')
      (λ x. b' ')
      (λ x. if x == 1 then b'#' else if x == 2 then b'.' else b' ')
      1
    ≡ b'#'
unfolding rule1_cell
birth_of_three = refl

firing :
    rule2_cell 4
      (λ x. if x == 0 then b'@' else b' ')
      (λ x. b' ')
      (λ x. if x == 1 then b'@' else b' ')
      1
    ≡ b'@'
unfolding rule2_cell
firing = refl

turning : rule3_cell 4 (λ x. b'-') (λ x. b':') (λ x. b' ') 2 ≡ b'-'
unfolding rule3_cell next_of
turning = refl

workers-agree-reference_example :
    (b : Board) × (c : Board) × (workers job 4 1500 1 ≡ some b)
    × (reference job 1500 ≡ some c)
    × ((i : ℕ) → 1 ≤ i → i ≤ b.h → b.cur i ≡ c.cur (band_start 4 1 + i))
workers-agree-reference_example =
    workers-agree-reference job 4 1 1500 refl (omega arith) (omega arith)

workers-have-next_example :
    (b : Board) × (workers job 7 2500 6 ≡ some b)
    × ((i x : ℕ) → 1 ≤ i → i ≤ b.h → is_some (next_of (b.cur i x)) ≡ true)
workers-have-next_example =
    workers-have-next job 7 6 2500 refl (omega arith) (omega arith) (omega arith)
