-- ===== src/Barrier/Examples.antt =====
-- Two workers in two rounds, and the theorems applied to them.
use data_communication.Prelude.{ℕ, suc, ◌+◌, ◌*◌, ◌≡◌, ◌<◌, refl, true, false, is_num, arith}
use data_communication.Barrier.Sections
use data_communication.Barrier.Sections.{Barrier, Edges, exchanging, initial}
use data_communication.Barrier.Invariant.{Step, Reach, due}
use data_communication.Barrier.Order.{never_out_of_order, exchanged_halos, full_round_opens}

abbrev sent : ℕ → ℕ → Edges
sent k r = ((λ x. 10 * k + r), (λ x. 100 + 10 * k + r))

abbrev first : ℕ → Edges
first k = ((λ x. 7), (λ x. 8))

-- Worker 1 is in front: it has arrived before worker 0 begins.
abbrev one_in : Barrier
one_in = (Sections.arrive (sent 1) 1 (Sections.enter 1 (initial 2 first)).0).0

abbrev both_in : Barrier
both_in = (Sections.arrive (sent 0) 0 (Sections.enter 0 one_in).0).0

abbrev second_round : Barrier
second_round = (Sections.enter 0 (Sections.wake 2 0 (Sections.advance 2 2 both_in))).0

one_in-Reach : Reach 2 2 sent first one_in
one_in-Reach =
    Reach.next (Reach.next Reach.here (Step.enter 1 (omega arith))) (Step.arrive 1 (omega arith))

both_in-Reach : Reach 2 2 sent first both_in
both_in-Reach =
    Reach.next (Reach.next one_in-Reach (Step.enter 0 (omega arith))) (Step.arrive 0 (omega arith))

second_round-Reach : Reach 2 2 sent first second_round
second_round-Reach =
    Reach.next (Reach.next (Reach.next both_in-Reach Step.advance) (Step.wake 0 (omega arith)))
      (Step.enter 0 (omega arith))

never_out_of_order_example :
    ((Sections.enter 0 one_in).1 ≡ false) × ((Sections.arrive (sent 0) 0 one_in).1 ≡ false)
never_out_of_order_example = never_out_of_order 2 2 sent first one_in one_in-Reach 0 (omega arith)

second_round-place : second_round.place 0 ≡ exchanging 1 (due 2 sent first 1 0)
unfolding Sections.enter Sections.arrive Sections.wake Sections.advance
second_round-place = refl

second_round-failed : second_round.failed ≡ false
unfolding Sections.enter Sections.arrive Sections.wake Sections.advance
second_round-failed = refl

exchanged_halos_example : (1 ≡ second_round.round) × (due 2 sent first 1 0 ≡ due 2 sent first 1 0)
exchanged_halos_example =
    exchanged_halos 2 2 sent first second_round second_round-Reach second_round-failed 0 1
      (due 2 sent first 1 0) (omega arith) second_round-place

both_in-failed : both_in.failed ≡ false
unfolding Sections.enter Sections.arrive
both_in-failed = refl

both_in-more : both_in.round < 2
unfolding Sections.enter Sections.arrive
both_in-more = omega arith

both_in-seen : (k : ℕ) → k < 2 → is_num (both_in.seen k) both_in.round ≡ true
unfolding Sections.enter Sections.arrive
both_in-seen k low = ground arith

full_round_opens_example :
    ((Sections.advance 2 2 both_in).round ≡ suc both_in.round)
    × ((Sections.advance 2 2 both_in).failed ≡ false)
full_round_opens_example =
    full_round_opens 2 2 sent first both_in both_in-Reach both_in-failed both_in-more both_in-seen
