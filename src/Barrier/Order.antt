-- ===== src/Barrier/Order.antt =====
-- The order of rounds in the runs of the barrier of HW4/src/assigner/barrier.py: errors of the
-- sections, halos, and the opening of rounds.
use data_communication.Prelude.{
  ℕ, suc, ◌<◌, ◌≡◌, refl, sym, ap, subst, ◌∙◌, inl, inr, true, false, ◌||◌, not, Option, none, some,
  is_num, ◌==◌, Bool-cases, arith,
}
use data_communication.Barrier.Sections.{
  Barrier, Edges, Place, starting, exchanging, waiting, leaving, returned, enter, enter_from,
  arrive, arrive_from, advance,
}
use data_communication.Barrier.Invariant.{Reach, Fits, due, is_before}
use data_communication.Barrier.Keeps.{Reach-Sound, advance-round}

module _ (n rounds : ℕ) (sent : ℕ → ℕ → Edges) (first : ℕ → Edges) where
  enter_from-quiet :
      (p : Place) (k : ℕ) (s : Barrier)
      → (s.failed ≡ false → Fits rounds s.round (s.halos k) (s.seen k) p)
      → (enter_from p k s).1 ≡ false
  unfolding enter_from
  enter_from-quiet (starting r) k s f = elim (Bool-cases s.failed) [
    | inl down ↦ rw down refl
    | inr up ↦ rw (up, in_order r s.round (f up).0) refl
  ]
    where
      in_order : (r q : ℕ) → r ≡ q → not (q == r) ≡ false
      in_order r q e = ground arith
  enter_from-quiet (exchanging r h) k s f = refl
  enter_from-quiet (waiting r) k s f = refl
  enter_from-quiet leaving k s f = refl
  enter_from-quiet returned k s f = refl

  arrive_from-quiet :
      (p : Place) (k : ℕ) (s : Barrier)
      → (s.failed ≡ false → Fits rounds s.round (s.halos k) (s.seen k) p)
      → (arrive_from p (sent k) k s).1 ≡ false
  unfolding arrive_from
  arrive_from-quiet (exchanging r h) k s f = elim (Bool-cases s.failed) [
    | inl down ↦ rw down refl
    | inr up ↦ rw (up, in_order r s.round (s.seen k) (f up).0 (f up).2) refl
  ]
    where
      in_order :
          (r q : ℕ) (o : Option ℕ)
          → r ≡ q
          → is_before o q ≡ true
          → (not (q == r) || is_num o r) ≡ false
      in_order r q none e b = ground arith
      in_order r q (some x) e b = ground arith
  arrive_from-quiet (starting r) k s f = refl
  arrive_from-quiet (waiting r) k s f = refl
  arrive_from-quiet leaving k s f = refl
  arrive_from-quiet returned k s f = refl

  -- In no state that the threads reach, in whatever order they run and fail, does a handler find a
  -- wrong round or a result that was already there: neither section raises its ProtocolError.
  pub never_out_of_order :
      (s : Barrier)
      → Reach n rounds sent first s
      → (k : ℕ) → k < n
      → ((enter k s).1 ≡ false) × ((arrive (sent k) k s).1 ≡ false)
  unfolding enter arrive
  never_out_of_order s r k low = (
    enter_from-quiet (s.place k) k s (λ up. (Reach-Sound n rounds sent first r up).places k low),
    arrive_from-quiet (s.place k) k s (λ up. (Reach-Sound n rounds sent first r up).places k low),
  )

  -- While nothing has failed, the halos that the handler of worker `k` has read for round `r` are the
  -- first ones in round 0, and in a later round the last row that the worker above sent in the round
  -- before with the first row that the worker below sent; and `r` is the round of all threads.
  pub exchanged_halos :
      (s : Barrier)
      → Reach n rounds sent first s
      → s.failed ≡ false
      → (k r : ℕ) (h : Edges) → k < n
      → s.place k ≡ exchanging r h
      → (r ≡ s.round) × (h ≡ due n sent first r k)
  exchanged_halos s reached up k r h low e =
      let v = Reach-Sound n rounds sent first reached up in
      let f = subst (Fits rounds s.round (s.halos k) (s.seen k)) e (v.places k low) in
      (f.0, f.3 ∙ v.right k low ∙ ap (λ q. due n sent first q k) (sym f.0))

  -- While nothing has failed and rounds are left: once every worker was seen in the round, the main
  -- loop opens the next one, without an error.
  pub full_round_opens :
      (s : Barrier)
      → Reach n rounds sent first s
      → s.failed ≡ false
      → s.round < rounds
      → ((k : ℕ) → k < n → is_num (s.seen k) s.round ≡ true)
      → ((advance n rounds s).round ≡ suc s.round) × ((advance n rounds s).failed ≡ false)
  full_round_opens s reached up more seen =
      advance-round n rounds sent first s (Reach-Sound n rounds sent first reached up) up more seen
