-- ===== src/Barrier/Keeps.antt =====
-- The invariant of the barrier of HW4/src/assigner/barrier.py, section by section.
use data_communication.Prelude.{
  ℕ, zero, suc, ◌+◌, ◌-◌, ◌≤◌, ◌<◌, ◌≡◌, refl, sym, ap, ap₂, subst, ◌∙◌, inl, inr, true, false,
  ◌||◌, not, Option, none, some, is_some, is_num, ltb, ◌==◌, if◌then◌else◌, update, total,
  total-ext, total-update, total_nothing, total_at_most, total_full, Bool-cases, arith,
}
use native.Mathlib.Nat.{mod-lt}
use data_communication.Evolution.Distributed.{above_of, below_of}
use data_communication.Barrier.Sections.{
  Barrier, Edges, Place, starting, exchanging, waiting, leaving, returned, initial, enter,
  enter_from, arrive, arrive_from, wake, wake_from, advance, all_edges, edges_of,
}
use data_communication.Barrier.Invariant
use data_communication.Barrier.Invariant.{Fits, IsSound, due, is_before, weight, Reach}

-- What holds at every index, after a write that makes it hold at its own.
update_all :
    (n : ℕ) (Q : ℕ → Place → Type 0) (place : ℕ → Place) (k : ℕ) (p : Place)
    → ((j : ℕ) → j < n → Q j (place j))
    → Q k p
    → (j : ℕ) → j < n
    → Q j (update place k p j)
update_all n Q place k p h q j below = elim (Bool-cases (k == j)) [
  | inl e ↦ rw e (subst (λ i. Q i p) (eq e) q)
  | inr e ↦ rw e (h j below)
]
  where
    eq : (k == j) ≡ true → k ≡ j
    eq e = ground arith

module _ (n rounds : ℕ) (sent : ℕ → ℕ → Edges) (first : ℕ → Edges) where
  abbrev Sound : Barrier → Type 0
  Sound s = s.failed ≡ false → IsSound n rounds sent first s

  unfailed-IsSound :
      (s : Barrier)
      → IsSound n rounds sent first s
      → IsSound n rounds sent first (record s { failed = false })
  unfailed-IsSound s v = record {
    places = v.places;
    delivered = v.delivered;
    counted = v.counted;
    right = v.right;
    within = v.within;
  }

  move-IsSound :
      (s : Barrier) (k : ℕ) (p : Place)
      → IsSound n rounds sent first s
      → Fits rounds s.round (s.halos k) (s.seen k) p
      → IsSound n rounds sent first (record s { failed = false; place = update s.place k p })
  move-IsSound s k p v f = record {
    places = update_all n (λ j. Fits rounds s.round (s.halos j) (s.seen j)) s.place k p v.places f;
    delivered = v.delivered;
    counted = v.counted;
    right = v.right;
    within = v.within;
  }

  enter_from-Sound :
      (p : Place) (k : ℕ) (s : Barrier)
      → k < n
      → s.place k ≡ p
      → Sound s
      → Sound (enter_from p k s).0
  unfolding enter_from
  enter_from-Sound (starting r) k s below e v = elim (Bool-cases s.failed) [
    | inl down ↦ rw down (λ up. absurd (ground (arith, up, down)))
    | inr up ↦
        let i = v up in
        let f = subst (Fits rounds s.round (s.halos k) (s.seen k)) e (i.places k below) in
        rw (up, same r s.round f.0)
          (λ _. move-IsSound s k (exchanging r (s.halos k)) i (f.0, f.1, f.2, refl))
  ]
    where
      same : (r q : ℕ) → r ≡ q → not (q == r) ≡ false
      same r q e = ground arith
  enter_from-Sound (exchanging r h) k s below e v = v
  enter_from-Sound (waiting r) k s below e v = v
  enter_from-Sound leaving k s below e v = v
  enter_from-Sound returned k s below e v = v

  arrived-IsSound :
      (s : Barrier) (k : ℕ)
      → k < n
      → s.round < rounds
      → is_before (s.seen k) s.round ≡ true
      → IsSound n rounds sent first s
      → IsSound n rounds sent first (record s {
        failed = false;
        edges = update s.edges k (some (sent k s.round));
        seen = update s.seen k (some s.round);
        arrived = s.arrived + 1;
        place = update s.place k (waiting s.round);
      })
  arrived-IsSound s k below more before v = record {
    places = λ j low. elim (Bool-cases (k == j)) [
      | inl e ↦ rw e (refl, omega arith, omega arith, more)
      | inr e ↦ rw e (v.places j low)
    ];
    delivered = λ j low h. elim (Bool-cases (k == j)) [
      | inl e ↦ rw e (ap (λ i. some (sent i s.round)) (eq j e))
      | inr e ↦ rw e (
          v.delivered j low
            (subst (λ b. is_num (if b then some s.round else s.seen j) s.round ≡ true) e h))
    ];
    counted =
        ground (arith, v.counted, total-update (weight s.round) n s.seen k (some s.round) below);
    right = v.right;
    within = v.within;
  }
    where
      eq : (j : ℕ) → (k == j) ≡ true → k ≡ j
      eq j e = ground arith

  arrive_from-Sound :
      (p : Place) (k : ℕ) (s : Barrier)
      → k < n
      → s.place k ≡ p
      → Sound s
      → Sound (arrive_from p (sent k) k s).0
  unfolding arrive_from
  arrive_from-Sound (exchanging r h) k s below e v = elim (Bool-cases s.failed) [
    | inl down ↦ rw down (λ up. absurd (ground (arith, up, down)))
    | inr up ↦
        let i = v up in
        let f = subst (Fits rounds s.round (s.halos k) (s.seen k)) e (i.places k below) in
        rw (up, in_order r s.round (s.seen k) f.0 f.2, f.0)
          (λ _. arrived-IsSound s k below (ground (arith, f.0, f.1)) f.2 i)
  ]
    where
      in_order :
          (r q : ℕ) (o : Option ℕ)
          → r ≡ q
          → is_before o q ≡ true
          → (not (q == r) || is_num o r) ≡ false
      in_order r q none e b = ground arith
      in_order r q (some x) e b = ground arith
  arrive_from-Sound (starting r) k s below e v = v
  arrive_from-Sound (waiting r) k s below e v = v
  arrive_from-Sound leaving k s below e v = v
  arrive_from-Sound returned k s below e v = v

  wake_from-Sound :
      (p : Place) (k : ℕ) (s : Barrier)
      → k < n
      → s.place k ≡ p
      → Sound s
      → Sound (wake_from p rounds k s)
  unfolding wake_from
  wake_from-Sound (waiting r) k s below e v = elim (Bool-cases s.failed) [
    | inl down ↦ rw down (λ up. absurd (ground (arith, up, down)))
    | inr up ↦
        let i = v up in
        let f = subst (Fits rounds s.round (s.halos k) (s.seen k)) e (i.places k below) in
        elim (Bool-cases (s.round == r)) [
          | inl still ↦ rw (up, still) (λ _. unfailed-IsSound s i)
          | inr on ↦
              let after : s.round ≡ suc r = ground (arith, f.1, f.2, on) in
              elim (Bool-cases (ltb (suc r) rounds)) [
                | inl more ↦
                    rw (up, on, more)
                      (λ _.
                        move-IsSound s k (starting (suc r)) i
                          (sym after, ground arith, seen_before after f.0))
                | inr last ↦
                    rw (up, on, last)
                      (λ _.
                        move-IsSound s k leaving i
                          (ground (arith, i.within, after), seen_before after f.0))
              ]
        ]
  ]
    where
      seen_before : s.round ≡ suc r → s.seen k ≡ some r → is_before (s.seen k) s.round ≡ true
      seen_before a b = rw (a, b) (ground arith)
  wake_from-Sound (starting r) k s below e v = v
  wake_from-Sound (exchanging r h) k s below e v = v
  wake_from-Sound leaving k s below e v = v
  wake_from-Sound returned k s below e v = v

  weight-small : (r : ℕ) (o : Option ℕ) → weight r o ≤ 1
  weight-small r none = ground arith
  weight-small r (some q) = ground arith

  weight-seen : (r : ℕ) (o : Option ℕ) → is_num o r ≡ true → weight r o ≡ 1
  weight-seen r none h = ground arith
  weight-seen r (some q) h = ground arith

  -- The count of a round in which every worker was seen.
  count_all :
      (m : ℕ) (r : ℕ) (seen : ℕ → Option ℕ)
      → ((k : ℕ) → k < m → is_num (seen k) r ≡ true)
      → total (weight r) m seen ≡ m
  unfolding total
  count_all zero r seen h = refl
  count_all (suc m) r seen h = omega (
    arith,
    weight-seen r (seen m) (h m (omega arith)),
    count_all m r seen (λ k low. h k (omega arith)),
  )

  -- When the count reaches `n`, every worker was seen in this round.
  all_seen :
      (s : Barrier)
      → IsSound n rounds sent first s
      → n ≤ s.arrived
      → (k : ℕ) → k < n
      → is_num (s.seen k) s.round ≡ true
  all_seen s v full k below =
      let top = total_at_most (weight s.round) n s.seen (λ j _. weight-small s.round (s.seen j)) in
      let sum =
        total_full (weight s.round) n s.seen (λ j _. weight-small s.round (s.seen j))
          (omega (arith, v.counted, top)) k below in
      ground (arith, sum)

  all_edges-some :
      (m : ℕ) (edges : ℕ → Option Edges)
      → ((k : ℕ) → k < m → is_some (edges k) ≡ true)
      → all_edges m edges ≡ true
  unfolding all_edges
  all_edges-some zero edges h = refl
  all_edges-some (suc m) edges h =
      rw (h m (omega arith)) (all_edges-some m edges (λ k below. h k (omega arith)))

  clash : (r : ℕ) (seen : Option ℕ) → is_num seen r ≡ true → is_before seen r ≡ true → ⊥
  clash r none h b = ground arith
  clash r (some q) h b = ground arith

  Fits-advance :
      (p : Place) (r : ℕ) (halo halo' : Edges) (seen : Option ℕ)
      → is_num seen r ≡ true
      → Fits rounds r halo seen p
      → Fits rounds (suc r) halo' seen p
  Fits-advance (starting q) r halo halo' seen h (e, more, before) = absurd (clash r seen h before)
  Fits-advance (exchanging q g) r halo halo' seen h (e, more, before, _) =
      absurd (clash r seen h before)
  Fits-advance (waiting q) r halo halo' seen h (e, low, high, more) =
      (e, omega arith, ground (arith, h, e), more)
  Fits-advance leaving r halo halo' seen h (e, before) = absurd (clash r seen h before)
  Fits-advance returned r halo halo' seen h v = v

  opened-IsSound :
      (s : Barrier)
      → s.round < rounds
      → n ≤ s.arrived
      → IsSound n rounds sent first s
      → IsSound n rounds sent first (record s {
        failed = false;
        halos = λ k. ((edges_of s.edges (above_of n k)).1, (edges_of s.edges (below_of n k)).0);
        arrived = 0;
        round = suc s.round;
      })
  opened-IsSound s more full v = record {
    places = λ j low.
        Fits-advance (s.place j) s.round (s.halos j) _ (s.seen j) (all_seen s v full j low)
          (v.places j low);
    delivered = λ j low h. absurd (late (s.seen j) (all_seen s v full j low) h);
    counted = sym (
        total-ext (weight (suc s.round)) n s.seen (λ _. none)
          (λ j low. unseen (s.seen j) (all_seen s v full j low))
        ∙ total_nothing (weight (suc s.round)) n (λ _. none) (λ _. refl));
    right = λ j low.
        ap₂ {C = Edges} (λ a b. (a, b))
          (ap (λ e. e.1) (got (above_of n j) (mod-lt (j + n - 1) (omega arith))))
          (ap (λ e. e.0) (got (below_of n j) (mod-lt (j + 1) (omega arith))));
    within = omega arith;
  }
    where
      late : (o : Option ℕ) → is_num o s.round ≡ true → is_num o (suc s.round) ≡ true → ⊥
      late none a b = ground arith
      late (some q) a b = ground arith

      unseen : (o : Option ℕ) → is_num o s.round ≡ true → weight (suc s.round) o ≡ 0
      unseen none a = ground arith
      unseen (some q) a = ground arith

      got : (k : ℕ) → k < n → edges_of s.edges k ≡ sent k s.round
      got k below = rw (v.delivered k below (all_seen s v full k below)) refl

  edge-some : (k : ℕ) (o : Option Edges) (e : Edges) → o ≡ some e → is_some o ≡ true
  edge-some k o e h = rw h refl

  -- The main loop opens the next round of a sound state as soon as every worker was seen.
  pub advance-round :
      (s : Barrier)
      → IsSound n rounds sent first s
      → s.failed ≡ false
      → s.round < rounds
      → ((k : ℕ) → k < n → is_num (s.seen k) s.round ≡ true)
      → ((advance n rounds s).round ≡ suc s.round) × ((advance n rounds s).failed ≡ false)
  unfolding advance
  advance-round s v up more seen =
      let there =
        all_edges-some n s.edges
          (λ k low. edge-some k (s.edges k) (sent k s.round) (v.delivered k low (seen k low))) in
      let on : (not (ltb s.round rounds) || s.failed || ltb s.arrived n) ≡ false =
        ground (arith, up, more, v.counted, count_all n s.round s.seen seen) in
      rw (on, there, up) (refl, refl)

  advance-Sound : (s : Barrier) → Sound s → Sound (advance n rounds s)
  unfolding advance
  advance-Sound s v = elim (Bool-cases (not (ltb s.round rounds) || s.failed || ltb s.arrived n)) [
    | inl waits ↦ rw waits v
    | inr on ↦
        let up : s.failed ≡ false = ground (arith, on) in
        let i = v up in
        let full : n ≤ s.arrived = ground (arith, on) in
        let there = all_edges-some n s.edges (λ k low.
          edge-some k (s.edges k) (sent k s.round) (i.delivered k low (all_seen s i full k low))) in
        rw (on, there, up) (λ _. opened-IsSound s (ground (arith, on)) full i)
  ]

  initial-IsSound : IsSound n rounds sent first (initial rounds first)
  initial-IsSound = record {
    places = λ j low. elim (Bool-cases (ltb 0 rounds)) [
      | inl more ↦ rw more (refl, ground arith, refl)
      | inr nothing ↦ rw nothing (ground arith, refl)
    ];
    delivered = λ j low h. ground arith;
    counted = sym (total_nothing (weight 0) n (λ _. none) (λ _. refl));
    right = λ j low. refl;
    within = omega arith;
  }

  Step-Sound : {s t : Barrier} → Invariant.Step n rounds sent first s t → Sound s → Sound t
  unfolding enter arrive wake
  Step-Sound {s} (Invariant.Step.enter k low) v = enter_from-Sound (s.place k) k s low refl v
  Step-Sound {s} (Invariant.Step.arrive k low) v = arrive_from-Sound (s.place k) k s low refl v
  Step-Sound {s} (Invariant.Step.wake k low) v = wake_from-Sound (s.place k) k s low refl v
  Step-Sound {s} Invariant.Step.advance v = advance-Sound s v
  Step-Sound {s} Invariant.Step.fail v = λ up. absurd (ground (arith, up))

  pub Reach-Sound :
      {s : Barrier} → Reach n rounds sent first s → s.failed ≡ false → IsSound n rounds sent first s
  Reach-Sound Reach.here = λ _. initial-IsSound
  Reach-Sound (Reach.next r st) = Step-Sound st (Reach-Sound r)
