-- ===== src/Coordinator/Bury.antt =====
-- What the loop of `detect` over the newly dead changes, for one worker and for all of them.
use data_communication.Prelude.{
  ℕ, ◌<◌, ◌≡◌, ◌≢◌, refl, ap, ◌∙◌, inl, inr, true, false, ◌||◌, none, some, List, [], ◌∷◌, elem,
  is_some, if◌then◌else◌, arith, Option-cases,
}
use data_communication.Coordinator.State.{Tables, Kind, task_count, worker_ids}
use data_communication.Coordinator.Assign.{is_dead}
use data_communication.Coordinator.Detect.{
  is_held_by, hand_over, bury, sweep, next_alive, newly_dead, judged, dead_ids, detect, is_off,
  suspicions, stamped, Takeover, Report, join, timed_out,
}
use data_communication.Coordinator.Summary.{done_weight}
use data_communication.Coordinator.Scan.{
  next_alive-not_dead, judge-dead, scan-task_ids, elem-keep_if, elem-worker_ids,
}
use data_communication.Coordinator.Invariant.{IsMember}

-- All of `rest` are dead.
abbrev pub AllDead : List ℕ → Tables → Type 0
AllDead rest t = (i : ℕ) → elem i rest ≡ true → is_dead (t.workers i).health ≡ true

module _ (now : ℕ) (dead_now : List ℕ) (source target : ℕ) (t : Tables) where
  abbrev pub after : Tables
  after = (bury now dead_now source target t).0

  pub bury-tasks :
      (k : ℕ)
      → source ≢ target
      → k < task_count
      → after.tasks k
        ≡ (if is_held_by source (t.tasks k) then hand_over target (t.tasks k) else t.tasks k)
  unfolding bury
  bury-tasks k ne lt = scan-task_ids source target t.tasks k ne lt

  pub bury-queue : after.queue ≡ t.queue
  unfolding bury
  bury-queue = refl

  pub bury-done_count : after.done_count ≡ t.done_count
  unfolding bury
  bury-done_count = refl

  pub bury-health : (i : ℕ) → (after.workers i).health ≡ (t.workers i).health
  unfolding bury
  bury-health i = ground arith

  pub bury-done_weight :
      source ≢ target
      → (k : ℕ) → k < task_count
      → done_weight (after.tasks k) ≡ done_weight (t.tasks k)
  bury-done_weight ne k lt = ground (arith, bury-tasks k ne lt)

module _ (now : ℕ) (dead_now : List ℕ) where
  pub sweep-some :
      (source target : ℕ) (rest : List ℕ) (t : Tables)
      → next_alive source t.workers ≡ some target
      → sweep now dead_now (source ∷ rest) t ≡ (
        (sweep now dead_now rest (bury now dead_now source target t).0).0,
        join
            (bury now dead_now source target t).1
            (bury now dead_now source target t).2
            (sweep now dead_now rest (bury now dead_now source target t).0).1,
      )
  unfolding sweep
  sweep-some source target rest t e = rw (e, sweep)

  pub sweep-none :
      (source : ℕ) (rest : List ℕ) (t : Tables)
      → next_alive source t.workers ≡ none
      → sweep now dead_now (source ∷ rest) t ≡ (t, none)
  unfolding sweep
  sweep-none source rest t e = rw (e, sweep)

  pub ne_target :
      (source target : ℕ) (rest : List ℕ) (t : Tables)
      → AllDead (source ∷ rest) t
      → is_dead (t.workers target).health ≡ false
      → source ≢ target
  ne_target source target rest t d live = ground (arith, d source)

  -- A relation that holds of each round holds of the loop, also of one that fails.
  pub sweep_relation :
      (R : Tables → Tables → Type 0)
      → ((t : Tables) → R t t)
      → ((t u v : Tables) → R t u → R u v → R t v)
      → ((source target : ℕ) (t : Tables)
          → source ≢ target
          → next_alive source t.workers ≡ some target
          → R t (bury now dead_now source target t).0)
      → (rest : List ℕ) (t : Tables) → AllDead rest t
      → R t (sweep now dead_now rest t).0
  unfolding sweep
  sweep_relation R same chain round [] t d = same t
  sweep_relation R same chain round (source ∷ rest) t d =
      elim (Option-cases (next_alive source t.workers)) [
        | inl none_left ↦ rw (sweep-none source rest t none_left) (same t)
        | inr (target, found) ↦ rw (sweep-some source target rest t found) (
            let (m, live) = next_alive-not_dead source t.workers target found in
            let ne : source ≢ target = ne_target source target rest t d live in
            chain t (bury now dead_now source target t).0 _ (round source target t ne found) (
              sweep_relation R same chain round rest (bury now dead_now source target t).0 (λ i h.
                ap is_dead (bury-health now dead_now source target t i) ∙ d i (ground arith))))
      ]

-- The loop of `detect` over the newly dead.
unfoldable pub swept : ℕ → Tables → Tables × Report
swept now t = sweep now (dead_ids (judged now t).workers) (newly_dead now t.workers) (judged now t)

pub detect_on :
    (now : ℕ) (t : Tables)
    → is_off t ≡ false
    → detect now t
      ≡ ((swept now t).0, stamped t.sequence (suspicions now t.workers) (swept now t).1)
unfolding detect swept
detect_on now t off = rw off

pub detect_off : (now : ℕ) (t : Tables) → is_off t ≡ true → detect now t ≡ (t, some ([], []))
unfolding detect
detect_off now t off = rw off

module _ (now : ℕ) (t : Tables) where
  pub judged-dead :
      (i : ℕ)
      → IsMember i
      → is_dead ((judged now t).workers i).health
        ≡ (is_dead (t.workers i).health || elem i (newly_dead now t.workers))
  unfolding judged
  judged-dead i m = judge-dead now i t.workers m

  pub newly_dead-IsMember : (i : ℕ) → elem i (newly_dead now t.workers) ≡ true → IsMember i
  newly_dead-IsMember i h =
      ground
        (arith, elem-keep_if (λ j. timed_out now (t.workers j)) i worker_ids, elem-worker_ids i)

  pub judged-AllDead : AllDead (newly_dead now t.workers) (judged now t)
  judged-AllDead i h = ground (arith, judged-dead i (newly_dead-IsMember i h))

pub join-is_some :
    (ks : List Kind) (sent : List Takeover) (r : Report)
    → is_some (join ks sent r) ≡ true
    → is_some r ≡ true
join-is_some ks sent r h = ground arith

pub stamped-is_some :
    (n : ℕ) (quiet : List Kind) (r : Report) → is_some (stamped n quiet r) ≡ true → is_some r ≡ true
stamped-is_some n quiet none h = cc
stamped-is_some n quiet (some (ks, sent)) h = refl

pub join-is_none :
    (ks : List Kind) (sent : List Takeover) (r : Report)
    → is_some (join ks sent r) ≡ false
    → is_some r ≡ false
join-is_none ks sent none h = refl
join-is_none ks sent (some (ks', sent')) h = absurd (ground (arith, h))

pub stamped-is_none :
    (n : ℕ) (quiet : List Kind) (r : Report)
    → is_some (stamped n quiet r) ≡ false
    → is_some r ≡ false
stamped-is_none n quiet none h = refl
stamped-is_none n quiet (some (ks, sent)) h = absurd (ground (arith, h))
