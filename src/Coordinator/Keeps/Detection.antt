-- ===== src/Coordinator/Keeps/Detection.antt =====
-- The invariant of the tables in `detect`. While the newly dead are gone through, it has a form of its
-- own.
use data_communication.Prelude.{
  ℕ, subst, none, ◌==◌, ==→eq, refl, ◌<◌, ◌≡◌, ◌≢◌, sym, ap, ◌∙◌, ◌⊎◌, inl, inr, true, false, List,
  [], ◌∷◌, elem, is_some, arith, total-ext, Option-cases, Bool-cases,
}
use data_communication.Coordinator.State.{Tables, Health, task_count}
use data_communication.Coordinator.Assign.{is_dead, is_suspect}
use data_communication.Coordinator.Detect.{
  is_held_by, bury, sweep, next_alive, newly_dead, judged, dead_ids, detect, is_off, is_alive,
}
use data_communication.Coordinator.Summary.{done_weight}
use data_communication.Coordinator.Scan.{next_alive-not_dead}
use data_communication.Coordinator.Target.{next_alive-none}
use data_communication.Coordinator.Bury.{
  AllDead, after, bury-tasks, bury-queue, bury-done_count, bury-health, bury-done_weight,
  sweep-some, sweep-none, join-is_some, stamped-is_some, ne_target, swept, detect_on, detect_off,
  judged-dead, judged-AllDead, newly_dead-IsMember, join-is_none, stamped-is_none,
}
use data_communication.Coordinator.Invariant.{IsMember, IsOrdered, NoneLeft, IsValid}

-- A holder of an assigned task is a live member, or it is in `rest`.
abbrev Covered : List ℕ → Tables → Type 0
Covered rest t =
    (k i : ℕ)
    → k < task_count
    → is_held_by i (t.tasks k) ≡ true
    → IsMember i × ((is_dead (t.workers i).health ≡ false) ⊎ (elem i rest ≡ true))

module _ (now : ℕ) (dead_now : List ℕ) (source target : ℕ) (t : Tables) (ne : source ≢ target) where
  bury-IsOrdered : IsOrdered t → IsOrdered (after now dead_now source target t)
  bury-IsOrdered o = record {
    next = o.next;
    next_le = o.next_le;
    queued = bury-queue now dead_now source target t ∙ o.queued;
    waiting =
        λ k lt. ground (arith, bury-tasks now dead_now source target t k ne lt, o.waiting k lt);
    sound = λ k lt. ground (arith, bury-tasks now dead_now source target t k ne lt, o.sound k lt);
    counted =
        bury-done_count now dead_now source target t
        ∙ o.counted
        ∙ sym (
            total-ext done_weight task_count (after now dead_now source target t).tasks t.tasks
              (bury-done_weight now dead_now source target t ne));
  }

  bury-Covered :
      (rest : List ℕ)
      → IsMember target
      → is_dead (t.workers target).health ≡ false
      → Covered (source ∷ rest) t
      → Covered rest (after now dead_now source target t)
  bury-Covered rest m live c k i lt h = ground (
    arith,
    bury-tasks now dead_now source target t k ne lt,
    c k i lt,
    bury-health now dead_now source target t i,
  )

module _ (now : ℕ) (dead_now : List ℕ) where
  sweep-keeps :
      (rest : List ℕ) (t : Tables)
      → is_some (sweep now dead_now rest t).1 ≡ true
      → AllDead rest t
      → Covered rest t
      → IsOrdered t
      → IsOrdered (sweep now dead_now rest t).0 × Covered [] (sweep now dead_now rest t).0
  unfolding sweep
  sweep-keeps [] t e d c o = (o, c)
  sweep-keeps (source ∷ rest) t e d c o = elim (Option-cases (next_alive source t.workers)) [
    | inl none_left ↦ absurd (ground (arith, sweep-none now dead_now source rest t none_left))
    | inr (target, found) ↦ rw (sweep-some now dead_now source target rest t found) (
        let (m, live) = next_alive-not_dead source t.workers target found in
        let ne : source ≢ target = ne_target now dead_now source target rest t d live in
        sweep-keeps rest (bury now dead_now source target t).0
          (join-is_some _ _ _ (rw (sweep-some now dead_now source target rest t found) at e))
          (λ i h. ap is_dead (bury-health now dead_now source target t i) ∙ d i (ground arith))
          (bury-Covered now dead_now source target t ne rest m live c)
          (bury-IsOrdered now dead_now source target t ne o))
  ]

-- The source is dead, and no other member is alive or suspect.
all_gone :
    (source : ℕ) (t : Tables)
    → IsMember source
    → is_dead (t.workers source).health ≡ true
    → next_alive source t.workers ≡ none
    → NoneLeft t
all_gone source t s gone none_left i m = elim (Bool-cases (i == source)) [
  | inl same ↦ subst (λ j. is_dead (t.workers j).health ≡ true) (sym (==→eq i source same)) gone
  | inr other ↦
      let ne : i ≢ source = ground (arith, other) in
      let (no_alive, no_suspect) = next_alive-none source t.workers s none_left in
      not_left (t.workers i).health (no_alive i m ne) (no_suspect i m ne)
]
  where
    not_left : (h : Health) → is_alive h ≡ false → is_suspect h ≡ false → is_dead h ≡ true
    not_left Health.alive a b = absurd (ground (arith, a))
    not_left Health.suspect a b = absurd (ground (arith, b))
    not_left Health.dead a b = refl

module _ (now : ℕ) (dead_now : List ℕ) where
  -- The loop raises only when no member is left; what it wrote until then is in order.
  sweep-ends :
      (rest : List ℕ) (t : Tables)
      → is_some (sweep now dead_now rest t).1 ≡ false
      → AllDead rest t
      → ((i : ℕ) → elem i rest ≡ true → IsMember i)
      → IsOrdered t
      → IsOrdered (sweep now dead_now rest t).0 × NoneLeft (sweep now dead_now rest t).0
  unfolding sweep
  sweep-ends [] t e d m o = absurd (ground (arith, e))
  sweep-ends (source ∷ rest) t e d m o = elim (Option-cases (next_alive source t.workers)) [
    | inl none_left ↦
        rw (sweep-none now dead_now source rest t none_left)
          (o, all_gone source t (m source (ground arith)) (d source (ground arith)) none_left)
    | inr (target, found) ↦ rw (sweep-some now dead_now source target rest t found) (
        let (m', live) = next_alive-not_dead source t.workers target found in
        let ne : source ≢ target = ne_target now dead_now source target rest t d live in
        sweep-ends rest (bury now dead_now source target t).0
          (join-is_none _ _ _ (rw (sweep-some now dead_now source target rest t found) at e))
          (λ i h. ap is_dead (bury-health now dead_now source target t i) ∙ d i (ground arith))
          (λ i h. m i (ground arith)) (bury-IsOrdered now dead_now source target t ne o))
  ]

module _ (now : ℕ) (t : Tables) (v : IsValid t) where
  judged-IsOrdered : IsOrdered (judged now t)
  unfolding judged
  judged-IsOrdered = record {
    next = v.next;
    next_le = v.next_le;
    queued = v.queued;
    waiting = v.waiting;
    sound = v.sound;
    counted = v.counted;
  }

  judged-Covered : Covered (newly_dead now t.workers) (judged now t)
  unfolding judged
  judged-Covered k i lt h =
      let (m, l) = v.live k i lt h in
      (
        m,
        elim (Bool-cases (elem i (newly_dead now t.workers))) [
          | inl listed ↦ inr listed
          | inr spared ↦ inl (ground (arith, judged-dead now t i m))
        ],
      )

close : {t : Tables} → IsOrdered t × Covered [] t → IsValid t
close {t} (o, c) = record {
  next = o.next;
  next_le = o.next_le;
  queued = o.queued;
  waiting = o.waiting;
  sound = o.sound;
  counted = o.counted;
  live = λ k i lt h. ground (arith, c k i lt h);
}

-- A round of the detector that does not fail keeps the invariant.
pub detect-IsValid :
    (now : ℕ) (t : Tables) → is_some (detect now t).1 ≡ true → IsValid t → IsValid (detect now t).0
detect-IsValid now t e v = elim (Bool-cases (is_off t)) [
  | inl off ↦ rw (detect_off now t off) v
  | inr on ↦ rw (detect_on now t on) (
      unfold swept in
      close (
        sweep-keeps now (dead_ids (judged now t).workers) (newly_dead now t.workers) (judged now t)
          (stamped-is_some _ _ _ (rw (detect_on now t on) at e)) (judged-AllDead now t)
          (judged-Covered now t v) (judged-IsOrdered now t v)))
]

-- One that fails ends with no member left, and leaves the rest in order.
pub detect-ends :
    (now : ℕ) (t : Tables)
    → is_some (detect now t).1 ≡ false
    → IsValid t
    → IsOrdered (detect now t).0 × NoneLeft (detect now t).0
detect-ends now t e v = elim (Bool-cases (is_off t)) [
  | inl off ↦ absurd (ground (arith, e, detect_off now t off))
  | inr on ↦ rw (detect_on now t on) (
      unfold swept in
      sweep-ends now (dead_ids (judged now t).workers) (newly_dead now t.workers) (judged now t)
        (stamped-is_none _ _ _ (rw (detect_on now t on) at e)) (judged-AllDead now t)
        (newly_dead-IsMember now t) (judged-IsOrdered now t v))
]
