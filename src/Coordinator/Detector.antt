-- ===== src/Coordinator/Detector.antt =====
-- HW3/hw3/coordinator/tables.py: what a round of `detect` does to each worker and to each task.
use data_communication.Prelude.{
  ℕ, ◌-◌, ◌<◌, ◌≡◌, ◌≢◌, refl, ap, ◌∙◌, Bool, true, false, ◌&&◌, some, List, [], ◌∷◌, ◌==◌, leb,
  is_some, elem, arith, Bool-cases, Option-cases, inl, inr, if◌then◌else◌,
}
use data_communication.Coordinator.State.{Tables, Worker, Health, task_count, worker_ids}
use data_communication.Coordinator.Assign.{is_dead}
use data_communication.Coordinator.Detect.{
  is_held_by, is_off, hand_over, timed_out, judge, judged, newly_dead, dead_ids, next_alive, sweep,
  detect,
}
use data_communication.Coordinator.Bury.{
  AllDead, after, bury-tasks, bury-health, ne_target, sweep-some, sweep-none, join-is_some,
  detect_off, stamped-is_some, sweep_relation, swept, detect_on, judged-AllDead,
}
use data_communication.Coordinator.Scan.{
  judge_all_lem, next_alive-not_dead, elem-worker_ids, elem-keep_if,
}
use data_communication.Coordinator.Assign.{Sender, commit_result}
use data_communication.Coordinator.Detect.{Takeover}
use data_communication.Coordinator.State.{Event, ack}
use data_communication.Coordinator.Steps.{Step, Run, Reach}
use data_communication.Coordinator.Commits.{late_result_refused}
use data_communication.Coordinator.Invariant.{IsMember}

abbrev SameHealth : Tables → Tables → Type 0
SameHealth t u = (i : ℕ) → (u.workers i).health ≡ (t.workers i).health

sweep-SameHealth :
    (now : ℕ) (dead_now rest : List ℕ) (t : Tables)
    → AllDead rest t
    → SameHealth t (sweep now dead_now rest t).0
sweep-SameHealth now dead_now rest t d =
    sweep_relation now dead_now SameHealth (λ t i. refl) (λ t u v p q i. q i ∙ p i)
      (λ source target t ne found i. bury-health now dead_now source target t i) rest t d

-- The detector's rule for one worker, by the silence since its last heartbeat.
pub verdict : ℕ → Worker → Health
verdict now w =
    if is_dead w.health
    then Health.dead
    else if leb 5000 (now - w.last_hb)
    then Health.dead
    else if leb 3000 (now - w.last_hb)
    then Health.suspect
    else w.health

judge-verdict : (now : ℕ) (w : Worker) → (judge now w).health ≡ verdict now w
unfolding judge verdict
judge-verdict now w = ground arith

elem-member : (i : ℕ) → IsMember i → elem i worker_ids ≡ true
elem-member i m = ground (arith, elem-worker_ids i)

judged-health :
    (now i : ℕ) (t : Tables)
    → IsMember i
    → ((judged now t).workers i).health ≡ verdict now (t.workers i)
unfolding judged
judged-health now i t m =
    rw (judge_all_lem now worker_ids t.workers i)
      (rw (elem-member i m) (judge-verdict now (t.workers i)))

-- A round of the detector, also one that fails, judges each member by its own silence: dead stays
-- dead, dead from 5 seconds on, suspect from 3 seconds on, and otherwise as it was.
pub detect-health :
    (now i : ℕ) (t : Tables)
    → is_off t ≡ false
    → IsMember i
    → ((detect now t).0.workers i).health ≡ verdict now (t.workers i)
detect-health now i t on m = rw (detect_on now t on) (
    unfold swept in
    sweep-SameHealth now (dead_ids (judged now t).workers) (newly_dead now t.workers) (judged now t)
      (judged-AllDead now t) i
    ∙ judged-health now i t m)

-- No holder of task `k` is in `rest`.
abbrev Untouched : List ℕ → ℕ → Tables → Type 0
Untouched rest k t = (i : ℕ) → is_held_by i (t.tasks k) ≡ true → elem i rest ≡ false

-- Task `k`, held by `i` in `t`, has gone to the target of `i`, one epoch on.
pub record HandedOver (i k : ℕ) (t u : Tables) : Type 0 where
  pub target : ℕ
  pub member : IsMember target
  pub live : is_dead (u.workers target).health ≡ false
  pub moved : u.tasks k ≡ hand_over target (t.tasks k)

module _ (now : ℕ) (dead_now : List ℕ) (k : ℕ) (lt : k < task_count) where
  sweep-Untouched :
      (rest : List ℕ) (t : Tables)
      → AllDead rest t
      → Untouched rest k t
      → (sweep now dead_now rest t).0.tasks k ≡ t.tasks k
  unfolding sweep
  sweep-Untouched [] t d h = refl
  sweep-Untouched (source ∷ rest) t d h = elim (Option-cases (next_alive source t.workers)) [
    | inl none_left ↦ rw (sweep-none now dead_now source rest t none_left)
    | inr (target, found) ↦ rw (sweep-some now dead_now source target rest t found) (
        let (m, live) = next_alive-not_dead source t.workers target found in
        let ne : source ≢ target = ne_target now dead_now source target rest t d live in
        let same : (after now dead_now source target t).tasks k ≡ t.tasks k =
          ground (arith, bury-tasks now dead_now source target t k ne lt, h source) in
        sweep-Untouched rest (after now dead_now source target t)
          (λ i e. ap is_dead (bury-health now dead_now source target t i) ∙ d i (ground arith))
          (λ i e. ground (arith, ap (is_held_by i) same, h i))
        ∙ same)
  ]

  -- One round of the loop, for a task that `i` holds: it goes to the target now, or later.
  round :
      (source target : ℕ) (rest : List ℕ) (t : Tables) (i : ℕ)
      → AllDead (source ∷ rest) t
      → elem i (source ∷ rest) ≡ true
      → is_held_by i (t.tasks k) ≡ true
      → next_alive source t.workers ≡ some target
      → (AllDead rest (after now dead_now source target t)
          → elem i rest ≡ true
          → is_held_by i ((after now dead_now source target t).tasks k) ≡ true
          → HandedOver i k
              (after now dead_now source target t)
              (sweep now dead_now rest (after now dead_now source target t)).0)
      → HandedOver i k t (sweep now dead_now rest (after now dead_now source target t)).0
  round source target rest t i d h held found ih = elim (Bool-cases (source == i)) [
    | inl here ↦ record {
      target = target;
      member = m;
      live =
          ap is_dead (
            sweep-SameHealth now dead_now rest u d' target
            ∙ bury-health now dead_now source target t target)
          ∙ live;
      moved =
          sweep-Untouched rest u d' (λ j e. not_dead j (ground (arith, moved)))
          ∙ ground (arith, moved);
    }
    | inr later ↦
        let same : u.tasks k ≡ t.tasks k = ground (arith, moved) in
        let r = ih d' (ground arith) (ap (is_held_by i) same ∙ held) in
        record {
          target = r.target;
          member = r.member;
          live = r.live;
          moved = r.moved ∙ ap (hand_over r.target) same;
        }
  ]
    where
      u : Tables
      u = after now dead_now source target t

      m : IsMember target
      m = (next_alive-not_dead source t.workers target found).0

      live : is_dead (t.workers target).health ≡ false
      live = (next_alive-not_dead source t.workers target found).1

      ne : source ≢ target
      ne = ne_target now dead_now source target rest t d live

      moved :
          (after now dead_now source target t).tasks k
          ≡ (if is_held_by source (t.tasks k) then hand_over target (t.tasks k) else t.tasks k)
      moved = bury-tasks now dead_now source target t k ne lt

      d' : AllDead rest (after now dead_now source target t)
      d' i e = ap is_dead (bury-health now dead_now source target t i) ∙ d i (ground arith)

      not_dead : (j : ℕ) → j ≡ target → elem j rest ≡ false
      not_dead j e = ground (arith, d j, live)

  sweep-HandedOver :
      (rest : List ℕ) (t : Tables) (i : ℕ)
      → AllDead rest t
      → elem i rest ≡ true
      → is_held_by i (t.tasks k) ≡ true
      → is_some (sweep now dead_now rest t).1 ≡ true
      → HandedOver i k t (sweep now dead_now rest t).0
  unfolding sweep
  sweep-HandedOver [] t i d h held e = absurd (ground arith)
  sweep-HandedOver (source ∷ rest) t i d h held e =
      elim (Option-cases (next_alive source t.workers)) [
        | inl none_left ↦ absurd (ground (arith, sweep-none now dead_now source rest t none_left))
        | inr (target, found) ↦ rw (sweep-some now dead_now source target rest t found) (
            round source target rest t i d h held found (λ d' h' held'.
              sweep-HandedOver rest (after now dead_now source target t) i d' h' held' (
                join-is_some _ _ _ (rw (sweep-some now dead_now source target rest t found) at e))))
      ]

and-true : (b : Bool) → (b && true) ≡ b
and-true true = refl
and-true false = refl

newly_dead-lem :
    (now i : ℕ) (t : Tables)
    → IsMember i
    → elem i (newly_dead now t.workers) ≡ timed_out now (t.workers i)
newly_dead-lem now i t m =
    elem-keep_if (λ j. timed_out now (t.workers j)) i worker_ids
    ∙ rw (elem-member i m) (and-true (timed_out now (t.workers i)))

-- A round of the detector that does not fail hands each task that a newly dead member holds to a
-- member that is not dead after the round, one epoch on.
pub detect_hands_over :
    (now i k : ℕ) (t : Tables)
    → is_off t ≡ false
    → is_some (detect now t).1 ≡ true
    → IsMember i
    → k < task_count
    → timed_out now (t.workers i) ≡ true
    → is_held_by i (t.tasks k) ≡ true
    → HandedOver i k t (detect now t).0
detect_hands_over now i k t on e m lt late held = rw (detect_on now t on) (
    unfold swept in
    let r =
      sweep-HandedOver now (dead_ids (judged now t).workers) k lt (newly_dead now t.workers)
        (judged now t) i (judged-AllDead now t) (newly_dead-lem now i t m ∙ late)
        (unfold judged in held) (stamped-is_some _ _ _ (rw (detect_on now t on) at e)) in
    record {
      target = r.target;
      member = r.member;
      live = r.live;
      moved = unfold judged in r.moved;
    })

-- A task that no newly dead worker holds is left as it is, also by a round that fails.
detect_leaves :
    (now k : ℕ) (t : Tables)
    → k < task_count
    → ((i : ℕ) → is_held_by i (t.tasks k) ≡ true → elem i (newly_dead now t.workers) ≡ false)
    → (detect now t).0.tasks k ≡ t.tasks k
detect_leaves now k t lt h = elim (Bool-cases (is_off t)) [
  | inl off ↦ rw (detect_off now t off)
  | inr on ↦ rw (detect_on now t on) (
      unfold swept judged in
      sweep-Untouched now (dead_ids (judged now t).workers) k lt (newly_dead now t.workers)
        (judged now t) (judged-AllDead now t) h)
]

-- After the round that takes task `k` from a member it declares dead, no result of that member for
-- the old epoch is ever taken: not in any later tables of the run, and whatever was read of the
-- sender, also before the round. The task, and the count of finished tasks, stay as they are.
pub no_commit_after_takeover :
    (now i k : ℕ) (t u w : Tables) {out : List Event × List Takeover}
    → Reach t
    → detect now t ≡ (u, some out)
    → is_off t ≡ false
    → IsMember i
    → k < task_count
    → timed_out now (t.workers i) ≡ true
    → is_held_by i (t.tasks k) ≡ true
    → Run u w
    → (now' : ℕ) (s : Sender) (value : ℕ)
    → let o = commit_result now' s i k (t.tasks k).epoch value w in
      (o.reply ≢ some (ack k)) × (o.tables.tasks ≡ w.tasks) × (o.tables.done_count ≡ w.done_count)
no_commit_after_takeover now i k t u w r e on m lt late held run now' s value =
    let moved : (detect now t).0.tasks k ≡ hand_over _ (t.tasks k) =
      (detect_hands_over now i k t on (rw e) m lt late held).moved in
    late_result_refused u w k now' s i (t.tasks k).epoch value (Run.next r (Step.detect now e)) run
      lt (ground (arith, moved, e))
