-- ===== src/Master/Ticks.antt =====
-- HW1/master.py: the loop of `add_time`.
use data_communication.Prelude.{
  ℕ, zero, suc, ◌+◌, ◌≤◌, ◌<◌, ◌≡◌, refl, sym, ap, subst, ◌∙◌, inl, inr, true, false, ◌&&◌, ◌||◌,
  Option, none, some, List, [], ◌∷◌, elem, ltb, leb, ◌==◌, ==→eq, update, Bool-cases, Option-cases,
  arith,
}
use data_communication.Master.State.{Master, Worker}
use data_communication.Master.Clock.{
  is_due, earlier, add_due, first_due, randint, due_check, tick, tick_loop, left_of, time_left,
  add_time,
}

-- What `first_due` finds: the next check of one of the workers, at `end` or before; or no check is due.
abbrev pub IsDue : ℕ → List ℕ → (ℕ → Worker) → Option (ℕ × ℕ) → Type 0
IsDue end ids workers none = (i : ℕ) → elem i ids ≡ true → is_due end (workers i).next_check ≡ false
IsDue end ids workers (some (at, i)) =
    (elem i ids ≡ true) × ((workers i).next_check ≡ some at) × (at ≤ end)

elem-cons : (i j : ℕ) (ids : List ℕ) → elem i ids ≡ true → elem i (j ∷ ids) ≡ true
elem-cons i j ids h = ground (arith, h)

IsDue-cons :
    (end j : ℕ) (ids : List ℕ) (workers : ℕ → Worker) (due : ℕ × ℕ)
    → IsDue end ids workers (some due)
    → IsDue end (j ∷ ids) workers (some due)
IsDue-cons end j ids workers (at, i) (there, is, due) = (elem-cons i j ids there, is, due)

earlier-IsDue :
    (end : ℕ) (ids : List ℕ) (workers : ℕ → Worker) (due : ℕ × ℕ) (rest : Option (ℕ × ℕ))
    → IsDue end ids workers (some due)
    → ((other : ℕ × ℕ) → rest ≡ some other → IsDue end ids workers (some other))
    → IsDue end ids workers (earlier due rest)
earlier-IsDue end ids workers due none h k = h
earlier-IsDue end ids workers due (some other) h k =
    elim (Bool-cases (ltb due.0 other.0 || due.0 == other.0 && leb due.1 other.1)) [
      | inl e ↦ rw e h
      | inr e ↦ rw e (k other refl)
    ]

add_due-IsDue :
    (end j : ℕ) (ids : List ℕ) (workers : ℕ → Worker) (at : Option ℕ) (rest : Option (ℕ × ℕ))
    → (workers j).next_check ≡ at
    → IsDue end ids workers rest
    → IsDue end (j ∷ ids) workers (add_due end j at rest)
add_due-IsDue end j ids workers none none e h = λ i there. elim (Bool-cases (j == i)) [
  | inl same ↦
      subst (λ k. is_due end (workers k).next_check ≡ false) (==→eq j i same) (ap (is_due end) e)
  | inr other ↦ h i (ground (arith, other, there))
]
add_due-IsDue end j ids workers none (some due) e h = IsDue-cons end j ids workers due h
add_due-IsDue end j ids workers (some at) rest e h = elim (Bool-cases (leb at end)) [
  | inl now ↦ rw now (
      earlier-IsDue end (j ∷ ids) workers (at, j) rest (ground arith, e, ground (arith, now))
        (λ due is. IsDue-cons end j ids workers due (subst (IsDue end ids workers) is h)))
  | inr later ↦ rw later (later_cons rest later h)
]
  where
    later_cons :
        (rest : Option (ℕ × ℕ))
        → leb at end ≡ false
        → IsDue end ids workers rest
        → IsDue end (j ∷ ids) workers rest
    later_cons none later h = λ i there. elim (Bool-cases (j == i)) [
      | inl same ↦
          subst (λ k. is_due end (workers k).next_check ≡ false) (==→eq j i same)
            (ap (is_due end) e ∙ later)
      | inr other ↦ h i (ground (arith, other, there))
    ]
    later_cons (some due) later h = IsDue-cons end j ids workers due h

first_due-IsDue :
    (end : ℕ) (ids : List ℕ) (workers : ℕ → Worker)
    → IsDue end ids workers (first_due end ids workers)
unfolding first_due
first_due-IsDue end [] workers = λ i there. absurd (ground (arith, there))
first_due-IsDue end (j ∷ ids) workers =
    add_due-IsDue end j ids workers (workers j).next_check (first_due end ids workers) refl
      (first_due-IsDue end ids workers)

-- A check of worker `i` puts its next check off.
module _ (end at next i : ℕ) (workers : ℕ → Worker) (w : Worker) (later : at < next)
    (due : at ≤ end) (is_next : w.next_check ≡ some next)
    (was_next : (workers i).next_check ≡ some at) where
  left_less : left_of end w.next_check < left_of end (workers i).next_check
  left_less = rw (is_next, was_next) (omega arith)

  time_left-le : (ids : List ℕ) → time_left end ids (update workers i w) ≤ time_left end ids workers
  unfolding time_left
  time_left-le [] = omega arith
  time_left-le (j ∷ ids) = elim (Bool-cases (i == j)) [
    | inl same ↦ rw same (
        subst
          (λ k.
            left_of end w.next_check + time_left end ids (update workers i w)
            ≤ left_of end (workers k).next_check + time_left end ids workers)
          (==→eq i j same) (omega (arith, left_less, time_left-le ids)))
    | inr other ↦ rw other (omega (arith, time_left-le ids))
  ]

  time_left-less :
      (ids : List ℕ)
      → elem i ids ≡ true
      → time_left end ids (update workers i w) < time_left end ids workers
  unfolding time_left
  time_left-less [] there = absurd (ground (arith, there))
  time_left-less (j ∷ ids) there = elim (Bool-cases (i == j)) [
    | inl same ↦ rw same (
        subst
          (λ k.
            left_of end w.next_check + time_left end ids (update workers i w)
            < left_of end (workers k).next_check + time_left end ids workers)
          (==→eq i j same) (omega (arith, left_less, time_left-le ids)))
    | inr other ↦ rw other (omega (arith, time_left-less ids (ground (arith, there, other))))
  ]

due_check-next : (now next : ℕ) (w : Worker) → (due_check now next w).next_check ≡ some next
due_check-next now next w = ground arith

tick-time_left :
    (end at i : ℕ) (m : Master)
    → IsDue end m.worker_ids m.workers (some (at, i))
    → let m' = tick (at, i) m in
      time_left end m'.worker_ids m'.workers < time_left end m.worker_ids m.workers
unfolding tick
tick-time_left end at i m (there, is, due) =
    time_left-less end at (at + randint m) i m.workers (due_check at (at + randint m) (m.workers i))
      (omega arith) due (due_check-next at (at + randint m) (m.workers i)) is m.worker_ids there

pub tick_loop-some :
    (fuel end : ℕ) (m : Master) (due : ℕ × ℕ)
    → first_due end m.worker_ids m.workers ≡ some due
    → tick_loop (suc fuel) end m ≡ tick_loop fuel end (tick due m)
unfolding tick_loop
tick_loop-some fuel end m due e = rw (e, tick_loop) refl

pub tick_loop-none :
    (fuel end : ℕ) (m : Master)
    → first_due end m.worker_ids m.workers ≡ none
    → tick_loop fuel end m ≡ m
unfolding tick_loop
tick_loop-none zero end m e = refl
tick_loop-none (suc fuel) end m e = rw (e, tick_loop) refl

found :
    (end : ℕ) (m : Master) (due : ℕ × ℕ)
    → first_due end m.worker_ids m.workers ≡ some due
    → IsDue end m.worker_ids m.workers (some due)
found end m due e =
    subst (IsDue end m.worker_ids m.workers) e (first_due-IsDue end m.worker_ids m.workers)

abbrev Finished : ℕ → List ℕ → Master → Type 0
Finished end ids m = (m.worker_ids ≡ ids) × (first_due end m.worker_ids m.workers ≡ none)

tick_loop-Finished :
    (fuel end : ℕ) (m : Master)
    → time_left end m.worker_ids m.workers ≤ fuel
    → Finished end m.worker_ids (tick_loop fuel end m)
unfolding tick
tick_loop-Finished zero end m enough = elim (Option-cases (first_due end m.worker_ids m.workers)) [
  | inl e ↦ subst (Finished end m.worker_ids) (sym (tick_loop-none zero end m e)) (refl, e)
  | inr (due, e) ↦ absurd (omega (arith, tick-time_left end due.0 due.1 m (found end m due e)))
]
tick_loop-Finished (suc fuel) end m enough =
    elim (Option-cases (first_due end m.worker_ids m.workers)) [
      | inl e ↦
          subst (Finished end m.worker_ids) (sym (tick_loop-none (suc fuel) end m e)) (refl, e)
      | inr (due, e) ↦ subst (Finished end m.worker_ids) (sym (tick_loop-some fuel end m due e)) (
          tick_loop-Finished fuel end (tick due m)
            (omega (arith, tick-time_left end due.0 due.1 m (found end m due e))))
    ]

-- `add_time` in each of its two cases.
pub add_time-ticks :
    (seconds : ℕ) (m : Master)
    → m.stopping ≡ false
    → let end = m.clock + seconds in
      add_time seconds m
      ≡ record (tick_loop (time_left end m.worker_ids m.workers) end m) { clock = end }
unfolding add_time
add_time-ticks seconds m e = rw (e, add_time) refl

pub add_time-stopping :
    (seconds : ℕ) (m : Master)
    → m.stopping ≡ true
    → add_time seconds m ≡ record m { clock = m.clock + seconds }
unfolding add_time
add_time-stopping seconds m e = rw (e, add_time) refl

pub add_time-clock : (seconds : ℕ) (m : Master) → (add_time seconds m).clock ≡ m.clock + seconds
unfolding add_time
add_time-clock seconds m = refl

Finished-none_due :
    (end : ℕ) (ids : List ℕ) (m : Master)
    → Finished end ids m
    → (i : ℕ) → elem i ids ≡ true
    → is_due end (m.workers i).next_check ≡ false
Finished-none_due end ids m (same, nothing) i there =
    subst (IsDue end m.worker_ids m.workers) nothing (first_due-IsDue end m.worker_ids m.workers) i
      (ap (elem i) same ∙ there)

-- Unless the Master is stopping, the loop of `add_time` ends with nothing left to check: the clock has
-- advanced by exactly the seconds, and no worker has a check planned for then or earlier.
pub add_time_lem :
    (seconds : ℕ) (m : Master) (i : ℕ)
    → m.stopping ≡ false
    → elem i m.worker_ids ≡ true
    → let m' = add_time seconds m in
      (m'.clock ≡ m.clock + seconds)
      × (is_due (m.clock + seconds) (m'.workers i).next_check ≡ false)
add_time_lem seconds m i running there =
    let end = m.clock + seconds in
    let fuel = time_left end m.worker_ids m.workers in
    (
      add_time-clock seconds m,
      subst (λ m'. is_due end (m'.workers i).next_check ≡ false)
          (sym (add_time-ticks seconds m running))
          (Finished-none_due end m.worker_ids (tick_loop fuel end m)
            (tick_loop-Finished fuel end m (omega arith)) i there),
    )
