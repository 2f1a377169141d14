-- ===== src/Master/Choose.antt =====
-- HW1/master.py: which worker `choose_worker` takes.
use data_communication.Prelude.{
  ℕ, ◌+◌, ◌%◌, ◌≤◌, ◌<◌, ◌≡◌, refl, sym, ap, subst, ◌⊎◌, inl, inr, Bool, true, false, Option, none,
  some, List, [], ◌∷◌, ◌++◌, ◌≢◌, length, ==→eq, is_num, All, keep_if, leb, if◌then◌else◌,
  Bool-cases, arith,
}
use data_communication.Master.State.{Master, Worker}
use data_communication.Master.Assign.{queue_load, may_take, turn, least_loaded, choose_worker}

module _ (workers : ℕ → Worker) (allowed : ℕ → Bool) where
  -- No worker that is allowed has a load below `load`, or below and at it.
  abbrev NoneBelow : ℕ → List ℕ → Type 0
  NoneBelow load ids = All (λ j. (allowed j ≡ false) ⊎ (load ≤ queue_load (workers j))) ids

  abbrev NoneUpTo : ℕ → List ℕ → Type 0
  NoneUpTo load ids = All (λ j. (allowed j ≡ false) ⊎ (load < queue_load (workers j))) ids

  -- The choice among `ids`: none if no worker is allowed; else the first one of those of the least load.
  abbrev pub IsChoice : List ℕ → Option ℕ → Type 0
  IsChoice ids none = All (λ j. allowed j ≡ false) ids
  IsChoice ids (some i) =
      (before : List ℕ) × (after : List ℕ) × ((ids ≡ before ++ i ∷ after)
        × (allowed i ≡ true)
        × NoneUpTo (queue_load (workers i)) before
        × NoneBelow (queue_load (workers i)) after)

  none-NoneBelow : (load : ℕ) (ids : List ℕ) → All (λ j. allowed j ≡ false) ids → NoneBelow load ids
  none-NoneBelow load [] h = tt
  none-NoneBelow load (j ∷ ids) (h, hs) = (inl h, none-NoneBelow load ids hs)

  NoneUpTo-NoneBelow :
      (low high : ℕ) (ids : List ℕ) → low ≤ high → NoneUpTo high ids → NoneBelow low ids
  NoneUpTo-NoneBelow low high [] le h = tt
  NoneUpTo-NoneBelow low high (j ∷ ids) le (inl h, hs) =
      (inl h, NoneUpTo-NoneBelow low high ids le hs)
  NoneUpTo-NoneBelow low high (j ∷ ids) le (inr h, hs) =
      (inr (omega arith), NoneUpTo-NoneBelow low high ids le hs)

  NoneBelow-lower :
      (low high : ℕ) (ids : List ℕ) → low ≤ high → NoneBelow high ids → NoneBelow low ids
  NoneBelow-lower low high [] le h = tt
  NoneBelow-lower low high (j ∷ ids) le (inl h, hs) = (inl h, NoneBelow-lower low high ids le hs)
  NoneBelow-lower low high (j ∷ ids) le (inr h, hs) =
      (inr (omega arith), NoneBelow-lower low high ids le hs)

  NoneBelow-append :
      (load j : ℕ) (before after : List ℕ)
      → NoneBelow load before
      → load ≤ queue_load (workers j)
      → NoneBelow load after
      → NoneBelow load (before ++ j ∷ after)
  NoneBelow-append load j [] after hb h ha = (inr h, ha)
  NoneBelow-append load j (k ∷ before) after (h, hb) le ha =
      (h, NoneBelow-append load j before after hb le ha)

  IsChoice-first :
      (i j : ℕ) (ids : List ℕ)
      → allowed i ≡ true
      → queue_load (workers i) ≤ queue_load (workers j)
      → IsChoice ids (some j)
      → IsChoice (i ∷ ids) (some i)
  IsChoice-first i j ids may le (before, after, (split, allowed_j, hb, ha)) = (
    [],
    ids,
    (
      refl,
      may,
      tt,
      subst (NoneBelow (queue_load (workers i))) (sym split) (
          NoneBelow-append (queue_load (workers i)) j before after
            (NoneUpTo-NoneBelow (queue_load (workers i)) (queue_load (workers j)) before le hb) le
            (NoneBelow-lower (queue_load (workers i)) (queue_load (workers j)) after le ha)),
    ),
  )

  IsChoice-later :
      (i j : ℕ) (ids : List ℕ)
      → (allowed i ≡ false) ⊎ (queue_load (workers j) < queue_load (workers i))
      → IsChoice ids (some j)
      → IsChoice (i ∷ ids) (some j)
  IsChoice-later i j ids above (before, after, (split, allowed_j, hb, ha)) =
      (i ∷ before, after, (ap (λ r. i ∷ r) split, allowed_j, (above, hb), ha))

  IsChoice-refused :
      (i : ℕ) (ids : List ℕ) (o : Option ℕ)
      → allowed i ≡ false
      → IsChoice ids o
      → IsChoice (i ∷ ids) o
  IsChoice-refused i ids none not_so h = (not_so, h)
  IsChoice-refused i ids (some j) not_so h = IsChoice-later i j ids (inl not_so) h

  IsChoice-allowed :
      (i : ℕ) (ids : List ℕ) (o : Option ℕ)
      → allowed i ≡ true
      → IsChoice ids o
      → IsChoice (i ∷ ids) (elim o [
        | none ↦ some i
        | some j ↦ if leb (queue_load (workers i)) (queue_load (workers j)) then some i else some j
      ])
  IsChoice-allowed i ids none may h =
      ([], ids, (refl, may, tt, none-NoneBelow (queue_load (workers i)) ids h))
  IsChoice-allowed i ids (some j) may h =
      elim (Bool-cases (leb (queue_load (workers i)) (queue_load (workers j)))) [
        | inl le ↦ rw le (IsChoice-first i j ids may (ground (arith, le)) h)
        | inr gt ↦ rw gt (IsChoice-later i j ids (inr (ground (arith, gt))) h)
      ]

  least_loaded-IsChoice : (ids : List ℕ) → IsChoice ids (least_loaded workers (keep_if allowed ids))
  unfolding least_loaded
  least_loaded-IsChoice [] = tt
  least_loaded-IsChoice (i ∷ ids) = elim (Bool-cases (allowed i)) [
    | inl may ↦ rw may (
        IsChoice-allowed i ids (least_loaded workers (keep_if allowed ids)) may
          (least_loaded-IsChoice ids))
    | inr not_so ↦ rw not_so (
        IsChoice-refused i ids (least_loaded workers (keep_if allowed ids)) not_so
          (least_loaded-IsChoice ids))
  ]

-- The four workers by their turns: from the one after `last`, and round.
abbrev pub turns : ℕ → List ℕ
turns last =
    (last % 4 + 1) ∷ ((last + 1) % 4 + 1) ∷ ((last + 2) % 4 + 1) ∷ ((last + 3) % 4 + 1) ∷ []

-- The order in which the code goes through them.
abbrev in_turn : ℕ → List ℕ
in_turn last = turn last 1 ∷ turn last 2 ∷ turn last 3 ∷ turn last 4 ∷ []

four :
    {a b c d a' b' c' d' : ℕ}
    → a ≡ a'
    → b ≡ b'
    → c ≡ c'
    → d ≡ d'
    → ◌≡◌ {A = List ℕ} (a ∷ b ∷ c ∷ d ∷ []) (a' ∷ b' ∷ c' ∷ d' ∷ [])
four p q r s = rw (p, q, r, s) refl

turns-in_turn : (last : ℕ) → in_turn last ≡ turns last
turns-in_turn last = four (omega arith) (omega arith) (omega arith) (omega arith)

-- How many tasks a worker has, or was sent and has not reported in its queue.
abbrev pub load : Worker → ℕ
load w = w.queue_size + length w.pending

-- A worker is not the excluded one, and has room for a task; or not.
abbrev pub IsFree : Option ℕ → (ℕ → Worker) → ℕ → Type 0
IsFree excluded workers i = (excluded ≢ some i) × (load (workers i) < 10)

abbrev pub IsBusy : Option ℕ → (ℕ → Worker) → ℕ → Type 0
IsBusy excluded workers i = (excluded ≡ some i) ⊎ (10 ≤ load (workers i))

-- The choice among `ids`: none if all are busy, and else the first of the least load of those that are free.
abbrev pub IsChosen : Option ℕ → (ℕ → Worker) → List ℕ → Option ℕ → Type 0
IsChosen excluded workers ids none = All (IsBusy excluded workers) ids
IsChosen excluded workers ids (some i) =
    (before : List ℕ) × (after : List ℕ) × ((ids ≡ before ++ i ∷ after)
      × IsFree excluded workers i
      × All (λ j. IsBusy excluded workers j ⊎ (load (workers i) < load (workers j))) before
      × All (λ j. IsBusy excluded workers j ⊎ (load (workers i) ≤ load (workers j))) after)

module _ (excluded : Option ℕ) (workers : ℕ → Worker) where
  may_take-IsFree : (i : ℕ) → may_take excluded workers i ≡ true → IsFree excluded workers i
  may_take-IsFree i h = (away excluded (ground (arith, h)), ground (arith, h))
    where
      away : (o : Option ℕ) → is_num o i ≡ false → o ≢ some i
      away none h = λ e. absurd (ground (arith, e))
      away (some j) h = λ e. absurd (ground (arith, e, h))

  may_take-IsBusy : (i : ℕ) → may_take excluded workers i ≡ false → IsBusy excluded workers i
  may_take-IsBusy i h = elim (Bool-cases (is_num excluded i)) [
    | inl same ↦ inl (is_it excluded same)
    | inr other ↦ inr (ground (arith, h, other))
  ]
    where
      is_it : (o : Option ℕ) → is_num o i ≡ true → o ≡ some i
      is_it none h = absurd (ground (arith, h))
      is_it (some j) h = ap some (==→eq j i h)

  All-IsBusy : (P Q : ℕ → Type 0) (ids : List ℕ) → ((i : ℕ) → P i → Q i) → All P ids → All Q ids
  All-IsBusy P Q [] f h = tt
  All-IsBusy P Q (i ∷ ids) f (h, hs) = (f i h, All-IsBusy P Q ids f hs)

  refused_or :
      (R : ℕ → Type 0) (i : ℕ)
      → (may_take excluded workers i ≡ false) ⊎ R i
      → IsBusy excluded workers i ⊎ R i
  refused_or R i (inl h) = inl (may_take-IsBusy i h)
  refused_or R i (inr h) = inr h

  IsChoice-IsChosen :
      (ids : List ℕ) (o : Option ℕ)
      → IsChoice workers (may_take excluded workers) ids o
      → IsChosen excluded workers ids o
  IsChoice-IsChosen ids none h =
      All-IsBusy (λ i. may_take excluded workers i ≡ false) (IsBusy excluded workers) ids
        may_take-IsBusy h
  IsChoice-IsChosen ids (some i) (before, after, (split, free, hb, ha)) = (
    before,
    after,
    (
      split,
      may_take-IsFree i free,
      All-IsBusy _ _ before (refused_or (λ j. load (workers i) < load (workers j))) hb,
      All-IsBusy _ _ after (refused_or (λ j. load (workers i) ≤ load (workers j))) ha,
    ),
  )

-- `choose_worker` takes none only if each of the four workers is the excluded one or has 10 tasks or more
-- in its queue and under way to it; else it takes one that is not excluded and has less than 10, which has
-- the least number of all such workers and is the first of them in turn after the last that was given a task.
pub choose_worker_lem :
    (excluded : Option ℕ) (m : Master)
    → IsChosen excluded m.workers (turns m.last_worker) (choose_worker excluded m)
unfolding choose_worker
choose_worker_lem excluded m =
    subst
      (λ ids.
        IsChosen excluded m.workers ids
          (least_loaded m.workers (keep_if (may_take excluded m.workers) (in_turn m.last_worker))))
      (turns-in_turn m.last_worker)
      (IsChoice-IsChosen excluded m.workers (in_turn m.last_worker)
        (least_loaded m.workers (keep_if (may_take excluded m.workers) (in_turn m.last_worker)))
        (least_loaded-IsChoice m.workers (may_take excluded m.workers) (in_turn m.last_worker)))
