-- ===== src/RingWorker/Compute.antt =====
-- HW3/hw3/worker/compute.py: the loop over the steps of a task. `counts k` is `count_step` of step
-- `k` of the task; `checks k` is what `valid`, `delay` and the send answer in step `k`.
use data_communication.Prelude.{
  ℕ, zero, suc, ◌+◌, ◌-◌, ◌≤◌, ◌<◌, ◌≡◌, inl, inr, refl, sym, ap, subst, ◌∙◌, Bool, true, not,
  Option, none, some, List, [], ◌∷◌, All, ltb, lookup, lookup-insert, Dict, arith, if◌then◌else◌,
  Option-cases, Bool-cases,
}
use data_communication.RingWorker.State.{
  Assignment, Checkpoint, Work, WorkerState, save_checkpoint, make_work, resume_from,
}

-- What the loop sends.
pub data Sent : Type 0 where
  checkpoint : ℕ → ℕ → ℕ → ℕ → Sent
  result : ℕ → ℕ → ℕ → Sent

-- The answers of `valid` and `delay`, and whether the send went out, in one step.
pub record Checks : Type 0 where
  pub valid : Bool
  pub delayed : Bool
  pub sent : Bool

-- The loop from step `step` on, `left` steps to go: `valid` or `delay` end it, a send that is refused
-- or fails does not.
unfoldable pub compute_steps : (ℕ → ℕ) → Assignment → (ℕ → Checks) → ℕ → ℕ → ℕ → List Sent
compute_steps counts a checks zero step sum = []
compute_steps counts a checks (suc left) step sum =
    let sum' = sum + counts step in
    let rest = compute_steps counts a checks left (suc step) sum' in
    if not (checks step).valid
    then []
    else if not (checks step).delayed
    then []
    else if (checks step).sent
    then (if ltb step 10 then checkpoint a.task a.epoch step sum' else result a.task a.epoch sum')
      ∷ rest
    else rest

-- `for step in range(work.resume_step, 11)`
unfoldable pub compute : (ℕ → ℕ) → (ℕ → Checks) → Work → List Sent
unfolding compute_steps
compute counts checks w =
    compute_steps counts w.assignment checks (11 - w.resume_step) w.resume_step w.sum

-- The count over the first `n` steps of a task.
unfoldable pub count_upto : (ℕ → ℕ) → ℕ → ℕ
count_upto counts zero = 0
count_upto counts (suc n) = count_upto counts n + counts (suc n)

-- A message is honest if its number is the count over the steps that it names, for RESULT all ten.
abbrev pub IsHonest : (ℕ → ℕ) → Sent → Type 0
IsHonest counts (checkpoint task epoch step sum) =
    (1 ≤ step) × (step ≤ 9) × (sum ≡ count_upto counts step)
IsHonest counts (result task epoch sum) = sum ≡ count_upto counts 10

-- The checkpoint of the task that a store holds is honest.
abbrev pub HonestStore : (ℕ → ℕ) → ℕ → Dict Checkpoint → Type 0
HonestStore counts task store =
    (c : Checkpoint)
    → lookup task store ≡ some c
    → (c.step ≤ 9) × (c.sum ≡ count_upto counts c.step)

message-IsHonest :
    (counts : ℕ → ℕ) (a : Assignment) (step sum : ℕ)
    → step ≤ 9
    → sum ≡ count_upto counts (suc step)
    → IsHonest counts (
        if ltb (suc step) 10
        then checkpoint a.task a.epoch (suc step) sum
        else result a.task a.epoch sum)
message-IsHonest counts a step sum le h = elim (Bool-cases (ltb (suc step) 10)) [
  | inl early ↦ rw early (omega arith, ground arith, h)
  | inr last ↦ rw last (h ∙ ap (count_upto counts) (ground arith))
]

compute_steps-IsHonest :
    (counts : ℕ → ℕ) (a : Assignment) (checks : ℕ → Checks) (left step sum : ℕ)
    → step + left ≡ 10
    → sum ≡ count_upto counts step
    → All (IsHonest counts) (compute_steps counts a checks left (suc step) sum)
unfolding compute_steps count_upto
compute_steps-IsHonest counts a checks zero step sum e h = tt
compute_steps-IsHonest counts a checks (suc left) step sum e h =
    let rest =
      compute_steps-IsHonest counts a checks left (suc step) (sum + counts (suc step)) (omega arith)
        (omega arith) in
    elim (Bool-cases (checks (suc step)).valid) [
      | inr gone ↦ rw gone tt
      | inl valid ↦ elim (Bool-cases (checks (suc step)).delayed) [
        | inr gone ↦ rw (valid, gone) tt
        | inl delayed ↦ elim (Bool-cases (checks (suc step)).sent) [
          | inl sent ↦
              rw (valid, delayed, sent)
                (
                  message-IsHonest counts a step (sum + counts (suc step)) (omega arith)
                      (omega arith),
                  rest,
                )
          | inr lost ↦ rw (valid, delayed, lost) rest
        ]
      ]
    ]

-- The number of the RESULT among the messages.
abbrev pub sent_result : List Sent → Option ℕ
sent_result [] = none
sent_result (checkpoint task epoch step sum ∷ rest) = sent_result rest
sent_result (result task epoch sum ∷ rest) = some sum

-- The work stays valid through all its steps, and the send of the last step goes out.
abbrev pub Undisturbed : (ℕ → Checks) → Type 0
Undisturbed checks =
    ((k : ℕ) → k ≤ 10 → ((checks k).valid ≡ true) × ((checks k).delayed ≡ true))
    × ((checks 10).sent ≡ true)

compute_steps-result :
    (counts : ℕ → ℕ) (a : Assignment) (checks : ℕ → Checks)
    → Undisturbed checks
    → (left step sum : ℕ) → step + left ≡ 10
    → 0 < left
    → sum ≡ count_upto counts step
    → sent_result (compute_steps counts a checks left (suc step) sum) ≡ some (count_upto counts 10)
unfolding compute_steps count_upto
compute_steps-result counts a checks u zero step sum e pos h = absurd (omega arith)
compute_steps-result counts a checks u (suc left) step sum e pos h =
    let rest = λ (more : 0 < left).
      compute_steps-result counts a checks u left (suc step) (sum + counts (suc step)) (omega arith)
        more (omega arith) in
    elim (Bool-cases (ltb (suc step) 10)) [
      | inl early ↦ elim (Bool-cases (checks (suc step)).sent) [
        | inl sent ↦ rw (on.0, on.1, sent, early) (rest (ground arith))
        | inr lost ↦ rw (on.0, on.1, lost) (rest (ground arith))
      ]
      | inr last ↦
          let sent = subst (λ n. (checks n).sent ≡ true) (sym (last_step (ground arith))) u.1 in
          rw (on.0, on.1, sent, last) (ap some (last_sum (ground arith)))
    ]
  where
    on : ((checks (suc step)).valid ≡ true) × ((checks (suc step)).delayed ≡ true)
    on = u.0 (suc step) (omega arith)

    last_step : step ≡ 9 → suc step ≡ 10
    last_step at = omega arith

    last_sum : step ≡ 9 → sum + counts (suc step) ≡ count_upto counts 10
    last_sum at = h' ∙ ap (λ n. count_upto counts (suc n)) at
      where
        h' : sum + counts (suc step) ≡ count_upto counts (suc step)
        h' = omega arith

-- The work that a worker makes of an assignment with what its store holds.
abbrev pub resumed : ℕ → ℕ → Assignment → Dict Checkpoint → Work
resumed ident generation a store = make_work ident generation a (resume_from a store)

resume_from-some :
    (a : Assignment) (store : Dict Checkpoint) (c : Checkpoint)
    → resume_from a store ≡ some c
    → lookup a.task store ≡ some c
unfolding resume_from
resume_from-some a store c e = ground arith

module _ (counts : ℕ → ℕ) (ident generation : ℕ) (a : Assignment) (store : Dict Checkpoint)
    (honest : HonestStore counts a.task store) where
  abbrev w : Work
  w = resumed ident generation a store

  abbrev StartsHonest : Work → Type 0
  StartsHonest w =
      (w.assignment ≡ a)
      × (1 ≤ w.resume_step)
      × (w.resume_step ≤ 10)
      × (w.sum ≡ count_upto counts (w.resume_step - 1))

  resumed-StartsHonest : StartsHonest (resumed ident generation a store)
  unfolding resume_from count_upto
  resumed-StartsHonest = elim (Option-cases (resume_from a store)) [
    | inl anew ↦ rw anew (refl, omega arith, omega arith, refl)
    | inr (c, e) ↦
        let (few, right) = honest c (resume_from-some a store c e) in
        rw e (refl, omega arith, omega arith, right ∙ ap (count_upto counts) (omega arith))
  ]

  -- Every message of a work that was made with an honest store is honest: each CKPT holds the count
  -- over the steps that it names, and a RESULT the count over all ten, whether the work began anew
  -- or resumed from a checkpoint, whenever it loses its validity, and whichever sends fail.
  pub compute-IsHonest :
      (checks : ℕ → Checks)
      → All (IsHonest counts) (compute counts checks (resumed ident generation a store))
  unfolding compute
  compute-IsHonest checks =
      let (same, low, high, right) = resumed-StartsHonest in
      subst
        (λ n.
          All (IsHonest counts)
            (compute_steps counts w.assignment checks (11 - w.resume_step) n w.sum))
        (omega arith)
        (compute_steps-IsHonest counts w.assignment checks (11 - w.resume_step) (w.resume_step - 1)
          w.sum (omega arith) right)

  -- If the work stays valid through all its steps and the last send goes out, its RESULT is sent,
  -- with the count over all ten steps.
  pub compute_sends_result :
      (checks : ℕ → Checks)
      → Undisturbed checks
      → sent_result (compute counts checks (resumed ident generation a store))
        ≡ some (count_upto counts 10)
  unfolding compute
  compute_sends_result checks u =
      let (same, low, high, right) = resumed-StartsHonest in
      subst
        (λ n.
          sent_result (compute_steps counts w.assignment checks (11 - w.resume_step) n w.sum)
          ≡ some (count_upto counts 10))
        (omega arith)
        (compute_steps-result counts w.assignment checks u (11 - w.resume_step) (w.resume_step - 1)
          w.sum (omega arith) (omega arith) right)

-- A buddy that stores an honest checkpoint, of whatever epoch, keeps an honest store.
save_checkpoint-HonestStore :
    (counts : ℕ → ℕ) (task : ℕ) (c : Checkpoint) (s : WorkerState)
    → HonestStore counts task s.store
    → c.step ≤ 9
    → c.sum ≡ count_upto counts c.step
    → HonestStore counts task (save_checkpoint task c s).0.store
unfolding save_checkpoint
save_checkpoint-HonestStore counts task c s h few right d e =
    ground (arith, h d, lookup-insert task task c s.store)
