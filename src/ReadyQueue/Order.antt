-- ===== src/ReadyQueue/Order.antt =====
-- HW1/worker.py: which task `dequeue` takes, and how the version of the queue follows its changes.
use data_communication.Prelude.{
  suc, ◌≡◌, inl, inr, refl, sym, ap, subst, Bool, true, false, Option, none, some, List, [], ◌∷◌,
  ◌++◌, All, is_some, Bool-cases, arith,
}
use data_communication.ReadyQueue.State.{
  WorkerTask, ReadyQueue, is_ready, take_first, without, dequeue,
}

-- `t` is the first task of `ts` that passes the test, and `rest` the others.
abbrev pub IsFirst : (WorkerTask → Bool) → List WorkerTask → WorkerTask × List WorkerTask → Type 0
IsFirst p ts (t, rest) =
    (before : List WorkerTask) × (after : List WorkerTask) × ((ts ≡ before ++ t ∷ after)
      × (rest ≡ before ++ after)
      × All (λ u. p u ≡ false) before
      × (p t ≡ true))

abbrev pub Found :
    (WorkerTask → Bool) → List WorkerTask → Option (WorkerTask × List WorkerTask) → Type 0
Found p ts none = All (λ u. p u ≡ false) ts
Found p ts (some found) = IsFirst p ts found

Found-cons :
    (p : WorkerTask → Bool) (t : WorkerTask) (ts : List WorkerTask)
    (o : Option (WorkerTask × List WorkerTask))
    → p t ≡ false
    → Found p ts o
    → Found p (t ∷ ts) (elim o [ none ↦ none | some (u, rest) ↦ some (u, t ∷ rest) ])
Found-cons p t ts none e h = (e, h)
Found-cons p t ts (some (u, rest)) e (before, after, (split, rest_is, none_before, passes)) =
    (t ∷ before, after, (ap (λ r. t ∷ r) split, ap (λ r. t ∷ r) rest_is, (e, none_before), passes))

take_first-Found : (p : WorkerTask → Bool) (ts : List WorkerTask) → Found p ts (take_first p ts)
unfolding take_first
take_first-Found p [] = tt
take_first-Found p (t ∷ ts) = elim (Bool-cases (p t)) [
  | inl e ↦ rw e ([], ts, (refl, refl, tt, e))
  | inr e ↦ rw e (Found-cons p t ts (take_first p ts) e (take_first-Found p ts))
]

-- A task that `dequeue` takes of `q`, and the queue it leaves.
abbrev pub Dequeued : ReadyQueue → ReadyQueue × Option WorkerTask → Type 0
Dequeued q (q', none) = (q' ≡ q) × All (λ u. is_some u.reserved_transfer_id ≡ true) q.queue
Dequeued q (q', some t) =
    (is_some t.reserved_transfer_id ≡ false)
    × IsFirst (is_ready t.failed_retry) q.queue (t, q'.queue)
    × (t.failed_retry ≡ false → All (λ u. is_ready true u ≡ false) q.queue)
    × (q'.queue_version ≡ suc q.queue_version)

no_ready :
    (ts : List WorkerTask)
    → All (λ u. is_ready false u ≡ false) ts
    → All (λ u. is_some u.reserved_transfer_id ≡ true) ts
no_ready [] h = tt
no_ready (t ∷ ts) (h, hs) = (ground arith, no_ready ts hs)

All-member :
    (P : WorkerTask → Type 0) (before : List WorkerTask) (t : WorkerTask) (after : List WorkerTask)
    → All P (before ++ t ∷ after)
    → P t
All-member P [] t after (h, _) = h
All-member P (u ∷ before) t after (_, hs) = All-member P before t after hs

retry_taken :
    (q : ReadyQueue) (found : WorkerTask × List WorkerTask)
    → IsFirst (is_ready true) q.queue found
    → Dequeued q (without q found)
retry_taken q (t, rest) (before, after, (split, rest_is, none_before, passes)) =
    let retry : t.failed_retry ≡ true = ground (arith, passes) in
    (
      ground (arith, passes),
      subst (λ b. IsFirst (is_ready b) q.queue (t, rest)) (sym retry)
          (before, after, (split, rest_is, none_before, passes)),
      (λ fresh. absurd (ground (arith, fresh, retry))),
      refl,
    )

first_taken :
    (q : ReadyQueue) (found : WorkerTask × List WorkerTask)
    → All (λ u. is_ready true u ≡ false) q.queue
    → IsFirst (is_ready false) q.queue found
    → Dequeued q (without q found)
first_taken q (t, rest) no_retry (before, after, (split, rest_is, none_before, passes)) =
    let unready : is_ready true t ≡ false =
      All-member (λ u. is_ready true u ≡ false) before t after
        (subst (All (λ u. is_ready true u ≡ false)) split no_retry) in
    let fresh : t.failed_retry ≡ false = ground (arith, passes, unready) in
    (
      ground (arith, passes),
      subst (λ b. IsFirst (is_ready b) q.queue (t, rest)) (sym fresh)
          (before, after, (split, rest_is, none_before, passes)),
      (λ _. no_retry),
      refl,
    )

-- `dequeue` returns a task that is not reserved and takes just it out of the queue: a retry if one is
-- free, else another task, in each case the first of its kind that is free; and it returns none only
-- if all tasks are reserved, and leaves the queue then.
pub dequeue_lem : (q : ReadyQueue) → Dequeued q (dequeue q)
unfolding dequeue
dequeue_lem q =
    by_retry (take_first (is_ready true) q.queue) (take_first (is_ready false) q.queue)
      (take_first-Found (is_ready true) q.queue) (take_first-Found (is_ready false) q.queue)
  where
    by_any :
        (o : Option (WorkerTask × List WorkerTask))
        → All (λ u. is_ready true u ≡ false) q.queue
        → Found (is_ready false) q.queue o
        → Dequeued q (elim o [ some found ↦ without q found | none ↦ (q, none) ])
    by_any none no_retry h = (refl, no_ready q.queue h)
    by_any (some found) no_retry h = first_taken q found no_retry h

    by_retry :
        (o o' : Option (WorkerTask × List WorkerTask))
        → Found (is_ready true) q.queue o
        → Found (is_ready false) q.queue o'
        → Dequeued q (elim o [
          | some found ↦ without q found
          | none ↦ elim o' [ some found ↦ without q found | none ↦ (q, none) ]
        ])
    by_retry none o' h h' = by_any o' h h'
    by_retry (some found) o' h h' = retry_taken q found h
