-- ===== src/ReadyQueue/Reserve.antt =====
-- HW1/worker.py: the reservation of tasks for a transfer, and what confirming or canceling it leaves.
use data_communication.Prelude.{
  ℕ, ◌-◌, ◌<◌, min, ◌≡◌, inl, inr, refl, sym, ap, ap₂, subst, ◌∙◌, Bool, true, false, not, Option,
  none, some, List, [], ◌∷◌, ◌++◌, map, length, length-append, keep_if, elem, All, is_some, ◌==◌,
  ==_refl, Bool-cases, arith,
}
use mathlib.Core.List.Perm
use mathlib.Core.List.{
  Perm, perm_middle, reverse, reverse-cons, reverse-reverse, append-nil, map-append,
}
use data_communication.ReadyQueue.State.{
  WorkerTask, ReadyQueue, is_for, is_none, reserve_task, release, mark, reserve_for_transfer,
  confirm_transfer, cancel_transfer,
}

module _ (p : WorkerTask → Bool) where
  keep_if-append : (xs ys : List WorkerTask) → keep_if p (xs ++ ys) ≡ keep_if p xs ++ keep_if p ys
  keep_if-append [] ys = refl
  keep_if-append (x ∷ xs) ys = elim (Bool-cases (p x)) [
    | inl e ↦ rw e (ap (λ r. x ∷ r) (keep_if-append xs ys))
    | inr e ↦ rw e (keep_if-append xs ys)
  ]

  keep_if-reverse : (xs : List WorkerTask) → keep_if p (reverse xs) ≡ reverse (keep_if p xs)
  keep_if-reverse [] = refl
  keep_if-reverse (x ∷ xs) =
      rw (reverse-cons x xs, keep_if-append (reverse xs) (x ∷ []), keep_if-reverse xs)
        (elim (Bool-cases (p x)) [
          | inl e ↦ rw (e, reverse-cons x (keep_if p xs)) refl
          | inr e ↦ rw (e, append-nil (reverse (keep_if p xs))) refl
        ])

  keep_if_none : (xs : List WorkerTask) → All (λ t. p t ≡ false) xs → keep_if p xs ≡ []
  keep_if_none [] h = refl
  keep_if_none (x ∷ xs) (h, hs) = rw h (keep_if_none xs hs)

  All-append :
      (P : WorkerTask → Type 0) (xs ys : List WorkerTask) → All P xs → All P ys → All P (xs ++ ys)
  All-append P [] ys h k = k
  All-append P (x ∷ xs) ys (h, hs) k = (h, All-append P xs ys hs k)

  All-reverse : (P : WorkerTask → Type 0) (xs : List WorkerTask) → All P xs → All P (reverse xs)
  All-reverse P [] h = tt
  All-reverse P (x ∷ xs) (h, hs) =
      rw (reverse-cons x xs) (All-append P (reverse xs) (x ∷ []) (All-reverse P xs hs) (h, tt))

map-reverse :
    (f : WorkerTask → WorkerTask) (xs : List WorkerTask) → map f (reverse xs) ≡ reverse (map f xs)
map-reverse f [] = refl
map-reverse f (x ∷ xs) =
    rw
      (
        reverse-cons x xs,
        map-append f (reverse xs) (x ∷ []),
        map-reverse f xs,
        reverse-cons (f x) (map f xs),
      )
      refl

abbrev pub is_free : WorkerTask → Bool
is_free t = not (is_some t.reserved_transfer_id)

reserve_task-is_for : (id : ℕ) (t : WorkerTask) → is_for id (reserve_task id t) ≡ true
reserve_task-is_for id t = ==_refl id

release-reserve_task :
    (id : ℕ) (t : WorkerTask)
    → is_some t.reserved_transfer_id ≡ false
    → release id (reserve_task id t) ≡ t
release-reserve_task id t h = rw (==_refl id) (go t.reserved_transfer_id refl h)
  where
    go :
        (o : Option ℕ)
        → t.reserved_transfer_id ≡ o
        → is_some o ≡ false
        → record t { reserved_transfer_id = none } ≡ t
    go none e h = ap (λ o. record t { reserved_transfer_id = o }) (sym e)
    go (some x) e h = ground arith

release_others :
    (id : ℕ) (ts : List WorkerTask) → All (λ t. is_for id t ≡ false) ts → map (release id) ts ≡ ts
release_others id [] h = refl
release_others id (t ∷ ts) (h, hs) = rw h (ap (λ r. t ∷ r) (release_others id ts hs))

mark-release :
    (id left : ℕ) (ts : List WorkerTask)
    → All (λ t. is_for id t ≡ false) ts
    → map (release id) (mark id left ts).0 ≡ ts
unfolding mark
mark-release id left [] h = refl
mark-release id left (t ∷ ts) (h, hs) = elim (Bool-cases (is_some t.reserved_transfer_id)) [
  | inl e ↦ rw (e, h) (ap (λ r. t ∷ r) (mark-release id left ts hs))
  | inr e ↦ elim (Bool-cases (left == 1)) [
    | inl last ↦
        rw (e, last)
          (ap₂ {C = List WorkerTask} (λ x r. x ∷ r) (release-reserve_task id t e)
            (release_others id ts hs))
    | inr more ↦
        rw (e, more)
          (ap₂ {C = List WorkerTask} (λ x r. x ∷ r) (release-reserve_task id t e)
            (mark-release id (left - 1) ts hs))
  ]
]

mark-reserved :
    (id left : ℕ) (ts : List WorkerTask)
    → All (λ t. is_for id t ≡ false) ts
    → keep_if (is_for id) (mark id left ts).0 ≡ (mark id left ts).1
unfolding mark
mark-reserved id left [] h = refl
mark-reserved id left (t ∷ ts) (h, hs) = elim (Bool-cases (is_some t.reserved_transfer_id)) [
  | inl e ↦ rw (e, h) (mark-reserved id left ts hs)
  | inr e ↦ elim (Bool-cases (left == 1)) [
    | inl last ↦
        rw (e, last, ==_refl id) (ap (λ r. reserve_task id t ∷ r) (keep_if_none (is_for id) ts hs))
    | inr more ↦
        rw (e, more, ==_refl id)
          (ap (λ r. reserve_task id t ∷ r) (mark-reserved id (left - 1) ts hs))
  ]
]

mark-count :
    (id left : ℕ) (ts : List WorkerTask)
    → 0 < left
    → length (mark id left ts).1 ≡ min left (length (keep_if is_free ts))
unfolding mark
mark-count id left [] h = omega arith
mark-count id left (t ∷ ts) h = elim (Bool-cases (is_some t.reserved_transfer_id)) [
  | inl e ↦ rw (e) (mark-count id left ts h)
  | inr e ↦ elim (Bool-cases (left == 1)) [
    | inl last ↦ rw (e, last) (ground (arith, last))
    | inr more ↦ rw (e, more) (ground (arith, more, mark-count id (left - 1) ts))
  ]
]

pub length-reverse : (ts : List WorkerTask) → length (reverse ts) ≡ length ts
length-reverse [] = refl
length-reverse (t ∷ ts) =
    rw (reverse-cons t ts) (omega (arith, length-append (reverse ts) (t ∷ []), length-reverse ts))

-- The tasks that are not for the transfer, with those that are, released, are all the tasks.
parts-perm :
    (id : ℕ) (ts : List WorkerTask)
    → Perm
        (keep_if (λ t. not (is_for id t)) ts ++ map (release id) (keep_if (is_for id) ts))
        (map (release id) ts)
parts-perm id [] = Perm.rfl
parts-perm id (t ∷ ts) = elim (Bool-cases (is_for id t)) [
  | inl e ↦
      rw (e, e)
        (Perm.trans
          (perm_middle {a = record t { reserved_transfer_id = none }}
            (keep_if (λ t. not (is_for id t)) ts) (map (release id) (keep_if (is_for id) ts)))
          (Perm.cons (record t { reserved_transfer_id = none }) (parts-perm id ts)))
  | inr e ↦ rw e (Perm.cons t (parts-perm id ts))
]

module _ (id count : ℕ) (q : ReadyQueue) (unused : All (λ t. is_for id t ≡ false) q.queue)
    (open_id : elem id q.completed_transfer_ids ≡ false) where
  abbrev marked : List WorkerTask × List WorkerTask
  marked = mark id count (reverse q.queue)

  unused_back : All (λ t. is_for id t ≡ false) (reverse q.queue)
  unused_back = All-reverse (is_for id) (λ t. is_for id t ≡ false) q.queue unused

  reserve-mark : (reserve_for_transfer id count q).0.queue ≡ reverse marked.0
  unfolding reserve_for_transfer
  reserve-mark = rw (open_id, keep_if_none (is_for id) q.queue unused) refl

  reserve-marked : (reserve_for_transfer id count q).1 ≡ marked.1
  unfolding reserve_for_transfer
  reserve-marked = rw (open_id, keep_if_none (is_for id) q.queue unused) refl

  reserve-completed :
      (reserve_for_transfer id count q).0.completed_transfer_ids ≡ q.completed_transfer_ids
  unfolding reserve_for_transfer
  reserve-completed = rw (open_id, keep_if_none (is_for id) q.queue unused) refl

  reserved-queue :
      keep_if (is_for id) (reserve_for_transfer id count q).0.queue
      ≡ reverse (reserve_for_transfer id count q).1
  reserved-queue =
      rw (reserve-mark, reserve-marked, keep_if-reverse (is_for id) marked.0)
        (ap reverse (mark-reserved id count (reverse q.queue) unused_back))

  released-queue : map (release id) (reserve_for_transfer id count q).0.queue ≡ q.queue
  released-queue =
      rw (reserve-mark, map-reverse (release id) marked.0)
        (ap reverse (mark-release id count (reverse q.queue) unused_back) ∙ reverse-reverse q.queue)

  -- For an id that no task is reserved for and that is not completed: canceling the transfer after
  -- reserving for it gives back the queue as it was, and counts the tasks that were reserved.
  pub cancel-reserve :
      let reserved = reserve_for_transfer id count q in
      ((cancel_transfer id reserved.0).0.queue ≡ q.queue)
      × ((cancel_transfer id reserved.0).1 ≡ length reserved.1)
  unfolding cancel_transfer
  cancel-reserve = (
    released-queue,
    ap length reserved-queue ∙ length-reverse (reserve_for_transfer id count q).1,
  )

  -- Under the same conditions: confirming the transfer after reserving for it removes just the
  -- reserved tasks; what stays in the queue and what was removed, with the mark taken off, are the
  -- tasks of the queue before, each as often as there; and if `count` is not 0, the number of reserved
  -- tasks is the smaller one of `count` and the number of tasks that were free.
  pub confirm-reserve :
      let reserved = reserve_for_transfer id count q in
      let confirmed = confirm_transfer id reserved.0 in
      (confirmed.1 ≡ reverse reserved.1)
      × Perm (confirmed.0.queue ++ map (release id) confirmed.1) q.queue
      × (0 < count → length reserved.1 ≡ min count (length (keep_if is_free q.queue)))
  unfolding confirm_transfer
  confirm-reserve =
      elim (Bool-cases (is_none (keep_if (is_for id) (reserve_for_transfer id count q).0.queue))) [
        | inl e ↦ rw (reserve-completed, open_id, e) (reserved-queue, all_there, counted)
        | inr e ↦ rw (reserve-completed, open_id, e) (reserved-queue, all_there, counted)
      ]
    where
      all_there :
          Perm
            (keep_if (λ t. not (is_for id t)) (reserve_for_transfer id count q).0.queue
              ++ map (release id) (keep_if (is_for id) (reserve_for_transfer id count q).0.queue))
            q.queue
      all_there =
          subst
            (λ ts.
              Perm
                (keep_if (λ t. not (is_for id t)) (reserve_for_transfer id count q).0.queue
                  ++ map (release id)
                      (keep_if (is_for id) (reserve_for_transfer id count q).0.queue))
                ts)
            released-queue (parts-perm id (reserve_for_transfer id count q).0.queue)

      counted :
          0 < count
          → length (reserve_for_transfer id count q).1
            ≡ min count (length (keep_if is_free q.queue))
      counted h = rw reserve-marked (
          mark-count id count (reverse q.queue) h
          ∙ ap (λ n. min count n)
              (ap length (keep_if-reverse is_free q.queue)
                ∙ length-reverse (keep_if is_free q.queue)))
