-- ===== src/ReadyQueue/Steps.antt =====
-- HW1/worker.py: the runs of the queue of a worker, in any order of its operations, and its version.
use data_communication.Prelude.{
  ℕ, suc, ◌-◌, ◌≤◌, ◌≡◌, inl, inr, refl, sym, ap, subst, ◌∙◌, Bool, true, false, not, Option, none,
  some, List, [], ◌∷◌, ◌++◌, map, length, length-append, keep_if, elem, is_some, leb, if◌then◌else◌,
  Bool-cases, arith,
}
use mathlib.Core.List.{reverse, reverse-reverse}
use data_communication.ReadyQueue.State
use data_communication.ReadyQueue.State.{
  WorkerTask, ReadyQueue, init, is_for, is_none, release, mark,
}
use data_communication.ReadyQueue.Order.{dequeue_lem, Dequeued}
use data_communication.ReadyQueue.Reserve.{length-reverse}

pub data Step (q : ReadyQueue) : ReadyQueue → Type 0 where
  enqueue : (t : WorkerTask) → Step q (State.enqueue t q).0
  dequeue : Step q (State.dequeue q).0
  reserve : (id count : ℕ) → Step q (State.reserve_for_transfer id count q).0
  confirm : (id : ℕ) → Step q (State.confirm_transfer id q).0
  cancel : (id : ℕ) → Step q (State.cancel_transfer id q).0

pub data Run (q : ReadyQueue) : ReadyQueue → Type 0 where
  here : Run q q
  next : {r s : ReadyQueue} → Run q r → Step r s → Run q s

-- A later state of a queue: it has room as before, and the version tells of every change.
pub record Follows (q r : ReadyQueue) : Type 0 where
  pub same_max : r.max_size ≡ q.max_size
  pub fits : length q.queue ≤ q.max_size → length r.queue ≤ q.max_size
  pub grows : q.queue_version ≤ r.queue_version
  pub tells : r.queue_version ≡ q.queue_version → r.queue ≡ q.queue

Follows-refl : (q : ReadyQueue) → Follows q q
Follows-refl q = record { same_max = refl; fits = λ h. h; grows = omega arith; tells = λ _. refl }

Follows-trans : (q r s : ReadyQueue) → Follows q r → Follows r s → Follows q s
Follows-trans q r s v w = record {
  same_max = w.same_max ∙ v.same_max;
  fits = λ h.
      subst (λ m. length s.queue ≤ m) v.same_max
        (w.fits (subst (λ m. length r.queue ≤ m) (sym v.same_max) (v.fits h)));
  grows = omega (arith, v.grows, w.grows);
  tells =
      λ e. w.tells (omega (arith, v.grows, w.grows)) ∙ v.tells (omega (arith, v.grows, w.grows));
}

enqueue-Follows : (t : WorkerTask) (q : ReadyQueue) → Follows q (State.enqueue t q).0
unfolding State.enqueue
enqueue-Follows t q = elim (Bool-cases (leb q.max_size (length q.queue))) [
  | inl full ↦ rw full (Follows-refl q)
  | inr room ↦ rw room (record {
    same_max = refl;
    fits = λ h. ground (arith, room, length-append q.queue (t ∷ []));
    grows = omega arith;
    tells = λ e. absurd (omega (arith, e));
  })
]

pub length-removed :
    (before : List WorkerTask) (t : WorkerTask) (after : List WorkerTask)
    → length (before ++ after) ≤ length (before ++ t ∷ after)
length-removed before t after =
    omega (arith, length-append before after, length-append before (t ∷ after))

Dequeued-Follows :
    (q : ReadyQueue) (r : ReadyQueue × Option WorkerTask)
    → r.0.max_size ≡ q.max_size
    → Dequeued q r
    → Follows q r.0
Dequeued-Follows q (r, none) m (e, _) = rw e (Follows-refl q)
Dequeued-Follows q (r, some t) m
      (free, (before, after, (split, rest, none_before, passes)), retry, version) =
    record {
      same_max = m;
      fits = λ h. omega (arith, h, length-removed before t after, ap length split, ap length rest);
      grows = omega (arith, version);
      tells = λ e. absurd (omega (arith, e, version));
    }

dequeue-max : (q : ReadyQueue) → (State.dequeue q).0.max_size ≡ q.max_size
unfolding State.dequeue
dequeue-max q = ground arith

pub mark-length : (id left : ℕ) (ts : List WorkerTask) → length (mark id left ts).0 ≡ length ts
unfolding mark
mark-length id left [] = refl
mark-length id left (t ∷ ts) = ground (arith, mark-length id (left - 1) ts, mark-length id left ts)

mark_nothing :
    (id left : ℕ) (ts : List WorkerTask)
    → is_none (mark id left ts).1 ≡ true
    → (mark id left ts).0 ≡ ts
unfolding mark
mark_nothing id left [] h = refl
mark_nothing id left (t ∷ ts) h = elim (Bool-cases (is_some t.reserved_transfer_id)) [
  | inl e ↦ rw e (ap (λ r. t ∷ r) (mark_nothing id left ts (ground (arith, h, e))))
  | inr e ↦ absurd (ground (arith, h, e))
]

reserve-Follows :
    (id count : ℕ) (q : ReadyQueue) → Follows q (State.reserve_for_transfer id count q).0
unfolding State.reserve_for_transfer
reserve-Follows id count q = elim (Bool-cases (elem id q.completed_transfer_ids)) [
  | inl done ↦ rw done (Follows-refl q)
  | inr fresh ↦ elim (Bool-cases (is_none (reverse (keep_if (is_for id) q.queue)))) [
    | inr again ↦ rw (fresh, again) (Follows-refl q)
    | inl first ↦
        rw (fresh, first)
          (record {
            same_max = refl;
            fits = λ h. omega (
              arith,
              h,
              length-reverse marked.0,
              mark-length id count (reverse q.queue),
              length-reverse q.queue,
            );
            grows = ground arith;
            tells = λ e.
                ap reverse (mark_nothing id count (reverse q.queue) (nothing (is_none marked.1) e))
                ∙ reverse-reverse q.queue;
          })
  ]
]
  where
    marked : List WorkerTask × List WorkerTask
    marked = mark id count (reverse q.queue)

    nothing :
        (b : Bool)
        → (if b then q.queue_version else suc q.queue_version) ≡ q.queue_version
        → b ≡ true
    nothing true e = refl
    nothing false e = absurd (omega (arith, e))

module _ (p : WorkerTask → Bool) where
  pub length-keep_if : (ts : List WorkerTask) → length (keep_if p ts) ≤ length ts
  length-keep_if [] = omega arith
  length-keep_if (t ∷ ts) = ground (arith, length-keep_if ts)

  keep_others :
      (ts : List WorkerTask) → is_none (keep_if p ts) ≡ true → keep_if (λ t. not (p t)) ts ≡ ts
  keep_others [] h = refl
  keep_others (t ∷ ts) h = elim (Bool-cases (p t)) [
    | inl e ↦ absurd (ground (arith, h, e))
    | inr e ↦ rw e (ap (λ r. t ∷ r) (keep_others ts (ground (arith, h, e))))
  ]

confirm-Follows : (id : ℕ) (q : ReadyQueue) → Follows q (State.confirm_transfer id q).0
unfolding State.confirm_transfer
confirm-Follows id q = elim (Bool-cases (elem id q.completed_transfer_ids)) [
  | inl done ↦ rw done (Follows-refl q)
  | inr fresh ↦ elim (Bool-cases (is_none (keep_if (is_for id) q.queue))) [
    | inl nothing ↦
        rw (fresh, nothing)
          (record {
            same_max = refl;
            fits = λ h. omega (arith, h, length-keep_if (λ t. not (is_for id t)) q.queue);
            grows = omega arith;
            tells = λ _. keep_others (is_for id) q.queue nothing;
          })
    | inr some_for ↦
        rw (fresh, some_for)
          (record {
            same_max = refl;
            fits = λ h. omega (arith, h, length-keep_if (λ t. not (is_for id t)) q.queue);
            grows = omega arith;
            tells = λ e. absurd (omega (arith, e));
          })
  ]
]

pub length-map :
    (f : WorkerTask → WorkerTask) (ts : List WorkerTask) → length (map f ts) ≡ length ts
length-map f [] = refl
length-map f (t ∷ ts) = omega (arith, length-map f ts)

release_nothing :
    (id : ℕ) (ts : List WorkerTask) → length (keep_if (is_for id) ts) ≡ 0 → map (release id) ts ≡ ts
release_nothing id [] h = refl
release_nothing id (t ∷ ts) h = elim (Bool-cases (is_for id t)) [
  | inl e ↦ absurd (ground (arith, h, e))
  | inr e ↦ rw e (ap (λ r. t ∷ r) (release_nothing id ts (ground (arith, h, e))))
]

cancel-Follows : (id : ℕ) (q : ReadyQueue) → Follows q (State.cancel_transfer id q).0
unfolding State.cancel_transfer
cancel-Follows id q = record {
  same_max = refl;
  fits = λ h. omega (arith, h, length-map (release id) q.queue);
  grows = ground arith;
  tells = λ e. release_nothing id q.queue (ground (arith, e));
}

Step-Follows : {q r : ReadyQueue} → Step q r → Follows q r
Step-Follows {q} (Step.enqueue t) = enqueue-Follows t q
Step-Follows {q} Step.dequeue = Dequeued-Follows q (State.dequeue q) (dequeue-max q) (dequeue_lem q)
Step-Follows {q} (Step.reserve id count) = reserve-Follows id count q
Step-Follows {q} (Step.confirm id) = confirm-Follows id q
Step-Follows {q} (Step.cancel id) = cancel-Follows id q

-- In any run of the operations of a queue, a queue that is not over its size stays so, the version
-- never falls, and two states with the same version hold the same tasks.
pub Run-Follows : {q r : ReadyQueue} → Run q r → Follows q r
Run-Follows {q} Run.here = Follows-refl q
Run-Follows {q} (Run.next {r} {s} run st) = Follows-trans q r s (Run-Follows run) (Step-Follows st)
