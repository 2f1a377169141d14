-- ===== src/ReadyQueue/State.antt =====
-- HW1/worker.py: `WorkerTask` and `WorkerReadyQueue`. Each operation runs under the lock of the queue.
-- A key or a transfer id is a number that stands for the text, a time is a number of seconds.
use data_communication.Prelude.{
  ℕ, suc, ◌+◌, ◌-◌, Bool, true, false, ◌&&◌, ◌||◌, not, Option, none, some, List, [], ◌∷◌, ◌++◌,
  map, length, keep_if, elem, is_some, is_num, leb, ◌==◌, if◌then◌else◌,
}
use mathlib.Core.List.{reverse}

pub record WorkerTask : Type 0 where
  pub key : ℕ
  pub value : ℕ
  pub attempt : ℕ
  pub enqueued_at : ℕ
  pub reserved_transfer_id : Option ℕ
  pub failed_retry : Bool
  pub accumulated_waiting_time : ℕ

pub record ReadyQueue : Type 0 where
  pub queue : List WorkerTask
  pub max_size : ℕ
  pub completed_transfer_ids : List ℕ
  pub queue_version : ℕ

abbrev pub init : ℕ → ReadyQueue
init max_size = record {
  queue = [];
  max_size = max_size;
  completed_transfer_ids = [];
  queue_version = 0;
}

abbrev pub queue_state : ReadyQueue → ℕ × ℕ
queue_state q = (length q.queue, q.queue_version)

abbrev pub has_capacity : ℕ → ReadyQueue → Bool
has_capacity count q = leb (length q.queue + count) q.max_size

unfoldable pub enqueue : WorkerTask → ReadyQueue → ReadyQueue × Bool
enqueue t q =
    if leb q.max_size (length q.queue)
    then (q, false)
    else (record q { queue = q.queue ++ t ∷ []; queue_version = suc q.queue_version }, true)

-- The test of `dequeue` in one of its two passes.
abbrev pub is_ready : Bool → WorkerTask → Bool
is_ready retry_only t = not (is_some t.reserved_transfer_id) && (t.failed_retry || not retry_only)

-- The first task that passes a test, and the others.
unfoldable pub take_first :
    (WorkerTask → Bool) → List WorkerTask → Option (WorkerTask × List WorkerTask)
take_first p [] = none
take_first p (t ∷ ts) =
    let found = take_first p ts in
    if p t then some (t, ts) else elim found [ none ↦ none | some (u, rest) ↦ some (u, t ∷ rest) ]

abbrev pub without : ReadyQueue → WorkerTask × List WorkerTask → ReadyQueue × Option WorkerTask
without q (t, rest) = (record q { queue = rest; queue_version = suc q.queue_version }, some t)

unfoldable pub dequeue : ReadyQueue → ReadyQueue × Option WorkerTask
dequeue q = elim (take_first (is_ready true) q.queue) [
  | some found ↦ without q found
  | none ↦ elim (take_first (is_ready false) q.queue) [
    | some found ↦ without q found
    | none ↦ (q, none)
  ]
]

-- Whether a task is reserved for the transfer.
abbrev pub is_for : ℕ → WorkerTask → Bool
is_for transfer_id t = is_num t.reserved_transfer_id transfer_id

abbrev pub reserve_task : ℕ → WorkerTask → WorkerTask
reserve_task transfer_id t = record t { reserved_transfer_id = some transfer_id }

-- The loop of `reserve_for_transfer` over the tasks from the last one on: the tasks after it, and
-- those that it has reserved. It ends when `left` more are reserved, and never for 0.
unfoldable pub mark : ℕ → ℕ → List WorkerTask → List WorkerTask × List WorkerTask
mark transfer_id left [] = ([], [])
mark transfer_id left (t ∷ ts) =
    let r = reserve_task transfer_id t in
    let rest = mark transfer_id (left - 1) ts in
    let skipped = mark transfer_id left ts in
    if is_some t.reserved_transfer_id
    then (t ∷ skipped.0, skipped.1)
    else if left == 1
    then (r ∷ ts, r ∷ [])
    else (r ∷ rest.0, r ∷ rest.1)

abbrev pub is_none : List WorkerTask → Bool
is_none [] = true
is_none _ = false

unfoldable pub reserve_for_transfer : ℕ → ℕ → ReadyQueue → ReadyQueue × List WorkerTask
reserve_for_transfer transfer_id count q =
    let reserved = reverse (keep_if (is_for transfer_id) q.queue) in
    if elem transfer_id q.completed_transfer_ids
    then (q, [])
    else if not (is_none reserved)
    then (q, reserved)
    else let p = mark transfer_id count (reverse q.queue) in
      (
        record q {
          queue = reverse p.0;
          queue_version = if is_none p.1 then q.queue_version else suc q.queue_version;
        },
        p.1,
      )

unfoldable pub confirm_transfer : ℕ → ReadyQueue → ReadyQueue × List WorkerTask
confirm_transfer transfer_id q =
    if elem transfer_id q.completed_transfer_ids
    then (q, [])
    else let removed = keep_if (is_for transfer_id) q.queue in
      let remaining = keep_if (λ t. not (is_for transfer_id t)) q.queue in
      (
        if is_none removed then record q { queue = remaining } else record q {
          queue = remaining;
          completed_transfer_ids = transfer_id ∷ q.completed_transfer_ids;
          queue_version = suc q.queue_version;
        },
        removed,
      )

abbrev pub release : ℕ → WorkerTask → WorkerTask
release transfer_id t = if is_for transfer_id t then record t { reserved_transfer_id = none } else t

unfoldable pub cancel_transfer : ℕ → ReadyQueue → ReadyQueue × ℕ
cancel_transfer transfer_id q =
    let canceled = length (keep_if (is_for transfer_id) q.queue) in
    (
      record q {
        queue = map (release transfer_id) q.queue;
        queue_version = if canceled == 0 then q.queue_version else suc q.queue_version;
      },
      canceled,
    )
