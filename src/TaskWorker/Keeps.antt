-- ===== src/TaskWorker/Keeps.antt =====
-- HW1/worker.py: each section of a worker's threads keeps the promised places.
use data_communication.Prelude.{
  ℕ, suc, ◌+◌, ◌-◌, ◌≤◌, ◌≡◌, ◌≢◌, ◌⊎◌, inl, inr, refl, ap, ◌∙◌, Bool, true, false, ◌&&◌, ◌||◌, not,
  Option, none, some, List, [], ◌∷◌, ◌++◌, Dict, lookup, insert, map, length, keep_if, is_some,
  is_num, ltb, leb, ◌==◌, if◌then◌else◌, Bool-cases, arith,
}
use data_communication.ReadyQueue.State.{WorkerTask, ReadyQueue, enqueue, dequeue}
use data_communication.ReadyQueue.Lengths.{Shrinks, dequeue-Shrinks, enqueue_taken, length-enqueued}
use data_communication.TaskWorker.State.{TaskWorker, Pending, Fault, no_room, wrong_time, closed}
use data_communication.TaskWorker.Tasks
use data_communication.TaskWorker.Tasks.{has_room}
use data_communication.TaskWorker.Moves
use data_communication.TaskWorker.Room.{Waiting, promised, IsRoomy}

-- What holds of a result, if there is one.
abbrev pub Gives : {A : Type 0} → (A → Type 0) → Fault ⊎ A → Type 0
Gives P (inl fault) = Unit
Gives P (inr a) = P a

Gives-guard :
    {A : Type 0} (P : A → Type 0) (c : Bool) (fault : Fault) (o : Fault ⊎ A)
    → (c ≡ false → Gives P o)
    → Gives P (if c then inl fault else o)
Gives-guard P true fault o h = tt
Gives-guard P false fault o h = h refl

sure-guard :
    {A : Type 0} (P : A → Type 0) (c : Bool) (fault : Fault) (o : Fault ⊎ A)
    → ◌≢◌ {A = Fault ⊎ A} (inl fault) (inl no_room)
    → (c ≡ false → Gives P o × (o ≢ inl no_room))
    → Gives P (if c then inl fault else o) × ((if c then inl fault else o) ≢ inl no_room)
sure-guard P true fault o away h = (tt, away)
sure-guard P false fault o away h = h refl

length-insert : (k : ℕ) (p : Pending) (d : Dict Pending) → length (insert k p d) ≤ suc (length d)
unfolding insert
length-insert k p [] = omega arith
length-insert k p (e ∷ d) = ground (arith, length-insert k p d)

length-kept : (k : ℕ) (d : Dict Pending) → length (keep_if (λ e. not (e.0 == k)) d) ≤ length d
length-kept k [] = omega arith
length-kept k (e ∷ d) = ground (arith, length-kept k d)

length-removed :
    (k : ℕ) (d : Dict Pending) (p : Pending)
    → lookup k d ≡ some p
    → suc (length (keep_if (λ e. not (e.0 == k)) d)) ≤ length d
unfolding lookup
length-removed k [] p h = absurd (ground (arith, h))
length-removed k (e ∷ d) p h = elim (Bool-cases (e.0 == k)) [
  | inl same ↦ rw same (omega (arith, length-kept k d))
  | inr other ↦ rw other (omega (arith, length-removed k d p (rw other at h)))
]

has_room-le :
    (count : ℕ) (w : TaskWorker)
    → has_room count w ≡ true
    → length w.ready_queue.queue + (length w.pending_tasks + w.incoming_slots + count)
      ≤ w.ready_queue.max_size
has_room-le count w room = ground (arith, room)

pub shrunk-IsRoomy :
    (w w' : TaskWorker) (ts : Waiting)
    → IsRoomy (w, ts)
    → Shrinks w.ready_queue w'.ready_queue
    → w'.pending_tasks ≡ w.pending_tasks
    → w'.incoming_slots ≡ w.incoming_slots
    → IsRoomy (w', ts)
shrunk-IsRoomy w w' ts (slots, fits) v same_pending same_slots = (
  same_slots ∙ slots,
  omega (arith, fits, v.shorter, v.same_max, ap length same_pending, same_slots),
)

pub task-IsRoomy :
    (key value attempt : ℕ) (failed_retry : Bool) (w : TaskWorker) (ts : Waiting)
    → IsRoomy (w, ts)
    → Gives (λ r. IsRoomy (r.0, ts)) (Tasks.handle_task key value attempt failed_retry w)
unfolding Tasks.handle_task
task-IsRoomy key value attempt failed_retry w ts (slots, fits) =
    Gives-guard (λ r. IsRoomy (r.0, ts)) (not (leb 1 attempt) || not (leb 1 value && leb value 100))
      _ _
      (λ _. elim (Bool-cases (has_room 1 w)) [
        | inl room ↦ rw room (
          slots,
          omega (
            arith,
            has_room-le 1 w room,
            length-insert (suc w.message_number)
                (record {
                  key = key;
                  value = value;
                  attempt = attempt;
                  failed_retry = failed_retry;
                })
                w.pending_tasks,
          ),
        )
        | inr full ↦ rw full (slots, fits)
      ])

-- The confirmation of a task that waits for it: there is a place, so it is put into the queue.
entered-IsRoomy :
    (request_id : ℕ) (t : WorkerTask) (p : Pending) (w : TaskWorker) (ts : Waiting)
    → lookup request_id w.pending_tasks ≡ some p
    → IsRoomy (w, ts)
    → Gives (λ w'. IsRoomy (w', ts)) (Tasks.entered request_id t w (enqueue t w.ready_queue))
      × (Tasks.entered request_id t w (enqueue t w.ready_queue) ≢ inl no_room)
entered-IsRoomy request_id t p w ts there (slots, fits) =
    let gone = length-removed request_id w.pending_tasks p there in
    rw (enqueue_taken t w.ready_queue (omega (arith, fits, gone))) (
      (slots, omega (arith, fits, gone, length-enqueued t w.ready_queue.queue)),
      (λ e. absurd (ground (arith, e))),
    )

confirm_pending-IsRoomy :
    (request_id key attempt enqueued_at : ℕ) (w : TaskWorker) (ts : Waiting) (o : Option Pending)
    → lookup request_id w.pending_tasks ≡ o
    → IsRoomy (w, ts)
    → Gives (λ w'. IsRoomy (w', ts)) (Tasks.confirm_pending request_id key attempt enqueued_at w o)
      × (Tasks.confirm_pending request_id key attempt enqueued_at w o ≢ inl no_room)
confirm_pending-IsRoomy request_id key attempt enqueued_at w ts none there v =
    (tt, λ e. absurd (ground (arith, e)))
confirm_pending-IsRoomy request_id key attempt enqueued_at w ts (some p) there v =
    elim (Bool-cases (not (leb 1 attempt))) [
      | inl e ↦ rw e (tt, λ e. absurd (ground (arith, e)))
      | inr e ↦ elim (Bool-cases (not (key == p.key) || not (attempt == p.attempt))) [
        | inl e' ↦ rw (e, e') (tt, λ e. absurd (ground (arith, e)))
        | inr e' ↦ elim (Bool-cases (ltb w.clock enqueued_at)) [
          | inl e'' ↦ rw (e, e', e'') (tt, λ e. absurd (ground (arith, e)))
          | inr e'' ↦
              rw (e, e', e'')
                (entered-IsRoomy request_id (Tasks.to_task p enqueued_at) p w ts there v)
        ]
      ]
    ]

pub confirmed-IsRoomy :
    (request_id key attempt enqueued_at : ℕ) (w : TaskWorker) (ts : Waiting)
    → IsRoomy (w, ts)
    → Gives
        (λ w'. IsRoomy (w', ts))
        (Tasks.handle_task_confirmed request_id key attempt enqueued_at w)
      × (Tasks.handle_task_confirmed request_id key attempt enqueued_at w ≢ inl no_room)
unfolding Tasks.handle_task_confirmed
confirmed-IsRoomy request_id key attempt enqueued_at w ts v =
    confirm_pending-IsRoomy request_id key attempt enqueued_at w ts
      (lookup request_id w.pending_tasks) refl v

started-IsRoomy :
    (draw : ℕ) (w : TaskWorker) (ts : Waiting) (r : ReadyQueue × Option WorkerTask)
    → Shrinks w.ready_queue r.0
    → IsRoomy (w, ts)
    → IsRoomy (Tasks.started draw w r, ts)
started-IsRoomy draw w ts (q, none) s v =
    shrunk-IsRoomy w (Tasks.started draw w (q, none)) ts v s refl refl
started-IsRoomy draw w ts (q, some t) s v =
    shrunk-IsRoomy w (Tasks.started draw w (q, some t)) ts v s refl refl

pub either-IsRoomy :
    (c : Bool) (w w' : TaskWorker) (ts : Waiting)
    → IsRoomy (w, ts)
    → IsRoomy (w', ts)
    → IsRoomy (if c then w else w', ts)
either-IsRoomy true w w' ts v v' = v
either-IsRoomy false w w' ts v v' = v'

pub start-IsRoomy :
    (draw : ℕ) (w : TaskWorker) (ts : Waiting)
    → IsRoomy (w, ts)
    → IsRoomy (Tasks.start_next_task draw w, ts)
unfolding Tasks.start_next_task
start-IsRoomy draw w ts v =
    either-IsRoomy
      (w.stopping || w.p2p_failed || not w.running || not w.ready || is_some w.current_task) w
      (Tasks.started draw w (dequeue w.ready_queue)) ts v
      (started-IsRoomy draw w ts (dequeue w.ready_queue) (dequeue-Shrinks w.ready_queue) v)

pub process_current-IsRoomy :
    (request_id key attempt started_at finished_at waiting_time : ℕ) (succeeds : Bool)
    (w : TaskWorker) (ts : Waiting) (o : Option WorkerTask)
    → IsRoomy (w, ts)
    → Gives
        (λ w'. IsRoomy (w', ts))
        (Tasks.process_current request_id key attempt started_at finished_at waiting_time succeeds w
          o)
process_current-IsRoomy request_id key attempt started_at finished_at waiting_time succeeds w ts
      none v =
    tt
process_current-IsRoomy request_id key attempt started_at finished_at waiting_time succeeds w ts
      (some t) v =
    let P : TaskWorker → Type 0 = λ w'. IsRoomy (w', ts) in
    Gives-guard P
      (not (is_num w.process_request_id request_id)
        || not (key == t.key)
        || not (attempt == t.attempt))
      _ _
      (λ _.
        Gives-guard P
          (ltb w.clock finished_at || not (Tasks.takes w.processing_time started_at finished_at)) _
          _
          (λ _. Gives-guard P (ltb started_at t.enqueued_at) _ _ (λ _.
            Gives-guard P
              (not (t.accumulated_waiting_time + started_at - t.enqueued_at == waiting_time)) _ _
              (λ _.
                Gives-guard P (succeeds && Tasks.is_other_value (lookup t.key w.storage) t.value) _
                  _ (λ _. v)))))

pub promise-IsRoomy :
    (incoming : List WorkerTask) (w : TaskWorker) (ts : Waiting)
    → IsRoomy (w, ts)
    → Gives (λ r. IsRoomy (r.0, if r.1 then incoming ∷ ts else ts)) (Moves.promise_slots incoming w)
unfolding Moves.promise_slots promised
promise-IsRoomy incoming w ts (slots, fits) =
    Gives-guard (λ r. IsRoomy (r.0, if r.1 then incoming ∷ ts else ts)) w.closing _ _
      (λ _. elim (Bool-cases (has_room (length incoming) w)) [
        | inl room ↦
            rw room (omega (arith, slots), omega (arith, has_room-le (length incoming) w room))
        | inr full ↦ rw full (slots, fits)
      ])

promised-split :
    (incoming : List WorkerTask) (ts rest : Waiting)
    → promised (ts ++ incoming ∷ rest) ≡ length incoming + promised (ts ++ rest)
unfolding promised
promised-split incoming [] rest = refl
promised-split incoming (t ∷ ts) rest = omega (arith, promised-split incoming ts rest)

-- Tasks for which there is room all get into the queue.
abbrev Took : List WorkerTask → ReadyQueue → Option ReadyQueue → Type 0
Took ts q none = ⊥
Took ts q (some q') = (length q'.queue ≡ length q.queue + length ts) × (q'.max_size ≡ q.max_size)

enqueue_all-Took :
    (ts : List WorkerTask) (q : ReadyQueue)
    → length q.queue + length ts ≤ q.max_size
    → Took ts q (Moves.enqueue_all ts q)
unfolding Moves.enqueue_all
enqueue_all-Took [] q room = (omega arith, refl)
enqueue_all-Took (t ∷ ts) q room = rw (enqueue_taken t q (omega (arith, room))) (
    more (Moves.enqueue_all ts _)
      (enqueue_all-Took ts _ (omega (arith, room, length-enqueued t q.queue))))
  where
    more :
        (o : Option ReadyQueue)
        → Took ts (record q { queue = q.queue ++ t ∷ []; queue_version = suc q.queue_version }) o
        → Took (t ∷ ts) q o
    more none h = h
    more (some q') (longer, same) = (omega (arith, longer, length-enqueued t q.queue), same)

length-arrived :
    (transfer_id at : ℕ) (ts : List WorkerTask)
    → length (map (Moves.arrived transfer_id at) ts) ≡ length ts
length-arrived transfer_id at [] = refl
length-arrived transfer_id at (t ∷ ts) = omega (arith, length-arrived transfer_id at ts)

filled-IsRoomy :
    (incoming arrived : List WorkerTask) (w : TaskWorker) (ts rest : Waiting)
    (o : Option ReadyQueue)
    → length arrived ≡ length incoming
    → Took arrived w.ready_queue o
    → IsRoomy (w, ts ++ incoming ∷ rest)
    → Gives (λ w'. IsRoomy (w', ts ++ rest)) (Moves.filled incoming w o)
      × (Moves.filled incoming w o ≢ inl no_room)
filled-IsRoomy incoming arrived w ts rest none same took v = absurd took
filled-IsRoomy incoming arrived w ts rest (some q) same (longer, same_max) (slots, fits) =
    let split = promised-split incoming ts rest in
    (
      (omega (arith, slots, split), omega (arith, slots, split, fits, longer, same, same_max)),
      (λ e. absurd (ground (arith, e))),
    )

pub fill-IsRoomy :
    (transfer_id started_at at : ℕ) (incoming : List WorkerTask) (w : TaskWorker)
    (ts rest : Waiting)
    → IsRoomy (w, ts ++ incoming ∷ rest)
    → Gives (λ w'. IsRoomy (w', ts ++ rest)) (Moves.fill_slots transfer_id started_at at incoming w)
      × (Moves.fill_slots transfer_id started_at at incoming w ≢ inl no_room)
unfolding Moves.fill_slots
fill-IsRoomy transfer_id started_at at incoming w ts rest v =
    sure-guard (λ w'. IsRoomy (w', ts ++ rest)) (ltb at started_at) wrong_time _
      (λ e. absurd (ground (arith, e)))
      (λ _.
        sure-guard (λ w'. IsRoomy (w', ts ++ rest)) w.closing closed _
          (λ e. absurd (ground (arith, e)))
          (λ _.
            filled-IsRoomy incoming arrived w ts rest (Moves.enqueue_all arrived w.ready_queue) same
              (enqueue_all-Took arrived w.ready_queue
                (omega (arith, v.0, v.1, same, promised-split incoming ts rest)))
              v))
  where
    arrived : List WorkerTask
    arrived = map (Moves.arrived transfer_id at) incoming

    same : length (map (Moves.arrived transfer_id at) incoming) ≡ length incoming
    same = length-arrived transfer_id at incoming
