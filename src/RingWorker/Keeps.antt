-- ===== src/RingWorker/Keeps.antt =====
-- The invariant of the worker, operation by operation.
use data_communication.Prelude.{
  ℕ, suc, ◌≡◌, ◌≢◌, refl, subst, Dict, Bool, true, false, ◌||◌, ◌&&◌, not, Option, none, some, List,
  [], ◌∷◌, ◌++◌, All, is_some, get_or, keep_if, leb, ◌==◌, lookup, insert, lookup-insert, arith,
  if◌then◌else◌, Bool-cases, inl, inr,
}
use data_communication.RingWorker.State.{
  Assignment, Checkpoint, Work, WorkerState, start, push, enqueue, save_checkpoint, take_work,
  pop_queue, make_work, resume_from, init, is_running, is_stopped, is_rejoining, is_other,
  is_booting, is_crashed, is_current, needs_request, active, superseded,
}
use data_communication.RingWorker.Control.{
  finish, mark_no_task, crash, restart, retry_later, welcome, stop, request_if_idle, send_result,
  send_rejoin_if_due, is_due,
}
use data_communication.RingWorker.Invariant.{Distinct, Tracked, IsValid, Step, Run}

All-keep_if :
    (P : Assignment → Type 0) (p : Assignment → Bool) (q : List Assignment)
    → All P q
    → All P (keep_if p q)
All-keep_if P p [] h = tt
All-keep_if P p (a ∷ q) h = elim (Bool-cases (p a)) [
  | inl yes' ↦ rw yes' (h.0, All-keep_if P p q h.1)
  | inr no' ↦ rw no' (All-keep_if P p q h.1)
]

All-append :
    (P : Assignment → Type 0) (q : List Assignment) (a : Assignment)
    → All P q
    → P a
    → All P (q ++ a ∷ [])
All-append P [] a h x = (x, tt)
All-append P (b ∷ q) a h x = (h.0, All-append P q a h.1 x)

Distinct-push :
    (a : Assignment) (q : List Assignment)
    → Distinct q
    → Distinct (keep_if (λ b. not (b.task == a.task)) q ++ a ∷ [])
Distinct-push a [] d = (tt, tt)
Distinct-push a (b ∷ q) d = elim (Bool-cases (b.task == a.task)) [
  | inl same ↦ rw same (Distinct-push a q d.1)
  | inr other ↦ rw other (
    All-append (λ c. c.task ≢ b.task) (keep_if (λ c. not (c.task == a.task)) q) a
        (All-keep_if (λ c. c.task ≢ b.task) (λ c. not (c.task == a.task)) q d.0) (ground arith),
    Distinct-push a q d.1,
  )
]

newest-push :
    (a : Assignment) (latest : List (ℕ × ℕ)) (q : List Assignment)
    → All (λ b. lookup b.task latest ≡ some b.epoch) q
    → All
        (λ b. lookup b.task (insert a.task a.epoch latest) ≡ some b.epoch)
        (keep_if (λ b. not (b.task == a.task)) q ++ a ∷ [])
newest-push a latest [] h = (ground (arith, lookup-insert a.task a.task a.epoch latest), tt)
newest-push a latest (b ∷ q) h = elim (Bool-cases (b.task == a.task)) [
  | inl same ↦ rw same (newest-push a latest q h.1)
  | inr other ↦
      rw other (
        ground (arith, h.0, lookup-insert a.task b.task a.epoch latest),
        newest-push a latest q h.1,
      )
]

Tracked-insert :
    (a : Assignment) (made gen : ℕ) (latest : Dict ℕ)
    → leb a.epoch (get_or (lookup a.task latest) 0) ≡ false
    → (c : Option Work) → Tracked made gen latest c
    → Tracked made gen (insert a.task a.epoch latest) c
Tracked-insert a made gen latest new none h = tt
Tracked-insert a made gen latest new (some w) h =
    ground (arith, lookup-insert a.task w.assignment.task a.epoch latest)

push-IsValid :
    (a : Assignment) (s : WorkerState)
    → (is_running s.mode || is_rejoining s.mode) ≡ true
    → IsValid s
    → IsValid (push a s).0
unfolding push
push-IsValid a s m v = elim (Bool-cases (leb a.epoch (get_or (lookup a.task s.latest) 0))) [
  | inl old ↦ rw old v
  | inr new ↦ rw new (record {
    newest = newest-push a s.latest s.queue v.newest;
    distinct = Distinct-push a s.queue v.distinct;
    tracked = Tracked-insert a s.made s.crash_gen s.latest new s.current v.tracked;
    at_rest = v.at_rest;
    cleared = λ h. ground arith;
  })
]

start-IsValid : (s : WorkerState) → IsValid s → IsValid (start s).0
unfolding start
start-IsValid s v = elim (Bool-cases (not (is_booting s.mode))) [
  | inl yes_ ↦ rw yes_ v
  | inr no_ ↦ rw no_ (record {
    newest = v.newest;
    distinct = v.distinct;
    tracked = v.tracked;
    at_rest = λ h. ground (arith, v.at_rest, v.cleared);
    cleared = λ h. ground (arith, v.at_rest, v.cleared);
  })
]

restart-IsValid : (now : ℕ) (s : WorkerState) → IsValid s → IsValid (restart now s).0
unfolding restart
restart-IsValid now s v = elim (Bool-cases (not (is_crashed s.mode))) [
  | inl yes_ ↦ rw yes_ v
  | inr no_ ↦ rw no_ (record {
    newest = v.newest;
    distinct = v.distinct;
    tracked = v.tracked;
    at_rest = λ h. ground (arith, v.at_rest, v.cleared);
    cleared = λ h. ground (arith, v.at_rest, v.cleared);
  })
]

welcome-IsValid : (s : WorkerState) → IsValid s → IsValid (welcome s).0
unfolding welcome
welcome-IsValid s v = elim (Bool-cases (not (is_rejoining s.mode))) [
  | inl yes_ ↦ rw yes_ v
  | inr no_ ↦ rw no_ (record {
    newest = v.newest;
    distinct = v.distinct;
    tracked = v.tracked;
    at_rest = λ h. ground (arith, v.at_rest, v.cleared);
    cleared = λ h. ground (arith, v.at_rest, v.cleared);
  })
]

retry_later-IsValid : (now : ℕ) (s : WorkerState) → IsValid s → IsValid (retry_later now s).0
unfolding retry_later
retry_later-IsValid now s v = elim (Bool-cases (is_rejoining s.mode)) [
  | inl yes_ ↦ rw yes_ (record {
    newest = v.newest;
    distinct = v.distinct;
    tracked = v.tracked;
    at_rest = v.at_rest;
    cleared = v.cleared;
  })
  | inr no_ ↦ rw no_ v
]

mark_no_task-IsValid :
    (generation : Option ℕ) (s : WorkerState) → IsValid s → IsValid (mark_no_task generation s).0
unfolding mark_no_task
mark_no_task-IsValid generation s v =
    elim (Bool-cases (is_running s.mode && not (is_other generation s.crash_gen))) [
      | inl yes_ ↦ rw yes_ (record {
        newest = v.newest;
        distinct = v.distinct;
        tracked = v.tracked;
        at_rest = v.at_rest;
        cleared = v.cleared;
      })
      | inr no_ ↦ rw no_ v
    ]

request_if_idle-IsValid : (s : WorkerState) → IsValid s → IsValid (request_if_idle s).0
unfolding request_if_idle
request_if_idle-IsValid s v = elim (Bool-cases (needs_request s)) [
  | inl yes_ ↦ rw yes_ (record {
    newest = v.newest;
    distinct = v.distinct;
    tracked = v.tracked;
    at_rest = v.at_rest;
    cleared = v.cleared;
  })
  | inr no_ ↦ rw no_ v
]

send_result-IsValid :
    (generation : ℕ) (a : Assignment) (s : WorkerState)
    → IsValid s
    → IsValid (send_result generation a s).0
unfolding send_result
send_result-IsValid generation a s v = elim (Bool-cases (active generation a s)) [
  | inl yes_ ↦ rw yes_ (record {
    newest = v.newest;
    distinct = v.distinct;
    tracked = v.tracked;
    at_rest = v.at_rest;
    cleared = v.cleared;
  })
  | inr no_ ↦ rw no_ v
]

send_rejoin_if_due-IsValid :
    (now : ℕ) (s : WorkerState) → IsValid s → IsValid (send_rejoin_if_due now s).0
unfolding send_rejoin_if_due
send_rejoin_if_due-IsValid now s v =
    elim (Bool-cases (is_rejoining s.mode && is_due now s.rejoin_due)) [
      | inl yes_ ↦ rw yes_ (record {
        newest = v.newest;
        distinct = v.distinct;
        tracked = v.tracked;
        at_rest = v.at_rest;
        cleared = v.cleared;
      })
      | inr no_ ↦ rw no_ v
    ]

finish-IsValid : (w : Work) (s : WorkerState) → IsValid s → IsValid (finish w s)
unfolding finish
finish-IsValid w s v = elim (Bool-cases (is_current s.current w)) [
  | inl yes_ ↦ rw yes_ (record {
    newest = v.newest;
    distinct = v.distinct;
    tracked = tt;
    at_rest = λ h. refl;
    cleared = v.cleared;
  })
  | inr no_ ↦ rw no_ v
]

stop-IsValid : (s : WorkerState) → IsValid s → IsValid (stop s)
unfolding stop
stop-IsValid s v = record {
  newest = v.newest;
  distinct = v.distinct;
  tracked = v.tracked;
  at_rest = λ h. ground arith;
  cleared = λ h. ground arith;
}

crash-IsValid : (s : WorkerState) → IsValid s → IsValid (crash s).0
unfolding crash
crash-IsValid s v = elim (Bool-cases (not (is_running s.mode))) [
  | inl yes_ ↦ rw yes_ v
  | inr no_ ↦ rw no_ (record {
    newest = tt;
    distinct = tt;
    tracked = tt;
    at_rest = λ h. refl;
    cleared = λ h. refl;
  })
]

save_checkpoint-IsValid :
    (task : ℕ) (c : Checkpoint) (s : WorkerState) → IsValid s → IsValid (save_checkpoint task c s).0
unfolding save_checkpoint
save_checkpoint-IsValid task c s v =
    elim (Bool-cases (not (is_booting s.mode || is_running s.mode || is_rejoining s.mode))) [
      | inl shut ↦ rw shut v
      | inr open_to ↦ elim (Bool-cases (superseded c (lookup task s.store))) [
        | inl old ↦ rw (open_to, old) v
        | inr new ↦
            rw (open_to, new)
              (record {
                newest = v.newest;
                distinct = v.distinct;
                tracked = v.tracked;
                at_rest = v.at_rest;
                cleared = v.cleared;
              })
      ]
    ]

enqueue-IsValid :
    (a : Assignment) (g : Option ℕ) (s : WorkerState) → IsValid s → IsValid (enqueue a g s).0
unfolding enqueue
enqueue-IsValid a g s v =
    elim (Bool-cases (
      not (is_running s.mode || is_rejoining s.mode && is_some a.from_worker)
      || is_other g s.crash_gen)) [
        | inl refused ↦ rw refused v
        | inr taken ↦ rw taken (
            push-IsValid a (if is_some a.from_worker then s else record s { requested = false })
              (by_source-mode (is_some a.from_worker) (ground arith))
              (by_source (is_some a.from_worker)))
      ]
  where
    by_source-mode :
        (b : Bool)
        → (is_running s.mode || is_rejoining s.mode) ≡ true
        → (is_running (if b then s else record s { requested = false }).mode
            || is_rejoining (if b then s else record s { requested = false }).mode)
          ≡ true
    by_source-mode true h = h
    by_source-mode false h = h

    by_source : (b : Bool) → IsValid (if b then s else record s { requested = false })
    by_source true = v
    by_source false = record {
      newest = v.newest;
      distinct = v.distinct;
      tracked = v.tracked;
      at_rest = v.at_rest;
      cleared = v.cleared;
    }

pop_queue-IsValid :
    (q : List Assignment) (s : WorkerState)
    → s.queue ≡ q
    → is_running s.mode ≡ true
    → IsValid s
    → IsValid (pop_queue q s).0
unfolding pop_queue
pop_queue-IsValid [] s e m v = v
pop_queue-IsValid (a ∷ rest) s e m v = record {
  newest = (subst (All (λ b. lookup b.task s.latest ≡ some b.epoch)) e v.newest).1;
  distinct = (subst Distinct e v.distinct).1;
  tracked = tracked_new (resume_from a s.store);
  at_rest = λ h. ground arith;
  cleared = λ h. ground arith;
}
  where
    head : lookup a.task s.latest ≡ some a.epoch
    head = (subst (All (λ b. lookup b.task s.latest ≡ some b.epoch)) e v.newest).0

    tracked_new :
        (c : Option Checkpoint)
        → Tracked (suc s.made) s.crash_gen s.latest (some (make_work s.made s.crash_gen a c))
    tracked_new none = ground (arith, head)
    tracked_new (some c) = ground (arith, head)

take_work-IsValid : (s : WorkerState) → IsValid s → IsValid (take_work s).0
unfolding take_work
take_work-IsValid s v = elim (Bool-cases (is_stopped s.mode)) [
  | inl over ↦ rw over v
  | inr on ↦ elim (Bool-cases (is_running s.mode)) [
    | inl run ↦ rw (on, run) (pop_queue-IsValid s.queue s refl run v)
    | inr rest ↦ rw (on, rest) v
  ]
]

pub IsValid-init : IsValid init
IsValid-init = record {
  newest = tt;
  distinct = tt;
  tracked = tt;
  at_rest = λ h. refl;
  cleared = λ h. refl;
}

Step-IsValid : {s t : WorkerState} → Step s t → IsValid s → IsValid t
Step-IsValid {s} Step.start v = start-IsValid s v
Step-IsValid {s} (Step.enqueue a g) v = enqueue-IsValid a g s v
Step-IsValid {s} (Step.save_checkpoint task c) v = save_checkpoint-IsValid task c s v
Step-IsValid {s} Step.take_work v = take_work-IsValid s v
Step-IsValid {s} (Step.finish w) v = finish-IsValid w s v
Step-IsValid {s} (Step.mark_no_task g) v = mark_no_task-IsValid g s v
Step-IsValid {s} Step.crash v = crash-IsValid s v
Step-IsValid {s} (Step.restart now) v = restart-IsValid now s v
Step-IsValid {s} (Step.retry_later now) v = retry_later-IsValid now s v
Step-IsValid {s} Step.welcome v = welcome-IsValid s v
Step-IsValid {s} Step.stop v = stop-IsValid s v
Step-IsValid {s} Step.request v = request_if_idle-IsValid s v
Step-IsValid {s} (Step.send_result g a) v = send_result-IsValid g a s v
Step-IsValid {s} (Step.send_rejoin now) v = send_rejoin_if_due-IsValid now s v

-- From a valid state every run of the worker's operations, in any order, leads to valid states.
pub Run-keeps-IsValid : {s t : WorkerState} → IsValid s → Run s t → IsValid t
Run-keeps-IsValid v Run.here = v
Run-keeps-IsValid v (Run.next r st) = Step-IsValid st (Run-keeps-IsValid v r)
