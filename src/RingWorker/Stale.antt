-- ===== src/RingWorker/Stale.antt =====
-- HW3/hw3/worker/state.py: a work that has lost its validity, in the course of a run.
use data_communication.Prelude.{
  ℕ, ◌≤◌, ◌<◌, ◌≡◌, ◌⊎◌, inl, inr, subst, Bool-cases, true, false, Option, some, get_or, lookup,
  lookup-insert, refl, none, ==→eq, arith,
}
use data_communication.RingWorker.State.{
  Assignment, Checkpoint, Work, WorkerState, start, enqueue, save_checkpoint, take_work, valid,
  is_current, is_running, is_stopped,
}
use data_communication.RingWorker.Control.{
  finish, mark_no_task, crash, restart, retry_later, welcome, stop, request_if_idle, send_result,
  send_rejoin_if_due,
}
use data_communication.RingWorker.Invariant.{Tracked, IsValid, Step, Run, Reach}
use data_communication.RingWorker.Keeps.{IsValid-init, Run-keeps-IsValid}

-- Why work `w` cannot be valid any more: the worker has stopped, it has crashed since, the work is
-- no longer the one in progress, or its task has come with a newer epoch.
data IsStale (w : Work) (s : WorkerState) : Type 0 where
  over : is_stopped s.mode ≡ true → IsStale w s
  crashed : w.generation < s.crash_gen → IsStale w s
  put_down : w.ident < s.made → is_current s.current w ≡ false → IsStale w s
  superseded :
      w.generation ≡ s.crash_gen
      → w.assignment.epoch < get_or (lookup w.assignment.task s.latest) 0
      → IsStale w s

IsStale-valid : (w : Work) (s : WorkerState) → IsStale w s → valid w s ≡ false
unfolding valid
IsStale-valid w s (over h) = ground arith
IsStale-valid w s (crashed h) = ground arith
IsStale-valid w s (put_down m h) = ground arith
IsStale-valid w s (superseded g h) = ground arith

-- A change that keeps stale works stale.
record KeepsStale (w : Work) (s t : WorkerState) : Type 0 where
  stays : is_stopped s.mode ≡ true → is_stopped t.mode ≡ true
  counts : s.crash_gen ≤ t.crash_gen
  dropped :
      w.ident < s.made
      → is_current s.current w ≡ false
      → (w.ident < t.made) × (is_current t.current w ≡ false)
  outdated :
      w.assignment.epoch < get_or (lookup w.assignment.task s.latest) 0
      → (s.crash_gen < t.crash_gen)
        ⊎ ((s.crash_gen ≡ t.crash_gen)
            × (w.assignment.epoch < get_or (lookup w.assignment.task t.latest) 0))
  created : s.made ≤ t.made
  only : (c : Work) → t.current ≡ some c → (s.current ≡ some c) ⊎ (s.made ≤ c.ident)

KeepsStale-IsStale : (w : Work) (s t : WorkerState) → KeepsStale w s t → IsStale w s → IsStale w t
KeepsStale-IsStale w s t k (over h) = over (k.stays h)
KeepsStale-IsStale w s t k (crashed h) = crashed (omega (arith, k.counts))
KeepsStale-IsStale w s t k (put_down m h) = let (m', h') = k.dropped m h in put_down m' h'
KeepsStale-IsStale w s t k (superseded g h) = by_crash (k.outdated h)
  where
    by_crash :
        (s.crash_gen < t.crash_gen)
          ⊎ ((s.crash_gen ≡ t.crash_gen)
              × (w.assignment.epoch < get_or (lookup w.assignment.task t.latest) 0))
        → IsStale w t
    by_crash (inl more) = crashed (omega arith)
    by_crash (inr (same, later)) = superseded (omega arith) later

module _ (w : Work) (s : WorkerState) where
  start-KeepsStale : KeepsStale w s (start s).0
  unfolding start
  start-KeepsStale = record {
    stays = λ h. ground arith;
    counts = ground arith;
    dropped = λ m h. ground arith;
    outdated = λ h. ground arith;
    created = ground arith;
    only = λ c e. ground (arith, e);
  }

  enqueue-KeepsStale : (a : Assignment) (g : Option ℕ) → KeepsStale w s (enqueue a g s).0
  unfolding enqueue
  enqueue-KeepsStale a g = record {
    stays = λ h. ground (arith, lookup-insert a.task w.assignment.task a.epoch s.latest);
    counts = ground (arith, lookup-insert a.task w.assignment.task a.epoch s.latest);
    dropped = λ m h. ground (arith, lookup-insert a.task w.assignment.task a.epoch s.latest);
    outdated = λ h. ground (arith, lookup-insert a.task w.assignment.task a.epoch s.latest);
    created = ground arith;
    only = λ c e. ground (arith, e);
  }

  save_checkpoint-KeepsStale :
      (task : ℕ) (c : Checkpoint) → KeepsStale w s (save_checkpoint task c s).0
  unfolding save_checkpoint
  save_checkpoint-KeepsStale task c = record {
    stays = λ h. ground arith;
    counts = ground arith;
    dropped = λ m h. ground arith;
    outdated = λ h. ground arith;
    created = ground arith;
    only = λ c e. ground (arith, e);
  }

  take_work-KeepsStale : KeepsStale w s (take_work s).0
  unfolding take_work
  take_work-KeepsStale = record {
    stays = λ h. ground arith;
    counts = ground arith;
    dropped = λ m h. ground arith;
    outdated = λ h. ground arith;
    created = ground arith;
    only = λ c e. ground (arith, e);
  }

  finish-KeepsStale : (v : Work) → KeepsStale w s (finish v s)
  unfolding finish
  finish-KeepsStale v = record {
    stays = λ h. ground arith;
    counts = ground arith;
    dropped = λ m h. ground arith;
    outdated = λ h. ground arith;
    created = ground arith;
    only = λ c e. ground (arith, e);
  }

  mark_no_task-KeepsStale : (g : Option ℕ) → KeepsStale w s (mark_no_task g s).0
  unfolding mark_no_task
  mark_no_task-KeepsStale g = record {
    stays = λ h. ground arith;
    counts = ground arith;
    dropped = λ m h. ground arith;
    outdated = λ h. ground arith;
    created = ground arith;
    only = λ c e. ground (arith, e);
  }

  crash-KeepsStale : KeepsStale w s (crash s).0
  unfolding crash
  crash-KeepsStale = record {
    stays = λ h. ground arith;
    counts = ground arith;
    dropped = λ m h. ground arith;
    outdated = λ h. ground arith;
    created = ground arith;
    only = λ c e. ground (arith, e);
  }

  restart-KeepsStale : (now : ℕ) → KeepsStale w s (restart now s).0
  unfolding restart
  restart-KeepsStale now = record {
    stays = λ h. ground arith;
    counts = ground arith;
    dropped = λ m h. ground arith;
    outdated = λ h. ground arith;
    created = ground arith;
    only = λ c e. ground (arith, e);
  }

  retry_later-KeepsStale : (now : ℕ) → KeepsStale w s (retry_later now s).0
  unfolding retry_later
  retry_later-KeepsStale now = record {
    stays = λ h. ground arith;
    counts = ground arith;
    dropped = λ m h. ground arith;
    outdated = λ h. ground arith;
    created = ground arith;
    only = λ c e. ground (arith, e);
  }

  welcome-KeepsStale : KeepsStale w s (welcome s).0
  unfolding welcome
  welcome-KeepsStale = record {
    stays = λ h. ground arith;
    counts = ground arith;
    dropped = λ m h. ground arith;
    outdated = λ h. ground arith;
    created = ground arith;
    only = λ c e. ground (arith, e);
  }

  stop-KeepsStale : KeepsStale w s (stop s)
  unfolding stop
  stop-KeepsStale = record {
    stays = λ h. ground arith;
    counts = ground arith;
    dropped = λ m h. ground arith;
    outdated = λ h. ground arith;
    created = ground arith;
    only = λ c e. ground (arith, e);
  }

  request_if_idle-KeepsStale : KeepsStale w s (request_if_idle s).0
  unfolding request_if_idle
  request_if_idle-KeepsStale = record {
    stays = λ h. ground arith;
    counts = ground arith;
    dropped = λ m h. ground arith;
    outdated = λ h. ground arith;
    created = ground arith;
    only = λ c e. ground (arith, e);
  }

  send_result-KeepsStale : (g : ℕ) (a : Assignment) → KeepsStale w s (send_result g a s).0
  unfolding send_result
  send_result-KeepsStale g a = record {
    stays = λ h. ground arith;
    counts = ground arith;
    dropped = λ m h. ground arith;
    outdated = λ h. ground arith;
    created = ground arith;
    only = λ c e. ground (arith, e);
  }

  send_rejoin_if_due-KeepsStale : (now : ℕ) → KeepsStale w s (send_rejoin_if_due now s).0
  unfolding send_rejoin_if_due
  send_rejoin_if_due-KeepsStale now = record {
    stays = λ h. ground arith;
    counts = ground arith;
    dropped = λ m h. ground arith;
    outdated = λ h. ground arith;
    created = ground arith;
    only = λ c e. ground (arith, e);
  }

Step-KeepsStale : (w : Work) {s t : WorkerState} → Step s t → KeepsStale w s t
Step-KeepsStale w {s} Step.start = start-KeepsStale w s
Step-KeepsStale w {s} (Step.enqueue a g) = enqueue-KeepsStale w s a g
Step-KeepsStale w {s} (Step.save_checkpoint task c) = save_checkpoint-KeepsStale w s task c
Step-KeepsStale w {s} Step.take_work = take_work-KeepsStale w s
Step-KeepsStale w {s} (Step.finish v) = finish-KeepsStale w s v
Step-KeepsStale w {s} (Step.mark_no_task g) = mark_no_task-KeepsStale w s g
Step-KeepsStale w {s} Step.crash = crash-KeepsStale w s
Step-KeepsStale w {s} (Step.restart now) = restart-KeepsStale w s now
Step-KeepsStale w {s} (Step.retry_later now) = retry_later-KeepsStale w s now
Step-KeepsStale w {s} Step.welcome = welcome-KeepsStale w s
Step-KeepsStale w {s} Step.stop = stop-KeepsStale w s
Step-KeepsStale w {s} Step.request = request_if_idle-KeepsStale w s
Step-KeepsStale w {s} (Step.send_result g a) = send_result-KeepsStale w s g a
Step-KeepsStale w {s} (Step.send_rejoin now) = send_rejoin_if_due-KeepsStale w s now

Run-IsStale : (w : Work) {s t : WorkerState} → Run s t → IsStale w s → IsStale w t
Run-IsStale w Run.here h = h
Run-IsStale w (Run.next {t} {u} r st) h =
    KeepsStale-IsStale w t u (Step-KeepsStale w st) (Run-IsStale w r h)

invalid-IsStale :
    (w : Work) (s : WorkerState) → IsValid s → s.current ≡ some w → valid w s ≡ false → IsStale w s
unfolding valid
invalid-IsStale w s v c h = elim (Bool-cases (is_stopped s.mode)) [
  | inl h' ↦ over h'
  | inr on ↦ elim (Bool-cases (is_running s.mode)) [
    | inl run ↦ superseded (known.1) (ground (arith, known.2, known.3))
    | inr rest ↦ absurd (ground (arith, v.at_rest))
  ]
]
  where
    known : Tracked s.made s.crash_gen s.latest (some w)
    known = subst (Tracked s.made s.crash_gen s.latest) c v.tracked

-- Work `w` was taken before, and no other work has its number.
record WasTaken (w : Work) (s : WorkerState) : Type 0 where
  early : w.ident < s.made
  unique : (c : Work) → s.current ≡ some c → c.ident ≡ w.ident → c ≡ w

KeepsStale-WasTaken :
    (w : Work) (s t : WorkerState) → KeepsStale w s t → WasTaken w s → WasTaken w t
KeepsStale-WasTaken w s t k v = record {
  early = omega (arith, v.early, k.created);
  unique = λ c e same. elim (k.only c e) [
    | inl before ↦ v.unique c before same
    | inr later ↦ absurd (omega (arith, later, same, v.early))
  ];
}

Run-WasTaken : (w : Work) {s t : WorkerState} → Run s t → WasTaken w s → WasTaken w t
Run-WasTaken w Run.here v = v
Run-WasTaken w (Run.next {t} {u} r st) v =
    KeepsStale-WasTaken w t u (Step-KeepsStale w st) (Run-WasTaken w r v)

current-WasTaken : (w : Work) (s : WorkerState) → IsValid s → s.current ≡ some w → WasTaken w s
current-WasTaken w s v c = record {
  early = (subst (Tracked s.made s.crash_gen s.latest) c v.tracked).0;
  unique = λ d e same. ground (arith, c, e);
}

taken-IsStale :
    (w : Work) (s : WorkerState) → IsValid s → WasTaken w s → valid w s ≡ false → IsStale w s
taken-IsStale w s v k h = elim (Bool-cases (is_current s.current w)) [
  | inr away ↦ put_down k.early away
  | inl here ↦ invalid-IsStale w s v (is_it s.current refl here) h
]
  where
    is_it : (o : Option Work) → s.current ≡ o → is_current o w ≡ true → s.current ≡ some w
    is_it none e i = absurd (ground (arith, i))
    is_it (some c) e i = subst (λ d. s.current ≡ some d) (k.unique c e (==→eq c.ident w.ident i)) e

-- In a run of the worker from its start: a work that was once in progress and that is not valid in some
-- later state, for whatever reason, is not valid in any state after that.
pub never_valid_again :
    (w : Work) (r s t : WorkerState)
    → Reach r
    → r.current ≡ some w
    → Run r s
    → valid w s ≡ false
    → Run s t
    → valid w t ≡ false
never_valid_again w r s t reach c first h then =
    let v = Run-keeps-IsValid IsValid-init reach in
    IsStale-valid w t (
      Run-IsStale w then (
        taken-IsStale w s (Run-keeps-IsValid v first)
          (Run-WasTaken w first (current-WasTaken w r v c)) h))

-- A crash of the running worker ends its work in progress for good: the work is not valid in any
-- state after the crash, also when the worker has rejoined.
pub crash_ends_work :
    (w : Work) (s t : WorkerState)
    → Reach s
    → s.current ≡ some w
    → is_running s.mode ≡ true
    → Run (crash s).0 t
    → valid w t ≡ false
crash_ends_work w s t r c m r' =
    let v = Run-keeps-IsValid IsValid-init r in
    IsStale-valid w t (
      Run-IsStale w r' (
        crashed (
          unfold crash in
          ground (arith, (subst (Tracked s.made s.crash_gen s.latest) c v.tracked).1))))
