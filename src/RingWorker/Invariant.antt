-- ===== src/RingWorker/Invariant.antt =====
-- The invariant of the worker's state, its steps and its runs.
use data_communication.Prelude.{
  ℕ, ◌≤◌, ◌<◌, ◌≡◌, ◌≢◌, true, false, ◌||◌, Option, none, some, List, [], ◌∷◌, All, is_some, get_or,
  lookup, Dict,
}
use data_communication.RingWorker.State
use data_communication.RingWorker.State.{
  Assignment, Checkpoint, Work, WorkerState, is_crashed, is_rejoining, is_booting, init,
}
use data_communication.RingWorker.Control

-- No task is queued twice.
abbrev pub Distinct : List Assignment → Type 0
Distinct [] = Unit
Distinct (a ∷ rest) = All (λ b. b.task ≢ a.task) rest × Distinct rest

-- What is known of the work in progress.
abbrev pub Tracked : ℕ → ℕ → Dict ℕ → Option Work → Type 0
Tracked made gen latest none = Unit
Tracked made gen latest (some w) =
    (w.ident < made)
    × (w.generation ≡ gen)
    × (w.assignment.epoch ≤ get_or (lookup w.assignment.task latest) 0)
    × (is_some (lookup w.assignment.task latest) ≡ true)

pub record IsValid (s : WorkerState) : Type 0 where
  -- what is queued is the newest assignment of its task
  pub newest : All (λ a. lookup a.task s.latest ≡ some a.epoch) s.queue
  pub distinct : Distinct s.queue
  pub tracked : Tracked s.made s.crash_gen s.latest s.current
  pub at_rest :
      is_booting s.mode || (is_crashed s.mode || is_rejoining s.mode) ≡ true
      → is_some s.current ≡ false
  pub cleared : is_crashed s.mode ≡ true → s.queue ≡ []

-- Any interleaving of the operations; each runs under the locks of the state.
pub data Step (s : WorkerState) : WorkerState → Type 0 where
  start : Step s (State.start s).0
  enqueue : (a : Assignment) (generation : Option ℕ) → Step s (State.enqueue a generation s).0
  save_checkpoint : (task : ℕ) (c : Checkpoint) → Step s (State.save_checkpoint task c s).0
  take_work : Step s (State.take_work s).0
  finish : (w : Work) → Step s (Control.finish w s)
  mark_no_task : (generation : Option ℕ) → Step s (Control.mark_no_task generation s).0
  crash : Step s (Control.crash s).0
  restart : (now : ℕ) → Step s (Control.restart now s).0
  retry_later : (now : ℕ) → Step s (Control.retry_later now s).0
  welcome : Step s (Control.welcome s).0
  stop : Step s (Control.stop s)
  request : Step s (Control.request_if_idle s).0
  send_result : (generation : ℕ) (a : Assignment) → Step s (Control.send_result generation a s).0
  send_rejoin : (now : ℕ) → Step s (Control.send_rejoin_if_due now s).0

pub data Run (s : WorkerState) : WorkerState → Type 0 where
  here : Run s s
  next : {t u : WorkerState} → Run s t → Step t u → Run s u

abbrev pub Reach : WorkerState → Type 0
Reach = Run init
