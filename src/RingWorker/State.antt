-- ===== src/RingWorker/State.antt =====
-- HW3/hw3/worker/state.py: `WorkerState`. Each operation runs under all three locks, so it is one
-- step. A clock reading is a number of milliseconds. `self.current is work` compares objects: each
-- `Work` that is made has the next number as its identity.
use data_communication.Prelude.{
  ℕ, suc, ◌+◌, Bool, true, false, ◌&&◌, ◌||◌, not, Option, none, some, List, [], ◌∷◌, ◌++◌, length,
  keep_if, is_some, get_or, is_num, ltb, leb, ◌==◌, if◌then◌else◌, Dict, lookup, insert,
}

pub record Assignment : Type 0 where
  pub task : ℕ
  pub epoch : ℕ
  pub from_worker : Option ℕ

pub record Checkpoint : Type 0 where
  pub epoch : ℕ
  pub step : ℕ
  pub sum : ℕ

pub record Work : Type 0 where
  pub ident : ℕ
  pub assignment : Assignment
  pub generation : ℕ
  pub resume_step : ℕ
  pub sum : ℕ
  pub ckpt_epoch : Option ℕ

pub data Mode : Type 0 where
  booting running crashed rejoining stopped : Mode

pub record WorkerState : Type 0 where
  pub queue : List Assignment
  pub store : Dict Checkpoint
  pub latest : Dict ℕ
  pub sent_epochs : Dict (List ℕ)
  pub mode : Mode
  pub crash_gen : ℕ
  pub crash_count : ℕ
  pub rejoin_count : ℕ
  pub current : Option Work
  pub requested : Bool
  pub no_task : Bool
  pub started : Bool
  pub rejoin_due : Option ℕ
  pub stop_event : Bool
  pub made : ℕ

abbrev pub init : WorkerState
init = record {
  queue = [];
  store = [];
  latest = [];
  sent_epochs = [];
  mode = booting;
  crash_gen = 0;
  crash_count = 0;
  rejoin_count = 0;
  current = none;
  requested = false;
  no_task = false;
  started = false;
  rejoin_due = none;
  stop_event = false;
  made = 0;
}

abbrev pub is_booting : Mode → Bool
is_booting booting = true
is_booting _ = false

abbrev pub is_running : Mode → Bool
is_running running = true
is_running _ = false

abbrev pub is_crashed : Mode → Bool
is_crashed crashed = true
is_crashed _ = false

abbrev pub is_rejoining : Mode → Bool
is_rejoining rejoining = true
is_rejoining _ = false

abbrev pub is_stopped : Mode → Bool
is_stopped stopped = true
is_stopped _ = false

-- `active(generation, assignment)`
unfoldable pub active : ℕ → Assignment → WorkerState → Bool
active generation a s =
    is_running s.mode && s.crash_gen == generation && is_num (lookup a.task s.latest) a.epoch

-- `self.current is work`
abbrev pub is_current : Option Work → Work → Bool
is_current none w = false
is_current (some c) w = c.ident == w.ident

unfoldable pub valid : Work → WorkerState → Bool
unfolding active
valid w s = is_current s.current w && active w.generation w.assignment s

unfoldable pub start : WorkerState → WorkerState × Bool
start s =
    if not (is_booting s.mode)
    then (s, false)
    else (record s { started = true; mode = running }, true)

-- `generation is not None and generation != self.crash_gen`
abbrev pub is_other : Option ℕ → ℕ → Bool
is_other none g = false
is_other (some g') g = not (g' == g)

-- `enqueue` from its third test on: the newest epoch of a task wins.
unfoldable pub push : Assignment → WorkerState → WorkerState × Bool
push a s = if leb a.epoch (get_or (lookup a.task s.latest) 0) then (s, false) else (
  record s {
    latest = insert a.task a.epoch s.latest;
    queue = keep_if (λ b. not (b.task == a.task)) s.queue ++ a ∷ [];
  },
  true,
)

unfoldable pub enqueue : Assignment → Option ℕ → WorkerState → WorkerState × Bool
unfolding push
enqueue a generation s =
    let accepting = is_running s.mode || is_rejoining s.mode && is_some a.from_worker in
    if not accepting || is_other generation s.crash_gen
    then (s, false)
    else push a (if is_some a.from_worker then s else record s { requested = false })

unfoldable pub needs_request : WorkerState → Bool
needs_request s =
    is_running s.mode
    && not (is_some s.current)
    && length s.queue == 0
    && not s.requested
    && not s.no_task

-- `(checkpoint.epoch, checkpoint.step) <= (old.epoch, old.step)`
abbrev pub no_newer : Checkpoint → Checkpoint → Bool
no_newer c old = ltb c.epoch old.epoch || c.epoch == old.epoch && leb c.step old.step

abbrev pub superseded : Checkpoint → Option Checkpoint → Bool
superseded c none = false
superseded c (some old) = no_newer c old

unfoldable pub save_checkpoint : ℕ → Checkpoint → WorkerState → WorkerState × Bool
save_checkpoint task c s =
    if not (is_booting s.mode || is_running s.mode || is_rejoining s.mode)
    then (s, false)
    else if superseded c (lookup task s.store)
    then (s, false)
    else (record s { store = insert task c s.store }, true)

-- The checkpoint that `take_work` resumes from: of a takeover only, and of an older epoch.
unfoldable pub resume_from : Assignment → Dict Checkpoint → Option Checkpoint
resume_from a store =
    if is_some a.from_worker
    then elim (lookup a.task store) [
      | none ↦ none
      | some c ↦ if leb a.epoch c.epoch then none else some c
    ]
    else none

abbrev pub make_work : ℕ → ℕ → Assignment → Option Checkpoint → Work
make_work ident generation a none = record {
  ident = ident;
  assignment = a;
  generation = generation;
  resume_step = 1;
  sum = 0;
  ckpt_epoch = none;
}
make_work ident generation a (some c) = record {
  ident = ident;
  assignment = a;
  generation = generation;
  resume_step = c.step + 1;
  sum = c.sum;
  ckpt_epoch = some c.epoch;
}

-- What `take_work` does when it holds the locks: it ends, it goes on with a work, or it waits.
pub data Taken : Type 0 where
  ended waits : Taken
  took : Work → Taken

unfoldable pub pop_queue : List Assignment → WorkerState → WorkerState × Taken
unfolding resume_from
pop_queue [] s = (s, waits)
pop_queue (a ∷ rest) s =
    let w = make_work s.made s.crash_gen a (resume_from a s.store) in
    (record s { queue = rest; current = some w; made = suc s.made }, took w)

unfoldable pub take_work : WorkerState → WorkerState × Taken
unfolding pop_queue
take_work s =
    if is_stopped s.mode
    then (s, ended)
    else if is_running s.mode
    then pop_queue s.queue s
    else (s, waits)
