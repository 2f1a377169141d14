-- ===== src/RingWorker/Control.antt =====
-- HW3/hw3/worker/state.py: the operations that end a work or change the mode; and the changes of the
-- state around a send in HW3/hw3/worker/network.py: `request_if_idle`, `send_normal` and
-- `send_rejoin_if_due`.
use data_communication.Prelude.{
  ℕ, ◌+◌, Bool, true, false, ◌&&◌, ◌||◌, not, Option, none, some, [], ◌∷◌, length, get_or, lookup,
  insert, leb, if◌then◌else◌,
}
use data_communication.RingWorker.State.{
  WorkerState, Work, Assignment, needs_request, running, crashed, rejoining, stopped, is_running,
  is_crashed, is_rejoining, is_current, is_other, active,
}

-- One round of the loop of `delay`: the answer, or `none` to wait on.
unfoldable pub delay : Work → ℕ → ℕ → WorkerState → Option Bool
delay w deadline now s =
    if not (is_current s.current w) || not (active w.generation w.assignment s)
    then some false
    else if leb deadline now
    then some true
    else none

unfoldable pub finish : Work → WorkerState → WorkerState
finish w s = if is_current s.current w then record s { current = none } else s

unfoldable pub mark_no_task : Option ℕ → WorkerState → WorkerState × Bool
mark_no_task generation s =
    if is_running s.mode && not (is_other generation s.crash_gen)
    then (record s { requested = false; no_task = true }, true)
    else (s, false)

-- What `crash` reports.
pub record Cleared : Type 0 where
  pub queue_cleared : ℕ
  pub store_cleared : ℕ
  pub current_task : Option ℕ
  pub crash_gen : ℕ
  pub crash_count : ℕ

abbrev pub task_of : Option Work → Option ℕ
task_of none = none
task_of (some w) = some w.assignment.task

unfoldable pub crash : WorkerState → WorkerState × Option Cleared
crash s = if not (is_running s.mode) then (s, none) else (
  record s {
    mode = crashed;
    crash_gen = s.crash_gen + 1;
    crash_count = s.crash_count + 1;
    queue = [];
    store = [];
    latest = [];
    sent_epochs = [];
    current = none;
    requested = false;
    no_task = false;
    rejoin_due = none;
  },
  some (record {
    queue_cleared = length s.queue;
    store_cleared = length s.store;
    current_task = task_of s.current;
    crash_gen = s.crash_gen + 1;
    crash_count = s.crash_count + 1;
  }),
)

unfoldable pub restart : ℕ → WorkerState → WorkerState × Bool
restart now s =
    if not (is_crashed s.mode)
    then (s, false)
    else (record s { mode = rejoining; rejoin_due = some now }, true)

unfoldable pub retry_later : ℕ → WorkerState → WorkerState × Bool
retry_later now s =
    if is_rejoining s.mode then (record s { rejoin_due = some (now + 2000) }, true) else (s, false)

unfoldable pub welcome : WorkerState → WorkerState × Bool
welcome s =
    if not (is_rejoining s.mode)
    then (s, false)
    else (record s { mode = running; rejoin_count = s.rejoin_count + 1; rejoin_due = none }, true)

unfoldable pub stop : WorkerState → WorkerState
stop s = record s { mode = stopped; stop_event = true }

-- `request_if_idle`: whether a REQ is sent.
unfoldable pub request_if_idle : WorkerState → WorkerState × Bool
unfolding needs_request
request_if_idle s = if needs_request s then (record s { requested = true }, true) else (s, false)

-- `send_normal` of a RESULT: whether it is sent; its epoch is noted.
unfoldable pub send_result : ℕ → Assignment → WorkerState → WorkerState × Bool
send_result generation a s =
    if active generation a s
    then (
      record s {
        sent_epochs =
            insert a.task (a.epoch ∷ get_or (lookup a.task s.sent_epochs) []) s.sent_epochs;
      },
      true,
    )
    else (s, false)

abbrev pub is_due : ℕ → Option ℕ → Bool
is_due now none = false
is_due now (some due) = leb due now

unfoldable pub send_rejoin_if_due : ℕ → WorkerState → WorkerState × Bool
send_rejoin_if_due now s =
    if is_rejoining s.mode && is_due now s.rejoin_due
    then (record s { rejoin_due = none }, true)
    else (s, false)
