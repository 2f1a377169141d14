-- ===== src/Coordinator/Steps.antt =====
-- The runs of the Coordinator: any interleaving of its operations, each of which is atomic under
-- the locks of HW3/hw3/coordinator/tables.py. `result` is two sections, and any `Sender` may be
-- what the first one read, however long ago. A pass of the
-- detector that raises an exception is no step: `fail` of HW3/hw3/coordinator/__main__.py then ends the
-- program. What it wrote until then stays written; what other threads do until the end is left out.
use Prim.Native.String.{String}
use data_communication.Prelude.{ℕ, ◌<◌, ◌≡◌, Bool, some, List}
use data_communication.Coordinator.State.{Tables, Outcome, Event, init, task_count}
use data_communication.Coordinator.Register
use data_communication.Coordinator.Assign
use data_communication.Coordinator.Assign.{Sender, commit_result}
use data_communication.Coordinator.Detect
use data_communication.Coordinator.Detect.{Takeover}
use data_communication.Coordinator.Invariant.{IsMember}

pub data Step (t : Tables) : Tables → Type 0 where
  hello :
      (c i : ℕ) (ip : String) (port : ℕ) → IsMember i → Step t (Register.hello c i ip port t).tables
  ring_ok : (i : ℕ) → IsMember i → Step t (Register.ring_ok i t).tables
  open_ring : {u : Tables} {to : List (ℕ × ℕ)} → Register.open_ring t ≡ some (u, to) → Step t u
  begin : (now : ℕ) {o : Outcome} → Register.begin now t ≡ some o → Step t o.tables
  set_detector : (on : Bool) → Step t (Register.set_detector on t)
  heartbeat : (now i : ℕ) → IsMember i → Step t (Assign.heartbeat now i t).tables
  request : (now i : ℕ) → IsMember i → Step t (Assign.request now i t).tables
  commit :
      (now : ℕ) (s : Sender) (i k epoch value : ℕ)
      → IsMember i
      → k < task_count
      → Step t (commit_result now s i k epoch value t).tables
  rejoin : (now i : ℕ) → IsMember i → Step t (Assign.rejoin now i t).tables
  detect :
      (now : ℕ) {u : Tables} {out : List Event × List Takeover}
      → Detect.detect now t ≡ (u, some out)
      → Step t u

pub data Run (s : Tables) : Tables → Type 0 where
  here : Run s s
  next : {t u : Tables} → Run s t → Step t u → Run s u

abbrev pub Reach : Tables → Type 0
Reach = Run init
