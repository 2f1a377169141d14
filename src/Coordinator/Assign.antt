-- ===== src/Coordinator/Assign.antt =====
-- HW3/hw3/coordinator/tables.py: `heartbeat`, `request`, `result`, `rejoin`.
use data_communication.Prelude.{
  ℕ, ◌+◌, Bool, true, false, ◌||◌, not, Option, none, some, List, [], ◌∷◌, ◌++◌, length, ◌==◌,
  is_num, modify, if◌then◌else◌, update,
}
use data_communication.Coordinator.State.{
  Tables, Task, TaskState, assigned, done, Health, alive, Rejoin, Kind, Reason, from_dead,
  already_done, stale_epoch, Reply, Outcome, answer,
}
use data_communication.Coordinator.Register.{is_running}

abbrev pub is_dead : Health → Bool
is_dead Health.dead = true
is_dead _ = false

abbrev pub is_suspect : Health → Bool
is_suspect Health.suspect = true
is_suspect _ = false

abbrev pub is_done : TaskState → Bool
is_done done = true
is_done _ = false

abbrev pub is_assigned : TaskState → Bool
is_assigned assigned = true
is_assigned _ = false

unfoldable pub heartbeat : ℕ → ℕ → Tables → Outcome
heartbeat now i t =
    let w = t.workers i in
    if not (is_running t.phase) || is_dead w.health
    then answer t none []
    else answer
        (record t { workers = update t.workers i (record w { last_hb = now; health = alive }) })
        none (Kind.hb i ∷ (if is_suspect w.health then Kind.back_alive i ∷ [] else []))

-- The first assignment after a rejoin is noted once in its record.
abbrev pub note_first : ℕ → ℕ → Rejoin → Rejoin
note_first now k r = elim r.first_assign [
  | none ↦ record r { first_assign = some now; first_task = some k }
  | some _ ↦ r
]

abbrev pub at_record : (Rejoin → Rejoin) → Option ℕ → List Rejoin → List Rejoin
at_record f none rs = rs
at_record f (some n) rs = modify rs n f

-- `request` past its first test, by the queue: `popleft`, or NO_TASK.
unfoldable pub hand_out : ℕ → ℕ → List ℕ → Tables → Outcome
hand_out now i [] t = answer t (some Reply.no_task) (Kind.no_task i (t.workers i).rejoin_count ∷ [])
hand_out now i (k ∷ rest) t =
    answer
      (record t {
        queue = rest;
        tasks =
            update t.tasks k (record (t.tasks k) { state = assigned; owner = some i; epoch = 1 });
        rejoins = at_record (note_first now k) (t.workers i).rejoin_record t.rejoins;
      })
      (some (Reply.assign k 1)) (Kind.assign k 1 i (t.workers i).rejoin_count ∷ [])

unfoldable pub request : ℕ → ℕ → Tables → Outcome
unfolding hand_out
request now i t =
    if not (is_running t.phase) || is_dead (t.workers i).health
    then answer t none (Kind.not_assignable i ∷ [])
    else hand_out now i t.queue t

-- What `result` reads of the worker under `self.lock`, before it takes the lock of the task.
pub record Sender : Type 0 where
  pub is_gone : Bool
  pub rejoins : ℕ
  pub rejoined_as : Option ℕ

unfoldable pub read_sender : ℕ → Tables → Sender
read_sender i t =
    let w = t.workers i in
    record { is_gone = is_dead w.health; rejoins = w.rejoin_count; rejoined_as = w.rejoin_record }

unfoldable pub stale_reason : Bool → ℕ → ℕ → Task → Option Reason
stale_reason gone i epoch task =
    if gone
    then some from_dead
    else if is_done task.state
    then some already_done
    else if not (task.epoch == epoch) || not (is_num task.owner i)
    then some stale_epoch
    else none

abbrev pub commit_task : ℕ → ℕ → Task → Task
commit_task now value task = record task {
  state = done;
  value = some value;
  committed_at = some now;
  commit_count = task.commit_count + 1;
}

abbrev pub add_commit : Rejoin → Rejoin
add_commit r = record r { commits = r.commits + 1 }

abbrev settle : Option Reason → ℕ → Sender → ℕ → ℕ → ℕ → ℕ → Tables → Outcome
settle (some reason) now s i k epoch value t =
    answer t (some (Reply.reject_stale k reason))
      (Kind.result k epoch i value ∷ Kind.reject_stale reason k epoch i value ∷ [])
settle none now s i k epoch value t =
    answer
      (record t {
        tasks = update t.tasks k (commit_task now value (t.tasks k));
        done_count = t.done_count + 1;
        rejoins = at_record add_commit s.rejoined_as t.rejoins;
      })
      (some (Reply.ack k))
      (Kind.result k epoch i value
        ∷ Kind.commit ((t.tasks k).commit_count + 1) s.rejoins k epoch i value
        ∷ [])

-- The part of `result` under the lock of task `k`. Other operations may run between the reading of
-- the sender and this part.
unfoldable pub commit_result : ℕ → Sender → ℕ → ℕ → ℕ → ℕ → Tables → Outcome
unfolding stale_reason
commit_result now s i k epoch value t =
    settle (stale_reason s.is_gone i epoch (t.tasks k)) now s i k epoch value t

-- `result` with nothing in between.
unfoldable pub result : ℕ → ℕ → ℕ → ℕ → ℕ → Tables → Outcome
unfolding commit_result read_sender
result now i k epoch value t = commit_result now (read_sender i t) i k epoch value t

unfoldable pub rejoin : ℕ → ℕ → Tables → Outcome
rejoin now i t =
    let w = t.workers i in
    if not (is_running t.phase) || not (is_dead w.health)
    then answer t (some Reply.retry_later) (Kind.retry_later i ∷ [])
    else let n = w.rejoin_count + 1 in
      answer
        (record t {
          workers = update t.workers i (record w {
            health = alive;
            last_hb = now;
            rejoin_count = n;
            rejoin_record = some (length t.rejoins);
          });
          rejoins =
              t.rejoins
              ++ record {
                worker = i;
                rejoin_count = n;
                time = now;
                first_assign = none;
                first_task = none;
                commits = 0;
              }
                ∷ [];
        })
        (some Reply.welcome) (Kind.rejoin i n (length t.queue) ∷ Kind.welcome i n ∷ [])
