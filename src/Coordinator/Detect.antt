-- ===== src/Coordinator/Detect.antt =====
-- HW3/hw3/coordinator/tables.py: `next_alive` and `detect`.
use data_communication.Prelude.{
  ℕ, suc, ◌+◌, ◌-◌, ◌%◌, range_from, Bool, true, false, ◌&&◌, ◌||◌, not, Option, none, some, List,
  [], ◌∷◌, ◌++◌, map, length, leb, is_num, keep_if, if◌then◌else◌, update,
}
use data_communication.Coordinator.State.{
  Tables, Task, Health, alive, Worker, Kind, Event, stamp, worker_ids, worker_count, task_count,
  suspect_timeout, dead_timeout,
}
use data_communication.Coordinator.Register.{is_running}
use data_communication.Coordinator.Assign.{is_dead, is_suspect, is_assigned}

abbrev pub is_alive : Health → Bool
is_alive alive = true
is_alive _ = false

-- The other workers in the order of the ring, from the one after `source`.
unfoldable pub ring_order : ℕ → List ℕ
ring_order source =
    map (λ offset. suc ((source + offset - 1) % worker_count))
      (1 ∷ 2 ∷ 3 ∷ 4 ∷ 5 ∷ 6 ∷ 7 ∷ 8 ∷ 9 ∷ [])

abbrev pub first_with : (Health → Bool) → (ℕ → Worker) → List ℕ → Option ℕ
first_with p ws [] = none
first_with p ws (i ∷ is) = if p (ws i).health then some i else first_with p ws is

abbrev pub or_else : Option ℕ → Option ℕ → Option ℕ
or_else (some a) _ = some a
or_else none b = b

-- `none` is the RuntimeError: neither a live nor a suspect worker is left.
unfoldable pub next_alive : ℕ → (ℕ → Worker) → Option ℕ
next_alive source ws =
    or_else (first_with is_alive ws (ring_order source))
      (first_with is_suspect ws (ring_order source))

-- One round of the first loop: is the worker to be declared dead, and is it newly suspect?
unfoldable pub timed_out : ℕ → Worker → Bool
timed_out now w = not (is_dead w.health) && leb dead_timeout (now - w.last_hb)

unfoldable pub falls_silent : ℕ → Worker → Bool
falls_silent now w =
    not (is_dead w.health)
    && not (leb dead_timeout (now - w.last_hb))
    && leb suspect_timeout (now - w.last_hb)
    && not (is_suspect w.health)

-- The first loop: `newly_dead`.
abbrev pub newly_dead : ℕ → (ℕ → Worker) → List ℕ
newly_dead now ws = keep_if (λ i. timed_out now (ws i)) worker_ids

-- The first loop: the events of new suspicions.
abbrev pub suspicions : ℕ → (ℕ → Worker) → List Kind
suspicions now ws =
    map (λ i. Kind.suspect i (ws i).last_hb (now - (ws i).last_hb))
      (keep_if (λ i. falls_silent now (ws i)) worker_ids)

-- A worker after the first two loops.
unfoldable pub judge : ℕ → Worker → Worker
unfolding timed_out falls_silent
judge now w =
    if timed_out now w
    then record w { health = Health.dead }
    else if falls_silent now w
    then record w { health = Health.suspect }
    else w

-- The first two loops, on the keys of the dictionary.
unfoldable pub judge_all : ℕ → List ℕ → (ℕ → Worker) → ℕ → Worker
judge_all now [] ws = ws
judge_all now (i ∷ is) ws = judge_all now is (update ws i (judge now (ws i)))

-- The guard of the loop over the tasks.
abbrev pub is_held_by : ℕ → Task → Bool
is_held_by source task = is_assigned task.state && is_num task.owner source

abbrev pub hand_over : ℕ → Task → Task
hand_over target task = record task { epoch = task.epoch + 1; owner = some target }

-- One round of the loop over the tasks, under the lock of task `k`.
unfoldable pub take_over : ℕ → ℕ → ℕ → (ℕ → Task) → ℕ → Task
take_over source target k ts =
    if is_held_by source (ts k) then update ts k (hand_over target (ts k)) else ts

-- The loop over the tasks `ks`: the tasks after it, and each task that moved with its old epoch.
unfoldable pub scan : ℕ → ℕ → List ℕ → (ℕ → Task) → (ℕ → Task) × List (ℕ × ℕ)
unfolding take_over
scan source target [] ts = (ts, [])
scan source target (k ∷ ks) ts =
    let (ts', moved) = scan source target ks (take_over source target k ts) in
    (ts', if is_held_by source (ts k) then (k, (ts k).epoch) ∷ moved else moved)

-- The message TAKEOVER to the worker that takes over.
pub record Takeover : Type 0 where
  pub to_worker : ℕ
  pub task : ℕ
  pub epoch : ℕ
  pub from_worker : ℕ

-- `range(TASK_COUNT)`
abbrev pub task_ids : List ℕ
task_ids = range_from 0 task_count

-- The body of the loop over `newly_dead`, once the target is found.
unfoldable pub bury : ℕ → List ℕ → ℕ → ℕ → Tables → Tables × List Kind × List Takeover
unfolding scan
bury now dead_now source target t =
    let w = t.workers source in
    let (ts, moved) = scan source target task_ids t.tasks in
    let owned = map (λ m. m.0) moved in
    let crashes = w.crash_count + 1 in
    let kinds =
      Kind.dead source crashes w.last_hb (now - w.last_hb) owned target dead_now
      ∷ (map (λ m. Kind.takeover m.0 m.1 (m.1 + 1) source target) moved
          ++ Kind.dead_scan source crashes owned ∷ []) in
    (
      record t {
        sequence = t.sequence + length kinds;
        tasks = ts;
        workers = update t.workers source (record w { crash_count = crashes });
        faults =
            t.faults
            ++ record {
              worker = source;
              crash_count = crashes;
              time = now;
              last_hb = w.last_hb;
              tasks = owned;
              to_worker = target;
            }
              ∷ [];
      },
      kinds,
      map (λ m. record { to_worker = target; task = m.0; epoch = m.1 + 1; from_worker = source })
          moved,
    )

abbrev pub Report : Type 0
Report = Option (List Kind × List Takeover)

abbrev pub join : List Kind → List Takeover → Report → Report
join ks sent none = none
join ks sent (some (ks', sent')) = some (ks ++ ks', sent ++ sent')

-- The loop over `newly_dead`. The error ends it, and what was written stays written.
unfoldable pub sweep : ℕ → List ℕ → List ℕ → Tables → Tables × Report
sweep now dead_now [] t = (t, some ([], []))
sweep now dead_now (source ∷ rest) t = elim (next_alive source t.workers) [
  | none ↦ (t, none)
  | some target ↦
      let (t', ks, sent) = bury now dead_now source target t in
      let (t'', r) = sweep now dead_now rest t' in (t'', join ks sent r)
]

abbrev pub stamped : ℕ → List Kind → Report → Option (List Event × List Takeover)
stamped n quiet none = none
stamped n quiet (some (ks, sent)) = some (stamp n (quiet ++ ks), sent)

-- The tables as the loop over `newly_dead` finds them.
unfoldable pub judged : ℕ → Tables → Tables
unfolding judge_all
judged now t = record t {
  workers = judge_all now worker_ids t.workers;
  sequence = t.sequence + length (suspicions now t.workers);
}

abbrev pub dead_ids : (ℕ → Worker) → List ℕ
dead_ids ws = keep_if (λ i. is_dead (ws i).health) worker_ids

abbrev pub is_off : Tables → Bool
is_off t = not t.detector_enabled || not (is_running t.phase)

unfoldable pub detect : ℕ → Tables → Tables × Option (List Event × List Takeover)
detect now t =
    if is_off t
    then (t, some ([], []))
    else let t' = judged now t in
      let (t'', r) = sweep now (dead_ids t'.workers) (newly_dead now t.workers) t' in
      (t'', stamped t.sequence (suspicions now t.workers) r)
