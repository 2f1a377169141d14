-- ===== src/Coordinator/Register.antt =====
-- HW3/hw3/coordinator/tables.py: `hello`, `ring_ok`, `begin`, and what `Coordinator.run` of
-- HW3/hw3/coordinator/__main__.py does between them.
use Prim.Native.String.{String}
use data_communication.Prelude.{
  ℕ, suc, ◌+◌, ◌%◌, Bool, true, false, ◌||◌, not, Option, none, some, List, [], ◌∷◌, map, is_some,
  all_of, if◌then◌else◌, update,
}
use data_communication.Coordinator.State.{
  Tables, Worker, Phase, registering, ring, running, Kind, Outcome, answer, worker_ids,
  worker_count,
}

abbrev pub is_registering : Phase → Bool
is_registering registering = true
is_registering _ = false

abbrev pub is_ring : Phase → Bool
is_ring ring = true
is_ring _ = false

abbrev pub is_running : Phase → Bool
is_running running = true
is_running _ = false

-- `sum(p(w) for w in workers.values())`
abbrev pub count_workers : (Worker → Bool) → (ℕ → Worker) → List ℕ → ℕ
count_workers p ws [] = 0
count_workers p ws (i ∷ is) = (if p (ws i) then 1 else 0) + count_workers p ws is

-- `all(p(w) for w in workers.values())`
abbrev pub all_workers : (Worker → Bool) → (ℕ → Worker) → Bool
all_workers p ws = all_of (λ i. p (ws i)) worker_ids

unfoldable pub hello : ℕ → ℕ → String → ℕ → Tables → Outcome
hello c i ip port t =
    let w = t.workers i in
    if not (is_registering t.phase) || is_some w.channel || is_some (t.registered c)
    then answer t none (Kind.late_hello i ∷ [])
    else let ws = update t.workers i (record w { channel = some c; peer = some (ip, port) }) in
      answer (record t { workers = ws; registered = update t.registered c (some i) }) none
        (Kind.hello i ip port (count_workers (λ x. is_some x.channel) ws worker_ids) ∷ [])

unfoldable pub ring_ok : ℕ → Tables → Outcome
ring_ok i t =
    if not (is_ring t.phase)
    then answer t none (Kind.unexpected_ring_ok i ∷ [])
    else let ws = update t.workers i (record (t.workers i) { ring_ok = true }) in
      answer (record t { workers = ws }) none
        (Kind.ring_ok i (count_workers (λ x. x.ring_ok) ws worker_ids) ∷ [])

-- `run`, once every worker has a channel: the phase, and the RING message to each worker, which
-- names the next worker of the ring and its address. Until then `run` waits.
unfoldable pub open_ring : Tables → Option (Tables × List (ℕ × ℕ))
open_ring t =
    if all_workers (λ w. is_some w.channel) t.workers
    then some (record t { phase = ring }, map (λ i. (i, suc (i % worker_count))) worker_ids)
    else none

-- `for worker in workers.values(): worker.last_hb = now`
unfoldable pub reset_hbs : ℕ → List ℕ → (ℕ → Worker) → ℕ → Worker
reset_hbs now [] ws = ws
reset_hbs now (i ∷ is) ws = reset_hbs now is (update ws i (record (ws i) { last_hb = now }))

-- `none` is the RuntimeError of a start before ten RING_OK messages.
unfoldable pub begin : ℕ → Tables → Option Outcome
begin now t =
    if all_workers (λ w. w.ring_ok) t.workers
    then some (
        answer
          (record t {
            started_at = some now;
            phase = running;
            workers = reset_hbs now worker_ids t.workers;
          })
          none (Kind.start worker_count ∷ []))
    else none

-- `run`, after START is sent, and when all is done: the detector is switched on and off.
unfoldable pub set_detector : Bool → Tables → Tables
set_detector on t = record t { detector_enabled = on }
