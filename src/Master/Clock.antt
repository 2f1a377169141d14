-- ===== src/Master/Clock.antt =====
-- HW1/master.py: `add_time`, which also plans the checks of the workers' loads, and `send`.
use data_communication.Prelude.{
  ℕ, zero, suc, ◌+◌, ◌-◌, ◌*◌, ◌%◌, Bool, true, false, ◌&&◌, ◌||◌, not, Option, none, some, List,
  [], ◌∷◌, is_some, ltb, leb, ◌==◌, if◌then◌else◌,
}
use data_communication.Master.State.{Master, Worker, Message, on_worker}

-- `w["next_check"] is not None and w["next_check"] <= end`
abbrev pub is_due : ℕ → Option ℕ → Bool
is_due end none = false
is_due end (some at) = leb at end

-- `min` of the times and ids of the workers that are due.
abbrev pub earlier : ℕ × ℕ → Option (ℕ × ℕ) → Option (ℕ × ℕ)
earlier a none = some a
earlier a (some b) = if ltb a.0 b.0 || a.0 == b.0 && leb a.1 b.1 then some a else some b

abbrev pub add_due : ℕ → ℕ → Option ℕ → Option (ℕ × ℕ) → Option (ℕ × ℕ)
add_due end i none rest = rest
add_due end i (some at) rest = if leb at end then earlier (at, i) rest else rest

unfoldable pub first_due : ℕ → List ℕ → (ℕ → Worker) → Option (ℕ × ℕ)
first_due end [] workers = none
first_due end (i ∷ ids) workers = add_due end i (workers i).next_check (first_due end ids workers)

-- `rng.randint(1, 3)`
abbrev pub randint : Master → ℕ
randint m = 1 + m.draws m.drawn % 3

abbrev pub is_overloaded : Worker → Bool
is_overloaded w = ltb 15 (w.queue_size * 2)

abbrev pub due_check : ℕ → ℕ → Worker → Worker
due_check now next w =
    if is_overloaded w && not (is_some w.check_request) && not w.check_due
    then record w { check_due = true; check_at = some now; next_check = some next }
    else record w { next_check = some next }

-- One check in the loop of `add_time`.
unfoldable pub tick : ℕ × ℕ → Master → Master
tick (at, i) m = record (on_worker i (due_check at (at + randint m)) m) {
  clock = at;
  drawn = suc m.drawn;
}

unfoldable pub tick_loop : ℕ → ℕ → Master → Master
unfolding tick first_due
tick_loop zero end m = m
tick_loop (suc fuel) end m = elim (first_due end m.worker_ids m.workers) [
  | none ↦ m
  | some due ↦ tick_loop fuel end (tick due m)
]

-- How many seconds before or at `end` are left to the next checks, all workers together; each check
-- takes at least one of them.
abbrev pub left_of : ℕ → Option ℕ → ℕ
left_of end none = 0
left_of end (some at) = end + 1 - at

unfoldable pub time_left : ℕ → List ℕ → (ℕ → Worker) → ℕ
time_left end [] workers = 0
time_left end (i ∷ ids) workers = left_of end (workers i).next_check + time_left end ids workers

unfoldable pub add_time : ℕ → Master → Master
unfolding tick_loop time_left
add_time seconds m =
    let end = m.clock + seconds in
    let m' = tick_loop (time_left end m.worker_ids m.workers) end m in
    record (if m.stopping then m else m') { clock = end }

-- `send`, with the id of the message.
unfoldable pub send : ℕ → Message → Master → Master × ℕ
unfolding add_time
send i message m =
    let m' = add_time 1 (record m { message_number = suc m.message_number }) in
    (
      record m' {
        outbox =
            record {
              receiver = i;
              message_id = m'.message_number;
              clock = m'.clock;
              message = message;
            }
            ∷ m'.outbox;
      },
      m'.message_number,
    )
