-- ===== src/Master/Finish.antt =====
-- HW1/master.py: when `finish_if_ready` stops the workers, and what it sends them.
use data_communication.Prelude.{
  ℕ, ◌≡◌, refl, sym, subst, ◌∙◌, ◌⊎◌, inl, inr, Bool, true, false, ◌||◌, not, Option, none, some,
  List, [], ◌∷◌, All, length, is_some, is_num, all_of, ◌==◌, ==_refl, Bool-cases, arith,
}
use data_communication.Master.State.{Master, Book, Worker, Check, is_done}
use data_communication.Master.Assign.{no_check, distribute}
use data_communication.Master.Process.{finish_if_ready, is_complete, first_time}
use data_communication.Master.Transfer.{no_twice}
use data_communication.Master.Receive.{Kind, handle_message}
use data_communication.Master.Refines.{LeadsTo, distribute-Changes}
use data_communication.Master.Balance.{IsBalanced, Changes-IsBalanced}
use data_communication.Master.Rounds.{Run, Run-IsBalanced, event_of, handle_message-LeadsTo}
use data_communication.Master.Stops.{
  AddsStops, send_stops-AddsStops, send_stops-stays, send_stops-completed, distribute-stays,
}

-- The tasks are done, with the values they began with as results.
abbrev pub AreDone : (ℕ → ℕ) → Book → List ℕ → Type 0
AreDone values b keys =
    All (λ k. (is_done (b.tasks k).state ≡ true) × (b.completed k ≡ some (values k))) keys

module _ (all : List ℕ) (values : ℕ → ℕ) (b : Book) (v : IsBalanced all values b) where
  is_num-done :
      (k : ℕ)
      → is_num (b.completed k) (b.tasks k).value ≡ true
      → (is_done (b.tasks k).state ≡ true) × (b.completed k ≡ some (values k))
  is_num-done k h =
      let done : is_done (b.tasks k).state ≡ true = ground (arith, h, (v.1 k).2) in
      (done, (v.1 k).2 ∙ rw done refl)

  is_complete-AreDone :
      (keys : List ℕ)
      → all_of (λ k. is_num (b.completed k) (b.tasks k).value) keys ≡ true
      → AreDone values b keys
  is_complete-AreDone [] h = tt
  is_complete-AreDone (k ∷ keys) h =
      (is_num-done k (ground (arith, h)), is_complete-AreDone keys (ground (arith, h)))

  AreDone-is_complete :
      (keys : List ℕ)
      → AreDone values b keys
      → all_of (λ k. is_num (b.completed k) (b.tasks k).value) keys ≡ true
  AreDone-is_complete [] h = refl
  AreDone-is_complete (k ∷ keys) ((done, result), rest) =
      rw (result, (v.1 k).3, ==_refl (values k)) (AreDone-is_complete keys rest)

-- No check of a worker's load is under way.
abbrev pub NoChecks : (ℕ → Worker) → List ℕ → Type 0
NoChecks workers ids = All (λ i. (workers i).check_request ≡ none) ids

not_asked : (o : Option Check) → not (is_some o) ≡ true → o ≡ none
not_asked none h = refl
not_asked (some c) h = absurd (ground (arith, h))

no_check-NoChecks :
    (workers : ℕ → Worker) (ids : List ℕ)
    → all_of (λ i. not (is_some (workers i).check_request)) ids ≡ true
    → NoChecks workers ids
no_check-NoChecks workers [] h = tt
no_check-NoChecks workers (i ∷ ids) h = (
  not_asked (workers i).check_request (ground (arith, h)),
  no_check-NoChecks workers ids (ground (arith, h)),
)

NoChecks-no_check :
    (workers : ℕ → Worker) (ids : List ℕ)
    → NoChecks workers ids
    → all_of (λ i. not (is_some (workers i).check_request)) ids ≡ true
NoChecks-no_check workers [] h = refl
NoChecks-no_check workers (i ∷ ids) (e, rest) = rw e (NoChecks-no_check workers ids rest)

-- All tasks are done, each with the value it began with as its result; no transfer is under way, and no
-- check of a worker's load is.
abbrev pub IsReady : List ℕ → (ℕ → ℕ) → Master → Type 0
IsReady keys values m =
    AreDone values m.book keys × (length m.transfer_times ≡ 0) × NoChecks m.workers m.worker_ids

-- The Master is stopping, and has sent a STOP to each of its workers, after all that it sent before.
abbrev pub HasStopped : Master → Master → Type 0
HasStopped m m' =
    let at = first_time m.clock m.completed_at in
    (m'.stopping ≡ true)
    × (m'.completed_at ≡ some at)
    × AddsStops at m.worker_ids m.outbox m'.outbox

-- It is not, and has sent nothing.
abbrev pub GoesOn : Master → Master → Type 0
GoesOn m m' = (m'.stopping ≡ false) × (m'.outbox ≡ m.outbox)

stops :
    (m : Master)
    → m.stopping ≡ false
    → is_complete m.book ≡ true
    → length m.transfer_times ≡ 0
    → no_check m ≡ true
    → HasStopped m (finish_if_ready m)
unfolding finish_if_ready
stops m running complete no_times idle =
    let at = first_time m.clock m.completed_at in
    let m1 = record m { completed_at = some at; stopping = true } in
    rw (running, complete, no_times, idle)
      (
        send_stops-stays at m.worker_ids m1,
        send_stops-completed at m.worker_ids m1,
        send_stops-AddsStops at m.worker_ids m1,
      )

goes_on :
    (m : Master)
    → m.stopping ≡ false
    → (is_complete m.book ≡ false)
      ⊎ ((is_complete m.book ≡ true)
          × ((not (length m.transfer_times == 0) || not (no_check m)) ≡ true))
    → GoesOn m (finish_if_ready m)
unfolding finish_if_ready
goes_on m running (inl e) =
    let all_over : (m.stopping || not (is_complete m.book)) ≡ true = ground (arith, running, e) in
    rw all_over (running, refl)
goes_on m running (inr (e, busy)) =
    let not_yet : (m.stopping || not (is_complete m.book)) ≡ false = ground (arith, running, e) in
    rw (not_yet, busy) (running, refl)

module _ (keys : List ℕ) (values : ℕ → ℕ) (m : Master) (v : IsBalanced keys values m.book) where
  AllComplete : List ℕ → Type 0
  AllComplete ks = all_of (λ k. is_num (m.book.completed k) (m.book.tasks k).value) ks ≡ true

  complete-AreDone : is_complete m.book ≡ true → AreDone values m.book keys
  unfolding AllComplete
  complete-AreDone e = is_complete-AreDone keys values m.book v keys (subst AllComplete v.0 e)

  ready_complete : AreDone values m.book keys → is_complete m.book ≡ true
  unfolding AllComplete
  ready_complete done =
      subst AllComplete (sym v.0) (AreDone-is_complete keys values m.book v keys done)

  finishes :
      m.stopping ≡ false
      → (IsReady keys values m × HasStopped m (finish_if_ready m))
        ⊎ (¬ IsReady keys values m × GoesOn m (finish_if_ready m))
  finishes running = elim (Bool-cases (is_complete m.book)) [
    | inr e ↦ inr (
      λ (done, no_times, idle). ground (arith, e, ready_complete done),
      goes_on m running (inl e),
    )
    | inl e ↦ elim (Bool-cases (not (length m.transfer_times == 0) || not (no_check m))) [
      | inl busy ↦ inr (
        λ (done, no_times, idle).
            ground (arith, busy, no_times, NoChecks-no_check m.workers m.worker_ids idle),
        goes_on m running (inr (e, busy)),
      )
      | inr idle ↦ inl (
        (
          complete-AreDone e,
          ground (arith, idle),
          no_check-NoChecks m.workers m.worker_ids (ground (arith, idle)),
        ),
        stops m running e (ground (arith, idle)) (ground (arith, idle)),
      )
    ]
  ]

-- In a state that the Master reaches from tasks with different keys, let it handle any message, which
-- raises no exception and after which it is not stopping, and give out tasks. Then `finish_if_ready` does
-- one of two things: if all tasks are done, each with the value it began with as its result, and no
-- transfer and no check of a load is under way, it sends each worker a STOP, with the time at which all
-- was complete and the time of sending, and stops; else it sends nothing and goes on.
pub finish_if_ready_lem :
    {keys : List ℕ} {values : ℕ → ℕ} {m m1 : Master} (i message_id : ℕ) (is_addressed : Bool)
    (kind : Kind)
    → no_twice keys ≡ true
    → Run keys values m
    → handle_message i message_id is_addressed kind m ≡ some m1
    → m1.stopping ≡ false
    → let m2 = distribute m1 in
      (IsReady keys values m2 × HasStopped m2 (finish_if_ready m2))
      ⊎ (¬ IsReady keys values m2 × GoesOn m2 (finish_if_ready m2))
finish_if_ready_lem {keys} {values} {m} {m1} i message_id is_addressed kind once run e running =
    finishes keys values (distribute m1)
      (Changes-IsBalanced keys values (distribute-Changes i (event_of kind) m1) (
        Changes-IsBalanced keys values
          (subst (LeadsTo i (event_of kind) m.book) e
            (handle_message-LeadsTo i message_id is_addressed kind m))
          (Run-IsBalanced once run)))
      (distribute-stays m1 ∙ running)
