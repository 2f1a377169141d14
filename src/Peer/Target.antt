-- ===== src/Peer/Target.antt =====
-- HW1/p2p.py: `find_transfer_target`, and the check of the answers of other workers.
use data_communication.Prelude.{
  ℕ, ◌+◌, ◌-◌, ◌/◌, ◌≤◌, ◌<◌, min, ◌≡◌, refl, sym, subst, Bool, true, false, ◌&&◌, ◌||◌, Option,
  none, some, List, [], ◌∷◌, ◌⊎◌, inl, inr, map, All, ltb, ◌==◌, if◌then◌else◌, Bool-cases, arith,
}

-- What a worker says of its queue.
pub record PeerState : Type 0 where
  pub worker_id : ℕ
  pub queue_size : ℕ
  pub queue_version : ℕ

pub record Plan : Type 0 where
  pub target : Option PeerState
  pub transfer_count : ℕ
  pub peer_queues : List (ℕ × ℕ)
  pub unreachable : List ℕ

-- The order of `(item["queue_size"], item["worker_id"])`.
abbrev pub comes_before : PeerState → PeerState → Bool
comes_before a b =
    ltb a.queue_size b.queue_size || a.queue_size == b.queue_size && ltb a.worker_id b.worker_id

-- `min(states, key=...)`: the first one that no later one comes before.
unfoldable pub least : PeerState → List PeerState → PeerState
least a [] = a
least a (b ∷ bs) = least (if comes_before b a then b else a) bs

-- `_query_queue` of the worker `i`, for the size and the version that it answers.
abbrev pub query_state : ℕ → ℕ × ℕ → PeerState
query_state i answer = record { worker_id = i; queue_size = answer.0; queue_version = answer.1 }

-- What each other worker answers to a query, in their order: the size and the version of its queue.
abbrev pub Answers : Type 0
Answers = List (ℕ × Option (ℕ × ℕ))

-- The loop over the peers.
unfoldable pub reached : Answers → List PeerState
reached [] = []
reached ((i, none) ∷ rest) = reached rest
reached ((i, some s) ∷ rest) = query_state i s ∷ reached rest

unfoldable pub not_reached : Answers → List ℕ
not_reached [] = []
not_reached ((i, none) ∷ rest) = i ∷ not_reached rest
not_reached ((i, some s) ∷ rest) = not_reached rest

abbrev pub max_queue_size : ℕ
max_queue_size = 10

-- `min(difference // 2, MAX_QUEUE_SIZE - target["queue_size"])`, or 0 if that is negative.
abbrev pub count_for : ℕ → ℕ → ℕ
count_for source_size target_size =
    min ((source_size - target_size) / 2) (max_queue_size - target_size)

unfoldable pub choose_target : ℕ → List PeerState → Option PeerState × ℕ
unfolding least
choose_target source_size [] = (none, 0)
choose_target source_size (s ∷ states) =
    let target = least s states in
    let count = count_for source_size target.queue_size in
    if count == 0 then (none, 0) else (some target, count)

unfoldable pub find_transfer_target : ℕ → Answers → Plan
unfolding choose_target reached not_reached
find_transfer_target source_size answers = record {
  target = (choose_target source_size (reached answers)).0;
  transfer_count = (choose_target source_size (reached answers)).1;
  peer_queues = map (λ s. (s.worker_id, s.queue_size)) (reached answers);
  unreachable = not_reached answers;
}

-- No state of the list comes before `a`.
abbrev IsLeast : PeerState → List PeerState → Type 0
IsLeast a states = All (λ b. a.queue_size ≤ b.queue_size) states

least-le : (a : PeerState) (bs : List PeerState) → (least a bs).queue_size ≤ a.queue_size
unfolding least
least-le a [] = omega arith
least-le a (b ∷ bs) = elim (Bool-cases (comes_before b a)) [
  | inl e ↦ rw (e, least) (ground (arith, e, least-le b bs))
  | inr e ↦ rw (e, least) (least-le a bs)
]

least_better :
    (a b : PeerState) (bs : List PeerState)
    → comes_before b a ≡ true
    → least a (b ∷ bs) ≡ least b bs
unfolding least
least_better a b bs e = rw (e, least) refl

least_worse :
    (a b : PeerState) (bs : List PeerState)
    → comes_before b a ≡ false
    → least a (b ∷ bs) ≡ least a bs
unfolding least
least_worse a b bs e = rw (e, least) refl

least-IsLeast : (a : PeerState) (bs : List PeerState) → IsLeast (least a bs) (a ∷ bs)
least-IsLeast a [] = (unfold least in omega arith, tt)
least-IsLeast a (b ∷ bs) = elim (Bool-cases (comes_before b a)) [
  | inl e ↦
      subst (λ t. IsLeast t (a ∷ b ∷ bs)) (sym (least_better a b bs e))
        (ground (arith, e, least-le b bs), least-IsLeast b bs)
  | inr e ↦
      subst (λ t. IsLeast t (a ∷ b ∷ bs)) (sym (least_worse a b bs e))
        (least-le a bs, (ground (arith, e, least-le a bs), (least-IsLeast a bs).1))
]

-- The plan by the states: no transfer, and then no worker that answered could take a
-- task; or tasks for the worker with the shortest queue, so few that its queue does not get longer
-- than the own one, nor than 10.
abbrev IsFairAmong : ℕ → List PeerState → Option PeerState × ℕ → Type 0
IsFairAmong source_size states (none, count) =
    (count ≡ 0)
    × All (λ b. (source_size < b.queue_size + 2) ⊎ (max_queue_size ≤ b.queue_size)) states
IsFairAmong source_size states (some t, count) =
    (0 < count)
    × IsLeast t states
    × (t.queue_size + count + count ≤ source_size)
    × (t.queue_size + count ≤ max_queue_size)

full_or_long :
    (source_size : ℕ) (t : PeerState) (states : List PeerState)
    → IsLeast t states
    → count_for source_size t.queue_size ≡ 0
    → All (λ b. (source_size < b.queue_size + 2) ⊎ (max_queue_size ≤ b.queue_size)) states
full_or_long source_size t [] h e = tt
full_or_long source_size t (b ∷ bs) (h, hs) e = (long, full_or_long source_size t bs hs e)
  where
    long : (source_size < b.queue_size + 2) ⊎ (max_queue_size ≤ b.queue_size)
    long = elim (Bool-cases (ltb source_size (b.queue_size + 2))) [
      | inl less ↦ inl (ground (arith, less))
      | inr more ↦ inr (ground (arith, more, h, e))
    ]

choose_target-IsFairAmong :
    (source_size : ℕ) (states : List PeerState)
    → IsFairAmong source_size states (choose_target source_size states)
unfolding choose_target
choose_target-IsFairAmong source_size [] = (refl, tt)
choose_target-IsFairAmong source_size (s ∷ states) =
    elim (Bool-cases (count_for source_size (least s states).queue_size == 0)) [
      | inl e ↦ rw e (
        refl,
        full_or_long source_size (least s states) (s ∷ states) (least-IsLeast s states)
            (ground (arith, e)),
      )
      | inr e ↦
          rw e (ground (arith, e), least-IsLeast s states, ground (arith, e), ground (arith, e))
    ]

-- That `t` is what one of the workers has answered, with this worker's number.
abbrev pub Answered : PeerState → Answers → Type 0
Answered t [] = ⊥
Answered t ((i, none) ∷ rest) = Answered t rest
Answered t ((i, some (size, version)) ∷ rest) =
    ((t.worker_id ≡ i) × (t.queue_size ≡ size) × (t.queue_version ≡ version)) ⊎ Answered t rest

-- What is true of the size of each queue that was answered.
abbrev pub EachSize : (ℕ → Type 0) → Answers → Type 0
EachSize P [] = Unit
EachSize P ((i, none) ∷ rest) = EachSize P rest
EachSize P ((i, some (size, version)) ∷ rest) = P size × EachSize P rest

-- What `find_transfer_target` plans: no transfer, and then no worker that answered could take a
-- task; or tasks for a worker that answered and has the shortest queue, so few that its queue does not
-- get longer than the own one, nor than 10.
abbrev pub IsFair : ℕ → Answers → Option PeerState × ℕ → Type 0
IsFair source_size answers (none, count) =
    (count ≡ 0) × EachSize (λ size. (source_size < size + 2) ⊎ (10 ≤ size)) answers
IsFair source_size answers (some t, count) =
    Answered t answers
    × (0 < count)
    × EachSize (λ size. t.queue_size ≤ size) answers
    × (t.queue_size + count + count ≤ source_size)
    × (t.queue_size + count ≤ 10)

All-EachSize :
    (P : ℕ → Type 0) (answers : Answers)
    → All (λ b. P b.queue_size) (reached answers)
    → EachSize P answers
unfolding reached
All-EachSize P [] h = tt
All-EachSize P ((i, none) ∷ rest) h = All-EachSize P rest h
All-EachSize P ((i, some (size, version)) ∷ rest) (h, hs) = (h, All-EachSize P rest hs)

All-later :
    (i : ℕ) (answer : ℕ × ℕ) (rest : Answers) (states : List PeerState)
    → All (λ t. Answered t rest) states
    → All (λ t. Answered t ((i, some answer) ∷ rest)) states
All-later i (size, version) rest [] h = tt
All-later i (size, version) rest (t ∷ states) (h, hs) =
    (inr h, All-later i (size, version) rest states hs)

reached-Answered : (answers : Answers) → All (λ t. Answered t answers) (reached answers)
unfolding reached
reached-Answered [] = tt
reached-Answered ((i, none) ∷ rest) = reached-Answered rest
reached-Answered ((i, some (size, version)) ∷ rest) = (
  inl (refl, refl, refl),
  All-later i (size, version) rest (reached rest) (reached-Answered rest),
)

least-All :
    (P : PeerState → Type 0) (a : PeerState) (bs : List PeerState) → P a → All P bs → P (least a bs)
least-All P a [] h hs = unfold least in h
least-All P a (b ∷ bs) h (h', hs) = elim (Bool-cases (comes_before b a)) [
  | inl e ↦ subst P (sym (least_better a b bs e)) (least-All P b bs h' hs)
  | inr e ↦ subst P (sym (least_worse a b bs e)) (least-All P a bs h hs)
]

-- The target of a choice, if there is one.
abbrev Meets : (PeerState → Type 0) → Option PeerState × ℕ → Type 0
Meets P (none, count) = Unit
Meets P (some t, count) = P t

choose_target-All :
    (P : PeerState → Type 0) (source_size : ℕ) (states : List PeerState)
    → All P states
    → Meets P (choose_target source_size states)
unfolding choose_target
choose_target-All P source_size [] h = tt
choose_target-All P source_size (s ∷ states) (h, hs) =
    elim (Bool-cases (count_for source_size (least s states).queue_size == 0)) [
      | inl e ↦ rw e tt
      | inr e ↦ rw e (least-All P s states h hs)
    ]

combined-IsFair :
    (source_size : ℕ) (answers : Answers) (o : Option PeerState × ℕ)
    → IsFairAmong source_size (reached answers) o
    → Meets (λ t. Answered t answers) o
    → IsFair source_size answers o
combined-IsFair source_size answers (none, count) (empty, busy) h =
    (empty, All-EachSize (λ size. (source_size < size + 2) ⊎ (10 ≤ size)) answers busy)
combined-IsFair source_size answers (some t, count) (some_left, shortest, even, fits) h =
    (h, some_left, All-EachSize (λ size. t.queue_size ≤ size) answers shortest, even, fits)

-- Whatever the other workers answer: if no transfer is planned, each worker that answered has a queue
-- that is full, or less than two tasks shorter than the own one; else tasks go to one of the workers that
-- answered, which has the shortest queue of all that did, at least one task, and so many that neither its
-- queue passes 10 nor it gets longer than what stays in the own one.
pub find_transfer_target-IsFair :
    (source_size : ℕ) (answers : Answers)
    → let plan = find_transfer_target source_size answers in
      IsFair source_size answers (plan.target, plan.transfer_count)
unfolding find_transfer_target
find_transfer_target-IsFair source_size answers =
    combined-IsFair source_size answers (choose_target source_size (reached answers))
      (choose_target-IsFairAmong source_size (reached answers))
      (choose_target-All (λ t. Answered t answers) source_size (reached answers)
        (reached-Answered answers))
