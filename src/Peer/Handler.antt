-- ===== src/Peer/Handler.antt =====
-- HW1/p2p.py: `_handle_request`. `id_of` gives the number that stands for the text of a transfer id,
-- `answer` is what `transfer_receiver` does if it is called.
use data_communication.Prelude.{
  ℕ, ◌≤◌, ◌≡◌, ◌≢◌, refl, sym, ap, subst, true, false, Option, none, some, List, [], ◌∷◌, ◌⊎◌, inl,
  inr, lookup, ◌==◌, if◌then◌else◌, Bool-cases, Option-cases, arith,
}
use data_communication.Wire.Text.{Text}
use data_communication.Peer.Values.{
  Value, text, P2pError, read_transfer_id, read_worker_name, read_clock, ◌>>=◌,
}
use data_communication.Peer.Clean.{RawTasks, CleanTask, clean_tasks}
use data_communication.Peer.Cleaned.{bound}
use data_communication.Peer.Messages.{Header, validate_common, check_names, check_nodes, same_text}
use data_communication.Peer.Transfers.{
  Answer, Node, Outcome, new_transfer, receive_transfer, transfer_status,
}
use data_communication.Peer.Once.{
  receive_clean-known, receive_clean-new, received, receive_transfer-received,
}

pub record Request : Type 0 where
  pub header : Header
  pub transfer_id : Value
  pub tasks : RawTasks

pub data Handled : Type 0 where
  failed : P2pError → Handled
  queue_ack : ℕ × ℕ → Handled
  answered : Outcome → Handled
  unsupported : Handled

abbrev pub kind_query : Text
kind_query =
    b'P' ∷ b'2' ∷ b'P' ∷ b'_' ∷ b'Q' ∷ b'U' ∷ b'E' ∷ b'U' ∷ b'E' ∷ b'_' ∷ b'Q' ∷ b'U' ∷ b'E' ∷ b'R'
    ∷ b'Y' ∷ []

abbrev pub kind_transfer : Text
kind_transfer =
    b'P' ∷ b'2' ∷ b'P' ∷ b'_' ∷ b'T' ∷ b'R' ∷ b'A' ∷ b'N' ∷ b'S' ∷ b'F' ∷ b'E' ∷ b'R' ∷ []

abbrev pub kind_status : Text
kind_status = b'P' ∷ b'2' ∷ b'P' ∷ b'_' ∷ b'S' ∷ b'T' ∷ b'A' ∷ b'T' ∷ b'U' ∷ b'S' ∷ []

abbrev pub number_of : (Text → ℕ) → P2pError ⊎ Text → Option ℕ
number_of id_of (inl e) = none
number_of id_of (inr t) = some (id_of t)

abbrev pub to_handled : Node × Outcome → Node × Handled
to_handled (n, o) = (n, answered o)

-- The handler of a request whose common fields are valid.
unfoldable pub handle_kind : (Text → ℕ) → ℕ × ℕ → Answer → ℕ → Request → Node → Node × Handled
handle_kind id_of queue_state answer sender r n =
    let id = number_of id_of (read_transfer_id r.transfer_id) in
    if same_text r.header.kind kind_query
    then (n, queue_ack queue_state)
    else if same_text r.header.kind kind_transfer
    then to_handled (receive_transfer answer sender id r.tasks n)
    else if same_text r.header.kind kind_status
    then (n, answered (transfer_status sender id n))
    else (n, unsupported)

abbrev pub handle_valid :
    (Text → ℕ) → ℕ × ℕ → Answer → P2pError ⊎ ℕ → Request → Node → Node × Handled
handle_valid id_of queue_state answer (inl e) r n = (n, failed e)
handle_valid id_of queue_state answer (inr sender) r n =
    handle_kind id_of queue_state answer sender r n

-- `_handle_request` in the node of the worker `me`.
unfoldable pub handle_request : ℕ → (Text → ℕ) → ℕ × ℕ → Answer → Request → Node → Node × Handled
unfolding handle_kind
handle_request me id_of queue_state answer r n =
    handle_valid id_of queue_state answer (validate_common me none r.header) r n

read_worker_name_bounds : (v : Value) (i : ℕ) → read_worker_name v ≡ inr i → (1 ≤ i) × (i ≤ 4)
unfolding read_worker_name
read_worker_name_bounds (text t) i h = ground arith
read_worker_name_bounds _ i h = ground arith

check_nodes-sender :
    (me : ℕ) (clock : Value) (sender receiver i : ℕ)
    → check_nodes me none clock sender receiver ≡ inr i
    → (sender ≡ i) × (i ≢ me)
unfolding check_nodes
check_nodes-sender me clock sender receiver i h = elim (Bool-cases (sender == me)) [
  | inl own ↦ ground (arith, h, own)
  | inr foreign ↦ elim (Bool-cases (receiver == me)) [
    | inr wrong ↦ ground (arith, h, foreign, wrong)
    | inl right ↦
        let (at, at_ok, same_sender) =
          bound (read_clock clock) (λ at. inr sender) (passed foreign right) in
        let e : sender ≡ i = ground (arith, same_sender) in
        (e, λ own. absurd (ground (arith, e, own, foreign)))
  ]
]
  where
    passed :
        (sender == me) ≡ false
        → (receiver == me) ≡ true
        → (read_clock clock >>= (λ at. inr sender)) ≡ inr i
    passed foreign right = rw (foreign, right) at h

-- The sender of a message that `_validate_common` lets through.
sender_bounds :
    (me : ℕ) (m : Header) (i : ℕ) → validate_common me none m ≡ inr i → (1 ≤ i) × (i ≤ 4) × (i ≢ me)
unfolding validate_common check_names
sender_bounds me m i h =
    let named : check_names me none m ≡ inr i = ground (arith, h) in
    let (sender, sender_ok, h1) = bound (read_worker_name m.sender) _ named in
    let (receiver, receiver_ok, h2) = bound (read_worker_name m.receiver) _ h1 in
    let (e, foreign) = check_nodes-sender me m.clock sender receiver i h2 in
    let limits =
      subst (λ j. (1 ≤ j) × (j ≤ 4)) e (read_worker_name_bounds m.sender sender sender_ok) in
    (limits.0, limits.1, foreign)

-- That a node takes a new transfer from another worker, under the id that stands in the request.
abbrev pub TakesNew : Answer → ℕ → (Text → ℕ) → Request → Node → Node → Type 0
TakesNew answer me id_of r n n' =
    (sender : ℕ) × (name : Text) × (ts : List CleanTask) × ((validate_common me none r.header
        ≡ inr sender)
      × (same_text r.header.kind kind_transfer ≡ true)
      × (read_transfer_id r.transfer_id ≡ inr name)
      × (1 ≤ sender)
      × (sender ≤ 4)
      × (sender ≢ me)
      × (clean_tasks r.tasks ≡ inr ts)
      × (lookup (id_of name) n.received_transfers ≡ none)
      × (n' ≡ new_transfer answer sender (id_of name) ts n))

-- The same of a transfer with the number `id`, if it has one.
abbrev NewFrom : Answer → ℕ → Option ℕ → RawTasks → Node → Node → Type 0
NewFrom answer sender given raw n n' =
    (n' ≡ n)
    ⊎ ((id : ℕ) × (ts : List CleanTask) × ((given ≡ some id)
          × (clean_tasks raw ≡ inr ts)
          × (lookup id n.received_transfers ≡ none)
          × (n' ≡ new_transfer answer sender id ts n)))

receive-NewFrom :
    (answer : Answer) (sender : ℕ) (id : Option ℕ) (raw : RawTasks) (n : Node)
    → NewFrom answer sender id raw n (receive_transfer answer sender id raw n).0
receive-NewFrom answer sender none raw n = unfold receive_transfer in inl refl
receive-NewFrom answer sender (some id) raw n =
    subst (λ p. NewFrom answer sender (some id) raw n p.0)
      (sym (receive_transfer-received answer sender id raw n)) (by_tasks (clean_tasks raw) refl)
  where
    by_tasks :
        (o : P2pError ⊎ List CleanTask)
        → clean_tasks raw ≡ o
        → NewFrom answer sender (some id) raw n (received answer sender id n o).0
    by_tasks (inl e) h = inl refl
    by_tasks (inr ts) h = elim (Option-cases (lookup id n.received_transfers)) [
      | inr (known, e) ↦ inl (ap (λ p. p.0) (receive_clean-known answer sender id ts n known e))
      | inl e ↦
          inr (id, ts, (refl, h, e, ap (λ p. p.0) (receive_clean-new answer sender id ts n e)))
    ]

to_handled-node : (p : Node × Outcome) → (to_handled p).0 ≡ p.0
to_handled-node (n, o) = refl

-- What the handler of a transfer does, in the case that the message is one.
abbrev IfTransfer : (Text → ℕ) → Answer → ℕ → Request → Node → Node → Type 0
IfTransfer id_of answer sender r n n' =
    (n' ≡ n)
    ⊎ ((same_text r.header.kind kind_transfer ≡ true)
        × NewFrom answer sender (number_of id_of (read_transfer_id r.transfer_id)) r.tasks n n')

handle_kind-IfTransfer :
    (id_of : Text → ℕ) (queue_state : ℕ × ℕ) (answer : Answer) (sender : ℕ) (r : Request) (n : Node)
    → IfTransfer id_of answer sender r n (handle_kind id_of queue_state answer sender r n).0
unfolding handle_kind
handle_kind-IfTransfer id_of queue_state answer sender r n =
    elim (Bool-cases (same_text r.header.kind kind_query)) [
      | inl query ↦ rw query (inl refl)
      | inr foreign ↦ elim (Bool-cases (same_text r.header.kind kind_transfer)) [
        | inl transfer ↦
            subst (IfTransfer id_of answer sender r n)
              (sym (rw (foreign, transfer) (to_handled-node taken)))
              (inr (transfer, receive-NewFrom answer sender id r.tasks n))
        | inr no_transfer ↦ elim (Bool-cases (same_text r.header.kind kind_status)) [
          | inl status ↦ rw (foreign, no_transfer, status) (inl refl)
          | inr odd ↦ rw (foreign, no_transfer, odd) (inl refl)
        ]
      ]
    ]
  where
    id : Option ℕ
    id = number_of id_of (read_transfer_id r.transfer_id)

    taken : Node × Outcome
    taken =
        receive_transfer answer sender (number_of id_of (read_transfer_id r.transfer_id)) r.tasks n

number_of-some :
    (id_of : Text → ℕ) (o : P2pError ⊎ Text) (id : ℕ)
    → number_of id_of o ≡ some id
    → (name : Text) × ((o ≡ inr name) × (id ≡ id_of name))
number_of-some id_of (inl e) id h = absurd (ground (arith, h))
number_of-some id_of (inr name) id h = (name, (refl, ground (arith, h)))

-- A request, of whatever content, leaves the node as it is, or it is a valid P2P_TRANSFER from another of
-- the workers 1 to 4, carries clean tasks under an id without a record, and the node takes these tasks as
-- new under this id.
pub handle_request-TakesNew :
    (me : ℕ) (id_of : Text → ℕ) (queue_state : ℕ × ℕ) (answer : Answer) (r : Request) (n : Node)
    → let n' = (handle_request me id_of queue_state answer r n).0 in
      (n' ≡ n) ⊎ TakesNew answer me id_of r n n'
unfolding handle_request
handle_request-TakesNew me id_of queue_state answer r n =
    by_sender (validate_common me none r.header) refl
  where
    from_new :
        (sender : ℕ) (n' : Node)
        → validate_common me none r.header ≡ inr sender
        → same_text r.header.kind kind_transfer ≡ true
        → NewFrom answer sender (number_of id_of (read_transfer_id r.transfer_id)) r.tasks n n'
        → (n' ≡ n) ⊎ TakesNew answer me id_of r n n'
    from_new sender n' h kind (inl e) = inl e
    from_new sender n' h kind (inr (id, ts, (given, clean, fresh, e))) =
        let (low, high, foreign) = sender_bounds me r.header sender h in
        let (name, (named, same_id)) =
          number_of-some id_of (read_transfer_id r.transfer_id) id given in
        inr (
          sender,
          name,
          ts,
          (
            h,
            kind,
            named,
            low,
            high,
            foreign,
            clean,
            subst (λ j. lookup j n.received_transfers ≡ none) same_id fresh,
            subst (λ j. n' ≡ new_transfer answer sender j ts n) same_id e,
          ),
        )

    from_kind :
        (sender : ℕ) (n' : Node)
        → validate_common me none r.header ≡ inr sender
        → IfTransfer id_of answer sender r n n'
        → (n' ≡ n) ⊎ TakesNew answer me id_of r n n'
    from_kind sender n' h (inl e) = inl e
    from_kind sender n' h (inr (kind, new)) = from_new sender n' h kind new

    by_sender :
        (o : P2pError ⊎ ℕ)
        → validate_common me none r.header ≡ o
        → let n' = (handle_valid id_of queue_state answer o r n).0 in
          (n' ≡ n) ⊎ TakesNew answer me id_of r n n'
    by_sender (inl e) h = inl refl
    by_sender (inr sender) h =
        from_kind sender (handle_kind id_of queue_state answer sender r n).0 h
          (handle_kind-IfTransfer id_of queue_state answer sender r n)
