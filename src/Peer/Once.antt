-- ===== src/Peer/Once.antt =====
-- HW1/p2p.py: how often the tasks of a transfer are handed on, and what is answered.
use data_communication.Prelude.{
  ℕ, ◌≡◌, refl, sym, ap, subst, Bool, true, false, ◌||◌, not, Option, none, some, List, [], ◌∷◌,
  ◌⊎◌, inl, inr, Dict, lookup, insert, lookup-insert, elem, keep_if, ◌==◌, ==→eq, ==_refl,
  Bool-cases, Option-cases, arith,
}
use data_communication.Peer.Values.{P2pError}
use data_communication.Peer.Clean.{RawTasks, CleanTask, clean_tasks}
use data_communication.Peer.Transfers.{
  unknown, Reason, Answer, Receipt, Call, Node, init, Outcome, error, broken, reply, status_of,
  outcome_of, known_transfer, new_transfer, receive_clean, receive_transfer, record_sent_response,
}

pub data Step (n : Node) : Node → Type 0 where
  receive :
      (answer : Answer) (sender : ℕ) (id : Option ℕ) (raw : RawTasks)
      → Step n (receive_transfer answer sender id raw n).0
  note :
      (is_transfer : Bool) (sender id response_id : ℕ)
      → Step n (record_sent_response is_transfer sender id response_id n)

pub data Reach : Node → Type 0 where
  here : Reach init
  next : {m n : Node} → Reach m → Step m n → Reach n

-- The calls for a transfer.
abbrev pub calls_for : ℕ → List Call → List Call
calls_for id calls = keep_if (λ c. c.transfer_id == id) calls

-- A record of a transfer tells of the calls for it: none without a record, and one with it, which
-- gave the tasks of the record, from its source, and was answered as the record says.
abbrev pub Tells : ℕ → Option Receipt → List Call → Type 0
Tells id none calls = calls ≡ []
Tells id (some r) calls =
    (answer : Answer) × (calls
      ≡ record { transfer_id = id; source_id = r.source_id; tasks = r.signature; answer = answer }
        ∷ [])
    × (r.status ≡ status_of answer)

abbrev pub IsSound : Node → Type 0
IsSound n = (id : ℕ) → Tells id (lookup id n.received_transfers) (calls_for id n.calls)

update-IsSound :
    (id : ℕ) (r : Receipt) (received : Dict Receipt) (calls calls' : List Call)
    → ((j : ℕ) → Tells j (lookup j received) (calls_for j calls))
    → Tells id (some r) (calls_for id calls')
    → ((j : ℕ) → (id == j) ≡ false → calls_for j calls' ≡ calls_for j calls)
    → (j : ℕ) → Tells j (lookup j (insert id r received)) (calls_for j calls')
update-IsSound id r received calls calls' v told others j = elim (Bool-cases (id == j)) [
  | inl same_id ↦
      rw (lookup-insert id j r received, same_id)
        (subst (λ i. Tells i (some r) (calls_for i calls')) (==→eq id j same_id) told)
  | inr away ↦ rw (lookup-insert id j r received, away, others j away) (v j)
]

new_transfer-IsSound :
    (answer : Answer) (sender id : ℕ) (ts : List CleanTask) (n : Node)
    → IsSound n
    → lookup id n.received_transfers ≡ none
    → IsSound (new_transfer answer sender id ts n)
new_transfer-IsSound answer sender id ts n v e =
    update-IsSound id _ n.received_transfers n.calls (new_transfer answer sender id ts n).calls v
      (
        answer,
        rw (==_refl id) (
            ap
              (λ cs.
                record { transfer_id = id; source_id = sender; tasks = ts; answer = answer } ∷ cs)
              before),
        refl,
      )
      (λ j away. rw away refl)
  where
    before : calls_for id n.calls ≡ []
    before = subst (λ o. Tells id o (calls_for id n.calls)) e (v id)

pub receive_clean-known :
    (answer : Answer) (sender id : ℕ) (ts : List CleanTask) (n : Node) (r : Receipt)
    → lookup id n.received_transfers ≡ some r
    → receive_clean answer sender id ts n ≡ (n, known_transfer sender ts r)
unfolding receive_clean
receive_clean-known answer sender id ts n r e = rw (e, receive_clean) refl

pub receive_clean-new :
    (answer : Answer) (sender id : ℕ) (ts : List CleanTask) (n : Node)
    → lookup id n.received_transfers ≡ none
    → receive_clean answer sender id ts n ≡ (new_transfer answer sender id ts n, outcome_of answer)
unfolding receive_clean
receive_clean-new answer sender id ts n e = rw (e, receive_clean) refl

receive_clean-IsSound :
    (answer : Answer) (sender id : ℕ) (ts : List CleanTask) (n : Node)
    → IsSound n
    → IsSound (receive_clean answer sender id ts n).0
receive_clean-IsSound answer sender id ts n v =
    elim (Option-cases (lookup id n.received_transfers)) [
      | inr (r, e) ↦
          subst (λ p. IsSound p.0) (sym (receive_clean-known answer sender id ts n r e)) v
      | inl e ↦
          subst (λ p. IsSound p.0) (sym (receive_clean-new answer sender id ts n e))
            (new_transfer-IsSound answer sender id ts n v e)
    ]

-- `receive_transfer` by the result of `clean_tasks`.
abbrev pub received : Answer → ℕ → ℕ → Node → P2pError ⊎ List CleanTask → Node × Outcome
received answer sender id n (inl e) = (n, error e)
received answer sender id n (inr ts) = receive_clean answer sender id ts n

pub receive_transfer-received :
    (answer : Answer) (sender id : ℕ) (raw : RawTasks) (n : Node)
    → receive_transfer answer sender (some id) raw n ≡ received answer sender id n (clean_tasks raw)
unfolding receive_transfer
receive_transfer-received answer sender id raw n = ground arith

received-IsSound :
    (answer : Answer) (sender id : ℕ) (n : Node) (o : P2pError ⊎ List CleanTask)
    → IsSound n
    → IsSound (received answer sender id n o).0
received-IsSound answer sender id n (inl e) v = v
received-IsSound answer sender id n (inr ts) v = receive_clean-IsSound answer sender id ts n v

receive_transfer-IsSound :
    (answer : Answer) (sender : ℕ) (id : Option ℕ) (raw : RawTasks) (n : Node)
    → IsSound n
    → IsSound (receive_transfer answer sender id raw n).0
receive_transfer-IsSound answer sender none raw n v = unfold receive_transfer in v
receive_transfer-IsSound answer sender (some id) raw n v =
    subst (λ p. IsSound p.0) (sym (receive_transfer-received answer sender id raw n))
      (received-IsSound answer sender id n (clean_tasks raw) v)

record_sent_response-IsSound :
    (is_transfer : Bool) (sender id response_id : ℕ) (n : Node)
    → IsSound n
    → IsSound (record_sent_response is_transfer sender id response_id n)
unfolding record_sent_response
record_sent_response-IsSound false sender id response_id n v = v
record_sent_response-IsSound true sender id response_id n v =
    elim (Option-cases (lookup id n.received_transfers)) [
      | inl e ↦ rw e v
      | inr (r, e) ↦
          elim (Bool-cases (not (r.source_id == sender) || elem response_id r.response_ids)) [
            | inl skip ↦ rw (e, skip) v
            | inr add ↦
                rw (e, add)
                  (update-IsSound id _ n.received_transfers n.calls n.calls v
                    (subst (λ o. Tells id o (calls_for id n.calls)) e (v id)) (λ j away. refl))
          ]
    ]

Step-IsSound : {m n : Node} → Step m n → IsSound m → IsSound n
Step-IsSound {m} (Step.receive answer sender id raw) v =
    receive_transfer-IsSound answer sender id raw m v
Step-IsSound {m} (Step.note is_transfer sender id response_id) v =
    record_sent_response-IsSound is_transfer sender id response_id m v

-- However often transfers arrive, from whom and with whatever tasks: in every state that a node
-- reaches, the tasks of a transfer id were handed on at most once, and if they were, its record holds
-- their source, the tasks, and what became of them; without a record they never were.
pub handed_on_once : {n : Node} → Reach n → IsSound n
unfolding lookup
handed_on_once Reach.here = λ id. refl
handed_on_once (Reach.next r st) = Step-IsSound st (handed_on_once r)

-- What the second answer is, by the first.
abbrev pub again : Outcome → Outcome
again broken = reply unknown Reason.unfinished []
again (error e) = error e
again (reply s r ids) = reply s r ids
