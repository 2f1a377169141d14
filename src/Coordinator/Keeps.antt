-- ===== src/Coordinator/Keeps.antt =====
-- The invariant of the tables, operation by operation.
mod Detection
use Detection.{detect-IsValid, detect-ends}
use data_communication.Prelude.{
  ℕ, zero, suc, ◌+◌, ◌-◌, ◌≤◌, ◌<◌, ◌≡◌, ◌≢◌, refl, sym, ap, ap₂, subst, ◌∙◌, Bool, true, false,
  Option, none, some, List, [], ◌∷◌, range_from, total, leb, ◌==◌, if◌then◌else◌, arith, update,
  total-update, total-update_same, total_nothing, Bool-cases, inl, inr, not, ◌||◌, ◌⊎◌, is_some,
}
use Prim.Native.String.{String}
use data_communication.Coordinator.State.{
  init, new_task, Tables, Task, assigned, Worker, Outcome, task_count, worker_ids,
}
use data_communication.Coordinator.Register.{
  hello, ring_ok, open_ring, begin, reset_hbs, set_detector, is_running,
}
use data_communication.Coordinator.Assign.{
  is_dead, heartbeat, hand_out, request, Sender, stale_reason, commit_result, rejoin, commit_task,
}
use data_communication.Coordinator.Detect.{is_held_by, detect}
use data_communication.Coordinator.Summary.{done_weight}
use data_communication.Coordinator.Steps.{Step, Run}
use data_communication.Coordinator.Scan.{uncons-range_from}
use data_communication.Coordinator.Invariant.{IsMember, IsSound, IsOrdered, NoneLeft, IsValid}

-- The tables differ in no field that the invariant reads but the workers, and none of them dies.
record Spares (t u : Tables) : Type 0 where
  same_tasks : u.tasks ≡ t.tasks
  same_queue : u.queue ≡ t.queue
  same_count : u.done_count ≡ t.done_count
  no_death : (i : ℕ) → is_dead (t.workers i).health ≡ false → is_dead (u.workers i).health ≡ false

Spares-IsValid : {t u : Tables} → Spares t u → IsValid t → IsValid u
Spares-IsValid {t} {u} s v = record {
  next = v.next;
  next_le = v.next_le;
  queued = ground (arith, v.queued, s.same_queue);
  waiting = λ k lt. ground (arith, v.waiting k lt, s.same_tasks);
  sound = λ k lt. subst (λ ts. IsSound (ts k)) (sym s.same_tasks) (v.sound k lt);
  counted = ground (arith, v.counted, s.same_count, s.same_tasks);
  live = λ k i lt h. ground (arith, v.live k i lt, s.same_tasks, s.no_death i);
}

same : (t : Tables) {n : ℕ} → Spares t (record t { sequence = n })
same t = record { same_tasks = refl; same_queue = refl; same_count = refl; no_death = λ j d. d }

hello-Spares :
    (c i : ℕ) (ip : String) (port : ℕ) (t : Tables) → Spares t (hello c i ip port t).tables
unfolding hello
hello-Spares c i ip port t = record {
  same_tasks = ground arith;
  same_queue = ground arith;
  same_count = ground arith;
  no_death = λ j h. ground arith;
}

ring_ok-Spares : (i : ℕ) (t : Tables) → Spares t (ring_ok i t).tables
unfolding ring_ok
ring_ok-Spares i t = record {
  same_tasks = ground arith;
  same_queue = ground arith;
  same_count = ground arith;
  no_death = λ j h. ground arith;
}

reset_hbs-health :
    (now : ℕ) (is : List ℕ) (ws : ℕ → Worker) (j : ℕ)
    → (reset_hbs now is ws j).health ≡ (ws j).health
unfolding reset_hbs
reset_hbs-health now [] ws j = refl
reset_hbs-health now (i ∷ is) ws j =
    ground (arith, reset_hbs-health now is (update ws i (record (ws i) { last_hb = now })) j)

begin-Spares : (now : ℕ) (t : Tables) (o : Outcome) → begin now t ≡ some o → Spares t o.tables
unfolding begin
begin-Spares now t o e = record {
  same_tasks = ground arith;
  same_queue = ground arith;
  same_count = ground arith;
  no_death = λ j h. ground (arith, reset_hbs-health now worker_ids t.workers j);
}

heartbeat-Spares : (now i : ℕ) (t : Tables) → Spares t (heartbeat now i t).tables
unfolding heartbeat
heartbeat-Spares now i t = record {
  same_tasks = ground arith;
  same_queue = ground arith;
  same_count = ground arith;
  no_death = λ j h. ground arith;
}

rejoin-Spares : (now i : ℕ) (t : Tables) → Spares t (rejoin now i t).tables
unfolding rejoin
rejoin-Spares now i t = record {
  same_tasks = ground arith;
  same_queue = ground arith;
  same_count = ground arith;
  no_death = λ j h. ground arith;
}

module _ (now i k : ℕ) (rest : List ℕ) (t : Tables) where
  module _ (m : IsMember i) (h : is_dead (t.workers i).health ≡ false) (e : t.queue ≡ k ∷ rest)
      (v : IsValid t) where
    head :
        (k ≡ v.next)
        × (0 < task_count - v.next)
        × (rest ≡ range_from (suc v.next) (task_count - v.next - 1))
    head = uncons-range_from k v.next (task_count - v.next) rest (sym e ∙ v.queued)

    hand_out_pop-IsValid : IsValid (hand_out now i (k ∷ rest) t).tables
    unfolding hand_out
    hand_out_pop-IsValid = record {
      next = suc k;
      next_le = ground (arith, head);
      queued = head.2 ∙ ap₂ range_from (ap suc (sym head.0)) (omega (arith, head));
      waiting = λ j lt. ground (arith, head, v.waiting j lt);
      sound = λ j lt. ground (arith, head, v.sound j lt, v.waiting j lt);
      counted =
          v.counted
          ∙ sym (
              total-update_same done_weight task_count t.tasks k
                (record (t.tasks k) { state = assigned; owner = some i; epoch = 1 })
                (ground (arith, head, v.waiting k)));
      live = λ j l lt held. ground (arith, head, v.live j l lt);
    }

hand_out-IsValid :
    (now i : ℕ) (q : List ℕ) (t : Tables)
    → IsMember i
    → is_dead (t.workers i).health ≡ false
    → t.queue ≡ q
    → IsValid t
    → IsValid (hand_out now i q t).tables
unfolding hand_out
hand_out-IsValid now i [] t m h e v = Spares-IsValid (same t) v
hand_out-IsValid now i (k ∷ rest) t m h e v = hand_out_pop-IsValid now i k rest t m h e v

commit_result-IsValid :
    (now : ℕ) (s : Sender) (i k epoch value : ℕ) (t : Tables)
    → IsMember i
    → k < task_count
    → IsValid t
    → IsValid (commit_result now s i k epoch value t).tables
unfolding commit_result
commit_result-IsValid now s i k epoch value t m lt v = record {
  next = v.next;
  next_le = v.next_le;
  queued = ground (arith, v.queued);
  waiting = λ j l. ground (arith, v.waiting j l, v.sound k lt);
  sound = λ j l. ground (arith, v.sound j l);
  counted = ground (
    arith,
    v.counted,
    v.sound k lt,
    total-update done_weight task_count t.tasks k (commit_task now value (t.tasks k)) lt,
  );
  live = λ j l lj held. ground (arith, v.live j l lj);
}

request-IsValid :
    (now i : ℕ) (t : Tables) → IsMember i → IsValid t → IsValid (request now i t).tables
unfolding request
request-IsValid now i t m v =
    elim (Bool-cases (not (is_running t.phase) || is_dead (t.workers i).health)) [
      | inl refused ↦ rw refused (Spares-IsValid (same t) v)
      | inr open_to ↦ rw open_to (hand_out-IsValid now i t.queue t m (ground arith) refl v)
    ]

open_ring-Spares : (t u : Tables) (to : List (ℕ × ℕ)) → open_ring t ≡ some (u, to) → Spares t u
unfolding open_ring
open_ring-Spares t u to e = record {
  same_tasks = ground arith;
  same_queue = ground arith;
  same_count = ground arith;
  no_death = λ j h. ground arith;
}

set_detector-Spares : (on : Bool) (t : Tables) → Spares t (set_detector on t)
unfolding set_detector
set_detector-Spares on t = record {
  same_tasks = refl;
  same_queue = refl;
  same_count = refl;
  no_death = λ j h. h;
}

-- Every step of the Coordinator keeps the invariant.
pub Step-IsValid : {t u : Tables} → Step t u → IsValid t → IsValid u
Step-IsValid {t} (Step.hello c i ip port m) v = Spares-IsValid (hello-Spares c i ip port t) v
Step-IsValid {t} (Step.ring_ok i m) v = Spares-IsValid (ring_ok-Spares i t) v
Step-IsValid {t} {u} (Step.open_ring {to = to} e) v = Spares-IsValid (open_ring-Spares t u to e) v
Step-IsValid {t} (Step.begin now {o = o} e) v = Spares-IsValid (begin-Spares now t o e) v
Step-IsValid {t} (Step.set_detector on) v = Spares-IsValid (set_detector-Spares on t) v
Step-IsValid {t} (Step.heartbeat now i m) v = Spares-IsValid (heartbeat-Spares now i t) v
Step-IsValid {t} (Step.request now i m) v = request-IsValid now i t m v
Step-IsValid {t} (Step.commit now s i k epoch value m lt) v =
    commit_result-IsValid now s i k epoch value t m lt v
Step-IsValid {t} (Step.rejoin now i m) v = Spares-IsValid (rejoin-Spares now i t) v
Step-IsValid {t} {u} (Step.detect now {out = out} e) v =
    subst IsValid (ap (λ p. p.0) e) (detect-IsValid now t (rw e) v)

pub IsValid-init : IsValid init
IsValid-init = record {
  next = 0;
  next_le = omega arith;
  queued = refl;
  waiting = λ k lt. ground arith;
  sound = λ k lt. ground arith;
  counted = sym (total_nothing done_weight task_count (λ _. new_task) (λ k. refl));
  live = λ k i lt h. ground arith;
}

-- From valid tables every run leads to valid tables.
pub Run-IsValid : {s t : Tables} → IsValid s → Run s t → IsValid t
Run-IsValid v Run.here = v
Run-IsValid v (Run.next r st) = Step-IsValid st (Run-IsValid v r)

-- From valid tables, every run of the operations leads to valid tables. A pass of the detector then keeps
-- them valid as well, or it raises an exception; and it raises one only if all members are dead when it
-- ends, and even then all of the invariant holds but that the assigned tasks have holders that live.
pub ends_in_order :
    {s t : Tables}
    → IsValid s
    → Run s t
    → (now : ℕ)
    → let (u, out) = detect now t in
      IsValid t
      × (((is_some out ≡ true) × IsValid u) ⊎ ((is_some out ≡ false) × IsOrdered u × NoneLeft u))
ends_in_order {t = t} v run now =
    let valid = Run-IsValid v run in
    (
      valid,
      elim (Bool-cases (is_some (detect now t).1)) [
        | inl e ↦ inl (e, detect-IsValid now t e valid)
        | inr e ↦ let (ordered, gone) = detect-ends now t e valid in inr (e, ordered, gone)
      ],
    )
