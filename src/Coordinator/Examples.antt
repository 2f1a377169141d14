-- ===== src/Coordinator/Examples.antt =====
-- A run of the Coordinator in which worker 1 falls silent, and the theorems applied to it.
use data_communication.Prelude.{
  ℕ, ◌+◌, ◌<◌, ◌≡◌, ◌≢◌, ◌↔◌, ◌⊎◌, refl, true, false, ◌&&◌, Option, none, some, List, [], ◌∷◌, inl,
  inr, is_some, ◌==◌, total, arith, Option-cases, range_from,
}
use data_communication.Coordinator.State.{
  Tables, Event, ack, init, task_count, expected_prime_count,
}
use data_communication.Coordinator.Register
use data_communication.Coordinator.Register.{is_running}
use data_communication.Coordinator.Assign
use data_communication.Coordinator.Assign.{Sender, commit_result, is_dead, is_done}
use data_communication.Coordinator.Detect
use data_communication.Coordinator.Detect.{
  Takeover, timed_out, is_held_by, is_off, newly_dead, next_alive,
}
use data_communication.Coordinator.Summary.{verify, value_weight}
use data_communication.Coordinator.Invariant.{IsMember, IsOrdered, NoneLeft, IsValid}
use data_communication.Coordinator.Steps.{Step, Run, Reach}
use data_communication.Coordinator.Keeps.{ends_in_order, IsValid-init}
use data_communication.Coordinator.Commits.{IsCurrent, commit_result-ack, Reach-verify, commit_once}
use data_communication.Coordinator.Requests.{Gave, Exhausted, request_lem}
use data_communication.Coordinator.Detector.{
  verdict, detect-health, HandedOver, detect_hands_over, no_commit_after_takeover,
}
use data_communication.Coordinator.Target.{Target, next_alive_lem}

data Act : Type 0 where
  hello ring_ok : (i : ℕ) → IsMember i → Act
  open_ring switch_on : Act
  begin detect : ℕ → Act
  heartbeat request : ℕ → (i : ℕ) → IsMember i → Act
  result : ℕ → (i k epoch value : ℕ) → IsMember i → k < task_count → Act

-- Tables with the run that leads to them.
record Reached : Type 0 where
  last : Tables
  run : Reach last

act : Act → Reached → Reached
act (Act.hello i m) s = record {
  last = (Register.hello (i + 100) i "10.0.0.1" 7000 s.last).tables;
  run = Run.next s.run (Step.hello (i + 100) i "10.0.0.1" 7000 m);
}
act (Act.ring_ok i m) s = record {
  last = (Register.ring_ok i s.last).tables;
  run = Run.next s.run (Step.ring_ok i m);
}
act Act.open_ring s = elim (Option-cases (Register.open_ring s.last)) [
  | inl failed ↦ s
  | inr (p, e) ↦ record { last = p.0; run = Run.next s.run (Step.open_ring e) }
]
act Act.switch_on s = record {
  last = Register.set_detector true s.last;
  run = Run.next s.run (Step.set_detector true);
}
act (Act.begin now) s = elim (Option-cases (Register.begin now s.last)) [
  | inl failed ↦ s
  | inr (o, e) ↦ record { last = o.tables; run = Run.next s.run (Step.begin now e) }
]
act (Act.detect now) s = elim (Option-cases (Detect.detect now s.last).1) [
  | inl failed ↦ s
  | inr (out, e) ↦ record {
    last = (Detect.detect now s.last).0;
    run = Run.next s.run (Step.detect now (λ i. ((Detect.detect now s.last).0, e i)));
  }
]
act (Act.heartbeat now i m) s = record {
  last = (Assign.heartbeat now i s.last).tables;
  run = Run.next s.run (Step.heartbeat now i m);
}
act (Act.request now i m) s = record {
  last = (Assign.request now i s.last).tables;
  run = Run.next s.run (Step.request now i m);
}
act (Act.result now i k epoch value m lt) s = record {
  last = (commit_result now (Assign.read_sender i s.last) i k epoch value s.last).tables;
  run = Run.next s.run (Step.commit now (Assign.read_sender i s.last) i k epoch value m lt);
}

acts : List Act → Reached → Reached
acts [] s = s
acts (a ∷ as') s = acts as' (act a s)

for_each : ((i : ℕ) → IsMember i → Act) → List Act
for_each f =
    f 1 (omega arith)
    ∷ f 2 (omega arith)
    ∷ f 3 (omega arith)
    ∷ f 4 (omega arith)
    ∷ f 5 (omega arith)
    ∷ f 6 (omega arith)
    ∷ f 7 (omega arith)
    ∷ f 8 (omega arith)
    ∷ f 9 (omega arith)
    ∷ f 10 (omega arith)
    ∷ []

-- All are registered, the calculation runs, worker 1 has task 0 and worker 2 has finished task 1.
working : Reached
unfolding Option-cases acts act for_each Register.hello Register.ring_ok Register.open_ring
    Register.set_detector Register.begin Register.reset_hbs Assign.heartbeat Assign.request
    Assign.commit_result Assign.read_sender range_from
working =
    acts
      (Act.begin 0
        ∷ Act.switch_on
        ∷ Act.request 1 1 (omega arith)
        ∷ Act.request 2 2 (omega arith)
        ∷ Act.result 900 2 1 1 8392 (omega arith) (omega arith)
        ∷ [])
      (acts (for_each Act.ring_ok)
        (act Act.open_ring (acts (for_each Act.hello) (record { last = init; run = Run.here }))))

-- All but worker 1 have sent a heartbeat after 4 seconds.
silent : Reached
unfolding working
silent =
    acts
      (Act.heartbeat 4000 2 (omega arith)
        ∷ Act.heartbeat 4000 3 (omega arith)
        ∷ Act.heartbeat 4000 4 (omega arith)
        ∷ Act.heartbeat 4000 5 (omega arith)
        ∷ Act.heartbeat 4000 6 (omega arith)
        ∷ Act.heartbeat 4000 7 (omega arith)
        ∷ Act.heartbeat 4000 8 (omega arith)
        ∷ Act.heartbeat 4000 9 (omega arith)
        ∷ Act.heartbeat 4000 10 (omega arith)
        ∷ [])
      working

some_of : {A : Type 0} (o : Option A) → is_some o ≡ true → (a : A) × (o ≡ some a)
some_of o h = ground arith

detected : is_some (Detect.detect 5000 silent.last).1 ≡ true
unfolding silent Detect.detect Detect.sweep Detect.bury Detect.judged Detect.judge_all Detect.judge
    Detect.next_alive Detect.ring_order Detect.scan timed_out Detect.falls_silent
detected = refl

report : (out : List Event × List Takeover) × ((Detect.detect 5000 silent.last).1 ≡ some out)
report = some_of (Detect.detect 5000 silent.last).1 detected

-- The detector declares worker 1 dead after 5 seconds.
taken : Reached
taken = record {
  last = (Detect.detect 5000 silent.last).0;
  run =
      Run.next silent.run
        (Step.detect 5000 (λ i. ((Detect.detect 5000 silent.last).0, report.1 i)));
}

ends_in_order_example :
    let (u, out) = Detect.detect 99999 taken.last in
    IsValid taken.last
    × (((is_some out ≡ true) × IsValid u) ⊎ ((is_some out ≡ false) × IsOrdered u × NoneLeft u))
ends_in_order_example = ends_in_order IsValid-init taken.run 99999

commit_once_example :
    ((working.last.tasks 1).commit_count ≡ 1)
    × ((Assign.heartbeat 4000 3 working.last).tables.tasks 1 ≡ working.last.tasks 1)
unfolding working
commit_once_example =
    commit_once working.last (Assign.heartbeat 4000 3 working.last).tables 1 working.run
      (Run.next Run.here (Step.heartbeat 4000 3 (omega arith))) (omega arith) refl

detect-health_example :
    ((Detect.detect 5000 silent.last).0.workers 1).health ≡ verdict 5000 (silent.last.workers 1)
unfolding silent
detect-health_example = detect-health 5000 1 silent.last refl (omega arith)

detect_hands_over_example : HandedOver 1 0 silent.last (Detect.detect 5000 silent.last).0
unfolding silent timed_out
detect_hands_over_example =
    detect_hands_over 5000 1 0 silent.last refl detected (omega arith) (omega arith) refl refl

no_commit_after_takeover_example :
    let o =
      commit_result 6000
        (record { is_gone = false; rejoins = 0; rejoined_as = none })
        1
        0
        1
        9592
        taken.last in
    (o.reply ≢ some (ack 0))
    × (o.tables.tasks ≡ taken.last.tasks)
    × (o.tables.done_count ≡ taken.last.done_count)
unfolding silent taken timed_out
no_commit_after_takeover_example =
    no_commit_after_takeover 5000 1 0 silent.last taken.last taken.last silent.run
      (λ i. ((Detect.detect 5000 silent.last).0, report.1 i)) refl (omega arith) (omega arith) refl
      refl Run.here 6000 (record { is_gone = false; rejoins = 0; rejoined_as = none }) 9592

Reach-verify_example : verify silent.last ≡ (
    (silent.last.done_count == task_count)
    && (total value_weight task_count silent.last.tasks == expected_prime_count))
Reach-verify_example = Reach-verify silent.last silent.run

abbrev first_sender : Sender
first_sender = record { is_gone = false; rejoins = 0; rejoined_as = none }

commit_result-ack_example :
    ((commit_result 900 first_sender 1 0 1 9592 silent.last).reply ≡ some (ack 0))
    ↔ IsCurrent first_sender 1 1 (silent.last.tasks 0)
commit_result-ack_example = commit_result-ack 900 first_sender 1 0 1 9592 silent.last

request_lem_example :
    Exhausted silent.last (Assign.request 4500 3 silent.last)
    ⊎ ((k : ℕ) × Gave silent.last 3 k (Assign.request 4500 3 silent.last))
unfolding silent
request_lem_example = request_lem silent.last 4500 3 silent.run refl refl

next_alive_lem_example :
    Target 1 silent.last.workers (omega arith) (next_alive 1 silent.last.workers)
next_alive_lem_example = next_alive_lem 1 silent.last.workers (omega arith)
