-- ===== src/Coordinator/History.antt =====
-- Finished tasks and epochs in the course of a run.
use data_communication.Prelude.{
  ℕ, ◌-◌, ◌≤◌, ◌<◌, ◌≡◌, ◌≢◌, refl, sym, ap, subst, ◌∙◌, inl, inr, true, false, ◌||◌, not, List, [],
  ◌∷◌, if◌then◌else◌, arith, Bool-cases,
}
use data_communication.Coordinator.State.{Tables, Task, task_count}
use data_communication.Coordinator.Register.{
  hello, ring_ok, open_ring, begin, set_detector, is_running,
}
use data_communication.Coordinator.Assign.{
  is_dead, is_done, heartbeat, hand_out, request, Sender, commit_result, rejoin,
}
use data_communication.Coordinator.Detect.{
  is_held_by, is_off, hand_over, bury, newly_dead, judged, dead_ids, detect,
}
use data_communication.Coordinator.Summary.{is_pending}
use data_communication.Coordinator.Steps.{Step, Run}
use data_communication.Coordinator.Invariant.{IsValid}
use data_communication.Coordinator.Bury.{
  bury-tasks, sweep_relation, swept, detect_on, detect_off, judged-AllDead,
}
use data_communication.Coordinator.Keeps.{Run-IsValid}
use data_communication.Coordinator.Scan.{uncons-range_from}

-- A task that is done stays as it is; its epoch never falls; what was handed out stays so.
pub record Advances (a b : Task) : Type 0 where
  pub frozen : is_done a.state ≡ true → b ≡ a
  pub rising : a.epoch ≤ b.epoch
  pub handed : is_pending a.state ≡ false → is_pending b.state ≡ false

pub Advances-refl : (a : Task) → Advances a a
Advances-refl a = record { frozen = λ h. refl; rising = omega arith; handed = λ h. h }

pub Advances-trans : {a b c : Task} → Advances a b → Advances b c → Advances a c
Advances-trans {a} {b} {c} p q = record {
  frozen = λ h. ground (arith, p.frozen h, q.frozen);
  rising = omega (arith, p.rising, q.rising);
  handed = λ h. q.handed (p.handed h);
}

abbrev pub AllAdvance : Tables → Tables → Type 0
AllAdvance t u = (k : ℕ) → k < task_count → Advances (t.tasks k) (u.tasks k)

same_tasks : (t u : Tables) → u.tasks ≡ t.tasks → AllAdvance t u
same_tasks t u e k lt =
    subst (λ ts. Advances (t.tasks k) (ts k)) (sym e) (Advances-refl (t.tasks k))

-- The first task of the queue is a task that was never handed out.
pub head-pending :
    (k : ℕ) (rest : List ℕ) (t : Tables)
    → t.queue ≡ k ∷ rest
    → IsValid t
    → (k < task_count) × (is_pending (t.tasks k).state ≡ true) × ((t.tasks k).epoch ≡ 0)
head-pending k rest t e v = ground (
  arith,
  v.next_le,
  uncons-range_from k v.next (task_count - v.next) rest (sym e ∙ v.queued),
  v.waiting k,
  v.sound k,
)

hand_out-Advances :
    (now i : ℕ) (q : List ℕ) (t : Tables)
    → t.queue ≡ q
    → IsValid t
    → AllAdvance t (hand_out now i q t).tables
unfolding hand_out
hand_out-Advances now i [] t e v k lt = Advances-refl (t.tasks k)
hand_out-Advances now i (j ∷ rest) t e v k lt = record {
  frozen = λ h. ground (arith, head-pending j rest t e v);
  rising = ground (arith, head-pending j rest t e v);
  handed = λ h. ground (arith, head-pending j rest t e v);
}

request-Advances : (now i : ℕ) (t : Tables) → IsValid t → AllAdvance t (request now i t).tables
unfolding request
request-Advances now i t v k lt =
    elim (Bool-cases (not (is_running t.phase) || is_dead (t.workers i).health)) [
      | inl refused ↦ rw refused (Advances-refl (t.tasks k))
      | inr open_to ↦ rw open_to (hand_out-Advances now i t.queue t refl v k lt)
    ]

commit_result-Advances :
    (now : ℕ) (s : Sender) (i j epoch value : ℕ) (t : Tables)
    → j < task_count
    → IsValid t
    → AllAdvance t (commit_result now s i j epoch value t).tables
unfolding commit_result
commit_result-Advances now s i j epoch value t lt v k l = record {
  frozen = λ h. ground arith;
  rising = ground arith;
  handed = λ h. ground arith;
}

hand_over-Advances :
    (source target : ℕ) (a : Task)
    → Advances a (if is_held_by source a then hand_over target a else a)
hand_over-Advances source target a = record {
  frozen = λ h. ground arith;
  rising = ground arith;
  handed = λ h. ground arith;
}

bury-Advances :
    (now : ℕ) (dead_now : List ℕ) (source target : ℕ) (t : Tables)
    → source ≢ target
    → AllAdvance t (bury now dead_now source target t).0
bury-Advances now dead_now source target t ne k lt =
    rw (bury-tasks now dead_now source target t k ne lt)
      (hand_over-Advances source target (t.tasks k))

detect-Advances : (now : ℕ) (t : Tables) → AllAdvance t (detect now t).0
detect-Advances now t k lt = elim (Bool-cases (is_off t)) [
  | inl off ↦ rw (detect_off now t off) (Advances-refl (t.tasks k))
  | inr on ↦ rw (detect_on now t on) (
      unfold swept judged in
      sweep_relation now (dead_ids (judged now t).workers) AllAdvance
        (λ t k lt. Advances-refl (t.tasks k)) (λ t u v p q k lt. Advances-trans (p k lt) (q k lt))
        (λ source target t ne found. bury-Advances now _ source target t ne)
        (newly_dead now t.workers) (judged now t) (judged-AllDead now t) k lt)
]

Step-Advances : {t u : Tables} → IsValid t → Step t u → AllAdvance t u
Step-Advances {t} {u} v (Step.hello c i ip port m) = same_tasks t u (unfold hello in ground arith)
Step-Advances {t} {u} v (Step.ring_ok i m) = same_tasks t u (unfold ring_ok in ground arith)
Step-Advances {t} {u} v (Step.open_ring {to = to} e) =
    same_tasks t u (unfold open_ring in ground arith)
Step-Advances {t} {u} v (Step.begin now {o = o} e) = same_tasks t u (unfold begin in ground arith)
Step-Advances {t} {u} v (Step.set_detector on) = same_tasks t u (unfold set_detector in refl)
Step-Advances {t} {u} v (Step.heartbeat now i m) = same_tasks t u (unfold heartbeat in ground arith)
Step-Advances {t} {u} v (Step.request now i m) = request-Advances now i t v
Step-Advances {t} {u} v (Step.commit now s i k epoch value m lt) =
    commit_result-Advances now s i k epoch value t lt v
Step-Advances {t} {u} v (Step.rejoin now i m) = same_tasks t u (unfold rejoin in ground arith)
Step-Advances {t} {u} v (Step.detect now {out = out} e) =
    subst (AllAdvance t) (ap (λ p. p.0) e) (detect-Advances now t)

pub Run-Advances : {s t : Tables} → IsValid s → Run s t → AllAdvance s t
Run-Advances {s} v Run.here k lt = Advances-refl (s.tasks k)
Run-Advances v (Run.next r st) k lt =
    Advances-trans (Run-Advances v r k lt) (Step-Advances (Run-IsValid v r) st k lt)
