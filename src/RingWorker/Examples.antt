-- ===== src/RingWorker/Examples.antt =====
-- A worker that loses its work, and the theorems applied to it.
use data_communication.Prelude.{
  ℕ, ltb, not, ◌==◌, ◌*◌, ◌≡◌, refl, true, false, none, some, [], ◌∷◌, All, Dict, lookup, insert,
  arith,
}
use data_communication.RingWorker.State
use data_communication.RingWorker.State.{Assignment, Checkpoint, Work, WorkerState, init, valid}
use data_communication.RingWorker.Control
use data_communication.RingWorker.Invariant.{IsValid, Step, Run, Reach}
use data_communication.RingWorker.Keeps.{IsValid-init, Run-keeps-IsValid}
use data_communication.RingWorker.Stale.{never_valid_again, crash_ends_work}
use data_communication.RingWorker.Compute.{
  Sent, Checks, IsHonest, HonestStore, compute, resumed, count_upto, sent_result, compute-IsHonest,
  compute_sends_result,
}

abbrev first_task : Assignment
first_task = record { task = 5; epoch = 1; from_worker = none }

abbrev again : Assignment
again = record { task = 5; epoch = 3; from_worker = some 9 }

abbrev s1 : WorkerState
s1 = (State.start init).0

abbrev s2 : WorkerState
s2 = (State.enqueue first_task none s1).0

-- The worker has taken task 5.
abbrev busy : WorkerState
busy = (State.take_work s2).0

busy_run : Reach busy
busy_run =
    Run.next (Run.next (Run.next Run.here Step.start) (Step.enqueue first_task none)) Step.take_work

abbrev work : Work
work = record {
  ident = 0;
  assignment = first_task;
  generation = 0;
  resume_step = 1;
  sum = 0;
  ckpt_epoch = none;
}

-- A takeover of the same task with a newer epoch.
abbrev outdated : WorkerState
outdated = (State.enqueue again none busy).0

outdated_run : Reach outdated
outdated_run = Run.next busy_run (Step.enqueue again none)

busy_is_valid : valid work busy ≡ true
unfolding valid State.start State.enqueue State.take_work lookup insert
busy_is_valid = refl

Run-keeps-IsValid_example : IsValid outdated
Run-keeps-IsValid_example = Run-keeps-IsValid IsValid-init outdated_run

never_valid_again_example : valid work (Control.restart 50 (Control.crash busy).0).0 ≡ false
unfolding State.start State.enqueue State.take_work lookup insert valid Control.crash
never_valid_again_example =
    never_valid_again work busy (Control.crash busy).0 (Control.restart 50 (Control.crash busy).0).0
      busy_run refl (Run.next Run.here Step.crash) refl (Run.next Run.here (Step.restart 50))

crash_ends_work_example : valid work (Control.restart 50 (Control.crash busy).0).0 ≡ false
unfolding State.start State.enqueue State.take_work lookup insert
crash_ends_work_example =
    crash_ends_work work busy (Control.restart 50 (Control.crash busy).0).0 busy_run refl refl
      (Run.next Run.here (Step.restart 50))

abbrev counts : ℕ → ℕ
counts k = 10 * k

-- The store of the buddy: steps 1 and 2 of task 5 were counted in epoch 1.
abbrev kept : Dict Checkpoint
kept = (5, record { epoch = 1; step = 2; sum = 30 }) ∷ []

kept-HonestStore : HonestStore counts 5 kept
unfolding lookup count_upto
kept-HonestStore c e = ground arith

-- All goes well; and the send of step 4 fails, and the work is not valid from step 6 on.
abbrev steady : ℕ → Checks
steady k = record { valid = true; delayed = true; sent = true }

abbrev disturbed : ℕ → Checks
disturbed k = record { valid = ltb k 6; delayed = true; sent = not (k == 4) }

compute-IsHonest_example : All (IsHonest counts) (compute counts disturbed (resumed 0 0 again kept))
compute-IsHonest_example = compute-IsHonest counts 0 0 again kept kept-HonestStore disturbed

compute_sends_result_example :
    sent_result (compute counts steady (resumed 0 0 again kept)) ≡ some (count_upto counts 10)
compute_sends_result_example =
    compute_sends_result counts 0 0 again kept kept-HonestStore steady ((λ k h. (refl, refl)), refl)

resumed_messages :
    compute counts steady (
      resumed 0 0
        (record { task = 5; epoch = 2; from_worker = some 9 })
        ((5, record { epoch = 1; step = 8; sum = 360 }) ∷ []))
    ≡ Sent.checkpoint 5 2 9 450 ∷ Sent.result 5 2 550 ∷ []
unfolding compute State.resume_from lookup
resumed_messages = refl
