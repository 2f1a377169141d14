-- ===== src/Coordinator/Scan.antt =====
-- What the search for a target and the loops of `detect` compute.
use data_communication.Prelude.{
  ℕ, zero, suc, ◌+◌, ◌-◌, ◌<◌, ◌≡◌, ◌≢◌, refl, Bool, true, false, ◌&&◌, ◌||◌, some, List, [], ◌∷◌,
  range_from, elem, leb, ltb, if◌then◌else◌, keep_if, All, arith, update,
}
use data_communication.Coordinator.State.{Task, Worker, Health, worker_ids}
use data_communication.Coordinator.Assign.{is_dead, is_suspect}
use data_communication.Coordinator.Detect.{
  is_alive, ring_order, first_with, next_alive, timed_out, judge, judge_all, newly_dead, is_held_by,
  hand_over, take_over, scan, task_ids,
}
use data_communication.Coordinator.Invariant.{IsMember}

pub elem-range_from : (k a n : ℕ) → elem k (range_from a n) ≡ (leb a k && ltb k (a + n))
unfolding range_from
elem-range_from k a zero = ground arith
elem-range_from k a (suc n) = ground (arith, elem-range_from k (suc a) n)

pub elem-keep_if : (p : ℕ → Bool) (k : ℕ) (xs : List ℕ) → elem k (keep_if p xs) ≡ (p k && elem k xs)
elem-keep_if p k [] = ground arith
elem-keep_if p k (x ∷ xs) = ground (arith, elem-keep_if p k xs)

-- Every member is a key, and no other number.
pub elem-worker_ids : (i : ℕ) → elem i worker_ids ≡ (leb 1 i && leb i 10)
elem-worker_ids i = ground arith

ring_order-IsMember : (source : ℕ) → All IsMember (ring_order source)
unfolding ring_order
ring_order-IsMember source = omega arith

first_with_lem :
    (p : Health → Bool) (ws : ℕ → Worker) (is : List ℕ) (j : ℕ)
    → All IsMember is
    → first_with p ws is ≡ some j
    → IsMember j × (p (ws j).health ≡ true)
first_with_lem p ws [] j h e = cc
first_with_lem p ws (i ∷ is) j h e = ground (arith, first_with_lem p ws is j h.1)

-- A target is a member that has not been declared dead.
pub next_alive-not_dead :
    (source : ℕ) (ws : ℕ → Worker) (j : ℕ)
    → next_alive source ws ≡ some j
    → IsMember j × (is_dead (ws j).health ≡ false)
unfolding next_alive
next_alive-not_dead source ws j e = ground (
  arith,
  first_with_lem is_alive ws (ring_order source) j (ring_order-IsMember source),
  first_with_lem is_suspect ws (ring_order source) j (ring_order-IsMember source),
)

judge_idem : (now : ℕ) (w : Worker) → judge now (judge now w) ≡ judge now w
unfolding judge
judge_idem now w = ground arith

-- Each worker is judged by its own fields alone.
pub judge_all_lem :
    (now : ℕ) (is : List ℕ) (ws : ℕ → Worker) (i : ℕ)
    → judge_all now is ws i ≡ (if elem i is then judge now (ws i) else ws i)
unfolding judge_all
judge_all_lem now [] ws i = refl
judge_all_lem now (j ∷ is) ws i =
    ground (arith, judge_all_lem now is (update ws j (judge now (ws j))) i, judge_idem now (ws i))

-- The dead after the first two loops were dead before, or are in `newly_dead`.
pub judge-dead :
    (now i : ℕ) (ws : ℕ → Worker)
    → IsMember i
    → is_dead (judge_all now worker_ids ws i).health
      ≡ (is_dead (ws i).health || elem i (newly_dead now ws))
unfolding judge
judge-dead now i ws m = ground (
  arith,
  judge_all_lem now worker_ids ws i,
  elem-keep_if (λ j. timed_out now (ws j)) i worker_ids,
  elem-worker_ids i,
)

-- A scan hands each task of the list that `source` holds to `target`, once.
pub scan_lem :
    (source target : ℕ) (ks : List ℕ) (ts : ℕ → Task) (k : ℕ)
    → source ≢ target
    → (scan source target ks ts).0 k
      ≡ (if elem k ks && is_held_by source (ts k) then hand_over target (ts k) else ts k)
unfolding scan
scan_lem source target [] ts k h = refl
scan_lem source target (j ∷ ks) ts k h =
    ground (arith, scan_lem source target ks (take_over source target j ts) k h)

-- Over all the tasks.
pub scan-task_ids :
    (source target : ℕ) (ts : ℕ → Task) (k : ℕ)
    → source ≢ target
    → k < 1000
    → (scan source target task_ids ts).0 k
      ≡ (if is_held_by source (ts k) then hand_over target (ts k) else ts k)
scan-task_ids source target ts k h lt =
    ground (arith, scan_lem source target task_ids ts k h, elem-range_from k 0 1000)

-- The queue, taken apart.
pub uncons-range_from :
    (k a n : ℕ) (rest : List ℕ)
    → k ∷ rest ≡ range_from a n
    → (k ≡ a) × (0 < n) × (rest ≡ range_from (suc a) (n - 1))
unfolding range_from
uncons-range_from k a zero rest e = cc
uncons-range_from k a (suc n) rest e = ground arith

pub nil-range_from : (a n : ℕ) → [] ≡ range_from a n → n ≡ 0
unfolding range_from
nil-range_from a zero e = refl
nil-range_from a (suc n) e = cc
