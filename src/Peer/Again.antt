-- ===== src/Peer/Again.antt =====
-- HW1/p2p.py: `clean_tasks` of tasks that are clean, as a worker sends them (HW1/worker.py).
use data_communication.Prelude.{
  ℕ, ◌≤◌, ◌≡◌, refl, ap, false, some, List, [], ◌∷◌, inr, map, length, arith,
}
use data_communication.Wire.Text.{Text}
use data_communication.Peer.Values.{truth, int, real, text, read_clock}
use data_communication.Peer.Clean.{
  RawTask, dict, RawTasks, no_list, tasks, CleanTask, clean_key, clean_value, clean_attempt,
  clean_waiting, clean_retry, is_known, clean_task, clean_all, clean_tasks,
}
use data_communication.Peer.Cleaned.{IsKey, IsCleanTask, AreClean, clean_all-AreClean}

-- The object that is sent for a task.
abbrev pub to_raw : CleanTask → RawTask
to_raw t = dict (record {
  key = some (text t.key);
  value = some (int t.value);
  attempt = some (int t.attempt);
  enqueued_at = some (real t.enqueued_at);
  accumulated_waiting_time = some (real t.accumulated_waiting_time);
  failed_retry = some (truth t.failed_retry);
})

clean_key-key : (k : Text) → IsKey k → clean_key (some (text k)) ≡ inr k
unfolding clean_key
clean_key-key k (long, hex, up) = rw (long, hex) (ap inr up)

clean_value-value : (n : ℕ) → 1 ≤ n → n ≤ 100 → clean_value (some (int n)) ≡ inr n
unfolding clean_value
clean_value-value n low high = ground arith

clean_attempt-attempt : (n : ℕ) → 1 ≤ n → clean_attempt (some (int n)) ≡ inr n
unfolding clean_attempt
clean_attempt-attempt n low = ground arith

clean_task-to_raw :
    (identities : List (Text × ℕ)) (t : CleanTask)
    → IsCleanTask t
    → is_known t.key t.attempt identities ≡ false
    → clean_task identities (to_raw t) ≡ inr t
unfolding clean_task read_clock clean_waiting clean_retry
clean_task-to_raw identities t (key, low, high, attempt) fresh = simp (
  clean_key-key t.key key,
  clean_value-value t.value low high,
  clean_attempt-attempt t.attempt attempt,
  fresh,
)

clean_all-to_raw :
    (identities : List (Text × ℕ)) (ts : List CleanTask)
    → AreClean identities ts
    → clean_all identities (map to_raw ts) ≡ inr ts
unfolding clean_all
clean_all-to_raw identities [] h = refl
clean_all-to_raw identities (t ∷ ts) ((one, others), (fresh, distinct)) =
    rw
      (
        clean_task-to_raw identities t one fresh,
        clean_all-to_raw ((t.key, t.attempt) ∷ identities) ts (others, distinct),
      )
      refl

-- Tasks that `clean_tasks` lets through are not empty in number; each has a key of four hexadecimal
-- digits in upper case, a value from 1 to 100 and an attempt of 1 or more; no two have both key and
-- attempt in common; and sent on as objects they pass again, unchanged.
pub clean_tasks-AreClean :
    (raw : RawTasks) (ts : List CleanTask)
    → clean_tasks raw ≡ inr ts
    → (1 ≤ length ts) × AreClean [] ts × (clean_tasks (tasks (map to_raw ts)) ≡ inr ts)
unfolding clean_tasks
clean_tasks-AreClean no_list ts h = ground arith
clean_tasks-AreClean (tasks []) ts h = ground arith
clean_tasks-AreClean (tasks (raw ∷ raws)) [] h =
    absurd (omega (arith, (clean_all-AreClean [] (raw ∷ raws) [] h).1))
clean_tasks-AreClean (tasks (raw ∷ raws)) (t ∷ ts) h =
    let (clean, same_length) = clean_all-AreClean [] (raw ∷ raws) (t ∷ ts) h in
    (omega arith, clean, clean_all-to_raw [] (t ∷ ts) clean)
