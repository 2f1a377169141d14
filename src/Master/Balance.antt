-- ===== src/Master/Balance.antt =====
-- HW1/master.py: what the book of the tasks keeps true of each task, and the changes that keep it.
use data_communication.Prelude.{
  ℕ, suc, ◌+◌, ◌≡◌, refl, sym, ap, subst, ◌∙◌, inl, inr, Bool, true, false, ◌&&◌, not, Option, none,
  some, List, [], ◌∷◌, ◌++◌, length, elem, is_some, ◌==◌, ==→eq, ==_refl, if◌then◌else◌, update,
  Bool-cases, arith,
}
use data_communication.Master.State.{Book, Task, TaskState, is_waiting, is_done, on_task}
use data_communication.Master.Life.{Event, Change, Changes}
use data_communication.Master.Assign
use data_communication.Master.Assign.{first_waiting, tail, pop_waiting}
use data_communication.Master.Process
use data_communication.Master.Process.{ResultStatus, finish_task, retry_task}
use data_communication.Master.Transfer.{move_task}

unfoldable pub count : ℕ → List ℕ → ℕ
count k [] = 0
count k (x ∷ xs) = if x == k then suc (count k xs) else count k xs

count-append :
    (k : ℕ) (xs : List ℕ) (x : ℕ) → count k (xs ++ x ∷ []) ≡ count k xs + (if x == k then 1 else 0)
unfolding count
count-append k [] x = ground arith
count-append k (y ∷ xs) x = ground (arith, count-append k xs x)

-- The head of a list stands in it once more than in its tail.
count-first :
    (k key : ℕ) (xs : List ℕ)
    → first_waiting [] xs ≡ some key
    → count k (tail xs) + (if key == k then 1 else 0) ≡ count k xs
unfolding count
count-first k key [] e = absurd (ground (arith, e))
count-first k key (x ∷ xs) e = ground (arith, e)

first-new :
    (key : ℕ) (retry new : List ℕ)
    → (length retry == 0) ≡ true
    → first_waiting retry new ≡ some key
    → first_waiting [] new ≡ some key
first-new key [] new empty e = e
first-new key (x ∷ retry) new empty e = absurd (ground (arith, empty))

first-retry :
    (key : ℕ) (retry new : List ℕ)
    → (length retry == 0) ≡ false
    → first_waiting retry new ≡ some key
    → first_waiting [] retry ≡ some key
first-retry key [] new more e = absurd (ground (arith, more))
first-retry key (x ∷ retry) new more e = e

pop-new :
    (b : Book)
    → (length b.retry_tasks == 0) ≡ true
    → pop_waiting b ≡ record b { new_tasks = tail b.new_tasks }
pop-new b empty = rw empty refl

pop-retry :
    (b : Book)
    → (length b.retry_tasks == 0) ≡ false
    → pop_waiting b ≡ record b { retry_tasks = tail b.retry_tasks }
pop-retry b more = rw more refl

-- How often the task `k` stands in the two queues.
abbrev pub queued : ℕ → Book → ℕ
queued k b = count k b.new_tasks + count k b.retry_tasks

-- What is true of a task with the value `value`, which is among the keys or not.
abbrev pub Holds : Bool → ℕ → Task → ℕ → Option ℕ → Type 0
Holds is_key value t times completed =
    (times ≡ (if is_key && is_waiting t.state then 1 else 0))
    × (is_some t.owner ≡ not (is_waiting t.state))
    × (completed ≡ (if is_done t.state then some value else none))
    × (t.value ≡ value)

module _ (keys : List ℕ) (values : ℕ → ℕ) where
  -- Each task is in the queues once while it waits and else not at all; it has an owner unless it
  -- waits; its original value is stored when it is done, and nothing before.
  abbrev pub IsBalanced : Book → Type 0
  IsBalanced b =
      (b.keys ≡ keys)
      × ((k : ℕ) → Holds (elem k keys) (values k) (b.tasks k) (queued k b) (b.completed k))

  -- A change of the task `key` to `t`.
  change-IsBalanced :
      (key : ℕ) (t : Task) (b b' : Book)
      → IsBalanced b
      → b'.keys ≡ b.keys
      → ((k : ℕ) → b'.tasks k ≡ update b.tasks key t k)
      → Holds (elem key keys) (values key) t (queued key b') (b'.completed key)
      → ((k : ℕ)
          → (key == k) ≡ false
          → (queued k b' ≡ queued k b) × (b'.completed k ≡ b.completed k))
      → IsBalanced b'
  change-IsBalanced key t b b' (same_keys, h) keys' tasks' at_key others = (
    keys' ∙ same_keys,
    λ k. elim (Bool-cases (key == k)) [
      | inl same ↦
          subst (λ k. Holds (elem k keys) (values k) (b'.tasks k) (queued k b') (b'.completed k))
            (==→eq key k same) (rw (tasks' key, ==_refl key) at_key)
      | inr other ↦ rw (tasks' k, other, (others k other).0, (others k other).1) (h k)
    ],
  )

  -- A change of a task that leaves its state, and leaves it owned or not.
  pub on_task-IsBalanced :
      (key : ℕ) (f : Task → Task) (b : Book)
      → IsBalanced b
      → (f (b.tasks key)).state ≡ (b.tasks key).state
      → is_some (f (b.tasks key)).owner ≡ is_some (b.tasks key).owner
      → (f (b.tasks key)).value ≡ (b.tasks key).value
      → IsBalanced (on_task key f b)
  on_task-IsBalanced key f b v same_state same_owner same_value =
      change-IsBalanced key (f (b.tasks key)) b (on_task key f b) v refl (λ k. refl)
        (rw (same_state, same_owner, same_value) (v.1 key)) (λ k other. (refl, refl))

  -- A task that does not wait goes from one state to another in which it does not either, nor is it done.
  pub advance-IsBalanced :
      (key : ℕ) (f : Task → Task) (b : Book)
      → IsBalanced b
      → is_waiting (b.tasks key).state ≡ false
      → is_done (b.tasks key).state ≡ false
      → is_waiting (f (b.tasks key)).state ≡ false
      → is_done (f (b.tasks key)).state ≡ false
      → is_some (f (b.tasks key)).owner ≡ is_some (b.tasks key).owner
      → (f (b.tasks key)).value ≡ (b.tasks key).value
      → IsBalanced (on_task key f b)
  advance-IsBalanced key f b v runs undone runs' undone' same_owner same_value =
      change-IsBalanced key (f (b.tasks key)) b (on_task key f b) v refl (λ k. refl)
        (
          ground (arith, (v.1 key).0, runs, runs'),
          same_owner ∙ (v.1 key).1 ∙ rw (runs, runs') refl,
          (v.1 key).2 ∙ rw (undone, undone') refl,
          same_value ∙ (v.1 key).3,
        )
        (λ k other. (refl, refl))

  -- A waiting task is given to a worker, and taken out of its queue.
  given-IsBalanced :
      (key i : ℕ) (b : Book) (new retry : List ℕ)
      → ((k : ℕ) → count k new + count k retry + (if key == k then 1 else 0) ≡ queued k b)
      → IsBalanced b
      → IsBalanced (on_task key (Assign.give i) (record b { new_tasks = new; retry_tasks = retry }))
  given-IsBalanced key i b new retry less v =
      let waits : is_waiting (b.tasks key).state ≡ true =
        ground (arith, (v.1 key).0, less key, ==_refl key) in
      let present : elem key keys ≡ true = ground (arith, (v.1 key).0, less key, ==_refl key) in
      change-IsBalanced key (Assign.give i (b.tasks key)) b
        (on_task key (Assign.give i) (record b { new_tasks = new; retry_tasks = retry })) v refl
        (λ k. refl)
        (
          ground (arith, (v.1 key).0, less key, ==_refl key, waits, present),
          refl,
          (v.1 key).2 ∙ ground (arith, waits),
          (v.1 key).3,
        )
        (λ k other. (ground (arith, less k, other), refl))

  assigned-IsBalanced :
      (key i : ℕ) (b : Book)
      → first_waiting b.retry_tasks b.new_tasks ≡ some key
      → IsBalanced b
      → IsBalanced (on_task key (Assign.give i) (pop_waiting b))
  assigned-IsBalanced key i b e v = elim (Bool-cases (length b.retry_tasks == 0)) [
    | inl empty ↦
        subst (λ p. IsBalanced (on_task key (Assign.give i) p)) (sym (pop-new b empty))
          (given-IsBalanced key i b (tail b.new_tasks) b.retry_tasks
            (λ k. omega (
              arith,
              count-first k key b.new_tasks (first-new key b.retry_tasks b.new_tasks empty e),
            ))
            v)
    | inr more ↦
        subst (λ p. IsBalanced (on_task key (Assign.give i) p)) (sym (pop-retry b more))
          (given-IsBalanced key i b b.new_tasks (tail b.retry_tasks)
            (λ k. omega (
              arith,
              count-first k key b.retry_tasks (first-retry key b.retry_tasks b.new_tasks more e),
            ))
            v)
  ]

  declined-IsBalanced :
      (key : ℕ) (f : Task → Task) (b : Book)
      → elem key b.keys ≡ true
      → is_waiting (b.tasks key).state ≡ false
      → is_done (b.tasks key).state ≡ false
      → is_waiting (f (b.tasks key)).state ≡ true
      → is_some (f (b.tasks key)).owner ≡ false
      → (f (b.tasks key)).value ≡ (b.tasks key).value
      → IsBalanced b
      → IsBalanced (record (on_task key f b) { retry_tasks = b.retry_tasks ++ key ∷ [] })
  declined-IsBalanced key f b there runs undone waits ownerless same_value v =
      change-IsBalanced key (f (b.tasks key)) b
        (record (on_task key f b) { retry_tasks = b.retry_tasks ++ key ∷ [] }) v refl (λ k. refl)
        (
          rw (waits, sym (ap (elem key) v.0), there)
              (ground (arith, (v.1 key).0, runs, count-append key b.retry_tasks key, ==_refl key)),
          ownerless ∙ rw waits refl,
          (v.1 key).2 ∙ ground (arith, undone, waits),
          same_value ∙ (v.1 key).3,
        )
        (λ k other. (ground (arith, count-append k b.retry_tasks key, other), refl))

  succeeded-IsBalanced :
      (key : ℕ) (b : Book)
      → is_waiting (b.tasks key).state ≡ false
      → IsBalanced b
      → IsBalanced (finish_task key b)
  succeeded-IsBalanced key b runs v =
      change-IsBalanced key (record (b.tasks key) { state = TaskState.done }) b (finish_task key b)
        v refl (λ k. refl)
        (
          ground (arith, (v.1 key).0, runs),
          (v.1 key).1 ∙ rw runs refl,
          rw (==_refl key) (ap some (v.1 key).3),
          (v.1 key).3,
        )
        (λ k other. (refl, rw other refl))

  pub Change-IsBalanced :
      {i : ℕ} {e : Event} {b b' : Book} → Change i b e b' → IsBalanced b → IsBalanced b'
  Change-IsBalanced {b} (Change.assigned key j h) v = assigned-IsBalanced key j b h v
  Change-IsBalanced {b} (Change.numbered key request_id s) v =
      on_task-IsBalanced key (Assign.number request_id) b v refl refl refl
  Change-IsBalanced {b} (Change.taken key attempt request_id at owns s named) v =
      advance-IsBalanced key (Assign.accept at) b v (ground (arith, s)) (ground (arith, s)) refl
        refl refl refl
  Change-IsBalanced {b} (Change.declined key attempt request_id (there, owner, times) s named) v =
      declined-IsBalanced key Assign.wait_again b there (ground (arith, s)) (ground (arith, s)) refl
        refl refl v
  Change-IsBalanced {b} (Change.started key attempt now duration owns s limits) v =
      advance-IsBalanced key (Process.start now duration) b v (ground (arith, s))
        (ground (arith, s)) refl refl refl refl
  Change-IsBalanced {b} (Change.ended key attempt duration at owns s) v =
      on_task-IsBalanced key (Process.finish_at at) b v refl refl refl
  Change-IsBalanced {b} (Change.succeeded key attempt value owns (runs, undone) named) v =
      succeeded-IsBalanced key b runs v
  Change-IsBalanced {i} {b}
        (Change.failed key attempt value (there, owner, times) (runs, undone) named) v =
      declined-IsBalanced key (Process.fail_on i) b there runs undone refl refl refl v
  Change-IsBalanced {b} (Change.moved key attempt target items started_at arrived_at listed owns s)
        v =
      on_task-IsBalanced key (move_task target started_at arrived_at) b v refl
        (sym ((v.1 key).1 ∙ ground (arith, s))) refl

  pub Changes-IsBalanced :
      {i : ℕ} {e : Event} {b b' : Book} → Changes i e b b' → IsBalanced b → IsBalanced b'
  Changes-IsBalanced Changes.same v = v
  Changes-IsBalanced (Changes.then cs c) v = Change-IsBalanced c (Changes-IsBalanced cs v)
