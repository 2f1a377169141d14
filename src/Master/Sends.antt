-- ===== src/Master/Sends.antt =====
-- HW1/master.py: what `add_time` and `send` leave alone, and what `send` sends.
use data_communication.Prelude.{
  ℕ, zero, suc, ◌+◌, ◌≡◌, refl, ap, ◌∙◌, inl, inr, ◌∷◌, Bool-cases, Option-cases,
}
use data_communication.Master.State.{Master, Message}
use data_communication.Master.Clock.{first_due, tick, tick_loop, time_left, add_time, send}
-- What `first_due` finds: the next check of one of the workers, at `end` or before; or no check is due.
use data_communication.Master.Ticks.{
  tick_loop-some, tick_loop-none, add_time-ticks, add_time-stopping,
}

-- What happens to the Master within a tick, whatever is asked of it.
tick_loop-keeps :
    {B : Type 0} (f : Master → B)
    → ((due : ℕ × ℕ) (m : Master) → f (tick due m) ≡ f m)
    → (fuel end : ℕ) (m : Master) → f (tick_loop fuel end m) ≡ f m
tick_loop-keeps f keeps zero end m = unfold tick_loop in refl
tick_loop-keeps f keeps (suc fuel) end m =
    elim (Option-cases (first_due end m.worker_ids m.workers)) [
      | inl e ↦ ap f (tick_loop-none (suc fuel) end m e)
      | inr (due, e) ↦
          ap f (tick_loop-some fuel end m due e)
          ∙ tick_loop-keeps f keeps fuel end (tick due m)
          ∙ keeps due m
    ]

add_time-keeps :
    {B : Type 0} (f : Master → B)
    → ((due : ℕ × ℕ) (m : Master) → f (tick due m) ≡ f m)
    → ((now : ℕ) (m : Master) → f (record m { clock = now }) ≡ f m)
    → (seconds : ℕ) (m : Master) → f (add_time seconds m) ≡ f m
add_time-keeps f tick_keeps clock_keeps seconds m = elim (Bool-cases m.stopping) [
  | inl e ↦ ap f (add_time-stopping seconds m e) ∙ clock_keeps (m.clock + seconds) m
  | inr e ↦
      let end = m.clock + seconds in
      let fuel = time_left end m.worker_ids m.workers in
      ap f (add_time-ticks seconds m e)
      ∙ clock_keeps end (tick_loop fuel end m)
      ∙ tick_loop-keeps f tick_keeps fuel end m
]

pub add_time-book : (seconds : ℕ) (m : Master) → (add_time seconds m).book ≡ m.book
unfolding tick
add_time-book seconds m = add_time-keeps (λ m. m.book) (λ due m. refl) (λ now m. refl) seconds m

pub add_time-stays : (seconds : ℕ) (m : Master) → (add_time seconds m).stopping ≡ m.stopping
unfolding tick
add_time-stays seconds m =
    add_time-keeps (λ m. m.stopping) (λ due m. refl) (λ now m. refl) seconds m

pub send-book : (i : ℕ) (message : Message) (m : Master) → (send i message m).0.book ≡ m.book
unfolding send
send-book i message m = add_time-book 1 (record m { message_number = suc m.message_number })

pub send-stays :
    (i : ℕ) (message : Message) (m : Master) → (send i message m).0.stopping ≡ m.stopping
unfolding send
send-stays i message m = add_time-stays 1 (record m { message_number = suc m.message_number })

pub send-completed :
    (i : ℕ) (message : Message) (m : Master) → (send i message m).0.completed_at ≡ m.completed_at
unfolding send tick
send-completed i message m =
    add_time-keeps (λ m. m.completed_at) (λ due m. refl) (λ now m. refl) 1
      (record m { message_number = suc m.message_number })

add_time-outbox : (seconds : ℕ) (m : Master) → (add_time seconds m).outbox ≡ m.outbox
unfolding tick
add_time-outbox seconds m = add_time-keeps (λ m. m.outbox) (λ due m. refl) (λ now m. refl) seconds m

pub send-outbox :
    (i : ℕ) (message : Message) (m : Master)
    → let sent = send i message m in
      sent.0.outbox
      ≡ record { receiver = i; message_id = sent.1; clock = m.clock + 1; message = message }
        ∷ m.outbox
unfolding send
send-outbox i message m =
    let m1 = record m { message_number = suc m.message_number } in
    ap
      (λ o.
        record {
          receiver = i;
          message_id = (send i message m).1;
          clock = m.clock + 1;
          message = message;
        }
        ∷ o)
      (add_time-outbox 1 m1)
