-- ===== src/Subscriptions/Pulled.antt =====
-- src/subscriptions/pulled_message.rs, ack_id.rs and deadline_modification.rs. An `AckId` is its
-- value, an `AckDeadline` its time in nanoseconds of the monotonic clock.
use deltio.Prelude.{Option, arith, none, some, ℕ, ◌%◌, ◌*◌, ◌+◌, ◌-◌, ◌/◌, ◌<◌, ◌^◌, ◌≡◌, ◌≤◌}
use deltio.Topics.Message.{TopicMessage}

-- `AckId::next`: a release build wraps.
abbrev pub next_id : ℕ → ℕ
next_id value = (value + 1) % 2 ^ 64

abbrev precision_micros : ℕ
precision_micros = 100_000

abbrev div_ceil : ℕ → ℕ → ℕ
div_ceil a b = (a + b - 1) / b

-- `AckDeadline::new`: whole microseconds since the epoch, rounded up to the next tenth of a second.
unfoldable pub ack_deadline : ℕ → ℕ
ack_deadline time =
    let time_in_micros = (time / 1000) % 2 ^ 64 in
    let rounded_micros = (div_ceil time_in_micros precision_micros * precision_micros) % 2 ^ 64 in
    rounded_micros * 1000

pub record PulledMessage : Type 0 where
  pub message : TopicMessage
  pub ack_id : ℕ
  pub deadline : ℕ
  pub delivery_attempt : ℕ

abbrev pub modify_message_deadline : PulledMessage → ℕ → PulledMessage
modify_message_deadline p new_deadline = record p { deadline = new_deadline }

-- No new deadline is a nack.
pub record DeadlineModification : Type 0 where
  pub ack_id : ℕ
  pub new_deadline : Option ℕ

abbrev pub extend : ℕ → ℕ → DeadlineModification
extend ack_id new_deadline = record { ack_id = ack_id; new_deadline = some new_deadline }

abbrev pub nack : ℕ → DeadlineModification
nack ack_id = record { ack_id = ack_id; new_deadline = none }

-- A deadline lies on a tenth of a second, less than a microsecond before the time it is made from
-- and less than a tenth of a second after it, as long as the clock is far from its end.
pub ack_deadline_bounds :
    (time : ℕ)
    → time < 1000 * (2 ^ 64 - 100_000)
    → (time < ack_deadline time + 1000)
      × (ack_deadline time < time + 100_000_000)
      × (ack_deadline time % 100_000_000 ≡ 0)
unfolding ack_deadline
ack_deadline_bounds time h = (omega arith, omega arith, omega arith)

-- A later time never has an earlier deadline, as long as the clock is far from its end.
ack_deadline_mono :
    (time later : ℕ)
    → time ≤ later
    → later < 1000 * (2 ^ 64 - 100_000)
    → ack_deadline time ≤ ack_deadline later
unfolding ack_deadline
ack_deadline_mono time later le h = omega arith
