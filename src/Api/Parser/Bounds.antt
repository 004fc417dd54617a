-- ===== src/Api/Parser/Bounds.antt =====
-- What the parsed fields satisfy, and the round trip of ack IDs.
use deltio.Prelude.{Option, arith, negsuc, none, pos, refl, some, ℕ, ℤ, ◌<◌, ◌^◌, ◌≡◌, ◌≤◌, nat_eq}
use deltio.Results.{ok, >>=-eq-ok}
use deltio.Text.Decimal.{decimal}
use deltio.Text.Number.{parse_u64-decimal}
use deltio.Subscriptions.Policies.{RetryPolicy, DeadLetterPolicy}
use deltio.Subscriptions.Info.{SubscriptionInfo}
use deltio.Api.Proto.{DurationProto, RetryPolicyProto, DeadLetterPolicyProto}
use deltio.Api.Parser.Fields.{
  from_secs, parse_ack_id, parse_retry_policy, parse_dead_letter_policy, topic_name_argument,
  parse_max_delivery_attempts, parse_message_retention_duration, parse_create_ack_deadline,
  parse_deadline_extension_duration,
}

-- An ack ID, a 64-bit word, that a client sends back as it got it is read as the same ack ID.
pub parse_ack_id-decimal : (id : ℕ) → id < 2 ^ 64 → parse_ack_id (decimal id) ≡ ok id
unfolding parse_ack_id
parse_ack_id-decimal id small = rw (parse_u64-decimal id small) refl

abbrev pub RetryIsValid : Option RetryPolicy → Type 0
RetryIsValid none = Unit
RetryIsValid (some p) =
    (p.minimum_backoff ≤ p.maximum_backoff) × (p.maximum_backoff ≤ from_secs 600)

abbrev pub DeadLetterIsValid : Option DeadLetterPolicy → Type 0
DeadLetterIsValid none = Unit
DeadLetterIsValid (some p) = (5 ≤ p.max_delivery_attempts) × (p.max_delivery_attempts ≤ 100)

abbrev pub RetentionIsValid : Option ℕ → Type 0
RetentionIsValid none = Unit
RetentionIsValid (some d) = (from_secs 600 ≤ d) × (d ≤ from_secs 604_800)

-- The bounds of the settings that the parsers enforce. The documented maximum of the ack deadline,
-- ten minutes, is not among them.
pub record SettingsInBounds (info : SubscriptionInfo) : Type 0 where
  pub ack_deadline : from_secs 10 ≤ info.ack_deadline
  pub retry_policy : RetryIsValid info.retry_policy
  pub dead_letter_policy : DeadLetterIsValid info.dead_letter_policy
  pub retention : RetentionIsValid info.message_retention_duration

pub parse_create_ack_deadline_bound : (n : ℤ) → from_secs 10 ≤ parse_create_ack_deadline n
unfolding parse_create_ack_deadline
parse_create_ack_deadline_bound (pos n) = ground arith
parse_create_ack_deadline_bound (negsuc n) = omega arith

pub parse_retry_policy-IsValid :
    (p : RetryPolicyProto) {r : RetryPolicy} → parse_retry_policy p ≡ ok r → RetryIsValid (some r)
unfolding parse_retry_policy
parse_retry_policy-IsValid p h = ground arith

parse_max_delivery_attempts_bounds :
    (n : ℤ) {k : ℕ} → parse_max_delivery_attempts n ≡ ok k → (5 ≤ k) × (k ≤ 100)
unfolding parse_max_delivery_attempts
parse_max_delivery_attempts_bounds (pos n) h = ground arith
parse_max_delivery_attempts_bounds (negsuc n) h = absurd (cc)

pub parse_dead_letter_policy-IsValid :
    (p : DeadLetterPolicyProto) {d : DeadLetterPolicy}
    → parse_dead_letter_policy p ≡ ok d
    → DeadLetterIsValid (some d)
unfolding parse_dead_letter_policy
parse_dead_letter_policy-IsValid p h =
    let (topic, _, h₁) = >>=-eq-ok (topic_name_argument p.dead_letter_topic) _ h in
    let (n, parsed, h₂) = >>=-eq-ok (parse_max_delivery_attempts p.max_delivery_attempts) _ h₁ in
    ground (arith, parse_max_delivery_attempts_bounds p.max_delivery_attempts parsed)

pub parse_message_retention_duration-IsValid :
    (d : DurationProto) {r : ℕ}
    → parse_message_retention_duration d ≡ ok r
    → RetentionIsValid (some r)
unfolding parse_message_retention_duration
parse_message_retention_duration-IsValid d h = ground arith

parse_deadline_extension_duration_bounds :
    (n : ℤ) {d : ℕ}
    → parse_deadline_extension_duration n ≡ ok (some d)
    → (0 < d) × (d ≤ from_secs 600)
unfolding parse_deadline_extension_duration
parse_deadline_extension_duration_bounds (pos n) h = ground arith
parse_deadline_extension_duration_bounds (negsuc n) h = absurd (cc)
