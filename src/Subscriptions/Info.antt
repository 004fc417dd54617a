-- ===== src/Subscriptions/Info.antt =====
-- The data of src/subscriptions/subscription.rs and stats.rs. Durations are nanoseconds.
use deltio.Prelude.{Bool, Bytes, List, Option, false, none, some, ℕ, ◌%◌, ◌+◌, ◌^◌}
use deltio.Topics.Name.{SubscriptionName, TopicName}
use deltio.Topics.Message.{Attributes}
use deltio.Subscriptions.Policies.{RetryPolicy, DeadLetterPolicy}

pub record PushConfigOidcToken : Type 0 where
  pub audience : Bytes
  pub service_account_email : Bytes

pub record PushConfig : Type 0 where
  pub endpoint : Bytes
  pub oidc_token : Option PushConfigOidcToken
  pub attributes : Option Attributes

pub record SubscriptionInfo : Type 0 where
  pub name : SubscriptionName
  pub ack_deadline : ℕ
  pub push_config : Option PushConfig
  pub retry_policy : Option RetryPolicy
  pub dead_letter_policy : Option DeadLetterPolicy
  pub message_retention_duration : Option ℕ
  pub enable_message_ordering : Bool
  pub enable_exactly_once_delivery : Bool
  pub filter : Option Bytes
  pub detached : Bool

abbrev new_info :
    SubscriptionName
    → ℕ
    → Option PushConfig
    → Option RetryPolicy
    → Option DeadLetterPolicy
    → SubscriptionInfo
new_info name ack_deadline push_config retry_policy dead_letter_policy = record {
  name = name;
  ack_deadline = ack_deadline;
  push_config = push_config;
  retry_policy = retry_policy;
  dead_letter_policy = dead_letter_policy;
  message_retention_duration = none;
  enable_message_ordering = false;
  enable_exactly_once_delivery = false;
  filter = none;
  detached = false;
}

abbrev pub new_with_defaults : SubscriptionName → SubscriptionInfo
new_with_defaults name = new_info name 10_000_000_000 none none none

-- Which ack IDs of a request were outstanding, and which were not.
pub record AckOutcome : Type 0 where
  pub valid : List ℕ
  pub invalid : List ℕ

-- `none` leaves a field as it is; `some none` clears a policy.
pub record SubscriptionUpdate : Type 0 where
  pub ack_deadline : Option ℕ
  pub retry_policy : Option (Option RetryPolicy)
  pub dead_letter_policy : Option (Option DeadLetterPolicy)
  pub message_retention_duration : Option (Option ℕ)
  pub enable_exactly_once_delivery : Option Bool

abbrev pub or_keep {ℓ} : {A : Type ℓ} → Option A → A → A
or_keep none a = a
or_keep (some b) a = b

unfoldable pub apply_update : SubscriptionInfo → SubscriptionUpdate → SubscriptionInfo
apply_update info u = record info {
  ack_deadline = or_keep u.ack_deadline info.ack_deadline;
  retry_policy = or_keep u.retry_policy info.retry_policy;
  dead_letter_policy = or_keep u.dead_letter_policy info.dead_letter_policy;
  message_retention_duration = or_keep u.message_retention_duration info.message_retention_duration;
  enable_exactly_once_delivery =
      or_keep u.enable_exactly_once_delivery info.enable_exactly_once_delivery;
}

pub record SubscriptionCounters : Type 0 where
  pub pulled : ℕ
  pub acked : ℕ
  pub nacked : ℕ
  pub expired : ℕ
  pub dead_lettered : ℕ

abbrev pub no_counts : SubscriptionCounters
no_counts = record { pulled = 0; acked = 0; nacked = 0; expired = 0; dead_lettered = 0 }

-- `+=` on a `u64`, which a release build wraps.
abbrev pub add_u64 : ℕ → ℕ → ℕ
add_u64 a b = (a + b) % 2 ^ 64

-- The age is in nanoseconds; the program reports it in seconds as a float.
pub record SubscriptionStats : Type 0 where
  pub subscription_name : SubscriptionName
  pub topic_name : TopicName
  pub outstanding_messages_count : ℕ
  pub backlog_messages_count : ℕ
  pub retry_messages_count : ℕ
  pub oldest_unacked_age : ℕ
  pub counters : SubscriptionCounters
