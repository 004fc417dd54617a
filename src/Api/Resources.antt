-- ===== src/Api/Resources.antt =====
-- The resources that the services answer with: `map_to_topic_resource`,
-- `map_to_subscription_resource` and `map_to_received_message`.
use deltio.Prelude.{
  Bytes, Option, [], codes, if◌then◌else◌, ltb, negsuc, none, pos, some, ℕ, ℤ, ◌%◌, ◌-◌, ◌/◌, ◌^◌,
  nat_eq,
}
use deltio.Text.Decimal.{decimal}
use deltio.Topics.Name.{show_topic_name, show_subscription_name, TopicName}
use deltio.Topics.Actor.{TopicInfo}
use deltio.Subscriptions.Info.{SubscriptionInfo, PushConfig, PushConfigOidcToken}
use deltio.Subscriptions.Policies.{RetryPolicy, DeadLetterPolicy}
use deltio.Subscriptions.Pulled.{PulledMessage}
use deltio.Subscriptions.Manager.{Subscription}
use deltio.Server.{Server}
use deltio.Server.Calls.{live_topic}
use deltio.Api.Proto.{
  DurationProto, TopicProto, SubscriptionProto, PushConfigProto, OidcToken, RetryPolicyProto,
  DeadLetterPolicyProto, PubsubMessage,
}

abbrev nanos_per_sec : ℕ
nanos_per_sec = 1_000_000_000

-- `as i32` and `as i64` in two's complement.
abbrev as_signed : ℕ → ℕ → ℤ
as_signed bits n =
    let m = n % 2 ^ bits in if ltb m (2 ^ (bits - 1)) then pos m else negsuc (2 ^ bits - 1 - m)

duration_proto : ℕ → DurationProto
duration_proto d = record {
  seconds = as_signed 64 (d / nanos_per_sec);
  nanos = as_signed 32 (d % nanos_per_sec);
}

abbrev map_option {ℓ κ} : {A : Type ℓ} {B : Type κ} → (A → B) → Option A → Option B
map_option f none = none
map_option f (some a) = some (f a)

abbrev unwrap_or {ℓ} : {A : Type ℓ} → A → Option A → A
unwrap_or default none = default
unwrap_or default (some a) = a

unfoldable pub map_to_topic_resource : TopicInfo → TopicProto
unfolding duration_proto
map_to_topic_resource info = record {
  name = show_topic_name info.name;
  labels = info.labels;
  message_retention_duration = map_option duration_proto info.message_retention_duration;
}

oidc_token_proto : PushConfigOidcToken → OidcToken
oidc_token_proto token = record {
  service_account_email = token.service_account_email;
  audience = token.audience;
}

push_config_proto : PushConfig → PushConfigProto
unfolding oidc_token_proto
push_config_proto config = record {
  push_endpoint = config.endpoint;
  attributes = unwrap_or [] config.attributes;
  authentication_method = map_option oidc_token_proto config.oidc_token;
}

retry_policy_proto : RetryPolicy → RetryPolicyProto
unfolding duration_proto
retry_policy_proto p = record {
  minimum_backoff = some (duration_proto p.minimum_backoff);
  maximum_backoff = some (duration_proto p.maximum_backoff);
}

dead_letter_policy_proto : DeadLetterPolicy → DeadLetterPolicyProto
dead_letter_policy_proto p = record {
  dead_letter_topic = show_topic_name p.dead_letter_topic;
  max_delivery_attempts = pos p.max_delivery_attempts;
}

abbrev topic_text : Option TopicName → Bytes
topic_text none = codes "_deleted_topic_"
topic_text (some name) = show_topic_name name

-- The name of the topic, if it still lives, and the settings.
subscription_resource : Subscription → Option TopicName → SubscriptionInfo → SubscriptionProto
unfolding push_config_proto duration_proto dead_letter_policy_proto retry_policy_proto
subscription_resource h topic info = record {
  name = show_subscription_name h.name;
  topic = topic_text topic;
  push_config = map_option push_config_proto info.push_config;
  ack_deadline_seconds = as_signed 32 (info.ack_deadline / nanos_per_sec);
  message_retention_duration = map_option duration_proto info.message_retention_duration;
  enable_message_ordering = info.enable_message_ordering;
  filter = unwrap_or [] info.filter;
  dead_letter_policy = map_option dead_letter_policy_proto info.dead_letter_policy;
  retry_policy = map_option retry_policy_proto info.retry_policy;
  detached = info.detached;
  enable_exactly_once_delivery = info.enable_exactly_once_delivery;
}

unfoldable pub map_to_subscription_resource :
    Subscription → SubscriptionInfo → Server → SubscriptionProto
unfolding subscription_resource
map_to_subscription_resource h info s = subscription_resource h (live_topic h.topic s) info

pub record ReceivedMessage : Type 0 where
  pub ack_id : Bytes
  pub delivery_attempt : ℤ
  pub message : PubsubMessage

unfoldable pub map_to_received_message : PulledMessage → ReceivedMessage
unfolding decimal
map_to_received_message p = record {
  ack_id = decimal p.ack_id;
  delivery_attempt = as_signed 32 p.delivery_attempt;
  message = record {
    payload = p.message.payload;
    attributes = unwrap_or [] p.message.attributes;
    message_id = decimal p.message.id;
    publish_time = p.message.published_at;
    ordering_key = unwrap_or [] p.message.ordering_key;
  };
}
