-- ===== src/Api/Proto.antt =====
-- The messages of proto/googleapis/google/pubsub/v1/pubsub.proto, with the fields that the services
-- read or write, and the codes of a `tonic::Status`, whose text is left out.
use deltio.Prelude.{Bool, Bytes, Map, Option, ℕ, ℤ, nat_eq}
use deltio.Topics.Message.{Attributes}

pub data Status : Type 0 where
  invalid_argument not_found already_exists failed_precondition internal unimplemented cancelled :
      Status

pub record DurationProto : Type 0 where
  pub seconds : ℤ
  pub nanos : ℤ

pub record TopicProto : Type 0 where
  pub name : Bytes
  pub labels : Map Bytes Bytes
  pub message_retention_duration : Option DurationProto

pub record PubsubMessage : Type 0 where
  pub payload : Bytes
  pub attributes : Attributes
  pub message_id : Bytes
  pub publish_time : ℕ
  pub ordering_key : Bytes

pub record OidcToken : Type 0 where
  pub service_account_email : Bytes
  pub audience : Bytes

pub record PushConfigProto : Type 0 where
  pub push_endpoint : Bytes
  pub attributes : Attributes
  pub authentication_method : Option OidcToken

pub record RetryPolicyProto : Type 0 where
  pub minimum_backoff : Option DurationProto
  pub maximum_backoff : Option DurationProto

pub record DeadLetterPolicyProto : Type 0 where
  pub dead_letter_topic : Bytes
  pub max_delivery_attempts : ℤ

pub record SubscriptionProto : Type 0 where
  pub name : Bytes
  pub topic : Bytes
  pub push_config : Option PushConfigProto
  pub ack_deadline_seconds : ℤ
  pub message_retention_duration : Option DurationProto
  pub enable_message_ordering : Bool
  pub filter : Bytes
  pub dead_letter_policy : Option DeadLetterPolicyProto
  pub retry_policy : Option RetryPolicyProto
  pub detached : Bool
  pub enable_exactly_once_delivery : Bool
