-- ===== src/Tests/Samples.antt =====
-- Test data: two messages, an ordered subscription, and a tracker.
use deltio.Prelude.{Bytes, codes, none, some, true, nat_eq, bytes_eq_instance}
use deltio.Topics.Message.{TopicMessage, new_message, publish}
use deltio.Topics.Name.{SubscriptionName}
use deltio.Subscriptions.Policies.{RetryPolicy, DeadLetterPolicy}
use deltio.Subscriptions.Pulled.{PulledMessage}
use deltio.Subscriptions.Info.{SubscriptionInfo, new_with_defaults}
use deltio.Subscriptions.Actor.{Environment}

abbrev pub key : Bytes
key = codes "k"

abbrev pub plain : TopicMessage
plain = publish (new_message (codes "a") none 5) 1 100 5

abbrev pub keyed_message : TopicMessage
keyed_message = record (publish (new_message (codes "b") none 6) 2 200 6) {
  ordering_key = some key;
}

abbrev pub name : SubscriptionName
name = record { project_id = codes "p"; subscription_id = codes "s" }

abbrev pub letters : DeadLetterPolicy
letters = record {
  dead_letter_topic = record { project_id = codes "p"; topic_id = codes "dead" };
  max_delivery_attempts = 5;
}

abbrev pub backoff : RetryPolicy
backoff = record { minimum_backoff = 10_000_000_000; maximum_backoff = 600_000_000_000 }

abbrev pub ordered : SubscriptionInfo
ordered = record (new_with_defaults name) { enable_message_ordering = true }

abbrev pub lettered : SubscriptionInfo
lettered = record ordered { dead_letter_policy = some letters }

abbrev pub env : Environment
env = record {
  now = 1_000_000_000;
  system_now = 500;
  topic = some (record { project_id = codes "p"; topic_id = codes "t" });
  topic_answers = true;
  dead_letter_topic_exists = true;
}

abbrev pub pulled_plain : PulledMessage
pulled_plain = record { message = plain; ack_id = 1; deadline = 100_000_000; delivery_attempt = 1 }

abbrev pub pulled_keyed : PulledMessage
pulled_keyed = record {
  message = keyed_message;
  ack_id = 2;
  deadline = 200_000_000;
  delivery_attempt = 1;
}
