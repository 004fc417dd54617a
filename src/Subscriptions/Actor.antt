-- ===== src/Subscriptions/Actor.antt =====
-- src/subscriptions/subscription_actor.rs: the state of a subscription and its signals. The calls
-- that leave the actor are a log, the latest first: notifications of its observer, the push
-- registry, the topic, the manager, and the dead-letter topic.
pub mod Post
pub mod Pull
pub mod Requeue
pub mod Requests
pub mod Receive
pub mod Stored
pub mod PendingKeys
pub mod Progress
pub mod SameInfo
pub mod Invariant
pub mod Delivery
use deltio.Prelude.{
  Bool, Bytes, List, Map, Option, [], false, if◌then◌else◌, leb, lookup, none, some, true, ℕ, ◌-◌,
  ◌∷◌, nat_eq, bytes_eq_instance,
}
use deltio.Topics.Message.{TopicMessage, Messages}
use deltio.Topics.Name.{TopicName, SubscriptionName}
use deltio.Subscriptions.Info.{SubscriptionInfo, SubscriptionCounters, PushConfig}
use deltio.Subscriptions.Filter.{Filter}
use deltio.Subscriptions.Outstanding.{OutstandingMessageTracker}
use deltio.Subscriptions.RetryQueue.{RetryQueue}

pub data Signal : Type 0 where
  messages_available outstanding_freed deleted_sent : Signal
  push_registry_set : SubscriptionName → Option PushConfig → Signal
  topic_remove_subscription : SubscriptionName → Signal
  manager_delete : SubscriptionName → Signal
  dead_letters_published : TopicName → List TopicMessage → Signal

pub record SubscriptionActor : Type 0 where
  pub internal_id : ℕ
  pub info : SubscriptionInfo
  pub backlog : Messages
  pub outstanding : OutstandingMessageTracker
  pub next_ack_id : ℕ
  pub deleted : Bool
  pub delivery_attempts : Map ℕ ℕ
  pub retry_queue : RetryQueue
  pub has_topic_manager : Bool
  pub compiled_filter : Option Filter
  pub ordered_queues : Map Bytes Messages
  pub keys_in_flight : List Bytes
  pub counters : SubscriptionCounters
  pub signals : List Signal

-- What the actor reads from outside during a request: the two clocks, the topic if it is still
-- there, the answer of `remove_subscription`, and whether the dead-letter topic exists.
pub record Environment : Type 0 where
  pub now : ℕ
  pub system_now : ℕ
  pub topic : Option TopicName
  pub topic_answers : Bool
  pub dead_letter_topic_exists : Bool

abbrev pub signal : Signal → SubscriptionActor → SubscriptionActor
signal s a = record a { signals = s ∷ a.signals }

abbrev pub signal_if : Bool → Signal → SubscriptionActor → SubscriptionActor
signal_if true s a = signal s a
signal_if false s a = a

-- Whether a message has aged past the retention; `saturating_duration_since` is the difference.
unfoldable pub is_message_expired : SubscriptionInfo → ℕ → TopicMessage → Bool
is_message_expired info now m = elim info.message_retention_duration [
  | none ↦ false
  | some retention ↦ leb retention (now - m.published_at_instant)
]

-- The queue of an ordering key, empty if there is none.
abbrev pub queue_of : Bytes → Map Bytes Messages → Messages
queue_of key queues = elim (lookup key queues) [ none ↦ [] | some q ↦ q ]

-- The ordering key by which a message is queued, if the subscription is ordered.
abbrev pub ordered_key : SubscriptionInfo → TopicMessage → Option Bytes
ordered_key info m = if info.enable_message_ordering then m.ordering_key else none
