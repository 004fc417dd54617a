-- ===== src/Server.antt =====
-- The managers, the actors behind the handles and the push registry as one state, and the calls of
-- src/topics/topic.rs and src/subscriptions/subscription.rs on it. A call is answered by its actor
-- at once, and what the actor sends on meanwhile arrives before the caller goes on. An actor is
-- there as long as a handle leads to it: a topic until it is deleted, a subscription until it has
-- announced its deletion.
pub mod Route
pub mod Calls
pub mod Creation
pub mod Started
pub mod Created
pub mod Delivered
pub mod Settings
use deltio.Prelude.{Map, [], insert, ℕ, nat_eq}
use deltio.Topics.Manager.{TopicManager}
use deltio.Topics.Actor.{TopicActor}
use deltio.Subscriptions.Manager.{SubscriptionManager}
use deltio.Subscriptions.Actor.{SubscriptionActor}
use deltio.Push.{PushSubscriptionsRegistry}
use deltio.Registry.{new_state}

-- The actors are found by the internal ID of their handle.
pub record Server : Type 0 where
  pub topic_manager : TopicManager
  pub subscription_manager : SubscriptionManager
  pub topics : Map ℕ TopicActor
  pub subscriptions : Map ℕ SubscriptionActor
  pub push_registry : PushSubscriptionsRegistry

-- The two clocks.
pub record Clock : Type 0 where
  pub now : ℕ
  pub system_now : ℕ

abbrev pub new_server : Server
new_server = record {
  topic_manager = new_state;
  subscription_manager = new_state;
  topics = [];
  subscriptions = [];
  push_registry = [];
}

abbrev pub set_topic : ℕ → TopicActor → Server → Server
set_topic id a s = record s { topics = insert id a s.topics }

abbrev pub set_subscription : ℕ → SubscriptionActor → Server → Server
set_subscription id a s = record s { subscriptions = insert id a s.subscriptions }
