-- ===== src/Topics/Actor.antt =====
-- src/topics/topic_actor.rs, with the info of src/topics/topic.rs and src/topics/stats.rs. The posts
-- to the subscriptions and the report to the manager are a log, the latest first.
pub mod Ids
pub mod Pages
pub mod Receive
use deltio.Prelude.{
  Bool, Bytes, List, Map, Option, [], false, if◌then◌else◌, insert, length, lookup, map, none,
  remove, retain, some, total, true, ℕ, ◌%◌, ◌&&◌, ◌++◌, ◌+◌, ◌^◌, ◌∷◌, nat_eq, bytes_eq_instance,
}
use deltio.Paging.{Paging, list_page}
use deltio.Paging.Order.{sorted}
use deltio.Topics.Message.{TopicMessage, publish, message_id}
use deltio.Topics.Name.{TopicName, SubscriptionName, subscription_name_key}
use deltio.Subscriptions.Info.{add_u64}

pub record TopicInfo : Type 0 where
  pub name : TopicName
  pub labels : Map Bytes Bytes
  pub message_retention_duration : Option ℕ

pub record TopicUpdate : Type 0 where
  pub labels : Option (Map Bytes Bytes)
  pub message_retention_duration : Option (Option ℕ)

abbrev or_else {ℓ} : {A : Type ℓ} → Option A → A → A
or_else none old = old
or_else (some new) old = new

unfoldable pub apply_topic_update : TopicInfo → TopicUpdate → TopicInfo
apply_topic_update info update = record info {
  labels = or_else update.labels info.labels;
  message_retention_duration =
      or_else update.message_retention_duration info.message_retention_duration;
}

pub data TopicSignal : Type 0 where
  posted : SubscriptionName → List TopicMessage → TopicSignal
  topic_deleted : TopicName → TopicSignal

-- The subscriptions by name, each with its internal ID.
pub record TopicActor : Type 0 where
  pub info : TopicInfo
  pub messages : List TopicMessage
  pub subscriptions : Map SubscriptionName ℕ
  pub topic_internal_id : ℕ
  pub next_message_id : ℕ
  pub deleted : Bool
  pub published_count : ℕ
  pub published_bytes : ℕ
  pub signals : List TopicSignal

abbrev pub start_topic : TopicInfo → ℕ → TopicActor
start_topic info topic_internal_id = record {
  info = info;
  messages = [];
  subscriptions = [];
  topic_internal_id = topic_internal_id;
  next_message_id = 0;
  deleted = false;
  published_count = 0;
  published_bytes = 0;
  signals = [];
}

-- What a publish reads from outside: the clocks, which subscriptions take the post, and, for when
-- one does not and the other posts are aborted, which of those still arrive.
pub record PublishEnvironment : Type 0 where
  pub publish_time : ℕ
  pub publish_instant : ℕ
  pub answers : SubscriptionName → Bool
  pub arrives : SubscriptionName → Bool

pub record Assigned : Type 0 where
  pub next_message_id : ℕ
  pub messages : List TopicMessage

-- Each message gets the next number, which wraps in a release build.
unfoldable pub assign : PublishEnvironment → ℕ → ℕ → List TopicMessage → Assigned
assign env topic_id next [] = record { next_message_id = next; messages = [] }
assign env topic_id next (m ∷ ms) =
    let next_id = (next + 1) % 2 ^ 32 in
    let rest = assign env topic_id next_id ms in
    record rest {
      messages =
          publish m (message_id topic_id next_id) env.publish_time env.publish_instant
          ∷ rest.messages;
    }

abbrev pub ids_of : List TopicMessage → List ℕ
ids_of ms = map (λ (m : TopicMessage). m.id) ms

abbrev pub names_of : Map SubscriptionName ℕ → List SubscriptionName
names_of [] = []
names_of ((name, id) ∷ subscriptions) = name ∷ names_of subscriptions

abbrev pub post_to : List SubscriptionName → List TopicMessage → List TopicSignal → List TopicSignal
post_to [] messages signals = signals
post_to (name ∷ names) messages signals = posted name messages ∷ post_to names messages signals

pub data Publish : Type 0 where
  published : List ℕ → Publish
  publish_closed : Publish

abbrev pub all_answer : (SubscriptionName → Bool) → List SubscriptionName → Bool
all_answer answers [] = true
all_answer answers (name ∷ names) = answers name && all_answer answers names

abbrev pub payload_bytes : List TopicMessage → ℕ
payload_bytes ms = total (λ m. length m.payload) ms

-- The state once the messages are published, before they are posted.
unfoldable pub with_published : Assigned → TopicActor → TopicActor
with_published new a = record a {
  next_message_id = new.next_message_id;
  messages = a.messages ++ new.messages;
  published_count = add_u64 a.published_count (length new.messages);
  published_bytes = add_u64 a.published_bytes (payload_bytes new.messages);
}

unfoldable pub publish_messages :
    PublishEnvironment → List TopicMessage → TopicActor → TopicActor × Publish
unfolding assign with_published
publish_messages env messages a =
    let new = assign env a.topic_internal_id a.next_message_id messages in
    let names = names_of a.subscriptions in
    let ready = with_published new a in
    if all_answer env.answers names
    then (
      record ready { signals = post_to names new.messages a.signals },
      published (ids_of new.messages),
    )
    else (
      record ready {
        signals =
            post_to (retain (λ n. env.answers n && env.arrives n) names) new.messages a.signals;
      },
      publish_closed,
    )

unfoldable pub attach_subscription : SubscriptionName → ℕ → TopicActor → TopicActor
attach_subscription name id a = elim (lookup name a.subscriptions) [
  | none ↦ record a { subscriptions = insert name id a.subscriptions }
  | some old ↦ a
]

unfoldable pub remove_subscription : SubscriptionName → TopicActor → TopicActor
remove_subscription name a = record a { subscriptions = remove name a.subscriptions }

unfoldable pub delete_topic : TopicActor → TopicActor
delete_topic a = if a.deleted then a else record a {
  deleted = true;
  subscriptions = [];
  messages = [];
  signals = topic_deleted a.info.name ∷ a.signals;
}

-- Subscriptions are ordered by their internal ID.
abbrev pub subscription_id_of : SubscriptionName × ℕ → ℕ
subscription_id_of s = s.1

pub list_subscriptions : Paging → TopicActor → List (SubscriptionName × ℕ) × Paging
unfolding sorted
list_subscriptions paging a = list_page paging (sorted subscription_id_of a.subscriptions)

pub record TopicStats : Type 0 where
  pub topic_name : TopicName
  pub message_count : ℕ
  pub subscription_count : ℕ
  pub published_count : ℕ
  pub published_bytes : ℕ

abbrev pub get_topic_stats : TopicActor → TopicStats
get_topic_stats a = record {
  topic_name = a.info.name;
  message_count = length a.messages;
  subscription_count = length a.subscriptions;
  published_count = a.published_count;
  published_bytes = a.published_bytes;
}
