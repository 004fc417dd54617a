-- ===== src/Server/Calls.antt =====
-- The calls of a subscription, its timers, and the creation of topics and subscriptions.
use deltio.Prelude.{Bool, Option, [], false, is_some, lookup, none, some, true, nat_eq}
use mathlib.Core.List.{reverse}
use deltio.Results.{Result, ok, err, is_ok}
use deltio.Topics.Name.{TopicName}
use deltio.Topics.Manager
use deltio.Topics.Manager.{Topic, CreateTopicError, get_topic}
use deltio.Topics.Actor.{TopicInfo, start_topic}
use deltio.Topics.Actor.Receive.{attach}
use deltio.Subscriptions.Info.{SubscriptionInfo}
use deltio.Subscriptions.Policies.{DeadLetterPolicy}
use deltio.Subscriptions.Manager.{
  Subscription, SubscriptionManager, CreateSubscriptionError, create_closed, check_subscription,
  create_subscription_entry,
}
use deltio.Subscriptions.Actor.{SubscriptionActor, Environment}
use deltio.Subscriptions.Actor.Receive.{Request, Response, Event, receive, start, step}
use deltio.Server.{Server, Clock, set_topic, set_subscription}
use deltio.Server.Route.{call_topic, route}

-- `topic.upgrade()`: the name of the topic, if it has not been deleted.
abbrev pub live_topic : Topic → Server → Option TopicName
live_topic t s = elim (lookup t.internal_id s.topics) [ none ↦ none | some a ↦ some a.info.name ]

abbrev dead_letter_topic_exists : Option DeadLetterPolicy → Server → Bool
dead_letter_topic_exists none s = false
dead_letter_topic_exists (some p) s = is_ok (get_topic p.dead_letter_topic s.topic_manager)

abbrev pub environment : Clock → Subscription → SubscriptionActor → Server → Environment
environment clock h a s = record {
  now = clock.now;
  system_now = clock.system_now;
  topic = live_topic h.topic s;
  topic_answers = true;
  dead_letter_topic_exists = dead_letter_topic_exists a.info.dead_letter_policy s;
}

-- What an actor sent in a turn is routed from the first to the last.
unfoldable pub settle : Clock → Subscription → SubscriptionActor → Server → Server
unfolding route
settle clock h a s =
    route clock h.topic.internal_id h.internal_id (reverse a.signals)
      (set_subscription h.internal_id (record a { signals = [] }) s)

-- A call of a subscription; `none` if its actor is gone.
unfoldable pub call_subscription :
    Clock → Subscription → Request → Server → Server × Option Response
unfolding settle
call_subscription clock h request s = elim (lookup h.internal_id s.subscriptions) [
  | none ↦ (s, none)
  | some a ↦
      let (a', response) = receive (environment clock h a s) request a in
      (settle clock h a' s, some response)
]

-- A turn of the loop of a subscription; `none` is undefined behaviour.
unfoldable pub turn : Clock → Subscription → Event → Server → Option Server
unfolding settle
turn clock h event s = elim (lookup h.internal_id s.subscriptions) [
  | none ↦ some s
  | some a ↦ elim (step (environment clock h a s) event a) [
    | none ↦ none
    | some a' ↦ some (settle clock h a' s)
  ]
]

-- `TopicManager::create_topic` with the actor that it starts.
unfoldable pub create_topic : TopicInfo → Server → Server × Result CreateTopicError Topic
create_topic info s =
    let (manager, made) = Manager.create_topic info s.topic_manager in
    let s' = record s { topic_manager = manager } in
    elim made [
      | err e ↦ (s', err e)
      | ok t ↦ (set_topic t.internal_id (start_topic info t.internal_id) s', ok t)
    ]

-- `attach_subscription` at the end of `create_subscription`.
unfoldable pub attach_created :
    Clock → Topic → Subscription → Server → Server × Result CreateSubscriptionError Subscription
attach_created clock topic h s =
    let (s', response) = call_topic clock topic.internal_id (attach h.name h.internal_id) s in
    elim response [ none ↦ (s', err create_closed) | some r ↦ (s', ok h) ]

-- The subscription that took its name is started and attached.
unfoldable pub finish_creation :
    Clock
    → SubscriptionInfo
    → Topic
    → Bool
    → SubscriptionManager × Result CreateSubscriptionError Subscription
    → Server
    → Server × Result CreateSubscriptionError Subscription
unfolding settle attach_created
finish_creation clock info topic has_topics (manager, err e) s =
    (record s { subscription_manager = manager }, err e)
finish_creation clock info topic has_topics (manager, ok h) s = attach_created clock topic h (
    settle clock h (start h.internal_id info has_topics)
      (record s { subscription_manager = manager }))

unfoldable pub create_subscription :
    Clock → SubscriptionInfo → Topic → Server → Server × Result CreateSubscriptionError Subscription
unfolding finish_creation
create_subscription clock info topic s = elim (check_subscription info topic s.topic_manager) [
  | err e ↦ (s, err e)
  | ok topics_for_dlq ↦
      finish_creation clock info topic (is_some topics_for_dlq)
        (create_subscription_entry info topic s.subscription_manager) s
]
