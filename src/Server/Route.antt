-- ===== src/Server/Route.antt =====
-- Where the calls arrive that leave an actor. Notifications of waiting futures change no state.
use deltio.Prelude.{
  Bool, List, Map, Option, [], false, is_some, lookup, none, remove, some, ℕ, ◌∷◌, nat_eq,
}
use deltio.Results.{ok, err}
use deltio.Topics.Name.{TopicName, SubscriptionName, topic_name_key, subscription_name_key}
use deltio.Topics.Message.{TopicMessage}
use deltio.Topics.Manager.{get_topic, forget_topic}
use deltio.Topics.Actor.{
  TopicActor, TopicSignal, posted, topic_deleted, PublishEnvironment, remove_subscription,
}
use deltio.Topics.Actor.Receive.{TopicRequest, TopicResponse, publish, receive_topic}
use deltio.Subscriptions.Manager.{forget_subscription}
use deltio.Subscriptions.Actor.{
  Signal, messages_available, outstanding_freed, deleted_sent, push_registry_set,
  topic_remove_subscription, manager_delete, dead_letters_published,
}
use deltio.Subscriptions.Actor.Post.{post_messages}
use deltio.Push.{set}
use deltio.Server.{Server, Clock, set_topic, set_subscription}

-- A post to an actor that is gone is lost.
unfoldable pub deliver_post :
    Map SubscriptionName ℕ → SubscriptionName → List TopicMessage → Server → Server
unfolding post_messages
deliver_post attached name messages s = elim (lookup name attached) [
  | none ↦ s
  | some id ↦ elim (lookup id s.subscriptions) [
    | none ↦ s
    | some a ↦ set_subscription id (record (post_messages messages a) { signals = [] }) s
  ]
]

-- A deletion that is reported takes the name, and with it the last handle of the topic.
unfoldable pub route_topic_signal : ℕ → Map SubscriptionName ℕ → TopicSignal → Server → Server
unfolding deliver_post
route_topic_signal id attached (posted name messages) s = deliver_post attached name messages s
route_topic_signal id attached (topic_deleted name) s = record s {
  topic_manager = forget_topic name s.topic_manager;
  topics = remove id s.topics;
}

unfoldable pub route_topic : ℕ → Map SubscriptionName ℕ → List TopicSignal → Server → Server
unfolding route_topic_signal
route_topic id attached [] s = s
route_topic id attached (x ∷ xs) s = route_topic id attached xs (route_topic_signal id attached x s)

-- Which subscriptions take a post: those whose actor is there.
abbrev takes_post : Map SubscriptionName ℕ → Server → SubscriptionName → Bool
takes_post attached s name = elim (lookup name attached) [
  | none ↦ false
  | some id ↦ is_some (lookup id s.subscriptions)
]

abbrev pub publish_environment : Clock → TopicActor → Server → PublishEnvironment
publish_environment clock a s = record {
  publish_time = clock.system_now;
  publish_instant = clock.now;
  answers = takes_post a.subscriptions s;
  arrives = takes_post a.subscriptions s;
}

-- What the actor of a topic answered, and where its posts go; they run concurrently, in any order.
unfoldable pub finish_topic_call :
    ℕ → Map SubscriptionName ℕ → TopicActor × TopicResponse → Server → Server × Option TopicResponse
unfolding route_topic
finish_topic_call id attached (a, response) s =
    (route_topic id attached a.signals (set_topic id (record a { signals = [] }) s), some response)

-- A call of a topic; `none` if its actor is gone.
unfoldable pub call_topic : Clock → ℕ → TopicRequest → Server → Server × Option TopicResponse
unfolding finish_topic_call
call_topic clock id request s = elim (lookup id s.topics) [
  | none ↦ (s, none)
  | some a ↦
      finish_topic_call id a.subscriptions
        (receive_topic (publish_environment clock a s) request (record a { signals = [] })) s
]

-- The topic of dead letters is looked up when they are published.
unfoldable pub publish_dead_letters_to : Clock → TopicName → List TopicMessage → Server → Server
unfolding call_topic
publish_dead_letters_to clock name messages s = elim (get_topic name s.topic_manager) [
  | ok t ↦ (call_topic clock t.internal_id (publish messages) s).0
  | err e ↦ s
]

unfoldable pub route_signal : Clock → ℕ → ℕ → Signal → Server → Server
unfolding publish_dead_letters_to
route_signal clock topic_id id messages_available s = s
route_signal clock topic_id id outstanding_freed s = s
route_signal clock topic_id id deleted_sent s = record s {
  subscriptions = remove id s.subscriptions;
}
route_signal clock topic_id id (push_registry_set name config) s = record s {
  push_registry = set name config s.push_registry;
}
route_signal clock topic_id id (topic_remove_subscription name) s =
    elim (lookup topic_id s.topics) [
      | none ↦ s
      | some a ↦ set_topic topic_id (remove_subscription name a) s
    ]
route_signal clock topic_id id (manager_delete name) s = record s {
  subscription_manager = forget_subscription name s.subscription_manager;
}
route_signal clock topic_id id (dead_letters_published name messages) s =
    publish_dead_letters_to clock name messages s

unfoldable pub route : Clock → ℕ → ℕ → List Signal → Server → Server
unfolding route_signal
route clock topic_id id [] s = s
route clock topic_id id (x ∷ xs) s = route clock topic_id id xs (route_signal clock topic_id id x s)
