-- ===== src/Server/Settings.antt =====
-- The settings of the subscriptions of a server, wherever the calls of an actor arrive.
pub mod Turned
pub mod Reached
use deltio.Prelude.{
  List, Map, Option, Option-cases, [], if_cases, inl, inr, lookup, lookup-insert, lookup-remove,
  none, remove, some, sym, ℕ, ◌==◌, ◌∷◌, ◌≡◌, nat_eq,
}
use mathlib.Core.Path.{subst}
use mathlib.Core.List.{reverse}
use deltio.Results.{Result-cases}
use deltio.Topics.Name.{subscription_name_key, TopicName, SubscriptionName}
use deltio.Topics.Message.{TopicMessage}
use deltio.Topics.Manager.{get_topic}
use deltio.Topics.Actor.{TopicSignal, posted, topic_deleted}
use deltio.Topics.Actor.Receive.{TopicRequest, publish, receive_topic}
use deltio.Subscriptions.Info.{SubscriptionInfo}
use deltio.Subscriptions.Manager.{Subscription}
use deltio.Subscriptions.Actor.{
  SubscriptionActor, Signal, messages_available, outstanding_freed, deleted_sent, push_registry_set,
  topic_remove_subscription, manager_delete, dead_letters_published,
}
use deltio.Subscriptions.Actor.Post.{post_messages}
use deltio.Subscriptions.Actor.SameInfo.{post_messages-info}
use deltio.Api.Parser.Bounds.{SettingsInBounds}
use deltio.Server.{Server, Clock, set_subscription, set_topic}
use deltio.Server.Route.{
  deliver_post, route_topic_signal, route_topic, finish_topic_call, call_topic,
  publish_dead_letters_to, route_signal, route, publish_environment,
}
use deltio.Server.Calls.{settle}

abbrev pub ValidAt : Option SubscriptionActor → Type 0
ValidAt none = Unit
ValidAt (some a) = SettingsInBounds a.info

abbrev pub AllInBounds : Server → Type 0
AllInBounds s = (id : ℕ) → ValidAt (lookup id s.subscriptions)

set_subscription-valid :
    (id : ℕ) (a : SubscriptionActor) (s : Server)
    → SettingsInBounds a.info
    → AllInBounds s
    → AllInBounds (set_subscription id a s)
set_subscription-valid id a s h v j =
    rw (lookup-insert id j a s.subscriptions)
      (if_cases ValidAt (id == j) (some a) (lookup j s.subscriptions) (λ e. h) (λ e. v j))

remove-valid :
    (id : ℕ) (s : Server)
    → AllInBounds s
    → AllInBounds (record s { subscriptions = remove id s.subscriptions })
remove-valid id s v j =
    rw (lookup-remove id j s.subscriptions)
      (if_cases ValidAt (id == j) none (lookup j s.subscriptions) (λ e. tt) (λ e. v j))

-- What is found is within the bounds.
pub found :
    (id : ℕ) (a : SubscriptionActor) (s : Server)
    → AllInBounds s
    → lookup id s.subscriptions ≡ some a
    → SettingsInBounds a.info
found id a s v e = subst ValidAt e (v id)

pub same_info : (i i' : SubscriptionInfo) → i' ≡ i → SettingsInBounds i → SettingsInBounds i'
same_info i i' e = subst SettingsInBounds (sym e)

deliver_post-valid :
    (attached : Map SubscriptionName ℕ) (name : SubscriptionName) (messages : List TopicMessage)
    (s : Server)
    → AllInBounds s
    → AllInBounds (deliver_post attached name messages s)
unfolding deliver_post
deliver_post-valid attached name messages s v = elim (Option-cases (lookup name attached)) [
  | inl e ↦ rw (e, deliver_post) v
  | inr (id, e) ↦ elim (Option-cases (lookup id s.subscriptions)) [
    | inl e' ↦ rw (e, e', deliver_post) v
    | inr (a, e') ↦
        rw (e, e', deliver_post)
          (set_subscription-valid id (record (post_messages messages a) { signals = [] }) s
            (same_info a.info _ (post_messages-info messages a) (found id a s v e')) v)
  ]
]

route_topic-valid :
    (id : ℕ) (attached : Map SubscriptionName ℕ) (xs : List TopicSignal) (s : Server)
    → AllInBounds s
    → AllInBounds (route_topic id attached xs s)
unfolding route_topic route_topic_signal
route_topic-valid id attached [] s v = v
route_topic-valid id attached (posted name messages ∷ xs) s v =
    route_topic-valid id attached xs _ (deliver_post-valid attached name messages s v)
route_topic-valid id attached (topic_deleted name ∷ xs) s v = route_topic-valid id attached xs _ v

pub call_topic-valid :
    (clock : Clock) (id : ℕ) (r : TopicRequest) (s : Server)
    → AllInBounds s
    → AllInBounds (call_topic clock id r s).0
unfolding call_topic finish_topic_call
call_topic-valid clock id r s v = elim (Option-cases (lookup id s.topics)) [
  | inl e ↦ rw (e, call_topic) v
  | inr (a, e) ↦
      rw (e, call_topic)
        (let (a', response) =
            receive_topic (publish_environment clock a s) r (record a { signals = [] }) in
          route_topic-valid id a.subscriptions a'.signals
            (set_topic id (record a' { signals = [] }) s) v)
]

publish_dead_letters_to-valid :
    (clock : Clock) (name : TopicName) (messages : List TopicMessage) (s : Server)
    → AllInBounds s
    → AllInBounds (publish_dead_letters_to clock name messages s)
unfolding publish_dead_letters_to
publish_dead_letters_to-valid clock name messages s v =
    elim (Result-cases (get_topic name s.topic_manager)) [
      | inl (t, e) ↦
          rw (e, publish_dead_letters_to)
            (call_topic-valid clock t.internal_id (publish messages) s v)
      | inr (x, e) ↦ rw (e, publish_dead_letters_to) v
    ]

route_signal-valid :
    (clock : Clock) (topic_id id : ℕ) (x : Signal) (s : Server)
    → AllInBounds s
    → AllInBounds (route_signal clock topic_id id x s)
unfolding route_signal
route_signal-valid clock topic_id id messages_available s v = v
route_signal-valid clock topic_id id outstanding_freed s v = v
route_signal-valid clock topic_id id deleted_sent s v = remove-valid id s v
route_signal-valid clock topic_id id (push_registry_set name config) s v = v
route_signal-valid clock topic_id id (topic_remove_subscription name) s v =
    elim (Option-cases (lookup topic_id s.topics)) [
      | inl e ↦ rw (e, route_signal) v
      | inr (a, e) ↦ rw (e, route_signal) v
    ]
route_signal-valid clock topic_id id (manager_delete name) s v = v
route_signal-valid clock topic_id id (dead_letters_published name messages) s v =
    publish_dead_letters_to-valid clock name messages s v

route-valid :
    (clock : Clock) (topic_id id : ℕ) (xs : List Signal) (s : Server)
    → AllInBounds s
    → AllInBounds (route clock topic_id id xs s)
unfolding route
route-valid clock topic_id id [] s v = v
route-valid clock topic_id id (x ∷ xs) s v =
    route-valid clock topic_id id xs _ (route_signal-valid clock topic_id id x s v)

pub settle-valid :
    (clock : Clock) (h : Subscription) (a : SubscriptionActor) (s : Server)
    → SettingsInBounds a.info
    → AllInBounds s
    → AllInBounds (settle clock h a s)
unfolding settle
settle-valid clock h a s valid v =
    route-valid clock h.topic.internal_id h.internal_id (reverse a.signals) _
      (set_subscription-valid h.internal_id (record a { signals = [] }) s valid v)
