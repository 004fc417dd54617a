-- ===== src/Server/Delivered.antt =====
-- What a publish does to the subscriptions of the topic.
use deltio.Prelude.{
  Bool, List, Map, Option, Option-cases, [], any, ap, arith, false, if_cases, if◌then◌else◌, inl,
  inr, lookup, lookup-insert, map, none, refl, some, sym, true, ℕ, ◌==◌, ◌∙◌, ◌∷◌, ◌≡◌, ◌≢◌, nat_eq,
}
use mathlib.Core.Path.{subst}
use deltio.Topics.Name.{SubscriptionName, subscription_name_key}
use deltio.Topics.Message.{TopicMessage}
use deltio.Topics.Actor.{
  TopicActor, PublishEnvironment, Publish, published, publish_closed, assign, names_of, ids_of,
  post_to, all_answer, publish_messages, with_published,
}
use deltio.Topics.Actor.Ids.{content, assign-content}
use deltio.Topics.Actor.Receive.{TopicRequest, TopicResponse, publish, publishes, receive_topic}
use deltio.Subscriptions.Actor.{SubscriptionActor}
use deltio.Subscriptions.Actor.Post.{post_messages}
use deltio.Server.{Server, Clock}
use deltio.Server.Route.{
  deliver_post, finish_topic_call, route_topic, route_topic_signal, call_topic, publish_environment,
}

-- Whether a name is attached under an internal ID.
abbrev attached_as : Map SubscriptionName ℕ → ℕ → SubscriptionName → Bool
attached_as attached id name = elim (lookup name attached) [ none ↦ false | some n ↦ n == id ]

-- No internal ID is attached under two of the names.
abbrev pub Distinct : Map SubscriptionName ℕ → List SubscriptionName → Type 0
Distinct attached [] = Unit
Distinct attached (name ∷ names) =
    ((id : ℕ) → attached_as attached id name ≡ true → any (attached_as attached id) names ≡ false)
    × Distinct attached names

abbrev after_post : List TopicMessage → Option SubscriptionActor → Option SubscriptionActor
after_post messages none = none
after_post messages (some b) = some (record (post_messages messages b) { signals = [] })

deliver_post-lookup :
    (attached : Map SubscriptionName ℕ) (name : SubscriptionName) (messages : List TopicMessage)
    (s : Server) (id : ℕ)
    → lookup id (deliver_post attached name messages s).subscriptions ≡ (
        if attached_as attached id name
        then after_post messages (lookup id s.subscriptions)
        else lookup id s.subscriptions)
unfolding deliver_post
deliver_post-lookup attached name messages s id = elim (Option-cases (lookup name attached)) [
  | inl e ↦ ground arith
  | inr (n, e) ↦ elim (Option-cases (lookup n s.subscriptions)) [
    | inl e' ↦ ground arith
    | inr (b, e') ↦ ground (
      arith,
      lookup-insert n id (record (post_messages messages b) { signals = [] }) s.subscriptions,
    )
  ]
]

route_topic-lookup :
    (topic_id : ℕ) (attached : Map SubscriptionName ℕ) (names : List SubscriptionName)
    (messages : List TopicMessage) (s : Server) (id : ℕ)
    → Distinct attached names
    → lookup id (route_topic topic_id attached (post_to names messages []) s).subscriptions ≡ (
        if any (attached_as attached id) names
        then after_post messages (lookup id s.subscriptions)
        else lookup id s.subscriptions)
unfolding route_topic route_topic_signal
route_topic-lookup topic_id attached [] messages s id d = refl
route_topic-lookup topic_id attached (name ∷ names) messages s id d = ground (
  arith,
  route_topic-lookup topic_id attached names messages (deliver_post attached name messages s) id
      d.1,
  deliver_post-lookup attached name messages s id,
  d.0 id,
)

-- The answer to a publish, and where the messages went.
pub record Delivered (a : TopicActor) (messages : List TopicMessage) (s s' : Server) (ids : List ℕ)
    : Type 0 where
  pub new : List TopicMessage
  pub same_content : map content new ≡ map content messages
  pub answered : ids ≡ ids_of new
  pub delivered :
      (id : ℕ)
      → lookup id s'.subscriptions ≡ (
          if any (attached_as a.subscriptions id) (names_of a.subscriptions)
          then after_post new (lookup id s.subscriptions)
          else lookup id s.subscriptions)

published-injective : (ids jds : List ℕ) → published ids ≡ published jds → jds ≡ ids
published-injective ids jds e = ground arith

call_topic-live :
    (clock : Clock) (id : ℕ) (request : TopicRequest) (s : Server) (a : TopicActor)
    → lookup id s.topics ≡ some a
    → call_topic clock id request s
      ≡ finish_topic_call id a.subscriptions
          (receive_topic (publish_environment clock a s) request (record a { signals = [] }))
          s
unfolding call_topic
call_topic-live clock id request s a live = rw (live, call_topic) refl

publish_closed-published : (ids : List ℕ) → publish_closed ≢ published ids
publish_closed-published ids e = ground arith

response-injective :
    (r : Publish) (ids : List ℕ)
    → some (publishes r) ≡ some (publishes (published ids))
    → r ≡ published ids
response-injective r ids e = ground arith

publish_messages-Delivered :
    (env : PublishEnvironment) (topic_id : ℕ) (messages : List TopicMessage) (s : Server)
    (a : TopicActor) (ids : List ℕ)
    → Distinct a.subscriptions (names_of a.subscriptions)
    → let (a', answer) = publish_messages env messages (record a { signals = [] }) in
      answer ≡ published ids
      → Delivered a messages s
          (finish_topic_call topic_id a.subscriptions (a', publishes answer) s).0
          ids
unfolding publish_messages with_published finish_topic_call
publish_messages-Delivered env topic_id messages s a ids distinct =
    let new = (assign env a.topic_internal_id a.next_message_id messages).messages in
    let names = names_of a.subscriptions in
    if_cases
      (λ (q : TopicActor × Publish).
        q.1 ≡ published ids
        → Delivered a messages s
            (finish_topic_call topic_id a.subscriptions (q.0, publishes q.1) s).0 ids)
      (all_answer env.answers names) _ _
      (λ _ e. record {
        new = new;
        same_content = assign-content env a.topic_internal_id a.next_message_id messages;
        answered = published-injective (ids_of new) ids e;
        delivered = λ id. route_topic-lookup topic_id a.subscriptions names new _ id distinct;
      })
      (λ _ e. absurd (publish_closed-published ids e))

-- On a topic whose actor is there, with no internal ID attached under two names, a publish that
-- answers with identifiers has handed messages of the same content, under these identifiers, to
-- the actor of every attached subscription, and to no other.
pub call_topic-Delivered :
    (clock : Clock) (topic_id : ℕ) (messages : List TopicMessage) (s : Server) (a : TopicActor)
    (ids : List ℕ)
    → lookup topic_id s.topics ≡ some a
    → Distinct a.subscriptions (names_of a.subscriptions)
    → (call_topic clock topic_id (publish messages) s).1 ≡ some (publishes (published ids))
    → Delivered a messages s (call_topic clock topic_id (publish messages) s).0 ids
unfolding receive_topic finish_topic_call
call_topic-Delivered clock topic_id messages s a ids live distinct answer =
    let called = call_topic-live clock topic_id (publish messages) s a live in
    subst (λ (q : Server × Option TopicResponse). Delivered a messages s q.0 ids) (sym called)
      (publish_messages-Delivered (publish_environment clock a s) topic_id messages s a ids distinct
        (response-injective _ ids
          (ap (λ (q : Server × Option TopicResponse). q.1) (sym called) ∙ answer)))
