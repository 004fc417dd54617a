-- ===== src/Topics/Actor/Ids.antt =====
-- The identifiers that a topic gives to its messages.
use deltio.Prelude.{
  Bool, Bytes, List, Map, Option, [], any, ap, arith, false, if_cases, length, map, not, refl,
  retain, sym, true, ℕ, ◌%◌, ◌&&◌, ◌++◌, ◌+◌, ◌<◌, ◌^◌, ◌∙◌, ◌∷◌, ◌≡◌, ◌≤◌, nat_eq,
  bytes_eq_instance,
}
use mathlib.Core.Path.{subst}
use deltio.Topics.Name.{SubscriptionName}
use deltio.Topics.Message.{Attributes, TopicMessage, message_id}
use deltio.Subscriptions.Info.{add_u64}
use deltio.Topics.Actor.{
  posted, TopicSignal, TopicActor, PublishEnvironment, Publish, published, publish_closed, Assigned,
  assign, ids_of, names_of, post_to, payload_bytes, all_answer, publish_messages, with_published,
}

-- The identifiers of messages increase strictly, from above `from` up to `to`.
abbrev Increasing : ℕ → List TopicMessage → ℕ → Type 0
Increasing from [] to = from ≤ to
Increasing from (m ∷ ms) to = (from < m.id) × Increasing m.id ms to

Increasing-append :
    (from mid to : ℕ) (ms ns : List TopicMessage)
    → Increasing from ms mid
    → Increasing mid ns to
    → Increasing from (ms ++ ns) to
Increasing-append from mid to [] [] h h' = omega arith
Increasing-append from mid to [] (n ∷ ns) h h' = (omega (arith, h, h'.0), h'.1)
Increasing-append from mid to (m ∷ ms) ns h h' = (h.0, Increasing-append m.id mid to ms ns h.1 h')

-- What numbering a list of messages gives.
record Numbers (topic_id next : ℕ) (ms : List TopicMessage) (new : Assigned) : Type 0 where
  pub advanced : new.next_message_id ≡ next + length ms
  pub as_many : length new.messages ≡ length ms
  pub same_size : payload_bytes new.messages ≡ payload_bytes ms
  pub increasing :
      Increasing (message_id topic_id next) new.messages (message_id topic_id new.next_message_id)

assign-Numbers :
    (env : PublishEnvironment) (topic_id next : ℕ) (ms : List TopicMessage)
    → next + length ms < 2 ^ 32
    → Numbers topic_id next ms (assign env topic_id next ms)
unfolding assign message_id
assign-Numbers env topic_id next [] h = record {
  advanced = omega arith;
  as_many = refl;
  same_size = refl;
  increasing = omega arith;
}
assign-Numbers env topic_id next (m ∷ ms) h =
    let next_id = (next + 1) % 2 ^ 32 in
    let x = assign-Numbers env topic_id next_id ms (omega arith) in
    record {
      advanced = omega (arith, x.advanced);
      as_many = omega (arith, x.as_many);
      same_size = omega (arith, x.same_size);
      increasing = (message_id-later topic_id next h, x.increasing);
    }
  where
    message_id-later :
        (topic_id next : ℕ)
        → next + length (m ∷ ms) < 2 ^ 32
        → message_id topic_id next < message_id topic_id ((next + 1) % 2 ^ 32)
    message_id-later topic_id next h' = omega arith

-- What a publisher gives of a message.
abbrev pub content : TopicMessage → Bytes × Option Attributes × Option Bytes
content m = (m.payload, m.attributes, m.ordering_key)

pub assign-content :
    (env : PublishEnvironment) (topic_id next : ℕ) (ms : List TopicMessage)
    → map content (assign env topic_id next ms).messages ≡ map content ms
unfolding assign
assign-content env topic_id next [] = refl
assign-content env topic_id next (m ∷ ms) =
    ap (λ l. content m ∷ l) (assign-content env topic_id ((next + 1) % 2 ^ 32) ms)

assign-stamped :
    (env : PublishEnvironment) (topic_id next : ℕ) (ms : List TopicMessage)
    → map (λ (m : TopicMessage). m.published_at) (assign env topic_id next ms).messages
      ≡ map (λ m. env.publish_time) ms
unfolding assign
assign-stamped env topic_id next [] = refl
assign-stamped env topic_id next (m ∷ ms) =
    ap (λ l. env.publish_time ∷ l) (assign-stamped env topic_id ((next + 1) % 2 ^ 32) ms)

abbrev pub subscribers : TopicActor → List SubscriptionName
subscribers a = map (λ (s : SubscriptionName × ℕ). s.0) a.subscriptions

names_of-map :
    (subscriptions : Map SubscriptionName ℕ)
    → names_of subscriptions ≡ map (λ (s : SubscriptionName × ℕ). s.0) subscriptions
names_of-map [] = refl
names_of-map ((name, id) ∷ rest) = ap (λ l. name ∷ l) (names_of-map rest)

post_to-map :
    (names : List SubscriptionName) (ms : List TopicMessage) (before : List TopicSignal)
    → post_to names ms before ≡ map (λ n. posted n ms) names ++ before
post_to-map [] ms before = refl
post_to-map (name ∷ names) ms before = ap (λ l. posted name ms ∷ l) (post_to-map names ms before)

all_answer-any :
    (answers : SubscriptionName → Bool) (names : List SubscriptionName)
    → all_answer answers names ≡ not (any (λ n. not (answers n)) names)
all_answer-any answers [] = refl
all_answer-any answers (name ∷ names) = ground (arith, all_answer-any answers names)

-- What is posted and answered, by whether a subscription does not take the post.
abbrev Posted :
    Bool → PublishEnvironment → List TopicMessage → TopicActor → List TopicSignal → Publish → Type 0
Posted false env new a signals answer =
    (answer ≡ published (ids_of new))
    × (signals ≡ map (λ n. posted n new) (subscribers a) ++ a.signals)
Posted true env new a signals answer =
    (answer ≡ publish_closed)
    × (signals
        ≡ map (λ n. posted n new) (retain (λ n. env.answers n && env.arrives n) (subscribers a))
          ++ a.signals)

-- The outcome of a publish: the new messages have the content that was given and the time of the
-- publish; they are kept behind the old ones and counted, under identifiers that increase from the
-- last one on. What is posted and answered depends on whether every subscription takes the post.
pub record Publishes (env : PublishEnvironment) (messages : List TopicMessage) (a b : TopicActor)
    (answer : Publish) : Type 0 where
  pub new : List TopicMessage
  pub kept : b.messages ≡ a.messages ++ new
  pub same_content : map content new ≡ map content messages
  pub stamped :
      map (λ (m : TopicMessage). m.published_at) new ≡ map (λ m. env.publish_time) messages
  pub counted :
      (b.published_count ≡ add_u64 a.published_count (length messages))
      × (b.published_bytes ≡ add_u64 a.published_bytes (payload_bytes messages))
  pub increasing :
      (from : ℕ)
      → Increasing from a.messages (message_id a.topic_internal_id a.next_message_id)
      → Increasing from b.messages (message_id b.topic_internal_id b.next_message_id)
  pub posts : Posted (any (λ n. not (env.answers n)) (subscribers a)) env new a b.signals answer

-- What does not depend on the posts.
with_published-Publishes :
    (env : PublishEnvironment) (messages : List TopicMessage) (a : TopicActor)
    (signals : List TopicSignal) (answer : Publish)
    → a.next_message_id + length messages < 2 ^ 32
    → let new = assign env a.topic_internal_id a.next_message_id messages in
      let b = record (with_published new a) { signals = signals } in
      Posted (any (λ n. not (env.answers n)) (subscribers a)) env new.messages a signals answer
      → Publishes env messages a b answer
unfolding with_published
with_published-Publishes env messages a signals answer h posts =
    let new = assign env a.topic_internal_id a.next_message_id messages in
    let x = assign-Numbers env a.topic_internal_id a.next_message_id messages h in
    let first = message_id a.topic_internal_id a.next_message_id in
    let last = message_id a.topic_internal_id new.next_message_id in
    record {
      new = new.messages;
      kept = refl;
      same_content = assign-content env a.topic_internal_id a.next_message_id messages;
      stamped = assign-stamped env a.topic_internal_id a.next_message_id messages;
      counted =
          (ap (add_u64 a.published_count) x.as_many, ap (add_u64 a.published_bytes) x.same_size);
      increasing =
          λ from old. Increasing-append from first last a.messages new.messages old x.increasing;
      posts = posts;
    }

-- A publish keeps the messages, with their content, under new identifiers, as long as the 32-bit
-- message number does not wrap. If every attached subscription takes the post, each was posted the
-- new messages, and the answer has their identifiers; if one does not, the publish fails, and the
-- messages are posted to those of the others that they still reach.
pub publish_messages-Publishes :
    (env : PublishEnvironment) (messages : List TopicMessage) (a : TopicActor)
    → a.next_message_id + length messages < 2 ^ 32
    → Publishes env messages a
        (publish_messages env messages a).0
        (publish_messages env messages a).1
unfolding publish_messages
publish_messages-Publishes env messages a h =
    let new = (assign env a.topic_internal_id a.next_message_id messages).messages in
    let names = names_of a.subscriptions in
    let reached = λ (l : List SubscriptionName). retain (λ n. env.answers n && env.arrives n) l in
    let some_missing = λ (l : List SubscriptionName). any (λ n. not (env.answers n)) l in
    let same = names_of-map a.subscriptions in
    if_cases (λ (r : TopicActor × Publish). Publishes env messages a r.0 r.1)
      (all_answer env.answers names) _ _
      (λ e.
        with_published-Publishes env messages a (post_to names new a.signals)
          (published (ids_of new)) h
          (subst (λ b. Posted b env new a (post_to names new a.signals) (published (ids_of new)))
            (sym (missing names false e) ∙ ap some_missing same)
            (
              refl,
              post_to-map names new a.signals
                  ∙ ap (λ l. map (λ n. posted n new) l ++ a.signals) same,
            )))
      (λ e.
        with_published-Publishes env messages a (post_to (reached names) new a.signals)
          publish_closed h
          (subst (λ b. Posted b env new a (post_to (reached names) new a.signals) publish_closed)
            (sym (missing names true e) ∙ ap some_missing same)
            (
              refl,
              post_to-map (reached names) new a.signals
                  ∙ ap (λ l. map (λ n. posted n new) (reached l) ++ a.signals) same,
            )))
  where
    missing :
        (names : List SubscriptionName) (b : Bool)
        → all_answer env.answers names ≡ not b
        → any (λ n. not (env.answers n)) names ≡ b
    missing names b e = ground (arith, all_answer-any env.answers names)
