-- ===== src/Subscriptions/Actor/Requeue.antt =====
-- `requeue_messages`, `try_publish_dead_lettered_messages` and `handle_retry_ready`.
use deltio.Prelude.{
  Bool, List, Map, Option, [], any, codes, false, if◌then◌else◌, insert, is_empty, length, lookup,
  ltb, min, none, not, remove, some, ℕ, ◌&&◌, ◌++◌, ◌+◌, ◌-◌, ◌^◌, ◌∷◌, nat_eq, bytes_eq_instance,
}
use deltio.Text.Decimal.{decimal}
use deltio.Text.Time.{format_rfc3339}
use deltio.Topics.Message.{TopicMessage, Attributes, new_message}
use deltio.Topics.Name.{SubscriptionName}
use deltio.Subscriptions.Policies.{RetryPolicy, DeadLetterPolicy, calculate_backoff}
use deltio.Subscriptions.Info.{add_u64}
use deltio.Subscriptions.Pulled.{PulledMessage, ack_deadline}
use deltio.Subscriptions.RetryQueue.{schedule_message}
use deltio.Subscriptions.Actor.{
  SubscriptionActor, Environment, messages_available, dead_letters_published, signal, signal_if,
  is_message_expired,
}
use deltio.Subscriptions.Actor.Post.{requeue_one}

-- The attempt of a message that comes back: saturating on a `u16`, 2 for the first return.
abbrev pub next_attempt : Option ℕ → ℕ
next_attempt none = 2
next_attempt (some n) = min (n + 1) (2 ^ 16 - 1)

abbrev pub dead_letters : Option DeadLetterPolicy → ℕ → Bool
dead_letters none attempt = false
dead_letters (some dlp) attempt = ltb dlp.max_delivery_attempts attempt

abbrev pub or_no_attributes : Option Attributes → Attributes
or_no_attributes none = []
or_no_attributes (some attrs) = attrs

-- The message for the dead-letter topic: the payload, and the attributes with the source's.
unfoldable pub dead_letter_message : SubscriptionName → ℕ → ℕ → TopicMessage → TopicMessage
dead_letter_message name attempt now m =
    new_message m.payload
      (some (
        insert (codes "CloudPubSubDeadLetterSourceTopicPublishTime") (format_rfc3339 m.published_at)
          (insert (codes "CloudPubSubDeadLetterSourceSubscriptionProject") name.project_id (
            insert (codes "CloudPubSubDeadLetterSourceSubscription") name.subscription_id (
              insert (codes "CloudPubSubDeadLetterSourceDeliveryCount") (decimal (attempt - 1))
                (or_no_attributes m.attributes))))))
      now

pub record Requeueing : Type 0 where
  pub actor : SubscriptionActor
  pub dead_letter_messages : List TopicMessage
  pub dead_letter_message_ids : List ℕ

-- Back to the retry queue with a backoff, or to where it can be pulled at once.
unfoldable pub requeue_with :
    Option RetryPolicy → ℕ → ℕ → SubscriptionActor → TopicMessage → SubscriptionActor
requeue_with none attempt now a m = requeue_one a m
requeue_with (some policy) attempt now a m = record a {
  retry_queue =
      schedule_message a.retry_queue m (ack_deadline (now + calculate_backoff policy attempt));
}

-- One round of the loop of `requeue_messages`, once the attempt is counted.
unfoldable pub requeue_counted : ℕ → ℕ → TopicMessage → Requeueing → Requeueing
requeue_counted attempt now m r =
    if dead_letters r.actor.info.dead_letter_policy attempt
    then record r {
      dead_letter_messages =
          r.dead_letter_messages ++ dead_letter_message r.actor.info.name attempt now m ∷ [];
      dead_letter_message_ids = r.dead_letter_message_ids ++ m.id ∷ [];
    }
    else record r { actor = requeue_with r.actor.info.retry_policy attempt now r.actor m }

unfoldable pub count_attempt : ℕ → SubscriptionActor → SubscriptionActor
count_attempt id a = record a {
  delivery_attempts = insert id (next_attempt (lookup id a.delivery_attempts)) a.delivery_attempts;
}

unfoldable pub requeue_message : ℕ → TopicMessage → Requeueing → Requeueing
requeue_message now m r =
    requeue_counted (next_attempt (lookup m.id r.actor.delivery_attempts)) now m
      (record r { actor = count_attempt m.id r.actor })

unfoldable pub requeue_each : ℕ → List PulledMessage → Requeueing → Requeueing
requeue_each now [] r = r
requeue_each now (p ∷ ps) r = requeue_each now ps (requeue_message now p.message r)

-- The publish itself is a task of its own; a missing topic drops the messages.
unfoldable pub try_publish_dead_lettered_messages :
    Environment → List TopicMessage → SubscriptionActor → SubscriptionActor
try_publish_dead_lettered_messages env messages a = elim a.info.dead_letter_policy [
  | none ↦ a
  | some dlp ↦
      if a.has_topic_manager && env.dead_letter_topic_exists
      then signal (dead_letters_published dlp.dead_letter_topic messages) a
      else a
]

unfoldable pub remove_all : List ℕ → Map ℕ ℕ → Map ℕ ℕ
remove_all [] attempts = attempts
remove_all (id ∷ ids) attempts = remove_all ids (remove id attempts)

unfoldable pub publish_dead_letters : Environment → Requeueing → SubscriptionActor
publish_dead_letters env r =
    let counted = record (r.actor) {
      counters = record (r.actor.counters) {
        dead_lettered = add_u64 r.actor.counters.dead_lettered (length r.dead_letter_messages);
      };
    } in
    let published = try_publish_dead_lettered_messages env r.dead_letter_messages counted in
    record published {
      delivery_attempts = remove_all r.dead_letter_message_ids published.delivery_attempts;
    }

unfoldable pub finish_requeue : Environment → Requeueing → SubscriptionActor
finish_requeue env r =
    let a = if is_empty r.dead_letter_messages then r.actor else publish_dead_letters env r in
    signal_if (not (is_empty a.backlog)) messages_available a

unfoldable pub requeue_messages :
    Environment → List PulledMessage → SubscriptionActor → SubscriptionActor
requeue_messages env messages a = finish_requeue env (
    requeue_each env.now messages
      (record { actor = a; dead_letter_messages = []; dead_letter_message_ids = [] }))

-- The select arm for expired deadlines.
unfoldable pub handle_expired_messages :
    Environment → List PulledMessage → SubscriptionActor → SubscriptionActor
handle_expired_messages env expired a = requeue_messages env expired (record a {
  counters = record (a.counters) { expired = add_u64 a.counters.expired (length expired) };
})

-- The loop of `handle_retry_ready`: a message that aged past the retention is dropped.
unfoldable pub retry_each : ℕ → List TopicMessage → SubscriptionActor → SubscriptionActor
retry_each now [] a = a
retry_each now (m ∷ ms) a = retry_each now ms (
    if is_message_expired a.info now m
    then record a { delivery_attempts = remove m.id a.delivery_attempts }
    else requeue_one a m)

unfoldable pub handle_retry_ready : ℕ → List TopicMessage → SubscriptionActor → SubscriptionActor
handle_retry_ready now ready a =
    signal_if (any (λ m. not (is_message_expired a.info now m)) ready) messages_available
      (retry_each now ready a)
