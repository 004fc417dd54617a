-- ===== src/Subscriptions/Actor/Post.antt =====
-- `post_messages`, and `requeue_one`, which puts a message back.
use deltio.Prelude.{
  Bool, Bytes, List, Option, [], any, discard, if◌then◌else◌, insert, none, some, true, ◌++◌, ◌∷◌,
  bytes_eq_instance,
}
use deltio.Topics.Message.{TopicMessage, append_messages}
use deltio.Subscriptions.Filter.{Filter, matches}
use deltio.Subscriptions.Actor.{
  SubscriptionActor, messages_available, signal_if, queue_of, ordered_key,
}

abbrev pub accepts : Option Filter → TopicMessage → Bool
accepts none m = true
accepts (some f) m = matches f m.attributes

-- A message that passed the filter joins the queue of its key, or the backlog.
abbrev enqueue_at : Option Bytes → SubscriptionActor → TopicMessage → SubscriptionActor
enqueue_at (some key) a m = record a {
  ordered_queues = insert key (queue_of key a.ordered_queues ++ m ∷ []) a.ordered_queues;
}
enqueue_at none a m = record a { backlog = append_messages a.backlog (m ∷ []) }

unfoldable pub enqueue : SubscriptionActor → TopicMessage → SubscriptionActor
enqueue a m = enqueue_at (ordered_key a.info m) a m

-- The loop of `post_messages`.
unfoldable pub post_each : List TopicMessage → SubscriptionActor → SubscriptionActor
post_each [] a = a
post_each (m ∷ ms) a = post_each ms (if accepts a.compiled_filter m then enqueue a m else a)

unfoldable pub post_messages : List TopicMessage → SubscriptionActor → SubscriptionActor
post_messages new_messages a =
    if a.deleted
    then a
    else signal_if (any (accepts a.compiled_filter) new_messages) messages_available
        (post_each new_messages a)

abbrev requeue_at : Option Bytes → SubscriptionActor → TopicMessage → SubscriptionActor
requeue_at (some key) a m = record a {
  ordered_queues = insert key (m ∷ queue_of key a.ordered_queues) a.ordered_queues;
  keys_in_flight = discard key a.keys_in_flight;
}
requeue_at none a m = record a { backlog = append_messages a.backlog (m ∷ []) }

-- A keyed message of an ordered subscription returns to the head of its queue and frees its key.
unfoldable pub requeue_one : SubscriptionActor → TopicMessage → SubscriptionActor
requeue_one a m = requeue_at (ordered_key a.info m) a m
