-- ===== src/Subscriptions/Actor/Requests.antt =====
-- The other requests: acks, deadline modifications, updates, detach, delete, seek and stats.
use deltio.Prelude.{
  Bool, Bytes, List, Map, Option, [], contains, discard, false, if◌then◌else◌, is_empty, is_some,
  length, ltb, none, not, remove, some, true, weigh, ℕ, ◌+◌, ◌-◌, ◌||◌, ◌∷◌, nat_eq,
  bytes_eq_instance,
}
use deltio.Topics.Message.{TopicMessage, Messages, retain_messages}
use deltio.Topics.Name.{deleted_topic, TopicName}
use deltio.Subscriptions.Pulled.{PulledMessage, DeadlineModification}
use deltio.Subscriptions.Info.{
  SubscriptionInfo, SubscriptionStats, SubscriptionUpdate, PushConfig, AckOutcome, apply_update,
  add_u64,
}
use deltio.Subscriptions.Outstanding
use deltio.Subscriptions.Outstanding.{
  OutstandingMessageTracker, clear, drain, holds, len, modify, oldest_published_at, remove_ids,
}
use deltio.Subscriptions.RetryQueue.{clear_queue, drain_queue, retry_len}
use deltio.Subscriptions.Actor.{
  SubscriptionActor, Environment, messages_available, outstanding_freed, deleted_sent,
  push_registry_set, topic_remove_subscription, manager_delete, signal, signal_if, ordered_key,
}
use deltio.Subscriptions.Actor.Post.{requeue_one}
use deltio.Subscriptions.Actor.Requeue.{requeue_messages}

abbrev pub no_outcome : AckOutcome
no_outcome = record { valid = []; invalid = [] }

-- The ack IDs of a request by whether they are outstanding.
unfoldable pub split_ids : OutstandingMessageTracker → List ℕ → AckOutcome
split_ids t [] = no_outcome
split_ids t (id ∷ ids) =
    let rest = split_ids t ids in
    if Outstanding.holds t id
    then record rest { valid = id ∷ rest.valid }
    else record rest { invalid = id ∷ rest.invalid }

pub record Acking : Type 0 where
  pub delivery_attempts : Map ℕ ℕ
  pub keys_in_flight : List Bytes
  pub freed : Bool

-- One acked message: its attempts are forgotten, and its key is free.
abbrev pub free_key : Option Bytes → Acking → Acking
free_key none s = s
free_key (some key) s = record s {
  keys_in_flight = discard key s.keys_in_flight;
  freed = s.freed || contains key s.keys_in_flight;
}

unfoldable pub ack_each : SubscriptionInfo → List PulledMessage → Acking → Acking
ack_each info [] s = s
ack_each info (p ∷ ps) s = ack_each info ps (
    free_key (ordered_key info p.message)
      (record s { delivery_attempts = remove p.message.id s.delivery_attempts }))

pub acking : List PulledMessage → SubscriptionActor → Acking
unfolding ack_each
acking acked a = ack_each a.info acked (record {
  delivery_attempts = a.delivery_attempts;
  keys_in_flight = a.keys_in_flight;
  freed = false;
})

-- The state without the acked messages, which the tracker no longer has.
unfoldable pub without_acked :
    OutstandingMessageTracker → List PulledMessage → SubscriptionActor → SubscriptionActor
unfolding acking
without_acked tracker acked a = record a {
  outstanding = tracker;
  delivery_attempts = (acking acked a).delivery_attempts;
  keys_in_flight = (acking acked a).keys_in_flight;
  counters = record (a.counters) { acked = add_u64 a.counters.acked (length acked) };
}

unfoldable pub acknowledge_messages : List ℕ → SubscriptionActor → SubscriptionActor × AckOutcome
unfolding without_acked split_ids
acknowledge_messages ack_ids a =
    let outcome = split_ids a.outstanding ack_ids in
    let (tracker, acked) = Outstanding.remove_ids a.outstanding outcome.valid in
    if a.deleted then (a, no_outcome) else (
      signal_if (acking acked a).freed messages_available
          (signal_if (not (is_empty acked)) outstanding_freed (without_acked tracker acked a)),
      outcome,
    )

abbrev pub modified_ids : List DeadlineModification → List ℕ
modified_ids [] = []
modified_ids (c ∷ cs) = c.ack_id ∷ modified_ids cs

unfoldable pub modify_deadline :
    Environment → List DeadlineModification → SubscriptionActor → SubscriptionActor × AckOutcome
modify_deadline env deadline_modifications a =
    let outcome = split_ids a.outstanding (modified_ids deadline_modifications) in
    let (tracker, nacks) = Outstanding.modify a.outstanding deadline_modifications in
    let counted = record a {
      outstanding = tracker;
      counters = record (a.counters) { nacked = add_u64 a.counters.nacked (length nacks) };
    } in
    if a.deleted then (a, no_outcome) else (requeue_messages env nacks counted, outcome)

unfoldable pub update_info : SubscriptionUpdate → SubscriptionActor → SubscriptionActor
update_info update a = record a { info = apply_update a.info update }

unfoldable pub modify_push_config : Option PushConfig → SubscriptionActor → SubscriptionActor
modify_push_config push_config a =
    signal (push_registry_set a.info.name push_config)
      (record a { info = record (a.info) { push_config = push_config } })

-- The state without any message.
unfoldable pub clear_messages : SubscriptionActor → SubscriptionActor
clear_messages a = record a {
  outstanding = Outstanding.clear a.outstanding;
  backlog = [];
  retry_queue = clear_queue a.retry_queue;
  delivery_attempts = [];
  ordered_queues = [];
  keys_in_flight = [];
}

unfoldable pub detach : SubscriptionActor → SubscriptionActor
detach a =
    if a.info.detached
    then a
    else clear_messages (record a { info = record (a.info) { detached = true } })

pub data Deletion : Type 0 where
  done closed : Deletion

-- The rest of `delete`, once the topic has answered.
unfoldable pub finish_delete : SubscriptionActor → SubscriptionActor
finish_delete a =
    signal (push_registry_set a.info.name none)
      (clear_messages (signal deleted_sent (signal (manager_delete a.info.name) a)))

unfoldable pub delete : Environment → SubscriptionActor → SubscriptionActor × Deletion
delete env a =
    let marked = record a { deleted = true } in
    let removed = signal (topic_remove_subscription a.info.name) marked in
    if a.deleted
    then (a, done)
    else if not (is_some env.topic)
    then (finish_delete marked, done)
    else if env.topic_answers
    then (finish_delete removed, done)
    else (removed, closed)

abbrev pub published_after : ℕ → TopicMessage → Bool
published_after seek_time m = ltb seek_time m.published_at

-- `ordered_queues.retain`: filtered queues, without those that became empty.
unfoldable pub retain_queues : ℕ → Map Bytes Messages → Map Bytes Messages
retain_queues seek_time [] = []
retain_queues seek_time ((key, q) ∷ queues) =
    let rest = retain_queues seek_time queues in
    let kept = retain_messages q (published_after seek_time) in
    if is_empty kept then rest else (key, kept) ∷ rest

unfoldable pub requeue_newer : ℕ → List TopicMessage → SubscriptionActor → SubscriptionActor
requeue_newer seek_time [] a = a
requeue_newer seek_time (m ∷ ms) a =
    requeue_newer seek_time ms (if published_after seek_time m then requeue_one a m else a)

abbrev pub messages_of : List PulledMessage → List TopicMessage
messages_of [] = []
messages_of (p ∷ ps) = p.message ∷ messages_of ps

-- All delivery state is reset, and the queues keep what is newer.
unfoldable pub reset_for_seek : ℕ → SubscriptionActor → SubscriptionActor
unfolding retain_queues
reset_for_seek seek_time a = record a {
  outstanding = (Outstanding.drain a.outstanding).0;
  retry_queue = (drain_queue a.retry_queue).0;
  keys_in_flight = [];
  delivery_attempts = [];
  backlog = retain_messages a.backlog (published_after seek_time);
  ordered_queues = retain_queues seek_time a.ordered_queues;
}

unfoldable pub seek_to_time : ℕ → SubscriptionActor → SubscriptionActor
seek_to_time seek_time a =
    let outstanding = messages_of (Outstanding.drain a.outstanding).1 in
    let retrying = (drain_queue a.retry_queue).1 in
    let requeued =
      requeue_newer seek_time retrying
        (requeue_newer seek_time outstanding (reset_for_seek seek_time a)) in
    if a.deleted then a else signal messages_available (signal outstanding_freed requeued)

abbrev age : ℕ → Option ℕ → ℕ
age now none = 0
age now (some published_at) = now - published_at

abbrev or_deleted : Option TopicName → TopicName
or_deleted none = deleted_topic
or_deleted (some name) = name

unfoldable pub get_stats : Environment → SubscriptionActor → SubscriptionStats
get_stats env a = record {
  subscription_name = a.info.name;
  topic_name = or_deleted env.topic;
  outstanding_messages_count = Outstanding.len a.outstanding;
  backlog_messages_count = length a.backlog + weigh length a.ordered_queues;
  retry_messages_count = retry_len a.retry_queue;
  oldest_unacked_age = age env.system_now (Outstanding.oldest_published_at a.outstanding);
  counters = a.counters;
}
