-- ===== src/Subscriptions/Actor/SameInfo.antt =====
-- Which requests change the settings of a subscription.
pub mod Pull
use deltio.Prelude.{
  Bool, List, Option, [], any, arith, false, if_cases, if◌then◌else◌, is_empty, length, lookup,
  none, not, refl, remove, some, true, ℕ, ◌∙◌, ◌∷◌, ◌≡◌, nat_eq, bytes_eq_instance,
}
use deltio.Subscriptions.Outstanding
use deltio.Subscriptions.RetryQueue.{drain_queue}
use deltio.Topics.Message.{TopicMessage}
use deltio.Subscriptions.Info.{add_u64}
use deltio.Subscriptions.Policies.{RetryPolicy}
use deltio.Subscriptions.Pulled.{PulledMessage, DeadlineModification}
use deltio.Subscriptions.Actor.{
  SubscriptionActor, Environment, Signal, signal_if, messages_available, is_message_expired,
}
use deltio.Subscriptions.Actor.Post.{accepts, enqueue, post_each, post_messages, requeue_one}
use deltio.Subscriptions.Actor.Pull.{pull_key}
use deltio.Subscriptions.Actor.Requeue.{
  Requeueing, requeue_with, requeue_counted, count_attempt, requeue_message, requeue_each,
  try_publish_dead_lettered_messages, publish_dead_letters, finish_requeue, requeue_messages,
  handle_expired_messages, next_attempt, retry_each, handle_retry_ready,
}
use deltio.Subscriptions.Actor.Requests.{
  acknowledge_messages, without_acked, modify_deadline, clear_messages, finish_delete, delete,
  messages_of, published_after, requeue_newer, reset_for_seek, seek_to_time,
}

signal_if-info : (b : Bool) (x : Signal) (a : SubscriptionActor) → (signal_if b x a).info ≡ a.info
signal_if-info true x a = refl
signal_if-info false x a = refl

enqueue-info : (a : SubscriptionActor) (m : TopicMessage) → (enqueue a m).info ≡ a.info
unfolding enqueue
enqueue-info a m = ground arith

requeue_one-info : (a : SubscriptionActor) (m : TopicMessage) → (requeue_one a m).info ≡ a.info
unfolding requeue_one
requeue_one-info a m = ground arith

post_each-info : (ms : List TopicMessage) (a : SubscriptionActor) → (post_each ms a).info ≡ a.info
unfolding post_each
post_each-info [] a = refl
post_each-info (m ∷ ms) a =
    post_each-info ms (if accepts a.compiled_filter m then enqueue a m else a)
    ∙ if_cases (λ (b : SubscriptionActor). b.info ≡ a.info) (accepts a.compiled_filter m)
        (enqueue a m) a (λ _. enqueue-info a m) (λ _. refl)

pub post_messages-info :
    (ms : List TopicMessage) (a : SubscriptionActor) → (post_messages ms a).info ≡ a.info
unfolding post_messages
post_messages-info ms a = ground (
  arith,
  signal_if-info (any (accepts a.compiled_filter) ms) messages_available (post_each ms a),
  post_each-info ms a,
)

requeue_with-info :
    (policy : Option RetryPolicy) (attempt now : ℕ) (a : SubscriptionActor) (m : TopicMessage)
    → (requeue_with policy attempt now a m).info ≡ a.info
unfolding requeue_with
requeue_with-info none attempt now a m = requeue_one-info a m
requeue_with-info (some policy) attempt now a m = refl

requeue_counted-info :
    (attempt now : ℕ) (m : TopicMessage) (r : Requeueing)
    → (requeue_counted attempt now m r).actor.info ≡ r.actor.info
unfolding requeue_counted
requeue_counted-info attempt now m r =
    ground (arith, requeue_with-info r.actor.info.retry_policy attempt now r.actor m)

requeue_message-info :
    (now : ℕ) (m : TopicMessage) (r : Requeueing)
    → (requeue_message now m r).actor.info ≡ r.actor.info
unfolding requeue_message count_attempt
requeue_message-info now m r =
    requeue_counted-info (next_attempt (lookup m.id r.actor.delivery_attempts)) now m
      (record r { actor = count_attempt m.id r.actor })

requeue_each-info :
    (now : ℕ) (ps : List PulledMessage) (r : Requeueing)
    → (requeue_each now ps r).actor.info ≡ r.actor.info
unfolding requeue_each
requeue_each-info now [] r = refl
requeue_each-info now (p ∷ ps) r =
    requeue_each-info now ps (requeue_message now p.message r)
    ∙ requeue_message-info now p.message r

publish_dead_letters-info :
    (env : Environment) (r : Requeueing) → (publish_dead_letters env r).info ≡ r.actor.info
unfolding publish_dead_letters try_publish_dead_lettered_messages
publish_dead_letters-info env r = ground arith

requeue_messages-info :
    (env : Environment) (ps : List PulledMessage) (a : SubscriptionActor)
    → (requeue_messages env ps a).info ≡ a.info
unfolding requeue_messages finish_requeue
requeue_messages-info env ps a =
    let start : Requeueing = record {
      actor = a;
      dead_letter_messages = [];
      dead_letter_message_ids = [];
    } in
    let r = requeue_each env.now ps start in
    let b = if is_empty r.dead_letter_messages then r.actor else publish_dead_letters env r in
    signal_if-info (not (is_empty b.backlog)) messages_available b
    ∙ ground (arith, publish_dead_letters-info env r)
    ∙ requeue_each-info env.now ps start

pub handle_expired_messages-info :
    (env : Environment) (ps : List PulledMessage) (a : SubscriptionActor)
    → (handle_expired_messages env ps a).info ≡ a.info
unfolding handle_expired_messages
handle_expired_messages-info env ps a = requeue_messages-info env ps (record a {
  counters = record (a.counters) { expired = add_u64 a.counters.expired (length ps) };
})

retry_each-info :
    (now : ℕ) (ms : List TopicMessage) (a : SubscriptionActor) → (retry_each now ms a).info ≡ a.info
unfolding retry_each
retry_each-info now [] a = refl
retry_each-info now (m ∷ ms) a =
    retry_each-info now ms (
      if is_message_expired a.info now m
      then record a { delivery_attempts = remove m.id a.delivery_attempts }
      else requeue_one a m)
    ∙ ground (arith, requeue_one-info a m)

pub handle_retry_ready-info :
    (now : ℕ) (ms : List TopicMessage) (a : SubscriptionActor)
    → (handle_retry_ready now ms a).info ≡ a.info
unfolding handle_retry_ready
handle_retry_ready-info now ms a =
    signal_if-info (any (λ m. not (is_message_expired a.info now m)) ms) messages_available
      (retry_each now ms a)
    ∙ retry_each-info now ms a

pub acknowledge_messages-info :
    (ids : List ℕ) (a : SubscriptionActor) → (acknowledge_messages ids a).0.info ≡ a.info
unfolding acknowledge_messages without_acked
acknowledge_messages-info ids a = ground arith

pub modify_deadline-info :
    (env : Environment) (mods : List DeadlineModification) (a : SubscriptionActor)
    → (modify_deadline env mods a).0.info ≡ a.info
unfolding modify_deadline
modify_deadline-info env mods a =
    let (tracker, nacks) = Outstanding.modify a.outstanding mods in
    let counted = record a {
      outstanding = tracker;
      counters = record (a.counters) { nacked = add_u64 a.counters.nacked (length nacks) };
    } in
    ground (arith, requeue_messages-info env nacks counted)

pub delete-info : (env : Environment) (a : SubscriptionActor) → (delete env a).0.info ≡ a.info
unfolding delete finish_delete clear_messages
delete-info env a = ground arith

requeue_newer-info :
    (seek_time : ℕ) (ms : List TopicMessage) (a : SubscriptionActor)
    → (requeue_newer seek_time ms a).info ≡ a.info
unfolding requeue_newer
requeue_newer-info seek_time [] a = refl
requeue_newer-info seek_time (m ∷ ms) a =
    requeue_newer-info seek_time ms (if published_after seek_time m then requeue_one a m else a)
    ∙ ground (arith, requeue_one-info a m)

pub seek_to_time-info :
    (seek_time : ℕ) (a : SubscriptionActor) → (seek_to_time seek_time a).info ≡ a.info
unfolding seek_to_time reset_for_seek
seek_to_time-info seek_time a =
    let outstanding = messages_of (Outstanding.drain a.outstanding).1 in
    let retrying = (drain_queue a.retry_queue).1 in
    let first = requeue_newer seek_time outstanding (reset_for_seek seek_time a) in
    ground (
      arith,
      requeue_newer-info seek_time outstanding (reset_for_seek seek_time a),
      requeue_newer-info seek_time retrying first,
    )
