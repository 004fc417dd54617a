-- ===== src/Subscriptions/Actor/Invariant/Retry.antt =====
-- `handle_retry_ready` and the select arm of the retry queue keep the invariant.
use deltio.Prelude.{
  Bool-cases, Bytes, List, [], ap, arith, inl, inr, is_empty, remove, total, ℕ, ◌+◌, ◌∷◌, nat_eq,
  bytes_eq_instance,
}
use deltio.Topics.Message.{TopicMessage}
use deltio.Subscriptions.Info.{SubscriptionInfo}
use deltio.Subscriptions.RetryQueue.{take_ready}
use deltio.Subscriptions.RetryQueue.Ready.{take_ready-Readies}
use deltio.Subscriptions.Actor.{
  SubscriptionActor, Environment, messages_available, is_message_expired,
}
use deltio.Subscriptions.Actor.Post.{requeue_one}
use deltio.Subscriptions.Actor.Stored.{requeue_one-SameHead}
use deltio.Subscriptions.Actor.Requeue.{retry_each, handle_retry_ready}
use deltio.Subscriptions.Actor.Receive.{retry}
use deltio.Subscriptions.Actor.Invariant.{
  WellFormed, Inv, no_extra, keyed, signal_if-WellFormed, WellFormed-less,
}
use deltio.Subscriptions.Actor.Invariant.Requeue.{requeue_one-WellFormed}

abbrev pub with_ready : SubscriptionInfo → List TopicMessage → (Bytes → ℕ) → Bytes → ℕ
with_ready info ms extra key = total (keyed info key) ms + extra key

drop_message : ℕ → SubscriptionActor → SubscriptionActor
drop_message id a = record a { delivery_attempts = remove id a.delivery_attempts }

retry_each-WellFormed :
    (extra : Bytes → ℕ) (now : ℕ) (ms : List TopicMessage) (a : SubscriptionActor)
    → WellFormed (with_ready a.info ms extra) a
    → WellFormed extra (retry_each now ms a)
unfolding retry_each
retry_each-WellFormed extra now [] a v = WellFormed-less _ extra a (λ key. omega arith) v
retry_each-WellFormed extra now (m ∷ ms) a v = elim (Bool-cases (is_message_expired a.info now m)) [
  | inl e ↦ rw e (
      retry_each-WellFormed extra now ms _ (record {
        tracker = v.tracker;
        retry = v.retry;
        fresh = v.fresh;
        queues = v.queues;
        plain = v.plain;
        keyed_queues = v.keyed_queues;
        exclusive = λ key. omega (arith, v.exclusive key);
      }))
  | inr e ↦ rw e (
      retry_each-WellFormed extra now ms (requeue_one a m) (
        WellFormed-less _ _ _
          (λ key.
            omega (arith, ap (λ i. with_ready i ms extra key) (requeue_one-SameHead a m).same_info))
          (requeue_one-WellFormed (with_ready a.info ms extra) a m
            (WellFormed-less _ _ a (λ key. omega arith) v))))
]

handle_retry_ready-WellFormed :
    (extra : Bytes → ℕ) (now : ℕ) (ms : List TopicMessage) (a : SubscriptionActor)
    → WellFormed (with_ready a.info ms extra) a
    → WellFormed extra (handle_retry_ready now ms a)
unfolding handle_retry_ready
handle_retry_ready-WellFormed extra now ms a v =
    signal_if-WellFormed extra _ messages_available _ (retry_each-WellFormed extra now ms a v)

taken-WellFormed :
    (env : Environment) (a : SubscriptionActor)
    → Inv a
    → WellFormed
        (with_ready a.info (take_ready a.retry_queue env.now).1 no_extra)
        (record a { retry_queue = (take_ready a.retry_queue env.now).0 })
taken-WellFormed env a v =
    let (valid, x) = take_ready-Readies a.retry_queue env.now v.retry in
    record {
      tracker = v.tracker;
      retry = valid;
      fresh = v.fresh;
      queues = v.queues;
      plain = v.plain;
      keyed_queues = v.keyed_queues;
      exclusive = λ key. omega (arith, v.exclusive key, x.counted (keyed a.info key));
    }

pub retry-Inv : (env : Environment) (a : SubscriptionActor) → Inv a → Inv (retry env a)
unfolding retry
retry-Inv env a v = elim (Bool-cases (is_empty (take_ready a.retry_queue env.now).1)) [
  | inl e ↦ rw e (WellFormed-less _ no_extra _ (λ key. omega arith) (taken-WellFormed env a v))
  | inr e ↦ rw e (handle_retry_ready-WellFormed no_extra env.now _ _ (taken-WellFormed env a v))
]
