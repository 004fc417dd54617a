-- ===== src/Tests/Blocked.antt =====
-- Ordering keys that stay blocked: a message that is given up after its fifth attempt, and one that
-- outlives the retention.
use deltio.Prelude.{[], arith, contains, false, lookup, refl, some, ◌∷◌, nat_eq, bytes_eq_instance}
use deltio.Subscriptions.Info.{SubscriptionInfo}
use deltio.Subscriptions.Actor.{SubscriptionActor, is_message_expired}
use deltio.Subscriptions.Actor.Requeue.{requeue_messages, handle_retry_ready}
use deltio.Subscriptions.Actor.Receive.{start}
use deltio.Subscriptions.Actor.Invariant.{WellFormed, no_extra}
use deltio.Subscriptions.Actor.Invariant.RequeueAll.{with_messages}
use deltio.Subscriptions.Actor.Invariant.Retry.{with_ready}
use deltio.Subscriptions.Actor.Invariant.Lifecycle.{start-Inv}
use deltio.Subscriptions.Actor.Delivery.Defects.{
  Blocked, requeue_messages-Blocked, handle_retry_ready-Blocked,
}
use deltio.Tests.Samples.{keyed_message, pulled_keyed, letters, lettered, ordered, env, key}

-- A subscription that took its only message out of the tracker or the retry queue.
abbrev taken : SubscriptionInfo → SubscriptionActor
unfolding start
taken info = record (start 7 info false) {
  keys_in_flight = key ∷ [];
  delivery_attempts = (2, 5) ∷ [];
}

abbrev retained : SubscriptionInfo
retained = record ordered { message_retention_duration = some 600_000_000 }

lettered-WellFormed :
    WellFormed (with_messages lettered (pulled_keyed ∷ []) no_extra) (taken lettered)
unfolding taken start contains
lettered-WellFormed =
    let v = start-Inv 7 lettered false in
    record {
      tracker = v.tracker;
      retry = v.retry;
      fresh = v.fresh;
      queues = v.queues;
      plain = v.plain;
      keyed_queues = v.keyed_queues;
      exclusive = λ k. ground arith;
    }

requeue_messages-Blocked_example :
    Blocked key (requeue_messages env (pulled_keyed ∷ []) (taken lettered))
unfolding taken start lookup
requeue_messages-Blocked_example =
    requeue_messages-Blocked env pulled_keyed key letters (taken lettered) lettered-WellFormed refl
      refl (omega arith)

retained-WellFormed :
    WellFormed (with_ready retained (keyed_message ∷ []) no_extra) (taken retained)
unfolding taken start contains
retained-WellFormed =
    let v = start-Inv 7 retained false in
    record {
      tracker = v.tracker;
      retry = v.retry;
      fresh = v.fresh;
      queues = v.queues;
      plain = v.plain;
      keyed_queues = v.keyed_queues;
      exclusive = λ k. ground arith;
    }

handle_retry_ready-Blocked_example :
    Blocked key (handle_retry_ready 1_000_000_000 (keyed_message ∷ []) (taken retained))
unfolding taken start is_message_expired
handle_retry_ready-Blocked_example =
    handle_retry_ready-Blocked 1_000_000_000 keyed_message key (taken retained) retained-WellFormed
      refl refl
