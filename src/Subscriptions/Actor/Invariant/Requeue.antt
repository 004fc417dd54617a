-- ===== src/Subscriptions/Actor/Invariant/Requeue.antt =====
-- To put one message back keeps the invariant.
use deltio.Prelude.{
  Bool-cases, Bytes, List, Option, Option-cases, arith, contains-discard, discard, inl, inr,
  insert-Unique, lookup, none, refl, some, weigh, weigh-insert, ℕ, ◌+◌, ◌<◌, ◌^◌, ◌≡◌, ◌≤◌, nat_eq,
  bytes_eq_instance,
}
use deltio.Topics.Message.{TopicMessage}
use deltio.Subscriptions.Info.{SubscriptionInfo}
use deltio.Subscriptions.Policies.{RetryPolicy}
use deltio.Subscriptions.RetryQueue.{RetryQueue, schedule_message}
use deltio.Subscriptions.RetryQueue.Invariant
use deltio.Subscriptions.Actor.{SubscriptionActor, ordered_key}
use deltio.Subscriptions.Actor.Stored.{held}
use deltio.Subscriptions.Actor.Post.{requeue_one}
use deltio.Subscriptions.Actor.Requeue.{
  Requeueing, requeue_with, requeue_counted, count_attempt, dead_letters, requeue_message,
  next_attempt,
}
use deltio.Subscriptions.Actor.Invariant.{
  WellFormed, keyed, flight, keyed_at, WellFormed-less, AllKeyed-append, insert-QueuesKeyed,
}

-- The messages of a key among those a routine still has in hand.
abbrev pub with_message : SubscriptionInfo → TopicMessage → (Bytes → ℕ) → Bytes → ℕ
with_message info m extra key = keyed info key m + extra key

requeue_at-exclusive :
    (key : Bytes) (o : Option Bytes) (held_before extra : ℕ) (keys : List Bytes) (k : Bytes)
    → o ≡ some k
    → held_before + (keyed_at key o + extra) ≤ flight key keys
    → held_before + extra ≤ flight key (discard k keys)
requeue_at-exclusive key o held_before extra keys k e h =
    ground (arith, contains-discard k key keys)

pub requeue_one-WellFormed :
    (extra : Bytes → ℕ) (a : SubscriptionActor) (m : TopicMessage)
    → WellFormed (with_message a.info m extra) a
    → WellFormed extra (requeue_one a m)
unfolding requeue_one
requeue_one-WellFormed extra a m v = elim (Option-cases (ordered_key a.info m)) [
  | inl e ↦ rw e (record {
    tracker = v.tracker;
    retry = v.retry;
    fresh = v.fresh;
    queues = v.queues;
    plain = AllKeyed-append a.info none a.backlog m v.plain e;
    keyed_queues = v.keyed_queues;
    exclusive = λ key. omega (arith, v.exclusive key);
  })
  | inr (k, e) ↦ rw e (record {
    tracker = v.tracker;
    retry = v.retry;
    fresh = v.fresh;
    queues = insert-Unique k _ a.ordered_queues v.queues;
    plain = v.plain;
    keyed_queues =
        insert-QueuesKeyed a.info a.ordered_queues k _ v.keyed_queues (e, v.keyed_queues k);
    exclusive = λ key.
        requeue_at-exclusive key (ordered_key a.info m) (held (keyed a.info key) a) (extra key)
          a.keys_in_flight k e (v.exclusive key);
  })
]

-- Scheduling a retry holds the message.
pub weigh-schedule_message :
    (f : TopicMessage → ℕ) (q : RetryQueue) (m : TopicMessage) (deliver_at : ℕ)
    → Invariant.IsValid q
    → weigh f (schedule_message q m deliver_at).messages ≡ weigh f q.messages + f m
unfolding schedule_message
weigh-schedule_message f q m deliver_at v =
    ground (arith, weigh-insert f q.next_seq m q.messages, v.fresh q.next_seq (omega arith))

schedule-WellFormed :
    (extra : Bytes → ℕ) (a : SubscriptionActor) (m : TopicMessage) (deliver_at : ℕ)
    → a.retry_queue.next_seq + 1 < 2 ^ 64
    → WellFormed (with_message a.info m extra) a
    → WellFormed extra (record a { retry_queue = schedule_message a.retry_queue m deliver_at })
schedule-WellFormed extra a m deliver_at small v = record {
  tracker = v.tracker;
  retry = Invariant.schedule_message-IsValid a.retry_queue m deliver_at small v.retry;
  fresh = v.fresh;
  queues = v.queues;
  plain = v.plain;
  keyed_queues = v.keyed_queues;
  exclusive = λ key. omega (
    arith,
    v.exclusive key,
    weigh-schedule_message (keyed a.info key) a.retry_queue m deliver_at v.retry,
  );
}

requeue_with-WellFormed :
    (extra : Bytes → ℕ) (policy : Option RetryPolicy) (attempt now : ℕ) (a : SubscriptionActor)
    (m : TopicMessage)
    → a.retry_queue.next_seq + 1 < 2 ^ 64
    → WellFormed (with_message a.info m extra) a
    → WellFormed extra (requeue_with policy attempt now a m)
unfolding requeue_with
requeue_with-WellFormed extra none attempt now a m small v = requeue_one-WellFormed extra a m v
requeue_with-WellFormed extra (some policy) attempt now a m small v =
    schedule-WellFormed extra a m _ small v

-- The info is never changed, and a message takes one sequence number at most.
pub record Advances (n : ℕ) (a b : SubscriptionActor) : Type 0 where
  pub same_info : b.info ≡ a.info
  pub seq : b.retry_queue.next_seq ≤ a.retry_queue.next_seq + n

requeue_with-Advances :
    (policy : Option RetryPolicy) (attempt now : ℕ) (a : SubscriptionActor) (m : TopicMessage)
    → Advances 1 a (requeue_with policy attempt now a m)
unfolding requeue_with requeue_one schedule_message
requeue_with-Advances none attempt now a m = ground arith
requeue_with-Advances (some policy) attempt now a m = ground arith

requeue_counted-WellFormed :
    (extra : Bytes → ℕ) (attempt now : ℕ) (m : TopicMessage) (r : Requeueing)
    → r.actor.retry_queue.next_seq + 1 < 2 ^ 64
    → WellFormed (with_message r.actor.info m extra) r.actor
    → WellFormed extra (requeue_counted attempt now m r).actor
      × Advances 1 r.actor (requeue_counted attempt now m r).actor
unfolding requeue_counted
requeue_counted-WellFormed extra attempt now m r small v =
    elim (Bool-cases (dead_letters r.actor.info.dead_letter_policy attempt)) [
      | inl e ↦ rw e (
        WellFormed-less _ extra r.actor (λ key. omega arith) v,
        record { same_info = refl; seq = omega arith },
      )
      | inr e ↦ rw e (
        requeue_with-WellFormed extra r.actor.info.retry_policy attempt now r.actor m small v,
        requeue_with-Advances r.actor.info.retry_policy attempt now r.actor m,
      )
    ]

count_attempt-WellFormed :
    (extra : Bytes → ℕ) (id : ℕ) (a : SubscriptionActor)
    → WellFormed extra a
    → WellFormed extra (count_attempt id a)
unfolding count_attempt
count_attempt-WellFormed extra id a v = record {
  tracker = v.tracker;
  retry = v.retry;
  fresh = v.fresh;
  queues = v.queues;
  plain = v.plain;
  keyed_queues = v.keyed_queues;
  exclusive = v.exclusive;
}

pub requeue_message-WellFormed :
    (extra : Bytes → ℕ) (now : ℕ) (m : TopicMessage) (r : Requeueing)
    → r.actor.retry_queue.next_seq + 1 < 2 ^ 64
    → WellFormed (with_message r.actor.info m extra) r.actor
    → WellFormed extra (requeue_message now m r).actor
      × Advances 1 r.actor (requeue_message now m r).actor
unfolding requeue_message count_attempt
requeue_message-WellFormed extra now m r small v =
    let (w, one) =
      requeue_counted-WellFormed extra (next_attempt (lookup m.id r.actor.delivery_attempts)) now m
        (record r { actor = count_attempt m.id r.actor }) small
        (count_attempt-WellFormed _ m.id r.actor v) in
    (w, record { same_info = one.same_info; seq = one.seq })
