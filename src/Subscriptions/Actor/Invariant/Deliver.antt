-- ===== src/Subscriptions/Actor/Invariant/Deliver.antt =====
-- Handing out one message keeps the invariant.
use deltio.Prelude.{
  Bytes, Map, Option, arith, bytes_eq_iff, contains, contains-put, false, insert, insert-Unique,
  lookup, lookup-insert, none, put, some, total, weigh-insert, ℕ, ◌+◌, ◌<◌, ◌^◌, ◌∷◌, ◌≡◌, ◌≤◌,
  nat_eq, bytes_eq_instance,
}
use deltio.Topics.Message.{TopicMessage, Messages}
use deltio.Subscriptions.Info.{SubscriptionInfo}
use deltio.Subscriptions.Outstanding
use deltio.Subscriptions.Outstanding.Invariant.{add-IsValid}
use deltio.Subscriptions.Actor.{SubscriptionActor, ordered_key, queue_of}
use deltio.Subscriptions.Actor.Pull.{Pulling, pulled_message, deliver, forget}
use deltio.Subscriptions.Actor.Stored.{held, queued}
use deltio.Subscriptions.Actor.Progress.{weigh-add}
use deltio.Subscriptions.Actor.Invariant.{
  WellFormed, keyed, keyed_at, flight, AllKeyed, QueuesKeyed, insert-QueuesKeyed,
}
use deltio.Subscriptions.Actor.Invariant.Requeue.{with_message}

-- The state behind a queue's pop: the queue is the rest.
abbrev pub pop_queue : Bytes → Messages → Pulling → Pulling
pop_queue key queue p = record p {
  actor = record (p.actor) { ordered_queues = insert key queue p.actor.ordered_queues };
}

queue_found :
    (key : Bytes) (queue : Messages) (queues : Map Bytes Messages)
    → lookup key queues ≡ some queue
    → queue_of key queues ≡ queue
queue_found key queue queues e = ground arith

-- The messages of a queue that is found.
pub found-AllKeyed :
    (info : SubscriptionInfo) (key : Bytes) (queue : Messages) (queues : Map Bytes Messages)
    → lookup key queues ≡ some queue
    → QueuesKeyed info queues
    → AllKeyed info (some key) queue
found-AllKeyed info key queue queues e h = rw (queue_found key queue queues e) at (h key)

pub pop_queue-WellFormed :
    (extra : Bytes → ℕ) (key : Bytes) (queue : Messages) (p : Pulling)
    → AllKeyed p.actor.info (some key) queue
    → WellFormed extra p.actor
    → WellFormed extra (pop_queue key queue p).actor
pop_queue-WellFormed extra key queue p h v = record {
  tracker = v.tracker;
  retry = v.retry;
  fresh = v.fresh;
  queues = insert-Unique key queue p.actor.ordered_queues v.queues;
  plain = v.plain;
  keyed_queues = insert-QueuesKeyed p.actor.info p.actor.ordered_queues key queue v.keyed_queues h;
  exclusive = v.exclusive;
}

pub queued-pop_queue :
    (f : TopicMessage → ℕ) (key : Bytes) (m : TopicMessage) (queue : Messages) (p : Pulling)
    → lookup key p.actor.ordered_queues ≡ some (m ∷ queue)
    → queued f p.actor ≡ queued f (pop_queue key queue p).actor + f m
queued-pop_queue f key m queue p e =
    ground (arith, e, weigh-insert (total f) key queue p.actor.ordered_queues)

pub forget-WellFormed :
    (extra : Bytes → ℕ) (m : TopicMessage) (p : Pulling)
    → WellFormed extra p.actor
    → WellFormed extra (forget m p).actor
unfolding forget
forget-WellFormed extra m p v = record {
  tracker = v.tracker;
  retry = v.retry;
  fresh = v.fresh;
  queues = v.queues;
  plain = v.plain;
  keyed_queues = v.keyed_queues;
  exclusive = v.exclusive;
}

-- To put a key in flight makes room for one message of it.
pub put-WellFormed :
    (extra : Bytes → ℕ) (key : Bytes) (m : TopicMessage) (a : SubscriptionActor)
    → contains key a.keys_in_flight ≡ false
    → ordered_key a.info m ≡ some key
    → WellFormed extra a
    → WellFormed
        (with_message a.info m extra)
        (record a { keys_in_flight = put key a.keys_in_flight })
put-WellFormed extra key m a absent e v = record {
  tracker = v.tracker;
  retry = v.retry;
  fresh = v.fresh;
  queues = v.queues;
  plain = v.plain;
  keyed_queues = v.keyed_queues;
  exclusive =
      λ k. room k (held (keyed a.info k) a) (extra k) (ordered_key a.info m) e (v.exclusive k);
}
  where
    room :
        (k : Bytes) (before more : ℕ) (o : Option Bytes)
        → o ≡ some key
        → before + more ≤ flight k a.keys_in_flight
        → before + (keyed_at k o + more) ≤ flight k (put key a.keys_in_flight)
    room k before more o eo h =
        ground (arith, contains-put key k a.keys_in_flight, bytes_eq_iff key k)

pub deliver-WellFormed :
    (extra : Bytes → ℕ) (deadline : ℕ) (m : TopicMessage) (p : Pulling)
    → p.actor.next_ack_id + 1 < 2 ^ 64
    → WellFormed (with_message p.actor.info m extra) p.actor
    → WellFormed extra (deliver deadline m p).actor
unfolding deliver pulled_message Outstanding.add
deliver-WellFormed extra deadline m p small v =
    let out = pulled_message deadline p.actor m in
    let absent : lookup out.ack_id p.actor.outstanding.messages ≡ none =
      v.fresh p.actor.next_ack_id (omega arith) in
    record {
      tracker = add-IsValid p.actor.outstanding out absent v.tracker;
      retry = v.retry;
      fresh = λ n h. ground (
        arith,
        lookup-insert out.ack_id n out p.actor.outstanding.messages,
        v.fresh n (omega arith),
      );
      queues = v.queues;
      plain = v.plain;
      keyed_queues = v.keyed_queues;
      exclusive = λ key. omega (
        arith,
        v.exclusive key,
        weigh-add (λ q. keyed p.actor.info key q.message) p.actor.outstanding out absent,
      );
    }
