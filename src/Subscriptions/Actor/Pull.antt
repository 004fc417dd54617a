-- ===== src/Subscriptions/Actor/Pull.antt =====
-- `pull_messages`. `as u16` keeps the low 16 bits.
use deltio.Prelude.{
  Bool, Bytes, List, Map, Option, [], bytes_lt, contains, if◌then◌else◌, insert, is_empty, leb,
  length, lookup, ltb, max, min, none, not, put, remove, some, ℕ, ◌%◌, ◌&&◌, ◌++◌, ◌+◌, ◌-◌, ◌==◌,
  ◌^◌, ◌||◌, ◌∷◌, nat_eq, bytes_eq_instance,
}
use deltio.Topics.Message.{TopicMessage, Messages}
use deltio.Subscriptions.Info.{add_u64}
use deltio.Subscriptions.Pulled.{PulledMessage, ack_deadline, next_id}
use deltio.Subscriptions.Outstanding
use deltio.Subscriptions.Actor.{
  SubscriptionActor, Environment, messages_available, signal_if, is_message_expired,
}

pub data PullMessagesError : Type 0 where
  closed detached : PullMessagesError

pub data PullResult : Type 0 where
  pulled : List PulledMessage → PullResult
  failed : PullMessagesError → PullResult

abbrev max_pull_count : ℕ
max_pull_count = 1000

abbrev as_u16 : ℕ → ℕ
as_u16 n = n % 2 ^ 16

abbrev pub is_pending : List Bytes → Bytes → Messages → Bool
is_pending in_flight key queue = not (contains key in_flight) && not (is_empty queue)

-- The keys that are not in flight and have messages, in the order of the map.
unfoldable pub pending_keys : List Bytes → Map Bytes Messages → List Bytes
pending_keys in_flight [] = []
pending_keys in_flight ((key, q) ∷ queues) =
    let rest = pending_keys in_flight queues in
    if is_pending in_flight key q then key ∷ rest else rest

-- `keys.sort()`.
unfoldable pub sort_in : Bytes → List Bytes → List Bytes
sort_in key [] = key ∷ []
sort_in key (k ∷ ks) =
    let rest = sort_in key ks in if bytes_lt k key then k ∷ rest else key ∷ k ∷ ks

unfoldable pub sort_keys : List Bytes → List Bytes
sort_keys [] = []
sort_keys (k ∷ ks) = sort_in k (sort_keys ks)

-- How many messages the call may return.
unfoldable pub pull_capacity : ℕ → ℕ → SubscriptionActor → ℕ
unfolding pending_keys Outstanding.len
pull_capacity max_count max_outstanding a =
    let pending_keyed = as_u16 (length (pending_keys a.keys_in_flight a.ordered_queues)) in
    let outgoing_len = min (as_u16 (length a.backlog) + pending_keyed) (2 ^ 16 - 1) in
    let effective_max = min max_count (max outgoing_len max_pull_count) in
    let headroom = max_outstanding - as_u16 (Outstanding.len a.outstanding) in
    if ltb 0 max_outstanding then min effective_max headroom else effective_max

pub record Pulling : Type 0 where
  pub actor : SubscriptionActor
  pub result : List PulledMessage

abbrev attempt_of : Option ℕ → ℕ
attempt_of none = 1
attempt_of (some n) = n

-- The message as it is handed out under the next ack ID.
unfoldable pub pulled_message : ℕ → SubscriptionActor → TopicMessage → PulledMessage
pulled_message deadline a m = record {
  message = m;
  ack_id = a.next_ack_id;
  deadline = deadline;
  delivery_attempt = attempt_of (lookup m.id a.delivery_attempts);
}

unfoldable pub deliver : ℕ → TopicMessage → Pulling → Pulling
deliver deadline m p = record {
  actor = record (p.actor) {
    outstanding = Outstanding.add p.actor.outstanding (pulled_message deadline p.actor m);
    next_ack_id = next_id p.actor.next_ack_id;
  };
  result = p.result ++ pulled_message deadline p.actor m ∷ [];
}

-- An expired message is dropped, with its count of attempts.
unfoldable pub forget : TopicMessage → Pulling → Pulling
forget m p = record p {
  actor = record (p.actor) { delivery_attempts = remove m.id p.actor.delivery_attempts };
}

-- One round of the inner loop over the queue of a key: expired heads are dropped, the first message
-- that is not expired is delivered and its key put in flight.
unfoldable pub pull_head : ℕ → ℕ → Bytes → Messages → Pulling → Pulling
pull_head deadline now key [] p = p
pull_head deadline now key (m ∷ queue) p =
    let popped = record p {
      actor = record (p.actor) { ordered_queues = insert key queue p.actor.ordered_queues };
    } in
    let dropped = pull_head deadline now key queue (forget m popped) in
    let delivered = deliver deadline m popped in
    if is_message_expired p.actor.info now m then dropped else record delivered {
      actor = record (delivered.actor) { keys_in_flight = put key delivered.actor.keys_in_flight };
    }

unfoldable pub pull_key : ℕ → ℕ → Bytes → Pulling → Pulling
pull_key deadline now key p = elim (lookup key p.actor.ordered_queues) [
  | none ↦ p
  | some queue ↦ pull_head deadline now key queue p
]

unfoldable pub pull_keys : ℕ → ℕ → ℕ → List Bytes → Pulling → Pulling
pull_keys capacity deadline now [] p = p
pull_keys capacity deadline now (key ∷ keys) p =
    let more = pull_keys capacity deadline now keys (pull_key deadline now key p) in
    if leb capacity (length p.result) then p else more

-- The loop over the backlog, which is the list.
unfoldable pub pull_backlog : ℕ → ℕ → ℕ → Messages → Pulling → Pulling
pull_backlog capacity deadline now [] p = p
pull_backlog capacity deadline now (m ∷ backlog) p =
    let popped = record p { actor = record (p.actor) { backlog = backlog } } in
    let more = pull_backlog capacity deadline now backlog (
      if is_message_expired p.actor.info now m
      then forget m popped
      else deliver deadline m popped) in
    if leb capacity (length p.result) then p else more

-- Whether more can be pulled.
abbrev pub more_pending : SubscriptionActor → Bool
more_pending a =
    not (is_empty a.backlog) || not (is_empty (pending_keys a.keys_in_flight a.ordered_queues))

unfoldable pub count_pulled : ℕ → SubscriptionActor → SubscriptionActor
count_pulled n a = record a {
  counters = record (a.counters) { pulled = add_u64 a.counters.pulled n };
}

unfoldable pub finish_pull : Pulling → SubscriptionActor × PullResult
unfolding count_pulled
finish_pull p = (
  count_pulled (length p.result) (signal_if (more_pending p.actor) messages_available p.actor),
  pulled p.result,
)

-- The two loops, over the keys and over the backlog.
unfoldable pub pull_all : ℕ → ℕ → SubscriptionActor → Pulling
pull_all capacity now a =
    let deadline = ack_deadline (now + a.info.ack_deadline) in
    let keys = sort_keys (pending_keys a.keys_in_flight a.ordered_queues) in
    let keyed = pull_keys capacity deadline now keys (record { actor = a; result = [] }) in
    pull_backlog capacity deadline now keyed.actor.backlog keyed

unfoldable pub pull_messages :
    ℕ → ℕ → Environment → SubscriptionActor → SubscriptionActor × PullResult
pull_messages max_count max_outstanding env a =
    let capacity = pull_capacity max_count max_outstanding a in
    if a.deleted
    then (a, pulled [])
    else if a.info.detached
    then (a, failed detached)
    else if capacity == 0
    then (a, pulled [])
    else finish_pull (pull_all capacity env.now a)
