-- ===== src/Subscriptions/Actor/Delivery/Defects.antt =====
-- Where an ordering key stays in flight although no message of it is.
use deltio.Prelude.{
  Bytes, List, Map, Option, [], ap, arith, bytes_eq_iff, contains, contains-cons, contains-nil,
  false, if_cases, lookup, refl, remove, some, true, ℕ, ◌+◌, ◌<◌, ◌∙◌, ◌∷◌, ◌≡◌, ◌≤◌, nat_eq,
  bytes_eq_instance,
}
use deltio.Topics.Message.{TopicMessage, Messages}
use deltio.Subscriptions.Policies.{DeadLetterPolicy}
use deltio.Subscriptions.Pulled.{PulledMessage}
use deltio.Subscriptions.Actor.{
  SubscriptionActor, Environment, messages_available, is_message_expired, ordered_key,
}
use deltio.Subscriptions.Actor.Pull.{pending_keys, is_pending}
use deltio.Subscriptions.Actor.Post.{requeue_one}
use deltio.Subscriptions.Actor.Stored.{held}
use deltio.Subscriptions.Actor.Invariant.{WellFormed, no_extra, keyed, keyed_at, flight}
use deltio.Subscriptions.Actor.Invariant.RequeueAll.{with_messages}
use deltio.Subscriptions.Actor.Invariant.Retry.{with_ready}
use deltio.Subscriptions.Actor.Requeue.{
  Requeueing, requeue_counted, count_attempt, dead_letters, finish_requeue, requeue_each,
  requeue_message, requeue_messages, next_attempt, handle_retry_ready, retry_each,
}
use deltio.Subscriptions.Actor.Delivery.SameFlight.{
  SameFlight, signal_if-SameFlight, SameFlight-trans, finish_requeue-SameFlight,
  dead_lettered-SameFlight,
}

-- A pull never visits a key that is in flight.
pending_keys-in_flight :
    (keys : List Bytes) (key : Bytes) (queues : Map Bytes Messages)
    → contains key keys ≡ true
    → contains key (pending_keys keys queues) ≡ false
unfolding pending_keys
pending_keys-in_flight keys key [] h = ground (arith, contains-nil key)
pending_keys-in_flight keys key ((k, q) ∷ queues) h =
    let rest = pending_keys keys queues in
    if_cases (λ ks. contains key ks ≡ false) (is_pending keys k q) (k ∷ rest) rest
      (λ e. ground (
        arith,
        contains-cons key k rest,
        pending_keys-in_flight keys key queues h,
        bytes_eq_iff k key,
      ))
      (λ _. pending_keys-in_flight keys key queues h)

-- The key is marked in flight although no message of it is, so that no pull visits it and no return
-- of a message frees it.
pub record Blocked (key : Bytes) (a : SubscriptionActor) : Type 0 where
  pub marked : contains key a.keys_in_flight ≡ true
  pub unvisited : contains key (pending_keys a.keys_in_flight a.ordered_queues) ≡ false
  pub nothing_held : held (keyed a.info key) a ≡ 0

exhausted-dead_letters :
    (policy : Option DeadLetterPolicy) (dlp : DeadLetterPolicy) (attempt : ℕ)
    → policy ≡ some dlp
    → dlp.max_delivery_attempts < attempt
    → dead_letters policy attempt ≡ true
exhausted-dead_letters policy dlp attempt e h = rw e (ground arith)

-- The one message in hand is the one for which its key is marked.
marked-alone :
    (key : Bytes) (o : Option Bytes) (others : ℕ) (keys : List Bytes)
    → o ≡ some key
    → others + keyed_at key o ≤ flight key keys
    → (contains key keys ≡ true) × (others ≡ 0)
marked-alone key o others keys e h = ground (arith, bytes_eq_iff key key)

SameFlight-Blocked :
    (key : Bytes) (a b : SubscriptionActor)
    → SameFlight a b
    → (contains key a.keys_in_flight ≡ true) × (held (keyed a.info key) a ≡ 0)
    → Blocked key b
SameFlight-Blocked key a b x (inside, alone) = record {
  marked = ap (contains key) x.same_keys ∙ inside;
  unvisited =
      pending_keys-in_flight b.keys_in_flight key b.ordered_queues
        (ap (contains key) x.same_keys ∙ inside);
  nothing_held = rw (x.same_info, x.same_tracker, x.same_retry) alone;
}

-- When a message of an ordered subscription, taken from a well-formed one, comes back after more
-- attempts than its dead-letter policy allows, its ordering key is not released: it stays marked in
-- flight while nothing of it is, and no pull visits it.
pub requeue_messages-Blocked :
    (env : Environment) (p : PulledMessage) (key : Bytes) (dlp : DeadLetterPolicy)
    (a : SubscriptionActor)
    → WellFormed (with_messages a.info (p ∷ []) no_extra) a
    → ordered_key a.info p.message ≡ some key
    → a.info.dead_letter_policy ≡ some dlp
    → dlp.max_delivery_attempts < next_attempt (lookup p.message.id a.delivery_attempts)
    → Blocked key (requeue_messages env (p ∷ []) a)
unfolding requeue_messages requeue_each requeue_message count_attempt
requeue_messages-Blocked env p key dlp a v ordered e exhausted =
    let attempt = next_attempt (lookup p.message.id a.delivery_attempts) in
    let r : Requeueing = record {
      actor = count_attempt p.message.id a;
      dead_letter_messages = [];
      dead_letter_message_ids = [];
    } in
    let lettered = requeue_counted attempt env.now p.message r in
    let x =
      dead_lettered-SameFlight attempt env.now p.message r
        (exhausted-dead_letters a.info.dead_letter_policy dlp attempt e exhausted) in
    SameFlight-Blocked key r.actor (finish_requeue env lettered)
      (SameFlight-trans r.actor lettered.actor (finish_requeue env lettered) x
        (finish_requeue-SameFlight env lettered))
      (marked-alone key (ordered_key a.info p.message) (held (keyed a.info key) a) a.keys_in_flight
        ordered (omega (arith, v.exclusive key)))

-- When the retry of a message of an ordered subscription, taken from a well-formed one, is due
-- after the message aged past the retention, its ordering key stays blocked in the same way: marked
-- in flight while nothing of it is.
pub handle_retry_ready-Blocked :
    (now : ℕ) (m : TopicMessage) (key : Bytes) (a : SubscriptionActor)
    → WellFormed (with_ready a.info (m ∷ []) no_extra) a
    → ordered_key a.info m ≡ some key
    → is_message_expired a.info now m ≡ true
    → Blocked key (handle_retry_ready now (m ∷ []) a)
unfolding handle_retry_ready retry_each
handle_retry_ready-Blocked now m key a v ordered e =
    let x =
      if_cases (SameFlight a) (is_message_expired a.info now m)
        (record a { delivery_attempts = remove m.id a.delivery_attempts }) (requeue_one a m)
        (λ _. record { same_keys = refl; same_tracker = refl; same_retry = refl; same_info = refl })
        (λ h. absurd (ground arith)) in
    SameFlight-Blocked key a _
      (SameFlight-trans a _ _ x (signal_if-SameFlight _ messages_available _))
      (marked-alone key (ordered_key a.info m) (held (keyed a.info key) a) a.keys_in_flight ordered
        (omega (arith, v.exclusive key)))
