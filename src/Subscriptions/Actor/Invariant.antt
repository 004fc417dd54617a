-- ===== src/Subscriptions/Actor/Invariant.antt =====
-- The invariant of a subscription: its tracker and its retry queue are well formed, the next ack ID
-- is new, and of each ordering key at most one message is in flight, and that only while the key is
-- marked. `extra` counts the messages of a key that a routine has in hand.
pub mod Requeue
pub mod RequeueAll
pub mod Pull
pub mod PullAll
pub mod Retry
pub mod Deliver
pub mod Requests
pub mod Lifecycle
pub mod Seek
pub mod Reach
use deltio.Prelude.{
  Bool, Bool-cases, Bytes, List, Map, Option, Unique, [], arith, bytes_eq, bytes_eq_iff, contains,
  false, if◌then◌else◌, inl, inr, insert, lookup, lookup-insert, none, some, true, ℕ, ◌++◌, ◌+◌,
  ◌∷◌, ◌≡◌, ◌≤◌, nat_eq, bytes_eq_instance,
}
use mathlib.Core.Path.{subst}
use deltio.Topics.Message.{TopicMessage, Messages}
use deltio.Subscriptions.Info.{SubscriptionInfo}
use deltio.Subscriptions.Outstanding.Invariant.{IsValid}
use deltio.Subscriptions.RetryQueue.Invariant
use deltio.Subscriptions.Actor.{SubscriptionActor, Signal, signal_if, ordered_key, queue_of}
use deltio.Subscriptions.Actor.Stored.{held}

-- 1 for a message that is delivered under the key, else 0.
abbrev pub keyed_at : Bytes → Option Bytes → ℕ
keyed_at key none = 0
keyed_at key (some k) = if bytes_eq k key then 1 else 0

abbrev pub keyed : SubscriptionInfo → Bytes → TopicMessage → ℕ
keyed info key m = keyed_at key (ordered_key info m)

abbrev pub flight : Bytes → List Bytes → ℕ
flight key keys = if contains key keys then 1 else 0

-- Every message of a list is delivered under the key, or under none.
abbrev pub AllKeyed : SubscriptionInfo → Option Bytes → Messages → Type 0
AllKeyed info key [] = Unit
AllKeyed info key (m ∷ ms) = (ordered_key info m ≡ key) × AllKeyed info key ms

pub AllKeyed-append :
    (info : SubscriptionInfo) (key : Option Bytes) (ms : Messages) (m : TopicMessage)
    → AllKeyed info key ms
    → ordered_key info m ≡ key
    → AllKeyed info key (ms ++ m ∷ [])
AllKeyed-append info key [] m h e = (e, tt)
AllKeyed-append info key (n ∷ ms) m h e = (h.0, AllKeyed-append info key ms m h.1 e)

-- Each queue holds the messages of its key.
abbrev pub QueuesKeyed : SubscriptionInfo → Map Bytes Messages → Type 0
QueuesKeyed info queues = (key : Bytes) → AllKeyed info (some key) (queue_of key queues)

queue_of-insert :
    (k key : Bytes) (q : Messages) (queues : Map Bytes Messages)
    → queue_of key (insert k q queues) ≡ (if bytes_eq k key then q else queue_of key queues)
queue_of-insert k key q queues = ground (arith, lookup-insert k key q queues)

pub insert-QueuesKeyed :
    (info : SubscriptionInfo) (queues : Map Bytes Messages) (k : Bytes) (q : Messages)
    → QueuesKeyed info queues
    → AllKeyed info (some k) q
    → QueuesKeyed info (insert k q queues)
insert-QueuesKeyed info queues k q h hq key = elim (Bool-cases (bytes_eq k key)) [
  | inl e ↦
      rw (queue_of-insert k key q queues)
        (rw e (subst (λ j. AllKeyed info (some j) q) ((bytes_eq_iff k key).0 e) hq))
  | inr e ↦ rw (queue_of-insert k key q queues) (rw e (h key))
]

pub record WellFormed (extra : Bytes → ℕ) (a : SubscriptionActor) : Type 0 where
  pub tracker : IsValid a.outstanding
  pub retry : Invariant.IsValid a.retry_queue
  pub fresh : (n : ℕ) → a.next_ack_id ≤ n → lookup n a.outstanding.messages ≡ none
  pub queues : Unique a.ordered_queues
  pub plain : AllKeyed a.info none a.backlog
  pub keyed_queues : QueuesKeyed a.info a.ordered_queues
  pub exclusive :
      (key : Bytes) → held (keyed a.info key) a + extra key ≤ flight key a.keys_in_flight

abbrev pub no_extra : Bytes → ℕ
no_extra key = 0

-- The invariant between two turns of the loop.
abbrev pub Inv : SubscriptionActor → Type 0
Inv a = WellFormed no_extra a

pub signal_if-WellFormed :
    (extra : Bytes → ℕ) (b : Bool) (s : Signal) (a : SubscriptionActor)
    → WellFormed extra a
    → WellFormed extra (signal_if b s a)
signal_if-WellFormed extra true s a v = record {
  tracker = v.tracker;
  retry = v.retry;
  fresh = v.fresh;
  queues = v.queues;
  plain = v.plain;
  keyed_queues = v.keyed_queues;
  exclusive = v.exclusive;
}
signal_if-WellFormed extra false s a v = v

-- Fewer messages in hand.
pub WellFormed-less :
    (extra less : Bytes → ℕ) (a : SubscriptionActor)
    → ((key : Bytes) → less key ≤ extra key)
    → WellFormed extra a
    → WellFormed less a
WellFormed-less extra less a h v = record {
  tracker = v.tracker;
  retry = v.retry;
  fresh = v.fresh;
  queues = v.queues;
  plain = v.plain;
  keyed_queues = v.keyed_queues;
  exclusive = λ key. omega (arith, v.exclusive key, h key);
}
