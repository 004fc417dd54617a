-- ===== src/Subscriptions/Actor/Delivery/Ack.antt =====
-- What `acknowledge_messages` does to the messages, and what it answers.
use deltio.Prelude.{
  Bool, List, [], arith, contains, contains-cons, contains-nil, false, if_cases, if◌then◌else◌,
  is_empty, lookup, none, not, refl, true, ℕ, ◌&&◌, ◌+◌, ◌∷◌, ◌≡◌, nat_eq, bytes_eq_instance,
}
use deltio.Topics.Message.{TopicMessage}
use deltio.Subscriptions.Pulled.{PulledMessage}
use deltio.Subscriptions.Info.{AckOutcome}
use deltio.Subscriptions.Outstanding
use deltio.Subscriptions.Outstanding.{OutstandingMessageTracker, holds, remove_ids}
use deltio.Subscriptions.Outstanding.Updates.{remove_ids-Removes}
use deltio.Subscriptions.Actor.{
  SubscriptionActor, Signal, messages_available, outstanding_freed, signal_if,
}
use deltio.Subscriptions.Actor.Requests.{split_ids, without_acked, acking, acknowledge_messages}
use deltio.Subscriptions.Actor.Stored.{stored}
use deltio.Subscriptions.Actor.Progress.{handed}
use deltio.Subscriptions.Actor.Invariant.{Inv}

module _ (t : OutstandingMessageTracker) (n : ℕ) where
  pub split_ids-valid :
      (ids : List ℕ)
      → contains n (split_ids t ids).valid ≡ (contains n ids && Outstanding.holds t n)
  unfolding split_ids Outstanding.holds
  split_ids-valid [] = ground (arith, contains-nil n)
  split_ids-valid (id ∷ ids) = ground (
    arith,
    split_ids-valid ids,
    contains-cons n id ids,
    contains-cons n id (split_ids t ids).valid,
  )

  pub split_ids-invalid :
      (ids : List ℕ)
      → contains n (split_ids t ids).invalid ≡ (contains n ids && not (Outstanding.holds t n))
  unfolding split_ids Outstanding.holds
  split_ids-invalid [] = ground (arith, contains-nil n)
  split_ids-invalid (id ∷ ids) = ground (
    arith,
    split_ids-invalid ids,
    contains-cons n id ids,
    contains-cons n id (split_ids t ids).invalid,
  )

-- The outcome of an ack: the ack IDs are outstanding no more and the others are as they were, the
-- answer sorts the ack IDs by whether they were outstanding, the queues are untouched, and the
-- messages that left are those of the acked ones.
pub record Acks (ids : List ℕ) (a b : SubscriptionActor) (outcome : AckOutcome) : Type 0 where
  pub settled :
      (n : ℕ)
      → lookup n b.outstanding.messages
        ≡ (if contains n ids then none else lookup n a.outstanding.messages)
  pub valid :
      (n : ℕ) → contains n outcome.valid ≡ (contains n ids && Outstanding.holds a.outstanding n)
  pub invalid :
      (n : ℕ)
      → contains n outcome.invalid ≡ (contains n ids && not (Outstanding.holds a.outstanding n))
  pub same_queues :
      (b.backlog ≡ a.backlog)
      × (b.ordered_queues ≡ a.ordered_queues)
      × (b.retry_queue ≡ a.retry_queue)
  pub acked : List PulledMessage
  pub counted : (f : TopicMessage → ℕ) → handed f acked + stored f b ≡ stored f a

signal_if-Acks :
    (ids : List ℕ) (a b : SubscriptionActor) (o : AckOutcome) (sent : Bool) (s : Signal)
    → Acks ids a b o
    → Acks ids a (signal_if sent s b) o
signal_if-Acks ids a b o true s k = record {
  settled = k.settled;
  valid = k.valid;
  invalid = k.invalid;
  same_queues = k.same_queues;
  acked = k.acked;
  counted = k.counted;
}
signal_if-Acks ids a b o false s k = k

without_acked-Acks :
    (ids : List ℕ) (a : SubscriptionActor)
    → Inv a
    → let outcome = split_ids a.outstanding ids in
      let (tracker, acked) = Outstanding.remove_ids a.outstanding outcome.valid in
      Acks ids a (without_acked tracker acked a) outcome
unfolding without_acked Outstanding.holds
without_acked-Acks ids a v =
    let outcome = split_ids a.outstanding ids in
    let (_, x) = remove_ids-Removes a.outstanding outcome.valid v.tracker in
    record {
      settled = λ n. ground (arith, x.kept n, split_ids-valid a.outstanding n ids);
      valid = λ n. split_ids-valid a.outstanding n ids;
      invalid = λ n. split_ids-invalid a.outstanding n ids;
      same_queues = (refl, refl, refl);
      acked = (Outstanding.remove_ids a.outstanding outcome.valid).1;
      counted = λ f. omega (arith, x.counted (λ p. f p.message));
    }

-- On a well-formed subscription that is not deleted, an ack removes the outstanding messages of its
-- ack IDs and nothing else, and answers which of the ack IDs were outstanding and which were not.
pub acknowledge_messages-Acks :
    (ids : List ℕ) (a : SubscriptionActor)
    → a.deleted ≡ false
    → Inv a
    → Acks ids a (acknowledge_messages ids a).0 (acknowledge_messages ids a).1
unfolding acknowledge_messages
acknowledge_messages-Acks ids a live v =
    let outcome = split_ids a.outstanding ids in
    let (tracker, acked) = Outstanding.remove_ids a.outstanding outcome.valid in
    if_cases (λ (r : SubscriptionActor × AckOutcome). Acks ids a r.0 r.1) a.deleted _ _
      (λ d. absurd (ground arith))
      (λ _. signal_if-Acks ids a _ outcome (acking acked a).freed messages_available (
        signal_if-Acks ids a _ outcome (not (is_empty acked)) outstanding_freed
          (without_acked-Acks ids a v)))
