-- ===== src/Subscriptions/Actor/Stored.antt =====
-- How much of a weight the messages of a subscription carry: waiting in its queues, or held in
-- flight. With an indicator for a weight this counts copies, so that equations for every weight say
-- that no message is lost and none is made.
use deltio.Prelude.{
  Bytes, Map, Option-cases, [], arith, inl, inr, insert, lookup, total, total-append, weigh,
  weigh-insert, weigh?, ℕ, ◌++◌, ◌+◌, ◌∷◌, ◌≡◌, nat_eq, bytes_eq_instance,
}
use deltio.Topics.Message.{TopicMessage, Messages}
use deltio.Subscriptions.Outstanding.{OutstandingMessageTracker}
use deltio.Subscriptions.RetryQueue.{RetryQueue}
use deltio.Subscriptions.Actor.{SubscriptionActor, queue_of, ordered_key}
use deltio.Subscriptions.Actor.Post.{enqueue, requeue_one}

module _ (f : TopicMessage → ℕ) where
  abbrev pub queued : SubscriptionActor → ℕ
  queued a = total f a.backlog + weigh (total f) a.ordered_queues

  abbrev pub in_tracker : OutstandingMessageTracker → ℕ
  in_tracker t = weigh (λ p. f p.message) t.messages

  abbrev pub in_retry : RetryQueue → ℕ
  in_retry q = weigh f q.messages

  abbrev pub held : SubscriptionActor → ℕ
  held a = in_tracker a.outstanding + in_retry a.retry_queue

  abbrev pub stored : SubscriptionActor → ℕ
  stored a = queued a + held a

  total-queue_of :
      (key : Bytes) (queues : Map Bytes Messages)
      → total f (queue_of key queues) ≡ weigh? (total f) (lookup key queues)
  total-queue_of key queues = ground arith

  weigh-enqueue :
      (key : Bytes) (queues : Map Bytes Messages) (m : TopicMessage)
      → weigh (total f) (insert key (queue_of key queues ++ m ∷ []) queues)
        ≡ weigh (total f) queues + f m
  weigh-enqueue key queues m = omega (
    arith,
    weigh-insert (total f) key (queue_of key queues ++ m ∷ []) queues,
    total-append f (queue_of key queues) (m ∷ []),
    total-queue_of key queues,
  )

  weigh-requeue :
      (key : Bytes) (queues : Map Bytes Messages) (m : TopicMessage)
      → weigh (total f) (insert key (m ∷ queue_of key queues) queues) ≡ weigh (total f) queues + f m
  weigh-requeue key queues m = omega (
    arith,
    weigh-insert (total f) key (m ∷ queue_of key queues) queues,
    total-queue_of key queues,
  )

  pub queued-enqueue :
      (a : SubscriptionActor) (m : TopicMessage) → queued (enqueue a m) ≡ queued a + f m
  unfolding enqueue
  queued-enqueue a m = elim (Option-cases (ordered_key a.info m)) [
    | inl e ↦ rw e (omega (arith, total-append f a.backlog (m ∷ [])))
    | inr (key, e) ↦ rw e (omega (arith, weigh-enqueue key a.ordered_queues m))
  ]

  pub queued-requeue_one :
      (a : SubscriptionActor) (m : TopicMessage) → queued (requeue_one a m) ≡ queued a + f m
  unfolding requeue_one
  queued-requeue_one a m = elim (Option-cases (ordered_key a.info m)) [
    | inl e ↦ rw e (omega (arith, total-append f a.backlog (m ∷ [])))
    | inr (key, e) ↦ rw e (omega (arith, weigh-requeue key a.ordered_queues m))
  ]

-- What neither queue changes.
pub held-enqueue :
    (f : TopicMessage → ℕ) (a : SubscriptionActor) (m : TopicMessage)
    → held f (enqueue a m) ≡ held f a
unfolding enqueue
held-enqueue f a m = elim (Option-cases (ordered_key a.info m)) [
  | inl e ↦ rw e
  | inr (key, e) ↦ rw e
]

pub held-requeue_one :
    (f : TopicMessage → ℕ) (a : SubscriptionActor) (m : TopicMessage)
    → held f (requeue_one a m) ≡ held f a
unfolding requeue_one
held-requeue_one f a m = elim (Option-cases (ordered_key a.info m)) [
  | inl e ↦ rw e
  | inr (key, e) ↦ rw e
]

-- The fields that the routines below read, and do not change.
pub record SameHead (a b : SubscriptionActor) : Type 0 where
  pub same_info : a.info ≡ b.info
  pub same_filter : a.compiled_filter ≡ b.compiled_filter
  pub same_deleted : a.deleted ≡ b.deleted

pub requeue_one-SameHead : (a : SubscriptionActor) (m : TopicMessage) → SameHead (requeue_one a m) a
unfolding requeue_one
requeue_one-SameHead a m = ground arith

pub enqueue-SameHead : (a : SubscriptionActor) (m : TopicMessage) → SameHead (enqueue a m) a
unfolding enqueue
enqueue-SameHead a m = ground arith
