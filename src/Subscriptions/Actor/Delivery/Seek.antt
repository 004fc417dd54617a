-- ===== src/Subscriptions/Actor/Delivery/Seek.antt =====
-- What `seek_to_time`, `detach` and `delete` leave of the messages.
use deltio.Prelude.{
  Bool, Bytes, List, Map, Option-cases, [], ap, arith, discard, discard-nil, false, if_cases,
  if◌then◌else◌, inl, inr, refl, total, total-retain, total-values, true, values, weigh, ℕ, ◌+◌,
  ◌∙◌, ◌∷◌, ◌≡◌, nat_eq, bytes_eq_instance,
}
use deltio.Topics.Message.{TopicMessage, Messages}
use deltio.Subscriptions.Pulled.{PulledMessage}
use deltio.Subscriptions.Outstanding
use deltio.Subscriptions.Outstanding.{clear, drain}
use deltio.Subscriptions.RetryQueue.{drain_queue}
use deltio.Subscriptions.Actor.{SubscriptionActor, ordered_key}
use deltio.Subscriptions.Actor.Post.{requeue_one}
use deltio.Subscriptions.Actor.Requests.{
  published_after, retain_queues, requeue_newer, messages_of, reset_for_seek, seek_to_time,
}
use deltio.Subscriptions.Actor.Stored.{stored, held, queued-requeue_one, held-requeue_one}
use deltio.Subscriptions.Actor.Progress.{handed}

module _ (f : TopicMessage → ℕ) (time : ℕ) where
  -- The weight of what is newer than the seek time.
  abbrev pub newer : TopicMessage → ℕ
  newer m = if published_after time m then f m else 0

  weigh-retain_queues :
      (queues : Map Bytes Messages)
      → weigh (total f) (retain_queues time queues) ≡ weigh (total newer) queues
  unfolding retain_queues
  weigh-retain_queues [] = refl
  weigh-retain_queues ((key, q) ∷ queues) =
      ground (arith, weigh-retain_queues queues, total-retain f (published_after time) q)

  stored-requeued :
      (b : Bool) (m : TopicMessage) (a : SubscriptionActor)
      → stored f (if b then requeue_one a m else a) ≡ stored f a + (if b then f m else 0)
  stored-requeued true m a = omega (arith, queued-requeue_one f a m, held-requeue_one f a m)
  stored-requeued false m a = omega arith

  requeue_newer-stored :
      (ms : List TopicMessage) (a : SubscriptionActor)
      → stored f (requeue_newer time ms a) ≡ stored f a + total newer ms
  unfolding requeue_newer
  requeue_newer-stored [] a = omega arith
  requeue_newer-stored (m ∷ ms) a =
      let b = published_after time m in
      omega
        (arith, requeue_newer-stored ms (if b then requeue_one a m else a), stored-requeued b m a)

  held-requeued :
      (b : Bool) (m : TopicMessage) (a : SubscriptionActor)
      → held f (if b then requeue_one a m else a) ≡ held f a
  held-requeued true m a = held-requeue_one f a m
  held-requeued false m a = refl

  requeue_newer-held :
      (ms : List TopicMessage) (a : SubscriptionActor) → held f (requeue_newer time ms a) ≡ held f a
  unfolding requeue_newer
  requeue_newer-held [] a = refl
  requeue_newer-held (m ∷ ms) a =
      requeue_newer-held ms _ ∙ held-requeued (published_after time m) m a

keys-requeue_one :
    (a : SubscriptionActor) (m : TopicMessage)
    → a.keys_in_flight ≡ []
    → (requeue_one a m).keys_in_flight ≡ []
unfolding requeue_one
keys-requeue_one a m none_marked = elim (Option-cases (ordered_key a.info m)) [
  | inl e ↦ rw e none_marked
  | inr (key, e) ↦ rw e (ap (discard key) none_marked ∙ discard-nil key)
]

requeue_newer-keys :
    (time : ℕ) (ms : List TopicMessage) (a : SubscriptionActor)
    → a.keys_in_flight ≡ []
    → (requeue_newer time ms a).keys_in_flight ≡ []
unfolding requeue_newer
requeue_newer-keys time [] a none_marked = none_marked
requeue_newer-keys time (m ∷ ms) a none_marked = requeue_newer-keys time ms _ (
    if_cases (λ (b : SubscriptionActor). b.keys_in_flight ≡ []) (published_after time m)
      (requeue_one a m) a (λ _. keys-requeue_one a m none_marked) (λ _. none_marked))

reset_for_seek-keys :
    (time : ℕ) (a : SubscriptionActor) → (reset_for_seek time a).keys_in_flight ≡ []
unfolding reset_for_seek
reset_for_seek-keys time a = refl

total-messages_of :
    (f : TopicMessage → ℕ) (ps : List PulledMessage) → total f (messages_of ps) ≡ handed f ps
total-messages_of f [] = refl
total-messages_of f (p ∷ ps) = omega (arith, total-messages_of f ps)

reset_for_seek-stored :
    (f : TopicMessage → ℕ) (time : ℕ) (a : SubscriptionActor)
    → (held f (reset_for_seek time a) ≡ 0)
      × (stored f (reset_for_seek time a)
          ≡ total (newer f time) a.backlog + weigh (total (newer f time)) a.ordered_queues)
unfolding reset_for_seek Outstanding.drain drain_queue
reset_for_seek-stored f time a = (
  refl,
  omega (
    arith,
    total-retain f (published_after time) a.backlog,
    weigh-retain_queues f time a.ordered_queues,
  ),
)

-- Seeking a subscription that is not deleted keeps exactly the messages published after the time,
-- wherever they were. All of them wait in the queues: none is in flight or waits for a retry, and no
-- ordering key is marked in flight, which would keep a pull from its queue.
pub seek_to_time-keeps_newer :
    (time : ℕ) (a : SubscriptionActor)
    → a.deleted ≡ false
    → (f : TopicMessage → ℕ)
    → (stored f (seek_to_time time a) ≡ stored (newer f time) a)
      × (held f (seek_to_time time a) ≡ 0)
      × ((seek_to_time time a).keys_in_flight ≡ [])
unfolding seek_to_time Outstanding.drain drain_queue
seek_to_time-keeps_newer time a live f =
    let pulled = values a.outstanding.messages in
    let retrying = values a.retry_queue.messages in
    let reset = reset_for_seek time a in
    let once = requeue_newer time (messages_of pulled) reset in
    let P = λ (b : SubscriptionActor).
      (stored f b ≡ stored (newer f time) a) × (held f b ≡ 0) × (b.keys_in_flight ≡ []) in
    if_cases P a.deleted a _ (λ d. absurd (ground arith))
      (λ _. (
        omega (
          arith,
          requeue_newer-stored f time retrying once,
          requeue_newer-stored f time (messages_of pulled) reset,
          (reset_for_seek-stored f time a).1,
          total-messages_of (newer f time) pulled,
          total-values (λ p. newer f time p.message) a.outstanding.messages,
          total-values (newer f time) a.retry_queue.messages,
        ),
        requeue_newer-held f time retrying once
            ∙ requeue_newer-held f time (messages_of pulled) reset
            ∙ (reset_for_seek-stored f time a).0,
        requeue_newer-keys time retrying once
            (requeue_newer-keys time (messages_of pulled) reset (reset_for_seek-keys time a)),
      ))
