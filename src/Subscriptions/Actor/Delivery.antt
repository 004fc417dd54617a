-- ===== src/Subscriptions/Actor/Delivery.antt =====
-- What the requests do to the messages of a subscription: posting, pulling, acking, putting back
-- and seeking, each as an equation for every weight on messages.
pub mod Pull
pub mod Ack
pub mod Requeue
pub mod Conserves
pub mod Timers
pub mod SameFlight
pub mod AtLeastOnce
pub mod Seek
pub mod Defects
pub mod Closed
pub mod Gone
use deltio.Prelude.{
  Bool, Bool-cases, List, [], ap, arith, false, if_cases, if◌then◌else◌, inl, inr, refl, retain,
  total, true, ℕ, ◌+◌, ◌∙◌, ◌∷◌, ◌≡◌, nat_eq, bytes_eq_instance,
}
use deltio.Topics.Message.{TopicMessage}
use deltio.Subscriptions.Actor.{SubscriptionActor, messages_available, signal_if}
use deltio.Subscriptions.Actor.Post.{accepts, enqueue, post_each, post_messages}
use deltio.Subscriptions.Actor.Stored.{
  stored, queued, held, queued-enqueue, held-enqueue, enqueue-SameHead, SameHead,
}

-- One message, which passed the filter or did not.
module _ (f : TopicMessage → ℕ) (a : SubscriptionActor) (m : TopicMessage) where
  stored-posted :
      (b : Bool) → stored f (if b then enqueue a m else a) ≡ stored f a + (if b then f m else 0)
  stored-posted true = omega (arith, queued-enqueue f a m, held-enqueue f a m)
  stored-posted false = omega arith

  posted-filter : (b : Bool) → (if b then enqueue a m else a).compiled_filter ≡ a.compiled_filter
  posted-filter true = (enqueue-SameHead a m).same_filter
  posted-filter false = refl

total-retain-cons :
    (f : TopicMessage → ℕ) (p : TopicMessage → Bool) (m : TopicMessage) (ms : List TopicMessage)
    → total f (retain p (m ∷ ms)) ≡ (if p m then f m else 0) + total f (retain p ms)
total-retain-cons f p m ms = elim (Bool-cases (p m)) [
  | inl e ↦ rw e (omega arith)
  | inr e ↦ rw e (omega arith)
]

post_each-stored :
    (f : TopicMessage → ℕ) (ms : List TopicMessage) (a : SubscriptionActor)
    → stored f (post_each ms a) ≡ stored f a + total f (retain (accepts a.compiled_filter) ms)
unfolding post_each
post_each-stored f [] a = omega arith
post_each-stored f (m ∷ ms) a =
    let b = accepts a.compiled_filter m in
    let a' = if b then enqueue a m else a in
    omega (
      arith,
      post_each-stored f ms a',
      stored-posted f a m b,
      total-retain-cons f (accepts a.compiled_filter) m ms,
      ap (λ c. total f (retain (accepts c) ms)) (posted-filter f a m b),
    )

signal_if-stored :
    (f : TopicMessage → ℕ) (b : Bool) (a : SubscriptionActor)
    → stored f (signal_if b messages_available a) ≡ stored f a
signal_if-stored f true a = refl
signal_if-stored f false a = refl

-- A subscription that is not deleted, detached or not, takes in exactly the posted messages that its
-- filter accepts, once each, and loses none that it has.
pub post_messages-stored :
    (ms : List TopicMessage) (a : SubscriptionActor)
    → a.deleted ≡ false
    → (f : TopicMessage → ℕ)
    → stored f (post_messages ms a) ≡ stored f a + total f (retain (accepts a.compiled_filter) ms)
unfolding post_messages
post_messages-stored ms a e f =
    if_cases
      (λ b.
        a.deleted ≡ false
        → stored f b ≡ stored f a + total f (retain (accepts a.compiled_filter) ms))
      a.deleted a _ (λ d e'. absurd (ground arith))
      (λ _ _. signal_if-stored f _ (post_each ms a) ∙ post_each-stored f ms a) e
