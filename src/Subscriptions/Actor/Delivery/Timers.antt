-- ===== src/Subscriptions/Actor/Delivery/Timers.antt =====
-- The deadlines and the backoffs that are over take no message, as long as there is no retention
-- and no dead-letter policy.
use deltio.Prelude.{
  List, [], ap, arith, if_cases, is_empty, length, none, refl, remove, some, total, total_one, true,
  weigh_one, ℕ, ◌+◌, ◌<◌, ◌^◌, ◌∙◌, ◌∷◌, ◌≡◌, nat_eq, bytes_eq_instance,
}
use deltio.Topics.Message.{TopicMessage}
use deltio.Subscriptions.Pulled.{PulledMessage}
use deltio.Subscriptions.Info.{SubscriptionInfo}
use deltio.Subscriptions.Outstanding
use deltio.Subscriptions.Outstanding.{OutstandingMessageTracker, take_expired, len, modify}
use deltio.Subscriptions.Outstanding.Expiry.{Expires}
use deltio.Subscriptions.RetryQueue.{take_ready}
use deltio.Subscriptions.RetryQueue.Invariant
use deltio.Subscriptions.RetryQueue.Ready.{take_ready-Readies}
use deltio.Subscriptions.Actor.{
  SubscriptionActor, Environment, messages_available, is_message_expired,
}
use deltio.Subscriptions.Actor.Stored.{requeue_one-SameHead}
use deltio.Subscriptions.Actor.Stored.{requeue_one-SameHead}
use deltio.Subscriptions.Actor.Post.{requeue_one}
use deltio.Subscriptions.Actor.Requeue.{handle_expired_messages, retry_each, handle_retry_ready}
use deltio.Subscriptions.Actor.Receive.{retry, expire}
use deltio.Subscriptions.Actor.Stored.{stored, queued-requeue_one, held-requeue_one}
use deltio.Subscriptions.Actor.Progress.{handed}
use deltio.Subscriptions.Actor.Invariant.{Inv}
use deltio.Subscriptions.Actor.Delivery.Conserves.{Keeps, requeue_messages-Keeps, signalled-stored}

handle_expired_messages-Keeps :
    (env : Environment) (ps : List PulledMessage) (a : SubscriptionActor)
    → a.retry_queue.next_seq + length ps < 2 ^ 64
    → Invariant.IsValid a.retry_queue
    → Keeps a (λ f. handed f ps) (handle_expired_messages env ps a)
unfolding handle_expired_messages
handle_expired_messages-Keeps env ps a small v =
    let y = requeue_messages-Keeps env ps _ small v in record { no_more = y.no_more; kept = y.kept }

pub expire-Keeps :
    (env : Environment) (a : SubscriptionActor) (t : OutstandingMessageTracker)
    (result : List PulledMessage)
    → a.retry_queue.next_seq + Outstanding.len a.outstanding < 2 ^ 64
    → Inv a
    → Expires env.now a.outstanding.messages t.messages result
    → (b : SubscriptionActor) × (expire env a (some (t, result)) ≡ some b) × Keeps a (λ _. 0) b
unfolding Outstanding.len
expire-Keeps env a t [] room v x = (
  record a { outstanding = t },
  refl,
  record {
    no_more = λ f. omega (arith, x.counted (λ p. f p.message));
    kept = λ _ _ f. omega (arith, x.counted (λ p. f p.message));
  },
)
expire-Keeps env a t (p ∷ ps) room v x =
    let y =
      handle_expired_messages-Keeps env (p ∷ ps) (record a { outstanding = t })
        (omega
          (arith, room, x.counted (λ _. 1), total_one (p ∷ ps), weigh_one a.outstanding.messages))
        v.retry in
    (
      handle_expired_messages env (p ∷ ps) (record a { outstanding = t }),
      refl,
      record {
        no_more = λ f. omega (arith, y.no_more f, x.counted (λ q. f q.message));
        kept = λ h h' f. omega (arith, y.kept h h' f, x.counted (λ q. f q.message));
      },
    )

retry_each-Keeps :
    (now : ℕ) (ms : List TopicMessage) (a : SubscriptionActor)
    → Keeps a (λ f. total f ms) (retry_each now ms a)
unfolding retry_each is_message_expired
retry_each-Keeps now [] a = record { no_more = λ f. omega arith; kept = λ _ _ f. omega arith }
retry_each-Keeps now (m ∷ ms) a =
    if_cases (λ b. Keeps a (λ f. total f (m ∷ ms)) (retry_each now ms b))
      (is_message_expired a.info now m)
      (record a { delivery_attempts = remove m.id a.delivery_attempts }) (requeue_one a m)
      (λ e.
        let y =
          retry_each-Keeps now ms
            (record a { delivery_attempts = remove m.id a.delivery_attempts }) in
        record {
          no_more = λ f. omega (arith, y.no_more f);
          kept = λ h h' f. absurd (no_retention a.info m e h');
        })
      (λ e.
        let y = retry_each-Keeps now ms (requeue_one a m) in
        let same = (requeue_one-SameHead a m).same_info in
        record {
          no_more =
              λ f. omega (arith, y.no_more f, queued-requeue_one f a m, held-requeue_one f a m);
          kept = λ h h' f. omega (
            arith,
            y.kept (ap (λ i. i.dead_letter_policy) same ∙ h)
                (ap (λ i. i.message_retention_duration) same ∙ h') f,
            queued-requeue_one f a m,
            held-requeue_one f a m,
          );
        })
  where
    no_retention :
        (info : SubscriptionInfo) (m : TopicMessage)
        → is_message_expired info now m ≡ true
        → info.message_retention_duration ≡ none
        → ⊥
    no_retention info m e h = ground arith

empty-total : (f : TopicMessage → ℕ) (ms : List TopicMessage) → is_empty ms ≡ true → total f ms ≡ 0
empty-total f [] e = refl
empty-total f (m ∷ ms) e = absurd (ground arith)

pub retry-Keeps :
    (env : Environment) (a : SubscriptionActor) → Inv a → Keeps a (λ _. 0) (retry env a)
unfolding retry handle_retry_ready
retry-Keeps env a v =
    let (_, x) = take_ready-Readies a.retry_queue env.now v.retry in
    let (queue, ready) = take_ready a.retry_queue env.now in
    let taken = record a { retry_queue = queue } in
    let handled = handle_retry_ready env.now ready taken in
    if_cases (Keeps a (λ _. 0)) (is_empty ready) taken handled
      (λ e. record {
        no_more = λ f. omega (arith, x.counted f, empty-total f ready e);
        kept = λ _ _ f. omega (arith, x.counted f, empty-total f ready e);
      })
      (λ _.
        let y = retry_each-Keeps env.now ready taken in
        record {
          no_more = λ f. omega (arith, y.no_more f, x.counted f, handled-stored f ready taken);
          kept = λ h h' f. omega (arith, y.kept h h' f, x.counted f, handled-stored f ready taken);
        })
  where
    handled-stored :
        (f : TopicMessage → ℕ) (ready : List TopicMessage) (b : SubscriptionActor)
        → stored f (handle_retry_ready env.now ready b) ≡ stored f (retry_each env.now ready b)
    handled-stored f ready b = signalled-stored f _ messages_available (retry_each env.now ready b)
