-- ===== src/Subscriptions/Actor/Invariant/Requests.antt =====
-- Posting, acks and deadline modifications keep the invariant.
use deltio.Prelude.{
  Bytes, List, Option, Option-cases, [], ap, arith, contains-discard, false, if_cases, inl, inr,
  insert-Unique, is_empty, none, not, refl, remove, some, total, total_one, weigh_one, ℕ, ◌+◌, ◌<◌,
  ◌==◌, ◌^◌, ◌∙◌, ◌∷◌, ◌≡◌, ◌≤◌, nat_eq, bytes_eq_instance,
}
use deltio.Topics.Message.{TopicMessage}
use deltio.Subscriptions.Info.{SubscriptionInfo, AckOutcome}
use deltio.Subscriptions.Pulled.{PulledMessage, DeadlineModification}
use deltio.Subscriptions.Outstanding
use deltio.Subscriptions.Outstanding.Updates.{remove_ids-Removes}
use deltio.Subscriptions.Outstanding.Modify.{changes, modify-Modifies}
use deltio.Subscriptions.Actor.{
  SubscriptionActor, Environment, messages_available, outstanding_freed, ordered_key, queue_of,
  signal_if,
}
use deltio.Subscriptions.Actor.Post.{accepts, enqueue, post_each, post_messages}
use deltio.Subscriptions.Actor.Requests.{
  Acking, free_key, ack_each, acking, without_acked, acknowledge_messages, modify_deadline,
  split_ids,
}
use deltio.Subscriptions.Actor.Stored.{held}
use deltio.Subscriptions.Actor.Invariant.{
  Inv, no_extra, keyed, keyed_at, flight, AllKeyed-append, insert-QueuesKeyed, signal_if-WellFormed,
}
use deltio.Subscriptions.Actor.Invariant.RequeueAll.{requeue_messages-WellFormed}

enqueue-Inv : (a : SubscriptionActor) (m : TopicMessage) → Inv a → Inv (enqueue a m)
unfolding enqueue
enqueue-Inv a m v = elim (Option-cases (ordered_key a.info m)) [
  | inl e ↦ rw e (record {
    tracker = v.tracker;
    retry = v.retry;
    fresh = v.fresh;
    queues = v.queues;
    plain = AllKeyed-append a.info none a.backlog m v.plain e;
    keyed_queues = v.keyed_queues;
    exclusive = v.exclusive;
  })
  | inr (k, e) ↦ rw e (record {
    tracker = v.tracker;
    retry = v.retry;
    fresh = v.fresh;
    queues = insert-Unique k _ a.ordered_queues v.queues;
    plain = v.plain;
    keyed_queues =
        insert-QueuesKeyed a.info a.ordered_queues k _ v.keyed_queues
          (AllKeyed-append a.info (some k) (queue_of k a.ordered_queues) m (v.keyed_queues k) e);
    exclusive = v.exclusive;
  })
]

post_each-Inv : (ms : List TopicMessage) (a : SubscriptionActor) → Inv a → Inv (post_each ms a)
unfolding post_each
post_each-Inv [] a v = v
post_each-Inv (m ∷ ms) a v =
    post_each-Inv ms _
      (if_cases Inv (accepts a.compiled_filter m) _ a (λ _. enqueue-Inv a m v) (λ _. v))

pub post_messages-Inv :
    (ms : List TopicMessage) (a : SubscriptionActor) → Inv a → Inv (post_messages ms a)
unfolding post_messages
post_messages-Inv ms a v =
    if_cases Inv a.deleted a _ (λ _. v)
      (λ _. signal_if-WellFormed no_extra _ messages_available _ (post_each-Inv ms a v))

-- Each acked message in hand gives up its key.
ack_each-exclusive :
    (info : SubscriptionInfo) (key : Bytes) (others : ℕ) (ps : List PulledMessage) (s : Acking)
    → others + total (λ p. keyed info key p.message) ps ≤ flight key s.keys_in_flight
    → others ≤ flight key (ack_each info ps s).keys_in_flight
unfolding ack_each
ack_each-exclusive info key others [] s h = omega arith
ack_each-exclusive info key others (p ∷ ps) s h =
    ack_each-exclusive info key others ps _ (free (ordered_key info p.message) h)
  where
    rest : ℕ
    rest = total (λ q. keyed info key q.message) ps

    free :
        (o : Option Bytes)
        → others + (keyed_at key o + rest) ≤ flight key s.keys_in_flight
        → others + rest
          ≤ flight key
              (free_key o (record s {
                delivery_attempts = remove p.message.id s.delivery_attempts;
              })).keys_in_flight
    free none h' = omega arith
    free (some k) h' = ground (arith, contains-discard k key s.keys_in_flight)

without_acked-Inv :
    (ids : List ℕ) (a : SubscriptionActor)
    → Inv a
    → Inv (
        without_acked
          (Outstanding.remove_ids a.outstanding ids).0
          (Outstanding.remove_ids a.outstanding ids).1
          a)
unfolding without_acked
without_acked-Inv ids a v =
    let (valid, x) = remove_ids-Removes a.outstanding ids v.tracker in
    record {
      tracker = valid;
      retry = v.retry;
      fresh = λ n h. ground (arith, x.kept n, v.fresh n h);
      queues = v.queues;
      plain = v.plain;
      keyed_queues = v.keyed_queues;
      exclusive = λ key. omega (
        arith,
        ack_each-exclusive a.info key
            (held (keyed a.info key)
              (record a { outstanding = (Outstanding.remove_ids a.outstanding ids).0 }))
            (Outstanding.remove_ids a.outstanding ids).1
            (record {
              delivery_attempts = a.delivery_attempts;
              keys_in_flight = a.keys_in_flight;
              freed = false;
            })
            (omega (arith, x.counted (λ p. keyed a.info key p.message), v.exclusive key)),
      );
    }

pub acknowledge_messages-Inv :
    (ids : List ℕ) (a : SubscriptionActor) → Inv a → Inv (acknowledge_messages ids a).0
unfolding acknowledge_messages
acknowledge_messages-Inv ids a v =
    let valid_ids = (split_ids a.outstanding ids).valid in
    let (tracker, acked) = Outstanding.remove_ids a.outstanding valid_ids in
    let released = without_acked tracker acked a in
    if_cases (λ (r : SubscriptionActor × AckOutcome). Inv r.0) a.deleted _ _ (λ _. v)
      (λ _.
        signal_if-WellFormed no_extra (acking acked a).freed messages_available
          (signal_if (not (is_empty acked)) outstanding_freed released)
          (signal_if-WellFormed no_extra (not (is_empty acked)) outstanding_freed released
            (without_acked-Inv valid_ids a v)))

no_changes : (cs : List DeadlineModification) (n : ℕ) → changes cs n none ≡ none
no_changes [] n = refl
no_changes (c ∷ cs) n =
    if_cases (λ o. changes cs n o ≡ none) (c.ack_id == n) _ _ (λ _. no_changes cs n)
      (λ _. no_changes cs n)

pub modify_deadline-Inv :
    (env : Environment) (cs : List DeadlineModification) (a : SubscriptionActor)
    → a.retry_queue.next_seq + Outstanding.len a.outstanding < 2 ^ 64
    → Inv a
    → Inv (modify_deadline env cs a).0
unfolding modify_deadline Outstanding.len
modify_deadline-Inv env cs a room v =
    let (valid, x) = modify-Modifies a.outstanding cs v.tracker in
    let nacks = (Outstanding.modify a.outstanding cs).1 in
    if_cases (λ (r : SubscriptionActor × AckOutcome). Inv r.0) a.deleted _ _ (λ _. v)
      (λ _.
        requeue_messages-WellFormed no_extra env nacks _
          (omega (arith, x.counted (λ _. 1), total_one nacks, weigh_one a.outstanding.messages))
          (record {
            tracker = valid;
            retry = v.retry;
            fresh = λ n h. x.kept n ∙ ap (changes cs n) (v.fresh n h) ∙ no_changes cs n;
            queues = v.queues;
            plain = v.plain;
            keyed_queues = v.keyed_queues;
            exclusive = λ key. omega (arith, x.counted (keyed a.info key), v.exclusive key);
          }))
