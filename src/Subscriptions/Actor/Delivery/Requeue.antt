-- ===== src/Subscriptions/Actor/Delivery/Requeue.antt =====
-- What becomes of messages that come back unacked: each is put back, waits for its backoff, or is
-- given to the dead-letter topic.
use deltio.Prelude.{
  List, Option, [], ap, arith, false, if_cases, length, length-append, lookup, none, refl, some,
  sym, ℕ, ◌+◌, ◌<◌, ◌^◌, ◌∙◌, ◌∷◌, ◌≡◌, ◌≤◌, nat_eq, bytes_eq_instance,
}
use mathlib.Core.Path.{subst}
use deltio.Topics.Message.{TopicMessage}
use deltio.Subscriptions.Policies.{RetryPolicy, DeadLetterPolicy}
use deltio.Subscriptions.Pulled.{PulledMessage}
use deltio.Subscriptions.RetryQueue.{RetryQueue, schedule_message}
use deltio.Subscriptions.RetryQueue.Invariant
use deltio.Subscriptions.Actor.{SubscriptionActor}
use deltio.Subscriptions.Actor.Post.{requeue_one}
use deltio.Subscriptions.Actor.Requeue.{
  Requeueing, requeue_with, requeue_counted, dead_letter_message, count_attempt, dead_letters,
  requeue_each, requeue_message, next_attempt,
}
use deltio.Subscriptions.Actor.Stored.{stored, queued-requeue_one, held-requeue_one}
use deltio.Subscriptions.Actor.Progress.{handed}
use deltio.Subscriptions.Actor.Invariant.Requeue.{weigh-schedule_message}

-- From `r` to `r'`, `n` messages of a weight came back.
pub record Returns (n : ℕ) (weight : (TopicMessage → ℕ) → ℕ) (r r' : Requeueing) : Type 0 where
  pub valid : Invariant.IsValid r'.actor.retry_queue
  pub seq : r'.actor.retry_queue.next_seq ≤ r.actor.retry_queue.next_seq + n
  pub same_info : r'.actor.info ≡ r.actor.info
  pub no_more : (f : TopicMessage → ℕ) → stored f r'.actor ≤ stored f r.actor + weight f
  pub kept :
      r.actor.info.dead_letter_policy ≡ none
      → (f : TopicMessage → ℕ) → stored f r'.actor ≡ stored f r.actor + weight f
  pub counted :
      stored (λ _. 1) r'.actor + length r'.dead_letter_messages
      ≡ stored (λ _. 1) r.actor + length r.dead_letter_messages + n

requeue_one-keeps :
    (a : SubscriptionActor) (m : TopicMessage)
    → ((requeue_one a m).retry_queue ≡ a.retry_queue) × ((requeue_one a m).info ≡ a.info)
unfolding requeue_one
requeue_one-keeps a m = ground arith

schedule_message-seq :
    (q : RetryQueue) (m : TopicMessage) (deliver_at : ℕ)
    → (schedule_message q m deliver_at).next_seq ≤ q.next_seq + 1
unfolding schedule_message
schedule_message-seq q m deliver_at = omega arith

requeue_with-stored :
    (policy : Option RetryPolicy) (attempt now : ℕ) (a : SubscriptionActor) (m : TopicMessage)
    → a.retry_queue.next_seq + 1 < 2 ^ 64
    → Invariant.IsValid a.retry_queue
    → let b = requeue_with policy attempt now a m in
      Invariant.IsValid b.retry_queue
      × (b.retry_queue.next_seq ≤ a.retry_queue.next_seq + 1)
      × (b.info ≡ a.info)
      × ((f : TopicMessage → ℕ) → stored f b ≡ stored f a + f m)
unfolding requeue_with
requeue_with-stored none attempt now a m small v =
    let (same_queue, same_info) = requeue_one-keeps a m in
    (
      subst (λ q. Invariant.IsValid q) (sym same_queue) v,
      rw same_queue (omega arith),
      same_info,
      λ f. omega (arith, queued-requeue_one f a m, held-requeue_one f a m),
    )
requeue_with-stored (some policy) attempt now a m small v = (
  Invariant.schedule_message-IsValid a.retry_queue m _ small v,
  schedule_message-seq a.retry_queue m _,
  refl,
  λ f. omega (arith, weigh-schedule_message f a.retry_queue m _ v),
)

no_dead_letters :
    (policy : Option DeadLetterPolicy) (attempt : ℕ)
    → policy ≡ none
    → dead_letters policy attempt ≡ false
no_dead_letters policy attempt e = ground arith

requeue_counted-Returns :
    (attempt now : ℕ) (m : TopicMessage) (r : Requeueing)
    → r.actor.retry_queue.next_seq + 1 < 2 ^ 64
    → Invariant.IsValid r.actor.retry_queue
    → Returns 1 (λ f. f m) r (requeue_counted attempt now m r)
unfolding requeue_counted
requeue_counted-Returns attempt now m r small v =
    let (w, seq, same, moved) =
      requeue_with-stored r.actor.info.retry_policy attempt now r.actor m small v in
    let letter = dead_letter_message r.actor.info.name attempt now m in
    if_cases (λ (r' : Requeueing). Returns 1 (λ f. f m) r r')
      (dead_letters r.actor.info.dead_letter_policy attempt) _ _
      (λ e. record {
        valid = v;
        seq = omega arith;
        same_info = refl;
        no_more = λ f. omega arith;
        kept = λ h f.
            absurd (ground (arith, no_dead_letters r.actor.info.dead_letter_policy attempt h));
        counted = omega (arith, length-append r.dead_letter_messages (letter ∷ []));
      })
      (λ e. record {
        valid = w;
        seq = seq;
        same_info = same;
        no_more = λ f. omega (arith, moved f);
        kept = λ h f. moved f;
        counted = omega (arith, moved (λ _. 1));
      })

requeue_message-Returns :
    (now : ℕ) (m : TopicMessage) (r : Requeueing)
    → r.actor.retry_queue.next_seq + 1 < 2 ^ 64
    → Invariant.IsValid r.actor.retry_queue
    → Returns 1 (λ f. f m) r (requeue_message now m r)
unfolding requeue_message count_attempt
requeue_message-Returns now m r small v =
    let x =
      requeue_counted-Returns (next_attempt (lookup m.id r.actor.delivery_attempts)) now m
        (record r { actor = count_attempt m.id r.actor }) small v in
    record {
      valid = x.valid;
      seq = x.seq;
      same_info = x.same_info;
      no_more = x.no_more;
      kept = x.kept;
      counted = x.counted;
    }

pub requeue_each-Returns :
    (now : ℕ) (ps : List PulledMessage) (r : Requeueing)
    → r.actor.retry_queue.next_seq + length ps < 2 ^ 64
    → Invariant.IsValid r.actor.retry_queue
    → Returns (length ps) (λ f. handed f ps) r (requeue_each now ps r)
unfolding requeue_each
requeue_each-Returns now [] r small v = record {
  valid = v;
  seq = omega arith;
  same_info = refl;
  no_more = λ f. omega arith;
  kept = λ h f. omega arith;
  counted = omega arith;
}
requeue_each-Returns now (p ∷ ps) r small v =
    let x = requeue_message-Returns now p.message r (omega arith) v in
    let y =
      requeue_each-Returns now ps (requeue_message now p.message r) (omega (arith, x.seq))
        x.valid in
    record {
      valid = y.valid;
      seq = omega (arith, x.seq, y.seq);
      same_info = y.same_info ∙ x.same_info;
      no_more = λ f. omega (arith, x.no_more f, y.no_more f);
      kept = λ h f.
          omega (arith, x.kept h f, y.kept (ap (λ i. i.dead_letter_policy) x.same_info ∙ h) f);
      counted = omega (arith, x.counted, y.counted);
    }
