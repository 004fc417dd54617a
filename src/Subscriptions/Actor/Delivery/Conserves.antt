-- ===== src/Subscriptions/Actor/Delivery/Conserves.antt =====
-- Deadline modifications take no message from a subscription, as long as there is no retention and no dead-letter policy.
use deltio.Prelude.{
  Bool, List, Option-cases, [], arith, false, if_cases, inl, inr, is_empty, length, none, refl,
  total_one, true, weigh_one, ℕ, ◌&&◌, ◌+◌, ◌<◌, ◌^◌, ◌∙◌, ◌≡◌, ◌≤◌, nat_eq, bytes_eq_instance,
}
use deltio.Topics.Message.{TopicMessage}
use deltio.Subscriptions.Pulled.{PulledMessage, DeadlineModification}
use deltio.Subscriptions.Info.{AckOutcome, add_u64}
use deltio.Subscriptions.Outstanding
use deltio.Subscriptions.Outstanding.{OutstandingMessageTracker, take_expired, len, modify}
use deltio.Subscriptions.Outstanding.Modify.{modify-Modifies}
use deltio.Subscriptions.RetryQueue.Invariant
use deltio.Subscriptions.Actor.{
  SubscriptionActor, Environment, Signal, messages_available, dead_letters_published, signal_if,
}
use deltio.Subscriptions.Actor.Requeue.{
  Requeueing, finish_requeue, publish_dead_letters, requeue_messages, requeue_each,
  try_publish_dead_lettered_messages,
}
use deltio.Subscriptions.Actor.Requests.{modify_deadline}
use deltio.Subscriptions.Actor.Stored.{stored}
use deltio.Subscriptions.Actor.Progress.{handed}
use deltio.Subscriptions.Actor.Invariant.{Inv}
use deltio.Subscriptions.Actor.Delivery.Requeue.{requeue_each-Returns}

module _ (f : TopicMessage → ℕ) where
  pub signalled-stored :
      (b : Bool) (s : Signal) (a : SubscriptionActor) → stored f (signal_if b s a) ≡ stored f a
  signalled-stored true s a = refl
  signalled-stored false s a = refl

  try_publish-stored :
      (env : Environment) (ms : List TopicMessage) (a : SubscriptionActor)
      → stored f (try_publish_dead_lettered_messages env ms a) ≡ stored f a
  unfolding try_publish_dead_lettered_messages
  try_publish-stored env ms a = elim (Option-cases a.info.dead_letter_policy) [
    | inl e ↦ rw (e, try_publish_dead_lettered_messages) refl
    | inr (dlp, e) ↦
        rw (e, try_publish_dead_lettered_messages)
          (if_cases (λ b. stored f b ≡ stored f a)
            (a.has_topic_manager && env.dead_letter_topic_exists) _ a
            (λ _. signalled-stored true (dead_letters_published dlp.dead_letter_topic ms) a)
            (λ _. refl))
  ]

  publish_dead_letters-stored :
      (env : Environment) (r : Requeueing)
      → stored f (publish_dead_letters env r) ≡ stored f r.actor
  unfolding publish_dead_letters
  publish_dead_letters-stored env r = try_publish-stored env r.dead_letter_messages _

  finish_requeue-stored :
      (env : Environment) (r : Requeueing) → stored f (finish_requeue env r) ≡ stored f r.actor
  unfolding finish_requeue
  finish_requeue-stored env r =
      signalled-stored _ messages_available _
      ∙ if_cases (λ b. stored f b ≡ stored f r.actor) (is_empty r.dead_letter_messages) r.actor _
          (λ _. refl) (λ _. publish_dead_letters-stored env r)

-- What came back is stored again, except for what the dead-letter policy takes.
pub record Keeps (a : SubscriptionActor) (added : (TopicMessage → ℕ) → ℕ) (b : SubscriptionActor)
    : Type 0 where
  pub no_more : (f : TopicMessage → ℕ) → stored f b ≤ stored f a + added f
  pub kept :
      a.info.dead_letter_policy ≡ none
      → a.info.message_retention_duration ≡ none
      → (f : TopicMessage → ℕ) → stored f b ≡ stored f a + added f

pub requeue_messages-Keeps :
    (env : Environment) (ps : List PulledMessage) (a : SubscriptionActor)
    → a.retry_queue.next_seq + length ps < 2 ^ 64
    → Invariant.IsValid a.retry_queue
    → Keeps a (λ f. handed f ps) (requeue_messages env ps a)
unfolding requeue_messages
requeue_messages-Keeps env ps a small v =
    let r : Requeueing = record {
      actor = a;
      dead_letter_messages = [];
      dead_letter_message_ids = [];
    } in
    let x = requeue_each-Returns env.now ps r small v in
    record {
      no_more =
          λ f. omega (arith, finish_requeue-stored f env (requeue_each env.now ps r), x.no_more f);
      kept = λ h _ f.
          omega (arith, finish_requeue-stored f env (requeue_each env.now ps r), x.kept h f);
    }

-- A deadline modification on a well-formed subscription adds no message, and loses none where there
-- is neither a dead-letter policy nor a retention, as long as the sequence numbers of the retries
-- do not wrap.
pub modify_deadline-Keeps :
    (env : Environment) (cs : List DeadlineModification) (a : SubscriptionActor)
    → a.retry_queue.next_seq + Outstanding.len a.outstanding < 2 ^ 64
    → Inv a
    → Keeps a (λ _. 0) (modify_deadline env cs a).0
unfolding modify_deadline Outstanding.len
modify_deadline-Keeps env cs a room v =
    let (_, x) = modify-Modifies a.outstanding cs v.tracker in
    let nacks = (Outstanding.modify a.outstanding cs).1 in
    if_cases (λ (r : SubscriptionActor × AckOutcome). Keeps a (λ _. 0) r.0) a.deleted _ _
      (λ _. record { no_more = λ f. omega arith; kept = λ _ _ f. omega arith })
      (λ _.
        let y =
          requeue_messages-Keeps env nacks
            (record a {
              outstanding = (Outstanding.modify a.outstanding cs).0;
              counters = record (a.counters) { nacked = add_u64 a.counters.nacked (length nacks) };
            })
            (omega (arith, x.counted (λ _. 1), total_one nacks, weigh_one a.outstanding.messages))
            v.retry in
        record {
          no_more = λ f. omega (arith, y.no_more f, x.counted f);
          kept = λ h h' f. omega (arith, y.kept h h' f, x.counted f);
        })
