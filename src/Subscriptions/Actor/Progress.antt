-- ===== src/Subscriptions/Actor/Progress.antt =====
-- What the loops of a pull do to the state and the result, whatever they visit.
use deltio.Prelude.{
  List, [], ap, arith, length, length-append, lookup, none, refl, total, total-append, true, weigh,
  weigh-insert, ℕ, ◌+◌, ◌<◌, ◌^◌, ◌∙◌, ◌∷◌, ◌≡◌, ◌≤◌, nat_eq, bytes_eq_instance,
}
use deltio.Topics.Message.{TopicMessage}
use deltio.Subscriptions.Pulled.{PulledMessage}
use deltio.Subscriptions.Outstanding
use deltio.Subscriptions.Outstanding.{OutstandingMessageTracker, add}
use deltio.Subscriptions.Actor.{is_message_expired}
use deltio.Subscriptions.Actor.Pull.{Pulling, pulled_message, deliver, forget}
use deltio.Subscriptions.Actor.Stored.{stored, in_tracker, in_retry, queued}

abbrev pub handed : (TopicMessage → ℕ) → List PulledMessage → ℕ
handed f ps = total (λ p. f p.message) ps

-- A message that is added under a new ack ID.
pub weigh-add :
    (f : PulledMessage → ℕ) (t : OutstandingMessageTracker) (m : PulledMessage)
    → lookup m.ack_id t.messages ≡ none
    → weigh f (Outstanding.add t m).messages ≡ weigh f t.messages + f m
unfolding Outstanding.add
weigh-add f t m fresh = ground (arith, weigh-insert f m.ack_id m t.messages)

-- From `p` to `q` every message that was handed out is tracked, under one ack ID each, and a
-- message is lost only by the retention.
pub record Pulls (p q : Pulling) : Type 0 where
  pub same_info : q.actor.info ≡ p.actor.info
  pub same_retry : q.actor.retry_queue ≡ p.actor.retry_queue
  pub ids : q.actor.next_ack_id + length p.result ≡ p.actor.next_ack_id + length q.result
  pub tracked :
      (f : TopicMessage → ℕ)
      → in_tracker f q.actor.outstanding + handed f p.result
        ≡ in_tracker f p.actor.outstanding + handed f q.result
  pub no_more : (f : TopicMessage → ℕ) → stored f q.actor ≤ stored f p.actor
  pub kept :
      p.actor.info.message_retention_duration ≡ none
      → (f : TopicMessage → ℕ) → stored f q.actor ≡ stored f p.actor

pub Pulls-refl : (p : Pulling) → Pulls p p
Pulls-refl p = record {
  same_info = refl;
  same_retry = refl;
  ids = refl;
  tracked = λ f. refl;
  no_more = λ f. omega arith;
  kept = λ h f. refl;
}

pub Pulls-trans : (p q r : Pulling) → Pulls p q → Pulls q r → Pulls p r
Pulls-trans p q r x y = record {
  same_info = y.same_info ∙ x.same_info;
  same_retry = y.same_retry ∙ x.same_retry;
  ids = omega (arith, x.ids, y.ids);
  tracked = λ f. omega (arith, x.tracked f, y.tracked f);
  no_more = λ f. omega (arith, x.no_more f, y.no_more f);
  kept = λ h f. y.kept (ap (λ i. i.message_retention_duration) x.same_info ∙ h) f ∙ x.kept h f;
}

-- To drop a message that is past the retention; `popped` is the state without it.
pub forget-Pulls :
    (now : ℕ) (m : TopicMessage) (p popped : Pulling)
    → is_message_expired p.actor.info now m ≡ true
    → popped.result ≡ p.result
    → popped.actor.info ≡ p.actor.info
    → popped.actor.next_ack_id ≡ p.actor.next_ack_id
    → popped.actor.outstanding ≡ p.actor.outstanding
    → popped.actor.retry_queue ≡ p.actor.retry_queue
    → ((f : TopicMessage → ℕ) → queued f p.actor ≡ queued f popped.actor + f m)
    → Pulls p (forget m popped)
unfolding forget is_message_expired
forget-Pulls now m p popped e er ei en eo eq w = record {
  same_info = ei;
  same_retry = eq;
  ids = rw (er, en) refl;
  tracked = λ f. rw (er, eo) refl;
  no_more = λ f. rw (eo, eq) (omega (arith, w f));
  kept = λ h f. absurd (ground arith);
}

-- To hand out a message under a new ack ID.
pub deliver-Pulls :
    (deadline : ℕ) (m : TopicMessage) (p popped : Pulling)
    → popped.result ≡ p.result
    → popped.actor.info ≡ p.actor.info
    → popped.actor.next_ack_id ≡ p.actor.next_ack_id
    → popped.actor.outstanding ≡ p.actor.outstanding
    → popped.actor.retry_queue ≡ p.actor.retry_queue
    → ((f : TopicMessage → ℕ) → queued f p.actor ≡ queued f popped.actor + f m)
    → p.actor.next_ack_id + 1 < 2 ^ 64
    → lookup p.actor.next_ack_id p.actor.outstanding.messages ≡ none
    → Pulls p (deliver deadline m popped)
unfolding deliver pulled_message
deliver-Pulls deadline m p popped er ei en eo eq w small fresh =
    let out = pulled_message deadline popped.actor m in
    let absent : lookup out.ack_id popped.actor.outstanding.messages ≡ none = rw (en, eo) fresh in
    let added =
      λ (f : TopicMessage → ℕ). weigh-add (λ p. f p.message) popped.actor.outstanding out absent in
    record {
      same_info = ei;
      same_retry = eq;
      ids = omega (arith, length-append popped.result (out ∷ []), en, ap length er);
      tracked = λ f. omega (
        arith,
        added f,
        ap (handed f) er,
        ap (in_tracker f) eo,
        total-append (λ p. f p.message) popped.result (out ∷ []),
      );
      no_more = λ f. omega (arith, w f, added f, ap (in_tracker f) eo, ap (in_retry f) eq);
      kept = λ h f. omega (arith, w f, added f, ap (in_tracker f) eo, ap (in_retry f) eq);
    }
