-- ===== src/Subscriptions/Actor/Delivery/SameFlight.antt =====
-- What leaves the messages in flight and their keys as they are: signals and dead letters.
use deltio.Prelude.{
  Bool, List, arith, false, if_cases, if◌then◌else◌, is_empty, length, not, refl, true, ℕ, ◌∙◌, ◌≡◌,
  nat_eq, bytes_eq_instance,
}
use deltio.Topics.Message.{TopicMessage}
use deltio.Subscriptions.Info.{add_u64}
use deltio.Subscriptions.Actor.{
  SubscriptionActor, Environment, Signal, messages_available, signal_if,
}
use deltio.Subscriptions.Actor.Requeue.{
  Requeueing, requeue_counted, dead_letters, finish_requeue, publish_dead_letters,
  try_publish_dead_lettered_messages,
}

-- What of a subscription says which messages are in flight.
pub record SameFlight (a b : SubscriptionActor) : Type 0 where
  pub same_keys : b.keys_in_flight ≡ a.keys_in_flight
  pub same_tracker : b.outstanding ≡ a.outstanding
  pub same_retry : b.retry_queue ≡ a.retry_queue
  pub same_info : b.info ≡ a.info

same_flight : (a : SubscriptionActor) → SameFlight a a
same_flight a = record {
  same_keys = refl;
  same_tracker = refl;
  same_retry = refl;
  same_info = refl;
}

pub signal_if-SameFlight :
    (b : Bool) (s : Signal) (a : SubscriptionActor) → SameFlight a (signal_if b s a)
signal_if-SameFlight true s a = record {
  same_keys = refl;
  same_tracker = refl;
  same_retry = refl;
  same_info = refl;
}
signal_if-SameFlight false s a = same_flight a

pub SameFlight-trans :
    (a b c : SubscriptionActor) → SameFlight a b → SameFlight b c → SameFlight a c
SameFlight-trans a b c x y = record {
  same_keys = y.same_keys ∙ x.same_keys;
  same_tracker = y.same_tracker ∙ x.same_tracker;
  same_retry = y.same_retry ∙ x.same_retry;
  same_info = y.same_info ∙ x.same_info;
}

try_publish-SameFlight :
    (env : Environment) (ms : List TopicMessage) (a : SubscriptionActor)
    → SameFlight a (try_publish_dead_lettered_messages env ms a)
unfolding try_publish_dead_lettered_messages
try_publish-SameFlight env ms a = record {
  same_keys = ground arith;
  same_tracker = ground arith;
  same_retry = ground arith;
  same_info = ground arith;
}

publish_dead_letters-SameFlight :
    (env : Environment) (r : Requeueing) → SameFlight r.actor (publish_dead_letters env r)
unfolding publish_dead_letters
publish_dead_letters-SameFlight env r =
    let x = try_publish-SameFlight env r.dead_letter_messages (record (r.actor) {
      counters = record (r.actor.counters) {
        dead_lettered = add_u64 r.actor.counters.dead_lettered (length r.dead_letter_messages);
      };
    }) in
    record {
      same_keys = x.same_keys;
      same_tracker = x.same_tracker;
      same_retry = x.same_retry;
      same_info = x.same_info;
    }

pub finish_requeue-SameFlight :
    (env : Environment) (r : Requeueing) → SameFlight r.actor (finish_requeue env r)
unfolding finish_requeue
finish_requeue-SameFlight env r =
    let b = if is_empty r.dead_letter_messages then r.actor else publish_dead_letters env r in
    SameFlight-trans r.actor b _
      (if_cases (SameFlight r.actor) (is_empty r.dead_letter_messages) r.actor _
        (λ _. same_flight r.actor) (λ _. publish_dead_letters-SameFlight env r))
      (signal_if-SameFlight (not (is_empty b.backlog)) messages_available b)

pub dead_lettered-SameFlight :
    (attempt now : ℕ) (m : TopicMessage) (r : Requeueing)
    → dead_letters r.actor.info.dead_letter_policy attempt ≡ true
    → SameFlight r.actor (requeue_counted attempt now m r).actor
unfolding requeue_counted
dead_lettered-SameFlight attempt now m r d =
    if_cases (λ (r' : Requeueing). SameFlight r.actor r'.actor)
      (dead_letters r.actor.info.dead_letter_policy attempt) _ _ (λ _. same_flight r.actor)
      (λ e. absurd (ground arith))
