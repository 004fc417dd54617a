-- ===== src/Subscriptions/Actor/Delivery/Pull.antt =====
-- What `pull_messages` hands out.
use deltio.Prelude.{
  Bool, List, [], arith, false, if_cases, length, max, none, refl, total_one, true, weigh_one, ℕ,
  ◌+◌, ◌<◌, ◌==◌, ◌^◌, ◌≡◌, ◌≤◌, nat_eq, bytes_eq_instance,
}
use deltio.Topics.Message.{TopicMessage}
use deltio.Subscriptions.Pulled.{PulledMessage}
use deltio.Subscriptions.Outstanding
use deltio.Subscriptions.Actor.{SubscriptionActor, Environment, messages_available, signal_if}
use deltio.Subscriptions.Actor.Stored.{stored, in_tracker}
use deltio.Subscriptions.Actor.Progress.{handed}
use deltio.Subscriptions.Actor.Pull.{
  Pulling, PullResult, pulled, failed, detached, pull_capacity, pull_all, finish_pull, count_pulled,
  pull_messages, more_pending,
}
use deltio.Subscriptions.Actor.Invariant.{Inv, no_extra}
use deltio.Subscriptions.Actor.Invariant.Pull.{Keeps}
use deltio.Subscriptions.Actor.Invariant.PullAll.{pull_all-Keeps, begin}

-- What a pull promises when it hands out messages: not more than asked for, and within the cap of
-- the caller where the count of outstanding messages fits 16 bits; each message is outstanding from
-- then on; and a message is lost by the retention only.
pub record Serves (max_count max_outstanding : ℕ) (a b : SubscriptionActor)
    (ms : List PulledMessage) : Type 0 where
  pub count : length ms ≤ max_count
  pub capped :
      0 < max_outstanding
      → Outstanding.len a.outstanding < 2 ^ 16
      → Outstanding.len b.outstanding ≤ max max_outstanding (Outstanding.len a.outstanding)
  pub tracked :
      (f : TopicMessage → ℕ) → in_tracker f b.outstanding ≡ in_tracker f a.outstanding + handed f ms
  pub no_more : (f : TopicMessage → ℕ) → stored f b ≤ stored f a
  pub kept :
      a.info.message_retention_duration ≡ none → (f : TopicMessage → ℕ) → stored f b ≡ stored f a

abbrev pub PullSpec : ℕ → ℕ → SubscriptionActor → SubscriptionActor × PullResult → Type 0
PullSpec max_count max_outstanding a (b, pulled ms) = Serves max_count max_outstanding a b ms
PullSpec max_count max_outstanding a (b, failed e) =
    (b ≡ a) × (a.info.detached ≡ true) × (e ≡ detached)

nothing_served :
    (max_count max_outstanding : ℕ) (a : SubscriptionActor)
    → Serves max_count max_outstanding a a []
nothing_served max_count max_outstanding a = record {
  count = omega arith;
  capped = λ _ _. omega arith;
  tracked = λ f. omega arith;
  no_more = λ f. omega arith;
  kept = λ _ f. refl;
}

capacity_bounds :
    (max_count max_outstanding : ℕ) (a : SubscriptionActor)
    → (pull_capacity max_count max_outstanding a ≤ max_count)
      × (0 < max_outstanding
          → Outstanding.len a.outstanding < 2 ^ 16
          → Outstanding.len a.outstanding + pull_capacity max_count max_outstanding a
            ≤ max max_outstanding (Outstanding.len a.outstanding))
unfolding pull_capacity
capacity_bounds max_count max_outstanding a = (ground arith, λ h l. ground arith)

-- The signal and the count of the end of a pull keep the rest.
signalled-Serves :
    (max_count max_outstanding n : ℕ) (a b : SubscriptionActor) (ms : List PulledMessage)
    (more : Bool)
    → Serves max_count max_outstanding a b ms
    → Serves max_count max_outstanding a (count_pulled n (signal_if more messages_available b)) ms
unfolding count_pulled
signalled-Serves max_count max_outstanding n a b ms true k = record {
  count = k.count;
  capped = k.capped;
  tracked = k.tracked;
  no_more = k.no_more;
  kept = k.kept;
}
signalled-Serves max_count max_outstanding n a b ms false k = record {
  count = k.count;
  capped = k.capped;
  tracked = k.tracked;
  no_more = k.no_more;
  kept = k.kept;
}

finished :
    (max_count max_outstanding : ℕ) (a : SubscriptionActor) (p : Pulling)
    → Keeps (pull_capacity max_count max_outstanding a) no_extra (begin a) p
    → PullSpec max_count max_outstanding a (finish_pull p)
unfolding finish_pull Outstanding.len
finished max_count max_outstanding a p k =
    let (asked, cap) = capacity_bounds max_count max_outstanding a in
    signalled-Serves max_count max_outstanding (length p.result) a p.actor p.result
      (more_pending p.actor)
      (record {
        count = omega (arith, k.most, asked);
        capped = λ h l. omega (
          arith,
          cap h l,
          k.most,
          k.pulls.tracked (λ _. 1),
          weigh_one a.outstanding.messages,
          weigh_one p.actor.outstanding.messages,
          total_one p.result,
        );
        tracked = λ f. omega (arith, k.pulls.tracked f);
        no_more = k.pulls.no_more;
        kept = k.pulls.kept;
      })

-- A pull from a well-formed subscription that it refuses changes nothing and happens on a detached
-- subscription only. Any other pull returns at most as many messages as asked for, keeps within the
-- cap of its caller where the count of outstanding messages fits 16 bits, tracks exactly what it
-- returns, adds no message and, without a retention, loses none, as long as the ack IDs do not
-- wrap.
pub pull_messages-PullSpec :
    (max_count max_outstanding : ℕ) (env : Environment) (a : SubscriptionActor)
    → a.next_ack_id + pull_capacity max_count max_outstanding a < 2 ^ 64
    → Inv a
    → PullSpec max_count max_outstanding a (pull_messages max_count max_outstanding env a)
unfolding pull_messages
pull_messages-PullSpec max_count max_outstanding env a room v =
    let P = PullSpec max_count max_outstanding a in
    let none_served = nothing_served max_count max_outstanding a in
    let capacity = pull_capacity max_count max_outstanding a in
    if_cases P a.deleted _ _ (λ _. none_served)
      (λ _.
        if_cases P a.info.detached _ _ (λ d. (refl, d, refl))
          (λ _.
            if_cases P (capacity == 0) _ _ (λ _. none_served)
              (λ _.
                finished max_count max_outstanding a (pull_all capacity env.now a)
                  (pull_all-Keeps capacity env.now a room v))))
