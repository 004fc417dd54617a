-- ===== src/Subscriptions/Actor/Invariant/PullAll.antt =====
-- The loop over the backlog, and `pull_messages` as a whole.
use deltio.Prelude.{
  Bool-cases, Bytes, [], ap, arith, if_cases, if◌then◌else◌, inl, inr, leb, length, length-append,
  none, refl, total, ℕ, ◌+◌, ◌-◌, ◌<◌, ◌==◌, ◌^◌, ◌∷◌, ◌≡◌, ◌≤◌, nat_eq, bytes_eq_instance,
}
use deltio.Topics.Message.{TopicMessage, Messages}
use deltio.Subscriptions.Pulled.{ack_deadline}
use deltio.Subscriptions.Actor.{
  SubscriptionActor, Environment, messages_available, is_message_expired, ordered_key,
}
use deltio.Subscriptions.Actor.Pull.{
  Pulling, PullResult, pulled_message, deliver, forget, pull_keys, pull_backlog, pull_all,
  finish_pull, pull_messages, pull_capacity, pending_keys, sort_keys, more_pending,
}
use deltio.Subscriptions.Actor.PendingKeys.{visited-Visitable}
use deltio.Subscriptions.Actor.Progress.{Pulls-refl, Pulls-trans, forget-Pulls, deliver-Pulls}
use deltio.Subscriptions.Actor.Stored.{queued}
use deltio.Subscriptions.Actor.Invariant.{
  WellFormed, Inv, no_extra, WellFormed-less, signal_if-WellFormed,
}
use deltio.Subscriptions.Actor.Invariant.Deliver.{forget-WellFormed, deliver-WellFormed}
use deltio.Subscriptions.Actor.Invariant.Pull.{Keeps, Room, pull_keys-Keeps}

abbrev pop_backlog : Messages → Pulling → Pulling
pop_backlog backlog p = record p { actor = record (p.actor) { backlog = backlog } }

pop_backlog-WellFormed :
    (extra : Bytes → ℕ) (m : TopicMessage) (backlog : Messages) (p : Pulling)
    → p.actor.backlog ≡ m ∷ backlog
    → WellFormed extra p.actor
    → (ordered_key p.actor.info m ≡ none) × WellFormed extra (pop_backlog backlog p).actor
pop_backlog-WellFormed extra m backlog p e v =
    let (h, rest) = rw e at v.plain in
    (
      h,
      record {
        tracker = v.tracker;
        retry = v.retry;
        fresh = v.fresh;
        queues = v.queues;
        plain = rest;
        keyed_queues = v.keyed_queues;
        exclusive = v.exclusive;
      },
    )

queued-pop_backlog :
    (f : TopicMessage → ℕ) (m : TopicMessage) (backlog : Messages) (p : Pulling)
    → p.actor.backlog ≡ m ∷ backlog
    → queued f p.actor ≡ queued f (pop_backlog backlog p).actor + f m
queued-pop_backlog f m backlog p e = omega (arith, ap (total f) e)

module _ (extra : Bytes → ℕ) (deadline now : ℕ) where
  abbrev one : TopicMessage → Messages → Pulling → Pulling
  one m backlog p =
      if is_message_expired p.actor.info now m
      then forget m (pop_backlog backlog p)
      else deliver deadline m (pop_backlog backlog p)

  one-Keeps :
      (m : TopicMessage) (backlog : Messages) (p : Pulling)
      → p.actor.backlog ≡ m ∷ backlog
      → Room 1 p
      → WellFormed extra p.actor
      → Keeps 1 extra p (one m backlog p) × ((one m backlog p).actor.backlog ≡ backlog)
  unfolding forget deliver pulled_message
  one-Keeps m backlog p e room v =
      let (plain, w) = pop_backlog-WellFormed extra m backlog p e v in
      elim (Bool-cases (is_message_expired p.actor.info now m)) [
        | inl x ↦ rw x (
          record {
            well = forget-WellFormed extra m (pop_backlog backlog p) w;
            pulls =
                forget-Pulls now m p (pop_backlog backlog p) x refl refl refl refl refl
                  (λ f. queued-pop_backlog f m backlog p e);
            most = omega arith;
          },
          refl,
        )
        | inr x ↦ rw x (
          record {
            well =
                deliver-WellFormed extra deadline m (pop_backlog backlog p) room
                  (WellFormed-less extra _ _ (λ key. rw plain (omega arith)) w);
            pulls =
                deliver-Pulls deadline m p (pop_backlog backlog p) refl refl refl refl refl
                  (λ f. queued-pop_backlog f m backlog p e) room
                  (v.fresh p.actor.next_ack_id (omega arith));
            most = omega (arith, length-append p.result (pulled_message deadline p.actor m ∷ []));
          },
          refl,
        )
      ]

  pull_backlog-Keeps :
      (capacity : ℕ) (backlog : Messages) (p : Pulling)
      → p.actor.backlog ≡ backlog
      → length p.result ≤ capacity
      → p.actor.next_ack_id + capacity < 2 ^ 64 + length p.result
      → WellFormed extra p.actor
      → Keeps (capacity - length p.result) extra p (pull_backlog capacity deadline now backlog p)
  unfolding pull_backlog
  pull_backlog-Keeps capacity [] p e c room v = record {
    well = v;
    pulls = Pulls-refl p;
    most = omega arith;
  }
  pull_backlog-Keeps capacity (m ∷ backlog) p e c room v =
      elim (Bool-cases (leb capacity (length p.result))) [
        | inl x ↦ rw x (record { well = v; pulls = Pulls-refl p; most = omega arith })
        | inr x ↦
            let below : length p.result < capacity = ground arith in
            let (k, next) = one-Keeps m backlog p e (omega arith) v in
            let k' =
              pull_backlog-Keeps capacity backlog (one m backlog p) next (omega (arith, k.most))
                (omega (arith, k.pulls.ids)) k.well in
            rw x (record {
              well = k'.well;
              pulls = Pulls-trans _ _ _ k.pulls k'.pulls;
              most = omega (arith, k.most, k'.most);
            })
      ]

abbrev pub begin : SubscriptionActor → Pulling
begin a = record { actor = a; result = [] }

-- The two loops together.
pub pull_all-Keeps :
    (capacity now : ℕ) (a : SubscriptionActor)
    → a.next_ack_id + capacity < 2 ^ 64
    → Inv a
    → Keeps capacity no_extra (begin a) (pull_all capacity now a)
unfolding pull_all
pull_all-Keeps capacity now a room v =
    let deadline = ack_deadline (now + a.info.ack_deadline) in
    let keys = sort_keys (pending_keys a.keys_in_flight a.ordered_queues) in
    let k =
      pull_keys-Keeps no_extra deadline now capacity keys (begin a)
        (visited-Visitable a.keys_in_flight a.ordered_queues v.queues) (omega arith) (omega arith)
        v in
    let keyed = pull_keys capacity deadline now keys (begin a) in
    let k' =
      pull_backlog-Keeps no_extra deadline now capacity keyed.actor.backlog keyed refl
        (omega (arith, k.most)) (omega (arith, k.pulls.ids)) k.well in
    record {
      well = k'.well;
      pulls = Pulls-trans _ _ _ k.pulls k'.pulls;
      most = omega (arith, k.most, k'.most);
    }

finish_pull-Inv : (p : Pulling) → Inv p.actor → Inv (finish_pull p).0
unfolding finish_pull
finish_pull-Inv p v =
    let w = signal_if-WellFormed no_extra (more_pending p.actor) messages_available p.actor v in
    record {
      tracker = w.tracker;
      retry = w.retry;
      fresh = w.fresh;
      queues = w.queues;
      plain = w.plain;
      keyed_queues = w.keyed_queues;
      exclusive = w.exclusive;
    }

pub pull_messages-Inv :
    (max_count max_outstanding : ℕ) (env : Environment) (a : SubscriptionActor)
    → a.next_ack_id + pull_capacity max_count max_outstanding a < 2 ^ 64
    → Inv a
    → Inv (pull_messages max_count max_outstanding env a).0
unfolding pull_messages
pull_messages-Inv max_count max_outstanding env a room v =
    let capacity = pull_capacity max_count max_outstanding a in
    if_cases P a.deleted _ _ (λ e. v)
      (λ e.
        if_cases P a.info.detached _ _ (λ d. v)
          (λ d.
            if_cases P (capacity == 0) _ _ (λ z. v)
              (λ z. finish_pull-Inv _ (pull_all-Keeps capacity env.now a room v).well)))
  where
    P : SubscriptionActor × PullResult → Type 0
    P r = Inv r.0
