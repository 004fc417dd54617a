-- ===== src/Subscriptions/Actor/SameInfo/Pull.antt =====
-- A pull keeps the settings of a subscription.
use deltio.Prelude.{
  Bytes, List, Option-cases, [], arith, if◌then◌else◌, inl, inr, insert, lookup, refl, ℕ, ◌∙◌, ◌∷◌,
  ◌≡◌, nat_eq, bytes_eq_instance,
}
use deltio.Topics.Message.{Messages}
use deltio.Subscriptions.Actor.{
  SubscriptionActor, Environment, messages_available, is_message_expired,
}
use deltio.Subscriptions.Actor.Pull.{
  Pulling, pull_head, pull_key, pull_keys, pull_backlog, pull_all, finish_pull, pull_messages,
  forget, deliver, more_pending, pull_capacity,
}
use deltio.Subscriptions.Actor.SameInfo.{signal_if-info}

pull_head-info :
    (deadline now : ℕ) (key : Bytes) (queue : Messages) (p : Pulling)
    → (pull_head deadline now key queue p).actor.info ≡ p.actor.info
unfolding pull_head forget deliver
pull_head-info deadline now key [] p = refl
pull_head-info deadline now key (m ∷ queue) p =
    let popped : Pulling = record p {
      actor = record (p.actor) { ordered_queues = insert key queue p.actor.ordered_queues };
    } in
    ground (arith, pull_head-info deadline now key queue (forget m popped))

pull_key-info :
    (deadline now : ℕ) (key : Bytes) (p : Pulling)
    → (pull_key deadline now key p).actor.info ≡ p.actor.info
unfolding pull_key
pull_key-info deadline now key p = elim (Option-cases (lookup key p.actor.ordered_queues)) [
  | inl e ↦ rw (e, pull_key) refl
  | inr (queue, e) ↦ rw (e, pull_key) (pull_head-info deadline now key queue p)
]

pull_keys-info :
    (capacity deadline now : ℕ) (keys : List Bytes) (p : Pulling)
    → (pull_keys capacity deadline now keys p).actor.info ≡ p.actor.info
unfolding pull_keys
pull_keys-info capacity deadline now [] p = refl
pull_keys-info capacity deadline now (key ∷ keys) p = ground (
  arith,
  pull_keys-info capacity deadline now keys (pull_key deadline now key p),
  pull_key-info deadline now key p,
)

pull_backlog-info :
    (capacity deadline now : ℕ) (backlog : Messages) (p : Pulling)
    → (pull_backlog capacity deadline now backlog p).actor.info ≡ p.actor.info
unfolding pull_backlog forget deliver
pull_backlog-info capacity deadline now [] p = refl
pull_backlog-info capacity deadline now (m ∷ backlog) p =
    let popped : Pulling = record p { actor = record (p.actor) { backlog = backlog } } in
    let next =
      if is_message_expired p.actor.info now m
      then forget m popped
      else deliver deadline m popped in
    ground (arith, pull_backlog-info capacity deadline now backlog next)

pull_all-info :
    (capacity now : ℕ) (a : SubscriptionActor) → (pull_all capacity now a).actor.info ≡ a.info
unfolding pull_all
pull_all-info capacity now a =
    pull_backlog-info capacity _ now _ _ ∙ pull_keys-info capacity _ now _ _

finish_pull-info : (p : Pulling) → (finish_pull p).0.info ≡ p.actor.info
unfolding finish_pull
finish_pull-info p = signal_if-info (more_pending p.actor) messages_available p.actor

pub pull_messages-info :
    (max_count max_outstanding : ℕ) (env : Environment) (a : SubscriptionActor)
    → (pull_messages max_count max_outstanding env a).0.info ≡ a.info
unfolding pull_messages
pull_messages-info max_count max_outstanding env a =
    let pulling = pull_all (pull_capacity max_count max_outstanding a) env.now a in
    ground (
      arith,
      finish_pull-info pulling,
      pull_all-info (pull_capacity max_count max_outstanding a) env.now a,
    )
