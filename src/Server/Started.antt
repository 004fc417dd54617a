-- ===== src/Server/Started.antt =====
-- The actor, the attachment and the push config of a new subscription.
use deltio.Prelude.{
  Bool, Option-cases, [], arith, if◌then◌else◌, inl, inr, insert, is_some, lookup, lookup-insert,
  refl, some, ℕ, ◌≡◌, nat_eq,
}
use deltio.Topics.Name.{
  subscription_name_eq_iff, SubscriptionName, subscription_name_key, subscription_name_eq,
}
use deltio.Topics.Actor.{TopicActor, attach_subscription}
use deltio.Push.{set, PushSubscriptionsRegistry}
use deltio.Subscriptions.Info.{SubscriptionInfo}
use deltio.Subscriptions.Manager.{Subscription}
use deltio.Subscriptions.Actor.Receive.{start}
use deltio.Server.{Server, Clock}
use deltio.Server.Calls.{settle}
use deltio.Server.Creation.{Fresh, kept_id, push_after}
use deltio.Push.{lookup-set}

abbrev pub registry_after : SubscriptionInfo → PushSubscriptionsRegistry → PushSubscriptionsRegistry
registry_after info registry =
    if is_some info.push_config then set info.name info.push_config registry else registry

-- The actor of a new subscription has started, and its push config is registered.
pub settle-start :
    (clock : Clock) (h : Subscription) (info : SubscriptionInfo) (has_topics : Bool) (s : Server)
    → settle clock h (start h.internal_id info has_topics) s ≡ record s {
      subscriptions =
          insert h.internal_id
            (record (start h.internal_id info has_topics) { signals = [] })
            s.subscriptions;
      push_registry = registry_after info s.push_registry;
    }
unfolding settle start
settle-start clock h info has_topics s = elim (Option-cases info.push_config) [
  | inl e ↦ rw e refl
  | inr (c, e) ↦ rw e refl
]

pub start-Fresh :
    (info : SubscriptionInfo) (id : ℕ)
    → Fresh info id (record (start id info (is_some info.dead_letter_policy)) { signals = [] })
unfolding start
start-Fresh info id = elim (Option-cases info.push_config) [
  | inl e ↦ rw e (record {
    identity = (refl, refl);
    filter = refl;
    nothing_stored = λ f. refl;
    nothing_marked = (refl, refl);
    first_ack_id = refl;
    alive = refl;
    dead_letters = refl;
    silent = refl;
  })
  | inr (c, e) ↦ rw e (record {
    identity = (refl, refl);
    filter = refl;
    nothing_stored = λ f. refl;
    nothing_marked = (refl, refl);
    first_ack_id = refl;
    alive = refl;
    dead_letters = refl;
    silent = refl;
  })
]

pub attach_subscription-attaches :
    (name : SubscriptionName) (id : ℕ) (a : TopicActor)
    → let m = (attach_subscription name id a).subscriptions in
      (record (attach_subscription name id a) { signals = [] }
        ≡ record a { subscriptions = m; signals = [] })
      × ((other : SubscriptionName)
          → lookup other m ≡ (
              if subscription_name_eq name other
              then some (kept_id (lookup name a.subscriptions) id)
              else lookup other a.subscriptions))
unfolding attach_subscription
attach_subscription-attaches name id a = elim (Option-cases (lookup name a.subscriptions)) [
  | inl e ↦ rw (e, attach_subscription) (refl, λ other. lookup-insert name other id a.subscriptions)
  | inr (old, e) ↦
      rw (e, attach_subscription)
        (refl, λ other. ground (arith, subscription_name_eq_iff name other))
]

pub registry_after-pushes :
    (info : SubscriptionInfo) (name : SubscriptionName) (registry : PushSubscriptionsRegistry)
    → lookup name (registry_after info registry)
      ≡ push_after info.push_config info.name name (lookup name registry)
registry_after-pushes info name registry = elim (Option-cases info.push_config) [
  | inl e ↦ rw e refl
  | inr (c, e) ↦ rw e (lookup-set info.name name (some c) registry)
]
