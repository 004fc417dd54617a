-- ===== src/Push.antt =====
-- src/push/mod.rs: the registry of the subscriptions that are configured for push.
pub mod Metrics
pub mod Loop
use deltio.Prelude.{
  List, Map, Option, arith, if◌then◌else◌, insert, lookup, lookup-insert, lookup-remove, none,
  remove, some, ◌≡◌, nat_eq, bytes_eq_instance,
}
use deltio.Topics.Name.{
  SubscriptionName, subscription_name_eq_iff, subscription_name_eq, subscription_name_key,
}
use deltio.Subscriptions.Info.{PushConfig}

abbrev pub PushSubscriptionsRegistry : Type 0
PushSubscriptionsRegistry = Map SubscriptionName PushConfig

-- `entry(name).or_insert(config)`: an entry that is there stays.
pub set :
    SubscriptionName → Option PushConfig → PushSubscriptionsRegistry → PushSubscriptionsRegistry
set name (some config) state = elim (lookup name state) [
  | none ↦ insert name config state
  | some old ↦ state
]
set name none state = remove name state

abbrev pub entries : PushSubscriptionsRegistry → List (SubscriptionName × PushConfig)
entries state = state

abbrev pub entry_after :
    SubscriptionName → Option PushConfig → SubscriptionName → Option PushConfig → Option PushConfig
entry_after name (some config) other none =
    if subscription_name_eq name other then some config else none
entry_after name (some config) other (some old) = some old
entry_after name none other before = if subscription_name_eq name other then none else before

-- Setting a config registers a subscription that has no entry, and no config removes its entry; but
-- the config of a subscription that is registered already stays the old one. No other entry changes.
pub lookup-set :
    (name other : SubscriptionName) (config : Option PushConfig) (state : PushSubscriptionsRegistry)
    → lookup other (set name config state) ≡ entry_after name config other (lookup other state)
unfolding set
lookup-set name other none state = lookup-remove name other state
lookup-set name other (some config) state =
    ground (arith, lookup-insert name other config state, subscription_name_eq_iff name other)
