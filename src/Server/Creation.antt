-- ===== src/Server/Creation.antt =====
-- What the creation of a subscription is to do, on every branch.
use deltio.Prelude.{
  Bool-cases, Map, Option, Option-cases, [], bytes_eq, false, if◌then◌else◌, inl, inr, is_some,
  lookup, none, refl, some, sym, true, ℕ, ◌%◌, ◌+◌, ◌==◌, ◌^◌, ◌∙◌, ◌≡◌, nat_eq,
}
use mathlib.Core.Path.{subst}
use deltio.Results.{Result, ok, err, err-injective, not_both}
use deltio.Registry.{get_entry}
use deltio.Topics.Name.{
  topic_name_key, SubscriptionName, subscription_name_key, subscription_name_eq,
}
use deltio.Topics.Manager.{Topic, get_topic}
use deltio.Topics.Actor.{TopicActor}
use deltio.Push.{entry_after}
use deltio.Subscriptions.Info.{SubscriptionInfo, PushConfig}
use deltio.Subscriptions.Manager.{Subscription, CreateSubscriptionError, check_subscription}
use deltio.Subscriptions.Manager.CreateSubscriptionError.{already_exists}
use deltio.Server.{Server}
use deltio.Topics.Message.{TopicMessage}
use deltio.Subscriptions.Policies.{DeadLetterPolicy}
use deltio.Subscriptions.Actor.{SubscriptionActor}
use deltio.Subscriptions.Actor.Stored.{stored}
use deltio.Subscriptions.Actor.Receive.{compile}
use deltio.Subscriptions.Manager.CreateSubscriptionError.{
  must_be_in_same_project_as_topic, dead_letter_topic_does_not_exist, create_closed,
}

-- An actor without messages, at its first ack ID, that has the settings and the filter that they
-- parse into.
pub record Fresh (info : SubscriptionInfo) (internal_id : ℕ) (b : SubscriptionActor) : Type 0 where
  pub identity : (b.internal_id ≡ internal_id) × (b.info ≡ info)
  pub filter : b.compiled_filter ≡ compile info.filter
  pub nothing_stored : (f : TopicMessage → ℕ) → stored f b ≡ 0
  pub nothing_marked : (b.keys_in_flight ≡ []) × (b.delivery_attempts ≡ [])
  pub first_ack_id : b.next_ack_id ≡ 1
  pub alive : b.deleted ≡ false
  pub dead_letters : b.has_topic_manager ≡ is_some info.dead_letter_policy
  pub silent : b.signals ≡ []

-- The internal ID under which a name is attached once it is attached: one that is there stays.
abbrev pub kept_id : Option ℕ → ℕ → ℕ
kept_id none new = new
kept_id (some old) new = old

-- The push config of a name once a subscription with these settings has started.
abbrev pub push_after :
    Option PushConfig → SubscriptionName → SubscriptionName → Option PushConfig → Option PushConfig
push_after none name other before = before
push_after (some config) name other before = entry_after name (some config) other before

-- The new subscription has the next number, its name is free before and leads to it now, a fresh
-- actor runs under its number, and the topic has it among its subscriptions. The push config is
-- registered, and nothing else has changed.
pub record Created (info : SubscriptionInfo) (topic : Topic) (a : TopicActor) (s s' : Server)
    (h : Subscription) : Type 0 where
  pub handle :
      (h.name ≡ info.name)
      × (h.topic ≡ topic)
      × (h.internal_id ≡ (s.subscription_manager.next_id + 1) % 2 ^ 32)
      × (s'.subscription_manager.next_id ≡ h.internal_id)
  pub vacant : get_entry info.name s.subscription_manager ≡ none
  pub registered :
      (name : SubscriptionName)
      → get_entry name s'.subscription_manager ≡ (
          if subscription_name_eq info.name name
          then some h
          else get_entry name s.subscription_manager)
  pub started :
      (b : SubscriptionActor) × Fresh info h.internal_id b
      × ((id : ℕ)
          → lookup id s'.subscriptions
            ≡ (if h.internal_id == id then some b else lookup id s.subscriptions))
  pub attached :
      (subscriptions : Map SubscriptionName ℕ) × ((name : SubscriptionName)
        → lookup name subscriptions ≡ (
            if subscription_name_eq info.name name
            then some (kept_id (lookup info.name a.subscriptions) h.internal_id)
            else lookup name a.subscriptions))
      × ((id : ℕ)
          → lookup id s'.topics ≡ (
              if topic.internal_id == id
              then some (record a { subscriptions = subscriptions; signals = [] })
              else lookup id s.topics))
  pub pushed :
      (name : SubscriptionName)
      → lookup name s'.push_registry
        ≡ push_after info.push_config info.name name (lookup name s.push_registry)
  pub same_topics : s'.topic_manager ≡ s.topic_manager

-- Why a creation is refused.
abbrev pub Refused : SubscriptionInfo → Topic → Server → CreateSubscriptionError → Type 0
Refused info topic s already_exists =
    (h : Subscription) × (get_entry info.name s.subscription_manager ≡ some h)
Refused info topic s must_be_in_same_project_as_topic =
    bytes_eq topic.name.project_id info.name.project_id ≡ false
Refused info topic s dead_letter_topic_does_not_exist =
    (p : DeadLetterPolicy) × (info.dead_letter_policy ≡ some p)
    × (get_entry p.dead_letter_topic s.topic_manager ≡ none)
Refused info topic s create_closed = true ≡ false

abbrev pub CreateSpec :
    SubscriptionInfo
    → Topic
    → TopicActor
    → Server
    → Server × Result CreateSubscriptionError Subscription
    → Type 0
CreateSpec info topic a s (s', ok h) = Created info topic a s s' h
CreateSpec info topic a s (s', err e) = (s' ≡ s) × Refused info topic s e

pub check_subscription-Refused :
    (info : SubscriptionInfo) (topic : Topic) (s : Server) (e : CreateSubscriptionError)
    → check_subscription info topic s.topic_manager ≡ err e
    → Refused info topic s e
unfolding check_subscription get_topic
check_subscription-Refused info topic s e h =
    elim (Bool-cases (bytes_eq topic.name.project_id info.name.project_id)) [
      | inr other ↦
          subst (Refused info topic s)
            (err-injective must_be_in_same_project_as_topic e
              (sym (rw (other, check_subscription) refl) ∙ h))
            other
      | inl same ↦ elim (Option-cases info.dead_letter_policy) [
        | inl none_set ↦ not_both none e (sym (rw (same, none_set, check_subscription) refl) ∙ h)
        | inr (p, policy) ↦ elim (Option-cases (get_entry p.dead_letter_topic s.topic_manager)) [
          | inl missing ↦
              subst (Refused info topic s)
                (err-injective dead_letter_topic_does_not_exist e
                  (sym (rw (same, policy, missing, check_subscription) refl) ∙ h))
                (p, policy, missing)
          | inr (t, there) ↦
              not_both (some s.topic_manager) e
                (sym (rw (same, policy, there, check_subscription) refl) ∙ h)
        ]
      ]
    ]
