-- ===== src/Subscriptions/Manager.antt =====
-- src/subscriptions/subscription_manager.rs, with the handle of src/subscriptions/subscription.rs and
-- the page of src/subscriptions/paging.rs. The lock makes each call on the state one step.
use deltio.Prelude.{Bool, Bytes, List, Option, bytes_eq, none, some, ℕ, nat_eq}
use deltio.Results.{Result, ok, ok_or, guard, map_err, ◌>>◌}
use deltio.Paging.{Paging}
use deltio.Registry.{State, create_entry, delete_entry, get_entry, list_all, list_in_project}
use deltio.Topics.Name.{SubscriptionName, subscription_name_key}
use deltio.Topics.Manager.{Topic, TopicManager, get_topic, GetTopicError}
use deltio.Subscriptions.Info.{SubscriptionInfo}
use deltio.Subscriptions.Policies.{DeadLetterPolicy}

-- The mailbox of the handle leads to the actor of that internal ID.
pub record Subscription : Type 0 where
  pub name : SubscriptionName
  pub topic : Topic
  pub internal_id : ℕ

pub data CreateSubscriptionError : Type 0 where
  already_exists must_be_in_same_project_as_topic dead_letter_topic_does_not_exist create_closed :
      CreateSubscriptionError

pub data GetSubscriptionError : Type 0 where
  does_not_exist get_closed : GetSubscriptionError

abbrev pub SubscriptionManager : Type 0
SubscriptionManager = State SubscriptionName Subscription

abbrev internal_id_of : Subscription → ℕ
internal_id_of s = s.internal_id

abbrev subscription_name_of : Subscription → SubscriptionName
subscription_name_of s = s.name

abbrev pub new_subscription : SubscriptionName → Topic → ℕ → Subscription
new_subscription name topic internal_id = record {
  name = name;
  topic = topic;
  internal_id = internal_id;
}

pub record SubscriptionsPage : Type 0 where
  pub subscriptions : List Subscription
  pub offset : Option ℕ

abbrev dead_letter_error : GetTopicError → CreateSubscriptionError
dead_letter_error GetTopicError.does_not_exist = dead_letter_topic_does_not_exist
dead_letter_error GetTopicError.get_closed = create_closed

abbrev find_dead_letter_topic :
    Option DeadLetterPolicy → TopicManager → Result CreateSubscriptionError (Option TopicManager)
find_dead_letter_topic none topics = ok none
find_dead_letter_topic (some p) topics =
    map_err dead_letter_error (get_topic p.dead_letter_topic topics) >> ok (some topics)

-- What `create_subscription` checks before it takes the lock.
unfoldable pub check_subscription :
    SubscriptionInfo → Topic → TopicManager → Result CreateSubscriptionError (Option TopicManager)
unfolding get_topic
check_subscription info topic topics =
    guard (bytes_eq topic.name.project_id info.name.project_id) must_be_in_same_project_as_topic
    >> find_dead_letter_topic info.dead_letter_policy topics

-- `State::create_subscription`.
unfoldable pub create_subscription_entry :
    SubscriptionInfo
    → Topic
    → SubscriptionManager
    → SubscriptionManager × Result CreateSubscriptionError Subscription
create_subscription_entry info topic s =
    let (s', made) = create_entry info.name (new_subscription info.name topic) s in
    (s', ok_or made already_exists)

unfoldable pub get_subscription :
    SubscriptionName → SubscriptionManager → Result GetSubscriptionError Subscription
get_subscription name s = ok_or (get_entry name s) does_not_exist

abbrev pub list_all_subscriptions : SubscriptionManager → List Subscription
list_all_subscriptions s = list_all s

abbrev subscription_is_in_project : Bytes → Subscription → Bool
subscription_is_in_project project_id s = bytes_eq s.name.project_id project_id

unfoldable pub list_subscriptions_in_project :
    Bytes → Paging → SubscriptionManager → SubscriptionsPage
list_subscriptions_in_project project_id paging s =
    let (subscriptions, next) =
      list_in_project internal_id_of (subscription_is_in_project project_id) paging s in
    record { subscriptions = subscriptions; offset = next.offset }

-- `SubscriptionManagerDelegate::delete`.
abbrev pub forget_subscription : SubscriptionName → SubscriptionManager → SubscriptionManager
forget_subscription name s = delete_entry name s
