-- ===== src/Api/Subscriber.antt =====
-- src/api/subscriber.rs: the handlers of the subscriber service for the resources.
pub mod Info
pub mod Messages
pub mod Confirm
pub mod Confirmed
pub mod ModifiedIds
pub mod Modified
pub mod Settings
pub mod Streaming
use deltio.Prelude.{Bytes, List, Option, none, some, ℕ, ℤ, nat_eq}
use deltio.Results.{Result, ok, err, map_err, ok_or}
use deltio.Paging.{Paging}
use deltio.Topics.Name.{TopicName, SubscriptionName}
use deltio.Topics.Manager.{Topic}
use deltio.Subscriptions.Info.{SubscriptionInfo}
use deltio.Subscriptions.Manager.{
  Subscription, CreateSubscriptionError, list_subscriptions_in_project,
}
use deltio.Subscriptions.Manager.CreateSubscriptionError.{
  must_be_in_same_project_as_topic, dead_letter_topic_does_not_exist,
}
use deltio.Subscriptions.Actor.Receive.{Request, Response, get_info, update, deletion, deletes}
use deltio.Subscriptions.Actor.Requests.{Deletion, done}
use deltio.Server.{Server, Clock}
use deltio.Server.Calls
use deltio.Api.Proto.{Status, invalid_argument, not_found, already_exists, SubscriptionProto}
use deltio.Api.Parser.Base64.{Base64}
use deltio.Api.Parser.Tokens.{parse_paging, next_page_token}
use deltio.Api.Parser.Fields.{topic_name_argument, subscription_name_argument, parse_project_id}
use deltio.Api.Parser.Updates.{parse_subscription_update}
use deltio.Api.Resources.{map_to_subscription_resource}
use deltio.Api.Call.{
  Call, ◌>>=◌, ◌>>◌, return, fail, pure_step, conflict, answer_or, find_topic, find_subscription,
  get_subscription_internal, ask_topic, ask_subscription, join_all, info_of,
}
use deltio.Api.Subscriber.Info.{parse_subscription_info}

abbrev create_subscription_status : CreateSubscriptionError → Status
create_subscription_status CreateSubscriptionError.already_exists = already_exists
create_subscription_status must_be_in_same_project_as_topic = invalid_argument
create_subscription_status dead_letter_topic_does_not_exist = not_found
create_subscription_status CreateSubscriptionError.create_closed = conflict

abbrev create_subscription_call : Clock → SubscriptionInfo → Topic → Call Subscription
create_subscription_call clock info t s =
    let (s', made) = Calls.create_subscription clock info t s in
    (s', map_err create_subscription_status made)

-- The resource is read once the answer of the actor is there.
abbrev to_resource : Subscription → SubscriptionInfo → Call SubscriptionProto
to_resource h info s = (s, ok (map_to_subscription_resource h info s))

unfoldable pub create_subscription : Clock → SubscriptionProto → Call SubscriptionProto
unfolding parse_subscription_info find_topic Calls.create_subscription ask_subscription
    map_to_subscription_resource
create_subscription clock request = do
  topic_name ← pure_step (topic_name_argument request.topic)
  info ← pure_step (parse_subscription_info request)
  t ← find_topic conflict topic_name
  h ← create_subscription_call clock info t
  created ← ask_subscription clock conflict h get_info info_of
  to_resource h created

abbrev get_subscription_resource : Clock → Subscription → Call SubscriptionProto
get_subscription_resource clock h = do
  info ← ask_subscription clock conflict h get_info info_of
  to_resource h info

unfoldable pub get_subscription : Clock → Bytes → Call SubscriptionProto
unfolding find_subscription ask_subscription map_to_subscription_resource
get_subscription clock subscription = do
  subscription_name ← pure_step (subscription_name_argument subscription)
  h ← find_subscription conflict subscription_name
  get_subscription_resource clock h

unfoldable update_subscription :
    Clock → Option SubscriptionProto → Option (List Bytes) → Call SubscriptionProto
unfolding parse_subscription_update get_subscription_internal ask_subscription
    map_to_subscription_resource
update_subscription clock subscription update_mask = do
  proto_subscription ← pure_step (ok_or subscription invalid_argument)
  paths ← pure_step (ok_or update_mask invalid_argument)
  subscription_name ← pure_step (subscription_name_argument proto_subscription.name)
  change ← pure_step (parse_subscription_update proto_subscription paths)
  h ← get_subscription_internal subscription_name
  info ← ask_subscription clock conflict h (update change) info_of
  to_resource h info

abbrev list_subscriptions_call : Bytes → Paging → Call (List Subscription × Option ℕ)
list_subscriptions_call project_id paging s =
    let page = list_subscriptions_in_project project_id paging s.subscription_manager in
    (s, ok (page.subscriptions, page.offset))

-- The subscriptions of the page and the token of the next page.
unfoldable pub list_subscriptions :
    ⦃b : Base64⦄ → Clock → Bytes → ℤ → Bytes → Call (List SubscriptionProto × Bytes)
unfolding parse_paging parse_project_id list_subscriptions_in_project ask_subscription
    map_to_subscription_resource join_all
list_subscriptions clock project page_size page_token = do
  paging ← pure_step (parse_paging page_size page_token)
  project_id ← pure_step (parse_project_id project)
  page ← list_subscriptions_call project_id paging
  subscriptions ← join_all (get_subscription_resource clock) page.0
  return (subscriptions, next_page_token page.1)

abbrev deleted : Response → Option (Unit {0})
deleted (deletes done) = some tt
deleted _ = none

unfoldable delete_subscription : Clock → Bytes → Call (Unit {0})
unfolding get_subscription_internal ask_subscription
delete_subscription clock subscription = do
  subscription_name ← pure_step (subscription_name_argument subscription)
  h ← get_subscription_internal subscription_name
  ask_subscription clock conflict h deletion deleted
