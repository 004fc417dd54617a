-- ===== src/Api/Publisher.antt =====
-- src/api/publisher.rs: the handlers of the publisher service.
use deltio.Prelude.{Bytes, List, Option, [], map, none, some, ℕ, ℤ, ◌∷◌, nat_eq}
use deltio.Results.{ok, map_err, ok_or, transpose_map}
use deltio.Text.Decimal.{decimal}
use deltio.Paging.{Paging}
use deltio.Topics.Name.{SubscriptionName, show_subscription_name}
use deltio.Topics.Manager.{Topic, CreateTopicError, list_topics}
use deltio.Topics.Actor.{TopicInfo, published}
use deltio.Topics.Actor.Receive.{
  TopicResponse, publish, delete, list, get_info, update, publishes, succeeds, lists, info_is,
}
use deltio.Subscriptions.Actor.Receive
use deltio.Server.{Clock}
use deltio.Server.Calls
use deltio.Api.Proto.{Status, already_exists, invalid_argument, TopicProto, PubsubMessage}
use deltio.Api.Parser.Base64.{Base64}
use deltio.Api.Parser.Tokens.{parse_paging, next_page_token}
use deltio.Api.Parser.Fields.{
  topic_name_argument, subscription_name_argument, parse_message_retention_duration,
  parse_topic_message, parse_project_id,
}
use deltio.Api.Parser.Updates.{parse_topic_update}
use deltio.Api.Resources.{map_to_topic_resource}
use deltio.Api.Call.{
  Call, ◌>>=◌, return, pure_step, conflict, get_topic_internal, find_subscription, ask_topic,
  ask_subscription, join_all, subscription_succeeds,
}

abbrev topic_info_of : TopicResponse → Option TopicInfo
topic_info_of (info_is info) = some info
topic_info_of _ = none

abbrev topic_succeeds : TopicResponse → Option (Unit {0})
topic_succeeds succeeds = some tt
topic_succeeds _ = none

abbrev message_ids_of : TopicResponse → Option (List ℕ)
message_ids_of (publishes (published ids)) = some ids
message_ids_of _ = none

abbrev create_topic_status : CreateTopicError → Status
create_topic_status CreateTopicError.already_exists = already_exists
create_topic_status CreateTopicError.create_closed = conflict

abbrev create_topic_call : TopicInfo → Call Topic
create_topic_call info s =
    let (s', made) = Calls.create_topic info s in (s', map_err create_topic_status made)

abbrev list_topics_call : Bytes → Paging → Call (List Topic × Option ℕ)
list_topics_call project_id paging s =
    let page = list_topics project_id paging s.topic_manager in (s, ok (page.topics, page.offset))

unfoldable pub create_topic : Clock → TopicProto → Call TopicProto
unfolding Calls.create_topic ask_topic map_to_topic_resource
create_topic clock request = do
  topic_name ← pure_step (topic_name_argument request.name)
  message_retention_duration ←
      pure_step (transpose_map parse_message_retention_duration request.message_retention_duration)
  topic ← create_topic_call (record {
    name = topic_name;
    labels = request.labels;
    message_retention_duration = message_retention_duration;
  })
  info ← ask_topic clock conflict topic get_info topic_info_of
  return (map_to_topic_resource info)

unfoldable update_topic : Clock → Option TopicProto → Option (List Bytes) → Call TopicProto
unfolding parse_topic_update get_topic_internal ask_topic map_to_topic_resource
update_topic clock topic update_mask = do
  proto_topic ← pure_step (ok_or topic invalid_argument)
  paths ← pure_step (ok_or update_mask invalid_argument)
  topic_name ← pure_step (topic_name_argument proto_topic.name)
  change ← pure_step (parse_topic_update proto_topic paths)
  t ← get_topic_internal topic_name
  info ← ask_topic clock conflict t (update change) topic_info_of
  return (map_to_topic_resource info)

unfoldable pub publish_messages : Clock → Bytes → List PubsubMessage → Call (List Bytes)
unfolding parse_topic_message get_topic_internal ask_topic decimal
publish_messages clock topic messages = do
  topic_name ← pure_step (topic_name_argument topic)
  t ← get_topic_internal topic_name
  ids ←
      ask_topic clock conflict t (publish (map (parse_topic_message clock.now) messages))
        message_ids_of
  return (map decimal ids)

unfoldable pub get_topic : Clock → Bytes → Call TopicProto
unfolding get_topic_internal ask_topic map_to_topic_resource
get_topic clock topic = do
  topic_name ← pure_step (topic_name_argument topic)
  t ← get_topic_internal topic_name
  info ← ask_topic clock conflict t get_info topic_info_of
  return (map_to_topic_resource info)

abbrev get_resource : Clock → Topic → Call TopicProto
get_resource clock t = do
  info ← ask_topic clock conflict t get_info topic_info_of
  return (map_to_topic_resource info)

abbrev page_of : TopicResponse → Option (List (SubscriptionName × ℕ) × Option ℕ)
page_of (lists subscriptions next) = some (subscriptions, next.offset)
page_of _ = none

abbrev shown_names : List (SubscriptionName × ℕ) → List Bytes
shown_names [] = []
shown_names ((name, id) ∷ rest) = show_subscription_name name ∷ shown_names rest

module _ ⦃b : Base64⦄ where
  -- The topics of the page and the token of the next page.
  unfoldable list_project_topics : Clock → Bytes → ℤ → Bytes → Call (List TopicProto × Bytes)
  unfolding parse_paging parse_project_id list_topics join_all
  list_project_topics clock project page_size page_token = do
    paging ← pure_step (parse_paging page_size page_token)
    project_id ← pure_step (parse_project_id project)
    page ← list_topics_call project_id paging
    topics ← join_all (get_resource clock) page.0
    return (topics, next_page_token page.1)

  unfoldable list_topic_subscriptions : Clock → Bytes → ℤ → Bytes → Call (List Bytes × Bytes)
  unfolding parse_paging get_topic_internal ask_topic
  list_topic_subscriptions clock topic page_size page_token = do
    topic_name ← pure_step (topic_name_argument topic)
    paging ← pure_step (parse_paging page_size page_token)
    t ← get_topic_internal topic_name
    page ← ask_topic clock conflict t (list paging) page_of
    return (shown_names page.0, next_page_token page.1)

-- There are no snapshots: the page is empty if the topic exists.
unfoldable list_topic_snapshots : Bytes → Call (List Bytes × Bytes)
unfolding get_topic_internal
list_topic_snapshots topic = do
  topic_name ← pure_step (topic_name_argument topic)
  t ← get_topic_internal topic_name
  return ([], [])

unfoldable pub delete_topic : Clock → Bytes → Call (Unit {0})
unfolding get_topic_internal ask_topic
delete_topic clock topic = do
  topic_name ← pure_step (topic_name_argument topic)
  t ← get_topic_internal topic_name
  ask_topic clock conflict t delete topic_succeeds

unfoldable detach_subscription : Clock → Bytes → Call (Unit {0})
unfolding find_subscription ask_subscription
detach_subscription clock subscription = do
  subscription_name ← pure_step (subscription_name_argument subscription)
  h ← find_subscription conflict subscription_name
  ask_subscription clock conflict h Receive.detachment subscription_succeeds
