-- ===== src/Tests/Server.antt =====
-- A server with a topic and a subscription, from its creation on.
use deltio.Prelude.{
  [], codes, false, insert, lookup, none, pos, refl, some, true, ℕ, ◌*◌, ◌+◌, ◌^◌, ◌∷◌, ◌≡◌, nat_eq,
}
use deltio.Results.{ok}
use deltio.Topics.Name.{parse_subscription_name, get_from, trim_start, trim_end, SubscriptionName}
use deltio.Topics.Manager
use deltio.Topics.Manager.{Topic, new_topic}
use deltio.Topics.Actor.{TopicActor, TopicInfo, start_topic, attach_subscription, published}
use deltio.Topics.Actor.Receive.{publish, publishes}
use deltio.Registry.{create_entry}
use deltio.Topics.Actor.Receive.{receive_topic}
use deltio.Server.Calls.{attach_created, finish_creation, settle}
use deltio.Subscriptions.Manager.{check_subscription, create_subscription_entry, new_subscription}
use deltio.Subscriptions.Info.{SubscriptionInfo}
use deltio.Subscriptions.Actor.Receive.{pull, start}
use deltio.Server.{Server, Clock, new_server}
use deltio.Server.Route.{call_topic}
use deltio.Server.Calls.{
  create_topic, create_subscription, call_subscription, attach_created, finish_creation, settle,
}
use deltio.Server.Creation.{CreateSpec}
use deltio.Server.Created.{create_subscription-CreateSpec}
use deltio.Topics.Message.{message_id}
use deltio.Topics.Actor.{publish_messages, assign, names_of}
use deltio.Server.Delivered.{Distinct, Delivered, call_topic-Delivered}
use deltio.Server.Settings.{AllInBounds}
use deltio.Server.Settings.Reached.{
  Reach, starts, creates_topic, creates_subscription, calls_subscription, Reach-AllInBounds,
}
use deltio.Api.Proto.{SubscriptionProto}
use deltio.Api.Parser.Fields.{parse_create_ack_deadline}
use deltio.Api.Subscriber.Info.{parse_subscription_info}
use deltio.Tests.Samples.{name, ordered, plain}

abbrev clock : Clock
clock = record { now = 1_000; system_now = 500 }

abbrev topic_info : TopicInfo
topic_info = record {
  name = record { project_id = codes "p"; topic_id = codes "t" };
  labels = [];
  message_retention_duration = none;
}

abbrev handle : Topic
handle = new_topic topic_info.name 2

abbrev with_topic : Server
with_topic = (create_topic topic_info new_server).0

abbrev started : TopicActor
started = start_topic topic_info 2

topic_lives : lookup 2 with_topic.topics ≡ some started
unfolding create_topic Manager.create_topic create_entry lookup insert
topic_lives = refl

create_subscription-CreateSpec_example :
    CreateSpec ordered handle started with_topic
      (create_subscription clock ordered handle with_topic)
create_subscription-CreateSpec_example =
    create_subscription-CreateSpec clock ordered handle started with_topic topic_lives

abbrev with_subscription : Server
with_subscription = (create_subscription clock ordered handle with_topic).0

abbrev attached : TopicActor
attached = attach_subscription name 2 started

attached_lives : lookup 2 with_subscription.topics ≡ some attached
unfolding create_topic Manager.create_topic create_entry lookup insert create_subscription
    check_subscription create_subscription_entry finish_creation attach_created call_topic settle
    start receive_topic attach_subscription
attached_lives = refl

abbrev first_id : ℕ
first_id = 2 * 2 ^ 32 + 1

publish_answers :
    (call_topic clock 2 (publish (plain ∷ [])) with_subscription).1
    ≡ some (publishes (published (first_id ∷ [])))
unfolding create_topic Manager.create_topic create_entry lookup insert create_subscription
    check_subscription create_subscription_entry finish_creation attach_created call_topic settle
    start receive_topic attach_subscription publish_messages assign message_id
publish_answers = refl

distinct : Distinct attached.subscriptions (names_of attached.subscriptions)
unfolding attach_subscription insert lookup
distinct = (λ id e. refl, tt)

call_topic-Delivered_example :
    Delivered attached
      (plain ∷ [])
      with_subscription
      (call_topic clock 2 (publish (plain ∷ [])) with_subscription).0
      (first_id ∷ [])
call_topic-Delivered_example =
    call_topic-Delivered clock 2 (plain ∷ []) with_subscription attached (first_id ∷ [])
      attached_lives distinct publish_answers

abbrev asked_for : SubscriptionProto
asked_for = record {
  name = codes "projects/p/subscriptions/orders";
  topic = codes "projects/p/topics/t";
  push_config = none;
  ack_deadline_seconds = pos 3;
  message_retention_duration = none;
  enable_message_ordering = true;
  filter = [];
  dead_letter_policy = none;
  retry_policy = none;
  detached = false;
  enable_exactly_once_delivery = true;
}

abbrev orders : SubscriptionName
orders = record { project_id = codes "p"; subscription_id = codes "orders" }

abbrev exactly_once : SubscriptionInfo
exactly_once = record ordered { name = orders; enable_exactly_once_delivery = true }

is_parsed : parse_subscription_info asked_for ≡ ok exactly_once
unfolding parse_subscription_info parse_create_ack_deadline parse_subscription_name get_from
    trim_start trim_end
is_parsed = refl

abbrev created : Server
created = (create_subscription clock exactly_once handle with_topic).0

abbrev asked : Server
asked = (call_subscription clock (new_subscription orders handle 2) (pull 10 5) created).0

asked_Reach : Reach asked
asked_Reach = calls_subscription clock (new_subscription orders handle 2) (pull 10 5) created tt (
    creates_subscription clock asked_for exactly_once handle with_topic is_parsed
      (creates_topic topic_info new_server starts))

Reach-AllInBounds_example : AllInBounds asked
Reach-AllInBounds_example = Reach-AllInBounds asked asked_Reach
