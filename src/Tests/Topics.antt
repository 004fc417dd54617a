-- ===== src/Tests/Topics.antt =====
-- Names, identifiers, topics, pages and the push registry at concrete inputs.
use deltio.Prelude.{
  Bytes, List, [], arith, codes, false, length, lookup, none, refl, remove, some, total, true, ℕ,
  ◌++◌, ◌+◌, ◌∷◌, ◌≡◌, nat_eq, bytes_eq_instance,
}
use deltio.Paging.{new_paging, size, start_paging}
use deltio.Push.{entries, set, entry_after, lookup-set}
use deltio.Subscriptions.Info.{PushConfig}
use deltio.Topics.Message.{pop_front}
use deltio.Topics.Message.Ids.{message_id-injective}
use deltio.Topics.Name.{
  TopicName, SubscriptionName, subscription_name_key, project_prefix, trim_start, trim_end,
  parse_topic_name, show_topic_name,
}
use deltio.Topics.Name.RoundTrip.{
  IsReadable, parse_topic_name_any_collection, parse_topic_name-show_topic_name,
}
use deltio.Topics.Actor.{
  TopicActor, PublishEnvironment, start_topic, publish_messages, subscription_id_of, TopicUpdate,
  apply_topic_update, attach_subscription, delete_topic, get_topic_stats, remove_subscription,
}
use deltio.Topics.Actor.Ids.{Publishes, publish_messages-Publishes}
use deltio.Paging.Order.{InOrder, sorted}
use deltio.Topics.Actor.Pages.{follow_subscriptions, follow_subscriptions_complete}
use deltio.Tests.Samples.{plain, keyed_message}

abbrev topic : TopicName
topic = record { project_id = codes "lets-go"; topic_id = codes "deltio" }

abbrev first_subscription : SubscriptionName
first_subscription = record { project_id = codes "lets-go"; subscription_id = codes "first" }

abbrev second_subscription : SubscriptionName
second_subscription = record { project_id = codes "lets-go"; subscription_id = codes "second" }

topic-IsReadable : IsReadable topic.project_id topic.topic_id
unfolding trim_start trim_end
topic-IsReadable = (refl, refl, refl, omega arith)

parse_topic_name-show_topic_name_example : parse_topic_name (show_topic_name topic) ≡ some topic
parse_topic_name-show_topic_name_example = parse_topic_name-show_topic_name topic topic-IsReadable

first-IsReadable : IsReadable first_subscription.project_id first_subscription.subscription_id
unfolding trim_start trim_end
first-IsReadable = (refl, refl, refl, omega arith)

parse_topic_name_any_collection_example :
    parse_topic_name
      (project_prefix ++ (topic.project_id ++ ((b'/' ∷ codes "snakes/") ++ topic.topic_id)))
    ≡ some topic
parse_topic_name_any_collection_example =
    parse_topic_name_any_collection topic (codes "snakes/") topic-IsReadable refl

abbrev topic_id : ℕ
topic_id = 3

abbrev local_id : ℕ
local_id = 7

message_id-injective_example : (topic_id ≡ topic_id) × (local_id ≡ local_id)
message_id-injective_example =
    message_id-injective topic_id local_id topic_id local_id (omega arith) (omega arith) refl

abbrev three_items : List ℕ
three_items = 5 ∷ 6 ∷ 7 ∷ []

abbrev endpoint : Bytes → PushConfig
endpoint url = record { endpoint = url; oidc_token = none; attributes = none }

lookup-set_example :
    lookup first_subscription (
      set first_subscription
        (some (endpoint (codes "new")))
        ((first_subscription, endpoint (codes "old")) ∷ []))
    ≡ entry_after first_subscription
        (some (endpoint (codes "new")))
        first_subscription
        (lookup first_subscription ((first_subscription, endpoint (codes "old")) ∷ []))
lookup-set_example =
    lookup-set first_subscription first_subscription (some (endpoint (codes "new")))
      ((first_subscription, endpoint (codes "old")) ∷ [])

abbrev attached : TopicActor
attached =
    record (start_topic (record { name = topic; labels = []; message_retention_duration = none })
      3) { subscriptions = (second_subscription, 2) ∷ (first_subscription, 1) ∷ [] }

abbrev publishing : PublishEnvironment
publishing = record {
  publish_time = 900;
  publish_instant = 9;
  answers = λ name. true;
  arrives = λ name. false;
}

publish_messages-Publishes_example :
    Publishes publishing
      (plain ∷ keyed_message ∷ [])
      attached
      (publish_messages publishing (plain ∷ keyed_message ∷ []) attached).0
      (publish_messages publishing (plain ∷ keyed_message ∷ []) attached).1
publish_messages-Publishes_example =
    publish_messages-Publishes publishing (plain ∷ keyed_message ∷ []) attached (omega arith)

follow_subscriptions_complete_example :
    (listed : List (SubscriptionName × ℕ)) × (follow_subscriptions
        (length (sorted subscription_id_of attached.subscriptions) + 1)
        (new_paging 1 none)
        attached
      ≡ some listed)
    × InOrder subscription_id_of 0 listed
    × ((f : SubscriptionName × ℕ → ℕ) → total f listed ≡ total f attached.subscriptions)
follow_subscriptions_complete_example = follow_subscriptions_complete 1 attached

keeps_entry :
    (attach_subscription first_subscription 9 attached).subscriptions ≡ attached.subscriptions
unfolding attach_subscription lookup
keeps_entry = refl

removes_entry :
    (remove_subscription second_subscription attached).subscriptions ≡ (first_subscription, 1) ∷ []
unfolding remove_subscription remove
removes_entry = refl

deletes_topic : (get_topic_stats (delete_topic attached)).subscription_count ≡ 0
unfolding delete_topic
deletes_topic = refl

abbrev relabel : TopicUpdate
relabel = record { labels = some []; message_retention_duration = some (some 60) }

updates_topic : (apply_topic_update attached.info relabel).message_retention_duration ≡ some 60
unfolding apply_topic_update
updates_topic = refl

pops_first : pop_front (plain ∷ keyed_message ∷ []) ≡ some (plain, keyed_message ∷ [])
pops_first = refl

starts_unbounded : size (start_paging 50_000) ≡ 10_000
starts_unbounded = refl

registered : length (entries ((first_subscription, endpoint (codes "old")) ∷ [])) ≡ 1
registered = refl
