-- ===== src/Api/Parser/Updates.antt =====
-- The field masks of the update requests.
use deltio.Prelude.{
  Bool, Bytes, List, [], any, bytes_eq, codes, if◌then◌else◌, is_empty, none, not, some, ◌∷◌,
  nat_eq,
}
use deltio.Results.{Result, ok, err, guard, map_ok, transpose_map, ◌>>=◌, ◌>>◌}
use deltio.Subscriptions.Info.{SubscriptionUpdate}
use deltio.Topics.Actor.{TopicUpdate}
use deltio.Api.Proto.{Status, invalid_argument, SubscriptionProto, TopicProto}
use deltio.Api.Parser.Fields.{
  parse_create_ack_deadline, parse_retry_policy, parse_dead_letter_policy,
  parse_message_retention_duration,
}

abbrev pub is_path : Bytes → List Bytes → Bool
is_path path paths = any (bytes_eq path) paths

abbrev pub ack_deadline_path : Bytes
ack_deadline_path = codes "ack_deadline_seconds"

abbrev pub retry_policy_path : Bytes
retry_policy_path = codes "retry_policy"

abbrev pub dead_letter_policy_path : Bytes
dead_letter_policy_path = codes "dead_letter_policy"

abbrev pub retention_path : Bytes
retention_path = codes "message_retention_duration"

abbrev pub exactly_once_path : Bytes
exactly_once_path = codes "enable_exactly_once_delivery"

abbrev labels_path : Bytes
labels_path = codes "labels"

abbrev pub updatable_paths : List Bytes
updatable_paths =
    ack_deadline_path ∷ retry_policy_path ∷ dead_letter_policy_path ∷ retention_path
    ∷ exactly_once_path ∷ []

abbrev pub immutable_paths : List Bytes
immutable_paths =
    codes "name"
    ∷ codes "topic"
    ∷ codes "enable_message_ordering"
    ∷ codes "filter"
    ∷ codes "detached"
    ∷ labels_path
    ∷ codes "expiration_policy"
    ∷ codes "push_config"
    ∷ codes "bigquery_config"
    ∷ codes "retain_acked_messages"
    ∷ codes "topic_message_retention_duration"
    ∷ codes "state"
    ∷ []

abbrev pub no_update : SubscriptionUpdate
no_update = record {
  ack_deadline = none;
  retry_policy = none;
  dead_letter_policy = none;
  message_retention_duration = none;
  enable_exactly_once_delivery = none;
}

-- The field of one path; the last case is the path of exactly-once delivery, the only one left.
unfoldable pub set_path :
    SubscriptionProto → Bytes → SubscriptionUpdate → Result Status SubscriptionUpdate
set_path p path u =
    if bytes_eq path ack_deadline_path
    then ok (record u { ack_deadline = some (parse_create_ack_deadline p.ack_deadline_seconds) })
    else if bytes_eq path retry_policy_path
    then map_ok (λ v. record u { retry_policy = some v })
        (transpose_map parse_retry_policy p.retry_policy)
    else if bytes_eq path dead_letter_policy_path
    then map_ok (λ v. record u { dead_letter_policy = some v })
        (transpose_map parse_dead_letter_policy p.dead_letter_policy)
    else if bytes_eq path retention_path
    then map_ok (λ v. record u { message_retention_duration = some v })
        (transpose_map parse_message_retention_duration p.message_retention_duration)
    else ok (record u { enable_exactly_once_delivery = some p.enable_exactly_once_delivery })

-- The loop over the paths.
unfoldable pub set_paths :
    SubscriptionProto → List Bytes → SubscriptionUpdate → Result Status SubscriptionUpdate
unfolding set_path
set_paths p [] u = ok u
set_paths p (path ∷ paths) u =
    guard (not (is_path path immutable_paths)) invalid_argument
    >> (guard (is_path path updatable_paths) invalid_argument
        >> (set_path p path u >>= λ u'. set_paths p paths u'))

unfoldable pub parse_subscription_update :
    SubscriptionProto → List Bytes → Result Status SubscriptionUpdate
unfolding set_paths
parse_subscription_update p paths =
    if is_empty paths then err invalid_argument else set_paths p paths no_update

abbrev topic_updatable_paths : List Bytes
topic_updatable_paths = labels_path ∷ retention_path ∷ []

abbrev topic_immutable_paths : List Bytes
topic_immutable_paths =
    codes "name"
    ∷ codes "kms_key_name"
    ∷ codes "schema_settings"
    ∷ codes "message_storage_policy"
    ∷ codes "satisfies_pzs"
    ∷ []

abbrev no_topic_update : TopicUpdate
no_topic_update = record { labels = none; message_retention_duration = none }

set_topic_path : TopicProto → Bytes → TopicUpdate → Result Status TopicUpdate
set_topic_path p path u =
    if bytes_eq path labels_path
    then ok (record u { labels = some p.labels })
    else map_ok (λ v. record u { message_retention_duration = some v })
        (transpose_map parse_message_retention_duration p.message_retention_duration)

set_topic_paths : TopicProto → List Bytes → TopicUpdate → Result Status TopicUpdate
unfolding set_topic_path
set_topic_paths p [] u = ok u
set_topic_paths p (path ∷ paths) u =
    guard (not (is_path path topic_immutable_paths)) invalid_argument
    >> (guard (is_path path topic_updatable_paths) invalid_argument
        >> (set_topic_path p path u >>= λ u'. set_topic_paths p paths u'))

unfoldable pub parse_topic_update : TopicProto → List Bytes → Result Status TopicUpdate
unfolding set_topic_paths
parse_topic_update p paths =
    if is_empty paths then err invalid_argument else set_topic_paths p paths no_topic_update
