-- ===== src/Api/Parser/Fields.antt =====
-- The single fields: names, ack IDs, deadlines, policies, durations and messages.
use deltio.Prelude.{
  Bytes, List, Option, [], codes, if◌then◌else◌, is_negative, leb, ltb, min, negsuc, none, not, pos,
  some, starts_with, to_nat, ℕ, ℤ, ◌*◌, ◌+◌, ◌==◌, ◌||◌, ◌∷◌, nat_eq,
}
use deltio.Results.{Result, ok, err, ok_or, collect_map, ◌>>=◌}
use deltio.Text.Number.{parse_u64}
use deltio.Topics.Name.{
  TopicName, SubscriptionName, parse_topic_name, parse_subscription_name, project_prefix, get_from,
}
use deltio.Topics.Message.{TopicMessage, Attributes, new_message}
use deltio.Subscriptions.Policies.{RetryPolicy, DeadLetterPolicy}
use deltio.Subscriptions.Info.{PushConfig, PushConfigOidcToken}
use deltio.Subscriptions.Pulled.{DeadlineModification, ack_deadline, extend, nack}
use deltio.Api.Proto.{
  Status, invalid_argument, DurationProto, PubsubMessage, OidcToken, PushConfigProto,
  RetryPolicyProto, DeadLetterPolicyProto,
}
use deltio.Api.Text.{trim}

abbrev pub from_secs : ℕ → ℕ
from_secs n = n * 1_000_000_000

abbrev pub topic_name_argument : Bytes → Result Status TopicName
topic_name_argument raw_value = ok_or (parse_topic_name raw_value) invalid_argument

abbrev pub subscription_name_argument : Bytes → Result Status SubscriptionName
subscription_name_argument raw_value = ok_or (parse_subscription_name raw_value) invalid_argument

unfoldable pub parse_ack_id : Bytes → Result Status ℕ
unfolding parse_u64
parse_ack_id raw_value = ok_or (parse_u64 raw_value) invalid_argument

-- No extension is a nack.
unfoldable pub parse_deadline_extension_duration : ℤ → Result Status (Option ℕ)
parse_deadline_extension_duration (negsuc n) = err invalid_argument
parse_deadline_extension_duration (pos n) =
    if leb 600 n
    then ok (some (from_secs 600))
    else if n == 0
    then ok none
    else ok (some (from_secs n))

abbrev pub modification : ℕ → ℕ → Option ℕ → DeadlineModification
modification now ack_id none = nack ack_id
modification now ack_id (some seconds) = extend ack_id (ack_deadline (now + seconds))

-- One pair of an ack ID and seconds.
unfoldable pub parse_deadline_modification : ℕ → Bytes × ℤ → Result Status DeadlineModification
unfolding parse_ack_id parse_deadline_extension_duration ack_deadline
parse_deadline_modification now (raw, raw_seconds) = parse_ack_id raw >>= λ ack_id.
    parse_deadline_extension_duration raw_seconds >>= λ seconds.
    ok (modification now ack_id seconds)

abbrev pub zip {ℓ κ} : {A : Type ℓ} {B : Type κ} → List A → List B → List (A × B)
zip [] ys = []
zip (x ∷ xs) [] = []
zip (x ∷ xs) (y ∷ ys) = (x, y) ∷ zip xs ys

unfoldable pub parse_deadline_modifications :
    ℕ → List Bytes → List ℤ → Result Status (List DeadlineModification)
unfolding parse_deadline_modification collect_map
parse_deadline_modifications now ack_ids modify_deadline_seconds =
    collect_map (parse_deadline_modification now) (zip ack_ids modify_deadline_seconds)

unfoldable pub parse_project_id : Bytes → Result Status Bytes
unfolding get_from
parse_project_id raw_value =
    if starts_with raw_value project_prefix
    then ok_or (get_from 9 raw_value) invalid_argument
    else err invalid_argument

abbrev some_attributes : Attributes → Option Attributes
some_attributes [] = none
some_attributes (a ∷ rest) = some (a ∷ rest)

abbrev oidc_token : Option OidcToken → Option PushConfigOidcToken
oidc_token none = none
oidc_token (some token) =
    some (record { audience = token.audience; service_account_email = token.service_account_email })

unfoldable pub parse_push_config : PushConfigProto → Result Status PushConfig
unfolding trim
parse_push_config p =
    let endpoint = trim p.push_endpoint in
    if not (starts_with endpoint (codes "http"))
    then err invalid_argument
    else ok (record {
      endpoint = endpoint;
      oidc_token = oidc_token p.authentication_method;
      attributes = some_attributes p.attributes;
    })

-- `Duration::new` carries nanoseconds over to the seconds; a negative part counts as 0.
abbrev backoff_or : ℕ → Option DurationProto → ℕ
backoff_or default none = default
backoff_or default (some d) = from_secs (to_nat d.seconds) + to_nat d.nanos

unfoldable pub parse_retry_policy : RetryPolicyProto → Result Status RetryPolicy
parse_retry_policy p =
    let max_allowed = from_secs 600 in
    let min_backoff = min (backoff_or (from_secs 10) p.minimum_backoff) max_allowed in
    let max_backoff = min (backoff_or (from_secs 600) p.maximum_backoff) max_allowed in
    if ltb max_backoff min_backoff
    then err invalid_argument
    else ok (record { minimum_backoff = min_backoff; maximum_backoff = max_backoff })

unfoldable pub parse_max_delivery_attempts : ℤ → Result Status ℕ
parse_max_delivery_attempts (negsuc n) = err invalid_argument
parse_max_delivery_attempts (pos n) =
    if n == 0
    then ok 5
    else if ltb n 5
    then err invalid_argument
    else if ltb 100 n
    then err invalid_argument
    else ok n

unfoldable pub parse_dead_letter_policy : DeadLetterPolicyProto → Result Status DeadLetterPolicy
unfolding parse_max_delivery_attempts
parse_dead_letter_policy p = topic_name_argument p.dead_letter_topic >>= λ dead_letter_topic.
    parse_max_delivery_attempts p.max_delivery_attempts >>= λ max_delivery_attempts. ok (record {
      dead_letter_topic = dead_letter_topic;
      max_delivery_attempts = max_delivery_attempts;
    })

abbrev min_retention : ℕ
min_retention = from_secs (10 * 60)

abbrev max_retention : ℕ
max_retention = from_secs (7 * 24 * 60 * 60)

unfoldable pub parse_message_retention_duration : DurationProto → Result Status ℕ
parse_message_retention_duration d =
    if is_negative d.seconds || is_negative d.nanos
    then err invalid_argument
    else let raw = from_secs (to_nat d.seconds) + to_nat d.nanos in
      ok (if ltb raw min_retention then min_retention else min raw max_retention)

unfoldable pub parse_create_ack_deadline : ℤ → ℕ
parse_create_ack_deadline (negsuc n) = from_secs 10
parse_create_ack_deadline (pos n) = if leb n 10 then from_secs 10 else from_secs n

abbrev with_key : Bytes → TopicMessage → TopicMessage
with_key [] m = m
with_key (c ∷ s) m = record m { ordering_key = some (c ∷ s) }

-- `TopicMessage::new` reads the monotonic clock.
unfoldable pub parse_topic_message : ℕ → PubsubMessage → TopicMessage
parse_topic_message now p =
    with_key p.ordering_key (new_message p.payload (some_attributes p.attributes) now)
