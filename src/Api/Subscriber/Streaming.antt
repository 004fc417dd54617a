-- ===== src/Api/Subscriber/Streaming.antt =====
-- src/api/subscriber.rs: the streaming pull.
use deltio.Prelude.{
  Bool, Bytes, List, Option, [], false, if◌then◌else◌, is_empty, is_some, leb, length, ltb, map,
  min, negsuc, none, not, pos, some, true, ℕ, ℤ, ◌&&◌, ◌==◌, ◌||◌, ◌∷◌, nat_eq,
}
use deltio.Results.{Result, ok, err, guard}
use deltio.Subscriptions.Manager.{Subscription}
use deltio.Subscriptions.Actor.Pull.{pulled}
use deltio.Subscriptions.Actor.Receive.{Response, pull, get_info, pulls}
use deltio.Server.{Server, Clock}
use deltio.Server.Calls.{call_subscription}
use deltio.Api.Proto.{Status, invalid_argument, failed_precondition}
use deltio.Api.Parser.Fields.{subscription_name_argument}
use deltio.Api.Resources.{ReceivedMessage, map_to_received_message}
use deltio.Api.Call.{
  Call, ◌>>=◌, ◌>>◌, return, pure_step, conflict, get_subscription_internal, ask_subscription,
  info_of,
}
use deltio.Api.Subscriber.Confirm.{Confirmation, handle_acks, handle_modifications}

record StreamingPullRequest : Type 0 where
  pub subscription : Bytes
  pub ack_ids : List Bytes
  pub modify_deadline_seconds : List ℤ
  pub modify_deadline_ack_ids : List Bytes
  pub max_outstanding_messages : ℤ
  pub max_outstanding_bytes : ℤ
  pub protocol_version : ℤ

pub record SubscriptionProperties : Type 0 where
  pub exactly_once_delivery_enabled : Bool
  pub message_ordering_enabled : Bool

pub record StreamingPullResponse : Type 0 where
  pub received_messages : List ReceivedMessage
  pub acknowledge_confirmation : Option Confirmation
  pub modify_ack_deadline_confirmation : Option Confirmation
  pub subscription_properties : Option SubscriptionProperties

-- What a stream keeps from its first request.
record Stream : Type 0 where
  pub subscription : Subscription
  pub subscription_properties : SubscriptionProperties
  pub server_keepalives : Bool
  pub max_outstanding : ℕ

abbrev max_outstanding_of : ℤ → Result Status ℕ
max_outstanding_of (negsuc n) = err invalid_argument
max_outstanding_of (pos n) = ok (min n 65_535)

abbrev at_least_one : ℤ → Bool
at_least_one (negsuc n) = false
at_least_one (pos n) = leb 1 n

unfoldable start_stream : Clock → StreamingPullRequest → Call Stream
unfolding get_subscription_internal ask_subscription
start_stream clock request = do
  subscription_name ← pure_step (subscription_name_argument request.subscription)
  h ← get_subscription_internal subscription_name
  info ← ask_subscription clock conflict h get_info info_of
  pure_step (guard (not info.detached) failed_precondition)
  max_outstanding ← pure_step (max_outstanding_of request.max_outstanding_messages)
  return (record {
    subscription = h;
    subscription_properties = record {
      exactly_once_delivery_enabled = info.enable_exactly_once_delivery;
      message_ordering_enabled = info.enable_message_ordering;
    };
    server_keepalives = at_least_one request.protocol_version;
    max_outstanding = max_outstanding;
  })

abbrev empty_response : StreamingPullResponse
empty_response = record {
  received_messages = [];
  acknowledge_confirmation = none;
  modify_ack_deadline_confirmation = none;
  subscription_properties = none;
}

-- What a round of the pulling half gives: the end of the stream, nothing, or a response.
pub data Round : Type 0 where
  ended : Round
  yielded : Option StreamingPullResponse → Round

abbrev properties_of : SubscriptionProperties → Option SubscriptionProperties
properties_of p =
    if p.exactly_once_delivery_enabled || p.message_ordering_enabled then some p else none

abbrev messages_response : Stream → List ReceivedMessage → Option StreamingPullResponse
messages_response stream [] = none
messages_response stream (m ∷ ms) = some (record empty_response {
  received_messages = m ∷ ms;
  subscription_properties = properties_of stream.subscription_properties;
})

abbrev round_of : Stream → Option Response → Round
round_of stream (some (pulls (pulled ps))) =
    yielded (messages_response stream (map map_to_received_message ps))
round_of stream _ = ended

unfoldable pull_round : Clock → Stream → Server → Server × Round
unfolding call_subscription map_to_received_message
pull_round clock stream s =
    let max_per_pull = if stream.max_outstanding == 0 then 65_535 else stream.max_outstanding in
    let (s', response) =
      call_subscription clock stream.subscription (pull max_per_pull stream.max_outstanding) s in
    (s', round_of stream response)

abbrev is_positive : ℤ → Bool
is_positive (negsuc n) = false
is_positive (pos n) = ltb 0 n

abbrev is_nonzero : ℤ → Bool
is_nonzero (negsuc n) = true
is_nonzero (pos n) = ltb 0 n

-- What only the first request may say, and the lists that go together.
check_stream_request : StreamingPullRequest → Result Status (Unit {0})
check_stream_request r =
    guard
      (is_empty r.subscription
        && not (is_positive r.max_outstanding_bytes)
        && not (is_positive r.max_outstanding_messages)
        && not (is_nonzero r.protocol_version)
        && length r.modify_deadline_seconds == length r.modify_deadline_ack_ids)
      invalid_argument

-- A response if there is something to confirm, or the client waits for signs of life.
abbrev stream_response :
    Bool → Option Confirmation → Option Confirmation → Option StreamingPullResponse
stream_response server_keepalives acks modifications =
    if is_some acks || is_some modifications || server_keepalives
    then some (record empty_response {
      acknowledge_confirmation = acks;
      modify_ack_deadline_confirmation = modifications;
    })
    else none

unfoldable handle_streaming_pull_request :
    Clock → Stream → StreamingPullRequest → Call (Option StreamingPullResponse)
unfolding check_stream_request handle_acks handle_modifications
handle_streaming_pull_request clock stream r = do
  let exactly_once_enabled = stream.subscription_properties.exactly_once_delivery_enabled
  pure_step (check_stream_request r)
  acks ← handle_acks clock stream.subscription exactly_once_enabled r.ack_ids
  modifications ←
      handle_modifications clock stream.subscription exactly_once_enabled r.modify_deadline_ack_ids
        r.modify_deadline_seconds
  return (stream_response stream.server_keepalives acks modifications)
