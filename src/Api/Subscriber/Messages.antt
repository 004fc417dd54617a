-- ===== src/Api/Subscriber/Messages.antt =====
-- src/api/subscriber.rs: the handlers for the messages of a subscription.
use deltio.Prelude.{
  Bool, Bytes, List, Option, [], if◌then◌else◌, is_empty, map, negsuc, none, not, pos, some, ℕ, ℤ,
  ◌%◌, ◌-◌, ◌^◌, ◌||◌, ◌∷◌, nat_eq,
}
use deltio.Results.{Result, ok, err, ok_or, collect_map, map_ok}
use deltio.Subscriptions.Info.{AckOutcome, PushConfig}
use deltio.Subscriptions.Manager.{Subscription}
use deltio.Subscriptions.Actor.Pull.{PullResult, pulled, failed, closed, detached}
use deltio.Subscriptions.Actor.Receive.{
  Response, pull, acknowledge, modify, push_config, seek, pulls, outcome_is,
}
use deltio.Server.{Server, Clock}
use deltio.Api.Proto.{
  Status, invalid_argument, failed_precondition, internal, unimplemented, PushConfigProto,
}
use deltio.Api.Text.{trim}
use deltio.Api.Parser.Fields.{
  subscription_name_argument, parse_ack_id, parse_deadline_modifications, parse_push_config,
}
use deltio.Api.Resources.{ReceivedMessage, map_to_received_message}
use deltio.Api.Call.{
  Call, ◌>>=◌, return, fail, pure_step, conflict, get_subscription_internal, ask_subscription,
  subscription_succeeds,
}

abbrev pub outcome_of : Response → Option AckOutcome
outcome_of (outcome_is o) = some o
outcome_of _ = none

abbrev same_for_each : ℤ → List Bytes → List ℤ
same_for_each seconds [] = []
same_for_each seconds (raw ∷ raws) = seconds ∷ same_for_each seconds raws

unfoldable modify_ack_deadline : Clock → Bytes → List Bytes → ℤ → Call (Unit {0})
unfolding parse_deadline_modifications get_subscription_internal ask_subscription
modify_ack_deadline clock subscription ack_ids ack_deadline_seconds = do
  modifications ←
      pure_step (
        parse_deadline_modifications clock.now ack_ids (same_for_each ack_deadline_seconds ack_ids))
  subscription_name ← pure_step (subscription_name_argument subscription)
  h ← get_subscription_internal subscription_name
  outcome ← ask_subscription clock internal h (modify modifications) outcome_of
  return tt

unfoldable acknowledge_call : Clock → Bytes → List Bytes → Call (Unit {0})
unfolding collect_map parse_ack_id get_subscription_internal ask_subscription
acknowledge_call clock subscription raw_ids = do
  ack_ids ← pure_step (collect_map parse_ack_id raw_ids)
  subscription_name ← pure_step (subscription_name_argument subscription)
  h ← get_subscription_internal subscription_name
  outcome ← ask_subscription clock internal h (acknowledge ack_ids) outcome_of
  return tt

-- `as u16` of an `i32` keeps the low 16 bits in two's complement.
abbrev i32_as_u16 : ℤ → ℕ
i32_as_u16 (pos n) = n % 2 ^ 16
i32_as_u16 (negsuc n) = 2 ^ 16 - 1 - n % 2 ^ 16

abbrev received : PullResult → Result Status (List ReceivedMessage)
received (pulled ps) = ok (map map_to_received_message ps)
received (failed closed) = err conflict
received (failed detached) = err failed_precondition

abbrev received_of : Response → Option PullResult
received_of (pulls r) = some r
received_of _ = none

-- `pull_messages`, which has no cap on what is outstanding.
pull_received : Clock → Subscription → ℕ → Call (List ReceivedMessage)
unfolding ask_subscription map_to_received_message
pull_received clock h max_messages = do
  r ← ask_subscription clock conflict h (pull max_messages 0) received_of
  pure_step (received r)

-- What the others do until a signal wakes the handler.
abbrev Wakes : Type 0
Wakes = List (Clock × (Server → Server))

-- The loop of `pull`: one round for each signal, until five minutes are over.
abbrev or_again :
    Bool → Call (List ReceivedMessage) → List ReceivedMessage → Call (List ReceivedMessage)
or_again return_immediately again messages =
    if not (is_empty messages) || return_immediately then return messages else again

pull_loop : Clock → Subscription → ℕ → Bool → Wakes → Call (List ReceivedMessage)
unfolding pull_received
pull_loop clock h max_messages return_immediately [] = pull_received clock h max_messages
pull_loop clock h max_messages return_immediately ((later, others) ∷ wakes) =
    let rest = pull_loop later h max_messages return_immediately wakes in
    pull_received clock h max_messages >>= or_again return_immediately (λ s. rest (others s))

unfoldable pull_call : Clock → Bytes → ℤ → Bool → Wakes → Call (List ReceivedMessage)
unfolding get_subscription_internal pull_loop
pull_call clock subscription max_messages return_immediately wakes = do
  subscription_name ← pure_step (subscription_name_argument subscription)
  h ← get_subscription_internal subscription_name
  pull_loop clock h (i32_as_u16 max_messages) return_immediately wakes

-- No config, or a blank endpoint, is pull mode.
abbrev requested_push_config : Option PushConfigProto → Result Status (Option PushConfig)
requested_push_config none = ok none
requested_push_config (some pc) =
    if is_empty (trim pc.push_endpoint) then ok none else map_ok some (parse_push_config pc)

unfoldable pub modify_push_config : Clock → Bytes → Option PushConfigProto → Call (Unit {0})
unfolding trim parse_push_config get_subscription_internal ask_subscription
modify_push_config clock subscription config = do
  subscription_name ← pure_step (subscription_name_argument subscription)
  requested ← pure_step (requested_push_config config)
  h ← get_subscription_internal subscription_name
  ask_subscription clock conflict h (push_config requested) subscription_succeeds

-- The target of a seek: a timestamp as the conversion to `SystemTime` gives it, `none` out of range.
pub data SeekTarget : Type 0 where
  at_time : Option ℕ → SeekTarget
  at_snapshot : SeekTarget

abbrev seek_time_of : Option SeekTarget → Result Status ℕ
seek_time_of none = err invalid_argument
seek_time_of (some (at_time t)) = ok_or t invalid_argument
seek_time_of (some at_snapshot) = err unimplemented

unfoldable seek_call : Clock → Bytes → Option SeekTarget → Call (Unit {0})
unfolding get_subscription_internal ask_subscription
seek_call clock subscription target = do
  subscription_name ← pure_step (subscription_name_argument subscription)
  h ← get_subscription_internal subscription_name
  seek_time ← pure_step (seek_time_of target)
  ask_subscription clock internal h (seek seek_time) subscription_succeeds

-- The five calls for snapshots.
abbrev snapshot_call : {A : Type 0} → Call A
snapshot_call = fail unimplemented
