-- ===== src/Api/Subscriber/Info.antt =====
-- The settings that `create_subscription` reads from its request.
use deltio.Prelude.{Bytes, Option, false, if◌then◌else◌, is_empty, none, some, nat_eq}
use deltio.Results.{Result, ok, err, transpose_map, ◌>>=◌}
use deltio.Subscriptions.Info.{SubscriptionInfo}
use deltio.Subscriptions.Filter.Lexer
use deltio.Subscriptions.Filter.Parser.{parse}
use deltio.Api.Proto.{Status, invalid_argument, SubscriptionProto}
use deltio.Api.Text.{trim}
use deltio.Api.Parser.Fields.{
  subscription_name_argument, parse_create_ack_deadline, parse_push_config, parse_retry_policy,
  parse_dead_letter_policy, parse_message_retention_duration,
}

-- A filter that is not empty has to parse; it is kept as text.
pub parse_filter : Bytes → Result Status (Option Bytes)
unfolding trim parse
parse_filter raw =
    let f = trim raw in
    if is_empty f
    then ok none
    else elim (parse f) [ Lexer.ok e ↦ ok (some f) | _ ↦ err invalid_argument ]

unfoldable pub parse_subscription_info : SubscriptionProto → Result Status SubscriptionInfo
unfolding parse_filter
parse_subscription_info request = subscription_name_argument request.name >>= λ subscription_name.
    transpose_map parse_push_config request.push_config >>= λ push_config.
    transpose_map parse_retry_policy request.retry_policy >>= λ retry_policy.
    transpose_map parse_dead_letter_policy request.dead_letter_policy >>= λ dead_letter_policy.
    transpose_map parse_message_retention_duration request.message_retention_duration
    >>= λ retention. parse_filter request.filter >>= λ filter. ok (record {
      name = subscription_name;
      ack_deadline = parse_create_ack_deadline request.ack_deadline_seconds;
      push_config = push_config;
      retry_policy = retry_policy;
      dead_letter_policy = dead_letter_policy;
      message_retention_duration = retention;
      enable_message_ordering = request.enable_message_ordering;
      enable_exactly_once_delivery = request.enable_exactly_once_delivery;
      filter = filter;
      detached = false;
    })
