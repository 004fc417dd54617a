-- ===== src/Tests/Api.antt =====
-- Requests of the API at concrete inputs.
use deltio.Prelude.{
  Bytes, List, [], arith, codes, false, insert, is_empty, lookup, none, pos, refl, some, true, ℤ,
  ◌∷◌, ◌≡◌, nat_eq,
}
use deltio.Results.{ok}
use deltio.Text.Decimal.{decimal}
use deltio.Paging.{new_paging}
use deltio.Subscriptions.Info.{SubscriptionUpdate}
use deltio.Subscriptions.Manager.{Subscription, new_subscription}
use deltio.Topics.Manager.{new_topic}
use deltio.Server.{Server, Clock, new_server, set_subscription}
use deltio.Api.Proto.{SubscriptionProto}
use deltio.Api.Parser.Base64.{Base64}
use deltio.Api.Parser.Fields.{parse_create_ack_deadline, parse_ack_id, parse_deadline_modifications}
use deltio.Api.Parser.Bounds.{parse_ack_id-decimal}
use deltio.Api.Parser.Tokens.{next_page_token, parse_paging, parse_paging-next_page_token}
use deltio.Api.Parser.Updates.{
  parse_subscription_update, no_update, retry_policy_path, exactly_once_path,
}
use deltio.Api.Parser.Masks.{Masks}
use deltio.Api.Parser.Masks.Update.{AllUpdatable, parse_subscription_update-Masks}
use deltio.Api.Subscriber.Confirm.{Confirmation, handle_acks, handle_modifications}
use deltio.Api.Subscriber.Confirmed.{Confirms, handle_acks-Confirms}
use deltio.Api.Subscriber.Modified.{ModifiedSpec, handle_modifications-ModifiedSpec}
use deltio.Tests.Samples.{name}
use deltio.Tests.Delivery.{busy, busy-live}

parse_ack_id-decimal_example : parse_ack_id (decimal 1_234) ≡ ok 1_234
parse_ack_id-decimal_example = parse_ack_id-decimal 1_234 (omega arith)

-- A codec that keeps the bytes.
instance plain_bytes : Base64
plain_bytes = record {
  encode = λ s. s;
  decode = λ s. some s;
  decode-encode = λ s. refl;
  encode-is_empty = λ s. refl;
}

parse_paging-next_page_token_example :
    parse_paging (pos 10) (next_page_token (some 1_000)) ≡ ok (new_paging 10 (some 1_000))
parse_paging-next_page_token_example =
    parse_paging-next_page_token 10 (some 1_000) (λ n e. ground arith)

abbrev wanted : SubscriptionProto
wanted = record {
  name = codes "projects/p/subscriptions/orders";
  topic = codes "projects/p/topics/t";
  push_config = none;
  ack_deadline_seconds = pos 30;
  message_retention_duration = none;
  enable_message_ordering = true;
  filter = [];
  dead_letter_policy = none;
  retry_policy = none;
  detached = false;
  enable_exactly_once_delivery = true;
}

abbrev mask : List Bytes
mask = retry_policy_path ∷ exactly_once_path ∷ []

abbrev updated : SubscriptionUpdate
updated = record no_update { retry_policy = some none; enable_exactly_once_delivery = some true }

mask_parses : parse_subscription_update wanted mask ≡ ok updated
unfolding parse_subscription_update
mask_parses = refl

parse_subscription_update-Masks_example :
    (is_empty mask ≡ false) × AllUpdatable mask × Masks wanted mask no_update updated
parse_subscription_update-Masks_example =
    parse_subscription_update-Masks wanted mask updated mask_parses

abbrev clock : Clock
clock = record { now = 1_000; system_now = 500 }

abbrev subscription : Subscription
subscription =
    new_subscription name (new_topic (record { project_id = codes "p"; topic_id = codes "t" }) 2) 2

abbrev running : Server
running = set_subscription 2 busy new_server

runs : lookup 2 running.subscriptions ≡ some busy
unfolding lookup insert
runs = refl

-- An outstanding ack ID, one that is not, and no ack ID.
abbrev raws : List Bytes
raws = codes "1" ∷ codes "77" ∷ codes "x" ∷ []

handle_acks-Confirms_example :
    (c : Confirmation) × ((handle_acks clock subscription true raws running).1 ≡ ok (some c))
    × Confirms busy.outstanding raws c
handle_acks-Confirms_example =
    handle_acks-Confirms clock subscription raws running busy refl runs busy-live

abbrev seconds : List ℤ
seconds = pos 0 ∷ pos 10 ∷ pos 10 ∷ []

handle_modifications-ModifiedSpec_example :
    (c : Confirmation) × ((handle_modifications clock subscription true raws seconds running).1
      ≡ ok (some c))
    × ModifiedSpec busy.outstanding raws (parse_deadline_modifications 1_000 raws seconds) c
handle_modifications-ModifiedSpec_example =
    handle_modifications-ModifiedSpec clock subscription raws seconds running busy refl refl runs
      busy-live

-- A deadline above the documented maximum of ten minutes is taken as it is.
no_maximum : parse_create_ack_deadline (pos 700) ≡ 700_000_000_000
unfolding parse_create_ack_deadline
no_maximum = refl
