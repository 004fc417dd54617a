-- ===== src/Push/Loop.antt =====
-- src/push/push_loop.rs: the dispatch of pulled messages to the push endpoint. The HTTP client is
-- third-party: what it answers and how long it takes are given with each dispatch.
use deltio.Prelude.{
  Bool, Bytes, List, Option, [], codes, false, min, none, some, true, ℕ, ◌*◌, ◌==◌, ◌||◌, ◌∷◌,
  nat_eq,
}
use deltio.Results.{ok, err}
use deltio.Text.Decimal.{decimal}
use deltio.Topics.Name.{SubscriptionName, show_subscription_name}
use deltio.Topics.Message.{TopicMessage, Attributes}
use deltio.Subscriptions.Info.{PushConfig}
use deltio.Subscriptions.Pulled.{PulledMessage, nack}
use deltio.Subscriptions.Manager.{Subscription, get_subscription}
use deltio.Subscriptions.Actor.Pull.{pulled}
use deltio.Subscriptions.Actor.Receive.{Response, pull, acknowledge, modify, pulls}
use deltio.Server.{Server, Clock}
use deltio.Server.Calls.{call_subscription}
use deltio.Push.{entries}
use deltio.Push.Metrics.{PushMetrics, record_dispatch}
use deltio.Api.Parser.Base64.{Base64}

-- The status code of the endpoint, if the request could be sent, and the duration.
pub record Delivery : Type 0 where
  pub status : Option ℕ
  pub duration : ℕ
  pub clock : Clock

-- The payload, before it is written as JSON.
record PushPayload : Type 0 where
  pub subscription : Bytes
  pub payload : Bytes
  pub message_id : Bytes
  pub attributes : Attributes
  pub publish_time : Bytes

encode_message_payload : ⦃b : Base64⦄ → Subscription → TopicMessage → PushPayload
unfolding decimal
encode_message_payload ⦃b⦄ h m = record {
  subscription = show_subscription_name h.name;
  payload = b.encode m.payload;
  message_id = decimal m.id;
  attributes = [];
  publish_time = codes "2000-01-01T12:00:00Z";
}

abbrev is_success : Option ℕ → Bool
is_success none = false
is_success (some status) =
    status == 102 || status == 200 || status == 201 || status == 202 || status == 204

-- The state of the loop: the server, the counters, and the requests that were sent, the latest first.
record PushState : Type 0 where
  pub server : Server
  pub metrics : PushMetrics
  pub sent : List (Bytes × PushPayload)

-- Success acks the message, and anything else nacks it; whether that worked is ignored.
settle_dispatch : Clock → Subscription → ℕ → Bool → Server → Server
unfolding call_subscription
settle_dispatch clock h ack_id true s = (call_subscription clock h (acknowledge (ack_id ∷ [])) s).0
settle_dispatch clock h ack_id false s = (call_subscription clock h (modify (nack ack_id ∷ [])) s).0

module _ ⦃b : Base64⦄ where
  dispatch_message : Subscription → PushConfig → PulledMessage → Delivery → PushState → PushState
  unfolding encode_message_payload record_dispatch settle_dispatch
  dispatch_message h config m d p =
      let success = is_success d.status in
      record {
        server = settle_dispatch d.clock h m.ack_id success p.server;
        metrics = record_dispatch success d.duration p.metrics;
        sent = (config.endpoint, encode_message_payload h m.message) ∷ p.sent;
      }

  -- The messages of a batch, each with what the endpoint will answer; they overlap in time, and this
  -- is the order in which the answers come.
  dispatch_all :
      Subscription → PushConfig → List PulledMessage → List Delivery → PushState → PushState
  unfolding dispatch_message
  dispatch_all h config [] ds p = p
  dispatch_all h config (m ∷ ms) [] p = p
  dispatch_all h config (m ∷ ms) (d ∷ ds) p =
      dispatch_all h config ms ds (dispatch_message h config m d p)

  abbrev batch_size : ℕ → ℕ
  batch_size max_concurrency = min (max_concurrency * 2) 1000

  abbrev dispatch_page :
      Subscription → PushConfig → List Delivery → PushState → Option Response → PushState
  dispatch_page h config ds p (some (pulls (pulled ms))) = dispatch_all h config ms ds p
  dispatch_page h config ds p _ = p

  pull_and_dispatch_messages :
      Clock → ℕ → Subscription → PushConfig → List Delivery → PushState → PushState
  unfolding call_subscription dispatch_all
  pull_and_dispatch_messages clock max_concurrency h config ds p =
      let (s, response) =
        call_subscription clock h (pull (batch_size max_concurrency) 0) p.server in
      dispatch_page h config ds (record p { server = s }) response

  abbrev push_entry :
      Clock → ℕ → List Delivery → SubscriptionName × PushConfig → PushState → PushState
  push_entry clock max_concurrency ds (name, config) p =
      elim (get_subscription name p.server.subscription_manager) [
        | ok h ↦ pull_and_dispatch_messages clock max_concurrency h config ds p
        | err e ↦ p
      ]

  -- One round over the entries of the registry; a subscription that is gone is passed over.
  unfoldable push_round :
      Clock
      → ℕ
      → (SubscriptionName → List Delivery)
      → List (SubscriptionName × PushConfig)
      → PushState
      → PushState
  unfolding get_subscription pull_and_dispatch_messages
  push_round clock max_concurrency ds [] p = p
  push_round clock max_concurrency ds ((name, config) ∷ entries) p =
      push_round clock max_concurrency ds entries
        (push_entry clock max_concurrency (ds name) (name, config) p)
