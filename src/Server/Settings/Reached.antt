-- ===== src/Server/Settings/Reached.antt =====
-- The settings of the subscriptions of every server that the calls and turns lead to.
use deltio.Prelude.{
  Bool, Option, Option-cases, arith, inl, inr, is_some, lookup, none, some, ℕ, ◌≡◌, nat_eq,
}
use mathlib.Core.Path.{subst}
use deltio.Results.{Result, ok, err, Result-cases}
use deltio.Topics.Name.{subscription_name_key}
use deltio.Topics.Manager
use deltio.Topics.Manager.{Topic, get_topic}
use deltio.Topics.Actor.{TopicInfo}
use deltio.Topics.Actor.Receive.{TopicRequest, attach}
use deltio.Subscriptions.Info.{SubscriptionInfo}
use deltio.Subscriptions.Manager.{
  Subscription, CreateSubscriptionError, SubscriptionManager, check_subscription,
  create_subscription_entry,
}
use deltio.Subscriptions.Actor.Receive.{Request, Event, receive, start, step}
use deltio.Api.Proto.{SubscriptionProto}
use deltio.Api.Parser.Bounds.{SettingsInBounds}
use deltio.Api.Subscriber.Info.{parse_subscription_info}
use deltio.Api.Subscriber.Settings.{parse_subscription_info-SettingsInBounds}
use deltio.Server.{Server, Clock, new_server}
use deltio.Server.Route.{call_topic}
use deltio.Server.Calls.{
  environment, call_subscription, turn, create_topic, attach_created, finish_creation,
  create_subscription,
}
use deltio.Server.Settings.Turned.{IsParsed, IsParsedEvent, receive-valid, step-valid}
use deltio.Server.Settings.{ValidAt, AllInBounds, found, same_info, call_topic-valid, settle-valid}

-- The servers that the calls of the API and the turns of the actors lead to.
pub data Reach : Server → Type 0 where
  starts : Reach new_server
  calls_topic :
      (clock : Clock) (id : ℕ) (r : TopicRequest) (s : Server)
      → Reach s
      → Reach (call_topic clock id r s).0
  calls_subscription :
      (clock : Clock) (h : Subscription) (r : Request) (s : Server)
      → IsParsed r
      → Reach s
      → Reach (call_subscription clock h r s).0
  turns :
      (clock : Clock) (h : Subscription) (e : Event) (s s' : Server)
      → IsParsedEvent e
      → turn clock h e s ≡ some s'
      → Reach s
      → Reach s'
  creates_topic : (info : TopicInfo) (s : Server) → Reach s → Reach (create_topic info s).0
  creates_subscription :
      (clock : Clock) (p : SubscriptionProto) (info : SubscriptionInfo) (topic : Topic) (s : Server)
      → parse_subscription_info p ≡ ok info
      → Reach s
      → Reach (create_subscription clock info topic s).0

call_subscription-valid :
    (clock : Clock) (h : Subscription) (r : Request) (s : Server)
    → IsParsed r
    → AllInBounds s
    → AllInBounds (call_subscription clock h r s).0
unfolding call_subscription
call_subscription-valid clock h r s p v =
    elim (Option-cases (lookup h.internal_id s.subscriptions)) [
      | inl e ↦ rw (e, call_subscription) v
      | inr (a, e) ↦
          rw (e, call_subscription)
            (settle-valid clock h (receive (environment clock h a s) r a).0 s
              (receive-valid (environment clock h a s) r a p (found h.internal_id a s v e)) v)
    ]

abbrev ValidAfter : Option Server → Type 0
ValidAfter none = Unit
ValidAfter (some s) = AllInBounds s

turn-valid :
    (clock : Clock) (h : Subscription) (event : Event) (s : Server)
    → IsParsedEvent event
    → AllInBounds s
    → ValidAfter (turn clock h event s)
unfolding turn
turn-valid clock h event s p v = elim (Option-cases (lookup h.internal_id s.subscriptions)) [
  | inl e ↦ rw (e, turn) v
  | inr (a, e) ↦ elim (Option-cases (step (environment clock h a s) event a)) [
    | inl e' ↦ rw (e, e', turn) tt
    | inr (a', e') ↦
        rw (e, e', turn)
          (settle-valid clock h a' s
            (subst ValidAt e'
              (step-valid (environment clock h a s) event a p (found h.internal_id a s v e)))
            v)
  ]
]

create_topic-valid :
    (info : TopicInfo) (s : Server) → AllInBounds s → AllInBounds (create_topic info s).0
unfolding create_topic
create_topic-valid info s v = elim (Result-cases (Manager.create_topic info s.topic_manager).1) [
  | inl (t, e) ↦ rw (e, create_topic) v
  | inr (x, e) ↦ rw (e, create_topic) v
]

start_info : (id : ℕ) (info : SubscriptionInfo) (b : Bool) → (start id info b).info ≡ info
unfolding start
start_info id info b = ground arith

attach_created-valid :
    (clock : Clock) (topic : Topic) (h : Subscription) (s : Server)
    → AllInBounds s
    → AllInBounds (attach_created clock topic h s).0
unfolding attach_created
attach_created-valid clock topic h s v =
    let attached = call_topic clock topic.internal_id (attach h.name h.internal_id) s in
    let done = call_topic-valid clock topic.internal_id (attach h.name h.internal_id) s v in
    elim (Option-cases attached.1) [
      | inl e ↦ rw (e, attach_created) done
      | inr (r, e) ↦ rw (e, attach_created) done
    ]

finish_creation-valid :
    (clock : Clock) (info : SubscriptionInfo) (topic : Topic) (b : Bool)
    (made : SubscriptionManager × Result CreateSubscriptionError Subscription) (s : Server)
    → SettingsInBounds info
    → AllInBounds s
    → AllInBounds (finish_creation clock info topic b made s).0
unfolding finish_creation
finish_creation-valid clock info topic b (manager, err e) s valid v = v
finish_creation-valid clock info topic b (manager, ok h) s valid v =
    attach_created-valid clock topic h _ (
      settle-valid clock h (start h.internal_id info b)
        (record s { subscription_manager = manager })
        (same_info info _ (start_info h.internal_id info b) valid) v)

create_subscription-valid :
    (clock : Clock) (info : SubscriptionInfo) (topic : Topic) (s : Server)
    → SettingsInBounds info
    → AllInBounds s
    → AllInBounds (create_subscription clock info topic s).0
unfolding create_subscription
create_subscription-valid clock info topic s valid v =
    elim (Result-cases (check_subscription info topic s.topic_manager)) [
      | inl (b, e) ↦
          rw (e, create_subscription)
            (finish_creation-valid clock info topic (is_some b)
              (create_subscription_entry info topic s.subscription_manager) s valid v)
      | inr (x, e) ↦ rw (e, create_subscription) v
    ]

-- Whatever calls and turns led to a server, every subscription that runs on it has settings within
-- the bounds that the parsers enforce, given that its settings and their updates come from
-- requests that were parsed: the deadline is ten seconds at least, the backoffs are in order and
-- ten minutes at most, the attempts are between 5 and 100, and the retention is between ten
-- minutes and seven days. These bounds have no maximum of the deadline.
pub Reach-AllInBounds : (s : Server) → Reach s → AllInBounds s
unfolding lookup
Reach-AllInBounds s starts = λ id. tt
Reach-AllInBounds s (calls_topic clock id r s₀ before) =
    call_topic-valid clock id r s₀ (Reach-AllInBounds s₀ before)
Reach-AllInBounds s (calls_subscription clock h r s₀ p before) =
    call_subscription-valid clock h r s₀ p (Reach-AllInBounds s₀ before)
Reach-AllInBounds s (turns clock h e s₀ s' p t before) =
    subst ValidAfter t (turn-valid clock h e s₀ p (Reach-AllInBounds s₀ before))
Reach-AllInBounds s (creates_topic info s₀ before) =
    create_topic-valid info s₀ (Reach-AllInBounds s₀ before)
Reach-AllInBounds s (creates_subscription clock p info topic s₀ e before) =
    create_subscription-valid clock info topic s₀
      (parse_subscription_info-SettingsInBounds p info e) (Reach-AllInBounds s₀ before)
