-- ===== src/Api/Call.antt =====
-- A handler of a request: it works on the server, and answers or fails with a status. What it did
-- before it fails stays done.
use deltio.Prelude.{List, Option, [], ap, none, some, ◌∷◌, ◌≡◌, nat_eq}
use deltio.Results.{Result, ok, err, map_err, ok_or, ok-injective}
use deltio.Topics.Manager.{Topic, get_topic, GetTopicError, get_closed}
use deltio.Topics.Manager.GetTopicError.{does_not_exist}
use deltio.Topics.Name.{TopicName, SubscriptionName}
use deltio.Topics.Actor.Receive.{TopicRequest, TopicResponse}
use deltio.Subscriptions.Manager.{Subscription, GetSubscriptionError, get_subscription}
use deltio.Subscriptions.Info.{SubscriptionInfo}
use deltio.Subscriptions.Actor.Receive.{Request, Response, succeeds, info_is}
use deltio.Server.{Server, Clock}
use deltio.Server.Route.{call_topic}
use deltio.Server.Calls.{call_subscription}
use deltio.Api.Proto.{Status, not_found, failed_precondition, internal}

abbrev pub Call : Type 0 → Type 0
Call A = Server → Server × Result Status A

infixl 5 ◌>>=◌ ◌>>◌
abbrev pub ◌>>=◌ : {A B : Type 0} → Call A → (A → Call B) → Call B
◌>>=◌ m f s = let (s', r) = m s in elim r [ ok a ↦ f a s' | err e ↦ (s', err e) ]

abbrev pub ◌>>◌ : {A B : Type 0} → Call A → Call B → Call B
m >> k = m >>= λ _. k

abbrev pub return : {A : Type 0} → A → Call A
return a s = (s, ok a)

abbrev pub fail : {A : Type 0} → Status → Call A
fail e s = (s, err e)

-- A step that does not touch the server.
abbrev pub pure_step : {A : Type 0} → Result Status A → Call A
pure_step r s = (s, r)

-- A resource that is gone, or no longer accepts requests.
abbrev pub conflict : Status
conflict = failed_precondition

-- A call of a mailbox whose error is mapped to a status; any other answer than the one that the
-- request has is not possible.
abbrev pub answer_or :
    {A B : Type 0} → Status → (A → Option B) → Server × Option A → Server × Result Status B
answer_or e f (s, none) = (s, err e)
answer_or e f (s, some a) = (s, ok_or (f a) e)

-- A lookup whose failure is not found, or another status if the manager is closed.
unfoldable pub find_topic : Status → TopicName → Call Topic
unfolding get_topic
find_topic if_closed name s = (s, map_err status (get_topic name s.topic_manager))
  where
    status : GetTopicError → Status
    status does_not_exist = not_found
    status get_closed = if_closed

unfoldable pub find_subscription : Status → SubscriptionName → Call Subscription
unfolding get_subscription
find_subscription if_closed name s =
    (s, map_err status (get_subscription name s.subscription_manager))
  where
    status : GetSubscriptionError → Status
    status GetSubscriptionError.does_not_exist = not_found
    status GetSubscriptionError.get_closed = if_closed

unfoldable pub get_topic_internal : TopicName → Call Topic
unfolding find_topic
get_topic_internal name = find_topic internal name

-- `get_subscription` of the subscriber service.
unfoldable pub get_subscription_internal : SubscriptionName → Call Subscription
unfolding find_subscription
get_subscription_internal name = find_subscription internal name

unfoldable pub ask_topic :
    {A : Type 0} → Clock → Status → Topic → TopicRequest → (TopicResponse → Option A) → Call A
unfolding call_topic
ask_topic clock e t request f s = answer_or e f (call_topic clock t.internal_id request s)

unfoldable pub ask_subscription :
    {A : Type 0} → Clock → Status → Subscription → Request → (Response → Option A) → Call A
unfolding call_subscription
ask_subscription clock e h request f s = answer_or e f (call_subscription clock h request s)

-- `try_join_all` of calls that read: the answers in order, or the first failure.
unfoldable pub join_all : {A B : Type 0} → (A → Call B) → List A → Call (List B)
join_all f [] = return []
join_all f (x ∷ xs) = let rest = join_all f xs in do b ← f x; bs ← rest; return (b ∷ bs)

abbrev pub subscription_succeeds : Response → Option (Unit {0})
subscription_succeeds succeeds = some tt
subscription_succeeds _ = none

abbrev pub info_of : Response → Option SubscriptionInfo
info_of (info_is info) = some info
info_of _ = none

-- A step of a handler that succeeds.
pub >>=-ok :
    {A B : Type 0} (m : Call A) (f : A → Call B) (s : Server) (a : A)
    → (m s).1 ≡ ok a
    → (m >>= f) s ≡ f a (m s).0
>>=-ok {A} {B} m f s a h = bound (m s) h
  where
    bound :
        (p : Server × Result Status A)
        → p.1 ≡ ok a
        → elim p.1 as (λ _. Server × Result Status B) [ ok b ↦ f b p.0 | err e ↦ (p.0, err e) ]
          ≡ f a p.0
    bound (s', ok b) h' = ap (λ x. f x s') (ok-injective b a h')
    bound (s', err e) h' = absurd (cc)
