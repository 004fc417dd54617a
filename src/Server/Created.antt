-- ===== src/Server/Created.antt =====
-- What the creation of a subscription does to the server, on every branch.
use deltio.Prelude.{
  Bool, Option, Option-cases, [], ap, arith, if◌then◌else◌, inl, inr, insert, is_some, lookup,
  lookup-insert, none, refl, some, sym, ℕ, ◌%◌, ◌+◌, ◌==◌, ◌^◌, ◌∙◌, ◌≡◌, nat_eq,
}
use mathlib.Core.Path.{subst}
use deltio.Results.{ok, err, Result-cases}
use deltio.Registry.{create_entry}
use deltio.Topics.Name.{subscription_name_key}
use deltio.Topics.Manager.{Topic, TopicManager}
use deltio.Topics.Actor.{TopicActor, attach_subscription}
use deltio.Topics.Actor.Receive.{receive_topic}
use deltio.Subscriptions.Info.{SubscriptionInfo}
use deltio.Subscriptions.Manager.{
  Subscription, CreateSubscriptionError, check_subscription, create_subscription_entry,
  new_subscription, SubscriptionManager,
}
use deltio.Subscriptions.Manager.CreateSubscriptionError.{already_exists}
use deltio.Subscriptions.Actor.Receive.{start}
use deltio.Server.{Server, Clock, set_topic}
use deltio.Server.Route.{call_topic}
use deltio.Server.Calls.{create_subscription, attach_created, finish_creation}
use deltio.Server.Started.{
  registry_after, settle-start, start-Fresh, attach_subscription-attaches, registry_after-pushes,
}
use deltio.Server.Creation.{Created, Refused, CreateSpec, check_subscription-Refused}

attach_created-attaches :
    (clock : Clock) (topic : Topic) (h : Subscription) (s : Server) (a : TopicActor)
    → lookup topic.internal_id s.topics ≡ some a
    → attach_created clock topic h s ≡ (
      set_topic topic.internal_id
          (record (attach_subscription h.name h.internal_id a) { signals = [] })
          s,
      ok h,
    )
unfolding attach_created call_topic receive_topic attach_subscription
attach_created-attaches clock topic h s a live = ground arith

create_subscription_entry-vacant :
    (info : SubscriptionInfo) (topic : Topic) (m : SubscriptionManager)
    → lookup info.name m.entries ≡ none
    → let id = (m.next_id + 1) % 2 ^ 32 in
      let h = new_subscription info.name topic id in
      create_subscription_entry info topic m
      ≡ (record { entries = insert info.name h m.entries; next_id = id }, ok h)
unfolding create_subscription_entry create_entry
create_subscription_entry-vacant info topic m vacant = ground arith

create_subscription_entry-taken :
    (info : SubscriptionInfo) (topic : Topic) (m : SubscriptionManager) (old : Subscription)
    → lookup info.name m.entries ≡ some old
    → create_subscription_entry info topic m ≡ (m, err already_exists)
unfolding create_subscription_entry create_entry
create_subscription_entry-taken info topic m old taken = ground arith

check_subscription-topics :
    (info : SubscriptionInfo) (topic : Topic) (topics : TopicManager) (r : Option TopicManager)
    → check_subscription info topic topics ≡ ok r
    → is_some r ≡ is_some info.dead_letter_policy
unfolding check_subscription
check_subscription-topics info topic topics r e = ground arith

-- The state after the creation.
abbrev created_server : SubscriptionInfo → Topic → TopicActor → ℕ → Bool → Server → Server
created_server info topic a id has_topics s =
    let h = new_subscription info.name topic id in
    record s {
      subscription_manager = record {
        entries = insert info.name h s.subscription_manager.entries;
        next_id = id;
      };
      subscriptions =
          insert id (record (start id info has_topics) { signals = [] }) s.subscriptions;
      push_registry = registry_after info s.push_registry;
      topics =
          insert topic.internal_id (record (attach_subscription info.name id a) { signals = [] })
            s.topics;
    }

created_server-Created :
    (info : SubscriptionInfo) (topic : Topic) (a : TopicActor) (s : Server)
    → lookup info.name s.subscription_manager.entries ≡ none
    → let id = (s.subscription_manager.next_id + 1) % 2 ^ 32 in
      Created info topic a s
        (created_server info topic a id (is_some info.dead_letter_policy) s)
        (new_subscription info.name topic id)
created_server-Created info topic a s vacant =
    let new = (s.subscription_manager.next_id + 1) % 2 ^ 32 in
    let (same, ids) = attach_subscription-attaches info.name new a in
    record {
      handle = (refl, refl, refl, refl);
      vacant = vacant;
      registered = λ name. lookup-insert info.name name _ s.subscription_manager.entries;
      started = (_, start-Fresh info new, λ id. lookup-insert new id _ s.subscriptions);
      attached = (
        _,
        ids,
        λ id.
            lookup-insert topic.internal_id id _ s.topics
            ∙ ap (λ b. if topic.internal_id == id then some b else lookup id s.topics) same,
      );
      pushed = λ name. registry_after-pushes info name s.push_registry;
      same_topics = refl;
    }

finish_creation-created :
    (clock : Clock) (info : SubscriptionInfo) (topic : Topic) (a : TopicActor) (has_topics : Bool)
    (s : Server)
    → lookup topic.internal_id s.topics ≡ some a
    → lookup info.name s.subscription_manager.entries ≡ none
    → let id = (s.subscription_manager.next_id + 1) % 2 ^ 32 in
      finish_creation clock info topic has_topics
        (create_subscription_entry info topic s.subscription_manager)
        s
      ≡ (created_server info topic a id has_topics s, ok (new_subscription info.name topic id))
unfolding finish_creation
finish_creation-created clock info topic a has_topics s live vacant =
    let m = s.subscription_manager in
    let id = (m.next_id + 1) % 2 ^ 32 in
    let h = new_subscription info.name topic id in
    let s₁ : Server = record s {
      subscription_manager = record { entries = insert info.name h m.entries; next_id = id };
    } in
    ap (λ p. finish_creation clock info topic has_topics p s)
      (create_subscription_entry-vacant info topic m vacant)
    ∙ ap (attach_created clock topic h) (settle-start clock h info has_topics s₁)
    ∙ attach_created-attaches clock topic h _ a live

Refused-unchanged :
    (clock : Clock) (info : SubscriptionInfo) (topic : Topic) (a : TopicActor) (has_topics : Bool)
    (s : Server) (e : CreateSubscriptionError)
    → Refused info topic s e
    → CreateSpec info topic a s
        (finish_creation clock info topic has_topics (s.subscription_manager, err e) s)
unfolding finish_creation
Refused-unchanged clock info topic a has_topics s e why = (refl, why)

finish_creation-CreateSpec :
    (clock : Clock) (info : SubscriptionInfo) (topic : Topic) (a : TopicActor) (s : Server)
    (r : Option TopicManager)
    → lookup topic.internal_id s.topics ≡ some a
    → is_some r ≡ is_some info.dead_letter_policy
    → CreateSpec info topic a s (
        finish_creation clock info topic
          (is_some r)
          (create_subscription_entry info topic s.subscription_manager)
          s)
finish_creation-CreateSpec clock info topic a s r live same =
    elim (Option-cases (lookup info.name s.subscription_manager.entries)) [
      | inr (old, taken) ↦
          rw (create_subscription_entry-taken info topic s.subscription_manager old taken)
            (Refused-unchanged clock info topic a (is_some r) s already_exists (old, taken))
      | inl vacant ↦
          subst (CreateSpec info topic a s)
            (sym (finish_creation-created clock info topic a (is_some r) s live vacant))
            (rw same (created_server-Created info topic a s vacant))
    ]

-- Whatever the settings, if the actor of the topic is there: a creation that fails leaves the server
-- as it was, and fails only because the name is taken, the projects differ or there is no dead-letter
-- topic. One that succeeds gives a free name to a handle with the next number, starts a fresh actor
-- with these settings under that number, and attaches the name to the topic under it, unless the
-- topic still has the name, which then keeps its number.
pub create_subscription-CreateSpec :
    (clock : Clock) (info : SubscriptionInfo) (topic : Topic) (a : TopicActor) (s : Server)
    → lookup topic.internal_id s.topics ≡ some a
    → CreateSpec info topic a s (create_subscription clock info topic s)
unfolding create_subscription
create_subscription-CreateSpec clock info topic a s live =
    elim (Result-cases (check_subscription info topic s.topic_manager)) [
      | inr (e, refused) ↦
          rw (refused, create_subscription)
            (refl, check_subscription-Refused info topic s e refused)
      | inl (r, allowed) ↦
          rw (allowed, create_subscription)
            (finish_creation-CreateSpec clock info topic a s r live
              (check_subscription-topics info topic s.topic_manager r allowed))
    ]
