-- ===== src/Subscriptions/Actor/Delivery/Closed.antt =====
-- Subscriptions that are deleted or detached.
use deltio.Prelude.{
  Bool, List, Option, [], ap, arith, false, if_cases, if◌then◌else◌, is_some, none, not, refl,
  retain, some, total, true, ℕ, ◌∙◌, ◌∷◌, ◌≡◌, nat_eq, bytes_eq_instance,
}
use deltio.Topics.Message.{TopicMessage}
use deltio.Subscriptions.Info.{SubscriptionInfo}
use deltio.Subscriptions.Outstanding
use deltio.Subscriptions.Outstanding.{clear}
use deltio.Subscriptions.RetryQueue.{clear_queue}
use deltio.Subscriptions.Actor.{
  SubscriptionActor, Environment, Signal, signal, push_registry_set, deleted_sent, manager_delete,
  topic_remove_subscription,
}
use deltio.Topics.Name.{TopicName, SubscriptionName}
use deltio.Subscriptions.Actor.Post.{post_messages, post_each, accepts, enqueue}
use deltio.Subscriptions.Actor.Pull.{PullResult, failed, detached, pull_messages}
use deltio.Subscriptions.Actor.Requests.{
  Deletion, done, closed, detach, delete, clear_messages, finish_delete,
}
use deltio.Subscriptions.Actor.SameInfo.{post_messages-info}
use deltio.Subscriptions.Actor.Delivery.{post_messages-stored}
use deltio.Subscriptions.Actor.Stored.{stored, enqueue-SameHead}

-- Of a conditional, the branch of a test that holds.
then_branch {ℓ} : {A : Type ℓ} (test : Bool) (x y : A) → test ≡ true → (if test then x else y) ≡ x
then_branch true x y d = refl
then_branch false x y d = absurd (ground arith)

clear_messages-stored :
    (f : TopicMessage → ℕ) (a : SubscriptionActor) → stored f (clear_messages a) ≡ 0
unfolding clear_messages Outstanding.clear clear_queue
clear_messages-stored f a = refl

-- What is told when a subscription is gone, the latest first.
abbrev farewell : SubscriptionName → List Signal → List Signal
farewell name before = push_registry_set name none ∷ deleted_sent ∷ manager_delete name ∷ before

-- What a delete does if there is no topic, if its actor answers, and if it does not.
abbrev DeletionOutcome :
    Option TopicName → Bool → SubscriptionActor → SubscriptionActor → Deletion → Type 0
DeletionOutcome none answers a b answer =
    (answer ≡ done)
    × ((f : TopicMessage → ℕ) → stored f b ≡ 0)
    × (b.signals ≡ farewell a.info.name a.signals)
DeletionOutcome (some topic) true a b answer =
    (answer ≡ done)
    × ((f : TopicMessage → ℕ) → stored f b ≡ 0)
    × (b.signals ≡ farewell a.info.name (topic_remove_subscription a.info.name ∷ a.signals))
DeletionOutcome (some topic) false a b answer =
    (answer ≡ closed)
    × ((f : TopicMessage → ℕ) → stored f b ≡ stored f a)
    × (b.signals ≡ topic_remove_subscription a.info.name ∷ a.signals)
    × ((env : Environment) → delete env b ≡ (b, done))

abbrev pub DeletionSpec : Environment → SubscriptionActor → SubscriptionActor × Deletion → Type 0
DeletionSpec env a (b, answer) =
    (b.deleted ≡ true) × DeletionOutcome env.topic env.topic_answers a b answer

deletion_by :
    (topic : Option TopicName) (answers : Bool) (a : SubscriptionActor)
    → let marked = record a { deleted = true } in
      let removed = signal (topic_remove_subscription a.info.name) marked in
      let r : SubscriptionActor × Deletion =
        if not (is_some topic)
        then (finish_delete marked, done)
        else if answers
        then (finish_delete removed, done)
        else (removed, closed) in
      (r.0.deleted ≡ true) × DeletionOutcome topic answers a r.0 r.1
unfolding delete finish_delete clear_messages Outstanding.clear clear_queue
deletion_by none answers a = (refl, (refl, λ f. refl, refl))
deletion_by (some topic) true a = (refl, (refl, λ f. refl, refl))
deletion_by (some topic) false a = (refl, (refl, λ f. refl, refl, λ env'. refl))

-- A delete marks a subscription that is not deleted yet. If there is no topic, or its actor answers,
-- the delete is done, leaves no message, and tells the manager, the waiting streams and the push
-- registry. If the topic does not answer, the delete fails and keeps all messages, nobody but the
-- topic is told, and every later delete reports success and does nothing.
pub delete-DeletionSpec :
    (env : Environment) (a : SubscriptionActor)
    → a.deleted ≡ false
    → DeletionSpec env a (delete env a)
unfolding delete finish_delete clear_messages Outstanding.clear clear_queue
delete-DeletionSpec env a live =
    if_cases (DeletionSpec env a) a.deleted _ _ (λ d. absurd (ground arith))
      (λ _. deletion_by env.topic env.topic_answers a)

post_each-deleted :
    (ms : List TopicMessage) (a : SubscriptionActor) → (post_each ms a).deleted ≡ a.deleted
unfolding post_each
post_each-deleted [] a = refl
post_each-deleted (m ∷ ms) a =
    post_each-deleted ms _
    ∙ if_cases (λ (b : SubscriptionActor). b.deleted ≡ a.deleted) (accepts a.compiled_filter m)
        (enqueue a m) a (λ _. (enqueue-SameHead a m).same_deleted) (λ _. refl)

post_messages-deleted :
    (ms : List TopicMessage) (a : SubscriptionActor) → (post_messages ms a).deleted ≡ a.deleted
unfolding post_messages
post_messages-deleted ms a =
    if_cases (λ (b : SubscriptionActor). b.deleted ≡ a.deleted) a.deleted a _ (λ _. refl)
      (λ _. ground (arith, post_each-deleted ms a))

pull_messages-refused :
    (env : Environment) (max_count max_outstanding : ℕ) (a : SubscriptionActor)
    → a.deleted ≡ false
    → a.info.detached ≡ true
    → pull_messages max_count max_outstanding env a ≡ (a, failed detached)
unfolding pull_messages
pull_messages-refused env max_count max_outstanding a live e =
    if_cases (λ (r : SubscriptionActor × PullResult). r ≡ (a, failed detached)) a.deleted _ _
      (λ d. absurd (ground arith)) (λ _. then_branch a.info.detached (a, failed detached) _ e)

-- What a detach leaves: nothing is stored, and the filter stays.
detach-cleared :
    (a : SubscriptionActor)
    → a.deleted ≡ false
    → a.info.detached ≡ false
    → ((f : TopicMessage → ℕ) → stored f (detach a) ≡ 0)
      × ((detach a).deleted ≡ false)
      × ((detach a).info.detached ≡ true)
      × ((detach a).compiled_filter ≡ a.compiled_filter)
unfolding detach clear_messages Outstanding.clear clear_queue
detach-cleared a live attached =
    let b = clear_messages (record a { info = record (a.info) { detached = true } }) in
    if_cases
      (λ (c : SubscriptionActor).
        ((f : TopicMessage → ℕ) → stored f c ≡ 0)
        × (c.deleted ≡ false)
        × (c.info.detached ≡ true)
        × (c.compiled_filter ≡ a.compiled_filter))
      a.info.detached a b (λ e. absurd (ground arith)) (λ _. (λ f. refl, live, refl, refl))

-- A detach of a subscription that is neither deleted nor detached yet drops all its messages. But
-- what is posted next and passes the filter is stored, and no pull hands any of it out, since each
-- is refused and changes nothing.
pub detach-retains :
    (env : Environment) (max_count max_outstanding : ℕ) (ms : List TopicMessage)
    (a : SubscriptionActor)
    → a.deleted ≡ false
    → a.info.detached ≡ false
    → let b = post_messages ms (detach a) in
      ((f : TopicMessage → ℕ) → stored f (detach a) ≡ 0)
      × ((f : TopicMessage → ℕ) → stored f b ≡ total f (retain (accepts a.compiled_filter) ms))
      × (pull_messages max_count max_outstanding env b ≡ (b, failed detached))
detach-retains env max_count max_outstanding ms a live attached =
    let d = detach a in
    let (cleared, alive, cut, filtered) = detach-cleared a live attached in
    (
      cleared,
      λ f. omega (
        arith,
        post_messages-stored ms d alive f,
        cleared f,
        ap (λ c. total f (retain (accepts c) ms)) filtered,
      ),
      pull_messages-refused env max_count max_outstanding (post_messages ms d)
          (post_messages-deleted ms d ∙ alive)
          (ap (λ (i : SubscriptionInfo). i.detached) (post_messages-info ms d) ∙ cut),
    )
