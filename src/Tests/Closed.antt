-- ===== src/Tests/Closed.antt =====
-- Deleted and detached subscriptions.
use deltio.Prelude.{
  [], List, false, some, true, refl, retain, total, ℕ, ◌∷◌, ◌≡◌, nat_eq, bytes_eq_instance,
}
use deltio.Topics.Message.{TopicMessage}
use deltio.Subscriptions.Actor.{SubscriptionActor, Environment}
use deltio.Subscriptions.Actor.Post.{post_messages, accepts}
use deltio.Subscriptions.Actor.Pull.{failed, detached, pull_messages}
use deltio.Subscriptions.Actor.Requests.{detach, delete}
use deltio.Subscriptions.Actor.Receive.{
  Event, start, request, deadline_passed, post, pull, deletion,
}
use deltio.Subscriptions.Actor.Stored.{stored}
use deltio.Subscriptions.Actor.Delivery.Closed.{DeletionSpec, delete-DeletionSpec, detach-retains}
use deltio.Subscriptions.Actor.Delivery.Gone.{run_turns, delete-final}
use deltio.Tests.Samples.{plain, keyed_message, ordered, env}

abbrev waiting : SubscriptionActor
unfolding start
waiting = record (start 7 ordered false) { backlog = plain ∷ [] }

-- An environment whose topic does not answer.
abbrev silent_topic : Environment
silent_topic = record env { topic_answers = false }

delete-DeletionSpec_example : DeletionSpec silent_topic waiting (delete silent_topic waiting)
unfolding waiting start
delete-DeletionSpec_example = delete-DeletionSpec silent_topic waiting refl

detach-retains_example :
    let b = post_messages (keyed_message ∷ []) (detach waiting) in
    ((f : TopicMessage → ℕ) → stored f (detach waiting) ≡ 0)
    × ((f : TopicMessage → ℕ)
        → stored f b ≡ total f (retain (accepts waiting.compiled_filter) (keyed_message ∷ [])))
    × (pull_messages 10 0 env b ≡ (b, failed detached))
unfolding waiting start
detach-retains_example = detach-retains env 10 0 (keyed_message ∷ []) waiting refl refl

-- What follows the deletion: a post, a pull, a deadline and another deletion.
abbrev later_turns : List (Environment × Event)
later_turns =
    (env, request (post (plain ∷ keyed_message ∷ [])))
    ∷ (env, request (pull 10 0))
    ∷ (env, deadline_passed)
    ∷ (env, request deletion)
    ∷ []

delete-final_example :
    (b : SubscriptionActor) × (run_turns later_turns (delete env waiting).0 ≡ some b)
    × (b.deleted ≡ true)
    × ((f : TopicMessage → ℕ) → stored f b ≡ 0)
unfolding waiting start delete
delete-final_example = delete-final env later_turns waiting refl refl
