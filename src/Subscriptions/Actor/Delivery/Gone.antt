-- ===== src/Subscriptions/Actor/Delivery/Gone.antt =====
-- What can still happen to a subscription once it is deleted.
use deltio.Prelude.{
  Bool, List, Option, [], ap, arith, false, if_cases, if◌then◌else◌, none, refl, some, true, ◌>>=◌,
  ◌∙◌, ◌∷◌, ◌≡◌, nat_eq, ℕ, is_some, not,
}
use deltio.Topics.Message.{TopicMessage}
use deltio.Subscriptions.Info.{AckOutcome}
use deltio.Subscriptions.Outstanding
use deltio.Subscriptions.Outstanding.{take_expired, take_loop, clear}
use deltio.Subscriptions.RetryQueue.{take_ready, ready_loop, clear_queue}
use deltio.Subscriptions.Actor.{SubscriptionActor, Environment}
use deltio.Subscriptions.Actor.Post.{post_messages}
use deltio.Subscriptions.Actor.Pull.{PullResult, pull_messages}
use deltio.Subscriptions.Actor.Requests.{
  Deletion, done, acknowledge_messages, modify_deadline, seek_to_time, detach, delete, update_info,
  modify_push_config, clear_messages, finish_delete,
}
use deltio.Subscriptions.Actor.Receive.{
  Request, Event, request, deadline_passed, backoff_elapsed, post, get_info, update, pull,
  acknowledge, modify, deletion, detachment, push_config, stats, seek, receive, step, retry,
}
use deltio.Subscriptions.Actor.Stored.{stored}

-- Deleted, with nothing in any queue.
record Gone (a : SubscriptionActor) : Type 0 where
  pub deleted : a.deleted ≡ true
  pub queues : (a.backlog ≡ []) × (a.ordered_queues ≡ [])
  pub tracked : (a.outstanding.messages ≡ []) × (a.outstanding.expirations ≡ [])
  pub retried : (a.retry_queue.messages ≡ []) × (a.retry_queue.schedule ≡ [])

-- Of a conditional whose test holds, the first branch.
stays {ℓ κ} :
    {A : Type ℓ} (P : A → Type κ) (test : Bool) (x y : A)
    → test ≡ true
    → P x
    → P (if test then x else y)
stays P true x y e p = p
stays P false x y e p = absurd (ground arith)

clear_messages-Gone : (a : SubscriptionActor) → a.deleted ≡ true → Gone (clear_messages a)
unfolding clear_messages Outstanding.clear clear_queue
clear_messages-Gone a d = record {
  deleted = d;
  queues = (refl, refl);
  tracked = (refl, refl);
  retried = (refl, refl);
}

-- What the settings and the signals are does not matter.
regone :
    (a b : SubscriptionActor)
    → b.deleted ≡ a.deleted
    → (b.backlog ≡ a.backlog) × (b.ordered_queues ≡ a.ordered_queues)
    → b.outstanding ≡ a.outstanding
    → b.retry_queue ≡ a.retry_queue
    → Gone a
    → Gone b
regone a b d q t r g = record {
  deleted = d ∙ g.deleted;
  queues = (q.0 ∙ g.queues.0, q.1 ∙ g.queues.1);
  tracked = (ap (λ x. x.messages) t ∙ g.tracked.0, ap (λ x. x.expirations) t ∙ g.tracked.1);
  retried = (ap (λ x. x.messages) r ∙ g.retried.0, ap (λ x. x.schedule) r ∙ g.retried.1);
}

receive-Gone :
    (env : Environment) (r : Request) (a : SubscriptionActor) → Gone a → Gone (receive env r a).0
unfolding receive post_messages pull_messages acknowledge_messages modify_deadline delete
    seek_to_time update_info modify_push_config detach
receive-Gone env (post ms) a g = stays Gone a.deleted a _ g.deleted g
receive-Gone env get_info a g = g
receive-Gone env (update u) a g = regone a (update_info u a) refl (refl, refl) refl refl g
receive-Gone env (pull n m) a g =
    stays (λ (r : SubscriptionActor × PullResult). Gone r.0) a.deleted _ _ g.deleted g
receive-Gone env (acknowledge ids) a g =
    stays (λ (r : SubscriptionActor × AckOutcome). Gone r.0) a.deleted _ _ g.deleted g
receive-Gone env (modify cs) a g =
    stays (λ (r : SubscriptionActor × AckOutcome). Gone r.0) a.deleted _ _ g.deleted g
receive-Gone env deletion a g =
    stays (λ (r : SubscriptionActor × Deletion). Gone r.0) a.deleted _ _ g.deleted g
receive-Gone env detachment a g =
    if_cases Gone a.info.detached a _ (λ _. g)
      (λ _. clear_messages-Gone (record a { info = record (a.info) { detached = true } }) g.deleted)
receive-Gone env (push_config c) a g =
    regone a (modify_push_config c a) refl (refl, refl) refl refl g
receive-Gone env stats a g = g
receive-Gone env (seek time) a g = stays Gone a.deleted a _ g.deleted g

-- A subscription that is gone has no deadline and no backoff to wait for.
GoneAfter : Option SubscriptionActor → Type 0
GoneAfter none = true ≡ false
GoneAfter (some b) = Gone b

step-Gone :
    (env : Environment) (ev : Event) (a : SubscriptionActor) → Gone a → GoneAfter (step env ev a)
unfolding GoneAfter step retry take_expired take_ready take_loop ready_loop
step-Gone env (request r) a g = receive-Gone env r a g
step-Gone env deadline_passed a g = rw (g.tracked.1) record {
  deleted = g.deleted;
  queues = g.queues;
  tracked = (g.tracked.0, refl);
  retried = g.retried;
}
step-Gone env backoff_elapsed a g =
    rw (g.retried.1, retry)
      record {
        deleted = g.deleted;
        queues = g.queues;
        tracked = g.tracked;
        retried = (g.retried.0, refl);
      }

-- The turns that the loop takes, in order.
abbrev pub run_turns : List (Environment × Event) → SubscriptionActor → Option SubscriptionActor
run_turns [] a = some a
run_turns ((env, ev) ∷ rest) a = step env ev a >>= λ b. run_turns rest b

run_after :
    (rest : List (Environment × Event)) (next : Option SubscriptionActor)
    → GoneAfter next
    → ((c : SubscriptionActor)
        → Gone c
        → (b : SubscriptionActor) × (run_turns rest c ≡ some b) × Gone b)
    → (b : SubscriptionActor) × ((next >>= λ c. run_turns rest c) ≡ some b) × Gone b
unfolding GoneAfter
run_after rest none e go = absurd (ground arith)
run_after rest (some c) g go = go c g

run-Gone :
    (events : List (Environment × Event)) (a : SubscriptionActor)
    → Gone a
    → (b : SubscriptionActor) × (run_turns events a ≡ some b) × Gone b
run-Gone [] a g = (a, refl, g)
run-Gone ((env, ev) ∷ rest) a g =
    run_after rest (step env ev a) (step-Gone env ev a g) (λ c h. run-Gone rest c h)

Gone-stored : (f : TopicMessage → ℕ) (a : SubscriptionActor) → Gone a → stored f a ≡ 0
Gone-stored f a g = rw (g.queues.0, g.queues.1, g.tracked.0, g.retried.0) refl

finish_delete-Gone : (a : SubscriptionActor) → a.deleted ≡ true → Gone (finish_delete a)
unfolding finish_delete clear_messages Outstanding.clear clear_queue
finish_delete-Gone a d = record {
  deleted = d;
  queues = (refl, refl);
  tracked = (refl, refl);
  retried = (refl, refl);
}

delete-done :
    (env : Environment) (a : SubscriptionActor)
    → a.deleted ≡ false
    → (delete env a).1 ≡ done
    → Gone (delete env a).0
unfolding delete
delete-done env a live =
    let P = (λ (r : SubscriptionActor × Deletion). r.1 ≡ done → Gone r.0) in
    if_cases P a.deleted _ _ (λ d. absurd (ground arith))
      (λ _.
        if_cases P (not (is_some env.topic)) _ _ (λ _ _. finish_delete-Gone _ refl)
          (λ _.
            if_cases P env.topic_answers _ _ (λ _ _. finish_delete-Gone _ refl)
              (λ _ e. absurd (ground arith))))

-- Once a delete of a subscription that is not deleted yet is done, whatever requests, deadlines and
-- backoffs follow, at whatever times, every turn of the loop is defined and the subscription stays
-- deleted with no message in any queue, whatever is posted to it.
pub delete-final :
    (env : Environment) (events : List (Environment × Event)) (a : SubscriptionActor)
    → a.deleted ≡ false
    → (delete env a).1 ≡ done
    → (b : SubscriptionActor) × (run_turns events (delete env a).0 ≡ some b)
      × (b.deleted ≡ true)
      × ((f : TopicMessage → ℕ) → stored f b ≡ 0)
delete-final env events a live answered =
    let (b, ran, g) = run-Gone events (delete env a).0 (delete-done env a live answered) in
    (b, ran, g.deleted, λ f. Gone-stored f b g)
