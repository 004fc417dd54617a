-- ===== src/Subscriptions/Actor/Delivery/AtLeastOnce.antt =====
-- At-least-once delivery: which events can take a message from a subscription at all.
use deltio.Prelude.{ap, arith, some, sym, ℕ, ◌∙◌, ◌≡◌, nat_eq, bytes_eq_instance}
use mathlib.Core.Path.{subst}
use mathlib.Core.Option.{some-injective}
use deltio.Subscriptions.Outstanding.Expiry.{take_expired-Expires}
use deltio.Subscriptions.Actor.{SubscriptionActor, Environment}
use deltio.Subscriptions.Actor.Pull.{PullResult, pulled, failed, pull_messages}
use deltio.Subscriptions.Actor.Requests.{update_info, modify_push_config}
use deltio.Subscriptions.Actor.Receive.{
  Request, post, get_info, update, pull, acknowledge, modify, deletion, detachment, push_config,
  stats, seek, receive, Event, request, deadline_passed, backoff_elapsed, expire, retry, step,
}
use deltio.Subscriptions.Actor.Invariant.{Inv}
use deltio.Subscriptions.Actor.Invariant.Reach.{Room, IsWordEvent, pull_capacity-le}
use deltio.Subscriptions.Actor.Delivery.Pull.{PullSpec, pull_messages-PullSpec}
use deltio.Subscriptions.Actor.Delivery.Timers.{expire-Keeps, retry-Keeps}
use deltio.Subscriptions.Actor.Delivery.Conserves.{Keeps, modify_deadline-Keeps}

-- The events that neither add messages nor take them away on purpose.
abbrev IsGentleRequest : Request → Type 0
IsGentleRequest (post ms) = ⊥
IsGentleRequest (acknowledge ids) = ⊥
IsGentleRequest deletion = ⊥
IsGentleRequest detachment = ⊥
IsGentleRequest (seek time) = ⊥
IsGentleRequest _ = Unit

abbrev IsGentle : Event → Type 0
IsGentle (request r) = IsGentleRequest r
IsGentle deadline_passed = Unit
IsGentle backoff_elapsed = Unit

same-Keeps : (a : SubscriptionActor) → Keeps a (λ _. 0) a
same-Keeps a = record { no_more = λ f. omega arith; kept = λ _ _ f. omega arith }

pull-Keeps :
    (max_count max_outstanding : ℕ) (a : SubscriptionActor) (r : SubscriptionActor × PullResult)
    → PullSpec max_count max_outstanding a r
    → Keeps a (λ _. 0) r.0
pull-Keeps max_count max_outstanding a (b, pulled ms) x = record {
  no_more = λ f. omega (arith, x.no_more f);
  kept = λ _ h f. omega (arith, x.kept h f);
}
pull-Keeps max_count max_outstanding a (b, failed e) x =
    subst (Keeps a (λ _. 0)) (sym x.0) (same-Keeps a)

receive-Keeps :
    (env : Environment) (r : Request) (a : SubscriptionActor)
    → IsGentleRequest r
    → IsWordEvent (request r)
    → Room a
    → Inv a
    → Keeps a (λ _. 0) (receive env r a).0
unfolding receive update_info modify_push_config
receive-Keeps env (post _) a g w room v = elim g [ ]
receive-Keeps env (acknowledge _) a g w room v = elim g [ ]
receive-Keeps env deletion a g w room v = elim g [ ]
receive-Keeps env detachment a g w room v = elim g [ ]
receive-Keeps env (seek _) a g w room v = elim g [ ]
receive-Keeps env get_info a g w room v = same-Keeps a
receive-Keeps env (update u) a g w room v = record {
  no_more = λ f. omega arith;
  kept = λ _ _ f. omega arith;
}
receive-Keeps env (pull max_count max_outstanding) a g w room v =
    pull-Keeps max_count max_outstanding a (pull_messages max_count max_outstanding env a) (
      pull_messages-PullSpec max_count max_outstanding env a
        (omega (arith, room.ack_ids, pull_capacity-le max_count max_outstanding a)) v)
receive-Keeps env (modify cs) a g w room v = modify_deadline-Keeps env cs a room.retries v
receive-Keeps env (push_config c) a g w room v = record {
  no_more = λ f. omega arith;
  kept = λ _ _ f. omega arith;
}
receive-Keeps env stats a g w room v = same-Keeps a

-- A turn of the loop on a well-formed subscription that is no post, ack, seek, detach or delete
-- adds no message, and where the subscription has no retention and no dead-letter policy it loses
-- none: whatever is pulled, expires, is nacked or retried is still stored afterwards, in as many
-- copies. No 64-bit counter is near its end, and a pull asks for a 16-bit number.
pub step-conserves :
    (env : Environment) (ev : Event) (a b : SubscriptionActor)
    → IsGentle ev
    → IsWordEvent ev
    → Room a
    → Inv a
    → step env ev a ≡ some b
    → Keeps a (λ _. 0) b
unfolding step
step-conserves env (request r) a b g w room v e =
    subst (Keeps a (λ _. 0)) (some-injective (receive env r a).0 b e)
      (receive-Keeps env r a g w room v)
step-conserves env deadline_passed a b g w room v e =
    let (t, result, e', valid, x) = take_expired-Expires a.outstanding env.now v.tracker in
    let (c, e'', k) = expire-Keeps env a t result room.retries v x in
    subst (Keeps a (λ _. 0)) (some-injective c b (sym (ap (expire env a) e' ∙ e'') ∙ e)) k
step-conserves env backoff_elapsed a b g w room v e =
    subst (Keeps a (λ _. 0)) (some-injective (retry env a) b e) (retry-Keeps env a v)
