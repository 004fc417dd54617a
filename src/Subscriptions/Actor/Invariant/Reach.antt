-- ===== src/Subscriptions/Actor/Invariant/Reach.antt =====
-- The turns of the select loop, and what holds of every subscription that they reach.
use deltio.Prelude.{
  Bool, Bytes, List, [], ap, arith, refl, some, sym, total_one, weigh_one, ℕ, ◌+◌, ◌<◌, ◌^◌, ◌∙◌,
  ◌∷◌, ◌≡◌, ◌≤◌, nat_eq, bytes_eq_instance,
}
use mathlib.Core.Path.{subst}
use mathlib.Core.Option.{some-injective}
use deltio.Subscriptions.Outstanding.Invariant.{IsValid}
use deltio.Subscriptions.Outstanding.Expiry.{Expires, keep}
use deltio.Subscriptions.Actor.Requeue.{handle_expired_messages}
use deltio.Subscriptions.Info.{SubscriptionInfo}
use deltio.Subscriptions.Outstanding
use deltio.Subscriptions.Outstanding.{take_expired, OutstandingMessageTracker, len}
use deltio.Subscriptions.Outstanding.Expiry.{take_expired-Expires}
use deltio.Subscriptions.Pulled.{PulledMessage}
use deltio.Subscriptions.Actor.{SubscriptionActor, Environment}
use deltio.Subscriptions.Actor.Pull.{pull_capacity}
use deltio.Subscriptions.Actor.Stored.{held}
use deltio.Subscriptions.Actor.Receive.{
  Request, post, get_info, update, pull, acknowledge, modify, deletion, detachment, push_config,
  stats, seek, receive, Event, request, deadline_passed, backoff_elapsed, expire, retry, step,
  start,
}
use deltio.Subscriptions.Actor.Invariant.{Inv, no_extra, keyed, flight}
use deltio.Subscriptions.Actor.Invariant.RequeueAll.{handle_expired_messages-WellFormed}
use deltio.Subscriptions.Actor.Invariant.Retry.{retry-Inv}
use deltio.Subscriptions.Actor.Invariant.PullAll.{pull_messages-Inv}
use deltio.Subscriptions.Actor.Invariant.Requests.{
  post_messages-Inv, acknowledge_messages-Inv, modify_deadline-Inv,
}
use deltio.Subscriptions.Actor.Invariant.Lifecycle.{
  update_info-Inv, modify_push_config-Inv, detach-Inv, delete-Inv, start-Inv,
}
use deltio.Subscriptions.Actor.Invariant.Seek.{seek_to_time-Inv}

-- No 64-bit counter is near its end: the ack IDs of a pull of 65,535 messages, and the retries of
-- all that is outstanding.
pub record Room (a : SubscriptionActor) : Type 0 where
  pub ack_ids : a.next_ack_id + 2 ^ 16 < 2 ^ 64
  pub retries : a.retry_queue.next_seq + Outstanding.len a.outstanding < 2 ^ 64

-- A pull's arguments are 16-bit words.
abbrev IsWord : Request → Type 0
IsWord (pull max_count max_outstanding) = max_count < 2 ^ 16
IsWord _ = Unit

pub pull_capacity-le :
    (max_count max_outstanding : ℕ) (a : SubscriptionActor)
    → pull_capacity max_count max_outstanding a ≤ max_count
unfolding pull_capacity
pull_capacity-le max_count max_outstanding a = ground arith

receive-Inv :
    (env : Environment) (r : Request) (a : SubscriptionActor)
    → IsWord r
    → Room a
    → Inv a
    → Inv (receive env r a).0
unfolding receive
receive-Inv env (post messages) a w room v = post_messages-Inv messages a v
receive-Inv env get_info a w room v = v
receive-Inv env (update u) a w room v = update_info-Inv u a v
receive-Inv env (pull max_count max_outstanding) a w room v =
    pull_messages-Inv max_count max_outstanding env a
      (omega (arith, room.ack_ids, pull_capacity-le max_count max_outstanding a)) v
receive-Inv env (acknowledge ids) a w room v = acknowledge_messages-Inv ids a v
receive-Inv env (modify cs) a w room v = modify_deadline-Inv env cs a room.retries v
receive-Inv env deletion a w room v = delete-Inv env a v
receive-Inv env detachment a w room v = detach-Inv a v
receive-Inv env (push_config c) a w room v = modify_push_config-Inv c a v
receive-Inv env stats a w room v = v
receive-Inv env (seek time) a w room v = seek_to_time-Inv time a v

expire-Inv :
    (env : Environment) (a : SubscriptionActor) (t : OutstandingMessageTracker)
    (result : List PulledMessage)
    → Room a
    → Inv a
    → IsValid t
    → Expires env.now a.outstanding.messages t.messages result
    → (b : SubscriptionActor) × (expire env a (some (t, result)) ≡ some b) × Inv b
unfolding Outstanding.len
expire-Inv env a t [] room v valid x = (
  record a { outstanding = t },
  refl,
  record {
    tracker = valid;
    retry = v.retry;
    fresh = λ n h. x.kept n ∙ ap (keep env.now) (v.fresh n h);
    queues = v.queues;
    plain = v.plain;
    keyed_queues = v.keyed_queues;
    exclusive = λ key. omega (arith, v.exclusive key, x.counted (λ p. keyed a.info key p.message));
  },
)
expire-Inv env a t (p ∷ ps) room v valid x = (
  handle_expired_messages env (p ∷ ps) (record a { outstanding = t }),
  refl,
  handle_expired_messages-WellFormed no_extra env (p ∷ ps) _
      (omega (
        arith,
        room.retries,
        x.counted (λ _. 1),
        total_one (p ∷ ps),
        weigh_one a.outstanding.messages,
      ))
      (record {
        tracker = valid;
        retry = v.retry;
        fresh = λ n h. x.kept n ∙ ap (keep env.now) (v.fresh n h);
        queues = v.queues;
        plain = v.plain;
        keyed_queues = v.keyed_queues;
        exclusive =
            λ key. omega (arith, v.exclusive key, x.counted (λ q. keyed a.info key q.message));
      }),
)

abbrev pub IsWordEvent : Event → Type 0
IsWordEvent (request r) = IsWord r
IsWordEvent deadline_passed = Unit
IsWordEvent backoff_elapsed = Unit

-- On a well-formed subscription every turn of the loop is defined, the unchecked unwraps of the
-- tracker included, and keeps the invariant, as long as no 64-bit counter is near its end and a
-- pull asks for a 16-bit number.
pub step-Inv :
    (env : Environment) (ev : Event) (a : SubscriptionActor)
    → IsWordEvent ev
    → Room a
    → Inv a
    → (b : SubscriptionActor) × (step env ev a ≡ some b) × Inv b
unfolding step
step-Inv env (request r) a w room v = ((receive env r a).0, refl, receive-Inv env r a w room v)
step-Inv env deadline_passed a w room v =
    let (t, result, e, valid, x) = take_expired-Expires a.outstanding env.now v.tracker in
    rw e (expire-Inv env a t result room v valid x)
step-Inv env backoff_elapsed a w room v = (retry env a, refl, retry-Inv env a v)

-- The states that a subscription goes through, from its start on.
pub data Reach (id : ℕ) (info : SubscriptionInfo) (manager : Bool)
    : SubscriptionActor → Type 0 where
  started : Reach id info manager (start id info manager)
  turned :
      {a b : SubscriptionActor} (env : Environment) (ev : Event)
      → Reach id info manager a
      → IsWordEvent ev
      → Room a
      → step env ev a ≡ some b
      → Reach id info manager b

Reach-Inv :
    {id : ℕ} {info : SubscriptionInfo} {manager : Bool} {a : SubscriptionActor}
    → Reach id info manager a
    → Inv a
Reach-Inv started = start-Inv _ _ _
Reach-Inv (turned {a} {b} env ev r w room e) =
    let (c, e', v) = step-Inv env ev a w room (Reach-Inv r) in
    subst Inv (some-injective c b (sym e' ∙ e)) v

-- In every reachable state of a subscription at most one message of an ordering key is outstanding
-- or waits for its retry, and none while its key is free.
pub Reach-exclusive :
    {id : ℕ} {info : SubscriptionInfo} {manager : Bool} {a : SubscriptionActor}
    → Reach id info manager a
    → (key : Bytes) → held (keyed a.info key) a ≤ flight key a.keys_in_flight
Reach-exclusive r key = omega (arith, (Reach-Inv r).exclusive key)
