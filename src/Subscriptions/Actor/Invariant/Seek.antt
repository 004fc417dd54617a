-- ===== src/Subscriptions/Actor/Invariant/Seek.antt =====
-- `seek_to_time` keeps the invariant: nothing is in flight behind it.
use deltio.Prelude.{
  Bool, Bytes, List, Map, Option, Option-cases, Unique, [], arith, bytes_eq, bytes_eq_iff, false,
  if_cases, if◌then◌else◌, inl, inr, insert-Unique, is_empty, is_some, lookup, lookup-cons,
  lookup-nil, none, refl, retain, some, true, ℕ, ◌∙◌, ◌∷◌, ◌≡◌, nat_eq, bytes_eq_instance,
}
use mathlib.Core.Path.{subst}
use deltio.Topics.Message.{TopicMessage, Messages}
use deltio.Subscriptions.Info.{SubscriptionInfo}
use deltio.Subscriptions.Outstanding
use deltio.Subscriptions.Outstanding.Invariant.{new_tracker-IsValid}
use deltio.Subscriptions.RetryQueue.{drain_queue}
use deltio.Subscriptions.Actor.{SubscriptionActor, ordered_key, queue_of}
use deltio.Subscriptions.Actor.{messages_available, outstanding_freed}
use deltio.Subscriptions.Actor.Invariant.{signal_if-WellFormed}
use deltio.Subscriptions.RetryQueue.Invariant.{drain_queue-IsValid}
use deltio.Subscriptions.Actor.Requests.{reset_for_seek}
use deltio.Subscriptions.Actor.Post.{requeue_one}
use deltio.Subscriptions.Actor.Requests.{
  seek_to_time, retain_queues, reset_for_seek, requeue_newer, published_after, messages_of,
}
use deltio.Subscriptions.Actor.Stored.{held, held-requeue_one}
use deltio.Subscriptions.Actor.Invariant.{
  Inv, no_extra, keyed, AllKeyed, AllKeyed-append, QueuesKeyed, insert-QueuesKeyed,
}

retain-AllKeyed :
    (info : SubscriptionInfo) (key : Option Bytes) (p : TopicMessage → Bool) (ms : Messages)
    → AllKeyed info key ms
    → AllKeyed info key (retain p ms)
retain-AllKeyed info key p [] h = tt
retain-AllKeyed info key p (m ∷ ms) h =
    if_cases (AllKeyed info key) (p m) _ _ (λ _. (h.0, retain-AllKeyed info key p ms h.1))
      (λ _. retain-AllKeyed info key p ms h.1)

retain_queues_absent :
    (time : ℕ) (key : Bytes) (queues : Map Bytes Messages)
    → is_some (lookup key queues) ≡ false
    → is_some (lookup key (retain_queues time queues)) ≡ false
unfolding retain_queues
retain_queues_absent time key [] h = h
retain_queues_absent time key ((k, q) ∷ queues) h = ground (
  arith,
  lookup-cons key k q queues,
  lookup-cons key k (retain (published_after time) q) (retain_queues time queues),
  retain_queues_absent time key queues,
)

retain_queues-Unique :
    (time : ℕ) (queues : Map Bytes Messages) → Unique queues → Unique (retain_queues time queues)
unfolding retain_queues
retain_queues-Unique time [] u = tt
retain_queues-Unique time ((k, q) ∷ queues) u =
    if_cases Unique (is_empty (retain (published_after time) q)) _ _
      (λ _. retain_queues-Unique time queues u.1)
      (λ _. (retain_queues_absent time k queues u.0, retain_queues-Unique time queues u.1))

is_empty-eq : (ms : Messages) → is_empty ms ≡ true → ms ≡ []
is_empty-eq [] h = refl
is_empty-eq (m ∷ ms) h = absurd (ground arith)

absent-queue_of :
    (key : Bytes) (queues : Map Bytes Messages)
    → is_some (lookup key queues) ≡ false
    → queue_of key queues ≡ []
absent-queue_of key queues h = ground arith

queue_of-cons :
    (key k : Bytes) (q : Messages) (queues : Map Bytes Messages)
    → queue_of key ((k, q) ∷ queues) ≡ (if bytes_eq k key then q else queue_of key queues)
queue_of-cons key k q queues = ground (arith, lookup-cons key k q queues)

gone :
    (time : ℕ) (key k : Bytes) (queues : Map Bytes Messages)
    → is_some (lookup k queues) ≡ false
    → bytes_eq k key ≡ true
    → queue_of key (retain_queues time queues) ≡ []
gone time key k queues h e = absent-queue_of key (retain_queues time queues) (
    subst (λ j. is_some (lookup j (retain_queues time queues)) ≡ false) ((bytes_eq_iff k key).0 e)
      (retain_queues_absent time k queues h))

-- A queue keeps what is newer.
queue_of-retain_queues :
    (time : ℕ) (key : Bytes) (queues : Map Bytes Messages)
    → Unique queues
    → queue_of key (retain_queues time queues) ≡ retain (published_after time) (queue_of key queues)
unfolding retain_queues
queue_of-retain_queues time key [] u = ground (arith, lookup-nil {V = Messages} key)
queue_of-retain_queues time key ((k, q) ∷ queues) u =
    let kept = retain (published_after time) q in
    let rest = retain_queues time queues in
    if_cases (λ r. queue_of key r ≡ retain (published_after time) (queue_of key ((k, q) ∷ queues)))
      (is_empty kept) rest ((k, kept) ∷ rest)
      (λ e. ground (
        arith,
        queue_of-cons key k q queues,
        is_empty-eq kept e,
        queue_of-retain_queues time key queues u.1,
        gone time key k queues u.0,
      ))
      (λ e. ground (
        arith,
        queue_of-cons key k q queues,
        queue_of-cons key k kept rest,
        queue_of-retain_queues time key queues u.1,
      ))

retain_queues-QueuesKeyed :
    (info : SubscriptionInfo) (time : ℕ) (queues : Map Bytes Messages)
    → Unique queues
    → QueuesKeyed info queues
    → QueuesKeyed info (retain_queues time queues)
retain_queues-QueuesKeyed info time queues u h key =
    rw (queue_of-retain_queues time key queues u)
      (retain-AllKeyed info (some key) (published_after time) (queue_of key queues) (h key))

-- Nothing is held in flight.
abbrev Idle : SubscriptionActor → Type 0
Idle a = (f : TopicMessage → ℕ) → held f a ≡ 0

requeue_one-Idle : (a : SubscriptionActor) (m : TopicMessage) → Idle a → Idle (requeue_one a m)
requeue_one-Idle a m h f = held-requeue_one f a m ∙ h f

requeue_one-Inv :
    (a : SubscriptionActor) (m : TopicMessage) → Idle a → Inv a → Inv (requeue_one a m)
unfolding requeue_one
requeue_one-Inv a m idle v = elim (Option-cases (ordered_key a.info m)) [
  | inl e ↦ rw e (record {
    tracker = v.tracker;
    retry = v.retry;
    fresh = v.fresh;
    queues = v.queues;
    plain = AllKeyed-append a.info none a.backlog m v.plain e;
    keyed_queues = v.keyed_queues;
    exclusive = v.exclusive;
  })
  | inr (k, e) ↦ rw e (record {
    tracker = v.tracker;
    retry = v.retry;
    fresh = v.fresh;
    queues = insert-Unique k _ a.ordered_queues v.queues;
    plain = v.plain;
    keyed_queues =
        insert-QueuesKeyed a.info a.ordered_queues k _ v.keyed_queues (e, v.keyed_queues k);
    exclusive = λ key. omega (arith, idle (keyed a.info key));
  })
]

requeue_newer-Inv :
    (time : ℕ) (ms : List TopicMessage) (a : SubscriptionActor)
    → Idle a
    → Inv a
    → Idle (requeue_newer time ms a) × Inv (requeue_newer time ms a)
unfolding requeue_newer
requeue_newer-Inv time [] a idle v = (idle, v)
requeue_newer-Inv time (m ∷ ms) a idle v =
    requeue_newer-Inv time ms _
      (if_cases Idle (published_after time m) _ a (λ _. requeue_one-Idle a m idle) (λ _. idle))
      (if_cases Inv (published_after time m) _ a (λ _. requeue_one-Inv a m idle v) (λ _. v))

reset_for_seek-Inv :
    (time : ℕ) (a : SubscriptionActor)
    → Inv a
    → Idle (reset_for_seek time a) × Inv (reset_for_seek time a)
unfolding reset_for_seek Outstanding.drain drain_queue
reset_for_seek-Inv time a v = (
  λ f. refl,
  record {
    tracker = new_tracker-IsValid;
    retry = drain_queue-IsValid a.retry_queue;
    fresh = λ n h. lookup-nil n;
    queues = retain_queues-Unique time a.ordered_queues v.queues;
    plain = retain-AllKeyed a.info none (published_after time) a.backlog v.plain;
    keyed_queues = retain_queues-QueuesKeyed a.info time a.ordered_queues v.queues v.keyed_queues;
    exclusive = λ key. omega arith;
  },
)

pub seek_to_time-Inv : (time : ℕ) (a : SubscriptionActor) → Inv a → Inv (seek_to_time time a)
unfolding seek_to_time
seek_to_time-Inv time a v =
    let (idle, w) = reset_for_seek-Inv time a v in
    let outstanding = messages_of (Outstanding.drain a.outstanding).1 in
    let retrying = (drain_queue a.retry_queue).1 in
    let (idle', w') = requeue_newer-Inv time outstanding _ idle w in
    let (idle'', w'') = requeue_newer-Inv time retrying _ idle' w' in
    if_cases Inv a.deleted a _ (λ _. v)
      (λ _.
        signal_if-WellFormed no_extra true messages_available _
          (signal_if-WellFormed no_extra true outstanding_freed _ w''))
