-- ===== src/Subscriptions/Actor/Invariant/RequeueAll.antt =====
-- `requeue_messages` and `handle_expired_messages` keep the invariant.
use deltio.Prelude.{
  Bool-cases, Bytes, List, Option-cases, [], ap, arith, inl, inr, is_empty, length, refl, total,
  true, ℕ, ◌&&◌, ◌+◌, ◌<◌, ◌^◌, ◌∙◌, ◌∷◌, nat_eq, bytes_eq_instance,
}
use deltio.Topics.Message.{TopicMessage}
use deltio.Subscriptions.Info.{SubscriptionInfo, add_u64}
use deltio.Subscriptions.Actor.{SubscriptionActor, Environment}
use deltio.Subscriptions.Pulled.{PulledMessage}
use deltio.Subscriptions.Actor.{messages_available, dead_letters_published}
use deltio.Subscriptions.Actor.Requeue.{
  Requeueing, finish_requeue, handle_expired_messages, publish_dead_letters, requeue_each,
  requeue_message, requeue_messages, try_publish_dead_lettered_messages,
}
use deltio.Subscriptions.Actor.Invariant.{WellFormed, keyed, WellFormed-less, signal_if-WellFormed}
use deltio.Subscriptions.Actor.Invariant.Requeue.{Advances, requeue_message-WellFormed}

-- The messages in hand while a list of them is put back.
abbrev pub with_messages : SubscriptionInfo → List PulledMessage → (Bytes → ℕ) → Bytes → ℕ
with_messages info ps extra key = total (λ p. keyed info key p.message) ps + extra key

requeue_each-WellFormed :
    (extra : Bytes → ℕ) (now : ℕ) (ps : List PulledMessage) (r : Requeueing)
    → r.actor.retry_queue.next_seq + length ps < 2 ^ 64
    → WellFormed (with_messages r.actor.info ps extra) r.actor
    → WellFormed extra (requeue_each now ps r).actor
      × Advances (length ps) r.actor (requeue_each now ps r).actor
unfolding requeue_each
requeue_each-WellFormed extra now [] r small v = (
  WellFormed-less _ extra r.actor (λ key. omega arith) v,
  record { same_info = refl; seq = omega arith },
)
requeue_each-WellFormed extra now (p ∷ ps) r small v =
    let (w, one) =
      requeue_message-WellFormed (with_messages r.actor.info ps extra) now p.message r (omega arith)
        (WellFormed-less _ _ r.actor (λ key. omega arith) v) in
    let (x, more) =
      requeue_each-WellFormed extra now ps (requeue_message now p.message r)
        (omega (arith, one.seq))
        (WellFormed-less _ _ _
          (λ key. omega (arith, ap (λ i. with_messages i ps extra key) one.same_info)) w) in
    (
      x,
      record { same_info = more.same_info ∙ one.same_info; seq = omega (arith, one.seq, more.seq) },
    )

try_publish-WellFormed :
    (extra : Bytes → ℕ) (env : Environment) (ms : List TopicMessage) (a : SubscriptionActor)
    → WellFormed extra a
    → WellFormed extra (try_publish_dead_lettered_messages env ms a)
unfolding try_publish_dead_lettered_messages
try_publish-WellFormed extra env ms a v = elim (Option-cases a.info.dead_letter_policy) [
  | inl e ↦ rw (e, try_publish_dead_lettered_messages) v
  | inr (dlp, e) ↦
      rw (e, try_publish_dead_lettered_messages)
        (elim (Bool-cases (a.has_topic_manager && env.dead_letter_topic_exists)) [
          | inl b ↦ rw b (
              signal_if-WellFormed extra true (dead_letters_published dlp.dead_letter_topic ms) a v)
          | inr b ↦ rw b v
        ])
]

publish_dead_letters-WellFormed :
    (extra : Bytes → ℕ) (env : Environment) (r : Requeueing)
    → WellFormed extra r.actor
    → WellFormed extra (publish_dead_letters env r)
unfolding publish_dead_letters
publish_dead_letters-WellFormed extra env r v =
    let counted = record (r.actor) {
      counters = record (r.actor.counters) {
        dead_lettered = add_u64 r.actor.counters.dead_lettered (length r.dead_letter_messages);
      };
    } in
    let w = try_publish-WellFormed extra env r.dead_letter_messages counted (record {
      tracker = v.tracker;
      retry = v.retry;
      fresh = v.fresh;
      queues = v.queues;
      plain = v.plain;
      keyed_queues = v.keyed_queues;
      exclusive = v.exclusive;
    }) in
    record {
      tracker = w.tracker;
      retry = w.retry;
      fresh = w.fresh;
      queues = w.queues;
      plain = w.plain;
      keyed_queues = w.keyed_queues;
      exclusive = w.exclusive;
    }

finish_requeue-WellFormed :
    (extra : Bytes → ℕ) (env : Environment) (r : Requeueing)
    → WellFormed extra r.actor
    → WellFormed extra (finish_requeue env r)
unfolding finish_requeue
finish_requeue-WellFormed extra env r v = elim (Bool-cases (is_empty r.dead_letter_messages)) [
  | inl e ↦ rw e (signal_if-WellFormed extra _ messages_available r.actor v)
  | inr e ↦ rw e (
      signal_if-WellFormed extra _ messages_available (publish_dead_letters env r)
        (publish_dead_letters-WellFormed extra env r v))
]

pub requeue_messages-WellFormed :
    (extra : Bytes → ℕ) (env : Environment) (ps : List PulledMessage) (a : SubscriptionActor)
    → a.retry_queue.next_seq + length ps < 2 ^ 64
    → WellFormed (with_messages a.info ps extra) a
    → WellFormed extra (requeue_messages env ps a)
unfolding requeue_messages
requeue_messages-WellFormed extra env ps a small v =
    finish_requeue-WellFormed extra env _
      (requeue_each-WellFormed extra env.now ps
        (record { actor = a; dead_letter_messages = []; dead_letter_message_ids = [] }) small v).0

pub handle_expired_messages-WellFormed :
    (extra : Bytes → ℕ) (env : Environment) (ps : List PulledMessage) (a : SubscriptionActor)
    → a.retry_queue.next_seq + length ps < 2 ^ 64
    → WellFormed (with_messages a.info ps extra) a
    → WellFormed extra (handle_expired_messages env ps a)
unfolding handle_expired_messages
handle_expired_messages-WellFormed extra env ps a small v =
    requeue_messages-WellFormed extra env ps _ small (record {
      tracker = v.tracker;
      retry = v.retry;
      fresh = v.fresh;
      queues = v.queues;
      plain = v.plain;
      keyed_queues = v.keyed_queues;
      exclusive = v.exclusive;
    })
