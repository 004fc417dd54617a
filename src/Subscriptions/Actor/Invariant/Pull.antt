-- ===== src/Subscriptions/Actor/Invariant/Pull.antt =====
-- The loops of `pull_messages` keep the invariant and the capacity, as long as the ack IDs do not
-- wrap.
use deltio.Prelude.{
  Bool-cases, Bytes, List, Option-cases, [], arith, bytes_eq, bytes_eq_iff, contains, contains-put,
  false, inl, inr, leb, length, length-append, lookup, lookup-insert, put, refl, some, true, ℕ, ◌+◌,
  ◌-◌, ◌<◌, ◌^◌, ◌∷◌, ◌≡◌, ◌≤◌, nat_eq, bytes_eq_instance,
}
use deltio.Topics.Message.{TopicMessage, Messages}
use deltio.Subscriptions.Actor.{is_message_expired}
use deltio.Subscriptions.Actor.Pull.{
  Pulling, pulled_message, deliver, forget, pull_head, pull_key, pull_keys,
}
use deltio.Subscriptions.Actor.PendingKeys.{Visitable, Visitable-still}
use deltio.Subscriptions.Actor.Progress.{
  Pulls, Pulls-refl, Pulls-trans, forget-Pulls, deliver-Pulls,
}
use deltio.Subscriptions.Actor.Invariant.{WellFormed, keyed}
use deltio.Subscriptions.Actor.Invariant.Deliver.{
  pop_queue, pop_queue-WellFormed, queued-pop_queue, found-AllKeyed, forget-WellFormed,
  put-WellFormed, deliver-WellFormed,
}

-- `q` is well formed and follows `p` with `n` more messages at most.
pub record Keeps (n : ℕ) (extra : Bytes → ℕ) (p q : Pulling) : Type 0 where
  pub well : WellFormed extra q.actor
  pub pulls : Pulls p q
  pub most : length q.result ≤ length p.result + n

-- The keys in flight change at one key only.
abbrev OnlyKey : Bytes → Pulling → Pulling → Type 0
OnlyKey key p q =
    (j : Bytes)
    → bytes_eq key j ≡ false
    → contains j q.actor.keys_in_flight ≡ contains j p.actor.keys_in_flight

-- There is room for `n` more ack IDs.
abbrev pub Room : ℕ → Pulling → Type 0
Room n p = p.actor.next_ack_id + n < 2 ^ 64

module _ (extra : Bytes → ℕ) (deadline now : ℕ) where
  pull_head-dropped :
      (key : Bytes) (m : TopicMessage) (queue : Messages) (p : Pulling)
      → lookup key p.actor.ordered_queues ≡ some (m ∷ queue)
      → is_message_expired p.actor.info now m ≡ true
      → WellFormed extra p.actor
      → Keeps 0 extra p (forget m (pop_queue key queue p))
  unfolding forget
  pull_head-dropped key m queue p found e v = record {
    well = forget-WellFormed extra m (pop_queue key queue p) (
        pop_queue-WellFormed extra key queue p
          (found-AllKeyed p.actor.info key (m ∷ queue) p.actor.ordered_queues found
            v.keyed_queues).1
          v);
    pulls =
        forget-Pulls now m p (pop_queue key queue p) e refl refl refl refl refl
          (λ f. queued-pop_queue f key m queue p found);
    most = omega arith;
  }

  abbrev delivered_in : Bytes → TopicMessage → Messages → Pulling → Pulling
  delivered_in key m queue p =
      let d = deliver deadline m (pop_queue key queue p) in
      record d { actor = record (d.actor) { keys_in_flight = put key d.actor.keys_in_flight } }

  pull_head-delivered :
      (key : Bytes) (m : TopicMessage) (queue : Messages) (p : Pulling)
      → lookup key p.actor.ordered_queues ≡ some (m ∷ queue)
      → contains key p.actor.keys_in_flight ≡ false
      → Room 1 p
      → WellFormed extra p.actor
      → Keeps 1 extra p (delivered_in key m queue p)
  unfolding deliver pulled_message
  pull_head-delivered key m queue p found absent room v =
      let (e, keyed) =
        found-AllKeyed p.actor.info key (m ∷ queue) p.actor.ordered_queues found v.keyed_queues in
      let popped = pop_queue key queue p in
      let x =
        deliver-Pulls deadline m p popped refl refl refl refl refl
          (λ f. queued-pop_queue f key m queue p found) room
          (v.fresh p.actor.next_ack_id (omega arith)) in
      record {
        well =
            deliver-WellFormed extra deadline m
              (record popped {
                actor = record (popped.actor) { keys_in_flight = put key p.actor.keys_in_flight };
              })
              room
              (put-WellFormed extra key m popped.actor absent e
                (pop_queue-WellFormed extra key queue p keyed v));
        pulls = record {
          same_info = x.same_info;
          same_retry = x.same_retry;
          ids = x.ids;
          tracked = x.tracked;
          no_more = x.no_more;
          kept = x.kept;
        };
        most = omega (arith, length-append p.result (pulled_message deadline popped.actor m ∷ []));
      }

  -- The loop over one queue: it hands out one message at most, and touches no other key.
  pull_head-Keeps :
      (key : Bytes) (queue : Messages) (p : Pulling)
      → lookup key p.actor.ordered_queues ≡ some queue
      → contains key p.actor.keys_in_flight ≡ false
      → Room 1 p
      → WellFormed extra p.actor
      → Keeps 1 extra p (pull_head deadline now key queue p)
        × OnlyKey key p (pull_head deadline now key queue p)
  unfolding pull_head forget deliver
  pull_head-Keeps key [] p found absent room v =
      (record { well = v; pulls = Pulls-refl p; most = omega arith }, λ j h. refl)
  pull_head-Keeps key (m ∷ queue) p found absent room v =
      elim (Bool-cases (is_message_expired p.actor.info now m)) [
        | inl e ↦
            let popped = forget m (pop_queue key queue p) in
            let k = pull_head-dropped key m queue p found e v in
            let (k', only) =
              pull_head-Keeps key queue popped
                (ground
                  (arith, lookup-insert key key queue p.actor.ordered_queues, bytes_eq_iff key key))
                absent room k.well in
            rw e (
              record {
                well = k'.well;
                pulls = Pulls-trans _ _ _ k.pulls k'.pulls;
                most = omega (arith, k.most, k'.most);
              },
              λ j h. only j h,
            )
        | inr e ↦ rw e (
          pull_head-delivered key m queue p found absent room v,
          λ j h. ground (arith, contains-put key j p.actor.keys_in_flight),
        )
      ]

  pull_key-Keeps :
      (key : Bytes) (p : Pulling)
      → contains key p.actor.keys_in_flight ≡ false
      → Room 1 p
      → WellFormed extra p.actor
      → Keeps 1 extra p (pull_key deadline now key p) × OnlyKey key p (pull_key deadline now key p)
  unfolding pull_key
  pull_key-Keeps key p absent room v = elim (Option-cases (lookup key p.actor.ordered_queues)) [
    | inl e ↦
        rw (e, pull_key)
          (record { well = v; pulls = Pulls-refl p; most = omega arith }, λ j h. refl)
    | inr (queue, e) ↦ rw (e, pull_key) (pull_head-Keeps key queue p e absent room v)
  ]

  -- The loop over the keys stays within the capacity.
  pub pull_keys-Keeps :
      (capacity : ℕ) (keys : List Bytes) (p : Pulling)
      → Visitable keys p.actor.keys_in_flight
      → length p.result ≤ capacity
      → p.actor.next_ack_id + capacity < 2 ^ 64 + length p.result
      → WellFormed extra p.actor
      → Keeps (capacity - length p.result) extra p (pull_keys capacity deadline now keys p)
  unfolding pull_keys
  pull_keys-Keeps capacity [] p s c room v = record {
    well = v;
    pulls = Pulls-refl p;
    most = omega arith;
  }
  pull_keys-Keeps capacity (key ∷ keys) p s c room v =
      elim (Bool-cases (leb capacity (length p.result))) [
        | inl e ↦ rw e (record { well = v; pulls = Pulls-refl p; most = omega arith })
        | inr e ↦
            let below : length p.result < capacity = ground arith in
            let (k, only) = pull_key-Keeps key p s.0 (omega arith) v in
            let k' =
              pull_keys-Keeps capacity keys (pull_key deadline now key p)
                (Visitable-still key keys p.actor.keys_in_flight _ only s.1 s.2)
                (omega (arith, k.most)) (omega (arith, k.pulls.ids)) k.well in
            rw e (record {
              well = k'.well;
              pulls = Pulls-trans _ _ _ k.pulls k'.pulls;
              most = omega (arith, k.most, k'.most);
            })
      ]
