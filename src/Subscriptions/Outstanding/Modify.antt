-- ===== src/Subscriptions/Outstanding/Modify.antt =====
-- What `modify` does: new deadlines and nacks.
use deltio.Prelude.{
  List, Map, Option, Option-cases, [], ap, arith, false, if◌then◌else◌, inl, inr, lookup,
  lookup-insert, lookup-remove, none, refl, some, sym, total, total-append, weigh, weigh-insert,
  weigh-remove, ℕ, ◌+◌, ◌==◌, ◌∙◌, ◌∷◌, ◌≡◌, nat_eq,
}
use deltio.Topics.Message.{TopicMessage}
use deltio.Subscriptions.Pulled.{PulledMessage, DeadlineModification}
use deltio.Subscriptions.Schedule.{
  Key, first, Schedule, add_key, first-add_key, first-has, first-remove_key, first_is, key_eq,
  key_lt, remove_key,
}
use deltio.Subscriptions.Outstanding.{
  OutstandingMessageTracker, Updating, modify_found, modify, modify_each, next_expiration, updating,
}
use deltio.Subscriptions.Outstanding.Invariant.{IsValid, Agrees-remove, Agrees-change}
use deltio.Subscriptions.Outstanding.Updates.{Quiet, UpdateOf, notified_update}

-- A modification of the entry found under an ack ID: a new deadline, or none for a nack.
abbrev change : DeadlineModification → Option PulledMessage → Option PulledMessage
change c none = none
change c (some m) = elim c.new_deadline [ none ↦ none | some d ↦ some (record m { deadline = d }) ]

-- The modifications of a request in turn, as one entry sees them.
abbrev pub changes : List DeadlineModification → ℕ → Option PulledMessage → Option PulledMessage
changes [] a found = found
changes (c ∷ cs) a found = changes cs a (if c.ack_id == a then change c found else found)

modify_found-UpdateOf :
    (o : Option Key) (c : DeadlineModification) (u : Updating) (found : Option PulledMessage)
    → lookup c.ack_id u.messages ≡ found
    → UpdateOf u
    → UpdateOf (modify_found o c u found)
unfolding modify_found
modify_found-UpdateOf o c u none e v = v
modify_found-UpdateOf o c u (some m) e v = elim (Option-cases c.new_deadline) [
  | inl n ↦ rw (n, modify_found) (Agrees-remove c.ack_id m u.messages u.expirations e v)
  | inr (d, n) ↦ rw (n, modify_found) (Agrees-change c.ack_id d m u.messages u.expirations e v)
]

modify_found-lookup :
    (o : Option Key) (c : DeadlineModification) (b : ℕ) (u : Updating)
    (found : Option PulledMessage)
    → lookup c.ack_id u.messages ≡ found
    → lookup b (modify_found o c u found).messages
      ≡ (if c.ack_id == b then change c (lookup b u.messages) else lookup b u.messages)
unfolding modify_found
modify_found-lookup o c b u none e = ground arith
modify_found-lookup o c b u (some m) e = elim (Option-cases c.new_deadline) [
  | inl n ↦ ground (arith, n, lookup-remove c.ack_id b u.messages)
  | inr (d, n) ↦ ground (arith, n, lookup-insert c.ack_id b (record m { deadline = d }) u.messages)
]

modify_found-counted :
    (o : Option Key) (c : DeadlineModification) (u : Updating) (found : Option PulledMessage)
    (f : TopicMessage → ℕ)
    → lookup c.ack_id u.messages ≡ found
    → UpdateOf u
    → total (λ m. f m.message) (modify_found o c u found).result
        + weigh (λ m. f m.message) (modify_found o c u found).messages
      ≡ total (λ m. f m.message) u.result + weigh (λ m. f m.message) u.messages
unfolding modify_found
modify_found-counted o c u none f e v = refl
modify_found-counted o c u (some m) f e v = elim (Option-cases c.new_deadline) [
  | inl n ↦ ground (
    arith,
    n,
    total-append (λ m. f m.message) u.result (m ∷ []),
    weigh-remove (λ m. f m.message) c.ack_id u.messages v.unique,
  )
  | inr (d, n) ↦
      ground
        (arith, n, weigh-insert (λ m. f m.message) c.ack_id (record m { deadline = d }) u.messages)
]

first_of_some :
    (a : ℕ) (m : PulledMessage) (u : Updating)
    → lookup a u.messages ≡ some m
    → UpdateOf u
    → (k : Key) × (first u.expirations ≡ some k)
first_of_some a m u e v = elim (Option-cases (first u.expirations)) [
  | inl h ↦
      absurd
        (ground (arith, e, h, v.scheduled m.deadline a, first-has (m.deadline, a) u.expirations))
  | inr r ↦ r
]

extend-Quiet :
    (o : Option Key) (k l j : Key) (s : Schedule)
    → o ≡ some j
    → first s ≡ o
    → first_is (key_eq k) o ≡ false
    → first_is (key_lt l) o ≡ false
    → first (add_key l (remove_key k s)) ≡ o
extend-Quiet o k l j s eo ef hk hl =
    first-add_key l j (remove_key k s) (first-remove_key k s o ef hk ∙ eo) (rw eo at hl) ∙ sym eo

modify_found-Quiet :
    (o : Option Key) (c : DeadlineModification) (u : Updating) (found : Option PulledMessage)
    → lookup c.ack_id u.messages ≡ found
    → UpdateOf u
    → Quiet o u
    → Quiet o (modify_found o c u found)
unfolding modify_found
modify_found-Quiet o c u none e v q = q
modify_found-Quiet o c u (some m) e v q = elim (Option-cases c.new_deadline) [
  | inl n ↦
      rw (n, modify_found)
        (λ h.
          first-remove_key (m.deadline, m.ack_id) u.expirations o (q (ground arith)) (ground arith))
  | inr (d, n) ↦
      rw (n, modify_found)
        (λ h.
          let (j, ej) = first_of_some c.ack_id m u e v in
          let ef : first u.expirations ≡ o = q (ground arith) in
          extend-Quiet o (m.deadline, m.ack_id) (d, m.ack_id) j u.expirations (sym ef ∙ ej) ef
            (ground arith) (ground arith))
]

-- The outcome of deadline modifications: each entry is changed by the modifications that name it,
-- the others are as they were, and every message that leaves the tracker is in the result, once.
pub record Modifies (cs : List DeadlineModification) (messages left : Map ℕ PulledMessage)
    (before result : List PulledMessage) : Type 0 where
  pub kept : (a : ℕ) → lookup a left ≡ changes cs a (lookup a messages)
  pub counted :
      (f : TopicMessage → ℕ)
      → total (λ m. f m.message) result + weigh (λ m. f m.message) left
        ≡ total (λ m. f m.message) before + weigh (λ m. f m.message) messages

modify_each-Modifies :
    (o : Option Key) (cs : List DeadlineModification) (u : Updating)
    → UpdateOf u
    → UpdateOf (modify_each o cs u)
      × Modifies cs u.messages (modify_each o cs u).messages u.result (modify_each o cs u).result
unfolding modify_each
modify_each-Modifies o [] u v = (v, record { kept = λ a. refl; counted = λ f. refl })
modify_each-Modifies o (c ∷ cs) u v =
    let (agrees, x) =
      modify_each-Modifies o cs (modify_found o c u (lookup c.ack_id u.messages))
        (modify_found-UpdateOf o c u (lookup c.ack_id u.messages) refl v) in
    (
      agrees,
      record {
        kept = λ b.
            x.kept b
            ∙ ap (changes cs b) (modify_found-lookup o c b u (lookup c.ack_id u.messages) refl);
        counted =
            λ f. x.counted f ∙ modify_found-counted o c u (lookup c.ack_id u.messages) f refl v;
      },
    )

modify_each-Quiet :
    (o : Option Key) (cs : List DeadlineModification) (u : Updating)
    → UpdateOf u
    → Quiet o u
    → Quiet o (modify_each o cs u)
unfolding modify_each
modify_each-Quiet o [] u v q = q
modify_each-Quiet o (c ∷ cs) u v q =
    modify_each-Quiet o cs _ (modify_found-UpdateOf o c u (lookup c.ack_id u.messages) refl v)
      (modify_found-Quiet o c u (lookup c.ack_id u.messages) refl v q)

-- `modify` changes the deadline of each entry as the request's modifications of its ack ID say in
-- turn, takes out and returns once each message that is nacked, leaves the other entries as they
-- were, and keeps the tracker well formed.
pub modify-Modifies :
    (t : OutstandingMessageTracker) (cs : List DeadlineModification)
    → IsValid t
    → IsValid (modify t cs).0 × Modifies cs t.messages (modify t cs).0.messages [] (modify t cs).1
unfolding modify
modify-Modifies t cs v = modify_each-Modifies (first t.expirations) cs (updating t) v

-- If `modify` sends no notification on a well-formed tracker, the time at which the poller wakes up
-- is unchanged.
pub modify-next_expiration :
    (t : OutstandingMessageTracker) (cs : List DeadlineModification)
    → IsValid t
    → (modify t cs).0.notified ≡ t.notified
    → next_expiration (modify t cs).0 ≡ next_expiration t
unfolding modify
modify-next_expiration t cs v =
    notified_update t (modify_each (first t.expirations) cs (updating t))
      (modify_each-Quiet (first t.expirations) cs (updating t) v (λ h. refl))
