-- ===== src/Subscriptions/Outstanding/Expiry.antt =====
-- What `take_expired` returns and leaves, and that its unchecked unwraps never meet a missing entry.
use deltio.Prelude.{
  Bool-cases, List, Map, Option, Option-cases, [], arith, false, if◌then◌else◌, inl, inr, lookup,
  lookup-remove, ltb, none, refl, remove, some, total, true, weigh, weigh-remove, ℕ, ◌+◌, ◌∷◌, ◌≡◌,
  ◌≤◌, ◌⊎◌, nat_eq,
}
use deltio.Subscriptions.Pulled.{PulledMessage}
use deltio.Subscriptions.Schedule.{
  Schedule, Above, IsSorted, key_lt, has-cons, remove_key_first, Above-has, Key, has-nil,
}
use deltio.Subscriptions.Outstanding.{
  expiration_key, OutstandingMessageTracker, Taken, take_expired, take_loop,
}
use deltio.Subscriptions.Outstanding.Invariant.{Agrees, Agrees-remove, IsValid}

-- An entry that has expired is gone.
abbrev pub keep : ℕ → Option PulledMessage → Option PulledMessage
keep time none = none
keep time (some m) = if ltb time m.deadline then some m else none

abbrev pub keys : List PulledMessage → Schedule
keys [] = []
keys (m ∷ ms) = expiration_key m ∷ keys ms

abbrev AllDue : ℕ → List PulledMessage → Type 0
AllDue time [] = Unit
AllDue time (m ∷ ms) = (m.deadline ≤ time) × AllDue time ms

-- The outcome of expiring a map of messages at a time: exactly the entries that are not due yet
-- are left, the others are in the result in the order of their deadlines, and none is lost.
pub record Expires (time : ℕ) (messages left : Map ℕ PulledMessage) (result : List PulledMessage)
    : Type 0 where
  pub kept : (a : ℕ) → lookup a left ≡ keep time (lookup a messages)
  pub counted : (f : PulledMessage → ℕ) → total f result + weigh f left ≡ weigh f messages
  pub all_due : AllDue time result
  pub ordered : IsSorted (keys result)

not_due :
    (time d a b : ℕ) (m : PulledMessage) (s : Schedule)
    → ltb time d ≡ true
    → Above (d, a) s
    → (key_lt (d, a) (m.deadline, b) ≡ true) ⊎ ((d ≡ m.deadline) × (a ≡ b))
    → keep time (some m) ≡ some m
not_due time d a b m s h u e = ground arith

early :
    (time d a : ℕ) (s : Schedule) (messages : Map ℕ PulledMessage)
    → ltb time d ≡ true
    → Agrees messages ((d, a) ∷ s)
    → (b : ℕ) → lookup b messages ≡ keep time (lookup b messages)
early time d a s messages h v b = elim (Option-cases (lookup b messages)) [
  | inl e ↦ rw e
  | inr (m, e) ↦ ground (
    arith,
    e,
    v.scheduled m.deadline b,
    has-cons (m.deadline, b) (d, a) s,
    Above-has (d, a) (m.deadline, b) s v.sorted.0,
  )
]

-- The first key names a message that is there.
head_found :
    (d a : ℕ) (s : Schedule) (messages : Map ℕ PulledMessage)
    → Agrees messages ((d, a) ∷ s)
    → (m : PulledMessage) × (lookup a messages ≡ some m) × (m.deadline ≡ d) × (m.ack_id ≡ a)
head_found d a s messages v = elim (Option-cases (lookup a messages)) [
  | inl e ↦ absurd (ground (arith, e, v.scheduled d a, has-cons (d, a) (d, a) s))
  | inr (m, e) ↦ (
    m,
    e,
    ground (arith, e, v.scheduled d a, has-cons (d, a) (d, a) s),
    ground (arith, e, v.own a),
  )
]

pop_first :
    (d a : ℕ) (s : Schedule) (messages : Map ℕ PulledMessage) (m : PulledMessage)
    → lookup a messages ≡ some m
    → m.deadline ≡ d
    → m.ack_id ≡ a
    → Agrees messages ((d, a) ∷ s)
    → Agrees (remove a messages) s
pop_first d a s messages m found ed ea v =
    rw (ed, ea, remove_key_first (d, a) s v.sorted.0) at
      (Agrees-remove a m messages ((d, a) ∷ s) found v)

kept_after :
    (time a b : ℕ) (m : PulledMessage) (messages left : Map ℕ PulledMessage)
    → lookup a messages ≡ some m
    → ltb time m.deadline ≡ false
    → lookup b left ≡ keep time (lookup b (remove a messages))
    → lookup b left ≡ keep time (lookup b messages)
kept_after time a b m messages left found h e = ground (arith, lookup-remove a b messages)

abbrev Outcome : ℕ → Schedule → Map ℕ PulledMessage → Taken → Type 0
Outcome time s messages r =
    (take_loop time s messages ≡ some r)
    × Agrees r.messages r.expirations
    × Expires time messages r.messages r.result
    × ((k : Key) → Above k s → Above k (keys r.result))

nothing_left :
    (time : ℕ) (messages : Map ℕ PulledMessage)
    → Agrees messages []
    → (a : ℕ) → lookup a messages ≡ keep time (lookup a messages)
nothing_left time messages v a = elim (Option-cases (lookup a messages)) [
  | inl e ↦ rw e
  | inr (m, e) ↦ absurd (ground (arith, e, v.scheduled m.deadline a, has-nil (m.deadline, a)))
]

take_loop-Expires :
    (time : ℕ) (s : Schedule) (messages : Map ℕ PulledMessage)
    → Agrees messages s
    → (r : Taken) × Outcome time s messages r
unfolding take_loop
take_loop-Expires time [] messages v = (
  record { messages = messages; expirations = []; result = [] },
  (
    refl,
    v,
    record {
      kept = nothing_left time messages v;
      counted = λ f. omega arith;
      all_due = tt;
      ordered = tt;
    },
    λ k u. tt,
  ),
)
take_loop-Expires time ((d, a) ∷ s) messages v = elim (Bool-cases (ltb time d)) [
  | inl h ↦ (
    record { messages = messages; expirations = (d, a) ∷ s; result = [] },
    (
      rw h,
      v,
      record {
        kept = early time d a s messages h v;
        counted = λ f. omega arith;
        all_due = tt;
        ordered = tt;
      },
      λ k u. tt,
    ),
  )
  | inr h ↦
      let (m, found, ed, ea) = head_found d a s messages v in
      let (r, (e, agrees, x, above)) =
        take_loop-Expires time s (remove a messages) (pop_first d a s messages m found ed ea v) in
      (
        record r { result = m ∷ r.result },
        (
          rw (h, found, e),
          agrees,
          record {
            kept = λ b. kept_after time a b m messages r.messages found (rw ed h) (x.kept b);
            counted = λ f. ground (arith, found, x.counted f, weigh-remove f a messages v.unique);
            all_due = (ground arith, x.all_due);
            ordered = (rw (ed, ea) (above (d, a) v.sorted.0), x.ordered);
          },
          λ k u. (rw (ed, ea) u.0, above k u.1),
        ),
      )
]

-- A well-formed tracker gives up exactly what has expired: the unchecked unwraps of `take_expired`
-- meet no missing entry, the tracker stays well formed, the entries that are not due are left, and
-- the others are returned once each, the earliest deadline first.
pub take_expired-Expires :
    (t : OutstandingMessageTracker) (time : ℕ)
    → IsValid t
    → (t' : OutstandingMessageTracker) × (result : List PulledMessage) × (take_expired t time
        ≡ some (t', result))
      × IsValid t'
      × Expires time t.messages t'.messages result
unfolding take_expired
take_expired-Expires t time v =
    let (r, (e, agrees, x, above)) = take_loop-Expires time t.expirations t.messages v in
    (
      record { messages = r.messages; expirations = r.expirations; notified = t.notified },
      r.result,
      rw (e, take_expired),
      agrees,
      x,
    )
