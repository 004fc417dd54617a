-- ===== src/Subscriptions/RetryQueue/Ready.antt =====
-- What `take_ready` returns and leaves.
use deltio.Prelude.{
  Bool-cases, List, Map, Option, Option-cases, [], arith, false, if◌then◌else◌, inl, inr, lookup,
  lookup-remove, ltb, none, remove, some, total, true, weigh, weigh-remove, ℕ, ◌+◌, ◌∷◌, ◌≡◌,
  nat_eq,
}
use deltio.Topics.Message.{TopicMessage}
use deltio.Subscriptions.Schedule.{Schedule, has-cons, has-nil, remove_key_first, Above-has}
use deltio.Subscriptions.RetryQueue.{RetryQueue, ready_loop, take_ready}
use deltio.Subscriptions.RetryQueue.Invariant.{Agrees, IsValid, Agrees-remove}

-- A message that is ready is gone.
abbrev pub waiting : (ℕ → ℕ) → ℕ → ℕ → Option TopicMessage → Option TopicMessage
waiting at now s none = none
waiting at now s (some m) = if ltb now (at s) then some m else none

-- Exactly the messages that are scheduled for later are left, the others are in the result, and none
-- is lost.
pub record Readies (at : ℕ → ℕ) (now : ℕ) (messages left : Map ℕ TopicMessage)
    (result : List TopicMessage) : Type 0 where
  pub kept : (s : ℕ) → lookup s left ≡ waiting at now s (lookup s messages)
  pub counted : (f : TopicMessage → ℕ) → total f result + weigh f left ≡ weigh f messages

nothing_left :
    (at : ℕ → ℕ) (now : ℕ) (messages : Map ℕ TopicMessage)
    → Agrees at [] messages
    → (s : ℕ) → lookup s messages ≡ waiting at now s (lookup s messages)
nothing_left at now messages v s = elim (Option-cases (lookup s messages)) [
  | inl e ↦ rw e
  | inr (m, e) ↦ absurd (ground (arith, e, v.scheduled (at s) s, has-nil (at s, s)))
]

later :
    (at : ℕ → ℕ) (now d s : ℕ) (rest : Schedule) (messages : Map ℕ TopicMessage)
    → ltb now d ≡ true
    → Agrees at ((d, s) ∷ rest) messages
    → (i : ℕ) → lookup i messages ≡ waiting at now i (lookup i messages)
later at now d s rest messages h v i = elim (Option-cases (lookup i messages)) [
  | inl e ↦ rw e
  | inr (m, e) ↦ ground (
    arith,
    e,
    v.scheduled (at i) i,
    has-cons (at i, i) (d, s) rest,
    Above-has (d, s) (at i, i) rest v.sorted.0,
  )
]

head_found :
    (at : ℕ → ℕ) (d s : ℕ) (rest : Schedule) (messages : Map ℕ TopicMessage)
    → Agrees at ((d, s) ∷ rest) messages
    → (m : TopicMessage) × (lookup s messages ≡ some m) × (at s ≡ d)
head_found at d s rest messages v = elim (Option-cases (lookup s messages)) [
  | inl e ↦ absurd (ground (arith, e, v.scheduled d s, has-cons (d, s) (d, s) rest))
  | inr (m, e) ↦ (m, e, ground (arith, e, v.scheduled d s, has-cons (d, s) (d, s) rest))
]

pop_first :
    (at : ℕ → ℕ) (d s : ℕ) (rest : Schedule) (messages : Map ℕ TopicMessage)
    → Agrees at ((d, s) ∷ rest) messages
    → Agrees at rest (remove s messages)
pop_first at d s rest messages v =
    rw (remove_key_first (d, s) rest v.sorted.0) at (
      Agrees-remove at d s messages ((d, s) ∷ rest) (ground (arith, has-cons (d, s) (d, s) rest)) v)

waiting_after :
    (at : ℕ → ℕ) (now s i : ℕ) (m : TopicMessage) (messages left : Map ℕ TopicMessage)
    → lookup s messages ≡ some m
    → ltb now (at s) ≡ false
    → lookup i left ≡ waiting at now i (lookup i (remove s messages))
    → lookup i left ≡ waiting at now i (lookup i messages)
waiting_after at now s i m messages left found h e = ground (arith, lookup-remove s i messages)

ready_loop-Readies :
    (at : ℕ → ℕ) (now : ℕ) (schedule : Schedule) (messages : Map ℕ TopicMessage)
    → Agrees at schedule messages
    → Agrees at
        (ready_loop now schedule messages).schedule
        (ready_loop now schedule messages).messages
      × Readies at now messages
          (ready_loop now schedule messages).messages
          (ready_loop now schedule messages).result
unfolding ready_loop
ready_loop-Readies at now [] messages v =
    (v, record { kept = nothing_left at now messages v; counted = λ f. omega arith })
ready_loop-Readies at now ((d, s) ∷ rest) messages v = elim (Bool-cases (ltb now d)) [
  | inl h ↦
      rw h (v, record { kept = later at now d s rest messages h v; counted = λ f. omega arith })
  | inr h ↦
      let (m, found, ed) = head_found at d s rest messages v in
      let (agrees, x) =
        ready_loop-Readies at now rest (remove s messages) (pop_first at d s rest messages v) in
      rw (h, found)
        (
          agrees,
          record {
            kept = λ i. waiting_after at now s i m messages _ found (rw ed h) (x.kept i);
            counted = λ f. ground (arith, found, x.counted f, weigh-remove f s messages v.unique);
          },
        )
]

-- A well-formed queue gives up exactly the messages whose time has come, once each, and stays well
-- formed.
pub take_ready-Readies :
    (q : RetryQueue) (now : ℕ) (v : IsValid q)
    → IsValid (take_ready q now).0
      × Readies v.at now q.messages (take_ready q now).0.messages (take_ready q now).1
unfolding take_ready
take_ready-Readies q now v =
    let (agrees, x) = ready_loop-Readies v.at now q.schedule q.messages v.agrees in
    (record { at = v.at; agrees = agrees; fresh = λ s h. ground (arith, x.kept s, v.fresh s h) }, x)
