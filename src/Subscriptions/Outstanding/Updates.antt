-- ===== src/Subscriptions/Outstanding/Updates.antt =====
-- What `remove` and `modify` do to the entries, that they keep the tracker well formed, and that no
-- change of the first expiration goes without a notification.
use deltio.Prelude.{
  Bool-cases, List, Map, Option, [], arith, contains, contains-cons, contains-nil, false,
  if◌then◌else◌, inl, inr, lookup, lookup-remove, none, refl, some, total, total-append, weigh,
  weigh-remove, ℕ, ◌+◌, ◌==◌, ◌∙◌, ◌∷◌, ◌≡◌, nat_eq,
}
use deltio.Subscriptions.Pulled.{PulledMessage}
use deltio.Subscriptions.Schedule.{Key, first, first-remove_key}
use deltio.Subscriptions.Outstanding.{
  OutstandingMessageTracker, Updating, remove_found, next_expiration, remove_each, remove_ids,
  updated, updating,
}
use deltio.Subscriptions.Outstanding.Invariant.{Agrees, IsValid, Agrees-remove}

-- No notification is due only while the first key is the one of the start.
abbrev pub Quiet : Option Key → Updating → Type 0
Quiet first_key u = u.should_notify ≡ false → first u.expirations ≡ first_key

remove_found-Quiet :
    (o : Option Key) (a : ℕ) (u : Updating) (found : Option PulledMessage)
    → Quiet o u
    → Quiet o (remove_found o a u found)
unfolding remove_found
remove_found-Quiet o a u none q = q
remove_found-Quiet o a u (some m) q =
    λ h. first-remove_key (m.deadline, m.ack_id) u.expirations o (q (ground arith)) (ground arith)

abbrev pub UpdateOf : Updating → Type 0
UpdateOf u = Agrees u.messages u.expirations

remove_found-Agrees :
    (o : Option Key) (a : ℕ) (u : Updating) (found : Option PulledMessage)
    → lookup a u.messages ≡ found
    → UpdateOf u
    → UpdateOf (remove_found o a u found)
unfolding remove_found
remove_found-Agrees o a u none e v = v
remove_found-Agrees o a u (some m) e v = Agrees-remove a m u.messages u.expirations e v

remove_found-lookup :
    (o : Option Key) (a b : ℕ) (u : Updating) (found : Option PulledMessage)
    → lookup a u.messages ≡ found
    → lookup b (remove_found o a u found).messages ≡ (if a == b then none else lookup b u.messages)
unfolding remove_found
remove_found-lookup o a b u none e = ground arith
remove_found-lookup o a b u (some m) e = lookup-remove a b u.messages

remove_found-counted :
    (o : Option Key) (a : ℕ) (u : Updating) (found : Option PulledMessage) (f : PulledMessage → ℕ)
    → lookup a u.messages ≡ found
    → UpdateOf u
    → total f (remove_found o a u found).result + weigh f (remove_found o a u found).messages
      ≡ total f u.result + weigh f u.messages
unfolding remove_found
remove_found-counted o a u none f e v = refl
remove_found-counted o a u (some m) f e v =
    ground (arith, total-append f u.result (m ∷ []), weigh-remove f a u.messages v.unique)

-- The outcome of removing ack IDs: their entries are gone and the others are as they were, and what
-- is gone is in the result, once.
pub record Removes (ids : List ℕ) (messages left : Map ℕ PulledMessage)
    (before result : List PulledMessage) : Type 0 where
  pub kept : (a : ℕ) → lookup a left ≡ (if contains a ids then none else lookup a messages)
  pub counted :
      (f : PulledMessage → ℕ) → total f result + weigh f left ≡ total f before + weigh f messages

remove_each-Removes :
    (o : Option Key) (ids : List ℕ) (u : Updating)
    → UpdateOf u
    → UpdateOf (remove_each o ids u)
      × Removes ids u.messages (remove_each o ids u).messages u.result (remove_each o ids u).result
unfolding remove_each
remove_each-Removes o [] u v = (v, record { kept = λ a. rw (contains-nil a); counted = λ f. refl })
remove_each-Removes o (a ∷ ids) u v =
    let (agrees, x) =
      remove_each-Removes o ids (remove_found o a u (lookup a u.messages))
        (remove_found-Agrees o a u (lookup a u.messages) refl v) in
    (
      agrees,
      record {
        kept = λ b. ground (
          arith,
          x.kept b,
          remove_found-lookup o a b u (lookup a u.messages) refl,
          contains-cons b a ids,
        );
        counted = λ f. x.counted f ∙ remove_found-counted o a u (lookup a u.messages) f refl v;
      },
    )

remove_each-Quiet :
    (o : Option Key) (ids : List ℕ) (u : Updating) → Quiet o u → Quiet o (remove_each o ids u)
unfolding remove_each
remove_each-Quiet o [] u q = q
remove_each-Quiet o (a ∷ ids) u q =
    remove_each-Quiet o ids _ (remove_found-Quiet o a u (lookup a u.messages) q)

-- `remove` takes out exactly the entries of the given ack IDs, returns each once, and keeps the
-- tracker well formed.
pub remove_ids-Removes :
    (t : OutstandingMessageTracker) (ids : List ℕ)
    → IsValid t
    → IsValid (remove_ids t ids).0
      × Removes ids t.messages (remove_ids t ids).0.messages [] (remove_ids t ids).1
unfolding remove_ids
remove_ids-Removes t ids v = remove_each-Removes (first t.expirations) ids (updating t) v

pub notified_update :
    (t : OutstandingMessageTracker) (u : Updating)
    → Quiet (first t.expirations) u
    → (updated t u).notified ≡ t.notified
    → next_expiration (updated t u) ≡ next_expiration t
unfolding next_expiration
notified_update t u q h = elim (Bool-cases u.should_notify) [
  | inl e ↦ absurd (omega (arith, (rw e at h)))
  | inr e ↦ rw (q e, next_expiration) refl
]

-- If `remove` sends no notification, the time at which the poller wakes up is unchanged.
remove_ids-next_expiration :
    (t : OutstandingMessageTracker) (ids : List ℕ)
    → (remove_ids t ids).0.notified ≡ t.notified
    → next_expiration (remove_ids t ids).0 ≡ next_expiration t
unfolding remove_ids
remove_ids-next_expiration t ids =
    notified_update t (remove_each (first t.expirations) ids (updating t))
      (remove_each-Quiet (first t.expirations) ids (updating t) (λ h. refl))
