-- ===== src/Subscriptions/Outstanding/Invariant.antt =====
-- The well-formedness of the tracker: the map and the schedule hold the same entries, side by side.
use deltio.Prelude.{
  Bool, Map, Option, Unique, arith, false, insert, insert-Unique, lookup, lookup-insert, lookup-nil,
  lookup-remove, none, remove, remove-Unique, some, true, ℕ, ◌==◌, ◌≡◌, nat_eq,
}
use deltio.Subscriptions.Pulled.{PulledMessage}
use deltio.Subscriptions.Schedule.{
  Schedule, IsSorted, has, add_key, remove_key, has-nil, has-add_key, has-remove_key,
  add_key-IsSorted, remove_key-IsSorted,
}
use deltio.Subscriptions.Outstanding.{OutstandingMessageTracker, add, clear, new_tracker}

-- The message found under `a` is due at `d`, and knows its own ack ID.
abbrev due : ℕ → Option PulledMessage → Bool
due d none = false
due d (some m) = m.deadline == d

abbrev named : ℕ → Option PulledMessage → Bool
named a none = true
named a (some m) = m.ack_id == a

pub record Agrees (messages : Map ℕ PulledMessage) (expirations : Schedule) : Type 0 where
  pub unique : Unique messages
  pub sorted : IsSorted expirations
  pub own : (a : ℕ) → named a (lookup a messages) ≡ true
  pub scheduled : (d a : ℕ) → has (d, a) expirations ≡ due d (lookup a messages)

abbrev pub IsValid : OutstandingMessageTracker → Type 0
IsValid t = Agrees t.messages t.expirations

pub new_tracker-IsValid : IsValid new_tracker
new_tracker-IsValid = record {
  unique = tt;
  sorted = tt;
  own = λ a. rw (lookup-nil a);
  scheduled = λ d a. rw (lookup-nil a, has-nil (d, a));
}

Agrees-insert :
    (m : PulledMessage) (messages : Map ℕ PulledMessage) (expirations : Schedule)
    → lookup m.ack_id messages ≡ none
    → Agrees messages expirations
    → Agrees (insert m.ack_id m messages) (add_key (m.deadline, m.ack_id) expirations)
Agrees-insert m messages expirations fresh v = record {
  unique = insert-Unique m.ack_id m messages v.unique;
  sorted = add_key-IsSorted _ expirations v.sorted;
  own = λ a. ground (arith, lookup-insert m.ack_id a m messages, v.own a);
  scheduled = λ d a. ground (
    arith,
    lookup-insert m.ack_id a m messages,
    has-add_key (m.deadline, m.ack_id) (d, a) expirations,
    v.scheduled d a,
  );
}

pub Agrees-remove :
    (a : ℕ) (m : PulledMessage) (messages : Map ℕ PulledMessage) (expirations : Schedule)
    → lookup a messages ≡ some m
    → Agrees messages expirations
    → Agrees (remove a messages) (remove_key (m.deadline, m.ack_id) expirations)
Agrees-remove a m messages expirations found v = record {
  unique = remove-Unique a messages v.unique;
  sorted = remove_key-IsSorted _ expirations v.sorted;
  own = λ b. ground (arith, lookup-remove a b messages, v.own b);
  scheduled = λ d b. ground (
    arith,
    lookup-remove a b messages,
    has-remove_key (m.deadline, m.ack_id) (d, b) expirations,
    v.scheduled d b,
    v.own a,
  );
}

pub Agrees-change :
    (a d : ℕ) (m : PulledMessage) (messages : Map ℕ PulledMessage) (expirations : Schedule)
    → lookup a messages ≡ some m
    → Agrees messages expirations
    → Agrees
        (insert a (record m { deadline = d }) messages)
        (add_key (d, m.ack_id) (remove_key (m.deadline, m.ack_id) expirations))
Agrees-change a d m messages expirations found v = record {
  unique = insert-Unique a _ messages v.unique;
  sorted = add_key-IsSorted _ _ (remove_key-IsSorted _ expirations v.sorted);
  own =
      λ b. ground (arith, lookup-insert a b (record m { deadline = d }) messages, v.own b, v.own a);
  scheduled = λ e b. ground (
    arith,
    lookup-insert a b (record m { deadline = d }) messages,
    has-add_key (d, m.ack_id) (e, b) (remove_key (m.deadline, m.ack_id) expirations),
    has-remove_key (m.deadline, m.ack_id) (e, b) expirations,
    v.scheduled e b,
    v.own a,
  );
}

-- Adding a message under an ack ID that a well-formed tracker does not have keeps it well formed.
pub add-IsValid :
    (t : OutstandingMessageTracker) (m : PulledMessage)
    → lookup m.ack_id t.messages ≡ none
    → IsValid t
    → IsValid (add t m)
unfolding add
add-IsValid t m fresh v = Agrees-insert m t.messages t.expirations fresh v

clear-IsValid : (t : OutstandingMessageTracker) → IsValid (clear t)
unfolding clear
clear-IsValid t = new_tracker-IsValid
