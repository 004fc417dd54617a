-- ===== src/Subscriptions/RetryQueue/Invariant.antt =====
-- The well-formedness of the retry queue: each message has one place in the schedule.
use deltio.Prelude.{
  Bool, Map, Option, Unique, [], arith, false, if◌then◌else◌, insert-Unique, lookup, lookup-insert,
  lookup-nil, lookup-remove, none, remove, remove-Unique, some, true, ℕ, ◌+◌, ◌<◌, ◌==◌, ◌^◌, ◌≡◌,
  ◌≤◌, nat_eq,
}
use deltio.Topics.Message.{TopicMessage}
use deltio.Subscriptions.Schedule.{
  Schedule, IsSorted, has, remove_key, has-nil, has-add_key, has-remove_key, add_key-IsSorted,
  remove_key-IsSorted,
}
use deltio.Subscriptions.RetryQueue.{
  RetryQueue, new_queue, schedule_message, clear_queue, drain_queue,
}

abbrev due_at : (ℕ → ℕ) → ℕ → ℕ → Option TopicMessage → Bool
due_at at d s none = false
due_at at d s (some m) = at s == d

-- `at` is the time for which each message was scheduled.
pub record Agrees (at : ℕ → ℕ) (schedule : Schedule) (messages : Map ℕ TopicMessage) : Type 0 where
  pub unique : Unique messages
  pub sorted : IsSorted schedule
  pub scheduled : (d s : ℕ) → has (d, s) schedule ≡ due_at at d s (lookup s messages)

pub record IsValid (q : RetryQueue) : Type 0 where
  pub at : ℕ → ℕ
  pub agrees : Agrees at q.schedule q.messages
  pub fresh : (s : ℕ) → q.next_seq ≤ s → lookup s q.messages ≡ none

Agrees-nil : Agrees (λ s. 0) [] []
Agrees-nil = record {
  unique = tt;
  sorted = tt;
  scheduled = λ d s. rw (lookup-nil s, has-nil (d, s));
}

pub new_queue-IsValid : IsValid new_queue
new_queue-IsValid = record { at = λ s. 0; agrees = Agrees-nil; fresh = λ s h. lookup-nil s }

pub clear_queue-IsValid : (q : RetryQueue) → IsValid (clear_queue q)
unfolding clear_queue
clear_queue-IsValid q = record { at = λ s. 0; agrees = Agrees-nil; fresh = λ s h. lookup-nil s }

-- The times once the sequence number `s` is scheduled for `d`.
abbrev at_new : (ℕ → ℕ) → ℕ → ℕ → ℕ → ℕ
at_new at s d i = if s == i then d else at i

-- Scheduling a message keeps a well-formed queue well formed, as long as the sequence number does
-- not wrap.
pub schedule_message-IsValid :
    (q : RetryQueue) (m : TopicMessage) (deliver_at : ℕ)
    → q.next_seq + 1 < 2 ^ 64
    → IsValid q
    → IsValid (schedule_message q m deliver_at)
unfolding schedule_message
schedule_message-IsValid q m deliver_at small v = record {
  at = at_new v.at q.next_seq deliver_at;
  agrees = record {
    unique = insert-Unique q.next_seq m q.messages v.agrees.unique;
    sorted = add_key-IsSorted _ q.schedule v.agrees.sorted;
    scheduled = λ d s. ground (
      arith,
      lookup-insert q.next_seq s m q.messages,
      has-add_key (deliver_at, q.next_seq) (d, s) q.schedule,
      v.agrees.scheduled d s,
      v.fresh q.next_seq (omega arith),
    );
  };
  fresh = λ s h. ground (arith, lookup-insert q.next_seq s m q.messages, v.fresh s (omega arith));
}

pub Agrees-remove :
    (at : ℕ → ℕ) (d s : ℕ) (messages : Map ℕ TopicMessage) (schedule : Schedule)
    → has (d, s) schedule ≡ true
    → Agrees at schedule messages
    → Agrees at (remove_key (d, s) schedule) (remove s messages)
Agrees-remove at d s messages schedule here v = record {
  unique = remove-Unique s messages v.unique;
  sorted = remove_key-IsSorted _ schedule v.sorted;
  scheduled = λ e i. ground (
    arith,
    lookup-remove s i messages,
    has-remove_key (d, s) (e, i) schedule,
    v.scheduled e i,
    v.scheduled d s,
  );
}

pub drain_queue-IsValid : (q : RetryQueue) → IsValid (drain_queue q).0
unfolding drain_queue
drain_queue-IsValid q = record { at = λ s. 0; agrees = Agrees-nil; fresh = λ s h. lookup-nil s }
