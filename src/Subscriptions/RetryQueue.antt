-- ===== src/Subscriptions/RetryQueue.antt =====
-- src/subscriptions/retry_queue.rs: messages that wait for their backoff to elapse, by sequence
-- number. `notified` counts the calls of `notify_waiters`.
pub mod Invariant
pub mod Ready
use deltio.Prelude.{
  Bool, List, Map, Option, [], if◌then◌else◌, insert, length, lookup, ltb, none, remove, some, suc,
  true, values, ℕ, ◌%◌, ◌+◌, ◌^◌, ◌∷◌, nat_eq,
}
use deltio.Topics.Message.{TopicMessage}
use deltio.Subscriptions.Schedule.{Key, Schedule, key_lt, first, add_key}
use deltio.Subscriptions.Outstanding.{notify_if}

pub record RetryQueue : Type 0 where
  pub schedule : Schedule
  pub messages : Map ℕ TopicMessage
  pub next_seq : ℕ
  pub notified : ℕ

abbrev pub new_queue : RetryQueue
new_queue = record { schedule = []; messages = []; next_seq = 0; notified = 0 }

-- A new key is announced if it comes first.
abbrev comes_first : Key → Option Key → Bool
comes_first k none = true
comes_first k (some j) = key_lt k j

-- A release build wraps the sequence number.
unfoldable pub schedule_message : RetryQueue → TopicMessage → ℕ → RetryQueue
schedule_message q message deliver_at = record {
  schedule = add_key (deliver_at, q.next_seq) q.schedule;
  messages = insert q.next_seq message q.messages;
  next_seq = (q.next_seq + 1) % 2 ^ 64;
  notified = notify_if (comes_first (deliver_at, q.next_seq) (first q.schedule)) q.notified;
}

pub record Popped : Type 0 where
  pub schedule : Schedule
  pub messages : Map ℕ TopicMessage
  pub result : List TopicMessage

abbrev push_found : Option TopicMessage → Popped → Popped
push_found none r = r
push_found (some m) r = record r { result = m ∷ r.result }

-- The loop of `take_ready` over the schedule, the earliest key first.
unfoldable pub ready_loop : ℕ → Schedule → Map ℕ TopicMessage → Popped
ready_loop now [] messages = record { schedule = []; messages = messages; result = [] }
ready_loop now ((d, s) ∷ rest) messages =
    let popped = push_found (lookup s messages) (ready_loop now rest (remove s messages)) in
    if ltb now d
    then record { schedule = (d, s) ∷ rest; messages = messages; result = [] }
    else popped

unfoldable pub take_ready : RetryQueue → ℕ → RetryQueue × List TopicMessage
take_ready q now = (record q { schedule = r.schedule; messages = r.messages }, r.result)
  where
    r : Popped
    r = ready_loop now q.schedule q.messages

unfoldable pub retry_len : RetryQueue → ℕ
retry_len q = length q.messages

unfoldable pub clear_queue : RetryQueue → RetryQueue
clear_queue q = record q { schedule = []; messages = []; notified = suc q.notified }

unfoldable pub drain_queue : RetryQueue → RetryQueue × List TopicMessage
drain_queue q =
    (record q { schedule = []; messages = []; notified = suc q.notified }, values q.messages)

-- One round of the loop of `poll_next_ready`.
pub data Poll : Type 0 where
  ready : RetryQueue → List TopicMessage → Poll
  sleep_until : ℕ → Poll
  wait_notified : Poll

unfoldable pub sleep_for : Option Key → Poll
sleep_for none = wait_notified
sleep_for (some k) = sleep_until k.0

unfoldable pub poll_next_ready : RetryQueue → ℕ → Poll
poll_next_ready q now =
    let (q', taken) = take_ready q now in
    elim taken [ [] ↦ sleep_for (first q'.schedule) | m ∷ ms ↦ ready q' (m ∷ ms) ]
