-- ===== src/Subscriptions/Outstanding.antt =====
-- src/subscriptions/outstanding.rs: the messages that were pulled and not acked, by ack ID, and the
-- schedule of their expirations. `notified` counts the calls of `notify_waiters`. The polling task
-- is `poll_next_expired` below: one round of its loop.
pub mod Invariant
pub mod Expiry
pub mod Updates
pub mod Modify
use deltio.Prelude.{
  Bool, List, Map, Option, [], false, if◌then◌else◌, insert, is_some, length, lookup, ltb, min,
  none, remove, some, suc, true, values, ℕ, ◌++◌, ◌||◌, ◌∷◌, nat_eq,
}
use deltio.Subscriptions.Pulled.{PulledMessage, DeadlineModification, modify_message_deadline}
use deltio.Subscriptions.Schedule.{
  Key, Schedule, key_eq, key_lt, first, first_is, add_key, remove_key,
}

pub record OutstandingMessageTracker : Type 0 where
  pub messages : Map ℕ PulledMessage
  pub expirations : Schedule
  pub notified : ℕ

abbrev pub expiration_key : PulledMessage → Key
expiration_key m = (m.deadline, m.ack_id)

-- `notify.notify_waiters()` under a condition.
abbrev pub notify_if : Bool → ℕ → ℕ
notify_if true n = suc n
notify_if false n = n

abbrev pub new_tracker : OutstandingMessageTracker
new_tracker = record { messages = []; expirations = []; notified = 0 }

unfoldable pub add : OutstandingMessageTracker → PulledMessage → OutstandingMessageTracker
add t m = record {
  messages = insert m.ack_id m t.messages;
  expirations = add_key (expiration_key m) t.expirations;
  notified =
      notify_if (first_is (λ e. key_lt (expiration_key m) e) (first t.expirations)) t.notified;
}

unfoldable pub next_expiration : OutstandingMessageTracker → Option ℕ
next_expiration t = elim (first t.expirations) [ none ↦ none | some k ↦ some k.0 ]

pub record Taken : Type 0 where
  pub messages : Map ℕ PulledMessage
  pub expirations : Schedule
  pub result : List PulledMessage

-- One round of the loop of `take_expired`, for the popped ack ID: `unwrap_unchecked` of a missing
-- message is undefined behaviour, here `none`.
abbrev take_one : Option PulledMessage → Option Taken → Option Taken
take_one none rest = none
take_one (some m) none = none
take_one (some m) (some r) = some (record r { result = m ∷ r.result })

-- The loop of `take_expired` over the schedule, the earliest key first.
unfoldable pub take_loop : ℕ → Schedule → Map ℕ PulledMessage → Option Taken
take_loop time [] messages = some (record { messages = messages; expirations = []; result = [] })
take_loop time ((d, a) ∷ rest) messages =
    let taken = take_one (lookup a messages) (take_loop time rest (remove a messages)) in
    if ltb time d
    then some (record { messages = messages; expirations = (d, a) ∷ rest; result = [] })
    else taken

unfoldable pub take_expired :
    OutstandingMessageTracker → ℕ → Option (OutstandingMessageTracker × List PulledMessage)
take_expired t time = elim (take_loop time t.expirations t.messages) [
  | none ↦ none
  | some r ↦ some (
    record { messages = r.messages; expirations = r.expirations; notified = t.notified },
    r.result,
  )
]

pub record Updating : Type 0 where
  pub messages : Map ℕ PulledMessage
  pub expirations : Schedule
  pub result : List PulledMessage
  pub should_notify : Bool

abbrev pub updating : OutstandingMessageTracker → Updating
updating t = record {
  messages = t.messages;
  expirations = t.expirations;
  result = [];
  should_notify = false;
}

abbrev pub updated : OutstandingMessageTracker → Updating → OutstandingMessageTracker
updated t u = record {
  messages = u.messages;
  expirations = u.expirations;
  notified = notify_if u.should_notify t.notified;
}

-- One round of the loop of `remove`, for the message found under the ack ID.
pub remove_found : Option Key → ℕ → Updating → Option PulledMessage → Updating
remove_found first_key a u none = u
remove_found first_key a u (some m) = record {
  messages = remove a u.messages;
  expirations = remove_key (expiration_key m) u.expirations;
  result = u.result ++ m ∷ [];
  should_notify = u.should_notify || first_is (key_eq (expiration_key m)) first_key;
}

pub remove_each : Option Key → List ℕ → Updating → Updating
remove_each first_key [] u = u
remove_each first_key (a ∷ ids) u =
    remove_each first_key ids (remove_found first_key a u (lookup a u.messages))

pub remove_ids : OutstandingMessageTracker → List ℕ → OutstandingMessageTracker × List PulledMessage
remove_ids t ids = (updated t done, done.result)
  where
    done : Updating
    done = remove_each (first t.expirations) ids (updating t)

-- One round of the loop of `modify`, for the message found under the ack ID.
unfoldable pub modify_found :
    Option Key → DeadlineModification → Updating → Option PulledMessage → Updating
modify_found first_key c u none = u
modify_found first_key c u (some m) = elim c.new_deadline [
  | some d ↦ record {
    messages = insert c.ack_id (modify_message_deadline m d) u.messages;
    expirations = add_key (d, m.ack_id) (remove_key (expiration_key m) u.expirations);
    result = u.result;
    should_notify =
        u.should_notify
        || first_is (key_eq (expiration_key m)) first_key
        || first_is (λ e. key_lt (d, m.ack_id) e) first_key;
  }
  | none ↦ record {
    messages = remove c.ack_id u.messages;
    expirations = remove_key (expiration_key m) u.expirations;
    result = u.result ++ m ∷ [];
    should_notify = u.should_notify || first_is (key_eq (expiration_key m)) first_key;
  }
]

unfoldable pub modify_each : Option Key → List DeadlineModification → Updating → Updating
modify_each first_key [] u = u
modify_each first_key (c ∷ cs) u =
    modify_each first_key cs (modify_found first_key c u (lookup c.ack_id u.messages))

unfoldable pub modify :
    OutstandingMessageTracker
    → List DeadlineModification
    → OutstandingMessageTracker × List PulledMessage
modify t modifications = (updated t done, done.result)
  where
    done : Updating
    done = modify_each (first t.expirations) modifications (updating t)

unfoldable pub clear : OutstandingMessageTracker → OutstandingMessageTracker
clear t = record { messages = []; expirations = []; notified = suc t.notified }

unfoldable pub drain : OutstandingMessageTracker → OutstandingMessageTracker × List PulledMessage
drain t = (record { messages = []; expirations = []; notified = suc t.notified }, values t.messages)

unfoldable pub len : OutstandingMessageTracker → ℕ
len t = length t.messages

unfoldable pub holds : OutstandingMessageTracker → ℕ → Bool
holds t a = is_some (lookup a t.messages)

-- The earliest publish time among the messages.
unfoldable pub oldest : List PulledMessage → Option ℕ
oldest [] = none
oldest (m ∷ ms) = elim (oldest ms) [
  | none ↦ some m.message.published_at
  | some p ↦ some (min m.message.published_at p)
]

unfoldable pub oldest_published_at : OutstandingMessageTracker → Option ℕ
oldest_published_at t = oldest (values t.messages)

-- One round of the loop of `poll_next_expired`: what expired is returned; otherwise the task sleeps
-- until the next expiration, or with none until it is notified.
pub data Poll : Type 0 where
  fault : Poll
  ready : OutstandingMessageTracker → List PulledMessage → Poll
  sleep_until : ℕ → Poll
  wait_notified : Poll

unfoldable pub poll_next_expired : OutstandingMessageTracker → ℕ → Poll
poll_next_expired t now = elim (take_expired t now) [
  | none ↦ fault
  | some (t', []) ↦ elim (next_expiration t') [ none ↦ wait_notified | some d ↦ sleep_until d ]
  | some (t', m ∷ ms) ↦ ready t' (m ∷ ms)
]
