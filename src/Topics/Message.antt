-- ===== src/Topics/Message.antt =====
-- src/topics/topic_message.rs and src/collections/messages.rs. A wall-clock time is a number of
-- nanoseconds since the Unix epoch, an instant of the monotonic clock a number of nanoseconds since
-- the process's own epoch. An attribute map is an association list.
pub mod Ids
use deltio.Prelude.{
  Bool, Bytes, List, Map, Option, [], none, retain, some, ℕ, ◌*◌, ◌++◌, ◌+◌, ◌^◌, ◌∷◌,
}

abbrev pub Attributes : Type 0
Attributes = Map Bytes Bytes

pub record TopicMessage : Type 0 where
  pub id : ℕ
  pub published_at : ℕ
  pub published_at_instant : ℕ
  pub payload : Bytes
  pub attributes : Option Attributes
  pub ordering_key : Option Bytes

-- The message before it is published: the default ID and the Unix epoch.
abbrev pub new_message : Bytes → Option Attributes → ℕ → TopicMessage
new_message payload attributes now = record {
  id = 0;
  published_at = 0;
  published_at_instant = now;
  payload = payload;
  attributes = attributes;
  ordering_key = none;
}

abbrev pub publish : TopicMessage → ℕ → ℕ → ℕ → TopicMessage
publish m id published_at instant = record m {
  id = id;
  published_at = published_at;
  published_at_instant = instant;
}

-- `(topic as u64) << 32 | local as u64`; the two halves are disjoint, so that `|` adds them.
unfoldable pub message_id : ℕ → ℕ → ℕ
message_id topic_internal_id topic_local_message_id =
    topic_internal_id * 2 ^ 32 + topic_local_message_id

abbrev pub Messages : Type 0
Messages = List TopicMessage

abbrev pub append_messages : Messages → List TopicMessage → Messages
append_messages list messages_iter = list ++ messages_iter

abbrev pub pop_front : Messages → Option (TopicMessage × Messages)
pop_front [] = none
pop_front (m ∷ list) = some (m, list)

abbrev pub retain_messages : Messages → (TopicMessage → Bool) → Messages
retain_messages list predicate = retain predicate list
