-- ===== src/Topics/Name.antt =====
-- src/topics/topic_name.rs and src/subscriptions/subscription_name.rs, which differ in the
-- collection only. Text is its UTF-8 bytes.
pub mod RoundTrip
use deltio.Prelude.{
  Bool, Bytes, Eq, Option, [], arith, bytes_eq, bytes_eq_iff, codes, drop, if◌then◌else◌, is_empty,
  leb, length, ltb, none, not, some, starts_with, true, ℕ, ◌&&◌, ◌++◌, ◌+◌, ◌==◌, ◌>>=◌, ◌||◌, ◌↔◌,
  ◌∷◌, ◌≡◌, bytes_eq_instance,
}

pub record TopicName : Type 0 where
  pub project_id : Bytes
  pub topic_id : Bytes

pub record SubscriptionName : Type 0 where
  pub project_id : Bytes
  pub subscription_id : Bytes

abbrev pub project_prefix : Bytes
project_prefix = codes "projects/"

abbrev topic_prefix : Bytes
topic_prefix = codes "/topics/"

abbrev subscription_prefix : Bytes
subscription_prefix = codes "/subscriptions/"

-- `str::get(start..)`: the index lies in the text and not inside a character.
abbrev pub starts_char : Bytes → Bool
starts_char [] = true
starts_char (c ∷ s) = ltb c 128 || leb 192 c

unfoldable pub get_from : ℕ → Bytes → Option Bytes
get_from start s =
    if leb start (length s) && starts_char (drop start s) then some (drop start s) else none

-- The text before the first slash.
pub before_slash : Bytes → Option Bytes
before_slash [] = none
before_slash (c ∷ s) =
    let rest = before_slash s in if c == b'/' then some [] else (rest >>= λ r. some (c ∷ r))

unfoldable pub trim_start : Bytes → Bytes
trim_start [] = []
trim_start (c ∷ s) = let rest = trim_start s in if c == b'/' then rest else c ∷ s

unfoldable pub trim_end : Bytes → Bytes
trim_end [] = []
trim_end (c ∷ s) = let rest = trim_end s in if is_empty rest && c == b'/' then [] else c ∷ rest

-- `trim_matches('/')`.
abbrev pub trim_slashes : Bytes → Bytes
trim_slashes s = trim_end (trim_start s)

-- The body that both `try_parse` share; the collection's length is that of its prefix.
pub parse_name : ℕ → Bytes → Option (Bytes × Bytes)
unfolding get_from before_slash trim_start trim_end
parse_name collection_len unparsed =
    if leb (length unparsed) (9 + collection_len + 2)
    then none
    else if not (starts_with unparsed project_prefix)
    then none
    else (get_from 9 unparsed >>= λ rest. before_slash rest >>= λ project_id.
        get_from (9 + length project_id + collection_len) unparsed >>= λ id.
        some (project_id, trim_slashes id))

unfoldable pub parse_topic_name : Bytes → Option TopicName
unfolding parse_name
parse_topic_name unparsed =
    parse_name 8 unparsed >>= λ (p, t). some (record { project_id = p; topic_id = t })

unfoldable pub parse_subscription_name : Bytes → Option SubscriptionName
unfolding parse_name
parse_subscription_name unparsed =
    parse_name 15 unparsed >>= λ (p, s). some (record { project_id = p; subscription_id = s })

unfoldable pub show_topic_name : TopicName → Bytes
show_topic_name n = project_prefix ++ (n.project_id ++ (topic_prefix ++ n.topic_id))

unfoldable pub show_subscription_name : SubscriptionName → Bytes
show_subscription_name n =
    project_prefix ++ (n.project_id ++ (subscription_prefix ++ n.subscription_id))

abbrev pub deleted_topic : TopicName
deleted_topic = record { project_id = []; topic_id = codes "_deleted_topic_" }

-- Names as keys of maps.
abbrev topic_name_eq : TopicName → TopicName → Bool
topic_name_eq m n = bytes_eq m.project_id n.project_id && bytes_eq m.topic_id n.topic_id

abbrev pub subscription_name_eq : SubscriptionName → SubscriptionName → Bool
subscription_name_eq m n =
    bytes_eq m.project_id n.project_id && bytes_eq m.subscription_id n.subscription_id

pub topic_name_eq_iff : (m n : TopicName) → (topic_name_eq m n ≡ true) ↔ (m ≡ n)
topic_name_eq_iff m n =
    ground (arith, bytes_eq_iff m.project_id n.project_id, bytes_eq_iff m.topic_id n.topic_id)

pub subscription_name_eq_iff :
    (m n : SubscriptionName) → (subscription_name_eq m n ≡ true) ↔ (m ≡ n)
subscription_name_eq_iff m n = ground (
  arith,
  bytes_eq_iff m.project_id n.project_id,
  bytes_eq_iff m.subscription_id n.subscription_id,
)

instance abbrev pub topic_name_key : Eq TopicName
topic_name_key = record { beq = topic_name_eq; beq_iff = topic_name_eq_iff }

instance abbrev pub subscription_name_key : Eq SubscriptionName
subscription_name_key = record { beq = subscription_name_eq; beq_iff = subscription_name_eq_iff }
