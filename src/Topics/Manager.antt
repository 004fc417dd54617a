-- ===== src/Topics/Manager.antt =====
-- src/topics/topic_manager.rs, with the handle of src/topics/topic.rs and the page of
-- src/topics/paging.rs. The lock makes each call one step.
use deltio.Prelude.{Bool, Bytes, List, Option, bytes_eq, ℕ, nat_eq}
use deltio.Results.{Result, ok_or}
use deltio.Paging.{Paging}
use deltio.Registry.{State, create_entry, delete_entry, get_entry, list_all, list_in_project}
use deltio.Topics.Name.{TopicName, topic_name_key}
use deltio.Topics.Actor.{TopicInfo}

-- The mailbox of the handle leads to the actor of that internal ID.
pub record Topic : Type 0 where
  pub name : TopicName
  pub internal_id : ℕ

pub data CreateTopicError : Type 0 where
  already_exists create_closed : CreateTopicError

pub data GetTopicError : Type 0 where
  does_not_exist get_closed : GetTopicError

abbrev pub TopicManager : Type 0
TopicManager = State TopicName Topic

abbrev pub topic_id_of : Topic → ℕ
topic_id_of t = t.internal_id

abbrev pub topic_name_of : Topic → TopicName
topic_name_of t = t.name

abbrev pub new_topic : TopicName → ℕ → Topic
new_topic name internal_id = record { name = name; internal_id = internal_id }

pub record TopicsPage : Type 0 where
  pub topics : List Topic
  pub offset : Option ℕ

unfoldable pub create_topic :
    TopicInfo → TopicManager → TopicManager × Result CreateTopicError Topic
create_topic info s =
    let (s', made) = create_entry info.name (new_topic info.name) s in
    (s', ok_or made already_exists)

unfoldable pub get_topic : TopicName → TopicManager → Result GetTopicError Topic
get_topic name s = ok_or (get_entry name s) does_not_exist

abbrev pub list_all_topics : TopicManager → List Topic
list_all_topics s = list_all s

abbrev pub topic_is_in_project : Bytes → Topic → Bool
topic_is_in_project project_id t = bytes_eq t.name.project_id project_id

unfoldable pub list_topics : Bytes → Paging → TopicManager → TopicsPage
list_topics project_id paging s =
    let (topics, next) = list_in_project topic_id_of (topic_is_in_project project_id) paging s in
    record { topics = topics; offset = next.offset }

-- `TopicManagerDelegate::delete`.
abbrev pub forget_topic : TopicName → TopicManager → TopicManager
forget_topic name s = delete_entry name s
