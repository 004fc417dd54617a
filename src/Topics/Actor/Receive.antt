-- ===== src/Topics/Actor/Receive.antt =====
-- `TopicActor::receive`.
use deltio.Prelude.{List, ℕ, nat_eq}
use deltio.Paging.{Paging}
use deltio.Topics.Message.{TopicMessage}
use deltio.Topics.Name.{SubscriptionName}
use deltio.Topics.Actor.{
  TopicActor, TopicInfo, TopicUpdate, TopicStats, PublishEnvironment, Publish, apply_topic_update,
  publish_messages, attach_subscription, remove_subscription, delete_topic, list_subscriptions,
  get_topic_stats,
}

pub data TopicRequest : Type 0 where
  publish : List TopicMessage → TopicRequest
  attach : SubscriptionName → ℕ → TopicRequest
  detach : SubscriptionName → TopicRequest
  delete : TopicRequest
  list : Paging → TopicRequest
  get_info : TopicRequest
  update : TopicUpdate → TopicRequest
  stats : TopicRequest

pub data TopicResponse : Type 0 where
  publishes : Publish → TopicResponse
  succeeds : TopicResponse
  lists : List (SubscriptionName × ℕ) → Paging → TopicResponse
  info_is : TopicInfo → TopicResponse
  stats_are : TopicStats → TopicResponse

unfoldable pub receive_topic :
    PublishEnvironment → TopicRequest → TopicActor → TopicActor × TopicResponse
receive_topic env (publish messages) a =
    let (a', r) = publish_messages env messages a in (a', publishes r)
receive_topic env (attach name id) a = (attach_subscription name id a, succeeds)
receive_topic env (detach name) a = (remove_subscription name a, succeeds)
receive_topic env delete a = (delete_topic a, succeeds)
receive_topic env (list paging) a =
    let (page, next) = list_subscriptions paging a in (a, lists page next)
receive_topic env get_info a = (a, info_is a.info)
receive_topic env (update u) a =
    let info = apply_topic_update a.info u in (record a { info = info }, info_is info)
receive_topic env stats a = (a, stats_are (get_topic_stats a))
