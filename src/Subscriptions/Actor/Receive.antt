-- ===== src/Subscriptions/Actor/Receive.antt =====
-- `SubscriptionActor::start`, `receive` and the select loop.
use deltio.Prelude.{
  Bool, Bytes, List, Option, [], false, if◌then◌else◌, is_empty, is_some, none, some, ℕ, ◌∷◌,
  nat_eq, bytes_eq_instance,
}
use deltio.Topics.Message.{TopicMessage}
use deltio.Subscriptions.Pulled.{PulledMessage, DeadlineModification}
use deltio.Subscriptions.Info.{
  SubscriptionInfo, SubscriptionStats, SubscriptionUpdate, PushConfig, AckOutcome, no_counts,
}
use deltio.Subscriptions.Filter.{Filter}
use deltio.Subscriptions.Filter.Lexer.{Result, ok, err, out_of_fuel}
use deltio.Subscriptions.Filter.Parser.{parse}
use deltio.Subscriptions.Outstanding.{OutstandingMessageTracker, new_tracker, take_expired}
use deltio.Subscriptions.RetryQueue.{new_queue, take_ready}
use deltio.Subscriptions.Actor.{SubscriptionActor, Environment, push_registry_set, signal_if}
use deltio.Subscriptions.Actor.Post.{post_messages}
use deltio.Subscriptions.Actor.Pull.{PullResult, pull_messages}
use deltio.Subscriptions.Actor.Requeue.{handle_expired_messages, handle_retry_ready}
use deltio.Subscriptions.Actor.Requests.{
  Deletion, acknowledge_messages, modify_deadline, update_info, modify_push_config, detach, delete,
  seek_to_time, get_stats,
}

abbrev pub parsed : Result Filter → Option Filter
parsed (ok f) = some f
parsed (err e) = none
parsed out_of_fuel = none

-- A malformed filter is dropped.
abbrev pub compile : Option Bytes → Option Filter
compile none = none
compile (some raw) = parsed (parse raw)

unfoldable pub start : ℕ → SubscriptionInfo → Bool → SubscriptionActor
start internal_id info has_topic_manager =
    signal_if (is_some info.push_config) (push_registry_set info.name info.push_config) (record {
      internal_id = internal_id;
      info = info;
      backlog = [];
      outstanding = new_tracker;
      next_ack_id = 1;
      deleted = false;
      delivery_attempts = [];
      retry_queue = new_queue;
      has_topic_manager = has_topic_manager;
      compiled_filter = compile info.filter;
      ordered_queues = [];
      keys_in_flight = [];
      counters = no_counts;
      signals = [];
    })

pub data Request : Type 0 where
  post : List TopicMessage → Request
  get_info : Request
  update : SubscriptionUpdate → Request
  pull : ℕ → ℕ → Request
  acknowledge : List ℕ → Request
  modify : List DeadlineModification → Request
  deletion detachment : Request
  push_config : Option PushConfig → Request
  stats : Request
  seek : ℕ → Request

pub data Response : Type 0 where
  silent : Response
  info_is : SubscriptionInfo → Response
  pulls : PullResult → Response
  outcome_is : AckOutcome → Response
  deletes : Deletion → Response
  succeeds : Response
  stats_are : SubscriptionStats → Response

unfoldable pub receive : Environment → Request → SubscriptionActor → SubscriptionActor × Response
receive env (post messages) a = (post_messages messages a, silent)
receive env get_info a = (a, info_is a.info)
receive env (update u) a = (update_info u a, info_is (update_info u a).info)
receive env (pull max_count max_outstanding) a =
    let (a', r) = pull_messages max_count max_outstanding env a in (a', pulls r)
receive env (acknowledge ids) a = let (a', o) = acknowledge_messages ids a in (a', outcome_is o)
receive env (modify cs) a = let (a', o) = modify_deadline env cs a in (a', outcome_is o)
receive env deletion a = let (a', d) = delete env a in (a', deletes d)
receive env detachment a = (detach a, succeeds)
receive env (push_config c) a = (modify_push_config c a, succeeds)
receive env stats a = (a, stats_are (get_stats env a))
receive env (seek time) a = (seek_to_time time a, succeeds)

-- What the select loop takes up next: a request, or that a sleep of one of the pollers is over.
pub data Event : Type 0 where
  request : Request → Event
  deadline_passed backoff_elapsed : Event

abbrev pub expire :
    Environment
    → SubscriptionActor
    → Option (OutstandingMessageTracker × List PulledMessage)
    → Option SubscriptionActor
expire env a none = none
expire env a (some (tracker, [])) = some (record a { outstanding = tracker })
expire env a (some (tracker, p ∷ ps)) =
    some (handle_expired_messages env (p ∷ ps) (record a { outstanding = tracker }))

unfoldable pub retry : Environment → SubscriptionActor → SubscriptionActor
retry env a =
    let (queue, ready) = take_ready a.retry_queue env.now in
    let taken = record a { retry_queue = queue } in
    if is_empty ready then taken else handle_retry_ready env.now ready taken

-- One turn of the loop; `none` is the undefined behaviour of an unchecked unwrap.
unfoldable pub step : Environment → Event → SubscriptionActor → Option SubscriptionActor
step env (request r) a = some (receive env r a).0
step env deadline_passed a = expire env a (take_expired a.outstanding env.now)
step env backoff_elapsed a = some (retry env a)
