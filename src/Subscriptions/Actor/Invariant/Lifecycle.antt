-- ===== src/Subscriptions/Actor/Invariant/Lifecycle.antt =====
-- Updates, detach, delete and seek keep the invariant.
use deltio.Prelude.{
  Bool, Bytes, Option, [], arith, if_cases, is_some, lookup-nil, none, not, refl, some, true, ℕ,
  ◌∷◌, ◌≡◌, nat_eq, bytes_eq_instance,
}
use deltio.Topics.Message.{Messages}
use deltio.Subscriptions.Info.{SubscriptionInfo, SubscriptionUpdate, PushConfig, apply_update}
use deltio.Subscriptions.Outstanding
use deltio.Subscriptions.Outstanding.Invariant.{new_tracker-IsValid}
use deltio.Subscriptions.RetryQueue.{clear_queue}
use deltio.Subscriptions.RetryQueue.Invariant.{clear_queue-IsValid, new_queue-IsValid}
use deltio.Subscriptions.Actor.{SubscriptionActor, Environment, queue_of, push_registry_set}
use deltio.Subscriptions.Actor.Requests.{
  update_info, modify_push_config, clear_messages, detach, finish_delete, delete, Deletion,
}
use deltio.Subscriptions.Actor.Receive.{start}
use deltio.Subscriptions.Actor.Invariant.{
  Inv, no_extra, AllKeyed, QueuesKeyed, signal_if-WellFormed,
}

same-AllKeyed :
    (info other : SubscriptionInfo) (key : Option Bytes) (ms : Messages)
    → info.enable_message_ordering ≡ other.enable_message_ordering
    → AllKeyed info key ms
    → AllKeyed other key ms
same-AllKeyed info other key [] e h = tt
same-AllKeyed info other key (m ∷ ms) e h = (ground arith, same-AllKeyed info other key ms e h.1)

pub update_info-Inv :
    (u : SubscriptionUpdate) (a : SubscriptionActor) → Inv a → Inv (update_info u a)
unfolding update_info apply_update
update_info-Inv u a v = record {
  tracker = v.tracker;
  retry = v.retry;
  fresh = v.fresh;
  queues = v.queues;
  plain = same-AllKeyed a.info (apply_update a.info u) none a.backlog refl v.plain;
  keyed_queues =
      λ key. same-AllKeyed a.info (apply_update a.info u) (some key) _ refl (v.keyed_queues key);
  exclusive = v.exclusive;
}

pub modify_push_config-Inv :
    (c : Option PushConfig) (a : SubscriptionActor) → Inv a → Inv (modify_push_config c a)
unfolding modify_push_config
modify_push_config-Inv c a v = record {
  tracker = v.tracker;
  retry = v.retry;
  fresh = v.fresh;
  queues = v.queues;
  plain = same-AllKeyed a.info (modify_push_config c a).info none a.backlog refl v.plain;
  keyed_queues = λ key.
      same-AllKeyed a.info (modify_push_config c a).info (some key) _ refl (v.keyed_queues key);
  exclusive = v.exclusive;
}

nothing_queued : (info : SubscriptionInfo) → QueuesKeyed info []
nothing_queued info key = rw (lookup-nil key, queue_of) tt

clear_messages-Inv : (a : SubscriptionActor) → Inv (clear_messages a)
unfolding clear_messages Outstanding.clear clear_queue
clear_messages-Inv a = record {
  tracker = new_tracker-IsValid;
  retry = clear_queue-IsValid a.retry_queue;
  fresh = λ n h. lookup-nil n;
  queues = tt;
  plain = tt;
  keyed_queues = nothing_queued a.info;
  exclusive = λ key. omega arith;
}

pub detach-Inv : (a : SubscriptionActor) → Inv a → Inv (detach a)
unfolding detach
detach-Inv a v = if_cases Inv a.info.detached a _ (λ _. v) (λ _. clear_messages-Inv _)

finish_delete-Inv : (a : SubscriptionActor) → Inv (finish_delete a)
unfolding finish_delete
finish_delete-Inv a =
    signal_if-WellFormed no_extra true (push_registry_set a.info.name none) _ (clear_messages-Inv _)

pub delete-Inv : (env : Environment) (a : SubscriptionActor) → Inv a → Inv (delete env a).0
unfolding delete
delete-Inv env a v =
    if_cases (λ (r : SubscriptionActor × Deletion). Inv r.0) a.deleted _ _ (λ _. v)
      (λ _.
        if_cases (λ (r : SubscriptionActor × Deletion). Inv r.0) (not (is_some env.topic)) _ _
          (λ _. finish_delete-Inv _)
          (λ _.
            if_cases (λ (r : SubscriptionActor × Deletion). Inv r.0) env.topic_answers _ _
              (λ _. finish_delete-Inv _)
              (λ _. record {
                tracker = v.tracker;
                retry = v.retry;
                fresh = v.fresh;
                queues = v.queues;
                plain = v.plain;
                keyed_queues = v.keyed_queues;
                exclusive = v.exclusive;
              })))

pub start-Inv : (id : ℕ) (info : SubscriptionInfo) (manager : Bool) → Inv (start id info manager)
unfolding start
start-Inv id info manager =
    signal_if-WellFormed no_extra (is_some info.push_config)
      (push_registry_set info.name info.push_config) _
      (record {
        tracker = new_tracker-IsValid;
        retry = new_queue-IsValid;
        fresh = λ n h. lookup-nil n;
        queues = tt;
        plain = tt;
        keyed_queues = nothing_queued info;
        exclusive = λ key. omega arith;
      })
