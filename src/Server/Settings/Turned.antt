-- ===== src/Server/Settings/Turned.antt =====
-- The settings of the subscriptions through each request and turn of a subscription.
use deltio.Prelude.{
  Bytes, List, Option-cases, [], if_cases, inl, inr, is_empty, true, ◌∷◌, ◌≡◌, nat_eq,
}
use deltio.Results.{ok}
use deltio.Topics.Name.{subscription_name_key}
use deltio.Subscriptions.Outstanding.{take_expired}
use deltio.Subscriptions.RetryQueue.{take_ready}
use deltio.Subscriptions.Actor.{SubscriptionActor, Environment}
use deltio.Subscriptions.Actor.Requeue.{handle_retry_ready}
use deltio.Subscriptions.Actor.Requests.{update_info, modify_push_config, detach, clear_messages}
use deltio.Subscriptions.Actor.Receive.{
  Request, Event, request, deadline_passed, backoff_elapsed, post, get_info, update, pull,
  acknowledge, modify, deletion, detachment, push_config, stats, seek, receive, step, retry,
}
use deltio.Subscriptions.Actor.SameInfo.Pull.{pull_messages-info}
use deltio.Subscriptions.Actor.SameInfo.{
  post_messages-info, handle_expired_messages-info, handle_retry_ready-info,
  acknowledge_messages-info, modify_deadline-info, delete-info, seek_to_time-info,
}
use deltio.Api.Proto.{SubscriptionProto}
use deltio.Api.Parser.Bounds.{SettingsInBounds}
use deltio.Api.Parser.Updates.{parse_subscription_update}
use deltio.Api.Subscriber.Settings.{apply_update-SettingsInBounds}
use deltio.Server.Settings.{ValidAt, same_info}

-- The updates that arrive are those that a request gave.
abbrev pub IsParsed : Request → Type 0
IsParsed (update u) =
    (p : SubscriptionProto) × (paths : List Bytes) × (parse_subscription_update p paths ≡ ok u)
IsParsed r = Unit

abbrev pub IsParsedEvent : Event → Type 0
IsParsedEvent (request r) = IsParsed r
IsParsedEvent e = Unit

detach-valid : (a : SubscriptionActor) → SettingsInBounds a.info → SettingsInBounds (detach a).info
unfolding detach clear_messages
detach-valid a v =
    if_cases (λ (b : SubscriptionActor). SettingsInBounds b.info) a.info.detached a
      (clear_messages (record a { info = record (a.info) { detached = true } })) (λ e. v)
      (λ e. record {
        ack_deadline = v.ack_deadline;
        retry_policy = v.retry_policy;
        dead_letter_policy = v.dead_letter_policy;
        retention = v.retention;
      })

pub receive-valid :
    (env : Environment) (r : Request) (a : SubscriptionActor)
    → IsParsed r
    → SettingsInBounds a.info
    → SettingsInBounds (receive env r a).0.info
unfolding receive update_info modify_push_config
receive-valid env (post messages) a p v = same_info a.info _ (post_messages-info messages a) v
receive-valid env get_info a p v = v
receive-valid env (update u) a (proto, paths, e) v =
    apply_update-SettingsInBounds proto paths u a.info e v
receive-valid env (pull n m) a p v = same_info a.info _ (pull_messages-info n m env a) v
receive-valid env (acknowledge ids) a p v = same_info a.info _ (acknowledge_messages-info ids a) v
receive-valid env (modify cs) a p v = same_info a.info _ (modify_deadline-info env cs a) v
receive-valid env deletion a p v = same_info a.info _ (delete-info env a) v
receive-valid env detachment a p v = detach-valid a v
receive-valid env (push_config c) a p v = record {
  ack_deadline = v.ack_deadline;
  retry_policy = v.retry_policy;
  dead_letter_policy = v.dead_letter_policy;
  retention = v.retention;
}
receive-valid env stats a p v = v
receive-valid env (seek time) a p v = same_info a.info _ (seek_to_time-info time a) v

pub step-valid :
    (env : Environment) (e : Event) (a : SubscriptionActor)
    → IsParsedEvent e
    → SettingsInBounds a.info
    → ValidAt (step env e a)
unfolding step retry
step-valid env (request r) a p v = receive-valid env r a p v
step-valid env deadline_passed a p v = elim (Option-cases (take_expired a.outstanding env.now)) [
  | inl e ↦ rw (e, step) tt
  | inr ((tracker, []), e) ↦ rw (e, step) v
  | inr ((tracker, q ∷ qs), e) ↦
      rw (e, step)
        (same_info a.info _
          (handle_expired_messages-info env (q ∷ qs) (record a { outstanding = tracker })) v)
]
step-valid env backoff_elapsed a p v =
    let (queue, ready) = take_ready a.retry_queue env.now in
    let taken = record a { retry_queue = queue } in
    if_cases (λ (b : SubscriptionActor). SettingsInBounds b.info) (is_empty ready) taken
      (handle_retry_ready env.now ready taken) (λ e. v)
      (λ e. same_info a.info _ (handle_retry_ready-info env.now ready taken) v)
