-- ===== src/Tests/Delivery.antt =====
-- A subscription at work: an ordered one with two messages, before and after a pull.
use deltio.Prelude.{
  List, [], arith, contains, false, insert, lookup, put, refl, remove, retain, some, total, ℕ, ◌+◌,
  ◌<◌, ◌^◌, ◌∷◌, ◌≡◌, ◌≤◌, nat_eq, bytes_eq_instance,
}
use deltio.Subscriptions.Outstanding
use deltio.Subscriptions.Outstanding.{add, len}
use deltio.Subscriptions.Actor.{SubscriptionActor, is_message_expired}
use deltio.Subscriptions.Actor.Post.{post_messages, post_each, enqueue, accepts}
use deltio.Subscriptions.Actor.Pull.{
  pull_capacity, pull_messages, pending_keys, pull_all, pull_backlog, pull_key, pull_keys,
  pull_head, deliver, forget, pulled_message, finish_pull, count_pulled, sort_keys, sort_in,
}
use deltio.Subscriptions.Actor.Requests.{acknowledge_messages, seek_to_time}
use deltio.Subscriptions.Actor.Receive.{start, receive, pull, post, request, step}
use deltio.Subscriptions.Actor.Stored.{stored, held}
use deltio.Subscriptions.Actor.Invariant.{Inv, keyed, flight}
use deltio.Subscriptions.Actor.Invariant.Lifecycle.{start-Inv}
use deltio.Subscriptions.Actor.Invariant.Requests.{post_messages-Inv}
use deltio.Subscriptions.Actor.Invariant.PullAll.{pull_messages-Inv}
use deltio.Subscriptions.Schedule.{add_key}
use deltio.Subscriptions.Pulled.{ack_deadline}
use deltio.Subscriptions.Actor.Invariant.Reach.{
  Room, Reach, started, turned, step-Inv, Reach-exclusive,
}
use deltio.Subscriptions.Actor.Delivery.{post_messages-stored}
use deltio.Subscriptions.Actor.Delivery.Pull.{PullSpec, pull_messages-PullSpec}
use deltio.Subscriptions.Actor.Delivery.Ack.{Acks, acknowledge_messages-Acks}
use deltio.Subscriptions.Actor.Delivery.Seek.{newer, seek_to_time-keeps_newer}
use deltio.Subscriptions.Actor.Delivery.Conserves.{Keeps}
use deltio.Subscriptions.Actor.Delivery.AtLeastOnce.{step-conserves}
use deltio.Tests.Samples.{plain, keyed_message, ordered, env, key}

abbrev pub idle : SubscriptionActor
unfolding start
idle = start 7 ordered false

idle-Inv : Inv idle
unfolding start
idle-Inv = start-Inv 7 ordered false

abbrev pub waiting : SubscriptionActor
unfolding post_messages post_each enqueue insert lookup
waiting = post_messages (plain ∷ keyed_message ∷ []) idle

waiting-Inv : Inv waiting
unfolding post_messages post_each enqueue insert lookup
waiting-Inv = post_messages-Inv (plain ∷ keyed_message ∷ []) idle idle-Inv

waiting-Room : Room waiting
unfolding Outstanding.len waiting idle
waiting-Room = record { ack_ids = omega arith; retries = omega arith }

post_messages-stored_example :
    stored (λ _. 1) (post_messages (plain ∷ keyed_message ∷ []) idle)
    ≡ stored (λ _. 1) idle
      + total (λ _. 1) (retain (accepts idle.compiled_filter) (plain ∷ keyed_message ∷ []))
unfolding idle
post_messages-stored_example = post_messages-stored (plain ∷ keyed_message ∷ []) idle refl (λ _. 1)

waiting-capacity : waiting.next_ack_id + pull_capacity 10 5 waiting < 2 ^ 64
unfolding pull_capacity pending_keys Outstanding.len contains waiting idle
waiting-capacity = omega arith

pull_messages-PullSpec_example : PullSpec 10 5 waiting (pull_messages 10 5 env waiting)
pull_messages-PullSpec_example =
    pull_messages-PullSpec 10 5 env waiting waiting-capacity waiting-Inv

abbrev pub busy : SubscriptionActor
busy = (pull_messages 10 5 env waiting).0

busy-Inv : Inv busy
busy-Inv = pull_messages-Inv 10 5 env waiting waiting-capacity waiting-Inv

step-Inv_example :
    (b : SubscriptionActor) × (step env (request (pull 10 5)) waiting ≡ some b) × Inv b
step-Inv_example = step-Inv env (request (pull 10 5)) waiting (omega arith) waiting-Room waiting-Inv

step-conserves_example : Keeps waiting (λ _. 0) (receive env (pull 10 5) waiting).0
unfolding step
step-conserves_example =
    step-conserves env (request (pull 10 5)) waiting (receive env (pull 10 5) waiting).0 tt
      (omega arith) waiting-Room waiting-Inv refl

idle-Room : Room idle
unfolding Outstanding.len idle
idle-Room = record { ack_ids = omega arith; retries = omega arith }

busy-Reach : Reach 7 ordered false busy
unfolding step receive waiting idle
busy-Reach =
    turned {a = waiting} env (request (pull 10 5))
      (turned {a = idle} env (request (post (plain ∷ keyed_message ∷ []))) started tt idle-Room
        refl)
      (omega arith) waiting-Room refl

Reach-exclusive_example : held (keyed busy.info key) busy ≤ flight key busy.keys_in_flight
Reach-exclusive_example = Reach-exclusive busy-Reach key

abbrev acked : List ℕ
acked = 1 ∷ 9 ∷ []

pub busy-live : busy.deleted ≡ false
unfolding waiting idle pull_messages pull_capacity pull_all pull_backlog pull_key pull_keys
    pull_head deliver forget pulled_message finish_pull count_pulled is_message_expired pending_keys
    sort_keys sort_in Outstanding.len Outstanding.add ack_deadline contains insert lookup remove put
    add_key
busy-live = refl

acknowledge_messages-Acks_example :
    Acks acked busy (acknowledge_messages acked busy).0 (acknowledge_messages acked busy).1
acknowledge_messages-Acks_example = acknowledge_messages-Acks acked busy busy-live busy-Inv

seek_to_time-keeps_newer_example :
    (stored (λ _. 1) (seek_to_time 150 busy) ≡ stored (newer (λ _. 1) 150) busy)
    × (held (λ _. 1) (seek_to_time 150 busy) ≡ 0)
    × ((seek_to_time 150 busy).keys_in_flight ≡ [])
seek_to_time-keeps_newer_example = seek_to_time-keeps_newer 150 busy busy-live (λ _. 1)

busy-room : busy.retry_queue.next_seq + Outstanding.len busy.outstanding < 2 ^ 64
unfolding waiting idle pull_messages pull_capacity pull_all pull_backlog pull_key pull_keys
    pull_head deliver forget pulled_message finish_pull count_pulled is_message_expired pending_keys
    sort_keys sort_in Outstanding.len Outstanding.add ack_deadline contains insert lookup remove put
    add_key
busy-room = omega arith
