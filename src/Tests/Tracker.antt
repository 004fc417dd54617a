-- ===== src/Tests/Tracker.antt =====
-- The trackers of messages in flight, at two messages of which one is due.
use deltio.Prelude.{
  List, [], arith, insert, lookup, min, refl, remove, some, ◌%◌, ◌+◌, ◌<◌, ◌∷◌, ◌≡◌, ◌≤◌, nat_eq,
  bytes_eq_instance,
}
use deltio.Subscriptions.Policies.{calculate_backoff, calculate_backoff_bounds}
use deltio.Subscriptions.Pulled.{
  PulledMessage, DeadlineModification, ack_deadline, ack_deadline_bounds, extend, nack,
}
use deltio.Subscriptions.Outstanding.{
  OutstandingMessageTracker, new_tracker, add, take_expired, modify, remove_ids, next_expiration,
  modify_each, modify_found,
}
use deltio.Subscriptions.Schedule.{add_key, remove_key}
use deltio.Subscriptions.Outstanding.Invariant.{IsValid, new_tracker-IsValid, add-IsValid}
use deltio.Subscriptions.Outstanding.Expiry.{Expires, take_expired-Expires}
use deltio.Subscriptions.Outstanding.Updates.{Removes, remove_ids-Removes}
use deltio.Subscriptions.Outstanding.Modify.{Modifies, modify-Modifies, modify-next_expiration}
use deltio.Subscriptions.RetryQueue.{RetryQueue, new_queue, schedule_message, take_ready}
use deltio.Subscriptions.RetryQueue.Invariant
use deltio.Subscriptions.RetryQueue.Ready.{Readies, take_ready-Readies}
use deltio.Tests.Samples.{plain, keyed_message, pulled_plain, pulled_keyed, backoff}

abbrev two : OutstandingMessageTracker
unfolding add
two = add (add new_tracker pulled_plain) pulled_keyed

two-IsValid : IsValid two
unfolding add lookup insert add_key
two-IsValid =
    add-IsValid (add new_tracker pulled_plain) pulled_keyed refl
      (add-IsValid new_tracker pulled_plain refl new_tracker-IsValid)

take_expired-Expires_example :
    (t' : OutstandingMessageTracker) × (result : List PulledMessage) × (take_expired two 150_000_000
      ≡ some (t', result))
    × IsValid t'
    × Expires 150_000_000 two.messages t'.messages result
take_expired-Expires_example = take_expired-Expires two 150_000_000 two-IsValid

abbrev changes_of_two : List DeadlineModification
changes_of_two = nack 1 ∷ extend 2 300_000_000 ∷ extend 9 400_000_000 ∷ []

modify-Modifies_example :
    IsValid (modify two changes_of_two).0
    × Modifies changes_of_two two.messages
        (modify two changes_of_two).0.messages
        []
        (modify two changes_of_two).1
modify-Modifies_example = modify-Modifies two changes_of_two two-IsValid

remove_ids-Removes_example :
    IsValid (remove_ids two (1 ∷ 9 ∷ [])).0
    × Removes
        (1 ∷ 9 ∷ [])
        two.messages
        (remove_ids two (1 ∷ 9 ∷ [])).0.messages
        []
        (remove_ids two (1 ∷ 9 ∷ [])).1
remove_ids-Removes_example = remove_ids-Removes two (1 ∷ 9 ∷ []) two-IsValid

-- Extending the later message does not change the first expiration.
modify-next_expiration_example :
    next_expiration (modify two (extend 2 300_000_000 ∷ [])).0 ≡ next_expiration two
unfolding modify modify_each modify_found add lookup insert remove add_key remove_key
modify-next_expiration_example =
    modify-next_expiration two (extend 2 300_000_000 ∷ []) two-IsValid refl

calculate_backoff_bounds_example :
    (min backoff.minimum_backoff backoff.maximum_backoff ≤ calculate_backoff backoff 7)
    × (calculate_backoff backoff 7 ≤ backoff.maximum_backoff)
calculate_backoff_bounds_example = calculate_backoff_bounds backoff 7 (omega arith)

ack_deadline_bounds_example :
    (1_234_567_890 < ack_deadline 1_234_567_890 + 1000)
    × (ack_deadline 1_234_567_890 < 1_234_567_890 + 100_000_000)
    × (ack_deadline 1_234_567_890 % 100_000_000 ≡ 0)
ack_deadline_bounds_example = ack_deadline_bounds 1_234_567_890 (omega arith)

abbrev pub retrying : RetryQueue
unfolding schedule_message
retrying = schedule_message (schedule_message new_queue plain 300) keyed_message 100

retrying-IsValid : Invariant.IsValid retrying
unfolding schedule_message
retrying-IsValid =
    Invariant.schedule_message-IsValid (schedule_message new_queue plain 300) keyed_message 100
      (omega arith)
      (Invariant.schedule_message-IsValid new_queue plain 300 (omega arith)
        Invariant.new_queue-IsValid)

take_ready-Readies_example :
    Invariant.IsValid (take_ready retrying 200).0
    × Readies retrying-IsValid.at 200 retrying.messages
        (take_ready retrying 200).0.messages
        (take_ready retrying 200).1
take_ready-Readies_example = take_ready-Readies retrying 200 retrying-IsValid
