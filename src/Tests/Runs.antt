-- ===== src/Tests/Runs.antt =====
-- Runs of the definitions at concrete inputs, most of them from the tests of the sources.
use deltio.Prelude.{
  [], codes, false, insert, lookup, none, refl, remove, some, true, ◌∷◌, ◌≡◌, ◌≢◌, nat_eq,
  bytes_eq_instance,
}
use deltio.Text.Decimal.{decimal, digits}
use deltio.Text.Time.{format_rfc3339}
use deltio.Topics.Message.{message_id}
use deltio.Topics.Name.{
  TopicName, parse_topic_name, parse_subscription_name, show_topic_name, show_subscription_name,
}
use deltio.Subscriptions.Policies.{calculate_backoff}
use deltio.Subscriptions.Pulled.{ack_deadline}
use deltio.Subscriptions.Outstanding
use deltio.Subscriptions.Outstanding.{
  next_expiration, add, new_tracker, oldest, oldest_published_at, poll_next_expired, sleep_until,
  take_expired, take_loop, OutstandingMessageTracker,
}
use deltio.Subscriptions.RetryQueue
use deltio.Subscriptions.RetryQueue.{
  new_queue, poll_next_ready, ready_loop, retry_len, schedule_message, sleep_for, take_ready,
  RetryQueue,
}
use deltio.Subscriptions.Schedule.{add_key}
use deltio.Subscriptions.Filter.{equals, has_attr, both, either, negation, matches}
use deltio.Subscriptions.Filter.Lexer.{
  tokenize, ok, out_of_fuel, ident, not_word, and_word, attribute_has,
}
use deltio.Subscriptions.Filter.Parser.{parse}
use deltio.Subscriptions.Filter.Fuel.Parser.{parse_ends}
use deltio.Subscriptions.Actor.Requeue.{dead_letter_message, remove_all, or_no_attributes}
use deltio.Subscriptions.Actor.Requests.{get_stats}
use deltio.Subscriptions.Actor.Receive.{start}
use deltio.Tests.Samples.{env, name, ordered, plain, pulled_plain, pulled_keyed, backoff}

known_timestamp : format_rfc3339 1_774_619_365_852_000_000 ≡ codes "2026-03-27T13:49:25.852+00:00"
unfolding format_rfc3339
known_timestamp = refl

abbrev topic : TopicName
topic = record { project_id = codes "lets-go"; topic_id = codes "deltio" }

parses_valid : parse_topic_name (codes "projects/lets-go/topics/deltio") ≡ some topic
unfolding parse_topic_name
parses_valid = refl

parses_subscription :
    parse_subscription_name (codes "projects/p/subscriptions/s/")
    ≡ some (record { project_id = codes "p"; subscription_id = codes "s" })
unfolding parse_subscription_name
parses_subscription = refl

shows_topic : show_topic_name topic ≡ codes "projects/lets-go/topics/deltio"
unfolding show_topic_name
shows_topic = refl

shows_subscription : show_subscription_name name ≡ codes "projects/p/subscriptions/s"
unfolding show_subscription_name
shows_subscription = refl

composes_id : message_id 3 7 ≡ 12_884_901_895
unfolding message_id
composes_id = refl

keywords :
    tokenize (codes "NOT attributes:a And x")
    ≡ ok (
        (not_word, 0)
        ∷ (attribute_has (codes "a"), 4)
        ∷ (and_word, 17)
        ∷ (ident (codes "x"), 21)
        ∷ [])
unfolding tokenize
keywords = refl

precedence :
    parse (codes "attributes:a OR NOT attributes.b = \"x\" AND attributes:c")
    ≡ ok (record {
      expr =
          either
            (has_attr (codes "a"))
            (both (negation (equals (codes "b") (codes "x") false)) (has_attr (codes "c")));
    })
unfolding parse
precedence = refl

missing_is_not_equal : matches (record { expr = equals (codes "t") (codes "x") true }) none ≡ true
unfolding matches
missing_is_not_equal = refl

fourth_attempt : calculate_backoff backoff 4 ≡ 80_000_000_000
unfolding calculate_backoff
fourth_attempt = refl

rounds_up : ack_deadline 1_234_567_890 ≡ 1_300_000_000
unfolding ack_deadline
rounds_up = refl

abbrev tracker : Outstanding.OutstandingMessageTracker
unfolding add
tracker = add (add new_tracker pulled_keyed) pulled_plain

oldest_first : oldest_published_at tracker ≡ some 100
unfolding oldest_published_at oldest tracker insert
oldest_first = refl

sleeps : poll_next_expired tracker 50_000_000 ≡ Outstanding.sleep_until 100_000_000
unfolding poll_next_expired next_expiration take_expired take_loop tracker insert add_key
sleeps = refl

dead_letter_count :
    lookup (codes "CloudPubSubDeadLetterSourceDeliveryCount") (
      deltio.Subscriptions.Actor.Requeue.or_no_attributes
        (dead_letter_message name 6 9 plain).attributes)
    ≡ some (codes "5")
unfolding dead_letter_message decimal digits insert lookup
dead_letter_count = refl

removes_all : remove_all (1 ∷ 2 ∷ []) ((1, 5) ∷ (3, 2) ∷ (2, 2) ∷ []) ≡ (3, 2) ∷ []
unfolding remove_all remove
removes_all = refl

sleeps_for_backoff :
    poll_next_ready (schedule_message new_queue plain 300) 200 ≡ RetryQueue.sleep_until 300
unfolding poll_next_ready take_ready ready_loop schedule_message sleep_for insert add_key
sleeps_for_backoff = refl

retries_counted : retry_len (schedule_message new_queue plain 300) ≡ 1
unfolding retry_len schedule_message insert
retries_counted = refl

no_stats_age : (get_stats env (start 7 ordered false)).oldest_unacked_age ≡ 0
unfolding get_stats start oldest_published_at oldest
no_stats_age = refl

parse_ends_example : parse (codes "NOT attributes:a") ≢ out_of_fuel
parse_ends_example = parse_ends (codes "NOT attributes:a")
