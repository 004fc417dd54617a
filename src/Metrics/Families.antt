-- ===== src/Metrics/Families.antt =====
-- src/metrics/mod.rs: the families of the metrics endpoint. Numbers with a fraction are printed by
-- the standard library, a parameter.
use deltio.Prelude.{Bytes, List, [], codes, ℕ, ◌∷◌, nat_eq}
use deltio.Text.Decimal.{decimal}
use deltio.Topics.Name.{show_topic_name, show_subscription_name}
use deltio.Topics.Actor.{TopicStats}
use deltio.Subscriptions.Info.{SubscriptionStats, add_u64}
use deltio.Push.Metrics.{PushMetricsSnapshot}
use deltio.Metrics.Encoder.{family, labeled, sample}

-- The text of nanoseconds in seconds with three digits, and of microseconds in seconds with six.
pub record Fractions : Type 0 where
  pub seconds_text : ℕ → Bytes
  pub micros_text : ℕ → Bytes

abbrev gauge : Bytes
gauge = codes "gauge"

abbrev counter : Bytes
counter = codes "counter"

abbrev for_each {ℓ} : {A : Type ℓ} → List A → (A → Bytes → Bytes) → Bytes → Bytes
for_each [] write buf = buf
for_each (x ∷ xs) write buf = for_each xs write (write x buf)

-- A family with a sample for each topic.
abbrev topic_family : Bytes → Bytes → Bytes → (TopicStats → ℕ) → List TopicStats → Bytes → Bytes
topic_family name kind help value topics buf =
    for_each topics
      (λ t. labeled name ((codes "topic", show_topic_name t.topic_name) ∷ []) (decimal (value t)))
      (family name kind help buf)

abbrev subscription_labels : SubscriptionStats → List (Bytes × Bytes)
subscription_labels s =
    (codes "subscription", show_subscription_name s.subscription_name)
    ∷ (codes "topic", show_topic_name s.topic_name)
    ∷ []

-- A family of gauges with a sample for each subscription and its topic.
abbrev subscription_family :
    Bytes → Bytes → (SubscriptionStats → Bytes) → List SubscriptionStats → Bytes → Bytes
subscription_family name help value subscriptions buf =
    for_each subscriptions (λ s. labeled name (subscription_labels s) (value s))
      (family name gauge help buf)

-- A family of counters with a sample for each subscription.
abbrev counter_family :
    Bytes → Bytes → (SubscriptionStats → ℕ) → List SubscriptionStats → Bytes → Bytes
counter_family name help value subscriptions buf =
    for_each subscriptions
      (λ s.
        labeled name ((codes "subscription", show_subscription_name s.subscription_name) ∷ [])
          (decimal (value s)))
      (family name counter help buf)

abbrev bound_texts : List Bytes
bound_texts =
    codes "0.005"
    ∷ codes "0.01"
    ∷ codes "0.025"
    ∷ codes "0.05"
    ∷ codes "0.1"
    ∷ codes "0.25"
    ∷ codes "0.5"
    ∷ codes "1"
    ∷ codes "2.5"
    ∷ codes "5"
    ∷ codes "10"
    ∷ codes "+Inf"
    ∷ []

-- The cumulative counts of the buckets.
unfoldable pub cumulative_counts : ℕ → List ℕ → List ℕ
cumulative_counts cumulative [] = []
cumulative_counts cumulative (n ∷ ns) =
    add_u64 cumulative n ∷ cumulative_counts (add_u64 cumulative n) ns

abbrev bucket_lines : List Bytes → List ℕ → Bytes → Bytes
bucket_lines [] counts buf = buf
bucket_lines (le ∷ les) [] buf = buf
bucket_lines (le ∷ les) (n ∷ ns) buf = bucket_lines les ns (
    labeled (codes "deltio_push_dispatch_duration_seconds_bucket") ((codes "le", le) ∷ [])
      (decimal n) buf)

unfoldable pub render_build : Bytes → ℕ → Bytes → Bytes
unfolding family labeled sample decimal
render_build version start_time_seconds buf =
    sample (codes "deltio_start_time_seconds") (decimal start_time_seconds) (
      family (codes "deltio_start_time_seconds") gauge
        (codes "Unix timestamp at which the metrics service started.")
        (labeled (codes "deltio_build_info") ((codes "version", version) ∷ []) (decimal 1) (
          family (codes "deltio_build_info") gauge
            (codes "Build information; the value is always 1.") buf)))

unfoldable pub render_totals : ℕ → ℕ → Bytes → Bytes
unfolding family sample decimal
render_totals topics_total subscriptions_total buf =
    sample (codes "deltio_subscriptions") (decimal subscriptions_total) (
      family (codes "deltio_subscriptions") gauge (codes "Number of subscriptions.") (
        sample (codes "deltio_topics") (decimal topics_total)
          (family (codes "deltio_topics") gauge (codes "Number of topics.") buf)))

unfoldable pub render_topics : List TopicStats → Bytes → Bytes
unfolding family labeled decimal
render_topics topics buf =
    topic_family (codes "deltio_topic_messages_published_bytes_total") counter
      (codes "Total number of message data bytes published to the topic.") (λ t. t.published_bytes)
      topics
      (topic_family (codes "deltio_topic_messages_published_total") counter
        (codes "Total number of messages published to the topic.") (λ t. t.published_count) topics
        (topic_family (codes "deltio_topic_subscriptions") gauge
          (codes "Number of subscriptions attached to the topic.") (λ t. t.subscription_count)
          topics
          (topic_family (codes "deltio_topic_retained_messages") gauge
            (codes "Number of messages currently retained on the topic.") (λ t. t.message_count)
            topics buf)))

unfoldable pub render_subscriptions : Fractions → List SubscriptionStats → Bytes → Bytes
unfolding family labeled decimal
render_subscriptions fractions ss buf =
    subscription_family (codes "deltio_subscription_oldest_unacked_message_age_seconds")
      (codes "Age in seconds of the oldest unacknowledged message.")
      (λ s. fractions.seconds_text s.oldest_unacked_age) ss
      (subscription_family (codes "deltio_subscription_retry_messages")
        (codes "Number of messages waiting on retry backoff before redelivery.")
        (λ s. decimal s.retry_messages_count) ss
        (subscription_family (codes "deltio_subscription_outstanding_messages")
          (codes "Number of messages delivered but not yet acknowledged.")
          (λ s. decimal s.outstanding_messages_count) ss
          (subscription_family (codes "deltio_subscription_backlog_messages")
            (codes "Number of messages in the subscription backlog waiting to be delivered.")
            (λ s. decimal s.backlog_messages_count) ss buf)))

unfoldable pub render_counters : List SubscriptionStats → Bytes → Bytes
unfolding family labeled decimal
render_counters ss buf =
    counter_family (codes "deltio_subscription_messages_dead_lettered_total")
      (codes "Total number of messages forwarded to a dead letter topic.")
      (λ s. s.counters.dead_lettered) ss
      (counter_family (codes "deltio_subscription_messages_expired_total")
        (codes "Total number of messages redelivered after their ack deadline expired.")
        (λ s. s.counters.expired) ss
        (counter_family (codes "deltio_subscription_messages_nacked_total")
          (codes "Total number of messages explicitly nacked.") (λ s. s.counters.nacked) ss
          (counter_family (codes "deltio_subscription_messages_acked_total")
            (codes "Total number of messages acknowledged.") (λ s. s.counters.acked) ss
            (counter_family (codes "deltio_subscription_messages_pulled_total")
              (codes "Total number of messages delivered to consumers.") (λ s. s.counters.pulled) ss
              buf))))

unfoldable pub render_push : Fractions → PushMetricsSnapshot → Bytes → Bytes
unfolding family labeled sample decimal cumulative_counts
render_push fractions push buf =
    let outcomes =
      labeled (codes "deltio_push_dispatch_total") ((codes "result", codes "failure") ∷ [])
        (decimal push.dispatch_failure)
        (labeled (codes "deltio_push_dispatch_total") ((codes "result", codes "success") ∷ [])
          (decimal push.dispatch_success)
          (family (codes "deltio_push_dispatch_total") counter
            (codes "Total number of HTTP push dispatches, by result.") buf)) in
    sample (codes "deltio_push_dispatch_duration_seconds_count") (decimal push.duration_count) (
      sample (codes "deltio_push_dispatch_duration_seconds_sum")
        (fractions.micros_text push.duration_sum_micros)
        (bucket_lines bound_texts (cumulative_counts 0 push.duration_buckets) (
          family (codes "deltio_push_dispatch_duration_seconds") (codes "histogram")
            (codes "Duration of HTTP push dispatches in seconds.") outcomes)))
