-- ===== src/Metrics/Render.antt =====
-- src/metrics/mod.rs: what the metrics endpoint answers. The version of the build is a parameter.
use deltio.Prelude.{
  Bytes, List, Option, [], arith, bytes_eq, codes, if◌then◌else◌, length, some, total, ℕ, ◌%◌, ◌+◌,
  ◌<◌, ◌^◌, ◌||◌, ◌∷◌, ◌≡◌, nat_eq,
}
use deltio.Topics.Actor.{TopicStats}
use deltio.Topics.Actor.Receive.{TopicResponse, stats, stats_are}
use deltio.Topics.Manager.{Topic, list_all_topics}
use deltio.Subscriptions.Info.{SubscriptionStats, add_u64}
use deltio.Subscriptions.Manager.{Subscription, list_all_subscriptions}
use deltio.Subscriptions.Actor.Receive.{Response, Request}
use deltio.Push.Metrics.{PushMetrics, PushMetricsSnapshot, snapshot}
use deltio.Server.{Server, Clock}
use deltio.Server.Route.{call_topic}
use deltio.Server.Calls.{call_subscription}
use deltio.Metrics.Families.{
  Fractions, cumulative_counts, render_build, render_totals, render_topics, render_subscriptions,
  render_counters, render_push,
}

render_text :
    Fractions
    → Bytes
    → ℕ
    → ℕ
    → List TopicStats
    → List SubscriptionStats
    → PushMetricsSnapshot
    → ℕ
    → Bytes
unfolding render_build render_totals render_topics render_subscriptions render_counters render_push
render_text fractions version topics_total subscriptions_total topics ss push start_time_seconds =
    render_push fractions push (
      render_counters ss (
        render_subscriptions fractions ss (
          render_topics topics (
            render_totals topics_total subscriptions_total
              (render_build version start_time_seconds [])))))

abbrev topic_stats_of : Option TopicResponse → List TopicStats → List TopicStats
topic_stats_of (some (stats_are t)) rest = t ∷ rest
topic_stats_of _ rest = rest

abbrev subscription_stats_of : Option Response → List SubscriptionStats → List SubscriptionStats
subscription_stats_of (some (Response.stats_are s)) rest = s ∷ rest
subscription_stats_of _ rest = rest

-- The statistics of those that answer; the calls change nothing.
gather_topics : Clock → Server → List Topic → List TopicStats
unfolding call_topic
gather_topics clock s [] = []
gather_topics clock s (t ∷ ts) =
    let rest = gather_topics clock s ts in
    topic_stats_of (call_topic clock t.internal_id stats s).1 rest

gather_subscriptions : Clock → Server → List Subscription → List SubscriptionStats
unfolding call_subscription
gather_subscriptions clock s [] = []
gather_subscriptions clock s (h ∷ hs) =
    let rest = gather_subscriptions clock s hs in
    subscription_stats_of (call_subscription clock h Request.stats s).1 rest

unfoldable render : Fractions → Bytes → ℕ → Clock → PushMetrics → Server → Bytes
unfolding render_text gather_topics gather_subscriptions snapshot
render fractions version start_time_seconds clock push s =
    let topics = list_all_topics s.topic_manager in
    let subscriptions = list_all_subscriptions s.subscription_manager in
    render_text fractions version (length topics) (length subscriptions)
      (gather_topics clock s topics) (gather_subscriptions clock s subscriptions) (snapshot push)
      start_time_seconds

-- The status code and the body of an answer to a request.
unfoldable pub handle : Bytes → Bytes → ℕ × Bytes
handle body path =
    if bytes_eq path (codes "/metrics")
    then (200, body)
    else if bytes_eq path (codes "/healthz") || bytes_eq path (codes "/health")
    then (200, codes "ok")
    else (404, codes "not found")

abbrev last_or : ℕ → List ℕ → ℕ
last_or d [] = d
last_or d (n ∷ ns) = last_or n ns

cumulative_counts-last :
    (cumulative : ℕ) (ns : List ℕ)
    → cumulative < 2 ^ 64
    → last_or cumulative (cumulative_counts cumulative ns)
      ≡ (cumulative + total (λ n. n) ns) % 2 ^ 64
unfolding cumulative_counts
cumulative_counts-last cumulative [] small = omega arith
cumulative_counts-last cumulative (n ∷ ns) small =
    omega (arith, cumulative_counts-last (add_u64 cumulative n) ns (omega arith))

-- The last bucket of the histogram shows the count of the histogram, whatever was recorded.
cumulative_counts-duration_count :
    (m : PushMetrics)
    → last_or 0 (cumulative_counts 0 (snapshot m).duration_buckets) ≡ (snapshot m).duration_count
unfolding snapshot
cumulative_counts-duration_count m =
    omega (arith, cumulative_counts-last 0 m.duration_buckets (omega arith))
