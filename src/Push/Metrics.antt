-- ===== src/Push/Metrics.antt =====
-- src/push/metrics.rs: the counters of the push loop. Each atomic operation is one step; a duration is
-- in nanoseconds, and so are the finite bounds of the histogram, the last bound being infinite.
pub mod Counts
use deltio.Prelude.{
  Bool, List, [], false, if◌then◌else◌, leb, total, true, ℕ, ◌%◌, ◌/◌, ◌^◌, ◌∷◌, nat_eq,
}
use mathlib.Core.Path.{subst}
use deltio.Subscriptions.Info.{add_u64}

abbrev pub finite_bounds : List ℕ
finite_bounds =
    5_000_000 ∷ 10_000_000 ∷ 25_000_000 ∷ 50_000_000 ∷ 100_000_000 ∷ 250_000_000 ∷ 500_000_000
    ∷ 1_000_000_000 ∷ 2_500_000_000 ∷ 5_000_000_000 ∷ 10_000_000_000 ∷ []

-- A count for each bound, the infinite one last.
pub record PushMetrics : Type 0 where
  pub dispatch_success : ℕ
  pub dispatch_failure : ℕ
  pub duration_buckets : List ℕ
  pub duration_sum_micros : ℕ

abbrev zeros_for : List ℕ → List ℕ
zeros_for [] = 0 ∷ []
zeros_for (b ∷ bs) = 0 ∷ zeros_for bs

abbrev pub new_metrics : PushMetrics
new_metrics = record {
  dispatch_success = 0;
  dispatch_failure = 0;
  duration_buckets = zeros_for finite_bounds;
  duration_sum_micros = 0;
}

-- The first bucket whose bound is not below the duration gets one more.
count_duration : List ℕ → ℕ → List ℕ → List ℕ
count_duration bounds duration [] = []
count_duration [] duration (n ∷ ns) = add_u64 n 1 ∷ ns
count_duration (b ∷ bs) duration (n ∷ ns) =
    let rest = count_duration bs duration ns in
    if leb duration b then add_u64 n 1 ∷ ns else n ∷ rest

abbrev count_outcome : Bool → PushMetrics → PushMetrics
count_outcome true m = record m { dispatch_success = add_u64 m.dispatch_success 1 }
count_outcome false m = record m { dispatch_failure = add_u64 m.dispatch_failure 1 }

unfoldable pub record_dispatch : Bool → ℕ → PushMetrics → PushMetrics
unfolding count_duration
record_dispatch success duration m =
    let counted = count_outcome success m in
    record counted {
      duration_buckets = count_duration finite_bounds duration m.duration_buckets;
      duration_sum_micros = add_u64 m.duration_sum_micros ((duration / 1000) % 2 ^ 64);
    }

pub record PushMetricsSnapshot : Type 0 where
  pub dispatch_success : ℕ
  pub dispatch_failure : ℕ
  pub duration_buckets : List ℕ
  pub duration_sum_micros : ℕ
  pub duration_count : ℕ

abbrev sum : List ℕ → ℕ
sum ns = total (λ n. n) ns

unfoldable pub snapshot : PushMetrics → PushMetricsSnapshot
snapshot m = record {
  dispatch_success = m.dispatch_success;
  dispatch_failure = m.dispatch_failure;
  duration_buckets = m.duration_buckets;
  duration_sum_micros = m.duration_sum_micros;
  duration_count = sum m.duration_buckets % 2 ^ 64;
}

-- A run of dispatches, each with its outcome and duration.
pub record_all : List (Bool × ℕ) → PushMetrics → PushMetrics
unfolding record_dispatch
record_all [] m = m
record_all ((success, duration) ∷ rest) m = record_all rest (record_dispatch success duration m)
