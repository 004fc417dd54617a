-- ===== src/Tests/Metrics.antt =====
-- Push metrics and labels at concrete inputs.
use deltio.Prelude.{
  Bool, Bytes, List, [], arith, codes, false, some, true, ℕ, ◌%◌, ◌++◌, ◌^◌, ◌∷◌, ◌≡◌, nat_eq,
}
use deltio.Push.Metrics.{new_metrics, record_all, snapshot, finite_bounds}
use deltio.Push.Metrics.Counts.{histogram, durations_of, micros, snapshot-record_all}
use deltio.Metrics.Encoder.{escape_label_value, read_value, read_value-escape_label_value}

-- Two dispatches of some milliseconds that succeeded, and one of a minute that failed.
abbrev dispatches : List (Bool × ℕ)
dispatches = (true, 2_000_000) ∷ (true, 7_000_000) ∷ (false, 60_000_000_000) ∷ []

snapshot-record_all_example :
    let s = snapshot (record_all dispatches new_metrics) in
    (s.dispatch_success ≡ 2)
    × (s.dispatch_failure ≡ 1)
    × (s.duration_buckets ≡ histogram finite_bounds (durations_of dispatches))
    × (s.duration_count ≡ 3)
    × (s.duration_sum_micros ≡ micros dispatches % 2 ^ 64)
snapshot-record_all_example = snapshot-record_all dispatches (omega arith)

abbrev quoted : Bytes
quoted = codes "say \"hi\" \\ bye\n"

read_value-escape_label_value_example :
    read_value false (escape_label_value quoted ++ codes "\"}") ≡ some (quoted, codes "}")
read_value-escape_label_value_example = read_value-escape_label_value quoted (codes "}")
