-- ===== src/Text/Time.antt =====
-- src/time.rs: a wall-clock time, in nanoseconds since the Unix epoch, as RFC 3339 text.
use deltio.Prelude.{Bytes, codes, if◌then◌else◌, leb, ltb, ℕ, ◌%◌, ◌*◌, ◌++◌, ◌+◌, ◌-◌, ◌/◌, nat_eq}
use deltio.Text.Decimal.{padded}

-- Days since the epoch to year, month and day.
epoch_days_to_date : ℕ → ℕ × ℕ × ℕ
epoch_days_to_date days =
    let z = days + 719468 in
    let era = z / 146097 in
    let doe = z - era * 146097 in
    let yoe = (doe - doe / 1460 + doe / 36524 - doe / 146096) / 365 in
    let y = yoe + era * 400 in
    let doy = doe - (365 * yoe + yoe / 4 - yoe / 100) in
    let mp = (5 * doy + 2) / 153 in
    let d = doy - (153 * mp + 2) / 5 + 1 in
    let m = if ltb mp 10 then mp + 3 else mp - 9 in
    let y' = if leb m 2 then y + 1 else y in (y', m, d)

unfoldable pub format_rfc3339 : ℕ → Bytes
unfolding epoch_days_to_date padded
format_rfc3339 time =
    let total_secs = time / 1_000_000_000 in
    let millis = time % 1_000_000_000 / 1_000_000 in
    let remaining = total_secs % 86400 in
    let (year, month, day) = epoch_days_to_date (total_secs / 86400) in
    padded 4 year
    ++ codes "-"
    ++ padded 2 month
    ++ codes "-"
    ++ padded 2 day
    ++ codes "T"
    ++ padded 2 (remaining / 3600)
    ++ codes ":"
    ++ padded 2 (remaining % 3600 / 60)
    ++ codes ":"
    ++ padded 2 (remaining % 60)
    ++ codes "."
    ++ padded 3 millis
    ++ codes "+00:00"
