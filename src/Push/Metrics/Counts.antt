-- ===== src/Push/Metrics/Counts.antt =====
-- What the counters of the push loop show after a run of dispatches.
use deltio.Prelude.{
  Bool, List, [], ap, append-nil, append_assoc, arith, false, if_cases, if◌then◌else◌, leb, length,
  length-append, map, not, refl, retain, sym, total, total-append, true, ℕ, ◌%◌, ◌++◌, ◌+◌, ◌/◌,
  ◌<◌, ◌^◌, ◌∙◌, ◌∷◌, ◌≡◌, ◌≤◌, nat_eq,
}
use mathlib.Core.Path.{subst}
use deltio.Push.Metrics.{
  PushMetrics, finite_bounds, new_metrics, count_duration, record_dispatch, snapshot, record_all,
  sum,
}

-- How many of the durations are in each bucket, counted bucket by bucket: the durations up to the
-- first bound, those of the others up to the second one, and so on; what is above all is last.
pub histogram : List ℕ → List ℕ → List ℕ
histogram [] ds = length ds ∷ []
histogram (b ∷ bs) ds =
    length (retain (λ d. leb d b) ds) ∷ histogram bs (retain (λ d. not (leb d b)) ds)

abbrev pub durations_of : List (Bool × ℕ) → List ℕ
durations_of ds = map (λ d. d.1) ds

abbrev pub successes : List (Bool × ℕ) → ℕ
successes ds = total (λ d. if d.0 then 1 else 0) ds

abbrev pub failures : List (Bool × ℕ) → ℕ
failures ds = total (λ d. if d.0 then 0 else 1) ds

abbrev pub micros : List (Bool × ℕ) → ℕ
micros ds = total (λ d. d.1 / 1000) ds

retain-snoc_yes :
    (p : ℕ → Bool) (ds : List ℕ) (d : ℕ)
    → p d ≡ true
    → retain p (ds ++ d ∷ []) ≡ retain p ds ++ d ∷ []
retain-snoc_yes p [] d e = rw e refl
retain-snoc_yes p (x ∷ ds) d e = ground (arith, retain-snoc_yes p ds d e)

retain-snoc_no :
    (p : ℕ → Bool) (ds : List ℕ) (d : ℕ) → p d ≡ false → retain p (ds ++ d ∷ []) ≡ retain p ds
retain-snoc_no p [] d e = rw e refl
retain-snoc_no p (x ∷ ds) d e = ground (arith, retain-snoc_no p ds d e)

length-retain : (p : ℕ → Bool) (ds : List ℕ) → length (retain p ds) ≤ length ds
length-retain p [] = omega arith
length-retain p (x ∷ ds) = ground (arith, length-retain p ds)

length-snoc : (ds : List ℕ) (d : ℕ) → length (ds ++ d ∷ []) ≡ length ds + 1
length-snoc [] d = omega arith
length-snoc (x ∷ ds) d = omega (arith, length-snoc ds d)

-- One more duration, counted at once.
count_duration-histogram :
    (bounds : List ℕ) (d : ℕ) (ds : List ℕ)
    → length ds + 1 < 2 ^ 64
    → count_duration bounds d (histogram bounds ds) ≡ histogram bounds (ds ++ d ∷ [])
unfolding count_duration histogram
count_duration-histogram [] d ds small = ap (λ n. n ∷ []) (omega (arith, length-snoc ds d))
count_duration-histogram (b ∷ bs) d ds small =
    let up_to = λ (x : ℕ). leb x b in
    let above = λ (x : ℕ). not (leb x b) in
    let all = ds ++ d ∷ [] in
    if_cases (λ r. r ≡ histogram (b ∷ bs) all) (leb d b) _ _
      (λ e.
        ap (λ n. n ∷ histogram bs (retain above ds))
          (omega (
            arith,
            length-snoc (retain up_to ds) d,
            length-retain up_to ds,
            ap length (retain-snoc_yes up_to ds d e),
          ))
        ∙ ap (λ l. length (retain up_to all) ∷ histogram bs l)
            (sym (retain-snoc_no above ds d (ap not e))))
      (λ e.
        ap (λ l. length (retain up_to ds) ∷ l)
          (count_duration-histogram bs d (retain above ds) (omega (arith, length-retain above ds)))
        ∙ ap (λ l. length (retain up_to ds) ∷ histogram bs l)
            (sym (retain-snoc_yes above ds d (ap not e)))
        ∙ ap (λ l. length l ∷ histogram bs (retain above all)) (sym (retain-snoc_no up_to ds d e)))

-- What the counters show after the dispatches.
pub record Shows (ds : List (Bool × ℕ)) (m : PushMetrics) : Type 0 where
  pub outcomes : (m.dispatch_success ≡ successes ds) × (m.dispatch_failure ≡ failures ds)
  pub buckets : m.duration_buckets ≡ histogram finite_bounds (durations_of ds)
  pub micros_sum : m.duration_sum_micros ≡ micros ds % 2 ^ 64

successes_bound : (ds : List (Bool × ℕ)) → successes ds + failures ds ≡ length ds
successes_bound [] = refl
successes_bound ((true, d) ∷ ds) = omega (arith, successes_bound ds)
successes_bound ((false, d) ∷ ds) = omega (arith, successes_bound ds)

durations-snoc :
    (ds : List (Bool × ℕ)) (x : Bool × ℕ)
    → durations_of (ds ++ x ∷ []) ≡ durations_of ds ++ x.1 ∷ []
durations-snoc [] x = refl
durations-snoc (y ∷ ds) x = ap (λ l. y.1 ∷ l) (durations-snoc ds x)

length-durations : (ds : List (Bool × ℕ)) → length (durations_of ds) ≡ length ds
length-durations [] = refl
length-durations (x ∷ ds) = omega (arith, length-durations ds)

outcome-Shows :
    (success : Bool) (duration : ℕ) (ds : List (Bool × ℕ)) (m : PushMetrics)
    → (m.dispatch_success ≡ successes ds) × (m.dispatch_failure ≡ failures ds)
    → length ds + 1 < 2 ^ 64
    → let m' = record_dispatch success duration m in
      (m'.dispatch_success ≡ successes (ds ++ (success, duration) ∷ []))
      × (m'.dispatch_failure ≡ failures (ds ++ (success, duration) ∷ []))
unfolding record_dispatch
outcome-Shows true duration ds m o small = (
  omega (
    arith,
    o.0,
    successes_bound ds,
    total-append (λ (d : Bool × ℕ). if d.0 then 1 else 0) ds ((true, duration) ∷ []),
  ),
  omega (
    arith,
    o.1,
    total-append (λ (d : Bool × ℕ). if d.0 then 0 else 1) ds ((true, duration) ∷ []),
  ),
)
outcome-Shows false duration ds m o small = (
  omega (
    arith,
    o.0,
    total-append (λ (d : Bool × ℕ). if d.0 then 1 else 0) ds ((false, duration) ∷ []),
  ),
  omega (
    arith,
    o.1,
    successes_bound ds,
    total-append (λ (d : Bool × ℕ). if d.0 then 0 else 1) ds ((false, duration) ∷ []),
  ),
)

record_dispatch-Shows :
    (success : Bool) (duration : ℕ) (ds : List (Bool × ℕ)) (m : PushMetrics)
    → Shows ds m
    → length ds + 1 < 2 ^ 64
    → Shows (ds ++ (success, duration) ∷ []) (record_dispatch success duration m)
unfolding record_dispatch
record_dispatch-Shows success duration ds m shows small = record {
  outcomes = outcome-Shows success duration ds m shows.outcomes small;
  buckets =
      ap (count_duration finite_bounds duration) shows.buckets
      ∙ count_duration-histogram finite_bounds duration (durations_of ds)
          (omega (arith, length-durations ds))
      ∙ ap (histogram finite_bounds) (sym (durations-snoc ds (success, duration)));
  micros_sum = omega (
    arith,
    shows.micros_sum,
    total-append (λ (d : Bool × ℕ). d.1 / 1000) ds ((success, duration) ∷ []),
  );
}

record_all-Shows :
    (ds before : List (Bool × ℕ)) (m : PushMetrics)
    → Shows before m
    → length before + length ds < 2 ^ 64
    → Shows (before ++ ds) (record_all ds m)
unfolding record_all
record_all-Shows [] before m shows small = subst (λ l. Shows l m) (sym (append-nil before)) shows
record_all-Shows ((success, duration) ∷ ds) before m shows small =
    let d : Bool × ℕ = (success, duration) in
    let m' = record_dispatch success duration m in
    subst (λ l. Shows l (record_all ds m')) (append_assoc before (d ∷ []) ds)
      (record_all-Shows ds (before ++ d ∷ []) m'
        (record_dispatch-Shows success duration before m shows (omega arith))
        (omega (arith, length-append before (d ∷ []))))

sum-histogram : (bounds : List ℕ) (ds : List ℕ) → sum (histogram bounds ds) ≡ length ds
unfolding histogram
sum-histogram [] ds = omega arith
sum-histogram (b ∷ bs) ds =
    omega (arith, sum-histogram bs (retain (λ x. not (leb x b)) ds), split_length b ds)
  where
    split_length :
        (c : ℕ) (es : List ℕ)
        → length (retain (λ x. leb x c) es) + length (retain (λ x. not (leb x c)) es) ≡ length es
    split_length c [] = omega arith
    split_length c (x ∷ es) = ground (arith, split_length c es)

-- After any dispatches, fewer than a `u64` holds, the counters show how many of them succeeded and
-- how many failed, each bucket of the histogram has the durations above the bound before it and up
-- to its own, the count is the number of dispatches, and the sum is that of their microseconds,
-- modulo the size of a word.
pub snapshot-record_all :
    (ds : List (Bool × ℕ))
    → length ds < 2 ^ 64
    → let s = snapshot (record_all ds new_metrics) in
      (s.dispatch_success ≡ successes ds)
      × (s.dispatch_failure ≡ failures ds)
      × (s.duration_buckets ≡ histogram finite_bounds (durations_of ds))
      × (s.duration_count ≡ length ds)
      × (s.duration_sum_micros ≡ micros ds % 2 ^ 64)
unfolding snapshot histogram
snapshot-record_all ds small =
    let none_yet : Shows [] new_metrics = record {
      outcomes = (refl, refl);
      buckets = refl;
      micros_sum = refl;
    } in
    let shows = record_all-Shows ds [] new_metrics none_yet (omega arith) in
    (
      shows.outcomes.0,
      shows.outcomes.1,
      shows.buckets,
      omega (
        arith,
        ap sum shows.buckets,
        sum-histogram finite_bounds (durations_of ds),
        length-durations ds,
      ),
      shows.micros_sum,
    )
