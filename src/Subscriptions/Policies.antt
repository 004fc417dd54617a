-- ===== src/Subscriptions/Policies.antt =====
-- src/subscriptions/policies.rs. A `Duration` is a number of nanoseconds, at most `duration_max`.
use deltio.Prelude.{arith, min, suc, zero, ℕ, ◌*◌, ◌+◌, ◌-◌, ◌<◌, ◌^◌, ◌≡◌, ◌≤◌}
use deltio.Topics.Name.{TopicName}
use native.Mathlib.Nat.{pow-suc, add-suc, add-zero}

abbrev duration_max : ℕ
duration_max = (2 ^ 64 - 1) * 1_000_000_000 + 999_999_999

-- `Duration::saturating_mul`.
abbrev saturating_mul : ℕ → ℕ → ℕ
saturating_mul d n = min (d * n) duration_max

pub record RetryPolicy : Type 0 where
  pub minimum_backoff : ℕ
  pub maximum_backoff : ℕ

pub record DeadLetterPolicy : Type 0 where
  pub dead_letter_topic : TopicName
  pub max_delivery_attempts : ℕ

unfoldable pub calculate_backoff : RetryPolicy → ℕ → ℕ
calculate_backoff p delivery_attempt =
    let exponent = min (delivery_attempt - 1) 20 in
    min (saturating_mul p.minimum_backoff (2 ^ exponent)) p.maximum_backoff

pow_pos : (n : ℕ) → 0 < 2 ^ n
pow_pos zero = omega arith
pow_pos (suc n) = omega (arith, pow_pos n, pow-suc 2 n)

pow_mono : (n k : ℕ) → 2 ^ n ≤ 2 ^ (n + k)
pow_mono n zero = rw (add-zero n) (omega arith)
pow_mono n (suc k) = rw (add-suc n k) (omega (arith, pow_mono n k, pow-suc 2 (n + k)))

pow_le : (a b : ℕ) → a ≤ b → 2 ^ a ≤ 2 ^ b
pow_le a b h = let e : a + (b - a) ≡ b = omega arith in rw e at (pow_mono a (b - a))

le-mul_pos : (a k : ℕ) → 0 < k → a ≤ a * k
le-mul_pos a k h = grind arith

mul_mono : (a k l : ℕ) → k ≤ l → a * k ≤ a * l
mul_mono a k l h = grind arith

-- A backoff lies between the smaller of the two bounds and the maximum, where the minimum is a
-- value that a `Duration` has.
pub calculate_backoff_bounds :
    (p : RetryPolicy) (attempt : ℕ)
    → p.minimum_backoff ≤ duration_max
    → (min p.minimum_backoff p.maximum_backoff ≤ calculate_backoff p attempt)
      × (calculate_backoff p attempt ≤ p.maximum_backoff)
unfolding calculate_backoff
calculate_backoff_bounds p attempt h = omega (
  arith,
  le-mul_pos p.minimum_backoff (2 ^ min (attempt - 1) 20) (pow_pos (min (attempt - 1) 20)),
)

-- A later attempt never waits for less.
calculate_backoff_mono :
    (p : RetryPolicy) (attempt later : ℕ)
    → attempt ≤ later
    → calculate_backoff p attempt ≤ calculate_backoff p later
unfolding calculate_backoff
calculate_backoff_mono p attempt later h = omega (
  arith,
  mul_mono p.minimum_backoff (2 ^ min (attempt - 1) 20) (2 ^ min (later - 1) 20)
      (pow_le (min (attempt - 1) 20) (min (later - 1) 20) (omega arith)),
)
