-- ===== src/Text/Number.antt =====
-- `str::parse::<u64>`: decimal digits after an optional `+`, without overflow.
use deltio.Prelude.{
  Bytes, Option, [], ap, arith, if_cases, if◌then◌else◌, leb, ltb, none, refl, some, suc, sym, zero,
  ℕ, ◌%◌, ◌&&◌, ◌*◌, ◌+◌, ◌-◌, ◌/◌, ◌<◌, ◌==◌, ◌>>=◌, ◌^◌, ◌∙◌, ◌∷◌, ◌≡◌, ◌≤◌, nat_eq,
}
use native.Mathlib.Nat.{pow-suc}
use deltio.Text.Decimal.{digits, decimal}

abbrev digit_of : ℕ → Option ℕ
digit_of c = if leb b'0' c && leb c b'9' then some (c - b'0') else none

abbrev checked_u64 : ℕ → Option ℕ
checked_u64 n = if ltb n (2 ^ 64) then some n else none

parse_digits : ℕ → Bytes → Option ℕ
parse_digits value [] = some value
parse_digits value (c ∷ s) =
    digit_of c >>= λ d. (checked_u64 (value * 10 + d) >>= λ next. parse_digits next s)

-- A sign alone is no number, nor is the empty text.
unfoldable pub parse_u64 : Bytes → Option ℕ
unfolding parse_digits
parse_u64 [] = none
parse_u64 (c ∷ []) = parse_digits 0 (c ∷ [])
parse_u64 (c ∷ d ∷ s) = if c == b'+' then parse_digits 0 (d ∷ s) else parse_digits 0 (c ∷ d ∷ s)

parse_digits-digits :
    (fuel n : ℕ) (out : Bytes)
    → n < 10 ^ fuel
    → n < 2 ^ 64
    → parse_digits 0 (digits fuel n out) ≡ parse_digits n out
unfolding parse_digits digits
parse_digits-digits zero n out h small = let e : n ≡ 0 = omega arith in rw e refl
parse_digits-digits (suc fuel) n out h small =
    if_cases (λ s. parse_digits 0 s ≡ parse_digits n out) (ltb n 10) ((b'0' + n) ∷ out)
      (digits fuel (n / 10) ((b'0' + n % 10) ∷ out)) (λ e. ground arith)
      (λ e.
        let last : n / 10 * 10 + n % 10 ≡ n = omega arith in
        parse_digits-digits fuel (n / 10) ((b'0' + n % 10) ∷ out) (omega (arith, pow-suc 10 fuel))
          (omega arith)
        ∙ ground (arith, last))

abbrev StartsWithDigit : Bytes → Type 0
StartsWithDigit s = (c : ℕ) × (rest : Bytes) × (s ≡ c ∷ rest) × (b'0' ≤ c)

-- The printed number starts with a digit.
digits-first :
    (fuel n : ℕ) (out : Bytes) → n < 10 ^ suc fuel → StartsWithDigit (digits (suc fuel) n out)
unfolding digits
digits-first zero n out h =
    if_cases StartsWithDigit (ltb n 10) ((b'0' + n) ∷ out) ((b'0' + n % 10) ∷ out)
      (λ e. (b'0' + n, out, refl, omega arith)) (λ e. (b'0' + n % 10, out, refl, omega arith))
digits-first (suc fuel) n out h =
    if_cases StartsWithDigit (ltb n 10) ((b'0' + n) ∷ out)
      (digits (suc fuel) (n / 10) ((b'0' + n % 10) ∷ out)) (λ e. (b'0' + n, out, refl, omega arith))
      (λ e.
        digits-first fuel (n / 10) ((b'0' + n % 10) ∷ out) (omega (arith, pow-suc 10 (suc fuel))))

parse_u64-digit_first :
    (c : ℕ) (rest : Bytes) → b'0' ≤ c → parse_u64 (c ∷ rest) ≡ parse_digits 0 (c ∷ rest)
unfolding parse_u64
parse_u64-digit_first c [] h = refl
parse_u64-digit_first c (d ∷ s) h = ground arith

-- Every number that fits is read back from its text.
pub parse_u64-decimal : (n : ℕ) → n < 2 ^ 64 → parse_u64 (decimal n) ≡ some n
unfolding decimal parse_digits
parse_u64-decimal n small =
    let (c, rest, e, digit) = digits-first 19 n [] (omega arith) in
    ap parse_u64 e
    ∙ parse_u64-digit_first c rest digit
    ∙ ap (parse_digits 0) (sym e)
    ∙ parse_digits-digits 20 n [] (omega arith) small
