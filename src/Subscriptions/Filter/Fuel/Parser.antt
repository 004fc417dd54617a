-- ===== src/Subscriptions/Filter/Fuel/Parser.antt =====
-- The loops of the parser over `AND` and `OR`, its recursion, and the parser as a whole.
use deltio.Prelude.{
  Bytes, [], arith, drop, if_cases, length, suc, true, zero, ℕ, ◌+◌, ◌<◌, ◌∷◌, ◌≡◌, ◌≢◌, nat_eq,
  bytes_eq_instance,
}
use deltio.Subscriptions.Filter.{Expr, Filter, both, either}
use deltio.Subscriptions.Filter.Lexer.{Result, ok, err, out_of_fuel, Located, tokenize}
use deltio.Subscriptions.Filter.Parser.{
  Parsed, next_is_and, next_is_or, parse_not_with, and_loop, parse_and_with, or_loop, parse_or,
  expect_end, parse_tokens, parse,
}
use deltio.Subscriptions.Filter.Fuel.{Ends, bind-Ends, Ends-le, nothing_left, tokenize-Ends}
use deltio.Subscriptions.Filter.Fuel.Operand.{left_of, Good, parse_not_with-Ends}

next_is_and-left : (ts : Located) → next_is_and ts ≡ true → length (drop 1 ts) + 1 ≡ length ts
next_is_and-left [] e = absurd (ground arith)
next_is_and-left ((t, p) ∷ ts) e = omega arith

next_is_or-left : (ts : Located) → next_is_or ts ≡ true → length (drop 1 ts) + 1 ≡ length ts
next_is_or-left [] e = absurd (ground arith)
next_is_or-left ((t, p) ∷ ts) e = omega arith

and_loop-Ends :
    (inner : Located → Parsed) (d : ℕ)
    → Good inner d
    → (fuel : ℕ) (left : Expr) (ts : Located) → length ts < fuel
    → length ts < d + 1
    → Ends left_of (length ts) (and_loop inner fuel left ts)
unfolding and_loop
and_loop-Ends inner d g zero left ts enough h = absurd (omega arith)
and_loop-Ends inner d g (suc fuel) left ts enough h =
    if_cases (Ends left_of (length ts)) (next_is_and ts) _ _
      (λ e.
        let one = next_is_and-left ts e in
        bind-Ends left_of left_of (length (drop 1 ts)) (length ts)
          (parse_not_with inner (drop 1 ts)) _
          (parse_not_with-Ends inner d g (drop 1 ts) (omega (arith, one)))
          (λ ((right, rest) : Expr × Located) h'.
            Ends-le left_of (length rest) (length ts) _ (omega (arith, one, h')) (
              and_loop-Ends inner d g fuel (both left right) rest (omega (arith, one, h'))
                (omega (arith, one, h')))))
      (λ _. omega arith)

parse_and_with-Ends :
    (inner : Located → Parsed) (d fuel : ℕ)
    → Good inner d
    → (ts : Located) → length ts < fuel
    → length ts < d + 1
    → Ends left_of (length ts) (parse_and_with inner fuel ts)
unfolding parse_and_with
parse_and_with-Ends inner d fuel g ts enough h =
    bind-Ends left_of left_of (length ts) (length ts) (parse_not_with inner ts) _
      (parse_not_with-Ends inner d g ts h)
      (λ ((left, rest) : Expr × Located) h'.
        Ends-le left_of (length rest) (length ts) _ h'
          (and_loop-Ends inner d g fuel left rest (omega (arith, h')) (omega (arith, h'))))

or_loop-Ends :
    (inner : Located → Parsed) (d width : ℕ)
    → Good inner d
    → (fuel : ℕ) (left : Expr) (ts : Located) → length ts < fuel
    → length ts < width
    → length ts < d + 1
    → Ends left_of (length ts) (or_loop inner width fuel left ts)
unfolding or_loop
or_loop-Ends inner d width g zero left ts enough wide h = absurd (omega arith)
or_loop-Ends inner d width g (suc fuel) left ts enough wide h =
    if_cases (Ends left_of (length ts)) (next_is_or ts) _ _
      (λ e.
        let one = next_is_or-left ts e in
        bind-Ends left_of left_of (length (drop 1 ts)) (length ts)
          (parse_and_with inner width (drop 1 ts)) _
          (parse_and_with-Ends inner d width g (drop 1 ts) (omega (arith, one))
            (omega (arith, one)))
          (λ ((right, rest) : Expr × Located) h'.
            Ends-le left_of (length rest) (length ts) _ (omega (arith, one, h')) (
              or_loop-Ends inner d width g fuel (either left right) rest (omega (arith, one, h'))
                (omega (arith, one, h')) (omega (arith, one, h')))))
      (λ _. omega arith)

parse_or-Ends : (d : ℕ) → Good (parse_or d) d
unfolding parse_or
parse_or-Ends zero ts h = absurd (omega arith)
parse_or-Ends (suc d) ts h =
    let width = length ts + 1 in
    bind-Ends left_of left_of (length ts) (length ts) (parse_and_with (parse_or d) width ts) _
      (parse_and_with-Ends (parse_or d) d width (parse_or-Ends d) ts (omega arith) (omega arith))
      (λ ((left, rest) : Expr × Located) h'. Ends-le left_of (length rest) (length ts) _ h' (
        or_loop-Ends (parse_or d) d width (parse_or-Ends d) width left rest (omega (arith, h'))
          (omega (arith, h')) (omega (arith, h'))))

expect_end-Ends : (r : Expr × Located) → Ends nothing_left 0 (expect_end r)
expect_end-Ends (e, []) = omega arith
expect_end-Ends (e, (t, p) ∷ ts) = tt

Ends-fuel : (r : Result Filter) → Ends nothing_left 0 r → r ≢ out_of_fuel
Ends-fuel (ok f) h e = ground arith
Ends-fuel (err x) h e = ground arith
Ends-fuel out_of_fuel h e = h

-- Parsing a filter always ends with a filter or an error: the fuel of the lexer and of the parser is
-- enough for every text.
pub parse_ends : (input : Bytes) → parse input ≢ out_of_fuel
unfolding parse parse_tokens
parse_ends input = Ends-fuel (parse input) (
    bind-Ends nothing_left nothing_left 0 0 (tokenize input) parse_tokens (tokenize-Ends input)
      (λ tokens _.
        bind-Ends left_of nothing_left (length tokens) 0 (parse_or (length tokens + 1) tokens)
          expect_end (parse_or-Ends (length tokens + 1) tokens (omega arith))
          (λ r _. expect_end-Ends r)))
