-- ===== src/Subscriptions/Filter/Parser.antt =====
-- The parser: recursive descent over the tokens that are left. `pos` of the program is how many
-- tokens are gone.
use deltio.Prelude.{
  Bool, Bytes, [], bytes_eq, codes, drop, false, if◌then◌else◌, length, suc, true, zero, ℕ, ◌+◌,
  ◌∷◌, bytes_eq_instance,
}
use deltio.Subscriptions.Filter.{Expr, equals, has_prefix, has_attr, both, either, negation, Filter}
use deltio.Subscriptions.Filter.Lexer.{
  Result, ok, err, out_of_fuel, ◌>>=◌, Token, Located, unexpected_token, unexpected_end, a_token,
  tokenize, l_paren, r_paren, comma, eq_sign, not_eq, and_word, or_word, not_word, attribute_dot,
  attribute_has, ident, str,
}

abbrev pub Parsed : Type 0
Parsed = Result (Expr × Located)

abbrev unexpected {ℓ} : {A : Type ℓ} → Token → ℕ → Result A
unexpected t p = err (unexpected_token (a_token t) p)

-- `peek` against a token without contents.
abbrev pub next_is_or : Located → Bool
next_is_or ((or_word, p) ∷ ts) = true
next_is_or _ = false

abbrev pub next_is_and : Located → Bool
next_is_and ((and_word, p) ∷ ts) = true
next_is_and _ = false

abbrev pub expect_l_paren : Located → Result Located
expect_l_paren [] = err unexpected_end
expect_l_paren ((l_paren, p) ∷ ts) = ok ts
expect_l_paren ((t, p) ∷ ts) = unexpected t p

abbrev pub expect_r_paren : Located → Result Located
expect_r_paren [] = err unexpected_end
expect_r_paren ((r_paren, p) ∷ ts) = ok ts
expect_r_paren ((t, p) ∷ ts) = unexpected t p

abbrev pub expect_comma : Located → Result Located
expect_comma [] = err unexpected_end
expect_comma ((comma, p) ∷ ts) = ok ts
expect_comma ((t, p) ∷ ts) = unexpected t p

abbrev pub expect_string : Located → Result (Bytes × Located)
expect_string [] = err unexpected_end
expect_string ((str s, p) ∷ ts) = ok (s, ts)
expect_string ((t, p) ∷ ts) = unexpected t p

abbrev pub expect_attribute : Located → Result (Bytes × Located)
expect_attribute [] = err unexpected_end
expect_attribute ((attribute_dot k, p) ∷ ts) = ok (k, ts)
expect_attribute ((t, p) ∷ ts) = unexpected t p

-- The operator behind `attributes.key`, whose position an error names: whether it negates.
abbrev pub comparison : ℕ → Located → Result (Bool × Located)
comparison pos [] = err unexpected_end
comparison pos ((eq_sign, p) ∷ ts) = ok (false, ts)
comparison pos ((not_eq, p) ∷ ts) = ok (true, ts)
comparison pos ((t, p) ∷ ts) = unexpected t pos

unfoldable pub parse_comparison : Bytes → ℕ → Located → Parsed
parse_comparison key pos ts = comparison pos ts >>= λ (negated, ts₁).
    expect_string ts₁ >>= λ (value, ts₂). ok (equals key value negated, ts₂)

unfoldable pub parse_has_prefix : Located → Parsed
parse_has_prefix ts = expect_l_paren ts >>= λ ts₁. expect_attribute ts₁ >>= λ (key, ts₂).
    expect_comma ts₂ >>= λ ts₃. expect_string ts₃ >>= λ (value, ts₄).
    expect_r_paren ts₄ >>= λ ts₅. ok (has_prefix key value, ts₅)

abbrev pub close_paren : Expr × Located → Parsed
close_paren (e, ts) = expect_r_paren ts >>= λ rest. ok (e, rest)

-- `parse_primary`, with the parser for what stands in parentheses.
unfoldable pub parse_primary_with : (Located → Parsed) → Located → Parsed
parse_primary_with inner [] = err unexpected_end
parse_primary_with inner ((l_paren, p) ∷ ts) = inner ts >>= close_paren
parse_primary_with inner ((attribute_dot key, p) ∷ ts) = parse_comparison key p ts
parse_primary_with inner ((attribute_has key, p) ∷ ts) = ok (has_attr key, ts)
parse_primary_with inner ((ident name, p) ∷ ts) =
    if bytes_eq name (codes "hasPrefix") then parse_has_prefix ts else unexpected (ident name) p
parse_primary_with inner ((t, p) ∷ ts) = unexpected t p

abbrev pub negate : Expr × Located → Parsed
negate (e, ts) = ok (negation e, ts)

-- `parse_not`: it calls itself on the tokens behind `NOT`.
unfoldable pub parse_not_with : (Located → Parsed) → Located → Parsed
parse_not_with inner [] = parse_primary_with inner []
parse_not_with inner ((not_word, p) ∷ ts) = parse_not_with inner ts >>= negate
parse_not_with inner ((t, p) ∷ ts) = parse_primary_with inner ((t, p) ∷ ts)

-- The loops of `parse_and` and `parse_or` behind their first operand, on fuel.
unfoldable pub and_loop : (Located → Parsed) → ℕ → Expr → Located → Parsed
and_loop inner zero left ts = out_of_fuel
and_loop inner (suc fuel) left ts =
    let more = parse_not_with inner (drop 1 ts) >>= λ (right, rest).
    and_loop inner fuel (both left right) rest in
    if next_is_and ts then more else ok (left, ts)

unfoldable pub parse_and_with : (Located → Parsed) → ℕ → Located → Parsed
parse_and_with inner fuel ts =
    parse_not_with inner ts >>= λ (left, rest). and_loop inner fuel left rest

unfoldable pub or_loop : (Located → Parsed) → ℕ → ℕ → Expr → Located → Parsed
or_loop inner width zero left ts = out_of_fuel
or_loop inner width (suc fuel) left ts =
    let more = parse_and_with inner width (drop 1 ts) >>= λ (right, rest).
    or_loop inner width fuel (either left right) rest in
    if next_is_or ts then more else ok (left, ts)

-- `parse_or` on fuel for the depth of parentheses; a loop makes fewer rounds than there are tokens.
unfoldable pub parse_or : ℕ → Located → Parsed
parse_or zero ts = out_of_fuel
parse_or (suc depth) ts =
    let width = length ts + 1 in
    parse_and_with (parse_or depth) width ts >>= λ (left, rest).
    or_loop (parse_or depth) width width left rest

abbrev pub expect_end : Expr × Located → Result Filter
expect_end (e, []) = ok (record { expr = e })
expect_end (e, (t, p) ∷ ts) = unexpected t p

unfoldable pub parse_tokens : Located → Result Filter
unfolding parse_or or_loop parse_and_with and_loop parse_not_with parse_primary_with
    parse_has_prefix parse_comparison
parse_tokens tokens = parse_or (length tokens + 1) tokens >>= expect_end

unfoldable pub parse : Bytes → Result Filter
unfolding tokenize parse_tokens
parse input = tokenize input >>= parse_tokens
