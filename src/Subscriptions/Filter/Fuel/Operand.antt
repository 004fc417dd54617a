-- ===== src/Subscriptions/Filter/Fuel/Operand.antt =====
-- The operands of `AND`: comparisons, functions, parentheses and `NOT`.
use deltio.Prelude.{
  Bool, Bytes, [], arith, bytes_eq, codes, if_cases, length, ℕ, ◌+◌, ◌<◌, ◌∷◌, nat_eq,
  bytes_eq_instance,
}
use deltio.Subscriptions.Filter.{Expr}
use deltio.Subscriptions.Filter.Lexer.{
  Located, l_paren, r_paren, comma, eq_sign, not_eq, not_word, attribute_dot, attribute_has, ident,
  str,
}
use deltio.Subscriptions.Filter.Parser.{
  Parsed, expect_l_paren, expect_r_paren, expect_comma, expect_string, expect_attribute, comparison,
  close_paren, negate, parse_comparison, parse_has_prefix, parse_primary_with, parse_not_with,
}
use deltio.Subscriptions.Filter.Fuel.{Ends, bind-Ends, Ends-le}

-- The tokens that are left.
abbrev pub left_of {ℓ} : {A : Type ℓ} → A × Located → ℕ
left_of (a, ts) = length ts

abbrev count : Located → ℕ
count ts = length ts

-- What takes one token leaves one less.
expect_l_paren-Ends : (ts : Located) → Ends count (length ts) (expect_l_paren ts)
expect_l_paren-Ends [] = tt
expect_l_paren-Ends ((l_paren, p) ∷ ts) = omega arith
expect_l_paren-Ends ((t, p) ∷ ts) = tt

expect_r_paren-Ends : (ts : Located) → Ends count (length ts) (expect_r_paren ts)
expect_r_paren-Ends [] = tt
expect_r_paren-Ends ((r_paren, p) ∷ ts) = omega arith
expect_r_paren-Ends ((t, p) ∷ ts) = tt

expect_comma-Ends : (ts : Located) → Ends count (length ts) (expect_comma ts)
expect_comma-Ends [] = tt
expect_comma-Ends ((comma, p) ∷ ts) = omega arith
expect_comma-Ends ((t, p) ∷ ts) = tt

expect_string-Ends : (ts : Located) → Ends left_of (length ts) (expect_string ts)
expect_string-Ends [] = tt
expect_string-Ends ((str x, p) ∷ ts) = omega arith
expect_string-Ends ((t, p) ∷ ts) = tt

expect_attribute-Ends : (ts : Located) → Ends left_of (length ts) (expect_attribute ts)
expect_attribute-Ends [] = tt
expect_attribute-Ends ((attribute_dot x, p) ∷ ts) = omega arith
expect_attribute-Ends ((t, p) ∷ ts) = tt

comparison-Ends : (pos : ℕ) (ts : Located) → Ends left_of (length ts) (comparison pos ts)
comparison-Ends pos [] = tt
comparison-Ends pos ((eq_sign, p) ∷ ts) = omega arith
comparison-Ends pos ((not_eq, p) ∷ ts) = omega arith
comparison-Ends pos ((t, p) ∷ ts) = tt

parse_comparison-Ends :
    (key : Bytes) (pos : ℕ) (ts : Located) → Ends left_of (length ts) (parse_comparison key pos ts)
unfolding parse_comparison
parse_comparison-Ends key pos ts =
    bind-Ends left_of left_of (length ts) (length ts) (comparison pos ts) _ (comparison-Ends pos ts)
      (λ ((negated, ts₁) : Bool × Located) h.
        bind-Ends left_of left_of (length ts₁) (length ts) (expect_string ts₁) _
          (expect_string-Ends ts₁) (λ ((value, ts₂) : Bytes × Located) h'. omega (arith, h, h')))

parse_has_prefix-Ends : (ts : Located) → Ends left_of (length ts) (parse_has_prefix ts)
unfolding parse_has_prefix
parse_has_prefix-Ends ts =
    bind-Ends count left_of (length ts) (length ts) (expect_l_paren ts) _ (expect_l_paren-Ends ts)
      (λ ts₁ h₁.
        bind-Ends left_of left_of (length ts₁) (length ts) (expect_attribute ts₁) _
          (expect_attribute-Ends ts₁)
          (λ ((key, ts₂) : Bytes × Located) h₂.
            bind-Ends count left_of (length ts₂) (length ts) (expect_comma ts₂) _
              (expect_comma-Ends ts₂)
              (λ ts₃ h₃.
                bind-Ends left_of left_of (length ts₃) (length ts) (expect_string ts₃) _
                  (expect_string-Ends ts₃)
                  (λ ((value, ts₄) : Bytes × Located) h₄.
                    bind-Ends count left_of (length ts₄) (length ts) (expect_r_paren ts₄) _
                      (expect_r_paren-Ends ts₄) (λ ts₅ h₅. omega (arith, h₁, h₂, h₃, h₄, h₅))))))

-- A parser for what stands in parentheses ends on fewer than `d` tokens.
abbrev pub Good : (Located → Parsed) → ℕ → Type 0
Good inner d = (ts : Located) → length ts < d → Ends left_of (length ts) (inner ts)

close_paren-Ends : (r : Expr × Located) → Ends left_of (left_of r) (close_paren r)
close_paren-Ends (e, ts) =
    bind-Ends count left_of (length ts) (length ts) (expect_r_paren ts) _ (expect_r_paren-Ends ts)
      (λ rest h. h)

parse_primary_with-Ends :
    (inner : Located → Parsed) (d : ℕ)
    → Good inner d
    → (ts : Located) → length ts < d + 1
    → Ends left_of (length ts) (parse_primary_with inner ts)
unfolding parse_primary_with
parse_primary_with-Ends inner d g [] h = tt
parse_primary_with-Ends inner d g ((l_paren, p) ∷ ts) h =
    bind-Ends left_of left_of (length ts) _ (inner ts) close_paren (g ts (omega arith)) (λ r h'.
      Ends-le left_of (left_of r) _ (close_paren r) (omega (arith, h')) (close_paren-Ends r))
parse_primary_with-Ends inner d g ((attribute_dot key, p) ∷ ts) h =
    Ends-le left_of (length ts) _ _ (omega arith) (parse_comparison-Ends key p ts)
parse_primary_with-Ends inner d g ((attribute_has key, p) ∷ ts) h = omega arith
parse_primary_with-Ends inner d g ((ident name, p) ∷ ts) h =
    if_cases (Ends left_of (length ((ident name, p) ∷ ts))) (bytes_eq name (codes "hasPrefix")) _ _
      (λ _. Ends-le left_of (length ts) _ _ (omega arith) (parse_has_prefix-Ends ts)) (λ _. tt)
parse_primary_with-Ends inner d g ((t, p) ∷ ts) h = tt

negate-Ends : (r : Expr × Located) → Ends left_of (left_of r) (negate r)
negate-Ends (e, ts) = omega arith

pub parse_not_with-Ends :
    (inner : Located → Parsed) (d : ℕ)
    → Good inner d
    → (ts : Located) → length ts < d + 1
    → Ends left_of (length ts) (parse_not_with inner ts)
unfolding parse_not_with
parse_not_with-Ends inner d g [] h = parse_primary_with-Ends inner d g [] h
parse_not_with-Ends inner d g ((not_word, p) ∷ ts) h =
    bind-Ends left_of left_of (length ts) _ (parse_not_with inner ts) negate
      (parse_not_with-Ends inner d g ts (omega arith))
      (λ r h'. Ends-le left_of (left_of r) _ (negate r) (omega (arith, h')) (negate-Ends r))
parse_not_with-Ends inner d g ((t, p) ∷ ts) h = parse_primary_with-Ends inner d g ((t, p) ∷ ts) h
