-- ===== src/Subscriptions/Filter/Fuel.antt =====
-- The fuel of the lexer, and what is left of the text after a token.
pub mod Operand
pub mod Parser
use deltio.Prelude.{
  Bytes, [], arith, bytes_eq, codes, if_cases, is_empty, length, length-drop, not, suc, true, zero,
  ℕ, ◌&&◌, ◌+◌, ◌<◌, ◌==◌, ◌||◌, ◌∷◌, ◌≡◌, ◌≤◌, nat_eq, bytes_eq_instance,
}
use deltio.Subscriptions.Filter.{Expr, Filter, both, either, negation}
use deltio.Subscriptions.Filter.Lexer.{
  Result, ok, err, out_of_fuel, ◌>>=◌, FilterParseError, Token, Located, Lexed, Lexeme, push_char,
  prepend, lex_string, lex_word, lex_key, lex_attribute, classify, lex_token, lex, tokenize,
  is_word_byte, is_ascii_alphabetic, is_keyword, next_is, is_space, word_token, push_token,
  and_word, or_word, not_word, attributes_with, unexpected_token,
}

-- A result that is there is of a size of at most `n`, and fuel did not run out.
abbrev pub Ends {ℓ} : {A : Type ℓ} → (A → ℕ) → ℕ → Result A → Type 0
Ends size n (ok a) = size a ≤ n
Ends size n (err e) = Unit
Ends size n out_of_fuel = ⊥

pub bind-Ends {ℓ κ} :
    {A : Type ℓ} {B : Type κ} (size : A → ℕ) (size' : B → ℕ) (n k : ℕ) (r : Result A)
    (f : A → Result B)
    → Ends size n r
    → ((a : A) → size a ≤ n → Ends size' k (f a))
    → Ends size' k (r >>= f)
bind-Ends size size' n k (ok a) f h g = g a h
bind-Ends size size' n k (err e) f h g = tt
bind-Ends size size' n k out_of_fuel f h g = elim h [ ]

pub Ends-le {ℓ} :
    {A : Type ℓ} (size : A → ℕ) (n k : ℕ) (r : Result A) → n ≤ k → Ends size n r → Ends size k r
Ends-le size n k (ok a) h g = omega arith
Ends-le size n k (err e) h g = tt
Ends-le size n k out_of_fuel h g = g

abbrev lexed_left : Lexed → ℕ
lexed_left l = length l.rest

abbrev lexeme_left : Lexeme → ℕ
lexeme_left l = length l.rest

prepend-Ends :
    (c : Bytes) (n k : ℕ) (r : Result Lexed)
    → n ≤ k
    → Ends lexed_left n r
    → Ends lexed_left k (prepend c r)
prepend-Ends c n k (ok l) h g = omega arith
prepend-Ends c n k (err e) h g = tt
prepend-Ends c n k out_of_fuel h g = g

lex_string-Ends : (i : ℕ) (s : Bytes) → Ends lexed_left (length s) (lex_string i s)
unfolding lex_string
lex_string-Ends i [] = tt
lex_string-Ends i (b ∷ []) =
    if_cases (Ends lexed_left 1) (b == b'"') _ _ (λ _. omega arith) (λ _. tt)
lex_string-Ends i (b ∷ e ∷ s) =
    let P = Ends lexed_left (length (b ∷ e ∷ s)) in
    if_cases P (b == b'"') _ _ (λ _. omega arith)
      (λ _.
        if_cases P (b == b'\\') _ _
          (λ _.
            if_cases P (e == b'"' || e == b'\\') _ _
              (λ _.
                prepend-Ends (e ∷ []) (length s) _ (lex_string (i + 2) s) (omega arith)
                  (lex_string-Ends (i + 2) s))
              (λ _. tt))
          (λ _.
            prepend-Ends (push_char b) (length (e ∷ s)) _ (lex_string (i + 1) (e ∷ s)) (omega arith)
              (lex_string-Ends (i + 1) (e ∷ s))))

lex_word-left : (i : ℕ) (s : Bytes) → lexed_left (lex_word i s) ≤ length s
unfolding lex_word
lex_word-left i [] = omega arith
lex_word-left i (c ∷ s) =
    if_cases (λ (l : Lexed). lexed_left l ≤ length (c ∷ s)) (is_word_byte c) _ _
      (λ _. omega (arith, lex_word-left (i + 1) s)) (λ _. omega arith)

lex_word-shorter :
    (i c : ℕ) (s : Bytes) → is_word_byte c ≡ true → lexed_left (lex_word i (c ∷ s)) ≤ length s
unfolding lex_word
lex_word-shorter i c s h =
    if_cases (λ (l : Lexed). lexed_left l ≤ length s) (is_word_byte c) _ _
      (λ _. lex_word-left (i + 1) s) (λ e. absurd (ground arith))

lex_key-Ends : (sep : ℕ) (key : Lexed) → Ends lexeme_left (lexed_left key) (lex_key sep key)
unfolding lex_key
lex_key-Ends sep key =
    if_cases (Ends lexeme_left (lexed_left key)) (is_empty key.text) _ _ (λ _. tt)
      (λ _. omega arith)

lex_attribute-Ends :
    (text rest : Bytes) (next : ℕ)
    → Ends lexeme_left
        (length rest)
        (lex_attribute (record { text = text; next = next; rest = rest }))
unfolding lex_attribute
lex_attribute-Ends text [] next = tt
lex_attribute-Ends text (sep ∷ s) next =
    if_cases (Ends lexeme_left (length (sep ∷ s))) (not (sep == b'.') && not (sep == b':')) _ _
      (λ _. tt)
      (λ _.
        Ends-le lexeme_left (lexed_left (lex_word (next + 1) s)) _ _
          (omega (arith, lex_word-left (next + 1) s)) (lex_key-Ends sep (lex_word (next + 1) s)))

classify-Ends : (word : Lexed) → Ends lexeme_left (lexed_left word) (classify word)
unfolding classify
classify-Ends word =
    let P = Ends lexeme_left (lexed_left word) in
    if_cases P (is_keyword word.text (codes "and")) _ _ (λ _. omega arith)
      (λ _.
        if_cases P (is_keyword word.text (codes "or")) _ _ (λ _. omega arith)
          (λ _.
            if_cases P (is_keyword word.text (codes "not")) _ _ (λ _. omega arith)
              (λ _.
                if_cases P (bytes_eq word.text (codes "attributes")) _ _
                  (λ _. lex_attribute-Ends word.text word.rest word.next) (λ _. omega arith))))

-- A token takes a byte at least.
lex_token-Ends : (i c : ℕ) (s : Bytes) → Ends lexeme_left (length s) (lex_token i c s)
unfolding lex_token
lex_token-Ends i c s =
    let P = Ends lexeme_left (length s) in
    if_cases P (c == b'(') _ _ (λ _. omega arith)
      (λ _.
        if_cases P (c == b')') _ _ (λ _. omega arith)
          (λ _.
            if_cases P (c == b',') _ _ (λ _. omega arith)
              (λ _.
                if_cases P (c == b'=') _ _ (λ _. omega arith)
                  (λ _.
                    if_cases P (c == b'!' && next_is b'=' s) _ _
                      (λ _. omega (arith, length-drop 1 s))
                      (λ _.
                        if_cases P (c == b'"') _ _
                          (λ _.
                            bind-Ends lexed_left lexeme_left (length s) (length s)
                              (lex_string (i + 1) s) _ (lex_string-Ends (i + 1) s) (λ l h. h))
                          (λ _.
                            if_cases P (is_ascii_alphabetic c || c == b'_') _ _
                              (λ e.
                                Ends-le lexeme_left (lexed_left (lex_word i (c ∷ s))) _ _
                                  (lex_word-shorter i c s (ground arith))
                                  (classify-Ends (lex_word i (c ∷ s))))
                              (λ _. tt)))))))

abbrev pub nothing_left {ℓ} : {A : Type ℓ} → A → ℕ
nothing_left a = 0

lex-Ends : (fuel i : ℕ) (s : Bytes) → length s < fuel → Ends nothing_left 0 (lex fuel i s)
unfolding lex
lex-Ends zero i s h = absurd (omega arith)
lex-Ends (suc fuel) i [] h = omega arith
lex-Ends (suc fuel) i (c ∷ s) h =
    if_cases (Ends nothing_left 0) (is_space c) _ _ (λ _. lex-Ends fuel (i + 1) s (omega arith))
      (λ _.
        bind-Ends lexeme_left nothing_left (length s) 0 (lex_token i c s) _ (lex_token-Ends i c s)
          (λ l left.
            bind-Ends nothing_left nothing_left 0 0 (lex fuel l.next l.rest) _
              (lex-Ends fuel l.next l.rest (omega arith)) (λ tokens h'. omega arith)))

-- The lexer never runs out of fuel.
pub tokenize-Ends : (input : Bytes) → Ends nothing_left 0 (tokenize input)
unfolding tokenize
tokenize-Ends input = lex-Ends (length input + 1) 0 input (omega arith)
