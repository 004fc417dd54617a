-- ===== src/Subscriptions/Filter/Lexer.antt =====
-- The tokens of the filter language. The lexer's index is the position; the bytes from it on are
-- the rest of the input.
use deltio.Prelude.{
  Bool, Bytes, List, [], bytes_eq, codes, drop, false, if◌then◌else◌, is_empty, leb, length, ltb,
  not, suc, zero, ℕ, ◌%◌, ◌&&◌, ◌++◌, ◌+◌, ◌/◌, ◌==◌, ◌||◌, ◌∷◌, bytes_eq_instance,
}

pub data Token : Type 0 where
  l_paren r_paren comma eq_sign not_eq and_word or_word not_word : Token
  attribute_dot attribute_has ident str : Bytes → Token

-- What an error names: a byte, `attributes` with the byte behind it, or a token in debug form.
pub data Found : Type 0 where
  a_byte : ℕ → Found
  attributes_with : ℕ → Found
  a_token : Token → Found

pub data FilterParseError : Type 0 where
  unexpected_token : Found → ℕ → FilterParseError
  unexpected_end unterminated_string : FilterParseError
  invalid_escape : ℕ → FilterParseError
  invalid_identifier : Bytes → FilterParseError

-- `out_of_fuel` is no result of the program: the rounds given are always enough.
pub data Result {ℓ} (A : Type ℓ) : Type ℓ where
  ok : A → Result A
  err : FilterParseError → Result A
  out_of_fuel : Result A

infixl 5 ◌>>=◌
abbrev pub ◌>>=◌ {ℓ κ} : {A : Type ℓ} {B : Type κ} → Result A → (A → Result B) → Result B
ok a >>= f = f a
err e >>= f = err e
out_of_fuel >>= f = out_of_fuel

abbrev pub Located : Type 0
Located = List (Token × ℕ)

-- `s.push(b as char)`: the byte as a code point, which is two bytes of UTF-8 from 128 on.
abbrev pub push_char : ℕ → Bytes
push_char b = if ltb b 128 then b ∷ [] else (192 + b / 64) ∷ (128 + b % 64) ∷ []

pub record Lexed : Type 0 where
  pub text : Bytes
  pub next : ℕ
  pub rest : Bytes

abbrev pub prepend : Bytes → Result Lexed → Result Lexed
prepend c r = r >>= λ l. ok (record l { text = c ++ l.text })

-- The loop over a string literal, behind its opening quote.
unfoldable pub lex_string : ℕ → Bytes → Result Lexed
lex_string i [] = err unterminated_string
lex_string i (b ∷ []) =
    if b == b'"'
    then ok (record { text = []; next = i + 1; rest = [] })
    else err unterminated_string
lex_string i (b ∷ e ∷ s) =
    let escaped = prepend (e ∷ []) (lex_string (i + 2) s) in
    let plain = prepend (push_char b) (lex_string (i + 1) (e ∷ s)) in
    if b == b'"'
    then ok (record { text = []; next = i + 1; rest = e ∷ s })
    else if b == b'\\'
    then (if e == b'"' || e == b'\\' then escaped else err (invalid_escape e))
    else plain

abbrev is_upper : ℕ → Bool
is_upper c = leb b'A' c && leb c b'Z'

abbrev pub is_ascii_alphabetic : ℕ → Bool
is_ascii_alphabetic c = is_upper c || (leb b'a' c && leb c b'z')

abbrev is_ascii_alphanumeric : ℕ → Bool
is_ascii_alphanumeric c = is_ascii_alphabetic c || (leb b'0' c && leb c b'9')

abbrev pub is_word_byte : ℕ → Bool
is_word_byte c = is_ascii_alphanumeric c || c == b'_' || c == b'-'

-- The loop over the bytes of a word.
unfoldable pub lex_word : ℕ → Bytes → Lexed
lex_word i [] = record { text = []; next = i; rest = [] }
lex_word i (c ∷ s) =
    let more = lex_word (i + 1) s in
    if is_word_byte c
    then record more { text = c ∷ more.text }
    else record { text = []; next = i; rest = c ∷ s }

abbrev lower : ℕ → ℕ
lower c = if is_upper c then c + 32 else c

-- `eq_ignore_ascii_case` with a word in lower case.
abbrev pub is_keyword : Bytes → Bytes → Bool
is_keyword word [] = is_empty word
is_keyword [] (k ∷ ks) = false
is_keyword (c ∷ word) (k ∷ ks) = lower c == k && is_keyword word ks

pub record Lexeme : Type 0 where
  pub token : Token
  pub next : ℕ
  pub rest : Bytes

-- The key behind `attributes.` or `attributes:`.
unfoldable pub lex_key : ℕ → Lexed → Result Lexeme
lex_key sep key =
    if is_empty key.text
    then err (invalid_identifier (codes "empty attribute key"))
    else ok (record {
      token = if sep == b'.' then attribute_dot key.text else attribute_has key.text;
      next = key.next;
      rest = key.rest;
    })

-- The token of a word; the slices of ASCII letters are UTF-8, so `from_utf8` never fails.
unfoldable pub lex_attribute : Lexed → Result Lexeme
lex_attribute word = elim word.rest [
  | [] ↦ err unexpected_end
  | sep ∷ s ↦
      if not (sep == b'.') && not (sep == b':')
      then err (unexpected_token (attributes_with sep) word.next)
      else lex_key sep (lex_word (word.next + 1) s)
]

abbrev pub word_token : Token → Lexed → Result Lexeme
word_token t word = ok (record { token = t; next = word.next; rest = word.rest })

unfoldable pub classify : Lexed → Result Lexeme
classify word =
    if is_keyword word.text (codes "and")
    then word_token and_word word
    else if is_keyword word.text (codes "or")
    then word_token or_word word
    else if is_keyword word.text (codes "not")
    then word_token not_word word
    else if bytes_eq word.text (codes "attributes")
    then lex_attribute word
    else word_token (ident word.text) word

abbrev pub is_space : ℕ → Bool
is_space c = c == b' ' || c == b'\t' || c == b'\n' || c == b'\r'

abbrev pub next_is : ℕ → Bytes → Bool
next_is c [] = false
next_is c (d ∷ s) = d == c

abbrev one_byte : Token → ℕ → Bytes → Result Lexeme
one_byte t i s = ok (record { token = t; next = i + 1; rest = s })

-- The token at a byte that is no space, with the bytes behind it.
unfoldable pub lex_token : ℕ → ℕ → Bytes → Result Lexeme
lex_token i c s =
    if c == b'('
    then one_byte l_paren i s
    else if c == b')'
    then one_byte r_paren i s
    else if c == b','
    then one_byte comma i s
    else if c == b'='
    then one_byte eq_sign i s
    else if c == b'!' && next_is b'=' s
    then ok (record { token = not_eq; next = i + 2; rest = drop 1 s })
    else if c == b'"'
    then (lex_string (i + 1) s >>= λ l.
        ok (record { token = str l.text; next = l.next; rest = l.rest }))
    else if is_ascii_alphabetic c || c == b'_'
    then classify (lex_word i (c ∷ s))
    else err (unexpected_token (a_byte c) i)

abbrev pub push_token : ℕ → Lexeme → Result Located → Result Located
push_token start l r = r >>= λ tokens. ok ((l.token, start) ∷ tokens)

unfoldable pub lex : ℕ → ℕ → Bytes → Result Located
lex zero i s = out_of_fuel
lex (suc fuel) i [] = ok []
lex (suc fuel) i (c ∷ s) =
    let skipped = lex fuel (i + 1) s in
    let rest = lex_token i c s >>= λ l. push_token i l (lex fuel l.next l.rest) in
    if is_space c then skipped else rest

-- Each round takes a byte at least.
unfoldable pub tokenize : Bytes → Result Located
unfolding lex lex_token classify lex_attribute lex_key lex_word lex_string
tokenize input = lex (length input + 1) 0 input
