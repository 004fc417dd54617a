-- ===== src/Metrics/Encoder.antt =====
-- src/metrics/encoder.rs: the text format of Prometheus. The writer is the text so far.
use deltio.Prelude.{
  Bool, Bytes, List, Option, [], ap, append_assoc, arith, codes, false, if◌then◌else◌, none, refl,
  some, true, ℕ, ◌++◌, ◌==◌, ◌>>=◌, ◌∙◌, ◌∷◌, ◌≡◌, nat_eq,
}

abbrev newline : ℕ
newline = 10

abbrev backslash : ℕ
backslash = 92

abbrev quote : ℕ
quote = 34

escape_char : ℕ → Bytes
escape_char c =
    if c == backslash
    then backslash ∷ backslash ∷ []
    else if c == quote
    then backslash ∷ quote ∷ []
    else if c == newline
    then backslash ∷ b'n' ∷ []
    else c ∷ []

pub escape_label_value : Bytes → Bytes
unfolding escape_char
escape_label_value [] = []
escape_label_value (c ∷ s) = escape_char c ++ escape_label_value s

unfoldable pub family : Bytes → Bytes → Bytes → Bytes → Bytes
family name metric_type help buf =
    buf
    ++ (codes "# HELP "
        ++ (name
            ++ (32
                ∷ (help
                    ++ (newline
                        ∷ (codes "# TYPE " ++ (name ++ (32 ∷ (metric_type ++ (newline ∷ []))))))))))

unfoldable pub sample : Bytes → Bytes → Bytes → Bytes
sample name value buf = buf ++ (name ++ (32 ∷ (value ++ (newline ∷ []))))

abbrev one_label : Bytes × Bytes → Bytes
one_label (key, val) = key ++ (codes "=\"" ++ (escape_label_value val ++ (quote ∷ [])))

abbrev more_labels : List (Bytes × Bytes) → Bytes
more_labels [] = []
more_labels (l ∷ ls) = b',' ∷ (one_label l ++ more_labels ls)

abbrev labels_text : List (Bytes × Bytes) → Bytes
labels_text [] = []
labels_text (l ∷ ls) = one_label l ++ more_labels ls

unfoldable pub labeled : Bytes → List (Bytes × Bytes) → Bytes → Bytes → Bytes
unfolding escape_label_value
labeled name labels value buf =
    buf ++ (name ++ (b'{' ∷ (labels_text labels ++ (codes "} " ++ (value ++ (newline ∷ []))))))

-- The character that a letter stands for behind a backslash; any other letter is malformed.
abbrev unescaped : ℕ → Option ℕ
unescaped c =
    if c == b'n'
    then some newline
    else if c == quote
    then some quote
    else if c == backslash
    then some backslash
    else none

-- How a reader of the format takes a label value: up to the closing quote, with the escapes undone.
-- The format is read by lines, so that a value with a bare line feed is malformed, as is one with an
-- unknown escape. The flag is set behind a backslash.
pub read_value : Bool → Bytes → Option (Bytes × Bytes)
read_value behind [] = none
read_value true (c ∷ s) =
    let after = read_value false s in
    unescaped c >>= λ d. (after >>= λ (v, rest). some (d ∷ v, rest))
read_value false (c ∷ s) =
    let escaped = read_value true s in
    let plain = read_value false s >>= λ (v, rest). some (c ∷ v, rest) in
    if c == quote
    then some ([], s)
    else if c == backslash
    then escaped
    else if c == newline
    then none
    else plain

read_value-escape_char :
    (c : ℕ) (s v rest : Bytes)
    → read_value false s ≡ some (v, rest)
    → read_value false (escape_char c ++ s) ≡ some (c ∷ v, rest)
unfolding read_value escape_char
read_value-escape_char c s v rest h = ground arith

quote_ends : (rest : Bytes) → read_value false (quote ∷ rest) ≡ some ([], rest)
unfolding read_value
quote_ends rest = refl

-- A reader of lines takes back every label value, whatever characters it has: quotes, backslashes and
-- line feeds are escaped, so that the value neither ends early nor breaks its line.
pub read_value-escape_label_value :
    (s rest : Bytes) → read_value false (escape_label_value s ++ (quote ∷ rest)) ≡ some (s, rest)
unfolding escape_label_value
read_value-escape_label_value [] rest = quote_ends rest
read_value-escape_label_value (c ∷ s) rest =
    ap (read_value false) (append_assoc (escape_char c) (escape_label_value s) (quote ∷ rest))
    ∙ read_value-escape_char c (escape_label_value s ++ (quote ∷ rest)) s rest
        (read_value-escape_label_value s rest)
