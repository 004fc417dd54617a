-- ===== src/Topics/Name/RoundTrip.antt =====
-- Names that are printed and parsed again, and what the parser does not look at.
use deltio.Prelude.{
  Bool, Bytes, [], ap, append_assoc, arith, codes, drop, length, length-append, not, refl, some,
  starts_with, suc, sym, true, zero, ℕ, ◌&&◌, ◌++◌, ◌+◌, ◌<◌, ◌==◌, ◌>>=◌, ◌∙◌, ◌∷◌, ◌≡◌, nat_eq,
  bytes_eq_instance,
}
use deltio.Topics.Name.{
  TopicName, SubscriptionName, project_prefix, starts_char, get_from, before_slash, trim_slashes,
  parse_name, parse_topic_name, parse_subscription_name, show_topic_name, show_subscription_name,
}

-- A part of a name is whole characters without a slash.
abbrev no_slash : Bytes → Bool
no_slash [] = true
no_slash (c ∷ s) = not (c == b'/') && no_slash s

abbrev is_project : Bytes → Bool
is_project p = starts_char p && no_slash p

drop-append : (n : ℕ) (xs ys : Bytes) → n ≡ length xs → drop n (xs ++ ys) ≡ ys
drop-append zero [] ys e = refl
drop-append zero (x ∷ xs) ys e = absurd (omega arith)
drop-append (suc n) [] ys e = absurd (omega arith)
drop-append (suc n) (x ∷ xs) ys e = drop-append n xs ys (omega arith)

get_from-append :
    (n : ℕ) (xs ys : Bytes)
    → n ≡ length xs
    → starts_char ys ≡ true
    → get_from n (xs ++ ys) ≡ some ys
unfolding get_from
get_from-append n xs ys e h = ground (arith, drop-append n xs ys e, length-append xs ys)

before_slash-append : (p s : Bytes) → no_slash p ≡ true → before_slash (p ++ b'/' ∷ s) ≡ some p
unfolding before_slash
before_slash-append [] s h = refl
before_slash-append (c ∷ p) s h = ground (arith, before_slash-append p s)

starts_with-append : (prefix s : Bytes) → starts_with (prefix ++ s) prefix ≡ true
starts_with-append [] s = ground arith
starts_with-append (c ∷ prefix) s = ground (arith, starts_with-append prefix s)

starts_char-append : (p s : Bytes) → starts_char p ≡ true → starts_char (p ++ b'/' ∷ s) ≡ true
starts_char-append [] s h = refl
starts_char-append (c ∷ p) s h = h

parse_name-parts :
    (len : ℕ) (unparsed rest p t : Bytes)
    → 9 + len + 2 < length unparsed
    → starts_with unparsed project_prefix ≡ true
    → get_from 9 unparsed ≡ some rest
    → before_slash rest ≡ some p
    → get_from (9 + length p + len) unparsed ≡ some t
    → parse_name len unparsed ≡ some (p, trim_slashes t)
unfolding parse_name
parse_name-parts len unparsed rest p t long prefix e e' e'' = ground arith

-- The shape of a name, with any text for its collection.
parse_name-append :
    (p other t : Bytes)
    → is_project p ≡ true
    → starts_char t ≡ true
    → 2 < length p + length t
    → parse_name (1 + length other) (project_prefix ++ (p ++ ((b'/' ∷ other) ++ t)))
      ≡ some (p, trim_slashes t)
parse_name-append p other t hp ht long =
    let tail = (b'/' ∷ other) ++ t in
    let head = project_prefix ++ (p ++ (b'/' ∷ other)) in
    let unparsed = project_prefix ++ (p ++ tail) in
    let same : head ++ t ≡ unparsed =
      append_assoc project_prefix (p ++ (b'/' ∷ other)) t
      ∙ ap (λ s. project_prefix ++ s) (append_assoc p (b'/' ∷ other) t) in
    parse_name-parts (1 + length other) unparsed (p ++ tail) p t
      (omega (
        arith,
        length-append project_prefix (p ++ tail),
        length-append p tail,
        length-append (b'/' ∷ other) t,
      ))
      (starts_with-append project_prefix (p ++ tail))
      (get_from-append 9 project_prefix (p ++ tail) refl
        (starts_char-append p (other ++ t) (ground arith)))
      (before_slash-append p (other ++ t) (ground arith))
      (ap (get_from (9 + length p + (1 + length other))) (sym same)
        ∙ get_from-append (9 + length p + (1 + length other)) head t
            (omega (
              arith,
              length-append project_prefix (p ++ (b'/' ∷ other)),
              length-append p (b'/' ∷ other),
            ))
            ht)

-- A project and an identifier that the parser reads back: whole characters, no slash in the
-- project and none at the ends of the identifier, and more than two bytes together.
abbrev pub IsReadable : Bytes → Bytes → Type 0
IsReadable p t =
    (is_project p ≡ true)
    × (starts_char t ≡ true)
    × (trim_slashes t ≡ t)
    × (2 < length p + length t)

-- The parser of topic names does not look at the collection: seven bytes of any text between the
-- slash behind a readable project and a readable topic are as good as `topics/`.
pub parse_topic_name_any_collection :
    (n : TopicName) (collection : Bytes)
    → IsReadable n.project_id n.topic_id
    → length collection ≡ 7
    → parse_topic_name (project_prefix ++ (n.project_id ++ ((b'/' ∷ collection) ++ n.topic_id)))
      ≡ some n
unfolding parse_topic_name
parse_topic_name_any_collection n collection (hp, ht, trimmed, long) seven =
    let unparsed = project_prefix ++ (n.project_id ++ ((b'/' ∷ collection) ++ n.topic_id)) in
    let eight : 8 ≡ 1 + length collection = omega (arith, seven) in
    let parts : parse_name 8 unparsed ≡ some (n.project_id, trim_slashes n.topic_id) =
      ap (λ k. parse_name k unparsed) eight
      ∙ parse_name-append n.project_id collection n.topic_id hp ht long in
    ap (λ o. o >>= λ ((p, t) : Bytes × Bytes). some (record { project_id = p; topic_id = t })) parts
    ∙ ap (λ t. some (record { project_id = n.project_id; topic_id = t })) trimmed

-- A printed topic name is parsed back, where its project and topic are readable.
pub parse_topic_name-show_topic_name :
    (n : TopicName)
    → IsReadable n.project_id n.topic_id
    → parse_topic_name (show_topic_name n) ≡ some n
unfolding show_topic_name
parse_topic_name-show_topic_name n h = parse_topic_name_any_collection n (codes "topics/") h refl

-- A printed subscription name is parsed back, where its project and subscription are readable.
parse_subscription_name-show_subscription_name :
    (n : SubscriptionName)
    → IsReadable n.project_id n.subscription_id
    → parse_subscription_name (show_subscription_name n) ≡ some n
unfolding parse_subscription_name show_subscription_name
parse_subscription_name-show_subscription_name n (hp, ht, trimmed, long) =
    ap
      (λ o. o >>= λ ((p, s) : Bytes × Bytes). some (record { project_id = p; subscription_id = s }))
      (parse_name-append n.project_id (codes "subscriptions/") n.subscription_id hp ht long)
    ∙ ap (λ s. some (record { project_id = n.project_id; subscription_id = s })) trimmed
