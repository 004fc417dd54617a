-- ===== src/Subscriptions/Schedule.antt =====
-- A `BTreeSet<(AckDeadline, u64)>`: the schedule of the outstanding tracker and of the retry queue,
-- as the sorted list of its keys.
use deltio.Prelude.{
  Bool, List, Option, [], arith, false, if◌then◌else◌, ltb, none, refl, some, true, ℕ, ◌&&◌, ◌==◌,
  ◌||◌, ◌∷◌, ◌≡◌,
}

abbrev pub Key : Type 0
Key = ℕ × ℕ

abbrev pub key_eq : Key → Key → Bool
key_eq (d, a) (e, b) = d == e && a == b

abbrev pub key_lt : Key → Key → Bool
key_lt (d, a) (e, b) = ltb d e || (d == e && ltb a b)

abbrev pub Schedule : Type 0
Schedule = List Key

abbrev pub first : Schedule → Option Key
first [] = none
first (k ∷ s) = some k

-- A comparison with the first key, `false` if there is none.
abbrev pub first_is : (Key → Bool) → Option Key → Bool
first_is p none = false
first_is p (some k) = p k

pub has : Key → Schedule → Bool
has k [] = false
has k (j ∷ s) = key_eq j k || has k s

unfoldable pub add_key : Key → Schedule → Schedule
add_key k [] = k ∷ []
add_key k (j ∷ s) = if key_lt k j then k ∷ j ∷ s else if key_eq k j then j ∷ s else j ∷ add_key k s

unfoldable pub remove_key : Key → Schedule → Schedule
remove_key k [] = []
remove_key k (j ∷ s) = let rest = remove_key k s in if key_eq j k then rest else j ∷ rest

abbrev pub Above : Key → Schedule → Type 0
Above k [] = Unit
Above k (j ∷ s) = (key_lt k j ≡ true) × Above k s

abbrev pub IsSorted : Schedule → Type 0
IsSorted [] = Unit
IsSorted (k ∷ s) = Above k s × IsSorted s

pub has-nil : (k : Key) → has k [] ≡ false
unfolding has
has-nil k = refl

pub has-cons : (k j : Key) (s : Schedule) → has k (j ∷ s) ≡ (key_eq j k || has k s)
unfolding has
has-cons k j s = refl

pub has-add_key : (k j : Key) (s : Schedule) → has j (add_key k s) ≡ (key_eq k j || has j s)
unfolding has add_key
has-add_key (d, a) (e, b) [] = refl
has-add_key (d, a) (e, b) ((c, n) ∷ s) = ground (arith, has-add_key (d, a) (e, b) s)

pub has-remove_key :
    (k j : Key) (s : Schedule) → has j (remove_key k s) ≡ (if key_eq k j then false else has j s)
unfolding has remove_key
has-remove_key (d, a) (e, b) [] = ground arith
has-remove_key (d, a) (e, b) ((c, n) ∷ s) = ground (arith, has-remove_key (d, a) (e, b) s)

Above-add_key : (l k : Key) (s : Schedule) → key_lt l k ≡ true → Above l s → Above l (add_key k s)
unfolding add_key
Above-add_key (e, b) (d, a) [] h u = (h, tt)
Above-add_key (e, b) (d, a) ((c, n) ∷ s) h u = ground (arith, Above-add_key (e, b) (d, a) s h u.1)

Above-trans : (l k : Key) (s : Schedule) → key_lt l k ≡ true → Above k s → Above l s
Above-trans l k [] h u = tt
Above-trans (e, b) (d, a) ((c, n) ∷ s) h u = (ground arith, Above-trans (e, b) (d, a) s h u.1)

pub add_key-IsSorted : (k : Key) (s : Schedule) → IsSorted s → IsSorted (add_key k s)
unfolding add_key
add_key-IsSorted k [] u = (tt, tt)
add_key-IsSorted (d, a) ((c, n) ∷ s) u = ground (
  arith,
  Above-trans (d, a) (c, n) s,
  Above-add_key (c, n) (d, a) s,
  add_key-IsSorted (d, a) s u.1,
)

Above-remove_key : (l k : Key) (s : Schedule) → Above l s → Above l (remove_key k s)
unfolding remove_key
Above-remove_key l k [] u = tt
Above-remove_key l k (j ∷ s) u = ground (arith, Above-remove_key l k s u.1)

pub remove_key-IsSorted : (k : Key) (s : Schedule) → IsSorted s → IsSorted (remove_key k s)
unfolding remove_key
remove_key-IsSorted k [] u = tt
remove_key-IsSorted k (j ∷ s) u =
    ground (arith, Above-remove_key j k s u.0, remove_key-IsSorted k s u.1)

-- What stands above a key is later, or as late with a larger number.
pub Above-has : (k j : Key) (s : Schedule) → Above k s → has j s ≡ true → key_lt k j ≡ true
unfolding has
Above-has k j [] u h = absurd (ground arith)
Above-has (d, a) (e, b) ((c, n) ∷ s) u h = ground (arith, Above-has (d, a) (e, b) s u.1)

remove_key_absent : (k : Key) (s : Schedule) → Above k s → remove_key k s ≡ s
unfolding remove_key
remove_key_absent k [] u = refl
remove_key_absent (d, a) ((c, n) ∷ s) u = ground (arith, remove_key_absent (d, a) s u.1)

-- To remove the first key is to pop it.
pub remove_key_first : (k : Key) (s : Schedule) → Above k s → remove_key k (k ∷ s) ≡ s
unfolding remove_key
remove_key_first (d, a) s u = ground (arith, remove_key_absent (d, a) s u)

pub first-remove_key :
    (k : Key) (s : Schedule) (o : Option Key)
    → first s ≡ o
    → first_is (key_eq k) o ≡ false
    → first (remove_key k s) ≡ o
unfolding remove_key
first-remove_key k [] o e h = e
first-remove_key (d, a) ((c, n) ∷ s) o e h = ground arith

pub first-add_key :
    (k j : Key) (s : Schedule)
    → first s ≡ some j
    → key_lt k j ≡ false
    → first (add_key k s) ≡ some j
unfolding add_key
first-add_key k j [] e h = absurd (ground arith)
first-add_key (d, a) (b, i) ((c, n) ∷ s) e h = ground arith

pub first-has : (k : Key) (s : Schedule) → first s ≡ none → has k s ≡ false
unfolding has
first-has k [] h = refl
first-has k (j ∷ s) h = absurd (ground arith)
