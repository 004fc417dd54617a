-- ===== src/Results.antt =====
-- `Result` of the Rust source, with the error type as a parameter.
use mathlib.Core.Path.{subst}
use deltio.Prelude.{
  Bool, List, Option, [], false, inl, inr, none, refl, some, true, ◌∷◌, ◌≡◌, ◌⊎◌, nat_eq,
}

pub data Result {ℓ κ} (E : Type ℓ) (A : Type κ) : Type (ℓ ⊔ κ) where
  ok : A → Result E A
  err : E → Result E A

module _ {ℓ} {E : Type ℓ} where
  infixl 5 ◌>>=◌ ◌>>◌
  -- `Option::ok_or`.
  abbrev pub ok_or {κ} : {A : Type κ} → Option A → E → Result E A
  ok_or (some found) missing = ok found
  ok_or none missing = err missing

  -- The operator `?`: the first error ends the function.
  abbrev pub ◌>>=◌ {κ ι} : {A : Type κ} {B : Type ι} → Result E A → (A → Result E B) → Result E B
  err error >>= continue = err error
  ok value >>= continue = continue value

  -- A test that returns early.
  abbrev pub guard : Bool → E → Result E (Unit {0})
  guard false error = err error
  guard true error = ok tt

  abbrev pub ◌>>◌ {κ ι} : {A : Type κ} {B : Type ι} → Result E A → Result E B → Result E B
  before >> after = before >>= λ ignored. after

  abbrev pub map_ok {κ ι} : {A : Type κ} {B : Type ι} → (A → B) → Result E A → Result E B
  map_ok f (ok a) = ok (f a)
  map_ok f (err e) = err e

  -- `option.as_ref().map(parse).transpose()`.
  abbrev pub transpose_map {κ ι} :
      {A : Type κ} {B : Type ι} → (A → Result E B) → Option A → Result E (Option B)
  transpose_map f none = ok none
  transpose_map f (some a) = map_ok some (f a)

  -- `iter().map(parse).collect::<Result<Vec<_>, _>>()`: the first error, or all results.
  unfoldable pub collect_map {κ ι} :
      {A : Type κ} {B : Type ι} → (A → Result E B) → List A → Result E (List B)
  collect_map f [] = ok []
  collect_map f (x ∷ xs) = let rest = collect_map f xs in f x >>= λ b. (rest >>= λ bs. ok (b ∷ bs))

abbrev pub map_err {ℓ κ ι} :
    {E : Type ℓ} {F : Type κ} {A : Type ι} → (E → F) → Result E A → Result F A
map_err f (ok a) = ok a
map_err f (err e) = err (f e)

abbrev pub is_ok {ℓ κ} : {E : Type ℓ} {A : Type κ} → Result E A → Bool
is_ok (ok a) = true
is_ok (err e) = false

-- To split on a computed result and keep the equation.
pub Result-cases {ℓ κ} :
    {E : Type ℓ} {A : Type κ} (r : Result E A) → ((a : A) × (r ≡ ok a)) ⊎ ((e : E) × (r ≡ err e))
Result-cases (ok a) = inl (a, refl)
Result-cases (err e) = inr (e, refl)

-- The parts of a chain that succeeds.
pub >>=-eq-ok {ℓ κ ι} :
    {E : Type ℓ} {A : Type κ} {B : Type ι} (before : Result E A) (continue : A → Result E B) {b : B}
    → (before >>= continue) ≡ ok b
    → (a : A) × (before ≡ ok a) × (continue a ≡ ok b)
>>=-eq-ok (err error) continue h = cc
>>=-eq-ok (ok value) continue h = (value, refl, h)

pub map_ok-eq-ok {ℓ κ ι} :
    {E : Type ℓ} {A : Type κ} {B : Type ι} (f : A → B) (m : Result E A) {b : B}
    → map_ok f m ≡ ok b
    → (a : A) × (m ≡ ok a) × (f a ≡ b)
map_ok-eq-ok f (ok a) h = (a, refl, cc)
map_ok-eq-ok f (err e) h = cc

pub ok-injective {ℓ κ} :
    {E : Type ℓ} {A : Type κ} (a b : A) → ◌≡◌ {A = Result E A} (ok a) (ok b) → a ≡ b
ok-injective a b h = cc

pub err-injective {ℓ κ} :
    {E : Type ℓ} {A : Type κ} (e f : E) → ◌≡◌ {A = Result E A} (err e) (err f) → e ≡ f
err-injective e f h = cc

pub not_both {ℓ κ ι} :
    {E : Type ℓ} {A : Type κ} {P : Type ι} (a : A) (e : E) → ◌≡◌ {A = Result E A} (ok a) (err e) → P
not_both a e h = absurd (cc)

pub transpose_map-valid {ℓ κ ι ν} :
    {E : Type ℓ} {A : Type κ} {B : Type ι} (P : Option B → Type ν) (parse : A → Result E B)
    (o : Option A) {v : Option B}
    → ((a : A) (b : B) → parse a ≡ ok b → P (some b))
    → P none
    → transpose_map parse o ≡ ok v
    → P v
transpose_map-valid P parse none valid absent e = subst P (ok-injective _ _ e) absent
transpose_map-valid P parse (some a) valid absent e =
    let (b, parsed, same) = map_ok-eq-ok some (parse a) e in subst P same (valid a b parsed)
