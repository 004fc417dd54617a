-- ===== src/Prelude/Maps.antt =====
-- A map as an association list, in the order of first insertion. `HashMap` promises no order of
-- its entries: the theorems about drains and iterations are stated for sums over the entries.
use Prim.Native.Nat.{ℕ, ◌+◌}
use mathlib.Core.Path.{◌≡◌, refl}
use mathlib.Core.Bool.{false}
use mathlib.Core.Option.{Option, none, some}
use mathlib.Core.List.{List, [], ◌∷◌}
use native.Mathlib.Omega.{arith}
use deltio.Prelude.Tests.{if◌then◌else◌, is_some}
use deltio.Prelude.Lists.{total, length}
use deltio.Prelude.Keys.{Eq}

abbrev pub Map {ℓ κ} : Type ℓ → Type κ → Type (ℓ ⊔ κ)
Map K V = List (K × V)

module _ {ℓ κ} {K : Type ℓ} {V : Type κ} where
  abbrev pub values : Map K V → List V
  values [] = []
  values ((k, v) ∷ m) = v ∷ values m

  -- The sum of a weight over the values.
  abbrev pub weigh : (V → ℕ) → Map K V → ℕ
  weigh f [] = 0
  weigh f ((k, v) ∷ m) = f v + weigh f m

  pub total-values : (f : V → ℕ) (m : Map K V) → total f (values m) ≡ weigh f m
  total-values f [] = refl
  total-values f ((k, v) ∷ m) = omega (arith, total-values f m)

pub weigh_one {ℓ κ} : {K : Type ℓ} {V : Type κ} (m : Map K V) → weigh (λ _. 1) m ≡ length m
weigh_one [] = refl
weigh_one ((k, v) ∷ m) = omega (arith, weigh_one m)

abbrev pub weigh? {ℓ} : {V : Type ℓ} → (V → ℕ) → Option V → ℕ
weigh? f none = 0
weigh? f (some v) = f v

module _ {ℓ κ} {K : Type ℓ} {V : Type κ} ⦃e : Eq K⦄ where
  unfoldable pub lookup : K → Map K V → Option V
  lookup k [] = none
  lookup k ((j, v) ∷ m) = if e.beq j k then some v else lookup k m

  unfoldable pub insert : K → V → Map K V → Map K V
  insert k v [] = (k, v) ∷ []
  insert k v ((j, w) ∷ m) = if e.beq j k then (k, v) ∷ m else (j, w) ∷ insert k v m

  unfoldable pub remove : K → Map K V → Map K V
  remove k [] = []
  remove k ((j, v) ∷ m) = let rest = remove k m in if e.beq j k then rest else (j, v) ∷ rest

  -- No key has two entries.
  abbrev pub Unique : Map K V → Type 0
  Unique [] = Unit
  Unique ((k, v) ∷ m) = (is_some (lookup k m) ≡ false) × Unique m

  pub lookup-nil : (k : K) → lookup k [] ≡ none
  unfolding lookup
  lookup-nil k = refl

  pub lookup-insert :
      (k j : K) (v : V) (m : Map K V)
      → lookup j (insert k v m) ≡ (if e.beq k j then some v else lookup j m)
  unfolding lookup insert
  lookup-insert k j v [] = refl
  lookup-insert k j v ((i, w) ∷ m) =
      ground (arith, e.beq_iff k j, e.beq_iff i k, e.beq_iff i j, lookup-insert k j v m)

  pub lookup-remove :
      (k j : K) (m : Map K V) → lookup j (remove k m) ≡ (if e.beq k j then none else lookup j m)
  unfolding lookup remove
  lookup-remove k j [] = ground arith
  lookup-remove k j ((i, w) ∷ m) =
      ground (arith, e.beq_iff k j, e.beq_iff i k, e.beq_iff i j, lookup-remove k j m)

  pub weigh-insert :
      (f : V → ℕ) (k : K) (v : V) (m : Map K V)
      → weigh f (insert k v m) + weigh? f (lookup k m) ≡ weigh f m + f v
  unfolding lookup insert
  weigh-insert f k v [] = omega arith
  weigh-insert f k v ((i, w) ∷ m) = ground (arith, weigh-insert f k v m)

  remove_absent : (k : K) (m : Map K V) → lookup k m ≡ none → remove k m ≡ m
  unfolding lookup remove
  remove_absent k [] h = refl
  remove_absent k ((i, w) ∷ m) h = ground (arith, remove_absent k m)

  pub weigh-remove :
      (f : V → ℕ) (k : K) (m : Map K V)
      → Unique m
      → weigh f (remove k m) + weigh? f (lookup k m) ≡ weigh f m
  unfolding lookup remove
  weigh-remove f k [] u = omega arith
  weigh-remove f k ((i, w) ∷ m) u =
      ground (arith, e.beq_iff i k, remove_absent k m, weigh-remove f k m u.1)

  pub insert-Unique : (k : K) (v : V) (m : Map K V) → Unique m → Unique (insert k v m)
  unfolding lookup insert
  insert-Unique k v [] u = ground arith
  insert-Unique k v ((i, w) ∷ m) u =
      ground (arith, e.beq_iff i k, e.beq_iff k i, lookup-insert k i v m, insert-Unique k v m u.1)

  pub remove-Unique : (k : K) (m : Map K V) → Unique m → Unique (remove k m)
  unfolding lookup remove
  remove-Unique k [] u = tt
  remove-Unique k ((i, w) ∷ m) u = ground (arith, lookup-remove k i m, remove-Unique k m u.1)

  pub lookup-cons :
      (k j : K) (v : V) (m : Map K V)
      → lookup k ((j, v) ∷ m) ≡ (if e.beq j k then some v else lookup k m)
  unfolding lookup
  lookup-cons k j v m = refl
