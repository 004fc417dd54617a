-- ===== src/Prelude/Keys.antt =====
-- Keys of maps and sets: an equality test with its law. Text is the list of its bytes.
use Prim.Native.Nat.{ℕ}
use Prim.Native.Char.{code}
use Prim.Native.String.{String}
use mathlib.Core.Path.{◌≡◌, refl}
use mathlib.Core.Logic.{◌↔◌}
use mathlib.Core.Bool.{Bool, true, false, ◌&&◌, ◌||◌}
use mathlib.Core.List.{List, [], ◌∷◌}
use native.Mathlib.Omega.{arith}
use deltio.Prelude.Tests.{ltb, ◌==◌, ==_iff, if◌then◌else◌}

pub record Eq {ℓ} (A : Type ℓ) : Type ℓ where
  pub beq : A → A → Bool
  pub beq_iff : (a b : A) → (beq a b ≡ true) ↔ (a ≡ b)

abbrev pub Bytes : Type 0
Bytes = List ℕ

-- The code points of a literal, which are its bytes when the text is ASCII.
abbrev pub codes : String → Bytes
codes String.[] = []
codes (String.◌∷◌ c s) = code c ∷ codes s

abbrev pub bytes_eq : Bytes → Bytes → Bool
bytes_eq [] [] = true
bytes_eq [] (y ∷ ys) = false
bytes_eq (x ∷ xs) [] = false
bytes_eq (x ∷ xs) (y ∷ ys) = x == y && bytes_eq xs ys

pub bytes_eq_iff : (xs ys : Bytes) → (bytes_eq xs ys ≡ true) ↔ (xs ≡ ys)
bytes_eq_iff [] [] = ground arith
bytes_eq_iff [] (y ∷ ys) = ground arith
bytes_eq_iff (x ∷ xs) [] = ground arith
bytes_eq_iff (x ∷ xs) (y ∷ ys) = ground (arith, bytes_eq_iff xs ys)

-- The order of `str`: lexicographic on the bytes.
abbrev pub bytes_lt : Bytes → Bytes → Bool
bytes_lt xs [] = false
bytes_lt [] (y ∷ ys) = true
bytes_lt (x ∷ xs) (y ∷ ys) = ltb x y || (x == y && bytes_lt xs ys)

abbrev pub starts_with : Bytes → Bytes → Bool
starts_with s [] = true
starts_with [] (p ∷ ps) = false
starts_with (c ∷ s) (p ∷ ps) = c == p && starts_with s ps

instance abbrev pub nat_eq : Eq ℕ
nat_eq = record { beq = ◌==◌; beq_iff = ==_iff }

instance abbrev pub bytes_eq_instance : Eq Bytes
bytes_eq_instance = record { beq = bytes_eq; beq_iff = bytes_eq_iff }

-- A set as a list without repetitions, as `HashSet` keeps it.
module _ {ℓ} {A : Type ℓ} ⦃e : Eq A⦄ where
  unfoldable pub contains : A → List A → Bool
  contains a [] = false
  contains a (x ∷ xs) = e.beq x a || contains a xs

  unfoldable pub put : A → List A → List A
  unfolding contains
  put a xs = if contains a xs then xs else a ∷ xs

  pub discard : A → List A → List A
  discard a [] = []
  discard a (x ∷ xs) = let rest = discard a xs in if e.beq x a then rest else x ∷ rest

  pub contains-nil : (a : A) → contains a [] ≡ false
  unfolding contains
  contains-nil a = refl

  pub contains-put : (a b : A) (xs : List A) → contains b (put a xs) ≡ (e.beq a b || contains b xs)
  unfolding put
  contains-put a b xs = ground (arith, e.beq_iff a b)

  pub discard-nil : (a : A) → discard a [] ≡ []
  unfolding discard
  discard-nil a = refl

  pub contains-discard :
      (a b : A) (xs : List A)
      → contains b (discard a xs) ≡ (if e.beq a b then false else contains b xs)
  unfolding contains discard
  contains-discard a b [] = ground arith
  contains-discard a b (x ∷ xs) =
      ground (arith, e.beq_iff a b, e.beq_iff x a, e.beq_iff x b, contains-discard a b xs)

  pub contains-cons : (a x : A) (xs : List A) → contains a (x ∷ xs) ≡ (e.beq x a || contains a xs)
  unfolding contains
  contains-cons a x xs = refl
