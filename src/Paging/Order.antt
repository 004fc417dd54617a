-- ===== src/Paging/Order.antt =====
-- The order by internal ID in which src/topics/topic_actor.rs, src/topics/topic_manager.rs and
-- src/subscriptions/subscription_manager.rs list what they keep.
use deltio.Prelude.{
  List, [], arith, if_cases, if◌then◌else◌, ltb, refl, total, ℕ, ◌+◌, ◌∷◌, ◌≡◌, ◌≤◌, nat_eq,
}

module _ {ℓ} {A : Type ℓ} (id_of : A → ℕ) where
  -- `sort_unstable` by the internal ID.
  pub sort_by_id : A → List A → List A
  sort_by_id s [] = s ∷ []
  sort_by_id s (t ∷ ts) =
      let rest = sort_by_id s ts in if ltb (id_of t) (id_of s) then t ∷ rest else s ∷ t ∷ ts

  unfoldable pub sorted : List A → List A
  sorted [] = []
  sorted (s ∷ ss) = sort_by_id s (sorted ss)

  abbrev pub InOrder : ℕ → List A → Type 0
  InOrder from [] = Unit
  InOrder from (s ∷ ss) = (from ≤ id_of s) × InOrder (id_of s) ss

  sort_by_id-InOrder :
      (from : ℕ) (s : A) (ts : List A)
      → from ≤ id_of s
      → InOrder from ts
      → InOrder from (sort_by_id s ts)
  unfolding sort_by_id
  sort_by_id-InOrder from s [] h o = (h, tt)
  sort_by_id-InOrder from s (t ∷ ts) h o =
      if_cases (InOrder from) (ltb (id_of t) (id_of s)) (t ∷ sort_by_id s ts) (s ∷ t ∷ ts)
        (λ e. (o.0, sort_by_id-InOrder (id_of t) s ts (ground arith) o.1))
        (λ e. (h, (ground arith, o.1)))

  pub sorted-InOrder : (ss : List A) → InOrder 0 (sorted ss)
  unfolding sorted
  sorted-InOrder [] = tt
  sorted-InOrder (s ∷ ss) = sort_by_id-InOrder 0 s (sorted ss) (omega arith) (sorted-InOrder ss)

  total-sort_by_id :
      (f : A → ℕ) (s : A) (ts : List A) → total f (sort_by_id s ts) ≡ f s + total f ts
  unfolding sort_by_id
  total-sort_by_id f s [] = refl
  total-sort_by_id f s (t ∷ ts) =
      if_cases (λ l. total f l ≡ f s + total f (t ∷ ts)) (ltb (id_of t) (id_of s))
        (t ∷ sort_by_id s ts) (s ∷ t ∷ ts) (λ e. omega (arith, total-sort_by_id f s ts))
        (λ e. omega arith)

  pub total-sorted : (f : A → ℕ) (ss : List A) → total f (sorted ss) ≡ total f ss
  unfolding sorted
  total-sorted f [] = refl
  total-sorted f (s ∷ ss) = omega (arith, total-sort_by_id f s (sorted ss), total-sorted f ss)
