-- ===== src/Paging/Pages.antt =====
-- A client that follows the pages.
use deltio.Prelude.{
  List, Option, [], ap, arith, drop, false, if_cases, is_empty, length, length-drop, length-take,
  none, refl, some, suc, take, take-append-drop, true, zero, ℕ, ◌++◌, ◌+◌, ◌<◌, ◌>>=◌, ◌∙◌, ◌∷◌,
  ◌≡◌, nat_eq,
}
use deltio.Paging.{
  Paging, list_page, next_page_from_slice_result, new_paging, next_page, size, to_skip,
}

module _ {ℓ} {A : Type ℓ} where
  -- All that a client lists who asks for a page after the other until there is no next one; `none`
  -- where the number of requests is not enough.
  unfoldable pub follow : ℕ → Paging → List A → Option (List A)
  follow zero p items = none
  follow (suc requests) p items =
      let (page, next) = list_page p items in
      let rest = follow requests next items in
      elim next.offset [ none ↦ some page | some n ↦ (rest >>= λ others. some (page ++ others)) ]

  drop-take : (k n : ℕ) (xs : List A) → k ≡ length (take n xs) → drop k xs ≡ drop n xs
  drop-take zero zero xs e = refl
  drop-take zero (suc n) [] e = refl
  drop-take zero (suc n) (x ∷ xs) e = absurd (omega arith)
  drop-take (suc k) zero xs e = absurd (omega arith)
  drop-take (suc k) (suc n) [] e = refl
  drop-take (suc k) (suc n) (x ∷ xs) e = drop-take k n xs (omega arith)

  drop-drop : (k n m : ℕ) (xs : List A) → k ≡ n + m → drop k xs ≡ drop m (drop n xs)
  drop-drop k zero m xs e = ap (λ j. drop j xs) (omega arith)
  drop-drop zero (suc n) m xs e = absurd (omega arith)
  drop-drop (suc k) (suc n) zero [] e = refl
  drop-drop (suc k) (suc n) (suc m) [] e = refl
  drop-drop (suc k) (suc n) m (x ∷ xs) e = drop-drop k n m xs (omega arith)

  -- What is left behind a page.
  page-append :
      (n skip : ℕ) (items : List A)
      → take n (drop skip items) ++ drop (skip + length (take n (drop skip items))) items
        ≡ drop skip items
  page-append n skip items =
      let page = take n (drop skip items) in
      ap (λ l. page ++ l)
        (drop-drop (skip + length page) skip (length page) items refl
          ∙ drop-take (length page) n (drop skip items) refl)
      ∙ take-append-drop n (drop skip items)

  -- An empty page of a positive size is the end of the list.
  empty_page : (n : ℕ) (xs : List A) → 0 < n → is_empty (take n xs) ≡ true → take n xs ≡ xs
  empty_page zero xs h e = absurd (omega arith)
  empty_page (suc n) [] h e = refl
  empty_page (suc n) (x ∷ xs) h e = absurd (ground arith)

  page_left :
      (n skip : ℕ) (items : List A)
      → 0 < n
      → is_empty (take n (drop skip items)) ≡ false
      → (0 < length (take n (drop skip items))) × (skip < length items)
  page_left n skip items h e =
      let some_page = not_empty (take n (drop skip items)) e in
      (some_page, omega (arith, some_page, length-take n (drop skip items), length-drop skip items))
    where
      not_empty : (xs : List A) → is_empty xs ≡ false → 0 < length xs
      not_empty [] e' = absurd (ground arith)
      not_empty (x ∷ xs) e' = omega arith

  follow-drop :
      (requests : ℕ) (p : Paging) (items : List A)
      → 0 < size p
      → 0 < requests
      → length items < to_skip p + requests
      → follow requests p items ≡ some (drop (to_skip p) items)
  unfolding follow list_page next_page_from_slice_result
  follow-drop zero p items positive some_left enough = absurd (omega arith)
  follow-drop (suc requests) p items positive some_left enough =
      let skip = to_skip p in
      let page = take (size p) (drop skip items) in
      let found : Option ℕ → Type ℓ = λ o.
        elim o as (λ _. Option (List A)) [
          | none ↦ some page
          | some n ↦ (follow requests (next_page p o) items >>= λ others. some (page ++ others))
        ]
        ≡ some (drop skip items) in
      let more = some (skip + length page) in
      if_cases found (is_empty page) none more
        (λ e. ap some (empty_page (size p) (drop skip items) positive e))
        (λ e.
          let left = page_left (size p) skip items positive e in
          ap (λ o. o >>= λ others. some (page ++ others))
            (follow-drop requests (next_page p more) items positive (omega (arith, left))
              (omega (arith, left)))
          ∙ ap some (page-append (size p) skip items))

-- Whatever size a client asks for, following the pages from the start ends after at most as many
-- requests as there are items and one more, and lists every item once, in order.
pub follow-new_paging {ℓ} :
    {A : Type ℓ} (asked : ℕ) (items : List A)
    → follow (length items + 1) (new_paging asked none) items ≡ some items
follow-new_paging asked items =
    follow-drop (length items + 1) (new_paging asked none) items (ground arith) (omega arith)
      (omega arith)
