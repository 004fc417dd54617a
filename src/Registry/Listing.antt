-- ===== src/Registry/Listing.antt =====
-- A client that follows the pages of a project's topics or subscriptions.
use deltio.Prelude.{
  Bool, List, Option, ap, if◌then◌else◌, length, none, refl, retain, some, suc, total, total-retain,
  total-values, values, weigh, zero, ℕ, ◌++◌, ◌+◌, ◌>>=◌, ◌∙◌, ◌≡◌, nat_eq,
}
use deltio.Paging.{Paging, list_page, new_paging}
use deltio.Paging.Order.{InOrder, sorted, sorted-InOrder, total-sorted}
use deltio.Paging.Pages.{follow, follow-new_paging}
use deltio.Registry.{State, list_in_project}

module _ {ℓ κ} {K : Type ℓ} {V : Type κ} (id_of : V → ℕ) (is_in_project : V → Bool) where
  -- What a project has, by internal ID.
  abbrev pub in_project : State K V → List V
  in_project s = sorted id_of (retain is_in_project (values s.entries))

  -- Each request is answered from the same state; `none` where the requests do not suffice.
  pub follow_project : ℕ → Paging → State K V → Option (List V)
  follow_project zero p s = none
  follow_project (suc requests) p s =
      let (page, next) = list_in_project id_of is_in_project p s in
      let rest = follow_project requests next s in
      elim next.offset [ none ↦ some page | some n ↦ (rest >>= λ others. some (page ++ others)) ]

  follow_project-follow :
      (requests : ℕ) (p : Paging) (s : State K V)
      → follow_project requests p s ≡ follow requests p (in_project s)
  unfolding follow_project follow list_in_project list_page
  follow_project-follow zero p s = refl
  follow_project-follow (suc requests) p s =
      let (page, next) = list_in_project id_of is_in_project p s in
      ap
        (λ (rest : Option (List V)). elim next.offset [
          | none ↦ some page
          | some n ↦ (rest >>= λ others. some (page ++ others))
        ])
        (follow_project-follow requests next s)

  -- Following the pages of a project from the start, whatever size is asked for, ends after one
  -- request more than there are handles at most, and lists every handle of the project once, in the
  -- order of the internal IDs, and none of another project.
  pub follow_project_complete :
      (asked : ℕ) (s : State K V)
      → (listed : List V) × (follow_project (length (in_project s) + 1) (new_paging asked none) s
          ≡ some listed)
        × InOrder id_of 0 listed
        × ((f : V → ℕ) → total f listed ≡ weigh (λ v. if is_in_project v then f v else 0) s.entries)
  follow_project_complete asked s = (
    in_project s,
    follow_project-follow (length (in_project s) + 1) (new_paging asked none) s
        ∙ follow-new_paging asked (in_project s),
    sorted-InOrder id_of (retain is_in_project (values s.entries)),
    λ f.
        total-sorted id_of f (retain is_in_project (values s.entries))
        ∙ total-retain f is_in_project (values s.entries)
        ∙ total-values (λ v. if is_in_project v then f v else 0) s.entries,
  )
