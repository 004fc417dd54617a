-- ===== src/Registry.antt =====
-- The state that src/topics/topic_manager.rs and src/subscriptions/subscription_manager.rs both keep
-- behind their lock: a map of handles by name and the number of the last handle. A handle carries
-- its name and its internal ID.
pub mod Laws
pub mod Calls
pub mod Listing
use deltio.Prelude.{
  Bool, Eq, List, Map, Option, [], insert, lookup, none, remove, retain, some, values, ℕ, ◌%◌, ◌+◌,
  ◌^◌, nat_eq,
}
use deltio.Paging.{Paging, list_page}
use deltio.Paging.Order.{sorted}

pub record State {ℓ κ} (K : Type ℓ) (V : Type κ) : Type (ℓ ⊔ κ) where
  pub entries : Map K V
  pub next_id : ℕ

module _ {ℓ κ} {K : Type ℓ} {V : Type κ} where
  abbrev pub new_state : State K V
  new_state = record { entries = []; next_id = 1 }

  abbrev pub list_all : State K V → List V
  list_all s = values s.entries

  -- The handles of a project by their internal ID, cut to a page.
  pub list_in_project : (V → ℕ) → (V → Bool) → Paging → State K V → List V × Paging
  unfolding list_page
  list_in_project id_of is_in_project paging s =
      list_page paging (sorted id_of (retain is_in_project (values s.entries)))

module _ {ℓ κ} {K : Type ℓ} {V : Type κ} ⦃e : Eq K⦄ where
  -- The next number is taken, wrapping in a release build, if the name is vacant.
  unfoldable pub create_entry : K → (ℕ → V) → State K V → State K V × Option V
  create_entry name make s = elim (lookup name s.entries) [
    | none ↦
        let internal_id = (s.next_id + 1) % 2 ^ 32 in
        (
          record { entries = insert name (make internal_id) s.entries; next_id = internal_id },
          some (make internal_id),
        )
    | some old ↦ (s, none)
  ]

  abbrev pub get_entry : K → State K V → Option V
  get_entry name s = lookup name s.entries

  unfoldable pub delete_entry : K → State K V → State K V
  delete_entry name s = record s { entries = remove name s.entries }
