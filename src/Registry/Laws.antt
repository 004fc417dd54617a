-- ===== src/Registry/Laws.antt =====
-- What the registries keep: a handle stands under its own name, and no two have one internal ID.
use deltio.Prelude.{
  Eq, Map, Option-cases, Unique, [], arith, inl, inr, insert, insert-Unique, lookup, none, remove,
  remove-Unique, ℕ, ◌%◌, ◌+◌, ◌<◌, ◌^◌, ◌∷◌, ◌≡◌, ◌≢◌, ◌≤◌, nat_eq,
}
use deltio.Registry.{State, create_entry, delete_entry, new_state}

module _ {ℓ κ} {K : Type ℓ} {V : Type κ} (id_of : V → ℕ) (name_of : V → K) where
  abbrev Apart : ℕ → Map K V → Type 0
  Apart id [] = Unit
  Apart id ((k, v) ∷ m) = (id_of v ≢ id) × Apart id m

  -- Every number is at most `last`, no two are equal, and the names are the keys.
  abbrev Numbered : ℕ → Map K V → Type ℓ
  Numbered last [] = Unit
  Numbered last ((k, v) ∷ m) =
      (id_of v ≤ last) × Apart (id_of v) m × (name_of v ≡ k) × Numbered last m

  Apart-above : (last id : ℕ) (m : Map K V) → Numbered last m → last < id → Apart id m
  Apart-above last id [] n h = tt
  Apart-above last id ((k, v) ∷ m) n h = (ground arith, Apart-above last id m n.3 h)

  Numbered-later : (last next : ℕ) (m : Map K V) → Numbered last m → last ≤ next → Numbered next m
  Numbered-later last next [] n h = tt
  Numbered-later last next ((k, v) ∷ m) n h =
      (omega (arith, n.0), n.1, n.2, Numbered-later last next m n.3 h)

module _ {ℓ κ} {K : Type ℓ} {V : Type κ} ⦃e : Eq K⦄ (id_of : V → ℕ) (name_of : V → K) where
  Apart-insert :
      (id : ℕ) (k : K) (v : V) (m : Map K V)
      → lookup k m ≡ none
      → Apart id_of name_of id m
      → id_of v ≢ id
      → Apart id_of name_of id (insert k v m)
  unfolding lookup insert
  Apart-insert id k v [] l a h = (h, tt)
  Apart-insert id k v ((j, w) ∷ m) l a h = ground (arith, Apart-insert id k v m)

  Numbered-insert :
      (last next : ℕ) (k : K) (v : V) (m : Map K V)
      → lookup k m ≡ none
      → Numbered id_of name_of last m
      → last < next
      → id_of v ≡ next
      → name_of v ≡ k
      → Numbered id_of name_of next (insert k v m)
  unfolding lookup insert
  Numbered-insert last next k v [] l n h i named = (omega (arith, i), tt, named, tt)
  Numbered-insert last next k v ((j, w) ∷ m) l n h i named =
      ground (arith, Apart-insert (id_of w) k v m, Numbered-insert last next k v m)

  Apart-remove :
      (id : ℕ) (k : K) (m : Map K V)
      → Apart id_of name_of id m
      → Apart id_of name_of id (remove k m)
  unfolding remove
  Apart-remove id k [] a = tt
  Apart-remove id k ((j, w) ∷ m) a = ground (arith, Apart-remove id k m a.1)

  Numbered-remove :
      (last : ℕ) (k : K) (m : Map K V)
      → Numbered id_of name_of last m
      → Numbered id_of name_of last (remove k m)
  unfolding remove
  Numbered-remove last k [] n = tt
  Numbered-remove last k ((j, w) ∷ m) n =
      ground (arith, Apart-remove (id_of w) k m n.1, Numbered-remove last k m n.3)

  pub record IsValid (s : State K V) : Type ℓ where
    pub unique : Unique s.entries
    numbered : Numbered id_of name_of s.next_id s.entries

  pub new_state-IsValid : IsValid new_state
  new_state-IsValid = record { unique = tt; numbered = tt }

  pub create_entry-IsValid :
      (name : K) (make : ℕ → V) (s : State K V)
      → ((id : ℕ) → (id_of (make id) ≡ id) × (name_of (make id) ≡ name))
      → s.next_id + 1 < 2 ^ 32
      → IsValid s
      → IsValid (create_entry name make s).0
  unfolding create_entry
  create_entry-IsValid name make s made small v = elim (Option-cases (lookup name s.entries)) [
    | inl vacant ↦
        rw (vacant, create_entry)
          (record {
            unique = insert-Unique name (make ((s.next_id + 1) % 2 ^ 32)) s.entries v.unique;
            numbered =
                let next = (s.next_id + 1) % 2 ^ 32 in
                Numbered-insert s.next_id next name (make next) s.entries vacant v.numbered
                  (omega arith) (made next).0 (made next).1;
          })
    | inr (old, taken) ↦ rw (taken, create_entry) v
  ]

  pub delete_entry-IsValid : (name : K) (s : State K V) → IsValid s → IsValid (delete_entry name s)
  unfolding delete_entry
  delete_entry-IsValid name s v = record {
    unique = remove-Unique name s.entries v.unique;
    numbered = Numbered-remove s.next_id name s.entries v.numbered;
  }
