-- ===== src/Registry/Calls.antt =====
-- A run of calls on a registry, against a set of names as a function.
use deltio.Prelude.{
  Bool, Eq, List, [], arith, false, if◌then◌else◌, is_some, length, lookup-insert, lookup-remove,
  not, refl, true, ℕ, ◌%◌, ◌+◌, ◌<◌, ◌^◌, ◌∷◌, ◌≡◌, ◌≤◌, nat_eq,
}
use mathlib.Core.Path.{fun_ext}
use deltio.Registry.{State, create_entry, delete_entry, get_entry}
use deltio.Registry.Laws.{IsValid, create_entry-IsValid, delete_entry-IsValid}

-- A creation makes the handle from the number that it is given.
pub data Call {ℓ κ} (K : Type ℓ) (V : Type κ) : Type (ℓ ⊔ κ) where
  create : K → (ℕ → V) → Call K V
  get : K → Call K V
  delete : K → Call K V

abbrev set_name {ℓ} : {K : Type ℓ} ⦃e : Eq K⦄ → K → Bool → (K → Bool) → K → Bool
set_name ⦃e⦄ name present names other = if e.beq name other then present else names other

module _ {ℓ κ} {K : Type ℓ} {V : Type κ} ⦃e : Eq K⦄ where
  -- The state after the calls, and for each whether it succeeded.
  unfoldable pub run : List (Call K V) → State K V → State K V × List Bool
  run [] s = (s, [])
  run (create name make ∷ calls) s =
      let (s', made) = create_entry name make s in
      let (end, answers) = run calls s' in (end, is_some made ∷ answers)
  run (get name ∷ calls) s =
      let (end, answers) = run calls s in (end, is_some (get_entry name s) ∷ answers)
  run (delete name ∷ calls) s =
      let (end, answers) = run calls (delete_entry name s) in (end, true ∷ answers)

  -- The same calls on the set of the names that are taken: a creation succeeds if the name is free.
  pub replay : List (Call K V) → (K → Bool) → (K → Bool) × List Bool
  replay [] names = (names, [])
  replay (create name make ∷ calls) names =
      let (end, answers) = replay calls (set_name name true names) in
      (end, not (names name) ∷ answers)
  replay (get name ∷ calls) names =
      let (end, answers) = replay calls names in (end, names name ∷ answers)
  replay (delete name ∷ calls) names =
      let (end, answers) = replay calls (set_name name false names) in (end, true ∷ answers)

  abbrev pub names_in : State K V → K → Bool
  names_in s name = is_some (get_entry name s)

  create_entry-names_in :
      (name : K) (make : ℕ → V) (s : State K V)
      → (names_in (create_entry name make s).0 ≡ set_name name true (names_in s))
        × (is_some (create_entry name make s).1 ≡ not (names_in s name))
  unfolding create_entry
  create_entry-names_in name make s = (
    fun_ext (λ other. ground (
      arith,
      lookup-insert name other (make ((s.next_id + 1) % 2 ^ 32)) s.entries,
      e.beq_iff name other,
    )),
    ground arith,
  )

  delete_entry-names_in :
      (name : K) (s : State K V) → names_in (delete_entry name s) ≡ set_name name false (names_in s)
  unfolding delete_entry
  delete_entry-names_in name s =
      fun_ext (λ other. ground (arith, lookup-remove name other s.entries, e.beq_iff name other))

  -- A run of creations, lookups and deletions succeeds and fails call by call as the replay on the
  -- set of names does, and ends with the names of the replay.
  pub run-refines :
      (calls : List (Call K V)) (s : State K V)
      → (names_in (run calls s).0 ≡ (replay calls (names_in s)).0)
        × ((run calls s).1 ≡ (replay calls (names_in s)).1)
  unfolding run replay
  run-refines [] s = (refl, refl)
  run-refines (create name make ∷ calls) s =
      let s' = (create_entry name make s).0 in
      let made = create_entry-names_in name make s in
      let rest = run-refines calls s' in rw (← made.0) (rest.0, cc (rest.1, made.1))
  run-refines (get name ∷ calls) s = let rest = run-refines calls s in (rest.0, cc (rest.1))
  run-refines (delete name ∷ calls) s =
      let rest = run-refines calls (delete_entry name s) in
      rw (← delete_entry-names_in name s) (rest.0, cc (rest.1))

-- Each creation makes a handle that carries the name and the number.
abbrev WellMade {ℓ κ} : {K : Type ℓ} {V : Type κ} → (V → ℕ) → (V → K) → List (Call K V) → Type ℓ
WellMade id_of name_of [] = Unit
WellMade id_of name_of (create name make ∷ calls) =
    ((id : ℕ) → (id_of (make id) ≡ id) × (name_of (make id) ≡ name)) × WellMade id_of name_of calls
WellMade id_of name_of (get name ∷ calls) = WellMade id_of name_of calls
WellMade id_of name_of (delete name ∷ calls) = WellMade id_of name_of calls

module _ {ℓ κ} {K : Type ℓ} {V : Type κ} ⦃e : Eq K⦄ (id_of : V → ℕ) (name_of : V → K) where
  -- Starting from a registry where each name has one handle, which carries it, and no two handles
  -- have the same internal ID, this holds after any calls whose creations make handles that carry
  -- their name and number, as long as the 32-bit number does not wrap.
  pub run-IsValid :
      (calls : List (Call K V)) (s : State K V)
      → WellMade id_of name_of calls
      → s.next_id + length calls < 2 ^ 32
      → IsValid id_of name_of s
      → IsValid id_of name_of (run calls s).0
  unfolding run create_entry delete_entry
  run-IsValid [] s w small v = v
  run-IsValid (create name make ∷ calls) s w small v =
      run-IsValid calls (create_entry name make s).0 w.1
        (omega (arith, create_entry-next_id name make s))
        (create_entry-IsValid id_of name_of name make s w.0 (omega arith) v)
    where
      create_entry-next_id :
          (n : K) (m : ℕ → V) (t : State K V) → (create_entry n m t).0.next_id ≤ t.next_id + 1
      create_entry-next_id n m t = ground arith
  run-IsValid (get name ∷ calls) s w small v = run-IsValid calls s w (omega arith) v
  run-IsValid (delete name ∷ calls) s w small v =
      run-IsValid calls (delete_entry name s) w (omega arith)
        (delete_entry-IsValid id_of name_of name s v)
