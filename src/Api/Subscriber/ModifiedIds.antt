-- ===== src/Api/Subscriber/ModifiedIds.antt =====
-- The ack IDs of the modifications that a request parses into.
use deltio.Prelude.{
  Bool, Bytes, List, Option, [], ap, arith, contains, contains-cons, false, length, none, some, sym,
  true, ℕ, ℤ, ◌∙◌, ◌∷◌, ◌≡◌, nat_eq,
}
use mathlib.Core.Path.{subst}
use deltio.Results.{Result, ok, err, collect_map, >>=-eq-ok, ok-injective}
use deltio.Subscriptions.Pulled.{DeadlineModification}
use deltio.Subscriptions.Actor.Requests.{modified_ids}
use deltio.Api.Proto.{Status}
use deltio.Api.Parser.Fields.{
  parse_ack_id, parse_deadline_extension_duration, parse_deadline_modifications,
  parse_deadline_modification, zip, modification,
}

abbrev pub parses : Result Status ℕ → Bool
parses (ok id) = true
parses (err e) = false

-- Whether a text is an ack ID.
abbrev pub is_ack_id : Bytes → Bool
is_ack_id raw = parses (parse_ack_id raw)

abbrev pub ParsedInto : List ℕ → Result Status ℕ → Type 0
ParsedInto ids (ok id) = contains id ids ≡ true
ParsedInto ids (err e) = ⊥

-- Every text is an ack ID among the given ones.
abbrev pub AllIn : List Bytes → List ℕ → Type 0
AllIn [] ids = Unit
AllIn (raw ∷ raws) ids = ParsedInto ids (parse_ack_id raw) × AllIn raws ids

AllIn-cons : (id : ℕ) (raws : List Bytes) (ids : List ℕ) → AllIn raws ids → AllIn raws (id ∷ ids)
AllIn-cons id [] ids a = tt
AllIn-cons id (raw ∷ raws) ids a = (later (parse_ack_id raw) a.0, AllIn-cons id raws ids a.1)
  where
    later : (r : Result Status ℕ) → ParsedInto ids r → ParsedInto (id ∷ ids) r
    later (ok n) p = ground (arith, contains-cons n id ids)
    later (err e) p = p

parse_deadline_modification-id :
    (now : ℕ) (raw : Bytes) (seconds : ℤ) (m : DeadlineModification)
    → parse_deadline_modification now (raw, seconds) ≡ ok m
    → parse_ack_id raw ≡ ok m.ack_id
unfolding parse_deadline_modification
parse_deadline_modification-id now raw seconds m e =
    let (id, parsed, e₁) = >>=-eq-ok (parse_ack_id raw) _ e in
    let (d, _, e₂) = >>=-eq-ok (parse_deadline_extension_duration seconds) _ e₁ in
    parsed ∙ ap ok (same_id d id (ok-injective _ _ e₂))
  where
    same_id : (d : Option ℕ) (id : ℕ) → modification now id d ≡ m → id ≡ m.ack_id
    same_id none id h = ground arith
    same_id (some n) id h = ground arith

contains_self : (id : ℕ) (ids : List ℕ) → contains id (id ∷ ids) ≡ true
contains_self id ids = ground (arith, contains-cons id id ids)

pub parse_deadline_modifications-AllIn :
    (now : ℕ) (raws : List Bytes) (seconds : List ℤ) (mods : List DeadlineModification)
    → length seconds ≡ length raws
    → parse_deadline_modifications now raws seconds ≡ ok mods
    → AllIn raws (modified_ids mods)
unfolding parse_deadline_modifications collect_map
parse_deadline_modifications-AllIn now [] seconds mods l e = tt
parse_deadline_modifications-AllIn now (raw ∷ raws) [] mods l e = absurd (omega arith)
parse_deadline_modifications-AllIn now (raw ∷ raws) (x ∷ xs) mods l e =
    let (m, first, e₁) = >>=-eq-ok (parse_deadline_modification now (raw, x)) _ e in
    let (ms, rest, e₂) =
      >>=-eq-ok (collect_map (parse_deadline_modification now) (zip raws xs)) _ e₁ in
    let others = parse_deadline_modifications-AllIn now raws xs ms (omega arith) rest in
    let all : AllIn (raw ∷ raws) (m.ack_id ∷ modified_ids ms) = (
      subst (ParsedInto (m.ack_id ∷ modified_ids ms))
          (sym (parse_deadline_modification-id now raw x m first))
          (contains_self m.ack_id (modified_ids ms)),
      AllIn-cons m.ack_id raws (modified_ids ms) others,
    ) in
    subst (λ l. AllIn (raw ∷ raws) (modified_ids l)) (ok-injective _ _ e₂) all
