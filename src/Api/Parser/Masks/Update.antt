-- ===== src/Api/Parser/Masks/Update.antt =====
-- All paths of the mask.
use deltio.Prelude.{
  Bool, Bytes, List, [], arith, false, is_empty, not, refl, true, ◌∷◌, ◌≡◌, nat_eq,
}
use deltio.Results.{Result, ok, guard, >>=-eq-ok, ◌>>◌}
use deltio.Subscriptions.Info.{SubscriptionUpdate}
use deltio.Api.Proto.{Status, invalid_argument, SubscriptionProto}
use deltio.Api.Parser.Updates.{
  is_path, set_path, set_paths, parse_subscription_update, updatable_paths, immutable_paths,
  no_update,
}
use deltio.Api.Parser.Masks.{Masks, Masks-append}
use deltio.Api.Parser.Masks.Paths.{set_path-Masks}

-- Every path of a list can be updated.
abbrev pub AllUpdatable : List Bytes → Type 0
AllUpdatable [] = Unit
AllUpdatable (path ∷ paths) = (is_path path updatable_paths ≡ true) × AllUpdatable paths

guard-eq-ok {ℓ} :
    {A : Type ℓ} (b : Bool) (e : Status) (k : Result Status A) {a : A}
    → (guard b e >> k) ≡ ok a
    → (b ≡ true) × (k ≡ ok a)
guard-eq-ok true e k h = (refl, h)
guard-eq-ok false e k h = cc

set_paths-Masks :
    (p : SubscriptionProto) (paths : List Bytes) (old new : SubscriptionUpdate)
    → set_paths p paths old ≡ ok new
    → AllUpdatable paths × Masks p paths old new
unfolding set_paths
set_paths-Masks p [] old new e = (tt, ground arith)
set_paths-Masks p (path ∷ paths) old new e =
    let (_, e₁) = guard-eq-ok (not (is_path path immutable_paths)) invalid_argument _ e in
    let (updatable, e₂) = guard-eq-ok (is_path path updatable_paths) invalid_argument _ e₁ in
    let (mid, first, rest) = >>=-eq-ok (set_path p path old) (λ u. set_paths p paths u) e₂ in
    let (others, masks) = set_paths-Masks p paths mid new rest in
    (
      (updatable, others),
      Masks-append p path paths old mid new (set_path-Masks p old mid path updatable first) masks,
    )

-- An update request that is accepted has a mask, only with paths that can be updated. Exactly the
-- fields of the mask are set, each to the value of the request, which is well-formed.
pub parse_subscription_update-Masks :
    (p : SubscriptionProto) (paths : List Bytes) (update : SubscriptionUpdate)
    → parse_subscription_update p paths ≡ ok update
    → (is_empty paths ≡ false) × AllUpdatable paths × Masks p paths no_update update
unfolding parse_subscription_update
parse_subscription_update-Masks p [] update e = cc
parse_subscription_update-Masks p (path ∷ paths) update e =
    let (updatable, masks) = set_paths-Masks p (path ∷ paths) no_update update e in
    (refl, updatable, masks)
