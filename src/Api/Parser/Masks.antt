-- ===== src/Api/Parser/Masks.antt =====
-- An update changes the fields of its mask, and no other.
pub mod Paths
pub mod Update
use deltio.Prelude.{
  Bool-cases, Bytes, List, Option, [], arith, false, inl, inr, some, true, ◌∙◌, ◌∷◌, ◌≡◌, nat_eq,
}
use deltio.Results.{Result, ok, transpose_map}
use deltio.Subscriptions.Info.{SubscriptionUpdate}
use deltio.Api.Proto.{Status, SubscriptionProto}
use deltio.Api.Parser.Fields.{
  parse_create_ack_deadline, parse_retry_policy, parse_dead_letter_policy,
  parse_message_retention_duration,
}
use deltio.Api.Parser.Updates.{
  is_path, ack_deadline_path, retry_policy_path, dead_letter_policy_path, retention_path,
  exactly_once_path,
}

-- A field of the mask is set to the value of the request, which is well-formed; any other is kept.
abbrev pub Masked {ℓ} :
    {V : Type ℓ} → Bytes → List Bytes → Result Status V → Option V → Option V → Type ℓ
Masked {V = V} path paths value old new =
    (is_path path paths ≡ true → (v : V) × (value ≡ ok v) × (new ≡ some v))
    × (is_path path paths ≡ false → new ≡ old)

Masked-append {ℓ} :
    {V : Type ℓ} (field path : Bytes) (paths : List Bytes) (value : Result Status V)
    (old mid new : Option V)
    → Masked field (path ∷ []) value old mid
    → Masked field paths value mid new
    → Masked field (path ∷ paths) value old new
Masked-append {V = V} field path paths value old mid new first rest = (
  λ h. elim (Bool-cases (is_path field paths)) [
    | inl later ↦ rest.0 later
    | inr not_later ↦
        let (v, parsed, set) = first.0 (ground arith) in (v, parsed, rest.1 not_later ∙ set)
  ],
  λ h. rest.1 (ground arith) ∙ first.1 (ground arith),
)

pub record Masks (p : SubscriptionProto) (paths : List Bytes) (old new : SubscriptionUpdate)
    : Type 0 where
  pub ack_deadline :
      Masked ack_deadline_path paths
        (ok (parse_create_ack_deadline p.ack_deadline_seconds))
        old.ack_deadline
        new.ack_deadline
  pub retry_policy :
      Masked retry_policy_path paths
        (transpose_map parse_retry_policy p.retry_policy)
        old.retry_policy
        new.retry_policy
  pub dead_letter_policy :
      Masked dead_letter_policy_path paths
        (transpose_map parse_dead_letter_policy p.dead_letter_policy)
        old.dead_letter_policy
        new.dead_letter_policy
  pub message_retention_duration :
      Masked retention_path paths
        (transpose_map parse_message_retention_duration p.message_retention_duration)
        old.message_retention_duration
        new.message_retention_duration
  pub enable_exactly_once_delivery :
      Masked exactly_once_path paths
        (ok p.enable_exactly_once_delivery)
        old.enable_exactly_once_delivery
        new.enable_exactly_once_delivery

pub Masks-append :
    (p : SubscriptionProto) (path : Bytes) (paths : List Bytes) (old mid new : SubscriptionUpdate)
    → Masks p (path ∷ []) old mid
    → Masks p paths mid new
    → Masks p (path ∷ paths) old new
Masks-append p path paths old mid new a b = record {
  ack_deadline = Masked-append ack_deadline_path path paths _ _ _ _ a.ack_deadline b.ack_deadline;
  retry_policy = Masked-append retry_policy_path path paths _ _ _ _ a.retry_policy b.retry_policy;
  dead_letter_policy =
      Masked-append dead_letter_policy_path path paths _ _ _ _ a.dead_letter_policy
        b.dead_letter_policy;
  message_retention_duration =
      Masked-append retention_path path paths _ _ _ _ a.message_retention_duration
        b.message_retention_duration;
  enable_exactly_once_delivery =
      Masked-append exactly_once_path path paths _ _ _ _ a.enable_exactly_once_delivery
        b.enable_exactly_once_delivery;
}

-- A path that the mask has alone, and one that it has not.
pub set_alone {ℓ} :
    {V : Type ℓ} (field path : Bytes) (value : Result Status V) (old new : Option V) (v : V)
    → is_path field (path ∷ []) ≡ true
    → value ≡ ok v
    → new ≡ some v
    → Masked field (path ∷ []) value old new
set_alone field path value old new v h parsed set = (λ _. (v, parsed, set), λ h'. absurd (cc))

pub kept_alone {ℓ} :
    {V : Type ℓ} (field path : Bytes) (value : Result Status V) (old new : Option V)
    → is_path field (path ∷ []) ≡ false
    → new ≡ old
    → Masked field (path ∷ []) value old new
kept_alone field path value old new h kept = (λ h'. absurd (cc), λ _. kept)
