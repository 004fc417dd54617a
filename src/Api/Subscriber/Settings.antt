-- ===== src/Api/Subscriber/Settings.antt =====
-- The bounds that the parsers of requests enforce hold of the settings of a subscription. They are
-- fewer than the documentation states: the ack deadline has no maximum.
use deltio.Prelude.{Bool-cases, Bytes, List, Option, inl, inr, none, sym, ℕ, ◌≡◌, ◌≤◌, nat_eq}
use mathlib.Core.Path.{subst}
use deltio.Results.{Result, ok, transpose_map, transpose_map-valid, >>=-eq-ok, ok-injective}
use deltio.Subscriptions.Info.{SubscriptionInfo, SubscriptionUpdate, apply_update, or_keep}
use deltio.Subscriptions.Policies.{RetryPolicy, DeadLetterPolicy}
use deltio.Api.Proto.{Status, SubscriptionProto}
use deltio.Api.Parser.Fields.{
  subscription_name_argument, from_secs, parse_create_ack_deadline, parse_push_config,
  parse_retry_policy, parse_dead_letter_policy, parse_message_retention_duration,
}
use deltio.Api.Parser.Bounds.{
  SettingsInBounds, RetryIsValid, DeadLetterIsValid, RetentionIsValid,
  parse_create_ack_deadline_bound, parse_retry_policy-IsValid, parse_dead_letter_policy-IsValid,
  parse_message_retention_duration-IsValid,
}
use deltio.Api.Parser.Updates.{
  is_path, parse_subscription_update, ack_deadline_path, retry_policy_path, dead_letter_policy_path,
  retention_path,
}
use deltio.Api.Parser.Masks.{Masked}
use deltio.Api.Parser.Masks.Update.{parse_subscription_update-Masks}
use deltio.Api.Subscriber.Info.{parse_filter, parse_subscription_info}

retry_valid :
    (p : SubscriptionProto) (v : Option RetryPolicy)
    → transpose_map parse_retry_policy p.retry_policy ≡ ok v
    → RetryIsValid v
retry_valid p v =
    transpose_map-valid RetryIsValid parse_retry_policy p.retry_policy
      (λ a b e. parse_retry_policy-IsValid a e) tt

dead_letter_valid :
    (p : SubscriptionProto) (v : Option DeadLetterPolicy)
    → transpose_map parse_dead_letter_policy p.dead_letter_policy ≡ ok v
    → DeadLetterIsValid v
dead_letter_valid p v =
    transpose_map-valid DeadLetterIsValid parse_dead_letter_policy p.dead_letter_policy
      (λ a b e. parse_dead_letter_policy-IsValid a e) tt

retention_valid :
    (p : SubscriptionProto) (v : Option ℕ)
    → transpose_map parse_message_retention_duration p.message_retention_duration ≡ ok v
    → RetentionIsValid v
retention_valid p v =
    transpose_map-valid RetentionIsValid parse_message_retention_duration
      p.message_retention_duration (λ a b e. parse_message_retention_duration-IsValid a e) tt

-- The settings of a creation request that is accepted are within the bounds: the deadline is ten
-- seconds at least, the backoffs are in order and ten minutes at most, the attempts are between 5
-- and 100, and the retention is between ten minutes and seven days. No maximum of the deadline is
-- enforced.
pub parse_subscription_info-SettingsInBounds :
    (request : SubscriptionProto) (info : SubscriptionInfo)
    → parse_subscription_info request ≡ ok info
    → SettingsInBounds info
unfolding parse_subscription_info
parse_subscription_info-SettingsInBounds request info e =
    let (name, _, e₁) = >>=-eq-ok (subscription_name_argument request.name) _ e in
    let (push, _, e₂) = >>=-eq-ok (transpose_map parse_push_config request.push_config) _ e₁ in
    let (retry, r, e₃) = >>=-eq-ok (transpose_map parse_retry_policy request.retry_policy) _ e₂ in
    let (letters, d, e₄) =
      >>=-eq-ok (transpose_map parse_dead_letter_policy request.dead_letter_policy) _ e₃ in
    let (retention, m, e₅) =
      >>=-eq-ok (transpose_map parse_message_retention_duration request.message_retention_duration)
        _ e₄ in
    let (filter, _, e₆) = >>=-eq-ok (parse_filter request.filter) _ e₅ in
    subst SettingsInBounds (ok-injective _ _ e₆) (record {
      ack_deadline = parse_create_ack_deadline_bound request.ack_deadline_seconds;
      retry_policy = retry_valid request retry r;
      dead_letter_policy = dead_letter_valid request letters d;
      retention = retention_valid request retention m;
    })

-- A field of an update is valid if the value of the request is, and the old one.
Masked-valid {ℓ} :
    {V : Type ℓ} (P : V → Type 0) (path : Bytes) (paths : List Bytes) (value : Result Status V)
    (new : Option V) (old : V)
    → ((v : V) → value ≡ ok v → P v)
    → P old
    → Masked path paths value none new
    → P (or_keep new old)
Masked-valid P path paths value new old valid kept m = elim (Bool-cases (is_path path paths)) [
  | inl h ↦
      let (v, parsed, set) = m.0 h in subst (λ o. P (or_keep o old)) (sym set) (valid v parsed)
  | inr h ↦ subst (λ o. P (or_keep o old)) (sym (m.1 h)) kept
]

-- An update that is accepted leaves settings within the bounds that were within them.
pub apply_update-SettingsInBounds :
    (p : SubscriptionProto) (paths : List Bytes) (update : SubscriptionUpdate)
    (info : SubscriptionInfo)
    → parse_subscription_update p paths ≡ ok update
    → SettingsInBounds info
    → SettingsInBounds (apply_update info update)
unfolding apply_update
apply_update-SettingsInBounds p paths update info e v =
    let (_, _, m) = parse_subscription_update-Masks p paths update e in
    record {
      ack_deadline =
          Masked-valid (λ d. from_secs 10 ≤ d) ack_deadline_path paths
            (ok (parse_create_ack_deadline p.ack_deadline_seconds)) update.ack_deadline
            info.ack_deadline
            (λ d h.
              subst (λ x. from_secs 10 ≤ x) (ok-injective _ _ h)
                (parse_create_ack_deadline_bound p.ack_deadline_seconds))
            v.ack_deadline m.ack_deadline;
      retry_policy =
          Masked-valid RetryIsValid retry_policy_path paths
            (transpose_map parse_retry_policy p.retry_policy) update.retry_policy info.retry_policy
            (retry_valid p) v.retry_policy m.retry_policy;
      dead_letter_policy =
          Masked-valid DeadLetterIsValid dead_letter_policy_path paths
            (transpose_map parse_dead_letter_policy p.dead_letter_policy) update.dead_letter_policy
            info.dead_letter_policy (dead_letter_valid p) v.dead_letter_policy m.dead_letter_policy;
      retention =
          Masked-valid RetentionIsValid retention_path paths
            (transpose_map parse_message_retention_duration p.message_retention_duration)
            update.message_retention_duration info.message_retention_duration (retention_valid p)
            v.retention m.message_retention_duration;
    }
