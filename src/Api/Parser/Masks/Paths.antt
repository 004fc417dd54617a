-- ===== src/Api/Parser/Masks/Paths.antt =====
-- One path of the mask.
use deltio.Prelude.{
  Bool-cases, Bytes, [], arith, bytes_eq, bytes_eq_iff, inl, inr, refl, some, sym, true, ◌∷◌, ◌≡◌,
  nat_eq,
}
use mathlib.Core.Path.{subst}
use deltio.Results.{ok, map_ok-eq-ok, transpose_map}
use deltio.Subscriptions.Info.{SubscriptionUpdate}
use deltio.Api.Proto.{SubscriptionProto}
use deltio.Api.Parser.Fields.{
  parse_create_ack_deadline, parse_retry_policy, parse_dead_letter_policy,
  parse_message_retention_duration,
}
use deltio.Api.Parser.Updates.{
  is_path, set_path, updatable_paths, ack_deadline_path, retry_policy_path, dead_letter_policy_path,
  retention_path, exactly_once_path,
}
use deltio.Api.Parser.Masks.{Masks, set_alone, kept_alone}

abbrev AtUpdatable : (Bytes → Type 0) → Type 0
AtUpdatable P =
    P ack_deadline_path
    × P retry_policy_path
    × P dead_letter_policy_path
    × P retention_path
    × P exactly_once_path

-- What holds at the five paths holds at every updatable one.
at_updatable :
    (P : Bytes → Type 0) (path : Bytes)
    → is_path path updatable_paths ≡ true
    → AtUpdatable P
    → P path
at_updatable P path h (a, r, d, m, e) = elim (Bool-cases (bytes_eq path ack_deadline_path)) [
  | inl t ↦ at ack_deadline_path t a
  | inr f₁ ↦ elim (Bool-cases (bytes_eq path retry_policy_path)) [
    | inl t ↦ at retry_policy_path t r
    | inr f₂ ↦ elim (Bool-cases (bytes_eq path dead_letter_policy_path)) [
      | inl t ↦ at dead_letter_policy_path t d
      | inr f₃ ↦ elim (Bool-cases (bytes_eq path retention_path)) [
        | inl t ↦ at retention_path t m
        | inr f₄ ↦ at exactly_once_path (ground arith) e
      ]
    ]
  ]
]
  where
    at : (q : Bytes) → bytes_eq path q ≡ true → P q → P path
    at q t x = subst P (sym ((bytes_eq_iff path q).0 t)) x

module _ (p : SubscriptionProto) (old new : SubscriptionUpdate) where
  at_ack_deadline :
      set_path p ack_deadline_path old ≡ ok new → Masks p (ack_deadline_path ∷ []) old new
  unfolding set_path
  at_ack_deadline e = record {
    ack_deadline =
        set_alone ack_deadline_path ack_deadline_path _ _ _
          (parse_create_ack_deadline p.ack_deadline_seconds) refl refl (ground arith);
    retry_policy = kept_alone retry_policy_path ack_deadline_path _ _ _ refl (ground arith);
    dead_letter_policy =
        kept_alone dead_letter_policy_path ack_deadline_path _ _ _ refl (ground arith);
    message_retention_duration =
        kept_alone retention_path ack_deadline_path _ _ _ refl (ground arith);
    enable_exactly_once_delivery =
        kept_alone exactly_once_path ack_deadline_path _ _ _ refl (ground arith);
  }

  at_retry_policy :
      set_path p retry_policy_path old ≡ ok new → Masks p (retry_policy_path ∷ []) old new
  unfolding set_path
  at_retry_policy e =
      let (v, parsed, set) =
        map_ok-eq-ok (λ x. record old { retry_policy = some x })
          (transpose_map parse_retry_policy p.retry_policy) e in
      record {
        ack_deadline = kept_alone ack_deadline_path retry_policy_path _ _ _ refl (ground arith);
        retry_policy =
            set_alone retry_policy_path retry_policy_path _ _ _ v refl parsed (ground arith);
        dead_letter_policy =
            kept_alone dead_letter_policy_path retry_policy_path _ _ _ refl (ground arith);
        message_retention_duration =
            kept_alone retention_path retry_policy_path _ _ _ refl (ground arith);
        enable_exactly_once_delivery =
            kept_alone exactly_once_path retry_policy_path _ _ _ refl (ground arith);
      }

  at_dead_letter_policy :
      set_path p dead_letter_policy_path old ≡ ok new
      → Masks p (dead_letter_policy_path ∷ []) old new
  unfolding set_path
  at_dead_letter_policy e =
      let (v, parsed, set) =
        map_ok-eq-ok (λ x. record old { dead_letter_policy = some x })
          (transpose_map parse_dead_letter_policy p.dead_letter_policy) e in
      record {
        ack_deadline =
            kept_alone ack_deadline_path dead_letter_policy_path _ _ _ refl (ground arith);
        retry_policy =
            kept_alone retry_policy_path dead_letter_policy_path _ _ _ refl (ground arith);
        dead_letter_policy =
            set_alone dead_letter_policy_path dead_letter_policy_path _ _ _ v refl parsed
              (ground arith);
        message_retention_duration =
            kept_alone retention_path dead_letter_policy_path _ _ _ refl (ground arith);
        enable_exactly_once_delivery =
            kept_alone exactly_once_path dead_letter_policy_path _ _ _ refl (ground arith);
      }

  at_retention : set_path p retention_path old ≡ ok new → Masks p (retention_path ∷ []) old new
  unfolding set_path
  at_retention e =
      let (v, parsed, set) =
        map_ok-eq-ok (λ x. record old { message_retention_duration = some x })
          (transpose_map parse_message_retention_duration p.message_retention_duration) e in
      record {
        ack_deadline = kept_alone ack_deadline_path retention_path _ _ _ refl (ground arith);
        retry_policy = kept_alone retry_policy_path retention_path _ _ _ refl (ground arith);
        dead_letter_policy =
            kept_alone dead_letter_policy_path retention_path _ _ _ refl (ground arith);
        message_retention_duration =
            set_alone retention_path retention_path _ _ _ v refl parsed (ground arith);
        enable_exactly_once_delivery =
            kept_alone exactly_once_path retention_path _ _ _ refl (ground arith);
      }

  at_exactly_once :
      set_path p exactly_once_path old ≡ ok new → Masks p (exactly_once_path ∷ []) old new
  unfolding set_path
  at_exactly_once e = record {
    ack_deadline = kept_alone ack_deadline_path exactly_once_path _ _ _ refl (ground arith);
    retry_policy = kept_alone retry_policy_path exactly_once_path _ _ _ refl (ground arith);
    dead_letter_policy =
        kept_alone dead_letter_policy_path exactly_once_path _ _ _ refl (ground arith);
    message_retention_duration =
        kept_alone retention_path exactly_once_path _ _ _ refl (ground arith);
    enable_exactly_once_delivery =
        set_alone exactly_once_path exactly_once_path _ _ _ p.enable_exactly_once_delivery refl refl
          (ground arith);
  }

  pub set_path-Masks :
      (path : Bytes)
      → is_path path updatable_paths ≡ true
      → set_path p path old ≡ ok new
      → Masks p (path ∷ []) old new
  set_path-Masks path h e =
      at_updatable (λ q. set_path p q old ≡ ok new → Masks p (q ∷ []) old new) path h
        (at_ack_deadline, at_retry_policy, at_dead_letter_policy, at_retention, at_exactly_once) e
