-- ===== src/Api/Subscriber/Confirmed.antt =====
-- What a streaming pull confirms of the ack IDs of a request.
use deltio.Prelude.{
  Bool, Bytes, List, Option, [], ap, arith, contains, contains-cons, false, if◌then◌else◌, is_empty,
  lookup, refl, some, total, total-append, true, ℕ, ◌+◌, ◌∙◌, ◌∷◌, ◌≡◌, nat_eq,
}
use deltio.Results.{Result, ok, err}
use deltio.Subscriptions.Info.{AckOutcome}
use deltio.Subscriptions.Outstanding
use deltio.Subscriptions.Outstanding.{OutstandingMessageTracker, holds}
use deltio.Subscriptions.Manager.{Subscription}
use deltio.Subscriptions.Actor.{SubscriptionActor}
use deltio.Subscriptions.Actor.Requests.{split_ids, acknowledge_messages}
use deltio.Subscriptions.Actor.Delivery.Ack.{split_ids-valid, split_ids-invalid}
use deltio.Subscriptions.Actor.Receive.{Request, acknowledge, outcome_is, receive}
use deltio.Server.{Server, Clock}
use deltio.Server.Calls.{call_subscription, environment}
use deltio.Api.Proto.{Status}
use deltio.Api.Parser.Fields.{parse_ack_id}
use deltio.Api.Call.{>>=-ok, ask_subscription, conflict, return}
use deltio.Api.Subscriber.Messages.{outcome_of}
use deltio.Api.Subscriber.Confirm.{
  Confirmation, RawIds, sort_raw, split_raw, parsed_ids_of, texts_among, ack_confirmation,
  handle_acks,
}

abbrev pub holds_result : OutstandingMessageTracker → Result Status ℕ → Bool
holds_result t (ok id) = Outstanding.holds t id
holds_result t (err e) = false

-- Whether a text stands for an ack ID that is outstanding.
abbrev pub holds_text : OutstandingMessageTracker → Bytes → Bool
holds_text t raw = holds_result t (parse_ack_id raw)

-- Each text of the request is confirmed once, and as valid exactly if it was outstanding.
abbrev pub Confirms : OutstandingMessageTracker → List Bytes → Confirmation → Type 0
Confirms t raws c =
    (f : Bytes → ℕ)
    → (total f c.ack_ids ≡ total (λ raw. if holds_text t raw then f raw else 0) raws)
      × (total f c.invalid_ack_ids ≡ total (λ raw. if holds_text t raw then 0 else f raw) raws)

-- `texts_among` by whether the ack ID is among the given ones.
total-texts_among :
    (f : Bytes → ℕ) (ids : List ℕ) (parsed : List (Bytes × ℕ))
    → total f (texts_among ids parsed)
      ≡ total (λ (p : Bytes × ℕ). if contains p.1 ids then f p.0 else 0) parsed
unfolding texts_among
total-texts_among f ids [] = refl
total-texts_among f ids ((raw, id) ∷ rest) = ground (arith, total-texts_among f ids rest)

abbrev Within : List (Bytes × ℕ) → List ℕ → Type 0
Within [] ids = Unit
Within ((raw, id) ∷ rest) ids = (contains id ids ≡ true) × Within rest ids

Within-cons :
    (id : ℕ) (parsed : List (Bytes × ℕ)) (ids : List ℕ)
    → Within parsed ids
    → Within parsed (id ∷ ids)
Within-cons id [] ids w = tt
Within-cons id ((raw, n) ∷ rest) ids w =
    (ground (arith, contains-cons n id ids), Within-cons id rest ids w.1)

Within-parsed_ids_of : (parsed : List (Bytes × ℕ)) → Within parsed (parsed_ids_of parsed)
Within-parsed_ids_of [] = tt
Within-parsed_ids_of ((raw, id) ∷ rest) = (
  ground (arith, contains-cons id id (parsed_ids_of rest)),
  Within-cons id rest (parsed_ids_of rest) (Within-parsed_ids_of rest),
)

module _ (t : OutstandingMessageTracker) (ids : List ℕ) (f : Bytes → ℕ) where
  abbrev Weighs : RawIds → ℕ → ℕ → Type 0
  Weighs r valid invalid =
      Within r.parsed ids
      → (total f (texts_among (split_ids t ids).valid r.parsed) ≡ valid)
        × (total f (texts_among (split_ids t ids).invalid r.parsed) + total f r.parse_failed
            ≡ invalid)

  sort_raw-Weighs :
      (raw : Bytes) (result : Result Status ℕ) (rest : RawIds) (valid invalid : ℕ)
      → Weighs rest valid invalid
      → Weighs
          (sort_raw raw result rest)
          ((if holds_result t result then f raw else 0) + valid)
          ((if holds_result t result then 0 else f raw) + invalid)
  unfolding texts_among
  sort_raw-Weighs raw (err e) rest valid invalid h w = omega (arith, h w)
  sort_raw-Weighs raw (ok id) rest valid invalid h w =
      ground (arith, h w.1, split_ids-valid t id ids, split_ids-invalid t id ids)

  split_raw-Weighs :
      (raws : List Bytes)
      → Weighs
          (split_raw raws)
          (total (λ raw. if holds_text t raw then f raw else 0) raws)
          (total (λ raw. if holds_text t raw then 0 else f raw) raws)
  unfolding split_raw texts_among
  split_raw-Weighs [] w = (refl, refl)
  split_raw-Weighs (raw ∷ raws) w =
      sort_raw-Weighs raw (parse_ack_id raw) (split_raw raws) _ _ (split_raw-Weighs raws) w

ack_confirmation-Confirms :
    (t : OutstandingMessageTracker) (raws : List Bytes)
    → Confirms t raws
        (ack_confirmation (split_raw raws) (split_ids t (parsed_ids_of (split_raw raws).parsed)))
unfolding ack_confirmation
ack_confirmation-Confirms t raws f =
    let parsed = (split_raw raws).parsed in
    let ids = parsed_ids_of parsed in
    let w = split_raw-Weighs t ids f raws (Within-parsed_ids_of parsed) in
    (
      w.0,
      total-append f (texts_among (split_ids t ids).invalid parsed) (split_raw raws).parse_failed
          ∙ w.1,
    )

-- The answer of an actor that is there.
pub ask-outcome :
    (clock : Clock) (h : Subscription) (request : Request) (s : Server) (a : SubscriptionActor)
    (outcome : AckOutcome)
    → lookup h.internal_id s.subscriptions ≡ some a
    → (receive (environment clock h a s) request a).1 ≡ outcome_is outcome
    → (ask_subscription clock conflict h request outcome_of s).1 ≡ ok outcome
unfolding ask_subscription call_subscription
ask-outcome clock h request s a outcome found answer = ground arith

acknowledge_messages-outcome :
    (ids : List ℕ) (a : SubscriptionActor)
    → a.deleted ≡ false
    → (acknowledge_messages ids a).1 ≡ split_ids a.outstanding ids
unfolding acknowledge_messages
acknowledge_messages-outcome ids a alive = ground arith

-- The acks of a streaming request, at least one, on a subscription that runs and is not deleted,
-- are confirmed for exactly-once delivery text by text: each text once, as valid exactly if its
-- ack ID was outstanding; a text that is no ack ID is invalid.
pub handle_acks-Confirms :
    (clock : Clock) (h : Subscription) (raws : List Bytes) (s : Server) (a : SubscriptionActor)
    → is_empty raws ≡ false
    → lookup h.internal_id s.subscriptions ≡ some a
    → a.deleted ≡ false
    → (c : Confirmation) × ((handle_acks clock h true raws s).1 ≡ ok (some c))
      × Confirms a.outstanding raws c
unfolding handle_acks receive
handle_acks-Confirms clock h [] s a some_raw found alive = absurd (cc)
handle_acks-Confirms clock h (raw ∷ raws) s a some_raw found alive =
    let r = split_raw (raw ∷ raws) in
    let outcome = split_ids a.outstanding (parsed_ids_of r.parsed) in
    (
      ack_confirmation r outcome,
      ap (λ (p : Server × Result Status (Option Confirmation)). p.1)
          (>>=-ok
            (ask_subscription clock conflict h (acknowledge (parsed_ids_of r.parsed)) outcome_of)
            (λ o. return (some (ack_confirmation r o))) s outcome
            (ask-outcome clock h (acknowledge (parsed_ids_of r.parsed)) s a outcome found
              (ap outcome_is (acknowledge_messages-outcome (parsed_ids_of r.parsed) a alive)))),
      ack_confirmation-Confirms a.outstanding (raw ∷ raws),
    )
