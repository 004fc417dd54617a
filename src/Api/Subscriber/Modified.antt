-- ===== src/Api/Subscriber/Modified.antt =====
-- What a streaming pull confirms of the deadlines that a request modifies.
use deltio.Prelude.{
  Bytes, List, Option, [], ap, append-nil, arith, contains, false, if◌then◌else◌, is_empty, length,
  lookup, refl, some, total, total-append, true, ℕ, ℤ, ◌+◌, ◌∙◌, ◌∷◌, ◌≡◌, nat_eq,
}
use deltio.Results.{Result, ok, err}
use deltio.Subscriptions.Pulled.{DeadlineModification}
use deltio.Subscriptions.Outstanding.{OutstandingMessageTracker}
use deltio.Subscriptions.Manager.{Subscription}
use deltio.Subscriptions.Actor.{SubscriptionActor, Environment}
use deltio.Subscriptions.Actor.Requests.{split_ids, modified_ids, modify_deadline}
use deltio.Subscriptions.Actor.Delivery.Ack.{split_ids-valid}
use deltio.Subscriptions.Actor.Receive.{modify, outcome_is, receive}
use deltio.Server.{Server, Clock}
use deltio.Server.Calls.{environment}
use deltio.Api.Proto.{Status, invalid_argument}
use deltio.Api.Parser.Fields.{parse_ack_id, parse_deadline_modifications}
use deltio.Api.Call.{>>=-ok, ask_subscription, conflict, return}
use deltio.Api.Subscriber.Messages.{outcome_of}
use deltio.Api.Subscriber.Confirm.{
  Confirmation, confirm_modified, modify_confirmation, handle_modifications, mods_or_failed,
  split_modified,
}
use deltio.Api.Subscriber.Confirmed.{Confirms, holds_text, holds_result, ask-outcome}
use deltio.Api.Subscriber.ModifiedIds.{
  parses, is_ack_id, ParsedInto, AllIn, parse_deadline_modifications-AllIn,
}

module _ (t : OutstandingMessageTracker) (ids : List ℕ) (f : Bytes → ℕ) where
  abbrev Weighs : Confirmation → ℕ → ℕ → Type 0
  Weighs c valid invalid = (total f c.ack_ids ≡ valid) × (total f c.invalid_ack_ids ≡ invalid)

  split_modified-Weighs :
      (raw : Bytes) (result : Result Status ℕ) (rest : Confirmation) (valid invalid : ℕ)
      → ParsedInto ids result
      → Weighs rest valid invalid
      → Weighs
          (split_modified raw result (split_ids t ids).valid rest)
          ((if holds_result t result then f raw else 0) + valid)
          ((if holds_result t result then 0 else f raw) + invalid)
  split_modified-Weighs raw (err e) rest valid invalid p w = absurd p
  split_modified-Weighs raw (ok id) rest valid invalid p w =
      ground (arith, split_ids-valid t id ids)

  confirm_modified-Weighs :
      (raws : List Bytes)
      → AllIn raws ids
      → Weighs
          (confirm_modified raws (split_ids t ids).valid)
          (total (λ raw. if holds_text t raw then f raw else 0) raws)
          (total (λ raw. if holds_text t raw then 0 else f raw) raws)
  unfolding confirm_modified
  confirm_modified-Weighs [] a = (refl, refl)
  confirm_modified-Weighs (raw ∷ raws) a =
      split_modified-Weighs raw (parse_ack_id raw) (confirm_modified raws (split_ids t ids).valid) _
        _ a.0 (confirm_modified-Weighs raws a.1)

modify_confirmation-Confirms :
    (t : OutstandingMessageTracker) (ids : List ℕ) (raws : List Bytes)
    → AllIn raws ids
    → Confirms t raws (modify_confirmation raws [] (split_ids t ids))
unfolding modify_confirmation
modify_confirmation-Confirms t ids raws a f =
    let c = confirm_modified raws (split_ids t ids).valid in
    let w = confirm_modified-Weighs t ids f raws a in
    (w.0, ap (total f) (append-nil c.invalid_ack_ids) ∙ w.1)

modify_deadline-outcome :
    (env : Environment) (mods : List DeadlineModification) (a : SubscriptionActor)
    → a.deleted ≡ false
    → (modify_deadline env mods a).1 ≡ split_ids a.outstanding (modified_ids mods)
unfolding modify_deadline
modify_deadline-outcome env mods a alive = ground arith

-- What is confirmed of the modifications, by whether the request parses.
abbrev pub ModifiedSpec :
    OutstandingMessageTracker
    → List Bytes
    → Result Status (List DeadlineModification)
    → Confirmation
    → Type 0
ModifiedSpec t raws (ok mods) c = Confirms t raws c
ModifiedSpec t raws (err e) c =
    (c.ack_ids ≡ [])
    × ((f : Bytes → ℕ)
        → total f c.invalid_ack_ids
          ≡ total f raws + total (λ raw. if is_ack_id raw then f raw else 0) raws)

module _ (raw : Bytes) (rest : Confirmation) where
  split_modified_none :
      (result : Result Status ℕ)
      → ((split_modified raw result [] rest).ack_ids ≡ rest.ack_ids)
        × ((f : Bytes → ℕ)
            → total f (split_modified raw result [] rest).invalid_ack_ids
              ≡ (if parses result then f raw else 0) + total f rest.invalid_ack_ids)
  unfolding contains
  split_modified_none (ok id) = (refl, λ f. refl)
  split_modified_none (err e) = (refl, λ f. omega arith)

none_valid : (raws : List Bytes) → (confirm_modified raws []).ack_ids ≡ []
unfolding confirm_modified
none_valid [] = refl
none_valid (raw ∷ raws) =
    (split_modified_none raw (confirm_modified raws []) (parse_ack_id raw)).0 ∙ none_valid raws

all_invalid :
    (f : Bytes → ℕ) (raws : List Bytes)
    → total f (confirm_modified raws []).invalid_ack_ids
      ≡ total (λ raw. if is_ack_id raw then f raw else 0) raws
unfolding confirm_modified
all_invalid f [] = refl
all_invalid f (raw ∷ raws) =
    (split_modified_none raw (confirm_modified raws []) (parse_ack_id raw)).1 f
    ∙ ap (λ n. (if is_ack_id raw then f raw else 0) + n) (all_invalid f raws)

failed-ModifiedSpec :
    (t : OutstandingMessageTracker) (raws : List Bytes)
    → ModifiedSpec t raws (err invalid_argument) (modify_confirmation raws raws (split_ids t []))
unfolding modify_confirmation split_ids
failed-ModifiedSpec t raws = (
  none_valid raws,
  λ f.
      total-append f (confirm_modified raws []).invalid_ack_ids raws
      ∙ omega (arith, all_invalid f raws),
)

spec_of :
    (t : OutstandingMessageTracker) (now : ℕ) (raws : List Bytes) (seconds : List ℤ)
    (r : Result Status (List DeadlineModification))
    → length seconds ≡ length raws
    → parse_deadline_modifications now raws seconds ≡ r
    → let (mods, parse_failed) = mods_or_failed raws r in
      ModifiedSpec t raws r
        (modify_confirmation raws parse_failed (split_ids t (modified_ids mods)))
spec_of t now raws seconds (ok mods) l e =
    modify_confirmation-Confirms t (modified_ids mods) raws
      (parse_deadline_modifications-AllIn now raws seconds mods l e)
spec_of t now raws seconds (err x) l e = failed-ModifiedSpec t raws

-- The modifications of a streaming request, at least one, each with its deadline, on a
-- subscription that runs and is not deleted, are confirmed for exactly-once delivery: if the
-- request parses, text by text as acks are; if not, none is valid, and each text counts as invalid
-- once, and once more if it is an ack ID.
pub handle_modifications-ModifiedSpec :
    (clock : Clock) (h : Subscription) (raws : List Bytes) (seconds : List ℤ) (s : Server)
    (a : SubscriptionActor)
    → is_empty raws ≡ false
    → length seconds ≡ length raws
    → lookup h.internal_id s.subscriptions ≡ some a
    → a.deleted ≡ false
    → (c : Confirmation) × ((handle_modifications clock h true raws seconds s).1 ≡ ok (some c))
      × ModifiedSpec a.outstanding raws (parse_deadline_modifications clock.now raws seconds) c
unfolding handle_modifications receive
handle_modifications-ModifiedSpec clock h [] seconds s a some_raw l found alive = absurd (cc)
handle_modifications-ModifiedSpec clock h (raw ∷ raws) seconds s a some_raw l found alive =
    let parsed = parse_deadline_modifications clock.now (raw ∷ raws) seconds in
    let (mods, parse_failed) = mods_or_failed (raw ∷ raws) parsed in
    let outcome = split_ids a.outstanding (modified_ids mods) in
    (
      modify_confirmation (raw ∷ raws) parse_failed outcome,
      ap (λ (p : Server × Result Status (Option Confirmation)). p.1)
          (>>=-ok (ask_subscription clock conflict h (modify mods) outcome_of)
            (λ o. return (some (modify_confirmation (raw ∷ raws) parse_failed o))) s outcome
            (ask-outcome clock h (modify mods) s a outcome found
              (ap outcome_is (modify_deadline-outcome (environment clock h a s) mods a alive)))),
      spec_of a.outstanding clock.now (raw ∷ raws) seconds parsed l refl,
    )
