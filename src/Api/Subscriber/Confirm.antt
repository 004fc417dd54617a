-- ===== src/Api/Subscriber/Confirm.antt =====
-- src/api/subscriber.rs: the acks and deadlines of a streaming pull, and what is confirmed of them.
use deltio.Prelude.{
  Bool, Bytes, List, Option, [], contains, if◌then◌else◌, none, some, ℕ, ℤ, ◌++◌, ◌∷◌, nat_eq,
}
use deltio.Results.{Result, ok, err}
use deltio.Subscriptions.Info.{AckOutcome}
use deltio.Subscriptions.Pulled.{DeadlineModification}
use deltio.Subscriptions.Manager.{Subscription}
use deltio.Subscriptions.Actor.Receive.{acknowledge, modify}
use deltio.Server.{Clock}
use deltio.Api.Proto.{Status}
use deltio.Api.Parser.Fields.{parse_ack_id, parse_deadline_modifications}
use deltio.Api.Call.{Call, ◌>>=◌, return, conflict, ask_subscription}
use deltio.Api.Subscriber.Messages.{outcome_of}

-- The ack IDs that were processed, and those that were not.
pub record Confirmation : Type 0 where
  pub ack_ids : List Bytes
  pub invalid_ack_ids : List Bytes

-- The acked IDs that parse, each with its text, and the texts that do not.
pub record RawIds : Type 0 where
  pub parsed : List (Bytes × ℕ)
  pub parse_failed : List Bytes

abbrev pub sort_raw : Bytes → Result Status ℕ → RawIds → RawIds
sort_raw raw (ok id) r = record r { parsed = (raw, id) ∷ r.parsed }
sort_raw raw (err e) r = record r { parse_failed = raw ∷ r.parse_failed }

unfoldable pub split_raw : List Bytes → RawIds
unfolding parse_ack_id
split_raw [] = record { parsed = []; parse_failed = [] }
split_raw (raw ∷ raws) = let rest = split_raw raws in sort_raw raw (parse_ack_id raw) rest

abbrev pub parsed_ids_of : List (Bytes × ℕ) → List ℕ
parsed_ids_of [] = []
parsed_ids_of ((raw, id) ∷ rest) = id ∷ parsed_ids_of rest

-- The texts whose ack ID is among the given ones.
unfoldable pub texts_among : List ℕ → List (Bytes × ℕ) → List Bytes
unfolding contains
texts_among ids [] = []
texts_among ids ((raw, id) ∷ rest) =
    let others = texts_among ids rest in if contains id ids then raw ∷ others else others

unfoldable pub ack_confirmation : RawIds → AckOutcome → Confirmation
unfolding texts_among
ack_confirmation r outcome = record {
  ack_ids = texts_among outcome.valid r.parsed;
  invalid_ack_ids = texts_among outcome.invalid r.parsed ++ r.parse_failed;
}

-- The acks of a request; a confirmation if the subscription is for exactly-once delivery.
unfoldable pub handle_acks : Clock → Subscription → Bool → List Bytes → Call (Option Confirmation)
unfolding split_raw ask_subscription ack_confirmation
handle_acks clock h exactly_once_enabled [] = return none
handle_acks clock h exactly_once_enabled (raw ∷ raws) =
    let r = split_raw (raw ∷ raws) in
    ask_subscription clock conflict h (acknowledge (parsed_ids_of r.parsed)) outcome_of
    >>= λ outcome. return (if exactly_once_enabled then some (ack_confirmation r outcome) else none)

-- The modifications, or none at all and every text as one that did not parse.
abbrev pub mods_or_failed :
    List Bytes → Result Status (List DeadlineModification) → List DeadlineModification × List Bytes
mods_or_failed raws (ok mods) = (mods, [])
mods_or_failed raws (err e) = ([], raws)

abbrev pub split_modified : Bytes → Result Status ℕ → List ℕ → Confirmation → Confirmation
split_modified raw (err e) valid c = c
split_modified raw (ok id) valid c =
    if contains id valid
    then record c { ack_ids = raw ∷ c.ack_ids }
    else record c { invalid_ack_ids = raw ∷ c.invalid_ack_ids }

-- Each text by the ack ID that it stands for; a text that is none is left out.
unfoldable pub confirm_modified : List Bytes → List ℕ → Confirmation
unfolding parse_ack_id contains
confirm_modified [] valid = record { ack_ids = []; invalid_ack_ids = [] }
confirm_modified (raw ∷ raws) valid =
    let rest = confirm_modified raws valid in split_modified raw (parse_ack_id raw) valid rest

unfoldable pub modify_confirmation : List Bytes → List Bytes → AckOutcome → Confirmation
unfolding confirm_modified
modify_confirmation raws parse_failed outcome =
    let c = confirm_modified raws outcome.valid in
    record c { invalid_ack_ids = c.invalid_ack_ids ++ parse_failed }

unfoldable pub handle_modifications :
    Clock → Subscription → Bool → List Bytes → List ℤ → Call (Option Confirmation)
unfolding parse_deadline_modifications ask_subscription modify_confirmation
handle_modifications clock h exactly_once_enabled [] seconds = return none
handle_modifications clock h exactly_once_enabled (raw ∷ raws) seconds =
    let (mods, parse_failed) =
      mods_or_failed (raw ∷ raws) (parse_deadline_modifications clock.now (raw ∷ raws) seconds) in
    ask_subscription clock conflict h (modify mods) outcome_of >>= λ outcome. return (
      if exactly_once_enabled
      then some (modify_confirmation (raw ∷ raws) parse_failed outcome)
      else none)
