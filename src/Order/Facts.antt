-- ===== src/Order/Facts.antt =====
-- order-service/internal/order/events.go: `NewChange`, which checks a change and builds its audit entry
-- and facts.
use fo_c.Base.{
  ℕ, suc, Bool, true, false, not, ◌&&◌, ◌||◌, Option, none, some, List, [], ◌∷◌, ◌++◌, Result, ok,
  err, ltb, ◌==◌, is_some, if◌then◌else◌,
}
use fo_c.Base.Int.{ℤ, pos, ◌+ℤ◌, leb_ℤ, eqb_ℤ}
use fo_c.Order.Types.{
  Status, pending_reservation, awaiting_courier, awaiting_pickup, delivering, completed, cancelled,
  expired, failed, is_valid, eqb_status, Order, Offer, OfferStatus, Actor, is_user, is_system,
  Action, create, timeout, record_item_location, propose_offer, begin_assignment,
  resolve_assignment, accept_counteroffer, begin_withdrawal, OrderError, forbidden, invalid,
  precondition, Texts, is_requested_by, is_assigned_to,
}
use fo_c.Order.Transitions.{is_actor, is_assign, is_cancel, transition}
use fo_c.Order.Changes.{are_fields_valid}

-- `previous_status` is `none` where the code has the empty text.
pub record AuditEntry : Type 0 where
  pub previous_status : Option Status
  pub status : Status
  pub at : ℕ
  pub details : ℕ

pub data FactKind : Type 0 where
  status_changed outcome courier_warning : FactKind

pub record FactsPayload : Type 0 where
  pub previous_courier_id : Option ℕ
  pub order_id : ℕ
  pub revision : ℤ
  pub requester_id : ℕ
  pub courier_id : Option ℕ
  pub previous_status : Option Status
  pub status : Status
  pub action : Action
  pub reserved_credits : ℤ
  pub delivery_duration_ns : ℤ
  pub picked_up_at : Option ℕ
  pub delivered_at : Option ℕ
  pub after_pickup : Bool
  pub at : ℕ

pub record Fact : Type 0 where
  pub id : ℕ
  pub kind : FactKind
  pub version : ℕ
  pub payload : FactsPayload

-- An offer's new row and the status that its stored row must have; `none` for a new offer.
pub record OfferChange : Type 0 where
  pub offer : Offer
  pub expected_status : Option OfferStatus

pub record Change : Type 0 where
  pub expected_revision : ℤ
  pub order : Order
  pub offers : List OfferChange
  pub actor : Actor
  pub action : Action
  pub audit : AuditEntry
  pub facts : List Fact

abbrev pub is_create : Action → Bool
is_create create = true
is_create _ = false

abbrev pub is_timeout : Action → Bool
is_timeout timeout = true
is_timeout _ = false

abbrev is_counteroffer : Action → Bool
is_counteroffer accept_counteroffer = true
is_counteroffer _ = false

abbrev pub revision_of : Option Order → ℤ
revision_of none = pos 0
revision_of (some b) = b.revision

abbrev status_of : Option Order → Option Status
status_of none = none
status_of (some b) = some b.status

abbrev courier_of : Option Order → Option ℕ
courier_of none = none
courier_of (some b) = b.courier_id

abbrev has_courier : Order → Bool
has_courier o = elim o.courier_id [ none ↦ false | some c ↦ not (c == 0) ]

-- What a status transition must meet beside the policy.
abbrev pub move_error :
    Texts → Order → Order → Actor → Action → Result OrderError (Status × Bool) → Option OrderError
move_error x before after actor action (err e) = some e
move_error x before after actor action (ok (next, repeat)) =
    if repeat || not (eqb_status next after.status)
    then some precondition
    else if is_assign action && not (is_assigned_to x after actor.id)
    then some invalid
    else if is_counteroffer action
        && (not (has_courier after) || is_assigned_to x after before.requester_id)
    then some invalid
    else none

-- The branch of a status transition: `none` where it passes.
unfoldable pub transition_error : Texts → Order → Order → Actor → Action → Option OrderError
unfolding transition
transition_error x before after actor action =
    move_error x before after actor action (transition x before action actor)

-- The branch of a change that keeps the status.
unfoldable pub metadata_error : Texts → Order → Order → Actor → Action → Option OrderError
metadata_error x before after actor begin_withdrawal =
    if not (is_user actor.kind)
      || not (eqb_status before.status awaiting_pickup)
      || not (is_assigned_to x before actor.id)
      || is_some before.pending_cancellation_id
      || not (is_some after.pending_cancellation_id)
    then some precondition
    else none
metadata_error x before after actor record_item_location =
    if not (is_user actor.kind)
      || not (is_assigned_to x before actor.id)
      || not (is_some before.picked_up_at)
      || (not (eqb_status before.status cancelled) && not (eqb_status before.status failed))
    then some precondition
    else none
metadata_error x before after actor propose_offer =
    if not (is_user actor.kind)
      || not (eqb_status before.status awaiting_courier)
      || is_requested_by x before actor.id
    then some forbidden
    else none
metadata_error x before after actor begin_assignment =
    if not (is_user actor.kind) || not (eqb_status before.status awaiting_courier)
    then some forbidden
    else none
metadata_error x before after actor resolve_assignment =
    if not (is_user actor.kind) then some forbidden else none
metadata_error x before after actor _ = some precondition

-- `validateFields`, where the checks before it passed
abbrev pub then_fields : Bool → Option OrderError → Option OrderError
then_fields valid (some e) = some e
then_fields valid none = if valid then none else some invalid

-- The checks that depend on the prior version.
unfoldable pub lifecycle_error : Texts → Option Order → Order → Actor → Action → Option OrderError
unfolding transition_error metadata_error
lifecycle_error x none after actor action =
    if not (is_user actor.kind) || not (is_requested_by x after actor.id)
    then some forbidden
    else none
lifecycle_error x (some before) after actor action =
    then_fields (are_fields_valid before after action) (
      if not (eqb_status before.status after.status)
      then transition_error x before after actor action
      else metadata_error x before after actor action)

abbrev pub is_other_order : Option Order → Order → Bool
is_other_order none after = false
is_other_order (some b) after = not (b.id == after.id)

abbrev pub is_bad_creation : Option Order → Order → Action → Bool
is_bad_creation none after action =
    not (eqb_status after.status pending_reservation) || not (is_create action)
is_bad_creation (some b) after action = false

abbrev pub is_bad_revision : Option Order → Order → Bool
is_bad_revision before after =
    leb_ℤ after.revision (pos 0) || not (eqb_ℤ after.revision (revision_of before +ℤ pos 1))

abbrev pub payload_of : Option Order → Order → Action → FactsPayload
payload_of before after action = record {
  previous_courier_id = courier_of before;
  order_id = after.id;
  revision = after.revision;
  requester_id = after.requester_id;
  courier_id = after.courier_id;
  previous_status = status_of before;
  status = after.status;
  action = action;
  reserved_credits = after.reserved_credits;
  delivery_duration_ns = after.delivery_duration;
  picked_up_at = after.picked_up_at;
  delivered_at = after.delivered_at;
  after_pickup = is_some after.picked_up_at;
  at = after.updated_at;
}

abbrev pub was : Option Order → Status → Bool
was none s = false
was (some b) s = eqb_status b.status s

abbrev pub ends_with_outcome : Status → Bool
ends_with_outcome completed = true
ends_with_outcome cancelled = true
ends_with_outcome expired = true
ends_with_outcome failed = true
ends_with_outcome _ = false

abbrev pub warns_courier : Texts → Option Order → Order → Actor → Action → Bool
warns_courier x before after actor action =
    was before delivering
    && ((is_cancel action && is_user actor.kind && is_assigned_to x after actor.id)
        || (is_timeout action
            && is_system actor.kind
            && is_some after.picked_up_at
            && is_some after.courier_id))

-- `add`, with the n-th id that the call draws
abbrev pub numbered : Texts → ℕ → FactsPayload → List FactKind → List Fact
numbered x n p [] = []
numbered x n p (k ∷ ks) =
    record { id = x.new_id n; kind = k; version = 1; payload = p } ∷ numbered x (suc n) p ks

-- The kinds of the facts that a change of status is given.
abbrev pub fact_kinds : Texts → Option Order → Order → Actor → Action → List FactKind
fact_kinds x before after actor action =
    status_changed
    ∷ ((if ends_with_outcome after.status then outcome ∷ [] else [])
        ++ (if warns_courier x before after actor action then courier_warning ∷ [] else []))

abbrev pub facts_of : Texts → Option Order → Order → Actor → Action → List Fact
facts_of x before after actor action =
    if was before after.status
    then []
    else numbered x 0 (payload_of before after action) (fact_kinds x before after actor action)

abbrev pub details_or_empty : Texts → ℕ → ℕ
details_or_empty x details = if x.byte_length details == 0 then x.empty_object else details

abbrev pub are_details_bad : Texts → ℕ → Bool
are_details_bad x details = ltb 4096 (x.byte_length details) || not (x.is_json details)

abbrev pub change_of : Texts → Option Order → Order → Actor → Action → ℕ → Change
change_of x before after actor action details = record {
  expected_revision = revision_of before;
  order = after;
  offers = [];
  actor = actor;
  action = action;
  audit = record {
    previous_status = status_of before;
    status = after.status;
    at = after.updated_at;
    details = details_or_empty x details;
  };
  facts = facts_of x before after actor action;
}

-- `NewChange`; a nil `details` is the empty text
unfoldable pub new_change :
    Texts → Option Order → Order → Actor → Action → ℕ → Result OrderError Change
unfolding lifecycle_error
new_change x before after actor action details =
    if is_other_order before after
    then err invalid
    else if is_bad_revision before after
        || not (is_valid after.status)
        || is_bad_creation before after action
    then err invalid
    else if not (is_actor actor)
    then err forbidden
    else elim (lifecycle_error x before after actor action) [
      | some e ↦ err e
      | none ↦
          if are_details_bad x (details_or_empty x details)
          then err invalid
          else ok (change_of x before after actor action details)
    ]
