-- ===== src/Order/Changes.antt =====
-- order-service/internal/order/changefields.go and events.go: which fields an action may change, and
-- the audit entry and the facts that a change carries.
use fo_c.Base.{
  Bool, true, false, not, ◌&&◌, ◌||◌, Option, none, some, ◌==◌, eqb_option, is_some, if◌then◌else◌,
}
use fo_c.Base.Int.{eqb_ℤ}
use fo_c.Order.Types.{
  eqb_status, LocationSnapshot, Order, Action, create, confirm_reservation, refuse_reservation,
  assign, cancel, expire, pickup, withdraw, unassign, deliver, timeout, confirm_receipt,
  record_item_location, propose_offer, begin_assignment, resolve_assignment, accept_counteroffer,
  begin_withdrawal, other_action,
}

abbrev pub eqb_bool : Bool → Bool → Bool
eqb_bool true b = b
eqb_bool false b = not b

abbrev pub eqb_location : LocationSnapshot → LocationSnapshot → Bool
eqb_location a b =
    (a.location_id == b.location_id)
    && (a.name == b.name)
    && (a.building_name == b.building_name)
    && eqb_option a.floor b.floor

-- `reflect.DeepEqual` on orders: what was asked for, and how far it has come
abbrev pub eqb_request : Order → Order → Bool
eqb_request a b =
    (a.requester_id == b.requester_id)
    && eqb_location a.pickup b.pickup
    && eqb_location a.delivery b.delivery
    && (a.item_description == b.item_description)
    && eqb_ℤ a.delivery_duration b.delivery_duration
    && (a.expires_at == b.expires_at)
    && (a.created_at == b.created_at)

abbrev pub eqb_credits : Order → Order → Bool
eqb_credits a b =
    eqb_ℤ a.reward_credits b.reward_credits && eqb_ℤ a.reserved_credits b.reserved_credits

abbrev pub eqb_progress : Order → Order → Bool
eqb_progress a b =
    eqb_option a.pending_cancellation_id b.pending_cancellation_id
    && (a.id == b.id)
    && eqb_option a.courier_id b.courier_id
    && eqb_status a.status b.status
    && eqb_option a.delivery_instructions b.delivery_instructions
    && eqb_option a.assigned_at b.assigned_at
    && eqb_option a.picked_up_at b.picked_up_at
    && eqb_option a.delivered_at b.delivered_at
    && eqb_option a.completed_at b.completed_at
    && eqb_option a.closed_at b.closed_at
    && eqb_option a.close_reason b.close_reason
    && eqb_option a.item_location b.item_location
    && eqb_bool a.unattended_delivery b.unattended_delivery
    && eqb_ℤ a.revision b.revision
    && (a.updated_at == b.updated_at)

abbrev pub eqb_order : Order → Order → Bool
eqb_order a b = eqb_request a b && (eqb_credits a b && eqb_progress a b)

abbrev pub versioned : Order → Order → Order
versioned before after = record before {
  status = after.status;
  revision = after.revision;
  updated_at = after.updated_at;
}

abbrev with_courier : Order → Order → Order
with_courier e after = record e {
  courier_id = after.courier_id;
  assigned_at = after.assigned_at;
  reward_credits = after.reward_credits;
  reserved_credits = after.reserved_credits;
}

abbrev closed : Order → Order → Order
closed e after = record e {
  pending_cancellation_id = after.pending_cancellation_id;
  closed_at = after.closed_at;
  close_reason = after.close_reason;
}

abbrev unassigned : Order → Order → Order
unassigned e after = record e {
  pending_cancellation_id = after.pending_cancellation_id;
  courier_id = none;
  assigned_at = none;
}

abbrev withdrawn : Order → Order → Order
withdrawn e after = record (unassigned e after) {
  reward_credits = after.reward_credits;
  reserved_credits = after.reserved_credits;
}

abbrev without_courier : Order → Order → Option Order
without_courier e after =
    if is_some after.courier_id || is_some after.assigned_at then none else some e

-- What the action may leave; `none` where the switch of `validateFields` returns an error.
abbrev pub permitted : Order → Order → Action → Option Order
permitted e after assign = some (with_courier e after)
permitted e after accept_counteroffer = some (with_courier e after)
permitted e after confirm_reservation =
    some (record e { reserved_credits = after.reserved_credits })
permitted e after pickup = some (record e { picked_up_at = after.picked_up_at })
permitted e after deliver = some (record e {
  delivered_at = after.delivered_at;
  unattended_delivery = after.unattended_delivery;
})
permitted e after confirm_receipt = some (record e { completed_at = after.completed_at })
permitted e after cancel = some (closed e after)
permitted e after expire = some (closed e after)
permitted e after timeout = some (closed e after)
permitted e after refuse_reservation = some (closed e after)
permitted e after withdraw = without_courier (withdrawn e after) after
permitted e after unassign = without_courier (unassigned e after) after
permitted e after begin_withdrawal =
    some (record e { pending_cancellation_id = after.pending_cancellation_id })
permitted e after propose_offer = some e
permitted e after begin_assignment = some e
permitted e after resolve_assignment = some e
permitted e after record_item_location = some (record e { item_location = after.item_location })
permitted e after create = none
permitted e after other_action = none

abbrev pub matches : Option Order → Order → Bool
matches none after = false
matches (some expected) after = eqb_order expected after

-- `validateFields`: whether it returns no error
unfoldable pub are_fields_valid : Order → Order → Action → Bool
are_fields_valid before after action =
    matches (permitted (versioned before after) after action) after
