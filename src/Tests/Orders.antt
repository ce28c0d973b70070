-- ===== src/Tests/Orders.antt =====
-- A delivered order whose requester confirms the receipt, and the theorems on orders at that input.
use fo_c.Base.{ℕ, ◌≡◌, ◌≤◌, refl, true, false, none, some, [], ◌∷◌, ok, if◌then◌else◌}
use fo_c.Base.Int.{pos, ◌+ℤ◌}
use fo_c.Order.Types.{
  delivered, completed, LocationSnapshot, Order, Actor, user, confirm_receipt, Texts, is_terminal,
  has_participant,
}
use fo_c.Order.Transitions.{
  transition, destination, is_requester, is_courier, is_repeat, may, others_may, is_action_allowed,
}
use fo_c.Order.Changes.{are_fields_valid}
use fo_c.Order.Facts.{
  Change, change_of, new_change, lifecycle_error, transition_error, metadata_error,
}
use fo_c.Order.Lifecycle.{
  transition-terminal, transition-repeat, transition-retried, moved, first_from,
}
use fo_c.Order.Audit.{SameRequest}
use fo_c.Order.Outcomes.{
  no_change, change, outcomes_of, new_change-SameRequest, new_change-credits, Chain-one_outcome,
}

identity : ℕ → ℕ
identity a = a

abbrev pub texts : Texts
texts = record {
  fold = λ a. a;
  byte_length = λ a. 2;
  is_json = λ a. true;
  empty_object = 1;
  new_id = λ n. n;
  admin_text = 99;
}

abbrev pub place : ℕ → LocationSnapshot
place id = record { location_id = id; name = id; building_name = id; floor = none }

abbrev delivered_order : Order
delivered_order = record {
  pending_cancellation_id = none;
  id = 5;
  requester_id = 1;
  courier_id = some 2;
  status = delivered;
  pickup = place 11;
  delivery = place 12;
  delivery_instructions = none;
  item_description = 13;
  reward_credits = pos 40;
  reserved_credits = pos 40;
  delivery_duration = pos 1000000;
  expires_at = 100;
  assigned_at = some 50;
  picked_up_at = some 60;
  delivered_at = some 70;
  completed_at = none;
  closed_at = none;
  close_reason = none;
  item_location = none;
  unattended_delivery = false;
  revision = pos 5;
  created_at = 10;
  updated_at = 70;
}

abbrev completed_order : Order
completed_order = record delivered_order {
  status = completed;
  completed_at = some 80;
  revision = pos 6;
  updated_at = 80;
}

abbrev requester : Actor
requester = record { kind = user; id = 1 }

confirms : transition texts delivered_order confirm_receipt requester ≡ ok (completed, false)
unfolding transition is_repeat may others_may is_action_allowed
confirms = refl

repeats : transition texts completed_order confirm_receipt requester ≡ ok (completed, true)
unfolding transition is_repeat may others_may is_action_allowed
repeats = refl

abbrev completion : Change
completion = change_of texts (some delivered_order) completed_order requester confirm_receipt 0

completes :
    new_change texts (some delivered_order) completed_order requester confirm_receipt 0
    ≡ ok completion
unfolding new_change lifecycle_error transition_error metadata_error transition is_repeat may
    others_may is_action_allowed are_fields_valid ◌+ℤ◌
completes = refl

transition-terminal_example : (true ≡ true) × (completed ≡ completed_order.status)
transition-terminal_example =
    transition-terminal texts completed_order confirm_receipt requester completed true refl repeats

transition-repeat_example :
    (completed ≡ completed_order.status)
    × (completed ≡ destination confirm_receipt)
    × (is_action_allowed
          (first_from confirm_receipt)
          confirm_receipt
          requester.kind
          (is_requester texts completed_order requester)
          (is_courier texts completed_order requester)
        ≡ true)
    × (has_participant texts completed_order requester.id ≡ true)
transition-repeat_example =
    transition-repeat texts completed_order confirm_receipt requester completed repeats

transition-retried_example :
    transition texts
      (moved delivered_order confirm_receipt requester completed)
      confirm_receipt
      requester
    ≡ ok (completed, true)
transition-retried_example =
    transition-retried texts delivered_order confirm_receipt requester completed refl confirms

new_change-SameRequest_example :
    SameRequest delivered_order completion.order
    × (completion.order.revision ≡ delivered_order.revision +ℤ pos 1)
new_change-SameRequest_example =
    new_change-SameRequest texts delivered_order completed_order requester confirm_receipt 0
      completion completes

new_change-credits_example :
    (completion.order.reward_credits ≡ delivered_order.reward_credits)
    × (completion.order.reserved_credits ≡ delivered_order.reserved_credits)
new_change-credits_example =
    new_change-credits texts delivered_order completed_order requester confirm_receipt 0 completion
      refl completes

Chain-one_outcome_example :
    outcomes_of (completion ∷ []) ≤ (if is_terminal delivered_order.status then 0 else 1)
Chain-one_outcome_example =
    Chain-one_outcome texts delivered_order (completion ∷ [])
      (change completed_order requester confirm_receipt 0 completion [] completes no_change)
