-- ===== src/Order/Store/Validate.antt =====
-- order-service/internal/order/postgres.go (`validateChange`): the checks of a change before it is
-- written.
use fo_c.Base.{
  ℕ, Bool, true, false, not, ◌&&◌, ◌||◌, Option, none, some, List, [], ◌∷◌, ok, err, ◌==◌,
  eqb_option, if◌then◌else◌,
}
use fo_c.Base.Int.{eqb_ℤ}
use fo_c.Order.Types.{Status, eqb_status, Order, action_rank, OrderError, invalid, Texts}
use fo_c.Order.Changes.{eqb_bool}
use fo_c.Order.Facts.{
  FactKind, status_changed, outcome, courier_warning, FactsPayload, Fact, Change, new_change,
}
use fo_c.Order.Offers.{has_seen}

abbrev eqb_maybe_status : Option Status → Option Status → Bool
eqb_maybe_status none none = true
eqb_maybe_status (some s) (some t) = eqb_status s t
eqb_maybe_status _ _ = false

abbrev pub eqb_fact_kind : FactKind → FactKind → Bool
eqb_fact_kind status_changed status_changed = true
eqb_fact_kind outcome outcome = true
eqb_fact_kind courier_warning courier_warning = true
eqb_fact_kind _ _ = false

-- `jsonEqual` on the payloads of two facts
unfoldable pub eqb_payload : FactsPayload → FactsPayload → Bool
eqb_payload p q =
    eqb_option p.previous_courier_id q.previous_courier_id
    && (p.order_id == q.order_id)
    && eqb_ℤ p.revision q.revision
    && (p.requester_id == q.requester_id)
    && eqb_option p.courier_id q.courier_id
    && eqb_maybe_status p.previous_status q.previous_status
    && eqb_status p.status q.status
    && (action_rank p.action == action_rank q.action)
    && eqb_ℤ p.reserved_credits q.reserved_credits
    && eqb_ℤ p.delivery_duration_ns q.delivery_duration_ns
    && eqb_option p.picked_up_at q.picked_up_at
    && eqb_option p.delivered_at q.delivered_at
    && eqb_bool p.after_pickup q.after_pickup
    && (p.at == q.at)

-- The loop over the facts: their ids are not empty and differ, and the rest is as expected.
unfoldable pub are_expected : List ℕ → List Fact → List Fact → Bool
unfolding eqb_payload
are_expected seen [] [] = true
are_expected seen (f ∷ fs) (e ∷ es) =
    let rest = are_expected (f.id ∷ seen) fs es in
    not (f.id == 0)
    && not (has_seen f.id seen)
    && eqb_fact_kind f.kind e.kind
    && (f.version == e.version)
    && eqb_payload f.payload e.payload
    && rest
are_expected seen _ _ = false

-- The fields that no change of an order may touch.
abbrev pub is_other_request : Option Order → Order → Bool
is_other_request none o = false
is_other_request (some b) o =
    not (b.requester_id == o.requester_id) || not (b.created_at == o.created_at)

abbrev pub agrees : Change → Change → Bool
agrees expected c =
    eqb_ℤ expected.expected_revision c.expected_revision
    && eqb_maybe_status expected.audit.previous_status c.audit.previous_status
    && eqb_status expected.audit.status c.audit.status
    && (expected.audit.at == c.audit.at)
    && are_expected [] c.facts expected.facts

abbrev pub blank_ids : Texts → Texts
blank_ids x = record x { new_id = λ n. 0 }

-- `validateChange`: `none` where it returns no error
unfoldable pub validate_change : Texts → Option Order → Change → Option OrderError
unfolding new_change are_expected
validate_change x before c =
    if is_other_request before c.order
    then some invalid
    else elim (new_change (blank_ids x) before c.order c.actor c.action c.audit.details) [
      | err e ↦ some e
      | ok expected ↦ if agrees expected c then none else some invalid
    ]
