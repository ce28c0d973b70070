-- ===== src/Order/Mutations.antt =====
-- order-service/internal/order/mutation.go, progress.go, disposition.go and the bodies of
-- expirytimers.go and deliverytimers.go: what each local write builds from the locked order. A locked
-- order, its offers and the clock are arguments; `none` is a nil change, a repeat or nothing to do.
use fo_c.Base.{
  ℕ, ◌+◌, ◌-◌, ◌*◌, ◌%◌, Bool, not, ◌&&◌, ◌||◌, Option, none, some, List, [], ◌∷◌, Result, ok, err,
  ltb, eqb_option, is_some, if◌then◌else◌,
}
use fo_c.Base.Int.{pos, pos_part, ◌+ℤ◌, leb_ℤ, ltb_ℤ, eqb_ℤ}
use fo_c.Order.Types.{
  Status, awaiting_courier, delivering, cancelled, failed, eqb_status, Order, Offer, offer_open,
  offer_accepting, offer_void, Actor, user, system, Caller, Action, pickup, confirm_receipt, expire,
  timeout, record_item_location, OrderError, not_found, forbidden, precondition, conflict, Texts,
  is_assigned_to, has_participant, equal_fold,
}
use fo_c.Order.Transitions.{transition}
use fo_c.Order.Facts.{new_change, Change, OfferChange}
use fo_c.Order.Offers.{eqb_offer_status}

-- `visibleTo`
unfoldable pub visible_to : Texts → Order → Caller → ℕ → Bool
visible_to x o c now =
    c.is_admin
    || has_participant x o c.id
    || (not c.suspended && eqb_status o.status awaiting_courier && ltb now o.expires_at)

-- The checks that `Mutate` makes of the built change.
unfoldable pub check_change :
    Texts → ℕ → Order → Result OrderError (Option Change) → Result OrderError (Option Change)
check_change x id current (err e) = err e
check_change x id current (ok none) = ok none
check_change x id current (ok (some c)) =
    if not (equal_fold x c.order.id id) || not (eqb_ℤ c.expected_revision current.revision)
    then err conflict
    else ok (some c)

-- The write of a change: `Apply` stores the order of the change as the next version.
abbrev pub applied : Order → Result OrderError (Option Change) → Order
applied current (err e) = current
applied current (ok none) = current
applied current (ok (some c)) = c.order

abbrev pub built : Result OrderError Change → Result OrderError (Option Change)
built (ok c) = ok (some c)
built (err e) = err e

abbrev truncate : ℕ → ℕ
truncate t = t - t % 1000

abbrev next_version : Order → Status → ℕ → Order
next_version o next now = record o {
  status = next;
  revision = o.revision +ℤ pos 1;
  updated_at = now;
}

abbrev pub stamp_pickup : Order → ℕ → Order
stamp_pickup o now = record o { picked_up_at = some now }

abbrev pub stamp_receipt : Order → ℕ → Order
stamp_receipt o now = record o { completed_at = some now }

-- The closure of `advance`
unfoldable pub advance :
    Texts → Caller → Action → (Order → ℕ → Order) → ℕ → Order → Result OrderError (Option Change)
unfolding visible_to transition new_change
advance x c action stamp clock current =
    let now = truncate clock in
    let actor : Actor = record { kind = user; id = c.id } in
    if not (visible_to x current c now)
    then err not_found
    else elim (transition x current action actor) [
      | err e ↦ err e
      | ok (next, repeat) ↦
          if repeat
          then ok none
          else built (
              new_change x (some current) (stamp (next_version current next now) now) actor action
                0)
    ]

-- `ConfirmPickup` and `ConfirmReceipt`
abbrev pub confirm_pickup : Texts → Caller → ℕ → Order → Result OrderError (Option Change)
confirm_pickup x c = advance x c pickup stamp_pickup

abbrev pub confirm_receipt_of : Texts → Caller → ℕ → Order → Result OrderError (Option Change)
confirm_receipt_of x c = advance x c confirm_receipt stamp_receipt

-- The closure of `RecordItemLocation`. `location` is trimmed and `details` is its JSON text.
unfoldable pub record_location :
    Texts → Caller → ℕ → ℕ → ℕ → Order → Result OrderError (Option Change)
unfolding new_change
record_location x c location details clock current =
    if not (has_participant x current c.id)
    then err not_found
    else if not (is_assigned_to x current c.id)
    then err forbidden
    else if not (is_some current.picked_up_at)
        || (not (eqb_status current.status cancelled) && not (eqb_status current.status failed))
    then err precondition
    else if eqb_option current.item_location (some location)
    then ok none
    else built (
        new_change x (some current)
          (record (next_version current current.status (truncate clock)) {
            item_location = some location;
          })
          (record { kind = user; id = c.id }) record_item_location details)

abbrev closed_version : Order → Status → ℕ → ℕ → Order
closed_version o next now reason = record (next_version o next now) {
  closed_at = some now;
  close_reason = some reason;
}

abbrev system_actor : Actor
system_actor = record { kind = system; id = 0 }

-- The loop of `Expire` over the offers.
unfoldable pub void_offers : ℕ → List Offer → List OfferChange
void_offers now [] = []
void_offers now (f ∷ fs) =
    let rest = void_offers now fs in
    if not (eqb_offer_status f.status offer_open) && not (eqb_offer_status f.status offer_accepting)
    then rest
    else record {
      offer = record f { status = offer_void; updated_at = now };
      expected_status = some f.status;
    }
      ∷ rest

abbrev with_offers : List OfferChange → Result OrderError Change → Result OrderError (Option Change)
with_offers offers (ok c) = ok (some (record c { offers = offers }))
with_offers offers (err e) = err e

-- The closure of `Expire`
unfoldable pub expire_order :
    Texts → ℕ → ℕ → ℕ → List Offer → Order → Result OrderError (Option Change)
unfolding transition new_change void_offers
expire_order x reason details now offers before =
    if not (eqb_status before.status awaiting_courier)
    then ok none
    else if ltb now before.expires_at
    then ok none
    else elim (transition x before expire system_actor) [
      | err e ↦ err e
      | ok (next, repeat) ↦ with_offers (void_offers now offers) (
          new_change x (some before) (closed_version before next now reason) system_actor expire
            details)
    ]

-- `deliveryTimeoutDeadline`; `Time.Add` does not wrap for these times
unfoldable pub delivery_timeout_deadline : Order → Option ℕ
delivery_timeout_deadline o = elim o.picked_up_at [
  | none ↦ none
  | some at ↦
      if not (is_some o.courier_id)
        || leb_ℤ o.delivery_duration (pos 0)
        || ltb_ℤ (pos 4611686018427387903) o.delivery_duration
      then none
      else some (at + 2 * pos_part o.delivery_duration)
]

-- The closure of `Timeout`. `pending` is the answer of `HasPendingDelivery`.
unfoldable pub time_out : Texts → ℕ → ℕ → ℕ → Bool → Order → Result OrderError (Option Change)
unfolding delivery_timeout_deadline transition new_change
time_out x reason details now pending before =
    if not (eqb_status before.status delivering)
    then ok none
    else elim (delivery_timeout_deadline before) [
      | none ↦ err precondition
      | some deadline ↦
          if ltb now deadline
          then ok none
          else if pending
          then ok none
          else elim (transition x before timeout system_actor) [
            | err e ↦ err e
            | ok (next, repeat) ↦ built (
                new_change x (some before) (closed_version before next now reason) system_actor
                  timeout details)
          ]
    ]
