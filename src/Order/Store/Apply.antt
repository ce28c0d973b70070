-- ===== src/Order/Store/Apply.antt =====
-- order-service/internal/order/postgres.go (`Apply`): how a change is checked against the locked order
-- and written with its offers, audit entry and facts. The length checks that the schema makes of texts
-- are left to the callers, who make them too.
use fo_c.Base.{
  ℕ, suc, Bool, true, false, not, ◌&&◌, ◌||◌, Option, none, some, List, [], ◌∷◌, ⊤, Result, ok, err,
  leb, ◌==◌, eqb_option, is_some, if◌then◌else◌,
}
use fo_c.Base.Int.{ℤ, pos, leb_ℤ, ltb_ℤ, eqb_ℤ}
use fo_c.Base.Dict.{lookup, insert}
use fo_c.Base.Transaction.{pure, fail, ◌>>◌}
use fo_c.Order.Types.{
  Status, awaiting_pickup, delivering, delivered, completed, eqb_status, Order, Offer, OfferStatus,
  offer_open, invalid, precondition, conflict, Texts,
}
use fo_c.Order.Facts.{FactKind, outcome, Fact, OfferChange, Change}
use fo_c.Order.Offers.{eqb_offer_status}
use fo_c.Order.Workflow.{Failure, policy, database}
use fo_c.Order.Store.{AuditRow, OutboxRow, Tx, Work}
use fo_c.Order.Store.Validate.{eqb_fact_kind, validate_change}
use fo_c.Order.Store.History.{write_history}

abbrev needs_courier : Status → Bool
needs_courier awaiting_pickup = true
needs_courier delivering = true
needs_courier delivered = true
needs_courier completed = true
needs_courier _ = false

-- The CHECKs of the table `orders`
unfoldable pub order_check : Order → Bool
order_check o =
    ltb_ℤ (pos 0) o.reward_credits
    && leb_ℤ (pos 0) o.reserved_credits
    && leb_ℤ (pos 300000000000) o.delivery_duration
    && leb_ℤ o.delivery_duration (pos 86400000000000)
    && not (eqb_option o.courier_id (some o.requester_id))
    && (is_some o.courier_id || not (needs_courier o.status))
    && (not (is_some o.pending_cancellation_id) || eqb_status o.status awaiting_pickup)
    && leb o.created_at o.updated_at

abbrev pub store_order : Order → Tx → Tx
store_order o t = record t { tables = record t.tables { orders = insert o.id o t.tables.orders } }

-- `UpdateOrder` does not name the requester and the time of creation.
abbrev pub kept_columns : Order → Order → Order
kept_columns old o = record o { requester_id = old.requester_id; created_at = old.created_at }

-- `InsertOrder`
unfoldable pub insert_order : Order → Work ⊤
unfolding order_check
insert_order o t =
    if is_some (lookup o.id t.tables.orders)
    then err (policy conflict)
    else if order_check o
    then ok (tt, store_order o t)
    else err database

-- `UpdateOrder` of a row that is there
unfoldable pub update_order : Order → Change → Work ⊤
unfolding order_check
update_order old c t =
    if not (eqb_ℤ old.revision c.expected_revision)
    then err (policy conflict)
    else if order_check (kept_columns old c.order)
    then ok (tt, store_order (kept_columns old c.order) t)
    else err database

-- The row of the order: a new one, or the next version of the one at the expected revision
unfoldable pub write_order : Change → Work ⊤
unfolding insert_order update_order
write_order c t =
    if eqb_ℤ c.expected_revision (pos 0)
    then insert_order c.order t
    else elim (lookup c.order.id t.tables.orders) [
      | none ↦ err (policy conflict)
      | some old ↦ update_order old c t
    ]

-- Offers

abbrev has_offer : ℕ → List Offer → Bool
has_offer id [] = false
has_offer id (f ∷ fs) = (f.id == id) || has_offer id fs

abbrev is_open_of : Offer → Offer → Bool
is_open_of g f =
    eqb_offer_status f.status offer_open
    && (f.order_id == g.order_id)
    && (f.courier_id == g.courier_id)
    && not (f.id == g.id)

abbrev has_open_of : Offer → List Offer → Bool
has_open_of g [] = false
has_open_of g (f ∷ fs) = is_open_of g f || has_open_of g fs

-- `offers_one_open_per_courier`
abbrev is_second_open : Offer → List Offer → Bool
is_second_open f fs = eqb_offer_status f.status offer_open && has_open_of f fs

abbrev is_target : Offer → OfferStatus → Offer → Bool
is_target f status row =
    (row.id == f.id)
    && (row.order_id == f.order_id)
    && (row.courier_id == f.courier_id)
    && eqb_offer_status row.status status

abbrev has_target : Offer → OfferStatus → List Offer → Bool
has_target f status [] = false
has_target f status (row ∷ rows) = is_target f status row || has_target f status rows

-- `UpdateOffer` names the credits, the status and the time.
abbrev update_rows : Offer → OfferStatus → List Offer → List Offer
update_rows f status [] = []
update_rows f status (row ∷ rows) =
    let rest = update_rows f status rows in
    if is_target f status row
    then record row { credits = f.credits; status = f.status; updated_at = f.updated_at } ∷ rest
    else row ∷ rest

abbrev offer_check : Offer → Bool
offer_check f = ltb_ℤ (pos 0) f.credits && leb f.created_at f.updated_at

abbrev store_offers : List Offer → Tx → Tx
store_offers fs t = record t { tables = record t.tables { offers = fs } }

-- `InsertOffer`
unfoldable pub insert_offer : Offer → Work ⊤
insert_offer f t =
    if not (offer_check f)
    then err database
    else if has_offer f.id t.tables.offers || is_second_open f t.tables.offers
    then err (policy conflict)
    else ok (tt, store_offers (f ∷ t.tables.offers) t)

-- `UpdateOffer`
unfoldable pub update_offer : Offer → OfferStatus → Work ⊤
update_offer f status t =
    if not (has_target f status t.tables.offers) || is_second_open f t.tables.offers
    then err (policy conflict)
    else if not (ltb_ℤ (pos 0) f.credits)
    then err database
    else ok (tt, store_offers (update_rows f status t.tables.offers) t)

-- The body of the loop over the changed offers
unfoldable pub write_offer : ℕ → OfferChange → Work ⊤
unfolding insert_offer update_offer
write_offer id change =
    if not (change.offer.order_id == id)
    then fail (policy invalid)
    else elim change.expected_status [
      | none ↦ insert_offer change.offer
      | some status ↦ update_offer change.offer status
    ]

unfoldable pub write_offers : ℕ → List OfferChange → Work ⊤
unfolding write_offer
write_offers id [] = pure tt
write_offers id (change ∷ changes) = do write_offer id change; write_offers id changes

-- Audit and facts

abbrev has_audit : ℕ → ℤ → List AuditRow → Bool
has_audit id revision [] = false
has_audit id revision (a ∷ rest) =
    ((a.order_id == id) && eqb_ℤ a.revision revision) || has_audit id revision rest

abbrev audit_row : Change → AuditRow
audit_row c = record {
  order_id = c.order.id;
  revision = c.order.revision;
  action = c.action;
  actor = c.actor;
  previous_status = c.audit.previous_status;
  status = c.order.status;
  at = c.audit.at;
  details = c.audit.details;
}

-- `InsertAudit`
unfoldable pub write_audit : Change → Work ⊤
write_audit c t =
    if has_audit c.order.id c.order.revision t.tables.audits
    then err (policy conflict)
    else ok (tt, record t { tables = record t.tables { audits = audit_row c ∷ t.tables.audits } })

abbrev is_outcome : FactKind → Bool
is_outcome outcome = true
is_outcome _ = false

-- The unique keys of the outbox: the event, the kind in a revision, and an order's outcome.
abbrev clashes : OutboxRow → OutboxRow → Bool
clashes new row =
    (row.fact.id == new.fact.id)
    || ((row.order_id == new.order_id)
        && ((eqb_ℤ row.revision new.revision && eqb_fact_kind row.fact.kind new.fact.kind)
            || (is_outcome row.fact.kind && is_outcome new.fact.kind)))

abbrev has_clash : OutboxRow → List OutboxRow → Bool
has_clash new [] = false
has_clash new (row ∷ rows) = clashes new row || has_clash new rows

-- `InsertFact`
unfoldable pub insert_fact : OutboxRow → Work ⊤
insert_fact row t =
    if has_clash row t.tables.outbox
    then err (policy conflict)
    else ok (tt, record t { tables = record t.tables { outbox = row ∷ t.tables.outbox } })

-- The loop over the facts, from the i-th
unfoldable pub write_facts : Order → ℕ → List Fact → Work ⊤
unfolding insert_fact
write_facts o i [] = pure tt
write_facts o i (f ∷ fs) = do
  insert_fact (record { order_id = o.id; revision = o.revision; ordinal = i; fact = f })
  write_facts o (suc i) fs

abbrev pub mark_applied : ℕ → Work ⊤
mark_applied id t = ok (tt, record t { applied = λ j. if j == id then true else t.applied j })

-- The prior version that a change is checked against
unfoldable pub baseline : Change → Tx → Result Failure (Option Order)
baseline c t = if eqb_ℤ c.expected_revision (pos 0) then ok none else elim (t.locked c.order.id) [
  | none ↦ err (policy precondition)
  | some current ↦
      if not (t.related c.order.id)
      then err (policy precondition)
      else if not (eqb_ℤ current.revision c.expected_revision)
      then err (policy conflict)
      else ok (some current)
]

-- The writes of `Apply`, in their order
unfoldable pub write_change : Option Order → Change → Work ⊤
unfolding write_order write_history write_offers write_audit write_facts
write_change before c = do
  write_order c
  write_history before c
  write_offers c.order.id c.offers
  write_audit c
  write_facts c.order 0 c.facts
  mark_applied c.order.id

-- `Apply`
unfoldable pub apply : Texts → Change → Work ⊤
unfolding baseline validate_change write_change
apply x c t = if t.applied c.order.id then err (policy conflict) else elim (baseline c t) [
  | err e ↦ err e
  | ok before ↦ elim (validate_change x before c) [
    | some e ↦ err (policy e)
    | none ↦ write_change before c t
  ]
]
