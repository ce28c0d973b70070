-- ===== src/Order/Store.antt =====
-- The tables of order-service/database/schema and the transaction of
-- order-service/internal/order/postgres.go: the rows it has locked and what it has applied. An error
-- ends a transaction and undoes it, as the field `failed` makes it in the source.
pub mod Validate
pub mod History
pub mod Apply
pub mod Keys
pub mod Creations
pub mod Mutate
pub mod Images
pub mod Laws
use fo_c.Base.{
  ℕ, Bool, true, false, not, ◌||◌, Option, none, some, List, [], ◌∷◌, ⊤, Result, ok, err, ◌==◌,
  is_some, if◌then◌else◌,
}
use fo_c.Base.Int.{ℤ}
use fo_c.Base.Dict.{Dict, lookup}
use fo_c.Base.Transaction.{Transaction}
use fo_c.Order.Types.{Status, Order, Offer, Actor, Action, OrderError, not_found, precondition}
use fo_c.Order.Facts.{Fact}
use fo_c.Order.Offers.{Method}
use fo_c.Order.Images.{ItemImage}
use fo_c.Order.Workflow.{Failure, policy, CreationWorkflow, IdempotencyKey}

-- A row of order_assignment_history that a transition opened; `ended` holds the revision, the time
-- and the reason of its end, and a row without them is current.
pub record Episode : Type 0 where
  pub order_id : ℕ
  pub courier_id : ℕ
  pub assigned_revision : ℤ
  pub assigned_at : ℕ
  pub ended : Option (ℤ × ℕ × Action)

pub record AuditRow : Type 0 where
  pub order_id : ℕ
  pub revision : ℤ
  pub action : Action
  pub actor : Actor
  pub previous_status : Option Status
  pub status : Status
  pub at : ℕ
  pub details : ℕ

pub record OutboxRow : Type 0 where
  pub order_id : ℕ
  pub revision : ℤ
  pub ordinal : ℕ
  pub fact : Fact

-- A creation workflow is found by its order, which is unique, and `creation_orders` by its own id.
pub record Tables : Type 0 where
  pub orders : Dict Order
  pub offers : List Offer
  pub episodes : List Episode
  pub audits : List AuditRow
  pub outbox : List OutboxRow
  pub creations : ℕ → Option CreationWorkflow
  pub creation_orders : ℕ → Option ℕ
  pub keys : List IdempotencyKey
  pub images : ℕ → Option ItemImage

-- `postgresTx`, with the tables as the transaction sees them
pub record Tx : Type 0 where
  pub tables : Tables
  pub locked : ℕ → Option Order
  pub related : ℕ → Bool
  pub applied : ℕ → Bool
  pub callers : ℕ → Method → Bool
  pub creation_baselines : ℕ → Option CreationWorkflow

abbrev pub Work : Type 0 → Type 0
Work A = Transaction Tx Failure A

abbrev pub begin : Tables → Tx
begin s = record {
  tables = s;
  locked = λ id. none;
  related = λ id. false;
  applied = λ id. false;
  callers = λ caller method. false;
  creation_baselines = λ id. none;
}

abbrev pub conclude :
    {A : Type 0} → Option Failure → Tables → Result Failure (A × Tx) → Result Failure A × Tables
conclude none s (ok (a, t)) = (ok a, t.tables)
conclude (some e) s (ok (a, t)) = (err e, s)
conclude commit s (err e) = (err e, s)

-- `within`. `commit` is the error of the commit, if it fails.
unfoldable pub within : {A : Type 0} → Option Failure → Work A → Tables → Result Failure A × Tables
within commit f s = conclude commit s (f (begin s))

abbrev pub lock_row : Order → Tx → Tx
lock_row o t = record t { locked = λ id. if id == o.id then some o else t.locked id }

-- `LockOrder`
unfoldable pub lock_order : ℕ → Work Order
lock_order id t = elim (lookup id t.tables.orders) [
  | none ↦ err (policy not_found)
  | some o ↦ ok (o, lock_row o t)
]

-- The rows of `OrderOffers`, in the order they were written in.
abbrev pub offers_of : ℕ → List Offer → List Offer
offers_of id [] = []
offers_of id (f ∷ fs) = let rest = offers_of id fs in if f.order_id == id then f ∷ rest else rest

-- `Relationships`
unfoldable pub relationships : ℕ → Work (List Offer)
relationships id t =
    if not (is_some (t.locked id))
    then err (policy precondition)
    else ok (
      offers_of id t.tables.offers,
      record t { related = λ j. if j == id then true else t.related j },
    )
