-- ===== src/Order/Store/Laws/Reads.antt =====
-- What the locking reads of a transaction return of stored rows.
use fo_c.Base.{ℕ, ◌≡◌, refl, some, none, ok, ◌==◌, arith, if◌then◌else◌}
use fo_c.Base.Dict.{lookup}
use fo_c.Order.Types.{Order}
use fo_c.Order.Workflow.{CreationWorkflow}
use fo_c.Order.Store.{Tables, begin, lock_row, lock_order}
use fo_c.Order.Store.Creations.{remember, lock_creation}

module _ (s : Tables) (id : ℕ) (current : Order) where
  pub lock_order-reads :
      lookup id s.orders ≡ some current
      → lock_order id (begin s) ≡ ok (current, lock_row current (begin s))
  unfolding lock_order
  lock_order-reads at = rw (at) refl

  is_locked : current.id ≡ id → (if id == current.id then some current else none) ≡ some current
  is_locked is_own = ground arith

  pub lock_creation-reads :
      (w : CreationWorkflow)
      → current.id ≡ id
      → s.creations id ≡ some w
      → lock_creation id (lock_row current (begin s))
        ≡ ok (w, remember w (lock_row current (begin s)))
  unfolding lock_creation
  lock_creation-reads w is_own stored = rw (is_locked is_own, stored) refl
