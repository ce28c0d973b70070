-- ===== src/Order/Creation/Settlement.antt =====
-- The settlement as a whole: what holds where it finds its claim superseded, and of the settlement of a
-- current claim, holds of the transaction.
use fo_c.Base.{ℕ, ◌≡◌, sym, ap, ◌∙◌, Bool, true, false, some, arith, Bool-cases, inl, inr}
use mathlib.Core.Path.{subst}
use fo_c.Base.Dict.{lookup}
use fo_c.Base.Transaction.{Ensures, >>=-Ensures, ◌>>=◌, ◌>>◌}
use fo_c.Order.Types.{pending_reservation, eqb_status, Order, Texts}
use fo_c.Order.Workflow.{CreationRejection, CreationWorkflow}
use fo_c.Order.Store.{Tables, Tx, begin, lock_order, lock_row, relationships}
use fo_c.Order.Store.Creations.{lock_creation, remember}
use fo_c.Order.Store.Laws.{spine}
use fo_c.Order.Store.Laws.Creations.{lock_order-Locks, relationships-Keeps, lock_creation-Locks}
use fo_c.Order.Creation.{Observation, is_superseded, settle_current, settle_locked, settle}
use fo_c.Order.Creation.Linked.{Linked}
use fo_c.Order.Creation.Held.{lock_row-LocksRows, Held, begin-LocksRows, remember-Held}

module _ (x : Texts) (message : CreationRejection → ℕ) (s : Tables) (linked : Linked s)
    (id now jitter : ℕ) (claimed : CreationWorkflow) (seen : Observation) (Q : Bool → Tx → Type 0)
    (stale : (o : Order)
      → (w : CreationWorkflow) → (t : Tx) → Held s id o w t
      → is_superseded now claimed w ≡ true
      → Q false t)
    (current : (o : Order)
      → (w : CreationWorkflow) → (t : Tx) → Held s id o w t
      → is_superseded now claimed w ≡ false
      → eqb_status o.status pending_reservation ≡ true
      → Ensures Q (settle_current x message now jitter seen o w t)) where
  locked-Ensures :
      (o : Order) (w : CreationWorkflow) (t : Tx)
      → Held s id o w t
      → Ensures Q (settle_locked x message now jitter claimed seen o w t)
  locked-Ensures o w t held = elim (Bool-cases (is_superseded now claimed w)) [
    | inl old ↦ ground (arith, old, stale o w t held old)
    | inr own ↦ elim (Bool-cases (eqb_status o.status pending_reservation)) [
      | inr moved ↦ ground (arith, own, moved)
      | inl waits ↦ ground (arith, own, waits, current o w t held own waits)
    ]
  ]

  pub settle-Ensures : Ensures Q (settle x message id now jitter claimed seen (begin s))
  unfolding settle
  settle-Ensures =
      let finish = settle_locked x message now jitter claimed seen in
      >>=-Ensures (λ o t. (lookup id s.orders ≡ some o) × (t ≡ lock_row o (begin s))) Q
        (lock_order id) (λ o. relationships id >> (lock_creation id >>= finish o)) (begin s)
        (lock_order-Locks id (begin s))
        (λ o t (found, e).
          >>=-Ensures
            (λ offers t'. (t'.tables ≡ t.tables) × (spine t' ≡ spine t) × (t'.locked ≡ t.locked)) Q
            (relationships id) (λ offers. lock_creation id >>= finish o) t
            (relationships-Keeps id t)
            (λ offers t' (same, kept, locked).
              >>=-Ensures (λ w t''. (t'.tables.creations id ≡ some w) × (t'' ≡ remember w t')) Q
                (lock_creation id) (finish o) t' (lock_creation-Locks id t')
                (λ w t'' (at, e').
                  let tables = same ∙ ap (λ q. q.tables) e in
                  locked-Ensures o w t'' (
                    subst (Held s id o w) (sym e') (
                      remember-Held s id o w t' tables found
                        (sym (ap (λ q. q.creations id) tables) ∙ at)
                        (λ j q h.
                          lock_row-LocksRows s id o (begin s) (linked.keyed id o found) found
                            (begin-LocksRows s) j q
                            (sym (ap (λ f. f j) (locked ∙ ap (λ u. u.locked) e)) ∙ h)))))))
