-- ===== src/Order/Creation/Steps/Claims.antt =====
-- The claim of a creation step.
use fo_c.Base.{
  ℕ, ◌≡◌, refl, sym, ap, ◌∙◌, Bool, true, false, Option, none, some, Result, ok, err, if◌then◌else◌,
  arith,
}
use mathlib.Core.Path.{subst}
use fo_c.Base.Dict.{lookup}
use fo_c.Base.Transaction.{Ensures, Ensures-map, >>=-Ensures, if-Ensures, from_result, pure, ◌>>=◌}
use fo_c.Order.Types.{Order}
use fo_c.Order.Workflow.{Failure, CreationWorkflow}
use fo_c.Order.Store.{Tables, Tx, Work, begin, conclude, within, lock_order, lock_row}
use fo_c.Order.Store.Creations.{try_lock_creation_order, lock_creation, save_creation, remember}
use fo_c.Order.Store.Laws.Creations.{save_creation-Saved, lock_order-Locks, lock_creation-Locks}
use fo_c.Order.Creation.{claim_of, save_claim, claim_locked, claim, is_not_found}
use fo_c.Order.Creation.Fits.{fits}
use fo_c.Order.Creation.Linked.{Keyed, Linked}
use fo_c.Order.Creation.Follows.{Advances, Advances-refl}
use fo_c.Order.Creation.Held.{
  lock_row-LocksRows, Held, begin-LocksRows, remember-Held, save-Advances,
}

abbrev pub Kept : Tables → {A : Type 0} → A → Tx → Type 0
Kept s a t = Advances s t.tables

-- A commit or a roll back keeps what the transaction keeps.
pub within-Advances :
    {A : Type 0} (commit : Option Failure) (f : Work A) (s : Tables)
    → Linked s
    → Ensures (Kept s) (f (begin s))
    → Advances s (within commit f s).1
unfolding within
within-Advances {A} commit f s linked h = go commit (f (begin s)) h
  where
    go :
        (commit : Option Failure) (r : Result Failure (A × Tx))
        → Ensures (Kept s) r
        → Advances s (conclude commit s r).1
    go none (ok (a, t)) h = h
    go none (err e) h = Advances-refl s linked
    go (some e) (ok (a, t)) h = Advances-refl s linked
    go (some e) (err e') h = Advances-refl s linked

claimed-fits :
    (now : ℕ) (o : Order) (w v : CreationWorkflow)
    → claim_of now o w ≡ ok (some v)
    → (v.id ≡ w.id) × (fits v.phase o.status ≡ true)
unfolding claim_of
claimed-fits now o w v h = (ground arith, ground arith)

module _ (s : Tables) (linked : Linked s) where
  save_claim-Advances :
      (id now : ℕ) (o : Order) (w : CreationWorkflow) (t : Tx)
      → Held s id o w t
      → (r : Result Failure (Option CreationWorkflow)) → claim_of now o w ≡ r
      → Ensures (Kept s) ((from_result r >>= save_claim w.generation) t)
  save_claim-Advances id now o w t held (err e) h = tt
  save_claim-Advances id now o w t held (ok none) h =
      subst (Advances s) (sym held.same_tables) (Advances-refl s linked)
  save_claim-Advances id now o w t held (ok (some v)) h =
      let (same_id, fit) = claimed-fits now o w v h in
      let same = held.same_tables in
      >>=-Ensures (Kept s) (Kept s) (save_creation v w.generation) (λ u. pure (some v)) t
        (Ensures-map (save_creation v w.generation t)
          (λ u t' saved.
            save-Advances s linked id w v held.found same_id t (ap (λ q. q.creations) same)
              (ap (λ q. q.creation_orders) same) held.is_baseline w.generation t' saved
              (subst Keyed (sym same) linked.keyed) o
              (ap (λ q. lookup id q.orders) same ∙ held.order_found) fit
              (λ j other. ap (λ q. lookup j q.orders) same))
          (save_creation-Saved v w.generation t))
        (λ u t' h'. h')

  claim_locked-Advances :
      (id now : ℕ) (o : Order)
      → lookup id s.orders ≡ some o
      → Ensures (Kept s) (claim_locked id now o (lock_row o (begin s)))
  unfolding claim_locked
  claim_locked-Advances id now o found =
      let t = lock_row o (begin s) in
      let locks =
        lock_row-LocksRows s id o (begin s) (linked.keyed id o found) found (begin-LocksRows s) in
      >>=-Ensures (λ w t'. (s.creations id ≡ some w) × (t' ≡ remember w t)) (Kept s)
        (lock_creation id) (λ w. from_result (claim_of now o w) >>= save_claim w.generation) t
        (lock_creation-Locks id t)
        (λ w t' (at, e).
          save_claim-Advances id now o w t'
            (subst (Held s id o w) (sym e) (remember-Held s id o w t refl found at locks))
            (claim_of now o w) refl)

  pub claim-Advances :
      (contended : Bool) (id now : ℕ) → Ensures (Kept s) (claim contended id now (begin s))
  unfolding claim try_lock_creation_order
  claim-Advances true id now = Advances-refl s linked
  claim-Advances false id now = go (lock_order id (begin s)) (lock_order-Locks id (begin s))
    where
      go :
          (r : Result Failure (Order × Tx))
          → Ensures (λ o t. (lookup id s.orders ≡ some o) × (t ≡ lock_row o (begin s))) r
          → Ensures (Kept s) (elim r [
            | err e ↦ if is_not_found e then ok (none, begin s) else err e
            | ok (o, t') ↦ claim_locked id now o t'
          ])
      go (err e) h =
          if-Ensures (Kept s) (is_not_found e) (ok (none, begin s)) (err e) (Advances-refl s linked)
            tt
      go (ok (o, t)) (found, e) =
          subst (λ q. Ensures (Kept s) (claim_locked id now o q)) (sym e)
            (claim_locked-Advances id now o found)
