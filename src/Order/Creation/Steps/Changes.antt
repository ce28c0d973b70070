-- ===== src/Order/Creation/Steps/Changes.antt =====
-- The local writes of an order that settle no creation.
use fo_c.Base.{
  ℕ, ◌≡◌, refl, sym, ap, ◌∙◌, true, false, Option, none, some, Result, ok, err, List, arith,
}
use mathlib.Core.Path.{subst}
use fo_c.Base.Int.{pos, eqb_ℤ}
use fo_c.Base.Dict.{lookup, insert}
use fo_c.Base.Transaction.{Ensures, Ensures-map, >>=-Ensures, from_result, ◌>>=◌}
use fo_c.Order.Types.{Order, Offer, OrderError, Texts}
use fo_c.Order.Facts.{Change, lifecycle_error}
use fo_c.Order.Mutations.{check_change}
use fo_c.Order.Workflow.{CreationWorkflow}
use fo_c.Order.Store.{Tables, Tx, begin, lock_order, lock_row, relationships}
use fo_c.Order.Store.Validate.{blank_ids}
use fo_c.Order.Store.Apply.{apply}
use fo_c.Order.Store.Mutate.{lift, apply_some, mutate}
use fo_c.Order.Store.Laws.{spine}
use fo_c.Order.Store.Laws.Applied.{
  IsRow, is_new, is_update, Applied, apply-Applied, baseline-locked, valid-passes,
}
use fo_c.Order.Store.Laws.Creations.{lock_order-Locks, relationships-Keeps}
use fo_c.Order.Creation.Fits.{fits, settles, change-fits}
use fo_c.Order.Creation.Linked.{Linked, some_injective, insert-Linked}
use fo_c.Order.Creation.Follows.{Advances, Advances-refl, same-Extends}
use fo_c.Order.Creation.Held.{LocksRows, lock_row-LocksRows, begin-LocksRows}
use fo_c.Order.Creation.Steps.Claims.{Kept}

some-none : {A : Type 0} {a : A} → some a ≡ none → ⊥
some-none h = cc

module _ (x : Texts) (s : Tables) (linked : Linked s) (t : Tx) (same : t.tables ≡ s)
    (locks : LocksRows s t) where
  -- What a validated change of a stored order was checked against.
  pub checked_against :
      (c : Change) (t' : Tx) (old : Order)
      → Applied x c t t'
      → eqb_ℤ c.expected_revision (pos 0) ≡ false
      → lookup c.order.id s.orders ≡ some old
      → lifecycle_error (blank_ids x) (some old) c.order c.actor c.action ≡ none
  checked_against c t' old done later found =
      let (current, locked, is_current) = baseline-locked c t done.before later done.is_baseline in
      let is_old = some_injective (sym (locks c.order.id current locked) ∙ found) in
      subst (λ b. lifecycle_error (blank_ids x) b c.order c.actor c.action ≡ none)
        (is_current ∙ ap some is_old) (valid-passes x done.before c done.is_valid)

  row-fits :
      (c : Change) (t' : Tx) (row : Order)
      → settles c.action ≡ false
      → Applied x c t t'
      → IsRow c (lookup c.order.id s.orders) row
      → (w : CreationWorkflow) → s.creations c.order.id ≡ some w
      → (row.id ≡ c.order.id) × (fits w.phase row.status ≡ true)
  row-fits c t' row other done (is_new first absent) w h =
      let (o, found, fit) = linked.fitting c.order.id w h in absurd (some-none (sym found ∙ absent))
  row-fits c t' row other done (is_update old later found) w h =
      let (o, at, fit) = linked.fitting c.order.id w h in
      let is_old = some_injective (sym at ∙ found) in
      (
        refl,
        change-fits (blank_ids x) w.phase old c.order c.actor c.action other
            (checked_against c t' old done later found)
            (ap (λ q. fits w.phase q.status) (sym is_old) ∙ fit),
      )

  row-id :
      (c : Change) (found : Option Order) (row : Order) → IsRow c found row → row.id ≡ c.order.id
  row-id c found row (is_new first absent) = refl
  row-id c found row (is_update old later at) = refl

  -- A change that settles no creation keeps the invariant.
  pub apply-Advances : (c : Change) → settles c.action ≡ false → Ensures (Kept s) (apply x c t)
  apply-Advances c other = Ensures-map (apply x c t) (λ u t' done. go t' done) (apply-Applied x c t)
    where
      go : (t' : Tx) → Applied x c t t' → Advances s t'.tables
      go t' done =
          let (row, is_row, e) = done.stored in
          let is_row' = subst (λ q. IsRow c (lookup c.order.id q.orders) row) same is_row in
          let creations = ap (λ p. p.1) e ∙ ap (λ q. q.creations) same in
          record {
            linked =
                insert-Linked s linked c.order.id row
                  (row-id c (lookup c.order.id t.tables.orders) row is_row) t'.tables
                  (ap (λ p. p.0) e ∙ ap (λ q. insert c.order.id row q.orders) same) creations
                  (ap (λ p. p.2) e ∙ ap (λ q. q.creation_orders) same)
                  (λ w h. (row-fits c t' row other done is_row' w h).1);
            extends = same-Extends s t'.tables creations;
          }

check-passes :
    (x : Texts) (id : ℕ) (o : Order) (r : Result OrderError (Option Change)) (c : Change)
    → check_change x id o r ≡ ok (some c)
    → r ≡ ok (some c)
unfolding check_change
check-passes x id o (err e) c h = absurd (cc)
check-passes x id o (ok none) c h = absurd (cc)
check-passes x id o (ok (some d)) c h = ground arith

module _ (x : Texts) (id : ℕ) (build : Order → List Offer → Result OrderError (Option Change)) where
  -- What the write builds settles no creation.
  abbrev pub SettlesNone : Type 0
  SettlesNone =
      (o : Order)
      → (offers : List Offer) → (c : Change) → build o offers ≡ ok (some c)
      → settles c.action ≡ false

  module _ (s : Tables) (linked : Linked s) (none_settles : SettlesNone) where
    change-Advances :
        (o : Order) (offers : List Offer) (t : Tx)
        → t.tables ≡ s
        → LocksRows s t
        → (r : Result OrderError (Option Change)) → check_change x id o (build o offers) ≡ r
        → Ensures (Kept s) ((from_result (lift r) >>= apply_some x) t)
    change-Advances o offers t same locks (err e) h = tt
    change-Advances o offers t same locks (ok none) h =
        subst (Advances s) (sym same) (Advances-refl s linked)
    change-Advances o offers t same locks (ok (some c)) h =
        apply-Advances x s linked t same locks c
          (none_settles o offers c (check-passes x id o (build o offers) c h))

    pub mutate-Advances : Ensures (Kept s) (mutate x id build (begin s))
    unfolding mutate
    mutate-Advances =
        >>=-Ensures (λ o t. (lookup id s.orders ≡ some o) × (t ≡ lock_row o (begin s))) (Kept s)
          (lock_order id)
          (λ o. relationships id >>= λ offers.
            from_result (lift (check_change x id o (build o offers))) >>= apply_some x)
          (begin s) (lock_order-Locks id (begin s))
          (λ o t (found, e).
            >>=-Ensures
              (λ offers t'. (t'.tables ≡ t.tables) × (spine t' ≡ spine t) × (t'.locked ≡ t.locked))
              (Kept s) (relationships id)
              (λ offers. from_result (lift (check_change x id o (build o offers))) >>= apply_some x)
              t (relationships-Keeps id t)
              (λ offers t' (same, kept, locked).
                change-Advances o offers t' (same ∙ ap (λ q. q.tables) e)
                  (λ j q h.
                    lock_row-LocksRows s id o (begin s) (linked.keyed id o found) found
                      (begin-LocksRows s) j q
                      (sym (ap (λ f. f j) (locked ∙ ap (λ u. u.locked) e)) ∙ h))
                  (check_change x id o (build o offers)) refl))
