-- ===== src/Order/Creation/Steps/Settles.antt =====
-- The settlement of a creation step.
use fo_c.Base.{
  ℕ, ◌≡◌, refl, sym, ap, ◌∙◌, Bool, true, false, Option, none, some, Result, ok, err, ⊤, ◌==◌,
  arith,
}
use mathlib.Core.Path.{subst}
use fo_c.Base.Dict.{lookup, insert, lookup-insert_self, lookup-insert_off}
use fo_c.Base.Transaction.{Ensures, Ensures-map, >>=-Ensures, from_result, pure, ◌>>=◌, ◌>>◌}
use fo_c.Order.Types.{pending_reservation, eqb_status, Order, OrderError, Texts}
use fo_c.Order.Facts.{Change}
use fo_c.Order.Workflow.{CreationRejection, CreationWorkflow, is_resolved_phase}
use fo_c.Order.Store.{Tables, Tx, begin}
use fo_c.Order.Store.Apply.{apply}
use fo_c.Order.Store.Mutate.{lift, apply_some}
use fo_c.Order.Store.Creations.{save_creation}
use fo_c.Order.Store.Laws.Applied.{apply-Applied}
use fo_c.Order.Store.Laws.Creations.{save_creation-Saved}
use fo_c.Order.Creation.{
  Observation, verdict, verdict_change, decided, settled_version, is_abort, is_superseded,
  settle_current, settle,
}
use fo_c.Order.Creation.Fits.{fits}
use fo_c.Order.Creation.Linked.{Keyed, Linked, insert-Keyed}
use fo_c.Order.Creation.Follows.{Advances, Advances-refl}
use fo_c.Order.Creation.Held.{Held, save-Advances}
use fo_c.Order.Creation.Verdicts.{row-status, verdict_change-fits, verdict_kept-fits, decided-id}
use fo_c.Order.Creation.Settlement.{settle-Ensures}
use fo_c.Order.Creation.Steps.Claims.{Kept}

flip : (i j : ℕ) → i == j ≡ false → j == i ≡ false
flip i j h = ground arith

unresolved :
    (now : ℕ) (claimed w : CreationWorkflow)
    → is_superseded now claimed w ≡ false
    → is_resolved_phase w.phase ≡ false
unresolved now claimed w h = ground arith

module _ (x : Texts) (message : CreationRejection → ℕ) where
  module _ (s : Tables) (linked : Linked s) (id now jitter : ℕ) (seen : Observation) (o : Order)
      (w : CreationWorkflow) where
    abbrev next : CreationWorkflow
    next =
        settled_version x message now jitter seen (verdict now seen w)
          (decided x message now o w (verdict now seen w))

    -- What the transaction leaves to the save: the order, if it changed, fits the phase to come.
    abbrev Ready : ⊤ → Tx → Type 0
    Ready u t =
        (q : Order) × (t.tables.creations ≡ s.creations)
        × (t.tables.creation_orders ≡ s.creation_orders)
        × (t.creation_baselines w.id ≡ some w)
        × Keyed t.tables
        × (lookup id t.tables.orders ≡ some q)
        × (fits next.phase q.status ≡ true)
        × ((j : ℕ) → j == id ≡ false → lookup j t.tables.orders ≡ lookup j s.orders)

    save-Ready :
        (again : Bool) (t : Tx)
        → s.creations id ≡ some w
        → Ready tt t
        → Ensures (Kept s) ((save_creation next w.generation >> pure again) t)
    save-Ready again t found (q, creations, ids, is_baseline, keyed, at, fit, others) =
        >>=-Ensures (Kept s) (Kept s) (save_creation next w.generation) (λ u. pure again) t
          (Ensures-map (save_creation next w.generation t)
            (λ u t' saved.
              save-Advances s linked id w next found
                (decided-id x message now o w (verdict now seen w)) t creations ids is_baseline
                w.generation t' saved keyed q at fit others)
            (save_creation-Saved next w.generation t))
          (λ u t' h. h)

    apply-Ready :
        (c : Change) (t : Tx)
        → Held s id o w t
        → verdict_change x message now o w (verdict now seen w) ≡ ok (some c)
        → Ensures Ready (apply x c t)
    apply-Ready c t held h =
        Ensures-map (apply x c t)
          (λ u t' done.
            let (row, is_row, e) = done.stored in
            let (same_id, fit) = verdict_change-fits x message now o w (verdict now seen w) c h in
            let key = same_id ∙ linked.keyed id o held.order_found in
            let same = held.same_tables in
            let (row_id, status) = row-status c (lookup c.order.id t.tables.orders) row is_row in
            let orders : t'.tables.orders ≡ insert id row s.orders =
              ap (λ p. p.0) e
              ∙ ap (λ q. insert c.order.id row q.orders) same
              ∙ ap (λ k. insert k row s.orders) key in
            (
              row,
              ap (λ p. p.1) e ∙ ap (λ q. q.creations) same,
              ap (λ p. p.2) e ∙ ap (λ q. q.creation_orders) same,
              ap (λ p. p.3 w.id) e ∙ held.is_baseline,
              λ j q at.
                  insert-Keyed s linked id row (row_id ∙ key) j q (sym (ap (lookup j) orders) ∙ at),
              ap (lookup id) orders ∙ lookup-insert_self id row s.orders,
              ap (λ q. fits next.phase q) status ∙ fit,
              λ j other.
                  ap (lookup j) orders ∙ lookup-insert_off id j row s.orders (flip j id other),
            ))
          (apply-Applied x c t)

    kept-Ready :
        (t : Tx)
        → Held s id o w t
        → is_resolved_phase w.phase ≡ false
        → eqb_status o.status pending_reservation ≡ true
        → verdict_change x message now o w (verdict now seen w) ≡ ok none
        → Ready tt t
    kept-Ready t held live waits h =
        let same = held.same_tables in
        (
          o,
          ap (λ q. q.creations) same,
          ap (λ q. q.creation_orders) same,
          held.is_baseline,
          subst Keyed (sym same) linked.keyed,
          ap (λ q. lookup id q.orders) same ∙ held.order_found,
          verdict_kept-fits x message now o w (verdict now seen w) h live waits,
          λ j other. ap (λ q. lookup j q.orders) same,
        )

    settle_current-Advances :
        (t : Tx)
        → Held s id o w t
        → is_resolved_phase w.phase ≡ false
        → eqb_status o.status pending_reservation ≡ true
        → Ensures (Kept s) (settle_current x message now jitter seen o w t)
    settle_current-Advances t held live waits =
        go (verdict_change x message now o w (verdict now seen w)) refl
      where
        again : Bool
        again = is_abort x message (verdict now seen w)

        go :
            (r : Result OrderError (Option Change))
            → verdict_change x message now o w (verdict now seen w) ≡ r
            → Ensures (Kept s) (
                (from_result (lift r) >>= λ change.
                apply_some x change >> (save_creation next w.generation >> pure again))
                  t)
        go (err e) h = tt
        go (ok none) h = save-Ready again t held.found (kept-Ready t held live waits h)
        go (ok (some c)) h =
            >>=-Ensures Ready (Kept s) (apply x c)
              (λ u. save_creation next w.generation >> pure again) t (apply-Ready c t held h)
              (λ u t'. save-Ready again t' held.found)

  module _ (s : Tables) (linked : Linked s) where
    pub settle-Advances :
        (id now jitter : ℕ) (claimed : CreationWorkflow) (seen : Observation)
        → Ensures (Kept s) (settle x message id now jitter claimed seen (begin s))
    settle-Advances id now jitter claimed seen =
        settle-Ensures x message s linked id now jitter claimed seen (Kept s)
          (λ o w t held old. subst (Advances s) (sym held.same_tables) (Advances-refl s linked))
          (λ o w t held own waits.
            settle_current-Advances s linked id now jitter seen o w t held
              (unresolved now claimed w own) waits)
