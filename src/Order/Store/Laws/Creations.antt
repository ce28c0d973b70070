-- ===== src/Order/Store/Laws/Creations.antt =====
-- What the operations on orders and creation workflows found, and what they leave.
use fo_c.Base.{
  ℕ, Bool, true, false, not, ◌&&◌, Option, none, some, ⊤, ok, err, ◌≡◌, refl, if◌then◌else◌,
  Option-cases, inl, inr, arith, ◌==◌,
}
use fo_c.Base.Dict.{lookup}
use fo_c.Base.Transaction.{Ensures, unless-Ensures, when-Ensures}
use fo_c.Order.Types.{precondition, conflict}
use fo_c.Order.Workflow.{policy, database, CreationWorkflow, is_resolved_phase}
use fo_c.Order.Store.{Tx, lock_order, lock_row, relationships}
use fo_c.Order.Store.Creations.{
  creation_by_id, creation_check, store_creation, lock_creation, remember, progressed,
  update_workflow, follows_baseline, save_creation,
}
use fo_c.Order.Store.Laws.{spine}

pub lock_order-Locks :
    (id : ℕ) (t : Tx)
    → Ensures (λ o t'. (lookup id t.tables.orders ≡ some o) × (t' ≡ lock_row o t)) (lock_order id t)
unfolding lock_order
lock_order-Locks id t = elim (Option-cases (lookup id t.tables.orders)) [
  | inl absent ↦ ground (arith, absent)
  | inr (o, found) ↦ ground (arith, found)
]

pub relationships-Keeps :
    (id : ℕ) (t : Tx)
    → Ensures
        (λ offers t'. (t'.tables ≡ t.tables) × (spine t' ≡ spine t) × (t'.locked ≡ t.locked))
        (relationships id t)
unfolding relationships
relationships-Keeps id t = ground arith

pub lock_creation-Locks :
    (id : ℕ) (t : Tx)
    → Ensures (λ w t'. (t.tables.creations id ≡ some w) × (t' ≡ remember w t)) (lock_creation id t)
unfolding lock_creation
lock_creation-Locks id t = elim (Option-cases (t.tables.creations id)) [
  | inl absent ↦ ground (arith, absent)
  | inr (w, found) ↦ ground (arith, found)
]

-- What a successful `save_creation` has checked, and what it left.
pub record Saved (w : CreationWorkflow) (expected : ℕ) (t t' : Tx) : Type 0 where
  pub row : CreationWorkflow
  pub found : creation_by_id w.id t.tables ≡ some row
  pub at_generation : row.generation == expected ≡ true
  pub is_checked : creation_check (progressed row w) ≡ true
  pub follows : follows_baseline (t.creation_baselines w.id) w expected ≡ true
  pub resolves : is_resolved_phase w.phase && not (t.applied w.order_id) ≡ false
  pub stored : t' ≡ store_creation (progressed row w) t

pub not-not : (b : Bool) → not b ≡ false → b ≡ true
not-not b h = ground arith

pub save_creation-Saved :
    (w : CreationWorkflow) (expected : ℕ) (t : Tx)
    → Ensures (λ u t'. Saved w expected t t') (save_creation w expected t)
unfolding save_creation update_workflow
save_creation-Saved w expected t =
    unless-Ensures Q (not (follows_baseline (t.creation_baselines w.id) w expected))
      (policy conflict)
      (if is_resolved_phase w.phase && not (t.applied w.order_id)
        then err (policy precondition)
        else update_workflow w expected t)
      (λ follows.
        unless-Ensures Q (is_resolved_phase w.phase && not (t.applied w.order_id))
          (policy precondition) (update_workflow w expected t)
          (λ resolves. updates (not-not _ follows) resolves (creation_by_id w.id t.tables) refl))
  where
    Q : ⊤ → Tx → Type 0
    Q u t' = Saved w expected t t'

    updates :
        follows_baseline (t.creation_baselines w.id) w expected ≡ true
        → is_resolved_phase w.phase && not (t.applied w.order_id) ≡ false
        → (r : Option CreationWorkflow) → creation_by_id w.id t.tables ≡ r
        → Ensures Q (elim r [
          | none ↦ err (policy conflict)
          | some row ↦
              if not (row.generation == expected)
              then err (policy conflict)
              else if creation_check (progressed row w)
              then ok (tt, store_creation (progressed row w) t)
              else err database
        ])
    updates follows resolves none found = tt
    updates follows resolves (some row) found =
        unless-Ensures Q (not (row.generation == expected)) (policy conflict)
          (if creation_check (progressed row w)
            then ok (tt, store_creation (progressed row w) t)
            else err database)
          (λ current.
            when-Ensures Q (creation_check (progressed row w)) database
              (ok (tt, store_creation (progressed row w) t))
              (λ checked. record {
                row = row;
                found = found;
                at_generation = not-not _ current;
                is_checked = checked;
                follows = follows;
                resolves = resolves;
                stored = refl;
              }))
