-- ===== src/Order/Creation/Held.antt =====
-- A transaction that holds an order and its creation workflow: what it knows, and that saving the
-- workflow keeps the invariant where the saved phase fits the order.
use fo_c.Base.{ℕ, ◌≡◌, sym, ap, ◌∙◌, true, false, some, ◌==◌, arith, Bool-cases, inl, inr}
use mathlib.Core.Path.{subst}
use fo_c.Base.Dict.{lookup, put}
use fo_c.Order.Types.{Order}
use fo_c.Order.Workflow.{CreationWorkflow}
use fo_c.Order.Store.{Tables, Tx, begin, lock_row}
use fo_c.Order.Store.Creations.{
  creation_check, creation_by_id, remember, progressed, follows_baseline, store_creation,
}
use fo_c.Order.Store.Laws.Creations.{Saved}
use fo_c.Order.Creation.Fits.{fits}
use fo_c.Order.Creation.Follows.{Follows, Advances, may_follow-Follows, write-Extends}
use fo_c.Order.Creation.Linked.{Keyed, Linked, some_injective, same_key, other_id, write-Linked}

-- The locked rows are the stored ones.
abbrev pub LocksRows : Tables → Tx → Type 0
LocksRows s t = (j : ℕ) → (q : Order) → t.locked j ≡ some q → lookup j s.orders ≡ some q

pub lock_row-LocksRows :
    (s : Tables) (id : ℕ) (o : Order) (t : Tx)
    → o.id ≡ id
    → lookup id s.orders ≡ some o
    → LocksRows s t
    → LocksRows s (lock_row o t)
lock_row-LocksRows s id o t is_id found locks j q h = elim (Bool-cases (j == o.id)) [
  | inl same ↦
      let key = same_key j o.id same in
      ap (λ i. lookup i s.orders) (key ∙ is_id) ∙ found ∙ ground arith
  | inr other ↦ locks j q (ground arith)
]

pub record Held (s : Tables) (id : ℕ) (o : Order) (w : CreationWorkflow) (t : Tx) : Type 0 where
  pub same_tables : t.tables ≡ s
  pub order_found : lookup id s.orders ≡ some o
  pub found : s.creations id ≡ some w
  pub is_baseline : t.creation_baselines w.id ≡ some w
  pub locks : LocksRows s t

pub by_id-found :
    (s t : Tables)
    → Linked s
    → (id : ℕ) (w : CreationWorkflow) → s.creations id ≡ some w
    → t.creations ≡ s.creations
    → t.creation_orders ≡ s.creation_orders
    → creation_by_id w.id t ≡ some w
unfolding creation_by_id
by_id-found s t linked id w found creations ids =
    let index = ap (λ f. f w.id) ids ∙ (linked.indexed id w found).1 in
    let row = ap (λ f. f id) creations ∙ found in ground (arith, index, row)

-- Where `t` has the workflows of `s`, a save of `next` leaves the invariant if it fits the order.
module _ (s : Tables) (linked : Linked s) (id : ℕ) (w next : CreationWorkflow)
    (found : s.creations id ≡ some w) (same_id : next.id ≡ w.id) (t : Tx)
    (creations : t.tables.creations ≡ s.creations)
    (ids : t.tables.creation_orders ≡ s.creation_orders)
    (is_baseline : t.creation_baselines w.id ≡ some w) where
  pub Saved-row : (expected : ℕ) (t' : Tx) → (saved : Saved next expected t t') → saved.row ≡ w
  Saved-row expected t' saved = some_injective (
      sym saved.found
      ∙ ap (λ i. creation_by_id i t.tables) same_id
      ∙ by_id-found s t.tables linked id w found creations ids)

  Saved-Follows :
      (expected : ℕ) (t' : Tx) → Saved next expected t t' → Follows w (progressed w next)
  Saved-Follows expected t' saved = may_follow-Follows w next expected (
      sym
        (ap (λ b. follows_baseline b next expected) (ap t.creation_baselines same_id ∙ is_baseline))
      ∙ saved.follows)

  pub save-Advances :
      (expected : ℕ) (t' : Tx)
      → Saved next expected t t'
      → Keyed t.tables
      → (o : Order) → lookup id t.tables.orders ≡ some o
      → fits next.phase o.status ≡ true
      → ((j : ℕ) → j == id ≡ false → lookup j t.tables.orders ≡ lookup j s.orders)
      → Advances s t'.tables
  save-Advances expected t' saved keyed o at fit others =
      let (key, index) = linked.indexed id w found in
      let row = Saved-row expected t' saved in
      let after : Tables = (store_creation (progressed w next) t).tables in
      let stored : t' ≡ store_creation (progressed w next) t =
        saved.stored ∙ ap (λ v. store_creation (progressed v next) t) row in
      let written : after.creations ≡ put id (progressed w next) s.creations =
        ap (λ f. put w.order_id (progressed w next) f) creations
        ∙ ap (λ k. put k (progressed w next) s.creations) key in
      subst (λ q. Advances s q.tables) (sym stored)
        (record {
          linked =
              write-Linked s after linked id (progressed w next) key written
                (ap (λ f. put w.id w.order_id f) ids ∙ ap (λ k. put w.id k s.creation_orders) key)
                (sym (ap (λ v. creation_check (progressed v next)) row) ∙ saved.is_checked)
                (other_id s linked id w found) keyed o at fit others;
          extends =
              write-Extends s after id w (progressed w next) found written
                (Saved-Follows expected t' saved);
        })

pub begin-LocksRows : (s : Tables) → LocksRows s (begin s)
begin-LocksRows s j q h = absurd (cc)

pub remember-Held :
    (s : Tables) (id : ℕ) (o : Order) (w : CreationWorkflow) (t : Tx)
    → t.tables ≡ s
    → lookup id s.orders ≡ some o
    → s.creations id ≡ some w
    → LocksRows s t
    → Held s id o w (remember w t)
remember-Held s id o w t same order_found found locks = record {
  same_tables = same;
  order_found = order_found;
  found = found;
  is_baseline = ground arith;
  locks = locks;
}
