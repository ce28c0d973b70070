-- ===== src/Order/Creation/Linked.antt =====
-- The invariant that ties the creation workflows to their orders, and what keeps it: a write of an
-- order whose new status still fits, and a write of a workflow together with its order.
use fo_c.Base.{ℕ, ◌≡◌, sym, ap, ◌∙◌, true, false, Option, some, ◌==◌, Bool-cases, inl, inr, arith}
use fo_c.Base.Dict.{lookup, insert, lookup-insert_at, lookup-insert_off, put, put-at, put-off}
use fo_c.Order.Types.{Order}
use fo_c.Order.Workflow.{CreationWorkflow}
use fo_c.Order.Store.{Tables}
use fo_c.Order.Store.Creations.{creation_check}
use fo_c.Order.Creation.Fits.{fits}

-- A row is found under its id.
abbrev pub Keyed : Tables → Type 0
Keyed s = (id : ℕ) → (o : Order) → lookup id s.orders ≡ some o → o.id ≡ id

-- A workflow is found under its order's id, and its own id finds that order.
abbrev pub Indexed : Tables → Type 0
Indexed s =
    (id : ℕ)
    → (w : CreationWorkflow) → s.creations id ≡ some w
    → (w.order_id ≡ id) × (s.creation_orders w.id ≡ some id)

-- A workflow's order is there, with a status that fits.
abbrev pub Fitting : Tables → Type 0
Fitting s =
    (id : ℕ)
    → (w : CreationWorkflow) → s.creations id ≡ some w
    → (o : Order) × (lookup id s.orders ≡ some o) × (fits w.phase o.status ≡ true)

-- A workflow passes the CHECKs of its table.
abbrev pub Checked : Tables → Type 0
Checked s = (id : ℕ) → (w : CreationWorkflow) → s.creations id ≡ some w → creation_check w ≡ true

pub record Linked (s : Tables) : Type 0 where
  pub keyed : Keyed s
  pub indexed : Indexed s
  pub fitting : Fitting s
  pub checked : Checked s

pub some_injective : {A : Type 0} {a b : A} → some a ≡ some b → a ≡ b
some_injective h = cc

pub same_key : (i j : ℕ) → i == j ≡ true → i ≡ j
same_key i j h = ground arith

module _ (s : Tables) (linked : Linked s) (id : ℕ) (row : Order) (is_row : row.id ≡ id) where
  pub insert-Keyed : (j : ℕ) (o : Order) → lookup j (insert id row s.orders) ≡ some o → o.id ≡ j
  insert-Keyed j o h = elim (Bool-cases (id == j)) [
    | inl same ↦
        sym (ap (λ q. q.id) (some_injective (sym (lookup-insert_at id j row s.orders same) ∙ h)))
        ∙ is_row
        ∙ same_key id j same
    | inr other ↦ linked.keyed j o (sym (lookup-insert_off id j row s.orders other) ∙ h)
  ]

  insert-fitting :
      ((w : CreationWorkflow) → s.creations id ≡ some w → fits w.phase row.status ≡ true)
      → (j : ℕ) (w : CreationWorkflow) → s.creations j ≡ some w
      → (o : Order) × (lookup j (insert id row s.orders) ≡ some o) × (fits w.phase o.status ≡ true)
  insert-fitting still j w h = elim (Bool-cases (id == j)) [
    | inl same ↦ (
      row,
      lookup-insert_at id j row s.orders same,
      still w (ap s.creations (same_key id j same) ∙ h),
    )
    | inr other ↦
        let (o, found, fit) = linked.fitting j w h in
        (o, lookup-insert_off id j row s.orders other ∙ found, fit)
  ]

  -- A write of an order keeps the invariant where its new status still fits its creation.
  pub insert-Linked :
      (s' : Tables)
      → s'.orders ≡ insert id row s.orders
      → s'.creations ≡ s.creations
      → s'.creation_orders ≡ s.creation_orders
      → ((w : CreationWorkflow) → s.creations id ≡ some w → fits w.phase row.status ≡ true)
      → Linked s'
  insert-Linked s' orders creations ids still = record {
    keyed = λ j o h. insert-Keyed j o (sym (ap (lookup j) orders) ∙ h);
    indexed = λ j w h.
        let (key, index) = linked.indexed j w (sym (ap (λ f. f j) creations) ∙ h) in
        (key, ap (λ f. f w.id) ids ∙ index);
    fitting = λ j w h.
        let (o, found, fit) = insert-fitting still j w (sym (ap (λ f. f j) creations) ∙ h) in
        (o, ap (lookup j) orders ∙ found, fit);
    checked = λ j w h. linked.checked j w (sym (ap (λ f. f j) creations) ∙ h);
  }

not_same : (i j : ℕ) {o : Option ℕ} → o ≡ some i → o ≡ some j → j == i ≡ false → ⊥
not_same i j h k other = ground arith

-- The workflow at another order has another id.
pub other_id :
    (s : Tables)
    → Linked s
    → (id : ℕ) (w : CreationWorkflow) → s.creations id ≡ some w
    → (j : ℕ) (v : CreationWorkflow) → s.creations j ≡ some v
    → j == id ≡ false
    → v.id == w.id ≡ false
other_id s linked id w found j v h other = elim (Bool-cases (v.id == w.id)) [
  | inl same ↦ absurd (
      not_same id j ((linked.indexed id w found).1)
        (ap s.creation_orders (sym (same_key v.id w.id same)) ∙ (linked.indexed j v h).1) other)
  | inr apart ↦ apart
]

-- A write of a workflow together with its order keeps the invariant where the two fit.
module _ (s s' : Tables) (linked : Linked s) (id : ℕ) (w : CreationWorkflow)
    (is_own : w.order_id ≡ id) (creations : s'.creations ≡ put id w s.creations)
    (ids : s'.creation_orders ≡ put w.id id s.creation_orders) where
  at_own : (v : CreationWorkflow) → s'.creations id ≡ some v → w ≡ v
  at_own v h =
      some_injective
        (sym (put-at id id w s.creations (ground arith)) ∙ sym (ap (λ f. f id) creations) ∙ h)

  at_other :
      (j : ℕ) (v : CreationWorkflow)
      → j == id ≡ false
      → s'.creations j ≡ some v
      → s.creations j ≡ some v
  at_other j v other h = sym (put-off id j w s.creations other) ∙ sym (ap (λ f. f j) creations) ∙ h

  own-Indexed :
      (j : ℕ) (v : CreationWorkflow)
      → j ≡ id
      → w ≡ v
      → (v.order_id ≡ j) × (s'.creation_orders v.id ≡ some j)
  own-Indexed j v same is_w = (
    sym (ap (λ u. u.order_id) is_w) ∙ is_own ∙ sym same,
    ap (λ u. s'.creation_orders u.id) (sym is_w)
        ∙ ap (λ f. f w.id) ids
        ∙ put-at w.id w.id id s.creation_orders (ground arith)
        ∙ ap some (sym same),
  )

  write-Indexed :
      ((j : ℕ)
        → (v : CreationWorkflow) → s.creations j ≡ some v
        → j == id ≡ false
        → v.id == w.id ≡ false)
      → Indexed s'
  write-Indexed fresh j v h = elim (Bool-cases (j == id)) [
    | inl same ↦
        let key = same_key j id same in
        own-Indexed j v key (at_own v (ap s'.creations (sym key) ∙ h))
    | inr other ↦
        let before = at_other j v other h in
        let (key, index) = linked.indexed j v before in
        (
          key,
          ap (λ f. f v.id) ids
              ∙ put-off w.id v.id id s.creation_orders (fresh j v before other)
              ∙ index,
        )
  ]

  write-Fitting :
      (o : Order)
      → lookup id s'.orders ≡ some o
      → fits w.phase o.status ≡ true
      → ((j : ℕ) → j == id ≡ false → lookup j s'.orders ≡ lookup j s.orders)
      → Fitting s'
  write-Fitting o found fit others j v h = elim (Bool-cases (j == id)) [
    | inl same ↦
        let key = same_key j id same in
        let is_w = at_own v (ap s'.creations (sym key) ∙ h) in
        (
          o,
          ap (λ i. lookup i s'.orders) key ∙ found,
          ap (λ u. fits u.phase o.status) (sym is_w) ∙ fit,
        )
    | inr other ↦
        let (q, at, fit') = linked.fitting j v (at_other j v other h) in
        (q, others j other ∙ at, fit')
  ]

  write-Checked : creation_check w ≡ true → Checked s'
  write-Checked passes j v h = elim (Bool-cases (j == id)) [
    | inl same ↦
        sym (ap creation_check (at_own v (ap s'.creations (sym (same_key j id same)) ∙ h))) ∙ passes
    | inr other ↦ linked.checked j v (at_other j v other h)
  ]

  pub write-Linked :
      creation_check w ≡ true
      → ((j : ℕ)
          → (v : CreationWorkflow) → s.creations j ≡ some v
          → j == id ≡ false
          → v.id == w.id ≡ false)
      → Keyed s'
      → (o : Order) → lookup id s'.orders ≡ some o
      → fits w.phase o.status ≡ true
      → ((j : ℕ) → j == id ≡ false → lookup j s'.orders ≡ lookup j s.orders)
      → Linked s'
  write-Linked passes fresh keyed o found fit others = record {
    keyed = keyed;
    indexed = write-Indexed fresh;
    fitting = write-Fitting o found fit others;
    checked = write-Checked passes;
  }
