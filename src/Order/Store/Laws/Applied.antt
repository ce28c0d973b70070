-- ===== src/Order/Store/Laws/Applied.antt =====
-- What `apply` leaves: the row of the changed order, and every creation workflow as it was.
use fo_c.Base.{
  ℕ, Bool, true, false, not, Option, none, some, ⊤, Result, ok, err, ◌≡◌, inl, inr, refl, ap, ◌∙◌,
  ◌==◌, is_some, if◌then◌else◌, Option-cases, Bool-cases, arith,
}
use fo_c.Base.Int.{pos, eqb_ℤ}
use fo_c.Base.Dict.{lookup, insert}
use fo_c.Base.Transaction.{◌>>◌, Ensures, >>=-Ensures, Ensures-map, unless-Ensures, when-Ensures}
use fo_c.Order.Types.{Order, OrderError, invalid, conflict, Texts}
use fo_c.Order.Facts.{Change, new_change, lifecycle_error}
use fo_c.Order.Workflow.{Failure, policy, database}
use fo_c.Order.Store.{Tx, Work}
use fo_c.Order.Audit.{new_change-IsBuilt}
use fo_c.Order.Store.Validate.{is_other_request, agrees, blank_ids, validate_change}
use fo_c.Order.Store.History.{write_history}
use fo_c.Order.Store.Apply.{
  order_check, store_order, insert_order, update_order, kept_columns, write_order, write_offers,
  write_audit, write_facts, mark_applied, baseline, write_change, apply,
}
use fo_c.Order.Store.Laws.{
  Spine, spine, Keeps, write_history-Keeps, write_offers-Keeps, write_audit-Keeps,
  write_facts-Keeps,
}

-- The row that a change stores: that of a new order, or the old row with its fixed columns.
pub data IsRow (c : Change) (found : Option Order) : Order → Type 0 where
  is_new : eqb_ℤ c.expected_revision (pos 0) ≡ true → found ≡ none → IsRow c found c.order
  is_update :
      (old : Order)
      → eqb_ℤ c.expected_revision (pos 0) ≡ false
      → found ≡ some old
      → IsRow c found (kept_columns old c.order)

abbrev pub marked : ℕ → (ℕ → Bool) → ℕ → Bool
marked id applied j = if j == id then true else applied j

abbrev with_row : Change → Order → (ℕ → Bool) → Tx → Spine
with_row c row applied t = (
  insert c.order.id row t.tables.orders,
  t.tables.creations,
  t.tables.creation_orders,
  t.creation_baselines,
  applied,
)

abbrev pub Stores : Change → (ℕ → Bool) → Tx → ⊤ → Tx → Type 0
Stores c applied t u t' =
    (row : Order) × IsRow c (lookup c.order.id t.tables.orders) row
    × (spine t' ≡ with_row c row applied t)

none_of : (o : Option Order) → is_some o ≡ false → o ≡ none
none_of o h = ground arith

insert_order-Stores :
    (c : Change) (t : Tx)
    → eqb_ℤ c.expected_revision (pos 0) ≡ true
    → Ensures (Stores c t.applied t) (insert_order c.order t)
unfolding insert_order
insert_order-Stores c t first =
    let found = lookup c.order.id t.tables.orders in
    unless-Ensures (Stores c t.applied t) (is_some found) (policy conflict)
      (if order_check c.order then ok (tt, store_order c.order t) else err database)
      (λ h.
        when-Ensures (Stores c t.applied t) (order_check c.order) database
          (ok (tt, store_order c.order t)) (λ k. (c.order, is_new first (none_of found h), refl)))

update_order-Stores :
    (old : Order) (c : Change) (t : Tx)
    → eqb_ℤ c.expected_revision (pos 0) ≡ false
    → lookup c.order.id t.tables.orders ≡ some old
    → Ensures (Stores c t.applied t) (update_order old c t)
unfolding update_order
update_order-Stores old c t later found =
    let row = kept_columns old c.order in
    unless-Ensures (Stores c t.applied t) (not (eqb_ℤ old.revision c.expected_revision))
      (policy conflict) (if order_check row then ok (tt, store_order row t) else err database)
      (λ h.
        when-Ensures (Stores c t.applied t) (order_check row) database (ok (tt, store_order row t))
          (λ k. (row, is_update old later found, refl)))

write_order-Stores : (c : Change) (t : Tx) → Ensures (Stores c t.applied t) (write_order c t)
unfolding write_order
write_order-Stores c t = elim (Bool-cases (eqb_ℤ c.expected_revision (pos 0))) [
  | inl first ↦ ground (arith, first, insert_order-Stores c t first)
  | inr later ↦ elim (Option-cases (lookup c.order.id t.tables.orders)) [
    | inl absent ↦ ground (arith, later, absent)
    | inr (old, found) ↦ ground (arith, later, found, update_order-Stores old c t later found)
  ]
]

Stores-Keeps :
    (c : Change) (t t' : Tx) (m : Work ⊤)
    → Stores c t.applied t tt t'
    → Ensures (Keeps t') (m t')
    → Ensures (Stores c t.applied t) (m t')
Stores-Keeps c t t' m (row, is_row, e) k = Ensures-map (m t') (λ u t'' d. (row, is_row, d ∙ e)) k

keep :
    (c : Change) (t : Tx) (m : Work ⊤) (k : Work ⊤) (Q : ⊤ → Tx → Type 0)
    → ((t' : Tx) → Ensures (Keeps t') (k t'))
    → ((t' : Tx) → Stores c t.applied t tt t' → Ensures Q (m t'))
    → (t' : Tx) → Stores c t.applied t tt t'
    → Ensures Q ((k >> m) t')
keep c t m k Q keeps rest t' stored =
    >>=-Ensures (Stores c t.applied t) Q k (λ u. m) t' (Stores-Keeps c t t' k stored (keeps t'))
      (λ u. rest)

mark-Stores :
    (c : Change) (t t' : Tx)
    → Stores c t.applied t tt t'
    → Ensures (Stores c (marked c.order.id t.applied) t) (mark_applied c.order.id t')
mark-Stores c t t' (row, is_row, e) =
    (row, is_row, ap (λ (o, cs, ids, bs, a). (o, cs, ids, bs, marked c.order.id a)) e)

write_change-Stores :
    (before : Option Order) (c : Change) (t : Tx)
    → Ensures (Stores c (marked c.order.id t.applied) t) (write_change before c t)
unfolding write_change
write_change-Stores before c t =
    let Q = Stores c (marked c.order.id t.applied) t in
    let id = c.order.id in
    let mark = mark_applied id in
    let facts = write_facts c.order 0 c.facts >> mark in
    let audit = write_audit c >> facts in
    let offers = write_offers id c.offers >> audit in
    let after_facts =
      keep c t mark (write_facts c.order 0 c.facts) Q (write_facts-Keeps c.order 0 c.facts)
        (mark-Stores c t) in
    let after_audit = keep c t facts (write_audit c) Q (write_audit-Keeps c) after_facts in
    let after_offers =
      keep c t audit (write_offers id c.offers) Q (write_offers-Keeps id c.offers) after_audit in
    >>=-Ensures (Stores c t.applied t) Q (write_order c) (λ u. write_history before c >> offers) t
      (write_order-Stores c t)
      (λ u. keep c t offers (write_history before c) Q (write_history-Keeps before c) after_offers)

-- What a successful `apply` has checked, and what it left.
pub record Applied (x : Texts) (c : Change) (t t' : Tx) : Type 0 where
  pub before : Option Order
  pub is_baseline : baseline c t ≡ ok before
  pub is_valid : validate_change x before c ≡ none
  pub stored : Stores c (marked c.order.id t.applied) t tt t'

pub apply-Applied :
    (x : Texts) (c : Change) (t : Tx) → Ensures (λ u t'. Applied x c t t') (apply x c t)
unfolding apply
apply-Applied x c t =
    unless-Ensures (λ u t'. Applied x c t t') (t.applied c.order.id) (policy conflict)
      (elim (baseline c t) [
        | err e ↦ err e
        | ok before ↦ elim (validate_change x before c) [
          | some e ↦ err (policy e)
          | none ↦ write_change before c t
        ]
      ])
      (λ h. go (baseline c t) refl)
  where
    check :
        (before : Option Order) (r : Option OrderError)
        → baseline c t ≡ ok before
        → validate_change x before c ≡ r
        → Ensures
            (λ u t'. Applied x c t t')
            (elim r [ some e ↦ err (policy e) | none ↦ write_change before c t ])
    check before (some e) is_baseline is_valid = tt
    check before none is_baseline is_valid =
        Ensures-map (write_change before c t)
          (λ u t' stored. record {
            before = before;
            is_baseline = is_baseline;
            is_valid = is_valid;
            stored = stored;
          })
          (write_change-Stores before c t)

    go :
        (r : Result Failure (Option Order))
        → baseline c t ≡ r
        → Ensures
            (λ u t'. Applied x c t t')
            (elim r [
              | err e ↦ err e
              | ok before ↦ elim (validate_change x before c) [
                | some e ↦ err (policy e)
                | none ↦ write_change before c t
              ]
            ])
    go (err e) is_baseline = tt
    go (ok before) is_baseline = check before (validate_change x before c) is_baseline refl

-- A change of a stored order is checked against the locked row.
pub baseline-locked :
    (c : Change) (t : Tx) (before : Option Order)
    → eqb_ℤ c.expected_revision (pos 0) ≡ false
    → baseline c t ≡ ok before
    → (current : Order) × (t.locked c.order.id ≡ some current) × (before ≡ some current)
unfolding baseline
baseline-locked c t before later h = elim (Option-cases (t.locked c.order.id)) [
  | inl free ↦ absurd (ground (arith, free))
  | inr (current, locked) ↦ (current, locked, ground (arith, locked))
]

-- A valid change passes `NewChange`.
pub valid-passes :
    (x : Texts) (before : Option Order) (c : Change)
    → validate_change x before c ≡ none
    → lifecycle_error (blank_ids x) before c.order c.actor c.action ≡ none
unfolding validate_change
valid-passes x before c h =
    go (new_change (blank_ids x) before c.order c.actor c.action c.audit.details) refl h
  where
    go :
        (r : Result OrderError Change)
        → new_change (blank_ids x) before c.order c.actor c.action c.audit.details ≡ r
        → (if is_other_request before c.order then some invalid else elim r [
          | err e ↦ some e
          | ok expected ↦ if agrees expected c then none else some invalid
        ])
          ≡ none
        → lifecycle_error (blank_ids x) before c.order c.actor c.action ≡ none
    go (err e) built h = absurd (ground arith)
    go (ok expected) built h =
        (new_change-IsBuilt (blank_ids x) before c.order c.actor c.action c.audit.details expected
          built).passes
