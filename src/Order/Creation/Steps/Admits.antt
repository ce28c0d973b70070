-- ===== src/Order/Creation/Steps/Admits.antt =====
-- The admission of a creation.
use fo_c.Base.{
  ℕ, suc, ◌-◌, ◌*◌, ◌≡◌, refl, sym, ap, ◌∙◌, true, false, not, ◌||◌, Option, none, some, Result, ok,
  err, List, [], ◌∷◌, ⊤, ◌==◌, arith, if◌then◌else◌, Bool-cases, inl, inr, is_some, leb,
}
use fo_c.Base.Int.{pos, eqb_ℤ}
use fo_c.Base.Dict.{lookup, insert, lookup-insert_self}
use fo_c.Base.Transaction.{
  Ensures, Ensures-map, >>=-Ensures, from_result, pure, reject, reject-Ensures, unless-Ensures,
  ◌>>=◌, ◌>>◌,
}
use fo_c.Order.Types.{Order, OrderError, invalid, conflict, create, Texts}
use fo_c.Order.Facts.{Change, new_change}
use fo_c.Order.Audit.{new_change-IsBuilt}
use fo_c.Order.Offers.{create_order}
use fo_c.Order.Images.{ItemImage}
use fo_c.Order.Workflow.{
  Failure, policy, database, rate_limited, reserve_pending, CreationWorkflow, IdempotencyKey,
  CreationReplay, creation_key,
}
use fo_c.Order.Store.{Tables, Tx, begin}
use fo_c.Order.Store.Apply.{apply}
use fo_c.Order.Store.Mutate.{lift}
use fo_c.Order.Store.Keys.{lock_idempotency_caller, insert_idempotency_key}
use fo_c.Order.Store.Images.{attach_image, attach_images, attach_creation_images}
use fo_c.Order.Store.Creations.{
  find_creation_key, count_recent_creations, creation_check, store_creation, insert_workflow,
  insert_creation,
}
use fo_c.Order.Store.Laws.Creations.{not-not}
use fo_c.Order.Store.Laws.{Keeps, >>-Keeps}
use fo_c.Order.Store.Laws.Applied.{IsRow, is_new, is_update, apply-Applied}
use fo_c.Order.Creation.{second}
use fo_c.Order.Creation.Fits.{fits}
use fo_c.Order.Creation.Linked.{Linked, same_key, insert-Linked, write-Linked}
use fo_c.Order.Creation.Follows.{
  Advances, Advances-refl, Extends-trans, same-Extends, insert-Extends,
}
use fo_c.Order.Creation.Admission.{
  Request, order_of, workflow_of, requester_of, replay_of, write_workflow, write_admission,
  admit_new, admit_unless, admit,
}
use fo_c.Order.Creation.Steps.Claims.{Kept}
use fo_c.Order.Creation.Steps.Finds.{spine-Advances, find_creation_key-Keeps}

attach_image-Keeps :
    (owner order n : ℕ) (item : ItemImage) (t : Tx)
    → Ensures (Keeps t) (attach_image owner order n item t)
unfolding attach_image
attach_image-Keeps owner order n item t = ground arith

attach_images-Keeps :
    (owner order n : ℕ) (items : List ItemImage) (t : Tx)
    → Ensures (Keeps t) (attach_images owner order n items t)
unfolding attach_images
attach_images-Keeps owner order n [] t = refl
attach_images-Keeps owner order n (item ∷ items) t =
    >>-Keeps (attach_image owner order n item) (attach_images owner order (suc n) items) t
      (attach_image-Keeps owner order n item t) (attach_images-Keeps owner order (suc n) items)

attach_creation_images-Keeps :
    (owner order : ℕ) (items : List ItemImage) (t : Tx)
    → Ensures (Keeps t) (attach_creation_images owner order items t)
unfolding attach_creation_images
attach_creation_images-Keeps owner order items t =
    ground (arith, attach_images-Keeps owner order 0 items t)

count-Keeps :
    (caller since : ℕ) (t : Tx) → Ensures (Keeps t) (count_recent_creations caller since t)
unfolding count_recent_creations
count-Keeps caller since t = ground arith

insert_key-Keeps : (k : IdempotencyKey) (t : Tx) → Ensures (Keeps t) (insert_idempotency_key k t)
unfolding insert_idempotency_key
insert_key-Keeps k t = ground arith

found_unused : {j : ℕ} → some j ≡ none → ⊥
found_unused h = cc

-- A stored workflow's id is not one that finds no order.
fresh_id :
    (s : Tables)
    → Linked s
    → (id : ℕ) → s.creation_orders id ≡ none
    → (j : ℕ) (v : CreationWorkflow) → s.creations j ≡ some v
    → v.id == id ≡ false
fresh_id s linked id unused j v h = elim (Bool-cases (v.id == id)) [
  | inl same ↦ absurd (
      found_unused
        (sym ((linked.indexed j v h).1) ∙ ap s.creation_orders (same_key v.id id same) ∙ unused))
  | inr apart ↦ apart
]

-- The order of the workflow is stored, and the workflow's first phase fits it.
abbrev Awaits : Tables → ℕ → {A : Type 0} → A → Tx → Type 0
Awaits s id a t =
    Advances s t.tables
    × ((o : Order) × (lookup id t.tables.orders ≡ some o) × (fits reserve_pending o.status ≡ true))

neither :
    {A B : Type 0} (o : Option A) (p : Option B)
    → is_some o || is_some p ≡ false
    → (o ≡ none) × (p ≡ none)
neither none none h = (refl, refl)
neither none (some b) h = absurd (cc)
neither (some a) p h = absurd (cc)

stored_absent : {A : Type 0} {a : A} → some a ≡ none → ⊥
stored_absent h = cc

insert_workflow-Advances :
    (s : Tables) (w : CreationWorkflow) (t : Tx)
    → w.phase ≡ reserve_pending
    → Awaits s w.order_id tt t
    → Ensures (Kept s) (insert_workflow w t)
unfolding insert_workflow
insert_workflow-Advances s w t first (before, (o, found, fit)) =
    unless-Ensures (Kept s) (not (creation_check w)) database
      (if is_some (t.tables.creation_orders w.id) || is_some (t.tables.creations w.order_id)
        then err (policy conflict)
        else present)
      (λ valid.
        unless-Ensures (Kept s)
          (is_some (t.tables.creation_orders w.id) || is_some (t.tables.creations w.order_id))
          (policy conflict) present
          (λ free.
            unless-Ensures (Kept s) (not (is_some (lookup w.order_id t.tables.orders))) database
              (ok (tt, store_creation w t))
              (λ there.
                inserted (not-not (creation_check w) valid)
                  (neither (t.tables.creation_orders w.id) (t.tables.creations w.order_id) free))))
  where
    after : Tables
    after = (store_creation w t).tables

    linked : Linked t.tables
    linked = before.linked

    inserted :
        creation_check w ≡ true
        → (t.tables.creation_orders w.id ≡ none) × (t.tables.creations w.order_id ≡ none)
        → Advances s after
    inserted passes (unused, absent) = record {
      linked =
          write-Linked t.tables after linked w.order_id w refl refl refl passes
            (λ j v h other. fresh_id t.tables linked w.id unused j v h) linked.keyed o found
            (ap (λ p. fits p o.status) first ∙ fit) (λ j other. refl);
      extends =
          Extends-trans s t.tables after before.extends
            (insert-Extends t.tables after w.order_id w absent refl);
    }

    present : Result Failure (⊤ × Tx)
    present =
        if not (is_some (lookup w.order_id t.tables.orders))
        then err database
        else ok (tt, store_creation w t)

insert_creation-Advances :
    (s : Tables) (w : CreationWorkflow) (key : ℕ) (t : Tx)
    → w.phase ≡ reserve_pending
    → Awaits s w.order_id tt t
    → Ensures (Kept s) (insert_creation w key t)
unfolding insert_creation
insert_creation-Advances s w key t first awaits =
    let inserted =
      >>=-Ensures (Kept s) (Kept s) (insert_workflow w)
        (λ u. insert_idempotency_key (creation_key w key)) t
        (insert_workflow-Advances s w t first awaits)
        (λ u t' linked.
          Ensures-map (insert_idempotency_key (creation_key w key) t')
            (λ v t'' e. spine-Advances s t' t'' e linked)
            (insert_key-Keeps (creation_key w key) t')) in
    ground (arith, inserted)

new_row :
    (c : Change) (found : Option Order) (row : Order)
    → eqb_ℤ c.expected_revision (pos 0) ≡ true
    → IsRow c found row
    → (row ≡ c.order) × (found ≡ none)
new_row c found row first (is_new zero absent) = (refl, absent)
new_row c found row first (is_update old later at) = absurd (cc)

-- The write of a new order
apply-Awaits :
    (s : Tables) (x : Texts) (r : Request) (c : Change) (t : Tx)
    → Advances s t.tables
    → new_change x none (order_of r) (requester_of r) create 0 ≡ ok c
    → Ensures (Awaits s r.order_id) (apply x c t)
apply-Awaits s x r c t before h =
    Ensures-map (apply x c t)
      (λ u t' done.
        let linked = before.linked in
        let built = new_change-IsBuilt x none (order_of r) (requester_of r) create 0 c h in
        let (row, is_row, e) = done.stored in
        let (is_order, absent) =
          new_row c (lookup c.order.id t.tables.orders) row
            (ap (λ n. eqb_ℤ n (pos 0)) built.follows) is_row in
        let is_own = is_order ∙ built.is_after in
        let key : c.order.id ≡ r.order_id = ap (λ q. q.id) built.is_after in
        let orders : t'.tables.orders ≡ insert r.order_id row t.tables.orders =
          ap (λ p. p.0) e ∙ ap (λ k. insert k row t.tables.orders) key in
        (
          record {
            linked =
                insert-Linked t.tables linked r.order_id row (ap (λ q. q.id) is_own) t'.tables
                  orders (ap (λ p. p.1) e) (ap (λ p. p.2) e)
                  (λ w at.
                    let (o, found, fit) = linked.fitting r.order_id w at in
                    absurd (
                      stored_absent
                        (sym found ∙ ap (λ k. lookup k t.tables.orders) (sym key) ∙ absent)));
            extends =
                Extends-trans s t.tables t'.tables before.extends
                  (same-Extends t.tables t'.tables (ap (λ p. p.1) e));
          },
          (
            row,
            ap (lookup r.order_id) orders ∙ lookup-insert_self r.order_id row t.tables.orders,
            ap (λ q. fits reserve_pending q.status) is_own,
          ),
        ))
      (apply-Applied x c t)

module _ (s : Tables) (x : Texts) (r : Request) where
  write_workflow-Advances :
      (t : Tx) → Awaits s r.order_id tt t → Ensures (Kept s) (write_workflow r t)
  unfolding write_workflow
  write_workflow-Advances t (linked, (o, found, fit)) =
      let insert = insert_creation (workflow_of r) r.input.key in
      >>=-Ensures (Keeps t) (Kept s) (attach_creation_images r.caller r.order_id r.images)
        (λ u. insert >> pure (replay_of r)) t
        (attach_creation_images-Keeps r.caller r.order_id r.images t)
        (λ u t' e.
          >>=-Ensures (Kept s) (Kept s) insert (λ v. pure (replay_of r)) t'
            (insert_creation-Advances s (workflow_of r) r.input.key t' refl
              (spine-Advances s t t' e linked, (o, ap (λ p. lookup r.order_id p.0) e ∙ found, fit)))
            (λ v t'' h. h))

  write_admission-Advances :
      (t : Tx) → Advances s t.tables → Ensures (Kept s) (write_admission x r t)
  unfolding write_admission
  write_admission-Advances t linked =
      go (new_change x none (order_of r) (requester_of r) create 0) refl
    where
      go :
          (b : Result OrderError Change)
          → new_change x none (order_of r) (requester_of r) create 0 ≡ b
          → Ensures (Kept s) ((from_result (lift b) >>= λ c. apply x c >> write_workflow r) t)
      go (err e) h = tt
      go (ok c) h =
          >>=-Ensures (Awaits s r.order_id) (Kept s) (apply x c) (λ u. write_workflow r) t
            (apply-Awaits s x r c t linked h) (λ u. write_workflow-Advances)

  admit_new-Advances : (t : Tx) → Advances s t.tables → Ensures (Kept s) (admit_new x r t)
  unfolding admit_new
  admit_new-Advances t linked =
      let late = leb r.input.expires_at r.now in
      let count = count_recent_creations r.caller (r.now - 60 * second) in
      >>=-Ensures (Keeps t) (Kept s) (reject late (policy invalid))
        (λ u. count >>= λ n. reject (leb 10 n) rate_limited >> write_admission x r) t
        (reject-Ensures (Keeps t) late (policy invalid) t (λ h. refl))
        (λ u t' e.
          >>=-Ensures (Keeps t') (Kept s) count
            (λ n. reject (leb 10 n) rate_limited >> write_admission x r) t'
            (count-Keeps r.caller (r.now - 60 * second) t')
            (λ n t'' d.
              >>=-Ensures (Keeps t'') (Kept s) (reject (leb 10 n) rate_limited)
                (λ v. write_admission x r) t''
                (reject-Ensures (Keeps t'') (leb 10 n) rate_limited t'' (λ h. refl))
                (λ v t''' c. write_admission-Advances t''' (
                  spine-Advances s t'' t''' c
                    (spine-Advances s t' t'' d (spine-Advances s t t' e linked))))))

  admit_unless-Advances :
      (existing : Option CreationReplay) (t : Tx)
      → Advances s t.tables
      → Ensures (Kept s) (admit_unless x r existing t)
  admit_unless-Advances (some replay) t linked = linked
  admit_unless-Advances none t linked = admit_new-Advances t linked

  pub admit-Advances : Linked s → Ensures (Kept s) (admit x r (begin s))
  unfolding admit lock_idempotency_caller
  admit-Advances linked =
      >>=-Ensures (Keeps (begin s)) (Kept s) (lock_idempotency_caller r.caller create_order)
        (λ u. find_creation_key r.caller r.input.key r.now >>= admit_unless x r) (begin s) refl
        (λ u t e.
          >>=-Ensures (Keeps t) (Kept s) (find_creation_key r.caller r.input.key r.now)
            (admit_unless x r) t (find_creation_key-Keeps r.caller r.input.key r.now t)
            (λ existing t' d.
              admit_unless-Advances existing t' (
                spine-Advances s t t' d (spine-Advances s (begin s) t e (Advances-refl s linked)))))
