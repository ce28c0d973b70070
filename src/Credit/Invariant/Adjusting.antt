-- ===== src/Credit/Invariant/Adjusting.antt =====
-- `AdjustReservation` keeps the invariant.
use fo_c.Base.{
  ℕ, ◌≡◌, refl, ap, ◌∙◌, inl, inr, none, some, List, [], ◌∷◌, arith, ◌==◌, Bool-cases, Option-cases,
}
use fo_c.Base.Int.{ℤ, ◌+ℤ◌, ◌-ℤ◌, ◌≤ℤ◌, ltb_ℤ, int_laws}
use fo_c.Base.Dict.{lookup, insert}
use fo_c.Credit.Types.{produced, held, assigned, Reservation, Assignment, Entry}
use fo_c.Credit.Store.{
  Store, pure, is_terminal, store_row, store_assignment, ◌>>=◌, ◌>>◌, post, update_reservation,
  insert_assignment,
}
use fo_c.Credit.Operations.{apply_offer, adjust_tx, available_of, offer_row, adjustment_entry}
use fo_c.Credit.Primitives.{next_row, update_reservation_open, insert_assignment_new}
use fo_c.Credit.Ensures.{Ensures, >>=-Ensures}
use fo_c.Credit.Ledger.{reserved_sum}
use fo_c.Credit.Ledger.Opening.{HasOpened, lock_accounts_one}
use fo_c.Credit.Invariant.{held_by, IsHeld, Shape-at, IsRow, Rows, Inv}
use fo_c.Credit.Invariant.Tables.{AppliedAt, recorded_row, Rows-update}
use fo_c.Credit.Invariant.Posting.{Inv-opened, post-Inv, held_by-move}

module _ (id courier : ℕ) (offer : ℤ) (now db_now : ℕ) (r : Reservation) where
  abbrev adjusted : Reservation
  adjusted =
      next_row db_now
        (record r { status = assigned; reserved_amount = offer; assignment_id = some id }) r

  abbrev offered : Assignment
  offered = offer_row r.order_id id courier offer now

  abbrev raise : ℕ → List Entry
  raise requester = adjustment_entry r.order_id id requester (offer -ℤ r.reserved_amount) ∷ []

  module _ (s t : Store) (inv : Inv s) (opened : (u : ℕ) → HasOpened u s t)
      (known : lookup r.order_id s.reservations ≡ some r) (is_held : r.status ≡ held)
      (fresh : s.assignments r.order_id id ≡ none) (covers : r.original_amount ≤ℤ offer) where
    before : IsHeld r
    before = Shape-at {t = held} (inv.rows.row r.order_id r known) is_held

    known_in : lookup r.order_id t.reservations ≡ some r
    known_in = rw ((opened 0).orders.same_reservations) known

    fresh_in : t.assignments r.order_id id ≡ none
    fresh_in = rw ((opened 0).orders.same_assignments) fresh

    abbrev assigned_store : Store
    assigned_store = store_assignment r.order_id id offered t

    adjusted_row : IsRow assigned_store.assignments r.order_id adjusted
    adjusted_row = record {
      keyed = refl;
      shape = record {
        requester = before.requester;
        has_requester = before.has_requester;
        amount_pos = before.amount_pos;
        holds_more = covers;
        has_offer = record {
          id = id;
          offer = offered;
          courier = courier;
          has_id = refl;
          has_row = ground arith;
          has_courier = refl;
          is_applied = refl;
        };
        holds_offer = refl;
        no_settlement = before.no_settlement;
      };
    }

    adjusted_at : AppliedAt r.order_id assigned_store.assignments adjusted
    adjusted_at i a h p = elim (Bool-cases (i == id)) [
      | inl same ↦ ground arith
      | inr other ↦
          let (q, found, e) =
            (Inv-opened s t inv opened).rows.applied_once r.order_id i a (ground arith) p in
          let same : q ≡ r = cc known_in in absurd (cc (e, same, before.no_assignment))
    ]

    adjusted_holds :
        (u requester : ℕ)
        → r.requester_id ≡ some requester
        → held_by u (insert r.order_id adjusted t.reservations)
          ≡ held_by u s.reservations +ℤ reserved_sum u (raise requester)
    adjusted_holds u requester e =
        held_by-move u r.order_id requester (offer -ℤ r.reserved_amount) adjusted r t.reservations
          known_in e e (grind int_laws)
        ∙ ap (λ d. held_by u d +ℤ reserved_sum u (raise requester))
            (opened 0).orders.same_reservations

    adjusted-Rows :
        Rows
          (insert r.order_id adjusted t.reservations)
          assigned_store.assignments
          (recorded_row adjusted t.revisions)
    adjusted-Rows =
        Rows-update t.reservations t.assignments assigned_store.assignments t.revisions r.order_id
          (Inv-opened s t inv opened).rows (λ o off i. ground arith) adjusted adjusted_row
          adjusted_at r known_in refl

    adjusted_post :
        (requester : ℕ)
        → r.requester_id ≡ some requester
        → Ensures
            (λ _ v. Inv v)
            ((do
              insert_assignment offered
              next ←
                  update_reservation db_now
                    (record r {
                      status = assigned;
                      reserved_amount = offer;
                      assignment_id = some id;
                    })
                    r.revision
              post (raise requester)
              pure (produced next))
              t)
    adjusted_post requester e =
        rw
          (
            insert_assignment_new offered t fresh_in,
            ◌>>=◌,
            update_reservation_open db_now
                (record r { status = assigned; reserved_amount = offer; assignment_id = some id }) r
                assigned_store known_in (ap is_terminal is_held),
            ◌>>=◌,
          )
          (>>=-Ensures (λ _ v. Inv v) (λ _ v. Inv v) (post (raise requester))
            (λ _. pure (produced adjusted)) (store_row adjusted assigned_store)
            (post-Inv (raise requester) s t (store_row adjusted assigned_store) inv opened refl refl
              (grind int_laws) (λ u. adjusted_holds u requester e) adjusted-Rows)
            (λ _ v h. h))

apply_offer-Inv :
    (r : Reservation) (id courier : ℕ) (offer : ℤ) (now db_now : ℕ) (s : Store)
    → Inv s
    → lookup r.order_id s.reservations ≡ some r
    → r.status ≡ held
    → s.assignments r.order_id id ≡ none
    → r.original_amount ≤ℤ offer
    → Ensures (λ _ v. Inv v) (apply_offer r id courier offer now db_now s)
unfolding apply_offer
apply_offer-Inv r id courier offer now db_now s inv known is_held fresh covers =
    let h : IsHeld r = Shape-at {t = held} (inv.rows.row r.order_id r known) is_held in
    let (accounts, t, e, _, opened) = lock_accounts_one h.requester s in
    let delta = offer -ℤ r.reserved_amount in
    rw (h.has_requester, ◌>>=◌, e, ◌>>=◌)
      (elim (Bool-cases (ltb_ℤ (available_of accounts h.requester) delta)) [
        | inl short ↦ rw short (Inv-opened s t inv opened)
        | inr enough ↦ rw enough (
            adjusted_post id courier offer now db_now r s t inv opened known is_held fresh covers
              h.requester h.has_requester)
      ])

-- Adjusting keeps the invariant, whichever way it ends.
pub adjust_tx-Inv :
    (order id courier : ℕ) (offer : ℤ) (now db_now : ℕ) (s : Store)
    → Inv s
    → Ensures (λ _ v. Inv v) (adjust_tx order id courier offer now db_now s)
unfolding adjust_tx
adjust_tx-Inv order id courier offer now db_now s inv =
    elim (Option-cases (lookup order s.reservations)) [
      | inl unknown ↦ rw unknown tt
      | inr (r, known) ↦
          let keyed : r.order_id ≡ order = (inv.rows.row order r known).keyed in
          rw known (
            ground (
              arith,
              apply_offer-Inv r id courier offer now db_now s inv,
              ap (λ o. s.assignments o id) keyed,
              ap (λ o. lookup o s.reservations) keyed,
            ))
    ]
