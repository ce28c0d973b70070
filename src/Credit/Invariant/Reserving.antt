-- ===== src/Credit/Invariant/Reserving.antt =====
-- `Reserve` keeps the invariant.
use fo_c.Base.{ℕ, ◌≡◌, refl, inl, inr, none, [], ◌∷◌, arith, Bool-cases}
use fo_c.Base.Int.{ℤ, pos, ◌+ℤ◌, ◌≤ℤ◌, ltb_ℤ, int_laws}
use fo_c.Base.Dict.{lookup, insert}
use fo_c.Credit.Types.{produced, Reservation}
use fo_c.Credit.Store.{Store, pure, store_row, ◌>>=◌, ◌>>◌, post, insert_reservation}
use fo_c.Credit.Operations.{reserve_new, reserve_tx, available_of, new_reservation, hold_entry}
use fo_c.Credit.Primitives.{insert_reservation_new}
use fo_c.Credit.Ensures.{Ensures, >>=-Ensures}
use fo_c.Credit.Ledger.{reserved_sum}
use fo_c.Credit.Ledger.Opening.{HasOpened, lock_accounts_one}
use fo_c.Credit.Invariant.{held_by, IsRow, Rows, Inv}
use fo_c.Credit.Invariant.Tables.{recorded_row, Rows-insert}
use fo_c.Credit.Invariant.Posting.{Inv-opened, post-Inv, held_by-insert_new}

module _ (order requester : ℕ) (amount : ℤ) (now : ℕ) (positive : pos 1 ≤ℤ amount) where
  abbrev row : Reservation
  row = new_reservation order requester amount now

  new_row : (s : Store) → IsRow s.assignments order row
  new_row s = record {
    keyed = refl;
    shape = record {
      requester = requester;
      has_requester = refl;
      amount_pos = positive;
      holds_original = refl;
      no_assignment = refl;
      no_settlement = refl;
    };
  }

  module _ (s t : Store) (inv : Inv s) (opened : (u : ℕ) → HasOpened u s t)
      (new : lookup order s.reservations ≡ none) where
    new_in : lookup order t.reservations ≡ none
    new_in = rw ((opened 0).orders.same_reservations) new

    new_holds :
        (u : ℕ)
        → held_by u (insert order row t.reservations)
          ≡ held_by u s.reservations +ℤ reserved_sum u (hold_entry order requester amount ∷ [])
    new_holds u = grind (
      int_laws,
      held_by-insert_new u order row t.reservations new_in,
      (opened 0).orders.same_reservations,
    )

    new-Rows : Rows (insert order row t.reservations) t.assignments (recorded_row row t.revisions)
    new-Rows =
        Rows-insert t.reservations t.assignments t.assignments t.revisions order
          (Inv-opened s t inv opened).rows (λ o _ i. refl) row (new_row t)
          (λ i a h p.
            let (r, known, _) = (Inv-opened s t inv opened).rows.applied_once order i a h p in
            absurd (cc new_in))
          new_in

    stored_new :
        Ensures
          (λ _ v. Inv v)
          ((do
            next ← insert_reservation row
            post (hold_entry order requester amount ∷ [])
            pure (produced next))
            t)
    stored_new =
        rw (insert_reservation_new row t new_in, ◌>>=◌)
          (>>=-Ensures (λ _ v. Inv v) (λ _ v. Inv v) (post (hold_entry order requester amount ∷ []))
            (λ _. pure (produced row)) (store_row row t)
            (post-Inv (hold_entry order requester amount ∷ []) s t (store_row row t) inv opened refl
              refl (grind int_laws) new_holds new-Rows)
            (λ _ v h. h))

  reserve_new-Inv :
      (s : Store)
      → Inv s
      → lookup order s.reservations ≡ none
      → Ensures (λ _ v. Inv v) (reserve_new order requester amount now s)
  unfolding reserve_new
  reserve_new-Inv s inv new =
      let (accounts, t, e, _, opened) = lock_accounts_one requester s in
      rw (e, ◌>>=◌)
        (elim (Bool-cases (ltb_ℤ (available_of accounts requester) amount)) [
          | inl short ↦ rw short (Inv-opened s t inv opened)
          | inr enough ↦ rw enough (stored_new s t inv opened new)
        ])

-- Reserving keeps the invariant, whichever way it ends.
pub reserve_tx-Inv :
    (order requester : ℕ) (amount : ℤ) (now : ℕ) (s : Store)
    → pos 1 ≤ℤ amount
    → Inv s
    → Ensures (λ _ v. Inv v) (reserve_tx order requester amount now s)
unfolding reserve_tx
reserve_tx-Inv order requester amount now s positive inv =
    ground (arith, reserve_new-Inv order requester amount now positive s inv)
