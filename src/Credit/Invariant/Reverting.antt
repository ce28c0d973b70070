-- ===== src/Credit/Invariant/Reverting.antt =====
-- `RevertAdjustment` keeps the invariant.
use fo_c.Base.{
  ◌⊎◌, not, ◌||◌, eqb_option, ℕ, ◌≡◌, ◌≢◌, refl, sym, ap, ◌∙◌, inl, inr, none, some, List, [], ◌∷◌,
  arith, if◌then◌else◌, Option-cases,
}
use mathlib.Core.Path.{subst}
use fo_c.Base.Int.{◌-ℤ◌, int_laws}
use fo_c.Base.Dict.{lookup, insert}
use fo_c.Credit.Types.{
  produced, held, assigned, released, settled, AdjustmentStatus, applied, reverted, is_reverted,
  Reservation, Assignment, Entry,
}
use fo_c.Credit.Store.{Store, pure, is_terminal, store_row, store_assignment, ◌>>=◌, post}
use fo_c.Credit.Operations.{is_assigned}
use fo_c.Credit.Release.{undo_offer, revert_found, revert_tx, reverted_tombstone, reversal_entry}
use fo_c.Credit.Primitives.{
  revert_assignment_applied, next_row, update_reservation_open, insert_assignment_new,
}
use fo_c.Credit.Ensures.{Ensures, >>=-Ensures}
use fo_c.Credit.Ledger.Opening.{HasOpened-refl}
use fo_c.Credit.Invariant.{IsAssigned, Shape, Shape-at, IsRow, Rows, Inv}
use fo_c.Credit.Invariant.Tables.{IsRow-extend, Rows-assign, AppliedAt, recorded_row, Rows-update}
use fo_c.Credit.Invariant.Posting.{Inv-orders, post-Inv, held_by-move}

eq_status : (t : AdjustmentStatus) → (t ≡ applied) ⊎ (t ≡ reverted)
eq_status applied = inl refl
eq_status reverted = inr refl

-- The store after the applied offer `a` is marked as reverted.
abbrev unapplied : Assignment → ℕ → Assignment
unapplied a now = record a { status = reverted; reverted_at = some now }

abbrev restored : Reservation → ℕ → Reservation
restored r db_now =
    next_row db_now
      (record r { status = held; reserved_amount = r.original_amount; assignment_id = none }) r

abbrev lower : Reservation → ℕ → ℕ → List Entry
lower r id requester =
    reversal_entry r.order_id id requester (r.original_amount -ℤ r.reserved_amount) ∷ []

module _ (s : Store) (inv : Inv s) (r : Reservation)
    (known : lookup r.order_id s.reservations ≡ some r) where
  is_row : IsRow s.assignments r.order_id r
  is_row = inv.rows.row r.order_id r known

  applied_id : AppliedAt r.order_id s.assignments r
  applied_id i a h p =
      let (q, found, e) = inv.rows.applied_once r.order_id i a h p in
      let same : q ≡ r = cc in rw (← same) e

  -- An offer that was never applied is fenced off.
  tombstone-Inv :
      (id now : ℕ)
      → s.assignments r.order_id id ≡ none
      → Inv (store_assignment r.order_id id (reverted_tombstone r.order_id id now) s)
  tombstone-Inv id now fresh =
      let asg' =
        (store_assignment r.order_id id (reverted_tombstone r.order_id id now) s).assignments in
      Inv-orders s (store_assignment r.order_id id (reverted_tombstone r.order_id id now) s) inv
        refl refl (λ u. refl)
        (Rows-assign s.reservations s.assignments asg' s.revisions r.order_id inv.rows
          (λ o off i. ground arith) r known
          (IsRow-extend s.assignments asg' r.order_id r (λ i a e. ground arith) is_row)
          (λ i a e p. ground (arith, applied_id i a)))

  module _ (id now : ℕ) (a : Assignment) (found : s.assignments r.order_id id ≡ some a)
      (was : a.status ≡ applied) where
    abbrev undone : Store
    undone = store_assignment r.order_id id (unapplied a now) s

    others : (o : ℕ) → o ≢ r.order_id → (i : ℕ) → undone.assignments o i ≡ s.assignments o i
    others o off i = ground arith

    -- No offer but this one was applied.
    none_left : AppliedAt r.order_id undone.assignments r
    none_left i b e p = ground (arith, applied_id i b, applied_id id a found was)

    was_only :
        (i : ℕ) (b : Assignment) → undone.assignments r.order_id i ≡ some b → b.status ≢ applied
    was_only i b e p = ground (arith, applied_id i b, applied_id id a found was)

    -- The offer of a released reservation: its hold is back already.
    released-Inv : r.status ≡ released → Inv undone
    released-Inv closed =
        Inv-orders s undone inv refl refl (λ u. refl)
          (Rows-assign s.reservations s.assignments undone.assignments s.revisions r.order_id
            inv.rows others r known
            (record {
              keyed = refl;
              shape =
                  subst (λ t. Shape undone.assignments r.order_id t r) (sym closed)
                    (Shape-at {t = released} is_row closed);
            })
            none_left)

    module _ (db_now : ℕ) (open_row : r.status ≡ assigned) where
      before : IsAssigned s.assignments r.order_id r
      before = Shape-at {t = assigned} is_row open_row

      restored-Rows :
          Rows
            (insert r.order_id (restored r db_now) s.reservations)
            undone.assignments
            (recorded_row (restored r db_now) s.revisions)
      restored-Rows =
          Rows-update s.reservations s.assignments undone.assignments s.revisions r.order_id
            inv.rows others (restored r db_now)
            (record {
              keyed = refl;
              shape = record {
                requester = before.requester;
                has_requester = before.has_requester;
                amount_pos = before.amount_pos;
                holds_original = refl;
                no_assignment = refl;
                no_settlement = before.no_settlement;
              };
            })
            (λ i b e p. absurd (was_only i b e p)) r known refl

      undo_offer-Inv : Ensures (λ _ v. Inv v) (undo_offer r id db_now undone)
      unfolding undo_offer
      undo_offer-Inv =
          rw
            (
              update_reservation_open db_now
                  (record r {
                    status = held;
                    reserved_amount = r.original_amount;
                    assignment_id = none;
                  })
                  r undone known (ap is_terminal open_row),
              ◌>>=◌,
              before.has_requester,
              ◌>>=◌,
            )
            (>>=-Ensures (λ _ v. Inv v) (λ _ v. Inv v) (post (lower r id before.requester))
              (λ _. pure (produced (restored r db_now))) (store_row (restored r db_now) undone)
              (post-Inv (lower r id before.requester) s s (store_row (restored r db_now) undone) inv
                (HasOpened-refl s) refl refl (grind int_laws)
                (λ u.
                  held_by-move u r.order_id before.requester
                    (r.original_amount -ℤ r.reserved_amount) (restored r db_now) r s.reservations
                    known before.has_requester before.has_requester (grind int_laws))
                restored-Rows)
              (λ _ v h. h))

    held_none : r.status ≡ held → r.assignment_id ≡ none
    held_none e = (Shape-at {t = held} is_row e).no_assignment

    applied-Inv :
        (db_now : ℕ)
        → r.status ≢ settled
        → Ensures
            (λ _ v. Inv v)
            ((if not (is_assigned r.status) || not (eqb_option r.assignment_id (some id))
                then pure (produced r)
                else undo_offer r id db_now)
              undone)
    applied-Inv db_now live =
        ground (arith, held_none, applied_id id a found was, released-Inv, undo_offer-Inv db_now)

  revert_found-Inv :
      (id now db_now : ℕ)
      → r.status ≢ settled
      → Ensures (λ _ v. Inv v) (revert_found r id now db_now s)
  unfolding revert_found
  revert_found-Inv id now db_now live = elim (Option-cases (s.assignments r.order_id id)) [
    | inl fresh ↦ ground (
      arith,
      insert_assignment_new (reverted_tombstone r.order_id id now) s fresh,
      tombstone-Inv id now fresh,
    )
    | inr (a, found) ↦ elim (eq_status a.status) [
      | inl was ↦ ground (
        arith,
        revert_assignment_applied r.order_id id now a s found (ap is_reverted was),
        applied-Inv id now a found was db_now live,
      )
      | inr undone ↦ ground arith
    ]
  ]

-- Reverting keeps the invariant, whichever way it ends.
pub revert_tx-Inv :
    (order id now db_now : ℕ) (s : Store)
    → Inv s
    → Ensures (λ _ v. Inv v) (revert_tx order id now db_now s)
unfolding revert_tx
revert_tx-Inv order id now db_now s inv = elim (Option-cases (lookup order s.reservations)) [
  | inl unknown ↦ ground arith
  | inr (r, known) ↦
      let keyed : r.order_id ≡ order = (inv.rows.row order r known).keyed in
      ground (
        arith,
        revert_found-Inv s inv r (ap (λ o. lookup o s.reservations) keyed ∙ known) id now db_now,
      )
]
