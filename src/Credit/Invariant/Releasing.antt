-- ===== src/Credit/Invariant/Releasing.antt =====
-- `ReleaseReservation`, and the `release` that outcomes share, keep the invariant.
use fo_c.Base.{
  ℕ, ◌≡◌, refl, ap, ◌∙◌, inl, inr, true, false, none, some, List, [], ◌∷◌, arith, Option-cases,
}
use fo_c.Base.Int.{pos, ◌≤ℤ◌, neg, int_laws}
use fo_c.Base.Dict.{lookup, insert}
use fo_c.Credit.Types.{
  produced, ReleaseReason, outcome_released, held, assigned, Reservation, Entry,
}
use fo_c.Credit.Store.{Store, pure, is_terminal, store_row, ◌>>=◌, post}
use fo_c.Credit.Release.{
  return_hold, release, release_tx, released_version, released_tombstone, return_entry,
}
use fo_c.Credit.Primitives.{insert_reservation_new, next_row, update_reservation_open}
use fo_c.Credit.Ensures.{Ensures, >>=-Ensures}
use fo_c.Credit.Ledger.Opening.{HasOpened-refl}
use fo_c.Credit.Invariant.{IsHeld, IsAssigned, Shape-at, Rows, Inv}
use fo_c.Credit.Invariant.Tables.{Rows-insert, recorded_row, Rows-insert, Rows-update}
use fo_c.Credit.Invariant.Posting.{held_by-insert_new, Inv-orders, post-Inv, held_by-move}

-- What a requester gets back of a row.
abbrev returns : Reservation → ℕ → List Entry
returns r requester = return_entry r.order_id requester r.reserved_amount ∷ []

abbrev released_row : Reservation → ReleaseReason → ℕ → ℕ → Reservation
released_row r reason now db_now = next_row db_now (released_version r reason now) r

-- An open row: what held and assigned rows have in common.
pub record IsOpen (r : Reservation) : Type 0 where
  pub requester : ℕ
  pub has_requester : r.requester_id ≡ some requester
  pub hold_pos : pos 1 ≤ℤ r.reserved_amount
  pub live : is_terminal r.status ≡ false

pub held-IsOpen :
    {s : Store} {r : Reservation}
    → Inv s
    → lookup r.order_id s.reservations ≡ some r
    → r.status ≡ held
    → IsOpen r
held-IsOpen {s} {r} inv known e =
    let h : IsHeld r = Shape-at {t = held} (inv.rows.row r.order_id r known) e in
    record {
      requester = h.requester;
      has_requester = h.has_requester;
      hold_pos = grind (arith, h.holds_original, h.amount_pos);
      live = ap is_terminal e;
    }

pub assigned-IsOpen :
    {s : Store} {r : Reservation}
    → Inv s
    → lookup r.order_id s.reservations ≡ some r
    → r.status ≡ assigned
    → IsOpen r
assigned-IsOpen {s} {r} inv known e =
    let h : IsAssigned s.assignments r.order_id r =
      Shape-at {t = assigned} (inv.rows.row r.order_id r known) e in
    record {
      requester = h.requester;
      has_requester = h.has_requester;
      hold_pos = omega (arith, h.holds_more, h.amount_pos);
      live = ap is_terminal e;
    }

module _ (reason : ReleaseReason) (now : ℕ) (s : Store) (inv : Inv s) where
  -- A row that is released keeps the id of its applied offer, if it has one.
  released-Rows :
      (r : Reservation) (db_now : ℕ)
      → lookup r.order_id s.reservations ≡ some r
      → IsOpen r
      → Rows
          (insert r.order_id (released_row r reason now db_now) s.reservations)
          s.assignments
          (recorded_row (released_row r reason now db_now) s.revisions)
  released-Rows r db_now known live =
      Rows-update s.reservations s.assignments s.assignments s.revisions r.order_id inv.rows
        (λ o off i. refl) (released_row r reason now db_now)
        (record {
          keyed = refl;
          shape = record {
            holds_nothing = refl;
            settlement = record {
              outcome = outcome_released;
              paid_to_courier = pos 0;
              returned_to_requester = r.reserved_amount;
              settled_at = now;
              release_reason = some reason;
              completion = none;
            };
            has_settlement = refl;
            is_release = refl;
            pays_nothing = refl;
            returned_nonneg = omega (arith, live.hold_pos);
            reason = reason;
            has_reason = refl;
          };
        })
        (λ i a e p.
          let (q, found, eq) = inv.rows.applied_once r.order_id i a e p in
          let same : q ≡ r = cc in rw (← same) eq)
        r known refl

  return_hold-Inv :
      (r : Reservation) (db_now : ℕ)
      → lookup r.order_id s.reservations ≡ some r
      → IsOpen r
      → Ensures (λ _ v. Inv v) (return_hold r reason now db_now s)
  unfolding return_hold
  return_hold-Inv r db_now known live =
      let row = released_row r reason now db_now in
      let es = returns r live.requester in
      rw
        (
          update_reservation_open db_now (released_version r reason now) r s known live.live,
          ◌>>=◌,
          live.has_requester,
          ◌>>=◌,
        )
        (>>=-Ensures (λ _ v. Inv v) (λ _ v. Inv v) (post es) (λ _. pure (row, true))
          (store_row row s)
          (post-Inv es s s (store_row row s) inv (HasOpened-refl s) refl refl (grind int_laws)
            (λ u.
              held_by-move u r.order_id live.requester (neg r.reserved_amount) row r s.reservations
                known live.has_requester live.has_requester (grind int_laws))
            (released-Rows r db_now known live))
          (λ _ v h. h))

  tombstone-Rows :
      (order : ℕ)
      → lookup order s.reservations ≡ none
      → Rows
          (insert order (released_tombstone order reason now) s.reservations)
          s.assignments
          (recorded_row (released_tombstone order reason now) s.revisions)
  tombstone-Rows order new =
      Rows-insert s.reservations s.assignments s.assignments s.revisions order inv.rows
        (λ o off i. refl) (released_tombstone order reason now)
        (record {
          keyed = refl;
          shape = record {
            holds_nothing = refl;
            settlement = record {
              outcome = outcome_released;
              paid_to_courier = pos 0;
              returned_to_requester = pos 0;
              settled_at = now;
              release_reason = some reason;
              completion = none;
            };
            has_settlement = refl;
            is_release = refl;
            pays_nothing = refl;
            returned_nonneg = omega arith;
            reason = reason;
            has_reason = refl;
          };
        })
        (λ i a e p. let (q, found, _) = inv.rows.applied_once order i a e p in absurd (cc new)) new

  tombstone-Inv :
      (order : ℕ)
      → lookup order s.reservations ≡ none
      → Inv (store_row (released_tombstone order reason now) s)
  tombstone-Inv order new =
      Inv-orders s (store_row (released_tombstone order reason now) s) inv refl refl
        (λ u. grind (
          int_laws,
          held_by-insert_new u order (released_tombstone order reason now) s.reservations new,
        ))
        (tombstone-Rows order new)

  -- Releasing keeps the invariant, whichever way it ends.
  pub release-Inv :
      (order : ℕ) (db_now : ℕ)
      → Ensures (λ _ v. Inv v) (release order (lookup order s.reservations) reason now db_now s)
  unfolding release
  release-Inv order db_now = elim (Option-cases (lookup order s.reservations)) [
    | inl new ↦
        rw (new, Ensures, insert_reservation_new (released_tombstone order reason now) s new)
          (tombstone-Inv order new)
    | inr (r, known) ↦
        let own : lookup r.order_id s.reservations ≡ some r =
          ap (λ o. lookup o s.reservations) (inv.rows.row order r known).keyed ∙ known in
        ground (arith, return_hold-Inv r db_now own, held-IsOpen inv own, assigned-IsOpen inv own)
  ]

pub release_tx-Inv :
    (order : ℕ) (reason : ReleaseReason) (now db_now : ℕ) (s : Store)
    → Inv s
    → Ensures (λ _ v. Inv v) (release_tx order reason now db_now s)
unfolding release_tx
release_tx-Inv order reason now db_now s inv =
    >>=-Ensures (λ _ v. Inv v) (λ _ v. Inv v)
      (release order (lookup order s.reservations) reason now db_now)
      (λ (next, changed). pure (produced next)) s (release-Inv reason now s inv order db_now)
      (λ _ v h. h)
