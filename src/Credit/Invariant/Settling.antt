-- ===== src/Credit/Invariant/Settling.antt =====
-- `ApplyOutcome` keeps the invariant: what it settles, what it releases and what it refuses.
use fo_c.Base.{
  ℕ, ◌≡◌, refl, ap, ◌∙◌, inl, inr, Bool, true, false, none, some, List, [], ◌∷◌, arith, ◌==◌,
  if◌then◌else◌, Option-cases,
}
use mathlib.Core.Path.{ap₂}
use fo_c.Base.Int.{ℤ, pos, ◌+ℤ◌, ◌-ℤ◌, ◌≤ℤ◌, neg, int_laws}
use fo_c.Base.Dict.{lookup, insert}
use fo_c.Credit.Types.{OrderOutcome, assigned, Reservation, Entry}
use fo_c.Credit.Store.{Action, Store, pure, is_terminal, store_row, ◌>>=◌, post}
use fo_c.Credit.Outcome.{
  release_reason_of, completion_of, settlement_outcome, pay_out, settle, settled_version,
  settlement_entries, repeat_settlement, apply_payout, outcome_tx,
}
use fo_c.Credit.Primitives.{next_row, update_reservation_open}
use fo_c.Credit.Ensures.{Ensures, >>=-Ensures}
use fo_c.Credit.Ledger.{reserved_sum}
use fo_c.Credit.Ledger.Opening.{HasOpened, lock_accounts-Opens}
use fo_c.Credit.Invariant.{HasOffer, held_by, IsAssigned, Shape-at, Rows, Inv}
use fo_c.Credit.Invariant.Tables.{recorded_row, Rows-update}
use fo_c.Credit.Invariant.Releasing.{release-Inv}
use fo_c.Credit.Invariant.Posting.{Inv-opened, post-Inv, held_by-move}

-- The holds move by the payout and the refund together.
settled_sum :
    (mine theirs : Bool) (hold payable : ℤ)
    → (if mine then neg hold else pos 0) +ℤ pos 0
      ≡ (if mine then neg payable else pos 0)
        +ℤ ((if mine then neg (hold -ℤ payable) else pos 0)
            +ℤ ((if theirs then pos 0 else pos 0) +ℤ pos 0))
settled_sum true true hold payable = grind int_laws
settled_sum true false hold payable = grind int_laws
settled_sum false true hold payable = grind int_laws
settled_sum false false hold payable = grind int_laws

module _ (r : Reservation) (courier : ℕ) (o : OrderOutcome) (payable : ℤ) (now db_now : ℕ) where
  abbrev closed_row : Reservation
  closed_row = next_row db_now (settled_version r o payable now) r

  abbrev transfers : ℕ → List Entry
  transfers requester =
      settlement_entries r.order_id requester courier payable (r.reserved_amount -ℤ payable)

  module _ (s t : Store) (inv : Inv s) (opened : (u : ℕ) → HasOpened u s t)
      (known : lookup r.order_id s.reservations ≡ some r) (is_assigned_row : r.status ≡ assigned)
      (payable_nonneg : pos 0 ≤ℤ payable) (payable_covered : payable ≤ℤ r.reserved_amount) where
    known_in : lookup r.order_id t.reservations ≡ some r
    known_in = rw ((opened 0).orders.same_reservations) known

    before : IsAssigned t.assignments r.order_id r
    before =
        Shape-at {t = assigned} ((Inv-opened s t inv opened).rows.row r.order_id r known_in)
          is_assigned_row

    closed-Rows :
        Rows
          (insert r.order_id closed_row t.reservations)
          t.assignments
          (recorded_row closed_row t.revisions)
    closed-Rows =
        Rows-update t.reservations t.assignments t.assignments t.revisions r.order_id
          (Inv-opened s t inv opened).rows (λ _ _ i. refl) closed_row
          (record {
            keyed = refl;
            shape = record {
              requester = before.requester;
              has_requester = before.has_requester;
              holds_nothing = refl;
              has_offer = record {
                id = before.has_offer.id;
                offer = before.has_offer.offer;
                courier = before.has_offer.courier;
                has_id = before.has_offer.has_id;
                has_row = before.has_offer.has_row;
                has_courier = before.has_offer.has_courier;
                is_applied = before.has_offer.is_applied;
              };
              settlement = record {
                outcome = settlement_outcome o.type;
                paid_to_courier = payable;
                returned_to_requester = r.reserved_amount -ℤ payable;
                settled_at = now;
                release_reason = none;
                completion = completion_of o;
              };
              has_settlement = refl;
              paid_nonneg = payable_nonneg;
              returned_nonneg = grind int_laws;
              splits_offer = grind (int_laws, before.holds_offer);
            };
          })
          (λ i a e p.
            let (q, found, eq) = (Inv-opened s t inv opened).rows.applied_once r.order_id i a e p in
            let same : q ≡ r = cc known_in in rw (← same) eq)
          r known_in refl

    closed_holds :
        (requester : ℕ)
        → r.requester_id ≡ some requester
        → (u : ℕ)
        → held_by u (insert r.order_id closed_row t.reservations)
          ≡ held_by u s.reservations +ℤ reserved_sum u (transfers requester)
    closed_holds requester mine u =
        held_by-move u r.order_id requester (neg r.reserved_amount) closed_row r t.reservations
          known_in mine mine (grind int_laws)
        ∙ ap₂ ◌+ℤ◌ (ap (held_by u) (opened 0).orders.same_reservations)
            (settled_sum (requester == u) (courier == u) r.reserved_amount payable)

  -- Paying out keeps the invariant.
  pay_out-Inv :
      (s : Store)
      → Inv s
      → lookup r.order_id s.reservations ≡ some r
      → r.status ≡ assigned
      → pos 0 ≤ℤ payable
      → payable ≤ℤ r.reserved_amount
      → Ensures (λ _ v. Inv v) (pay_out r courier o payable now db_now s)
  unfolding pay_out
  pay_out-Inv s inv known e nonneg covered =
      let h : IsAssigned s.assignments r.order_id r =
        Shape-at {t = assigned} (inv.rows.row r.order_id r known) e in
      let (f, t, locked, _, opened) = lock_accounts-Opens (h.requester ∷ courier ∷ []) s in
      rw
        (
          h.has_requester,
          ◌>>=◌,
          locked,
          ◌>>=◌,
          update_reservation_open db_now (settled_version r o payable now) r t
              (known_in s t inv opened known e nonneg covered) (ap is_terminal e),
          ◌>>=◌,
        )
        (>>=-Ensures (λ _ v. Inv v) (λ _ v. Inv v) (post (transfers h.requester))
          (λ _. pure closed_row) (store_row closed_row t)
          (post-Inv (transfers h.requester) s t (store_row closed_row t) inv opened refl refl
            (grind int_laws)
            (closed_holds s t inv opened known e nonneg covered h.requester h.has_requester)
            (closed-Rows s t inv opened known e nonneg covered))
          (λ _ v p. p))

-- Settling keeps the invariant, whatever the payout rule answers.
pub settle-Inv :
    (r : Reservation) (o : OrderOutcome) (payout : ℤ → OrderOutcome → ℤ) (now db_now : ℕ)
    (s : Store)
    → Inv s
    → lookup r.order_id s.reservations ≡ some r
    → r.status ≡ assigned
    → Ensures (λ _ v. Inv v) (settle r o payout now db_now s)
unfolding settle
settle-Inv r o payout now db_now s inv known e =
    let h : HasOffer s.assignments r.order_id r =
      (Shape-at {t = assigned} (inv.rows.row r.order_id r known) e).has_offer in
    ground (
      arith,
      h.has_id,
      h.has_row,
      h.has_courier,
      h.is_applied,
      pay_out-Inv r h.courier o (payout h.offer.offer_amount o) now db_now s inv known e,
    )

abbrev settle_now :
    Reservation → OrderOutcome → (ℤ → OrderOutcome → ℤ) → ℕ → ℕ → Action (Reservation × Bool)
settle_now r o payout now db_now = do next ← settle r o payout now db_now; pure (next, true)

settled_first-Inv :
    (r : Reservation) (o : OrderOutcome) (payout : ℤ → OrderOutcome → ℤ) (now db_now : ℕ)
    (s : Store)
    → Inv s
    → lookup r.order_id s.reservations ≡ some r
    → r.status ≡ assigned
    → Ensures (λ _ v. Inv v) (settle_now r o payout now db_now s)
settled_first-Inv r o payout now db_now s inv known e =
    >>=-Ensures (λ _ v. Inv v) (λ _ v. Inv v) (settle r o payout now db_now)
      (λ next. pure (next, true)) s (settle-Inv r o payout now db_now s inv known e) (λ _ v h. h)

repeat_settlement-Inv :
    (r : Reservation) (o : OrderOutcome) (s : Store)
    → Inv s
    → Ensures (λ _ v. Inv v) (repeat_settlement r o s)
unfolding repeat_settlement
repeat_settlement-Inv r o s inv = ground arith

apply_payout-Inv :
    (order : ℕ) (o : OrderOutcome) (payout : ℤ → OrderOutcome → ℤ) (now db_now : ℕ) (s : Store)
    → Inv s
    → Ensures (λ _ v. Inv v) (apply_payout (lookup order s.reservations) o payout now db_now s)
unfolding apply_payout
apply_payout-Inv order o payout now db_now s inv =
    elim (Option-cases (lookup order s.reservations)) [
      | inl unknown ↦ ground arith
      | inr (r, known) ↦
          let own : lookup r.order_id s.reservations ≡ some r =
            ap (λ o. lookup o s.reservations) (inv.rows.row order r known).keyed ∙ known in
          ground (
            arith,
            repeat_settlement-Inv r o s inv,
            settled_first-Inv r o payout now db_now s inv own,
          )
    ]

-- Every outcome keeps the invariant, whichever way it ends.
pub outcome_tx-Inv :
    (o : OrderOutcome) (payout : ℤ → OrderOutcome → ℤ) (now db_now : ℕ) (s : Store)
    → Inv s
    → Ensures (λ _ v. Inv v) (outcome_tx o payout now db_now s)
unfolding outcome_tx
outcome_tx-Inv o payout now db_now s inv = elim (Option-cases (release_reason_of o.type)) [
  | inr (reason, e) ↦ rw e (ground (arith, release-Inv reason now s inv o.order_id db_now))
  | inl pays ↦ rw pays (ground (arith, apply_payout-Inv o.order_id o payout now db_now s inv))
]
