-- ===== src/Credit/Invariant.antt =====
-- The invariant of Credit's tables: the CHECK constraints and indexes of
-- credit-service/database/schema, and what ties the tables to one another.
pub mod Tables
pub mod Posting
pub mod Reserving
pub mod Adjusting
pub mod Reverting
pub mod Releasing
pub mod Settling
use fo_c.Base.{
  ℕ, suc, ◌+◌, ◌*◌, ◌≤◌, ◌<◌, ◌≡◌, refl, Bool, true, false, Option, none, some, List, arith, ◌==◌,
  if◌then◌else◌, length, ◌∙◌, eqb_option,
}
use mathlib.Core.Path.{subst}
use fo_c.Base.Int.{ℤ, pos, ◌+ℤ◌, ◌≤ℤ◌, int_laws}
use fo_c.Base.Dict.{Dict, lookup, sum_by}
use fo_c.Credit.Types.{
  Status, held, assigned, released, settled, ReleaseReason, outcome_released, Settlement, applied,
  Reservation, Assignment, Entry,
}
use fo_c.Credit.Store.{Store}
use fo_c.Credit.Ledger.{
  reserved_of, total_balance, total_sum, reserved_sum, IsBooked, HasPosted, SameOrders,
}
use fo_c.Credit.Ledger.Opening.{HasOpened}

abbrev pub Assignments : Type 0
Assignments = ℕ → ℕ → Option Assignment

abbrev pub Revisions : Type 0
Revisions = ℕ → ℕ → Option Reservation

-- What a reservation holds of a user's credits, and what all of them hold.
abbrev pub hold_of : ℕ → Reservation → ℤ
hold_of u r = if eqb_option r.requester_id (some u) then r.reserved_amount else pos 0

abbrev pub held_by : ℕ → Dict Reservation → ℤ
held_by u = sum_by (hold_of u)

-- The row of the offer that a reservation is assigned to or was paid for.
pub record HasOffer (asg : Assignments) (o : ℕ) (r : Reservation) : Type 0 where
  pub id : ℕ
  pub offer : Assignment
  pub courier : ℕ
  pub has_id : r.assignment_id ≡ some id
  pub has_row : asg o id ≡ some offer
  pub has_courier : offer.courier_id ≡ some courier
  pub is_applied : offer.status ≡ applied

pub record IsHeld (r : Reservation) : Type 0 where
  pub requester : ℕ
  pub has_requester : r.requester_id ≡ some requester
  pub amount_pos : pos 1 ≤ℤ r.original_amount
  pub holds_original : r.reserved_amount ≡ r.original_amount
  pub no_assignment : r.assignment_id ≡ none
  pub no_settlement : r.settlement ≡ none

pub record IsAssigned (asg : Assignments) (o : ℕ) (r : Reservation) : Type 0 where
  pub requester : ℕ
  pub has_requester : r.requester_id ≡ some requester
  pub amount_pos : pos 1 ≤ℤ r.original_amount
  pub holds_more : r.original_amount ≤ℤ r.reserved_amount
  pub has_offer : HasOffer asg o r
  pub holds_offer : has_offer.offer.offer_amount ≡ r.reserved_amount
  pub no_settlement : r.settlement ≡ none

pub record IsReleased (r : Reservation) : Type 0 where
  pub holds_nothing : r.reserved_amount ≡ pos 0
  pub settlement : Settlement
  pub has_settlement : r.settlement ≡ some settlement
  pub is_release : settlement.outcome ≡ outcome_released
  pub pays_nothing : settlement.paid_to_courier ≡ pos 0
  pub returned_nonneg : pos 0 ≤ℤ settlement.returned_to_requester
  pub reason : ReleaseReason
  pub has_reason : settlement.release_reason ≡ some reason

pub record IsSettled (asg : Assignments) (o : ℕ) (r : Reservation) : Type 0 where
  pub requester : ℕ
  pub has_requester : r.requester_id ≡ some requester
  pub holds_nothing : r.reserved_amount ≡ pos 0
  pub has_offer : HasOffer asg o r
  pub settlement : Settlement
  pub has_settlement : r.settlement ≡ some settlement
  pub paid_nonneg : pos 0 ≤ℤ settlement.paid_to_courier
  pub returned_nonneg : pos 0 ≤ℤ settlement.returned_to_requester
  pub splits_offer :
      settlement.paid_to_courier +ℤ settlement.returned_to_requester ≡ has_offer.offer.offer_amount

abbrev pub Shape : Assignments → ℕ → Status → Reservation → Type 0
Shape asg o held r = IsHeld r
Shape asg o assigned r = IsAssigned asg o r
Shape asg o released r = IsReleased r
Shape asg o settled r = IsSettled asg o r

pub record IsRow (asg : Assignments) (o : ℕ) (r : Reservation) : Type 0 where
  pub keyed : r.order_id ≡ o
  pub shape : Shape asg o r.status r

-- The shape of a row whose status is known.
pub Shape-at :
    {asg : Assignments} {o : ℕ} {r : Reservation} {t : Status}
    → IsRow asg o r
    → r.status ≡ t
    → Shape asg o t r
Shape-at {asg} {o} {r} h e = subst (λ x. Shape asg o x r) e h.shape

-- The tables of orders. A revision that is recorded is not later than the current one.
pub record Rows (d : Dict Reservation) (asg : Assignments) (rev : Revisions) : Type 0 where
  pub row : (o : ℕ) (r : Reservation) → lookup o d ≡ some r → IsRow asg o r
  pub recorded : (o : ℕ) (r : Reservation) → lookup o d ≡ some r → rev o r.revision ≡ some r
  pub past :
      (o n : ℕ) (q : Reservation)
      → rev o n ≡ some q
      → (r : Reservation) × (lookup o d ≡ some r) × (n ≤ r.revision)
  pub applied_once :
      (o i : ℕ) (a : Assignment)
      → asg o i ≡ some a
      → a.status ≡ applied
      → (r : Reservation) × (lookup o d ≡ some r) × (r.assignment_id ≡ some i)

pub record Inv (s : Store) : Type 0 where
  pub booked : (u : ℕ) → IsBooked u s.accounts s.ledger
  pub minted : total_balance s.accounts ≡ pos (100 * length s.accounts)
  pub backed : (u : ℕ) → reserved_of u s.accounts ≡ held_by u s.reservations
  pub rows : Rows s.reservations s.assignments s.revisions

-- How every operation keeps the invariant: it opens accounts, changes orders so that the holds of
-- each user move by some entries, and posts these.
pub Inv-step :
    (es : List Entry) (s t p v : Store)
    → Inv s
    → ((u : ℕ) → HasOpened u s t)
    → p.accounts ≡ t.accounts
    → p.ledger ≡ t.ledger
    → ((u : ℕ) → HasPosted u es p v)
    → total_sum es ≡ pos 0
    → ((u : ℕ) → held_by u p.reservations ≡ held_by u s.reservations +ℤ reserved_sum u es)
    → Rows p.reservations p.assignments p.revisions
    → Inv v
Inv-step es s t p v inv opened accounts ledger posted zero holds rows = record {
  booked = λ u. (posted u).books (rw (accounts, ledger) ((opened u).books (inv.booked u)));
  minted =
      grind (
        int_laws,
        (posted 0).total,
        (posted 0).count,
        (opened 0).minted,
        inv.minted,
        accounts,
        zero,
      );
  backed = λ u.
      rw
        (
          (posted 0).orders.same_reservations,
          holds u,
          ← inv.backed u,
          ← (opened u).reserves,
          ← accounts,
        )
        ((posted u).reserves);
  rows =
      rw
        (
          (posted 0).orders.same_reservations,
          (posted 0).orders.same_assignments,
          (posted 0).orders.same_revisions,
        )
        rows;
}
