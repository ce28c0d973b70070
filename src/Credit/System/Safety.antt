-- ===== src/Credit/System/Safety.antt =====
-- The invariant holds after every history of commands, so no history loses or invents a credit.
use fo_c.Base.{ℕ, ◌*◌, ◌≡◌, refl, Option, some, List, arith, length}
use fo_c.Base.Int.{ℤ, pos, ◌+ℤ◌, ◌≤ℤ◌}
use fo_c.Credit.Types.{
  Operation, Reservation, Assignment, Settlement, settled, applied, OrderOutcome, OperationKey,
}
use fo_c.Credit.Store.{Store, open_account, ◌>>=◌, pure}
use fo_c.Credit.Ensures.{Ensures}
use fo_c.Credit.Service.{Env, Library}
use fo_c.Credit.Ledger.{balance_of, reserved_of, balance_sum, reserved_sum, total_balance}
use fo_c.Credit.Ledger.Opening.{open_account-Opens}
use fo_c.Base.Dict.{lookup}
use fo_c.Credit.Invariant.{held_by, Shape-at, Inv}
use fo_c.Credit.Invariant.Posting.{Inv-opened}
use fo_c.Credit.Invariant.Reserving.{reserve_tx-Inv}
use fo_c.Credit.Invariant.Adjusting.{adjust_tx-Inv}
use fo_c.Credit.Invariant.Reverting.{revert_tx-Inv}
use fo_c.Credit.Invariant.Releasing.{release_tx-Inv}
use fo_c.Credit.Invariant.Settling.{outcome_tx-Inv}
use fo_c.Credit.System.Keeping.{Keeps, KeptByActions, run-keeps}
use fo_c.Credit.System.{Command, run, empty}

Inv-ignores :
    (s : Store) (ops : OperationKey → Option Operation)
    → Inv s
    → Inv (record s { operations = ops })
Inv-ignores s ops inv = record {
  booked = inv.booked;
  minted = inv.minted;
  backed = inv.backed;
  rows = inv.rows;
}

open-Inv : (user : ℕ) → Keeps (λ s. Inv s) (open_account user >>= λ a. pure tt)
open-Inv user s inv =
    let (a, t, opens_to, _, opened) = open_account-Opens user s in
    rw (opens_to, ◌>>=◌, Ensures) (Inv-opened s t inv opened)

Inv-KeptByActions : KeptByActions (λ s. Inv s)
Inv-KeptByActions = record {
  ignores = Inv-ignores;
  by_reserve = λ order requester amount now positive s inv.
      reserve_tx-Inv order requester amount now s positive inv;
  by_adjust =
      λ order id courier offer now db_now s. adjust_tx-Inv order id courier offer now db_now s;
  by_revert = λ order id now db_now s. revert_tx-Inv order id now db_now s;
  by_release = λ order reason now db_now s. release_tx-Inv order reason now db_now s;
  by_outcome = λ payout o now db_now s. outcome_tx-Inv o payout now db_now s;
  by_open = open-Inv;
}

empty-Inv : Inv empty
unfolding empty
empty-Inv = record {
  booked = λ u. record {
    balance_booked = refl;
    reserved_booked = refl;
    reserved_nonneg = omega arith;
    available_nonneg = omega arith;
  };
  minted = refl;
  backed = λ u. refl;
  rows = record {
    row = λ o r h. absurd (cc);
    recorded = λ o r h. absurd (cc);
    past = λ o n q h. absurd (cc);
    applied_once = λ o i a h p. absurd (cc);
  };
}

-- The invariant holds after every history of commands that starts with empty tables.
pub run-Inv :
    (l : Library) (payout : ℤ → OrderOutcome → ℤ) (cs : List (Env × Command))
    → Inv (run l payout cs empty)
run-Inv l payout cs = run-keeps (λ s. Inv s) Inv-KeptByActions l payout cs empty empty-Inv

-- After every history, no user's reserved credits are negative or exceed the user's balance.
pub run-solvent :
    (l : Library) (payout : ℤ → OrderOutcome → ℤ) (cs : List (Env × Command)) (u : ℕ)
    → (pos 0 ≤ℤ reserved_of u (run l payout cs empty).accounts)
      × (reserved_of u (run l payout cs empty).accounts
          ≤ℤ balance_of u (run l payout cs empty).accounts)
run-solvent l payout cs u =
    let books = (run-Inv l payout cs).booked u in (books.reserved_nonneg, books.available_nonneg)

-- After every history, a user's ledger entries sum to the user's balance and reserved credits.
pub run-booked :
    (l : Library) (payout : ℤ → OrderOutcome → ℤ) (cs : List (Env × Command)) (u : ℕ)
    → (balance_sum u (run l payout cs empty).ledger ≡ balance_of u (run l payout cs empty).accounts)
      × (reserved_sum u (run l payout cs empty).ledger
          ≡ reserved_of u (run l payout cs empty).accounts)
run-booked l payout cs u =
    let books = (run-Inv l payout cs).booked u in (books.balance_booked, books.reserved_booked)

-- After every history of commands from empty tables, the balances of all accounts sum to 100 credits
-- for each account.
pub run-conserves :
    (l : Library) (payout : ℤ → OrderOutcome → ℤ) (cs : List (Env × Command))
    → total_balance (run l payout cs empty).accounts
      ≡ pos (100 * length (run l payout cs empty).accounts)
run-conserves l payout cs = (run-Inv l payout cs).minted

-- After every history, a user's reserved credits are exactly what the user's reservations hold.
pub run-backed :
    (l : Library) (payout : ℤ → OrderOutcome → ℤ) (cs : List (Env × Command)) (u : ℕ)
    → reserved_of u (run l payout cs empty).accounts
      ≡ held_by u (run l payout cs empty).reservations
run-backed l payout cs u = (run-Inv l payout cs).backed u

-- What a settled reservation shows: its courier's offer, split between courier and requester.
pub record IsSplit (s : Store) (o : ℕ) (r : Reservation) : Type 0 where
  pub id : ℕ
  pub offer : Assignment
  pub settlement : Settlement
  pub assigned_to : r.assignment_id ≡ some id
  pub offered : s.assignments o id ≡ some offer
  pub settled_as : r.settlement ≡ some settlement
  pub paid : pos 0 ≤ℤ settlement.paid_to_courier
  pub returned : pos 0 ≤ℤ settlement.returned_to_requester
  pub split : settlement.paid_to_courier +ℤ settlement.returned_to_requester ≡ offer.offer_amount
  pub holds_nothing : r.reserved_amount ≡ pos 0

-- After every history, a settled reservation holds nothing any more, and its settlement splits the
-- offer that it was assigned to into what the courier was paid and what the requester got back,
-- neither of them negative.
pub run-splits :
    (l : Library) (payout : ℤ → OrderOutcome → ℤ) (cs : List (Env × Command))
    → (o : ℕ) (r : Reservation) → lookup o (run l payout cs empty).reservations ≡ some r
    → r.status ≡ settled
    → IsSplit (run l payout cs empty) o r
run-splits l payout cs o r stored is_settled =
    let h = Shape-at {t = settled} ((run-Inv l payout cs).rows.row o r stored) is_settled in
    record {
      id = h.has_offer.id;
      offer = h.has_offer.offer;
      settlement = h.settlement;
      assigned_to = h.has_offer.has_id;
      offered = h.has_offer.has_row;
      settled_as = h.has_settlement;
      paid = h.paid_nonneg;
      returned = h.returned_nonneg;
      split = h.splits_offer;
      holds_nothing = h.holds_nothing;
    }

-- After every history, an order has at most one applied offer.
pub run-one_offer :
    (l : Library) (payout : ℤ → OrderOutcome → ℤ) (cs : List (Env × Command))
    → (o i j : ℕ) (a b : Assignment) → (run l payout cs empty).assignments o i ≡ some a
    → (run l payout cs empty).assignments o j ≡ some b
    → a.status ≡ applied
    → b.status ≡ applied
    → i ≡ j
run-one_offer l payout cs o i j a b stored other h k =
    let (r, at, names) = (run-Inv l payout cs).rows.applied_once o i a stored h in
    let (q, at', names') = (run-Inv l payout cs).rows.applied_once o j b other k in
    ground (arith, at, at', names, names')
