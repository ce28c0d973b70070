-- ===== src/Credit/Primitives.antt =====
-- What the queries of the transaction return where their guards pass.
use fo_c.Base.{ℕ, suc, ◌≡◌, false, none, some, ok, arith}
use fo_c.Base.Dict.{lookup}
use fo_c.Credit.Types.{Reservation, Assignment, reverted, is_reverted}
use fo_c.Credit.Store.{
  Store, insert_reservation, update_reservation, insert_assignment, revert_assignment, store_row,
  store_assignment, is_terminal,
}

abbrev pub as_stored : Reservation → Reservation
as_stored r = record r { adjustment = none }

pub insert_reservation_new :
    (r : Reservation) (s : Store)
    → lookup r.order_id s.reservations ≡ none
    → insert_reservation r s ≡ ok (as_stored r, store_row (as_stored r) s)
unfolding insert_reservation
insert_reservation_new r s new = ground arith

-- The row that an update leaves.
abbrev pub next_row : ℕ → Reservation → Reservation → Reservation
next_row db_now r old = record old {
  status = r.status;
  reserved_amount = r.reserved_amount;
  assignment_id = r.assignment_id;
  adjustment = none;
  settlement = r.settlement;
  revision = suc old.revision;
  updated_at = db_now;
}

pub update_reservation_open :
    (db_now : ℕ) (r old : Reservation) (s : Store)
    → lookup r.order_id s.reservations ≡ some old
    → is_terminal old.status ≡ false
    → update_reservation db_now r old.revision s
      ≡ ok (next_row db_now r old, store_row (next_row db_now r old) s)
unfolding update_reservation
update_reservation_open db_now r old s known live = ground arith

pub insert_assignment_new :
    (a : Assignment) (s : Store)
    → s.assignments a.order_id a.assignment_id ≡ none
    → insert_assignment a s ≡ ok (tt, store_assignment a.order_id a.assignment_id a s)
unfolding insert_assignment
insert_assignment_new a s new = ground arith

pub revert_assignment_applied :
    (order id at : ℕ) (a : Assignment) (s : Store)
    → s.assignments order id ≡ some a
    → is_reverted a.status ≡ false
    → revert_assignment order id at s
      ≡ ok (tt, store_assignment order id (record a { status = reverted; reverted_at = some at }) s)
unfolding revert_assignment
revert_assignment_applied order id at a s known live = ground arith
