-- ===== src/Credit/Store.antt =====
-- The tables of credit-service/database/schema and the transaction of
-- credit-service/internal/reservation/postgresrepository.go with the queries that it calls. An action
-- is handed the tables and returns them changed, or an error; `within` rolls back on an error.
use fo_c.Base.{
  ℕ, suc, Bool, true, false, not, ◌&&◌, Option, none, some, List, [], ◌∷◌, ⊤, Result, ok, err, ltb,
  ◌==◌, if◌then◌else◌, eqb_option, is_some,
}
use fo_c.Base.Int.{pos, ◌+ℤ◌, leb_ℤ, eqb_ℤ}
use fo_c.Base.Dict.{Dict, lookup, insert}
use fo_c.Credit.Types.{
  Error, aborted, database, Status, held, assigned, released, settled, Reservation, Assignment,
  reverted, is_reverted, OperationKey, eqb_kind, Operation, Account, grant, starting_credits, Entry,
}

-- The users and the reservations are summed over, so they are lists; the rest is looked up only. The
-- ledger lists its newest entry first.
pub record Store : Type 0 where
  pub accounts : Dict Account
  pub ledger : List Entry
  pub reservations : Dict Reservation
  pub revisions : ℕ → ℕ → Option Reservation
  pub assignments : ℕ → ℕ → Option Assignment
  pub operations : OperationKey → Option Operation

abbrev pub Action : Type 0 → Type 0
Action A = Store → Result Error (A × Store)

abbrev pub pure : {A : Type 0} → A → Action A
pure a s = ok (a, s)

abbrev pub fail : {A : Type 0} → Error → Action A
fail e s = err e

infixl 5 ◌>>=◌ ◌>>◌
abbrev pub ◌>>=◌ : {A B : Type 0} → Action A → (A → Action B) → Action B
◌>>=◌ m f s = elim (m s) [ ok (a, s') ↦ f a s' | err e ↦ err e ]

abbrev pub ◌>>◌ : {A B : Type 0} → Action A → Action B → Action B
m >> k = m >>= λ _. k

-- How a commit ends: it takes place, it fails, or it takes place and its answer is lost.
pub data Commit : Type 0 where
  succeeds : Commit
  fails lost : Error → Commit

-- One unit of work. An error of the action rolls back.
abbrev pub conclude :
    {A : Type 0} → Commit → Store → Result Error (A × Store) → Result Error A × Store
conclude succeeds s (ok (a, t)) = (ok a, t)
conclude (fails e) s (ok (a, t)) = (err e, s)
conclude (lost e) s (ok (a, t)) = (err e, t)
conclude commit s (err e) = (err e, s)

unfoldable pub within : {A : Type 0} → Commit → Action A → Store → Result Error A × Store
within commit f s = conclude commit s (f s)

-- Accounts and ledger: ledger.go and account.sql

-- `accounts_reserved_check` and `accounts_available_check`
abbrev pub account_check : Account → Bool
account_check a = leb_ℤ (pos 0) a.reserved && leb_ℤ a.reserved a.balance

abbrev pub changes_nothing : Entry → Bool
changes_nothing e = eqb_ℤ e.balance_delta (pos 0) && eqb_ℤ e.reserved_delta (pos 0)

-- `ApplyAccountDelta` and `InsertLedgerEntry` for one posting
unfoldable pub post_entry : Entry → Action ⊤
post_entry e s = if changes_nothing e then ok (tt, s) else elim (lookup e.user_id s.accounts) [
  | none ↦ err database
  | some a ↦
      let b : Account = record {
        balance = a.balance +ℤ e.balance_delta;
        reserved = a.reserved +ℤ e.reserved_delta;
      } in
      if account_check b
      then ok (tt, record s { accounts = insert e.user_id b s.accounts; ledger = e ∷ s.ledger })
      else err database
]

-- `Post`
unfoldable pub post : List Entry → Action ⊤
post [] = pure tt
post (e ∷ es) = do post_entry e; post es

abbrev pub grant_entry : ℕ → Entry
grant_entry user = record {
  user_id = user;
  kind = grant;
  balance_delta = starting_credits;
  reserved_delta = pos 0;
  order_id = none;
  assignment_id = none;
}

-- `InsertAccount`: whether a row was created
abbrev pub insert_account : ℕ → Action Bool
insert_account user s = elim (lookup user s.accounts) [
  | some a ↦ ok (false, s)
  | none ↦ ok (
    true,
    record s { accounts = insert user (record { balance = pos 0; reserved = pos 0 }) s.accounts },
  )
]

-- `LockAccount`
abbrev pub lock_account : ℕ → Action Account
lock_account user s = elim (lookup user s.accounts) [ none ↦ err database | some a ↦ ok (a, s) ]

-- `account.Open`
unfoldable pub open_account : ℕ → Action Account
open_account user = do
  created ← insert_account user
  if created then post_entry (grant_entry user) else pure tt
  lock_account user

-- `slices.Sort` and `slices.Compact`; canonical UUID texts are ordered as the numbers that they spell.
abbrev pub insert_sorted : ℕ → List ℕ → List ℕ
insert_sorted u [] = u ∷ []
insert_sorted u (v ∷ vs) = if ltb v u then v ∷ insert_sorted u vs else u ∷ v ∷ vs

abbrev pub sort : List ℕ → List ℕ
sort [] = []
sort (u ∷ us) = insert_sorted u (sort us)

abbrev pub compact : List ℕ → List ℕ
compact [] = []
compact (u ∷ []) = u ∷ []
compact (u ∷ v ∷ vs) = let rest = compact (v ∷ vs) in if u == v then rest else u ∷ rest

-- The loop of `LockAccounts`. The map that it returns is read by `accounts[id]`, so it is a function.
unfoldable pub open_all : List ℕ → Action (ℕ → Option Account)
open_all [] = pure (λ u. none)
open_all (v ∷ vs) = do
  a ← open_account v
  rest ← open_all vs
  pure (λ u. if v == u then some a else rest u)

unfoldable pub lock_accounts : List ℕ → Action (ℕ → Option Account)
unfolding open_all
lock_accounts users = open_all (compact (sort users))

-- Operations

abbrev pub eqb_key : OperationKey → OperationKey → Bool
eqb_key j k =
    eqb_kind j.kind k.kind
    && (j.order_id == k.order_id)
    && eqb_option j.assignment_id k.assignment_id

abbrev pub get_operation : OperationKey → Action (Option Operation)
get_operation k s = ok (s.operations k, s)

-- The key is unique: `reservation_operations_identity_key`.
unfoldable pub save_operation : OperationKey → Operation → Action ⊤
save_operation k o s =
    if is_some (s.operations k)
    then err database
    else ok (tt, record s { operations = λ j. if eqb_key j k then some o else s.operations j })

-- Reservations, and the revisions that a trigger records

abbrev pub get_reservation : ℕ → Action (Option Reservation)
get_reservation order s = ok (lookup order s.reservations, s)

abbrev pub get_revision : ℕ → ℕ → Action Reservation
get_revision order n s = elim (s.revisions order n) [ none ↦ err database | some r ↦ ok (r, s) ]

abbrev pub store_row : Reservation → Store → Store
store_row r s = record s {
  reservations = insert r.order_id r s.reservations;
  revisions = λ o n. if (o == r.order_id) && (n == r.revision) then some r else s.revisions o n;
}

-- The row has no column for `adjustment`.
unfoldable pub insert_reservation : Reservation → Action Reservation
insert_reservation r s =
    let row = record r { adjustment = none } in
    if is_some (lookup r.order_id s.reservations) then err database else ok (row, store_row row s)

abbrev pub is_terminal : Status → Bool
is_terminal held = false
is_terminal assigned = false
is_terminal released = true
is_terminal settled = true

-- `UpdateReservation`: the row must be at the expected revision and not be terminal; the trigger sets
-- the next revision and the database's time, and the columns that the query does not name stay as they are.
unfoldable pub update_reservation : ℕ → Reservation → ℕ → Action Reservation
update_reservation db_now r expected s = elim (lookup r.order_id s.reservations) [
  | none ↦ err aborted
  | some old ↦
      let row = record old {
        status = r.status;
        reserved_amount = r.reserved_amount;
        assignment_id = r.assignment_id;
        adjustment = none;
        settlement = r.settlement;
        revision = suc old.revision;
        updated_at = db_now;
      } in
      if not (old.revision == expected)
      then err aborted
      else if is_terminal old.status
      then err database
      else ok (row, store_row row s)
]

-- Assignments

abbrev pub get_assignment : ℕ → ℕ → Action (Option Assignment)
get_assignment order id s = ok (s.assignments order id, s)

abbrev pub store_assignment : ℕ → ℕ → Assignment → Store → Store
store_assignment order id a s = record s {
  assignments = λ o i. if (o == order) && (i == id) then some a else s.assignments o i;
}

unfoldable pub insert_assignment : Assignment → Action ⊤
insert_assignment a s =
    if is_some (s.assignments a.order_id a.assignment_id)
    then err database
    else ok (tt, store_assignment a.order_id a.assignment_id a s)

unfoldable pub revert_assignment : ℕ → ℕ → ℕ → Action ⊤
revert_assignment order id at s = elim (s.assignments order id) [
  | none ↦ err aborted
  | some a ↦
      if is_reverted a.status
      then err aborted
      else ok
          (tt, store_assignment order id (record a { status = reverted; reverted_at = some at }) s)
]
