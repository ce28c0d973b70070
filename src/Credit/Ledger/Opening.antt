-- ===== src/Credit/Ledger/Opening.antt =====
-- Opening accounts: `account.Open` of credit-service/internal/account/ledger.go and `LockAccounts`.
use fo_c.Base.{
  ℕ, ◌*◌, ◌≡◌, refl, inl, inr, none, some, List, [], ◌∷◌, ⊤, Result, ok, arith, ◌==◌, if◌then◌else◌,
  length, ◌∙◌, Option-cases,
}
use fo_c.Base.Int.{pos, ◌+ℤ◌, ◌≤ℤ◌, int_laws}
use fo_c.Base.Dict.{
  Dict, lookup, insert, lookup-insert, lookup-insert_self, sum_by-insert_old, sum_by-insert_new,
  length-insert_old, length-insert_new,
}
use fo_c.Credit.Types.{Error, Account, starting_credits}
use fo_c.Credit.Store.{
  Store, post_entry, open_account, grant_entry, open_all, lock_accounts, ◌>>=◌, sort, compact,
}
use fo_c.Credit.Ledger.{
  balance_of, reserved_of, total_balance, IsBooked, SameOrders, unchanged, SameOrders-trans,
}

-- What opening accounts has done for one user: the hold is the same, and each new account came with
-- the starting credits.
pub record HasOpened (u : ℕ) (s t : Store) : Type 0 where
  pub orders : SameOrders s t
  pub reserves : reserved_of u t.accounts ≡ reserved_of u s.accounts
  pub grows : balance_of u s.accounts ≤ℤ balance_of u t.accounts
  pub minted :
      total_balance t.accounts +ℤ pos (100 * length s.accounts)
      ≡ total_balance s.accounts +ℤ pos (100 * length t.accounts)
  pub books : IsBooked u s.accounts s.ledger → IsBooked u t.accounts t.ledger

abbrev zero_account : Account
zero_account = record { balance = pos 0; reserved = pos 0 }

abbrev opened : ℕ → Store → Store
opened user s = record s {
  accounts =
      insert user (record { balance = pos 0 +ℤ starting_credits; reserved = pos 0 +ℤ pos 0 })
        (insert user zero_account s.accounts);
  ledger = grant_entry user ∷ s.ledger;
}

open_account_new :
    (user : ℕ) (s : Store)
    → lookup user s.accounts ≡ none
    → open_account user s ≡ ok (record { balance = pos 100; reserved = pos 0 }, opened user s)
unfolding open_account post_entry ◌+ℤ◌
open_account_new user s new = ground (
  arith,
  lookup-insert_self user zero_account s.accounts,
  lookup-insert_self user
      (record { balance = pos 0 +ℤ starting_credits; reserved = pos 0 +ℤ pos 0 })
      (insert user zero_account s.accounts),
)

open_account_old :
    (user : ℕ) (s : Store) (a : Account)
    → lookup user s.accounts ≡ some a
    → open_account user s ≡ ok (a, s)
unfolding open_account
open_account_old user s a known = ground arith

module _ (user : ℕ) (s : Store) (new : lookup user s.accounts ≡ none) where
  abbrev granted : Account
  granted = record { balance = pos 0 +ℤ starting_credits; reserved = pos 0 +ℤ pos 0 }

  abbrev emptied : Dict Account
  emptied = insert user zero_account s.accounts

  abbrev Columns : (u : ℕ) → Type 0
  Columns u =
      lookup u (insert user granted emptied)
      ≡ (if user == u then some granted else lookup u s.accounts)

  opened-Columns : (u : ℕ) → Columns u
  opened-Columns u =
      ground
        (arith, lookup-insert user u granted emptied, lookup-insert user u zero_account s.accounts)

  opened_minted :
      total_balance (opened user s).accounts +ℤ pos (100 * length s.accounts)
      ≡ total_balance s.accounts +ℤ pos (100 * length (opened user s).accounts)
  opened_minted = grind (
    int_laws,
    sum_by-insert_new (λ a. a.balance) user zero_account s.accounts new,
    sum_by-insert_old (λ a. a.balance) user granted zero_account emptied
        (lookup-insert_self user zero_account s.accounts),
    length-insert_new user zero_account s.accounts new,
    length-insert_old user granted {w = zero_account} emptied
        (lookup-insert_self user zero_account s.accounts),
  )

  opened_lem : (u : ℕ) → HasOpened u s (opened user s)
  opened_lem u = record {
    orders = record {
      same_reservations = refl;
      same_revisions = refl;
      same_assignments = refl;
      same_operations = refl;
    };
    reserves = grind (int_laws, opened-Columns u);
    grows = grind (int_laws, opened-Columns u);
    minted = opened_minted;
    books = λ b. record {
      balance_booked = grind (int_laws, opened-Columns u);
      reserved_booked = grind (int_laws, opened-Columns u);
      reserved_nonneg = grind (int_laws, opened-Columns u);
      available_nonneg = grind (int_laws, opened-Columns u);
    };
  }

-- An opening that succeeded, with what it did for every user.
abbrev pub Opens : {A : Type 0} → Result Error (A × Store) → (A → Store → Type 0) → Store → Type 0
Opens {A} r P s = (a : A) × (t : Store) × (r ≡ ok (a, t)) × P a t × ((u : ℕ) → HasOpened u s t)

pub HasOpened-refl : (s : Store) (u : ℕ) → HasOpened u s s
HasOpened-refl s u = record {
  orders = unchanged s;
  reserves = refl;
  grows = omega arith;
  minted = refl;
  books = λ b. b;
}

HasOpened-trans : (u : ℕ) {r s t : Store} → HasOpened u r s → HasOpened u s t → HasOpened u r t
HasOpened-trans u p q = record {
  orders = SameOrders-trans p.orders q.orders;
  reserves = q.reserves ∙ p.reserves;
  grows = omega (arith, p.grows, q.grows);
  minted = grind (int_laws, p.minted, q.minted);
  books = λ b. q.books (p.books b);
}

-- Opening an account cannot fail, and grants the starting credits to a new user only.
pub open_account-Opens :
    (user : ℕ) (s : Store) → Opens (open_account user s) (λ a t. lookup user t.accounts ≡ some a) s
unfolding ◌+ℤ◌
open_account-Opens user s = elim (Option-cases (lookup user s.accounts)) [
  | inl new ↦ (
    record { balance = pos 100; reserved = pos 0 },
    opened user s,
    open_account_new user s new,
    lookup-insert_self user _ _,
    opened_lem user s new,
  )
  | inr (a, known) ↦ (a, s, open_account_old user s a known, known, HasOpened-refl s)
]

pub open_all-Opens : (users : List ℕ) (s : Store) → Opens (open_all users s) (λ _ _. ⊤) s
unfolding open_all
open_all-Opens [] s = (λ u. none, s, refl, tt, HasOpened-refl s)
open_all-Opens (v ∷ vs) s =
    let (a, t, e, known, first) = open_account-Opens v s in
    let (f, r, d, _, rest) = open_all-Opens vs t in
    (
      λ u. if v == u then some a else f u,
      r,
      rw (e, ◌>>=◌) (rw (d, ◌>>=◌)),
      tt,
      λ u. HasOpened-trans u (first u) (rest u),
    )

-- Locking the accounts of any users opens those that are missing, and never fails.
pub lock_accounts-Opens : (users : List ℕ) (s : Store) → Opens (lock_accounts users s) (λ _ _. ⊤) s
unfolding lock_accounts
lock_accounts-Opens users s = open_all-Opens (compact (sort users)) s

-- For one user the map holds the user's account.
pub lock_accounts_one :
    (user : ℕ) (s : Store)
    → Opens (lock_accounts (user ∷ []) s) (λ f t. f user ≡ lookup user t.accounts) s
unfolding lock_accounts open_all
lock_accounts_one user s =
    let (a, t, e, known, first) = open_account-Opens user s in
    (λ u. if user == u then some a else none, t, rw (e, ◌>>=◌) refl, ground arith, first)
