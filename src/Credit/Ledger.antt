-- ===== src/Credit/Ledger.antt =====
-- What posting does to the accounts: credit-service/internal/account/ledger.go against the sums of
-- the ledger.
pub mod Opening
use fo_c.Base.{
  ℕ, ◌+◌, ◌*◌, ◌≤◌, ◌≡◌, refl, inl, inr, Bool, true, false, Option, none, some, List, [], ◌∷◌, ⊤,
  ok, err, arith, ◌==◌, if◌then◌else◌, length, ◌∙◌, Option-cases, Bool-cases,
}
use fo_c.Base.Int.{ℤ, pos, ◌+ℤ◌, ◌≤ℤ◌, int_laws}
use fo_c.Base.Dict.{
  Dict, lookup, insert, lookup-insert, lookup-insert_self, sum_by, sum_by-insert_old,
  sum_by-insert_new, length-insert_old, length-insert_new,
}
use fo_c.Credit.Types.{Account, Entry, starting_credits}
use fo_c.Credit.Store.{
  Store, post_entry, post, account_check, changes_nothing, open_account, insert_account,
  lock_account, grant_entry, open_all, lock_accounts,
}
use fo_c.Credit.Ensures.{Ensures, Ensures-map, >>=-Ensures}

-- The columns of a user's account; a user without one has no credits.
abbrev pub balance_of : ℕ → Dict Account → ℤ
balance_of u d = elim (lookup u d) [ none ↦ pos 0 | some a ↦ a.balance ]

abbrev pub reserved_of : ℕ → Dict Account → ℤ
reserved_of u d = elim (lookup u d) [ none ↦ pos 0 | some a ↦ a.reserved ]

abbrev pub total_balance : Dict Account → ℤ
total_balance = sum_by (λ a. a.balance)

-- The sums of a user's entries.
abbrev pub balance_sum : ℕ → List Entry → ℤ
balance_sum u [] = pos 0
balance_sum u (e ∷ es) = (if e.user_id == u then e.balance_delta else pos 0) +ℤ balance_sum u es

abbrev pub reserved_sum : ℕ → List Entry → ℤ
reserved_sum u [] = pos 0
reserved_sum u (e ∷ es) = (if e.user_id == u then e.reserved_delta else pos 0) +ℤ reserved_sum u es

abbrev pub total_sum : List Entry → ℤ
total_sum [] = pos 0
total_sum (e ∷ es) = e.balance_delta +ℤ total_sum es

-- A user's ledger sums to the account, whose available credits are not negative.
pub record IsBooked (u : ℕ) (d : Dict Account) (l : List Entry) : Type 0 where
  pub balance_booked : balance_sum u l ≡ balance_of u d
  pub reserved_booked : reserved_sum u l ≡ reserved_of u d
  pub reserved_nonneg : pos 0 ≤ℤ reserved_of u d
  pub available_nonneg : reserved_of u d ≤ℤ balance_of u d

pub record SameOrders (s t : Store) : Type 0 where
  pub same_reservations : t.reservations ≡ s.reservations
  pub same_revisions : t.revisions ≡ s.revisions
  pub same_assignments : t.assignments ≡ s.assignments
  pub same_operations : t.operations ≡ s.operations

-- What posting the entries has done for one user.
pub record HasPosted (u : ℕ) (es : List Entry) (s t : Store) : Type 0 where
  pub orders : SameOrders s t
  pub balances : balance_of u t.accounts ≡ balance_of u s.accounts +ℤ balance_sum u es
  pub reserves : reserved_of u t.accounts ≡ reserved_of u s.accounts +ℤ reserved_sum u es
  pub total : total_balance t.accounts ≡ total_balance s.accounts +ℤ total_sum es
  pub count : length t.accounts ≡ length s.accounts
  pub books : IsBooked u s.accounts s.ledger → IsBooked u t.accounts t.ledger

abbrev pub unchanged : (s : Store) → SameOrders s s
unchanged s = record {
  same_reservations = refl;
  same_revisions = refl;
  same_assignments = refl;
  same_operations = refl;
}

zero_entry : (u : ℕ) (e : Entry) (s : Store) → changes_nothing e ≡ true → HasPosted u (e ∷ []) s s
zero_entry u e s h = record {
  orders = unchanged s;
  balances = grind int_laws;
  reserves = grind int_laws;
  total = grind int_laws;
  count = refl;
  books = λ b. b;
}

abbrev moved_account : Entry → Account → Account
moved_account e a = record {
  balance = a.balance +ℤ e.balance_delta;
  reserved = a.reserved +ℤ e.reserved_delta;
}

abbrev moved : Entry → Account → Store → Store
moved e a s = record s {
  accounts = insert e.user_id (moved_account e a) s.accounts;
  ledger = e ∷ s.ledger;
}

module _ (u : ℕ) (e : Entry) (a : Account) (s : Store)
    (known : lookup e.user_id s.accounts ≡ some a) where
  moved_balances :
      balance_of u (moved e a s).accounts ≡ balance_of u s.accounts +ℤ balance_sum u (e ∷ [])
  moved_balances = grind (int_laws, lookup-insert e.user_id u (moved_account e a) s.accounts)

  moved_reserves :
      reserved_of u (moved e a s).accounts ≡ reserved_of u s.accounts +ℤ reserved_sum u (e ∷ [])
  moved_reserves = grind (int_laws, lookup-insert e.user_id u (moved_account e a) s.accounts)

  moved_total :
      total_balance (moved e a s).accounts ≡ total_balance s.accounts +ℤ total_sum (e ∷ [])
  moved_total = grind (
    int_laws,
    sum_by-insert_old (λ a. a.balance) e.user_id (moved_account e a) a s.accounts known,
  )

  moved_books :
      account_check (moved_account e a) ≡ true
      → IsBooked u s.accounts s.ledger
      → IsBooked u (moved e a s).accounts (moved e a s).ledger
  moved_books c b = record {
    balance_booked = grind (int_laws, lookup-insert e.user_id u (moved_account e a) s.accounts);
    reserved_booked = grind (int_laws, lookup-insert e.user_id u (moved_account e a) s.accounts);
    reserved_nonneg = grind (int_laws, lookup-insert e.user_id u (moved_account e a) s.accounts);
    available_nonneg = grind (int_laws, lookup-insert e.user_id u (moved_account e a) s.accounts);
  }

  moved_lem : account_check (moved_account e a) ≡ true → HasPosted u (e ∷ []) s (moved e a s)
  moved_lem c = record {
    orders = record {
      same_reservations = refl;
      same_revisions = refl;
      same_assignments = refl;
      same_operations = refl;
    };
    balances = moved_balances;
    reserves = moved_reserves;
    total = moved_total;
    count = length-insert_old e.user_id (moved_account e a) {w = a} s.accounts known;
    books = moved_books c;
  }

post_entry-HasPosted :
    (u : ℕ) (e : Entry) (s : Store) → Ensures (λ _ t. HasPosted u (e ∷ []) s t) (post_entry e s)
unfolding post_entry
post_entry-HasPosted u e s = elim (Bool-cases (changes_nothing e)) [
  | inl zero ↦ rw zero (zero_entry u e s zero)
  | inr changing ↦ elim (Option-cases (lookup e.user_id s.accounts)) [
    | inl unknown ↦ rw (changing, unknown) tt
    | inr (a, known) ↦ elim (Bool-cases (account_check (moved_account e a))) [
      | inl passed ↦ rw (changing, known, passed) (moved_lem u e a s known passed)
      | inr refused ↦ rw (changing, known, refused) tt
    ]
  ]
]

pub SameOrders-trans : {r s t : Store} → SameOrders r s → SameOrders s t → SameOrders r t
SameOrders-trans p q = record {
  same_reservations = q.same_reservations ∙ p.same_reservations;
  same_revisions = q.same_revisions ∙ p.same_revisions;
  same_assignments = q.same_assignments ∙ p.same_assignments;
  same_operations = q.same_operations ∙ p.same_operations;
}

HasPosted-cons :
    (u : ℕ) (e : Entry) (es : List Entry) {r s t : Store}
    → HasPosted u (e ∷ []) r s
    → HasPosted u es s t
    → HasPosted u (e ∷ es) r t
HasPosted-cons u e es p q = record {
  orders = SameOrders-trans p.orders q.orders;
  balances = grind (int_laws, p.balances, q.balances);
  reserves = grind (int_laws, p.reserves, q.reserves);
  total = grind (int_laws, p.total, q.total);
  count = q.count ∙ p.count;
  books = λ b. q.books (p.books b);
}

-- Every successful posting moves the accounts by its entries and appends them to the ledger.
pub post-HasPosted :
    (u : ℕ) (es : List Entry) (s : Store) → Ensures (λ _ t. HasPosted u es s t) (post es s)
unfolding post
post-HasPosted u [] s = record {
  orders = unchanged s;
  balances = grind int_laws;
  reserves = grind int_laws;
  total = grind int_laws;
  count = refl;
  books = λ b. b;
}
post-HasPosted u (e ∷ es) s =
    >>=-Ensures (λ _ t. HasPosted u (e ∷ []) s t) (λ _ t. HasPosted u (e ∷ es) s t) (post_entry e)
      (λ _. post es) s (post_entry-HasPosted u e s)
      (λ _ t p.
        Ensures-map (post es t) (λ _ v q. HasPosted-cons u e es p q) (post-HasPosted u es t))
