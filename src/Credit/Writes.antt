-- ===== src/Credit/Writes.antt =====
-- How to show a postcondition of each write: it holds of what the write leaves where its guards pass.
use fo_c.Base.{
  ℕ, ◌≡◌, Bool, true, false, none, some, arith, Option-cases, Bool-cases, inl, inr, ⊤, ◌∷◌, ◌==◌,
  not,
}
use fo_c.Base.Int.{pos, ◌+ℤ◌}
use fo_c.Base.Dict.{lookup, insert}
use fo_c.Credit.Types.{Account, Assignment, Entry, Reservation, is_reverted, reverted}
use fo_c.Credit.Store.{
  Store, post_entry, insert_account, insert_reservation, update_reservation, insert_assignment,
  revert_assignment, is_terminal, store_row, store_assignment,
}
use fo_c.Credit.Ensures.{Ensures}
use fo_c.Credit.Primitives.{next_row, as_stored}

pub insert_account-Ensures :
    (Q : Bool → Store → Type 0) (user : ℕ) (s : Store)
    → Q false s
    → (lookup user s.accounts ≡ none
        → Q true (record s {
          accounts = insert user (record { balance = pos 0; reserved = pos 0 }) s.accounts;
        }))
    → Ensures Q (insert_account user s)
insert_account-Ensures Q user s old new = elim (Option-cases (lookup user s.accounts)) [
  | inl e ↦ rw (e, Ensures) (new e)
  | inr (a, e) ↦ rw (e, Ensures) old
]

abbrev pub moved : Entry → Account → Store → Store
moved e a s = record s {
  accounts =
      insert e.user_id
        (record {
          balance = a.balance +ℤ e.balance_delta;
          reserved = a.reserved +ℤ e.reserved_delta;
        })
        s.accounts;
  ledger = e ∷ s.ledger;
}

pub post_entry-Ensures :
    (Q : ⊤ → Store → Type 0) (e : Entry) (s : Store)
    → Q tt s
    → ((a : Account) → lookup e.user_id s.accounts ≡ some a → Q tt (moved e a s))
    → Ensures Q (post_entry e s)
unfolding post_entry
post_entry-Ensures Q e s same new = elim (Option-cases (lookup e.user_id s.accounts)) [
  | inl unknown ↦ ground arith
  | inr (a, known) ↦ ground (arith, new a known)
]

pub insert_reservation-Ensures :
    (Q : Reservation → Store → Type 0) (r : Reservation) (s : Store)
    → (lookup r.order_id s.reservations ≡ none → Q (as_stored r) (store_row (as_stored r) s))
    → Ensures Q (insert_reservation r s)
unfolding insert_reservation
insert_reservation-Ensures Q r s h = elim (Option-cases (lookup r.order_id s.reservations)) [
  | inl new ↦ rw (new, Ensures) (h new)
  | inr (old, known) ↦ rw (known, Ensures) tt
]

pub update_reservation-Ensures :
    (Q : Reservation → Store → Type 0) (db_now : ℕ) (r : Reservation) (expected : ℕ) (s : Store)
    → ((old : Reservation)
        → lookup r.order_id s.reservations ≡ some old
        → is_terminal old.status ≡ false
        → Q (next_row db_now r old) (store_row (next_row db_now r old) s))
    → Ensures Q (update_reservation db_now r expected s)
unfolding update_reservation
update_reservation-Ensures Q db_now r expected s h =
    elim (Option-cases (lookup r.order_id s.reservations)) [
      | inl new ↦ rw (new, Ensures) tt
      | inr (old, known) ↦ elim (Bool-cases (is_terminal old.status)) [
        | inl closed ↦ ground arith
        | inr live ↦ elim (Bool-cases (not (old.revision == expected))) [
          | inl stale ↦ rw (known, stale, Ensures) tt
          | inr fresh ↦ rw (known, fresh, live, Ensures) (h old known live)
        ]
      ]
    ]

pub insert_assignment-Ensures :
    (Q : ⊤ → Store → Type 0) (a : Assignment) (s : Store)
    → (s.assignments a.order_id a.assignment_id ≡ none
        → Q tt (store_assignment a.order_id a.assignment_id a s))
    → Ensures Q (insert_assignment a s)
unfolding insert_assignment
insert_assignment-Ensures Q a s h = elim (Option-cases (s.assignments a.order_id a.assignment_id)) [
  | inl new ↦ rw (new, Ensures) (h new)
  | inr (old, known) ↦ rw (known, Ensures) tt
]

pub revert_assignment-Ensures :
    (Q : ⊤ → Store → Type 0) (order id at : ℕ) (s : Store)
    → ((a : Assignment)
        → s.assignments order id ≡ some a
        → is_reverted a.status ≡ false
        → Q tt
            (store_assignment order id (record a { status = reverted; reverted_at = some at }) s))
    → Ensures Q (revert_assignment order id at s)
unfolding revert_assignment
revert_assignment-Ensures Q order id at s h = elim (Option-cases (s.assignments order id)) [
  | inl unknown ↦ rw (unknown, Ensures) tt
  | inr (a, known) ↦ elim (Bool-cases (is_reverted a.status)) [
    | inl done ↦ rw (known, done, Ensures) tt
    | inr live ↦ rw (known, live, Ensures) (h a known live)
  ]
]
