-- ===== src/Credit/System/History.antt =====
-- What no later call changes: terminal reservations, recorded revisions, ledger entries, offers that
-- were taken back.
use fo_c.Base.{ℕ, ◌≤◌, ◌≡◌, refl, ap, true, some, List, [], ◌∷◌, ◌++◌, arith, ◌==◌, if◌then◌else◌}
use fo_c.Base.Int.{ℤ}
use fo_c.Base.Dict.{lookup, lookup-insert}
use fo_c.Credit.Types.{Assignment, Entry, Reservation, OrderOutcome, is_reverted}
use fo_c.Credit.Store.{Store, insert_reservation, update_reservation, is_terminal, store_row}
use fo_c.Credit.Primitives.{next_row, as_stored}
use fo_c.Credit.Writes.{
  insert_account-Ensures, post_entry-Ensures, insert_reservation-Ensures,
  update_reservation-Ensures, insert_assignment-Ensures, revert_assignment-Ensures,
}
use fo_c.Credit.Service.{Env, Library}
use fo_c.Credit.System.{Command, run, empty}
use fo_c.Credit.System.Safety.{run-Inv}
use fo_c.Credit.System.Keeping.{Keeps, run-keeps}
use fo_c.Credit.System.Steps.{KeptByWrites}
use fo_c.Credit.System.Steps.Endings.{KeptByWrites-KeptByActions}

-- Every row stands under its own order id.
abbrev Keyed : Store → Type 0
Keyed s = (o : ℕ) (r : Reservation) → lookup o s.reservations ≡ some r → r.order_id ≡ o

store_row-Keyed : (row : Reservation) (s : Store) → Keyed s → Keyed (store_row row s)
store_row-Keyed row s keyed o r h =
    ground (arith, keyed o r, lookup-insert row.order_id o row s.reservations)

run-Keyed :
    (l : Library) (payout : ℤ → OrderOutcome → ℤ) (cs : List (Env × Command))
    → Keyed (run l payout cs empty)
run-Keyed l payout cs o r h = ((run-Inv l payout cs).rows.row o r h).keyed

abbrev Stores : ℕ → Reservation → Store → Type 0
Stores o r s = (lookup o s.reservations ≡ some r) × Keyed s

module _ (o : ℕ) (r : Reservation) (terminal : is_terminal r.status ≡ true) where
  terminal-KeptByWrites : KeptByWrites (Stores o r)
  terminal-KeptByWrites = record {
    ignores = λ s ops p. p;
    by_account = λ user s p. insert_account-Ensures (λ _ v. Stores o r v) user s p (λ new. p);
    by_post = λ e s p. post_entry-Ensures (λ _ v. Stores o r v) e s p (λ a known. p);
    by_insert = λ q s p.
        insert_reservation-Ensures (λ _ v. Stores o r v) q s
          (λ new. (
            ground (arith, lookup-insert q.order_id o (as_stored q) s.reservations, p.0),
            store_row-Keyed (as_stored q) s p.1,
          ));
    by_update = λ db_now q expected s p.
        update_reservation-Ensures (λ _ v. Stores o r v) db_now q expected s
          (λ old known live. (
            ground (
              arith,
              lookup-insert old.order_id o (next_row db_now q old) s.reservations,
              p.0,
              p.1 q.order_id old known,
            ),
            store_row-Keyed (next_row db_now q old) s p.1,
          ));
    by_offer = λ a s p. insert_assignment-Ensures (λ _ v. Stores o r v) a s (λ new. p);
    by_undo = λ order id at s p.
        revert_assignment-Ensures (λ _ v. Stores o r v) order id at s (λ a known live. p);
  }

-- Once a history from empty tables has released or settled a reservation, every later history of
-- commands leaves its row exactly as it is.
pub run-terminal :
    (l : Library) (payout : ℤ → OrderOutcome → ℤ) (before later : List (Env × Command))
    → (o : ℕ) (r : Reservation) → lookup o (run l payout before empty).reservations ≡ some r
    → is_terminal r.status ≡ true
    → lookup o (run l payout later (run l payout before empty)).reservations ≡ some r
run-terminal l payout before later o r stored terminal =
    (run-keeps (Stores o r)
      (KeptByWrites-KeptByActions (Stores o r) (terminal-KeptByWrites o r terminal)) l payout later
      (run l payout before empty) (stored, run-Keyed l payout before)).0

-- A recorded revision, which is not later than the current one.
record IsRecorded (o n : ℕ) (q : Reservation) (s : Store) : Type 0 where
  current : Reservation
  recorded : s.revisions o n ≡ some q
  stored : lookup o s.reservations ≡ some current
  not_later : n ≤ current.revision
  keyed : Keyed s

module _ (o n : ℕ) (q : Reservation) where
  same :
      (s t : Store)
      → t.reservations ≡ s.reservations
      → t.revisions ≡ s.revisions
      → IsRecorded o n q s
      → IsRecorded o n q t
  same s t rows past p = record {
    current = p.current;
    recorded = rw past p.recorded;
    stored = rw rows p.stored;
    not_later = p.not_later;
    keyed = rw rows p.keyed;
  }

  insert-IsRecorded : (r : Reservation) → Keeps (λ s. IsRecorded o n q s) (insert_reservation r)
  insert-IsRecorded r s p =
      insert_reservation-Ensures (λ _ v. IsRecorded o n q v) r s
        (λ new. record {
          current = p.current;
          recorded = ground (arith, p.recorded, p.stored);
          stored =
              ground (arith, p.stored, lookup-insert r.order_id o (as_stored r) s.reservations);
          not_later = p.not_later;
          keyed = store_row-Keyed (as_stored r) s p.keyed;
        })

  update-IsRecorded :
      (db_now : ℕ) (r : Reservation) (expected : ℕ)
      → Keeps (λ s. IsRecorded o n q s) (update_reservation db_now r expected)
  update-IsRecorded db_now r expected s p =
      update_reservation-Ensures (λ _ v. IsRecorded o n q v) db_now r expected s
        (λ old known live. record {
          current = if r.order_id == o then next_row db_now r old else p.current;
          recorded =
              ground (arith, p.recorded, p.stored, p.not_later, p.keyed r.order_id old known);
          stored = ground (
            arith,
            p.stored,
            p.keyed r.order_id old known,
            lookup-insert old.order_id o (next_row db_now r old) s.reservations,
          );
          not_later = ground (arith, p.stored, p.not_later, p.keyed r.order_id old known);
          keyed = store_row-Keyed (next_row db_now r old) s p.keyed;
        })

  recorded-KeptByWrites : KeptByWrites (λ s. IsRecorded o n q s)
  recorded-KeptByWrites = record {
    ignores = λ s ops p. same s _ refl refl p;
    by_account = λ user s p.
        insert_account-Ensures (λ _ v. IsRecorded o n q v) user s p (λ new. same s _ refl refl p);
    by_post = λ e s p.
        post_entry-Ensures (λ _ v. IsRecorded o n q v) e s p (λ a known. same s _ refl refl p);
    by_insert = insert-IsRecorded;
    by_update = update-IsRecorded;
    by_offer = λ a s p.
        insert_assignment-Ensures (λ _ v. IsRecorded o n q v) a s (λ new. same s _ refl refl p);
    by_undo = λ order id at s p.
        revert_assignment-Ensures (λ _ v. IsRecorded o n q v) order id at s
          (λ a known live. same s _ refl refl p);
  }

-- A revision that a history from empty tables has recorded stays exactly as it is after every later
-- history.
pub run-recorded :
    (l : Library) (payout : ℤ → OrderOutcome → ℤ) (before later : List (Env × Command))
    → (o n : ℕ) (q : Reservation) → (run l payout before empty).revisions o n ≡ some q
    → (run l payout later (run l payout before empty)).revisions o n ≡ some q
run-recorded l payout before later o n q recorded =
    let (r, stored, not_later) = (run-Inv l payout before).rows.past o n q recorded in
    (run-keeps (λ v. IsRecorded o n q v)
      (KeptByWrites-KeptByActions (λ v. IsRecorded o n q v) (recorded-KeptByWrites o n q)) l payout
      later (run l payout before empty)
      (record {
        current = r;
        recorded = recorded;
        stored = stored;
        not_later = not_later;
        keyed = run-Keyed l payout before;
      })).recorded

abbrev Extends : List Entry → Store → Type 0
Extends es s = (new : List Entry) × (s.ledger ≡ new ++ es)

ledger-KeptByWrites : (es : List Entry) → KeptByWrites (Extends es)
ledger-KeptByWrites es = record {
  ignores = λ s ops p. p;
  by_account = λ user s p. insert_account-Ensures (λ _ v. Extends es v) user s p (λ new. p);
  by_post = λ e s p.
      post_entry-Ensures (λ _ v. Extends es v) e s p
        (λ a known. let (new, h) = p in (e ∷ new, ap (λ l. e ∷ l) h));
  by_insert = λ q s p. insert_reservation-Ensures (λ _ v. Extends es v) q s (λ new. p);
  by_update = λ db_now q expected s p.
      update_reservation-Ensures (λ _ v. Extends es v) db_now q expected s (λ old known live. p);
  by_offer = λ a s p. insert_assignment-Ensures (λ _ v. Extends es v) a s (λ new. p);
  by_undo = λ order id at s p.
      revert_assignment-Ensures (λ _ v. Extends es v) order id at s (λ a known live. p);
}

-- No command changes or removes an entry of the ledger: a later ledger is the earlier one with the
-- new entries before it.
pub run-append_only :
    (l : Library) (payout : ℤ → OrderOutcome → ℤ) (cs : List (Env × Command)) (s : Store)
    → (new : List Entry) × ((run l payout cs s).ledger ≡ new ++ s.ledger)
run-append_only l payout cs s =
    run-keeps (Extends s.ledger)
      (KeptByWrites-KeptByActions (Extends s.ledger) (ledger-KeptByWrites s.ledger)) l payout cs s
      ([], refl)

abbrev Offers : ℕ → ℕ → Assignment → Store → Type 0
Offers o i a s = s.assignments o i ≡ some a

reverted-KeptByWrites :
    (o i : ℕ) (a : Assignment) → is_reverted a.status ≡ true → KeptByWrites (Offers o i a)
reverted-KeptByWrites o i a h = record {
  ignores = λ s ops p. p;
  by_account = λ user s p. insert_account-Ensures (λ _ v. Offers o i a v) user s p (λ new. p);
  by_post = λ e s p. post_entry-Ensures (λ _ v. Offers o i a v) e s p (λ b known. p);
  by_insert = λ q s p. insert_reservation-Ensures (λ _ v. Offers o i a v) q s (λ new. p);
  by_update = λ db_now q expected s p.
      update_reservation-Ensures (λ _ v. Offers o i a v) db_now q expected s (λ old known live. p);
  by_offer = λ b s p. insert_assignment-Ensures (λ _ v. Offers o i a v) b s (λ new. ground arith);
  by_undo = λ order id at s p.
      revert_assignment-Ensures (λ _ v. Offers o i a v) order id at s
        (λ b known live. ground arith);
}

-- An offer that was taken back, or whose reversal arrived first, is left as it is by every later
-- history of commands.
pub run-reverted :
    (l : Library) (payout : ℤ → OrderOutcome → ℤ) (cs : List (Env × Command)) (s : Store)
    → (o i : ℕ) (a : Assignment) → s.assignments o i ≡ some a
    → is_reverted a.status ≡ true
    → (run l payout cs s).assignments o i ≡ some a
run-reverted l payout cs s o i a stored h =
    run-keeps (Offers o i a)
      (KeptByWrites-KeptByActions (Offers o i a) (reverted-KeptByWrites o i a h)) l payout cs s
      stored
