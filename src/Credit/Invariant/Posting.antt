-- ===== src/Credit/Invariant/Posting.antt =====
-- The end of every operation: the holds that its rows changed are posted.
use fo_c.Base.{ℕ, ◌≡◌, Bool, true, false, none, some, ◌==◌, if◌then◌else◌, List}
use fo_c.Base.Int.{ℤ, pos, ◌+ℤ◌, int_laws}
use fo_c.Base.Dict.{Dict, lookup, insert, sum_by-insert_new, sum_by-insert_old}
use fo_c.Credit.Types.{Reservation, Entry}
use fo_c.Credit.Store.{Store, post}
use fo_c.Credit.Ensures.{Ensures, Ensures-map, Ensures-all}
use fo_c.Credit.Ledger.{total_sum, reserved_sum, HasPosted, post-HasPosted}
use fo_c.Credit.Ledger.Opening.{HasOpened}
use fo_c.Credit.Invariant.{hold_of, held_by, Rows, Inv, Inv-step}

-- Opening accounts alone keeps the invariant.
pub Inv-opened : (s t : Store) → Inv s → ((u : ℕ) → HasOpened u s t) → Inv t
Inv-opened s t inv opened = record {
  booked = λ u. (opened u).books (inv.booked u);
  minted = grind (int_laws, (opened 0).minted, inv.minted);
  backed = λ u. rw ((opened 0).orders.same_reservations, ← inv.backed u) (opened u).reserves;
  rows =
      rw
        (
          (opened 0).orders.same_reservations,
          (opened 0).orders.same_assignments,
          (opened 0).orders.same_revisions,
        )
        inv.rows;
}

-- So does a change of the orders that moves no hold.
pub Inv-orders :
    (s p : Store)
    → Inv s
    → p.accounts ≡ s.accounts
    → p.ledger ≡ s.ledger
    → ((u : ℕ) → held_by u p.reservations ≡ held_by u s.reservations)
    → Rows p.reservations p.assignments p.revisions
    → Inv p
Inv-orders s p inv accounts ledger holds rows = record {
  booked = λ u. rw (accounts, ledger) (inv.booked u);
  minted = rw accounts inv.minted;
  backed = λ u. rw (accounts, holds u) (inv.backed u);
  rows = rows;
}

-- Posting what the rows changed gives the invariant back.
pub post-Inv :
    (es : List Entry) (s t p : Store)
    → Inv s
    → ((u : ℕ) → HasOpened u s t)
    → p.accounts ≡ t.accounts
    → p.ledger ≡ t.ledger
    → total_sum es ≡ pos 0
    → ((u : ℕ) → held_by u p.reservations ≡ held_by u s.reservations +ℤ reserved_sum u es)
    → Rows p.reservations p.assignments p.revisions
    → Ensures (λ _ v. Inv v) (post es p)
post-Inv es s t p inv opened accounts ledger zero holds rows =
    Ensures-map (post es p)
      (λ _ v posted. Inv-step es s t p v inv opened accounts ledger posted zero holds rows)
      (Ensures-all (λ u _ v. HasPosted u es p v) (post es p) (λ u. post-HasPosted u es p))

pub held_by-insert_new :
    (u key : ℕ) (row : Reservation) (d : Dict Reservation)
    → lookup key d ≡ none
    → held_by u (insert key row d) ≡ held_by u d +ℤ hold_of u row
held_by-insert_new u key row d new = sum_by-insert_new (hold_of u) key row d new

pub held_by-insert_old :
    (u key : ℕ) (row old : Reservation) (d : Dict Reservation)
    → lookup key d ≡ some old
    → held_by u (insert key row d) +ℤ hold_of u old ≡ held_by u d +ℤ hold_of u row
held_by-insert_old u key row old d known = sum_by-insert_old (hold_of u) key row old d known

cancel : (a b c d x : ℤ) → a +ℤ b ≡ c +ℤ d → d ≡ b +ℤ x → a ≡ c +ℤ x
cancel a b c d x p q = grind int_laws

choice :
    (b : Bool) (new old delta : ℤ)
    → new ≡ old +ℤ delta
    → (if b then new else pos 0)
      ≡ (if b then old else pos 0) +ℤ ((if b then delta else pos 0) +ℤ pos 0)
choice true new old delta e = grind int_laws
choice false new old delta e = grind int_laws

-- A new revision of a row moves its requester's holds by the change of the hold.
pub held_by-move :
    (u key requester : ℕ) (delta : ℤ) (row old : Reservation) (d : Dict Reservation)
    → lookup key d ≡ some old
    → row.requester_id ≡ some requester
    → old.requester_id ≡ some requester
    → row.reserved_amount ≡ old.reserved_amount +ℤ delta
    → held_by u (insert key row d)
      ≡ held_by u d +ℤ ((if requester == u then delta else pos 0) +ℤ pos 0)
held_by-move u key requester delta row old d known mine before e =
    cancel (held_by u (insert key row d)) (hold_of u old) (held_by u d) (hold_of u row)
      ((if requester == u then delta else pos 0) +ℤ pos 0)
      (held_by-insert_old u key row old d known)
      (rw (mine, before) (choice (requester == u) row.reserved_amount old.reserved_amount delta e))
