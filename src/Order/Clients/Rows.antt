-- ===== src/Order/Clients/Rows.antt =====
-- The reservations that the credit service stores behind what its client reads.
use fo_c.Base.{ℕ, ◌≡◌, refl, sym, ap, ◌∙◌, true, Option, none, some, Result, ok, err, arith}
use fo_c.Base.Int.{ℤ, eqb_ℤ}
use fo_c.Base.Dict.{lookup}
use fo_c.Credit.Types.{Error, reservation_not_found, held, Reservation}
use fo_c.Credit.Store.{Commit, succeeds, fails, lost, Store, Action, fail, conclude, within}
use fo_c.Credit.Service.{with_adjustment, get_reservation_tx}
use fo_c.Order.Workflow.{reservation_held, ReservationView, CreationWorkflow}
use fo_c.Order.Creation.{is_matching_hold}
use fo_c.Order.Clients.{requester_number, view_reply}

-- Credit holds exactly what the creation asked for.
pub record Backs (store : Store) (w : CreationWorkflow) : Type 0 where
  pub row : Reservation
  pub found : lookup w.order_id store.reservations ≡ some row
  pub is_held : row.status ≡ held
  pub requester : requester_number row.requester_id ≡ w.requester_id
  pub original : row.original_amount ≡ w.amount
  pub reserved : row.reserved_amount ≡ w.amount

-- A view of a hold shows the held row of that id.
record Shows (id : ℕ) (r : Reservation) (v : ReservationView) : Type 0 where
  pub own : v.order_id ≡ id
  pub same_status : r.status ≡ held
  pub same_requester : requester_number r.requester_id ≡ v.requester_id
  pub same_original : r.original_amount ≡ v.original_amount
  pub same_reserved : r.reserved_amount ≡ v.reserved_amount

reply-Shows :
    (id : ℕ) (r : Reservation) (v : ReservationView)
    → view_reply id (ok r) ≡ some v
    → v.state ≡ reservation_held
    → Shows id r v
unfolding view_reply
reply-Shows id r v shows is = record {
  own = ground arith;
  same_status = ground arith;
  same_requester = ground arith;
  same_original = ground arith;
  same_reserved = ground arith;
}

-- A response that is held is the stored row.
stored_row :
    (r r' : Reservation) (s s' : Store)
    → with_adjustment r s ≡ ok (r', s')
    → r'.status ≡ held
    → r' ≡ record r { adjustment = none }
unfolding with_adjustment
stored_row r r' s s' e is = ground arith

matches_hold :
    (v : ReservationView) (w : CreationWorkflow)
    → is_matching_hold v w ≡ true
    → (v.state ≡ reservation_held) × (v.order_id ≡ w.order_id) × (v.requester_id ≡ w.requester_id)
unfolding is_matching_hold
matches_hold v w h = (ground arith, ground arith, ground arith)

matches_amounts :
    (v : ReservationView) (w : CreationWorkflow)
    → is_matching_hold v w ≡ true
    → (eqb_ℤ v.original_amount w.amount ≡ true) × (eqb_ℤ v.reserved_amount w.amount ≡ true)
unfolding is_matching_hold
matches_amounts v w h = (ground arith, ground arith)

same_amount : (a b : ℤ) → eqb_ℤ a b ≡ true → a ≡ b
same_amount a b h = ground arith

ok_injective :
    {q r : Reservation} (a b : Result Error Reservation) → a ≡ ok q → b ≡ ok r → a ≡ b → q ≡ r
ok_injective a b h k e = cc

-- The row that a response which is held stands for.
held_row :
    (commit : Commit) (id : ℕ) (r' : Reservation) (store : Store)
    → (within commit (get_reservation_tx id) store).0 ≡ ok r'
    → r'.status ≡ held
    → (r : Reservation) × (lookup id store.reservations ≡ some r)
      × (r' ≡ record r { adjustment = none })
unfolding within get_reservation_tx
held_row commit id r' store e is = go commit (lookup id store.reservations) refl e
  where
    go :
        (commit : Commit) (found : Option Reservation)
        → lookup id store.reservations ≡ found
        → (let response : Action Reservation = elim found [
          | none ↦ fail reservation_not_found
          | some r ↦ with_adjustment r
        ] in
            (conclude commit store (response store)).0 ≡ ok r')
        → (r : Reservation) × (lookup id store.reservations ≡ some r)
          × (r' ≡ record r { adjustment = none })
    go succeeds none at e = absurd (cc)
    go (fails x) none at e = absurd (cc)
    go (lost x) none at e = absurd (cc)
    go commit (some r) at e = (r, at, adjusted r commit (with_adjustment r store) refl e)
      where
        adjusted :
            (r : Reservation) (commit : Commit) (p : Result Error (Reservation × Store))
            → with_adjustment r store ≡ p
            → (conclude commit store p).0 ≡ ok r'
            → r' ≡ record r { adjustment = none }
        adjusted r succeeds (ok (q, u)) at e =
            stored_row r r' store u
              (at ∙ ap (λ z. ok (z, u)) (ok_injective (ok q) (ok r') refl refl e)) is
        adjusted r succeeds (err x) at e = absurd (cc)
        adjusted r (fails y) (ok (q, u)) at e = absurd (cc)
        adjusted r (fails y) (err x) at e = absurd (cc)
        adjusted r (lost y) (ok (q, u)) at e = absurd (cc)
        adjusted r (lost y) (err x) at e = absurd (cc)

-- A hold that a read shows backs the creation.
pub response-Backs :
    (commit : Commit) (id : ℕ) (v : ReservationView) (w : CreationWorkflow) (store : Store)
    (response : Result Error Reservation)
    → (within commit (get_reservation_tx id) store).0 ≡ response
    → view_reply id response ≡ some v
    → is_matching_hold v w ≡ true
    → Backs store w
unfolding view_reply
response-Backs commit id v w store (err e) reads shows matches = absurd (cc)
response-Backs commit id v w store (ok r') reads shows matches =
    let (state, order, requester) = matches_hold v w matches in
    let (original, reserved) = matches_amounts v w matches in
    let shown = reply-Shows id r' v shows state in
    let (r, found, same) = held_row commit id r' store reads shown.same_status in
    record {
      row = r;
      found = ap (λ i. lookup i store.reservations) (sym order ∙ shown.own) ∙ found;
      is_held = ap (λ q. q.status) (sym same) ∙ shown.same_status;
      requester =
          ap (λ q. requester_number q.requester_id) (sym same) ∙ shown.same_requester ∙ requester;
      original =
          ap (λ q. q.original_amount) (sym same)
          ∙ shown.same_original
          ∙ same_amount v.original_amount w.amount original;
      reserved =
          ap (λ q. q.reserved_amount) (sym same)
          ∙ shown.same_reserved
          ∙ same_amount v.reserved_amount w.amount reserved;
    }
