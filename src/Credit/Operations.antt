-- ===== src/Credit/Operations.antt =====
-- credit-service/internal/reservation/operations.go. The closure that a call hands to `mutate` is its
-- `_tx` action; the call itself parses its ids and checks its amounts first.
use Prim.Native.String.{String}
use fo_c.Base.{
  ℕ, Bool, true, false, ◌||◌, Option, none, some, [], ◌∷◌, Result, ok, err, if◌then◌else◌, is_some,
}
use fo_c.Base.Int.{ℤ, pos, ◌-ℤ◌, leb_ℤ, ltb_ℤ}
use fo_c.Credit.Types.{
  Error, invalid_argument, idempotency_conflict, reservation_not_found, reservation_released,
  reservation_settled, adjustment_pending, adjustment_reverted, database, Status, held, assigned,
  released, settled, applied, Reservation, Assignment, op_reserve, op_adjust, Account, available,
  reserve_payload, adjust_payload, reserve_entry, adjust_entry, Entry, MutationResult, produced,
  insufficient,
}
use fo_c.Credit.Store.{
  Store, Action, pure, fail, ◌>>=◌, ◌>>◌, post, lock_accounts, get_reservation, insert_reservation,
  update_reservation, get_assignment, insert_assignment,
}
use fo_c.Credit.Service.{Env, Library, canonical_id, is_released, reverted_row, mutate}

-- `accounts[id].Available()`: a map yields the zero account for a missing key.
abbrev pub available_of : (ℕ → Option Account) → ℕ → ℤ
available_of accounts user = elim (accounts user) [ none ↦ pos 0 | some a ↦ available a ]

-- The requester of a row that is not a tombstone. `uuid.MustParse` of the empty text panics.
abbrev pub requester_of : Reservation → Action ℕ
requester_of r s = elim r.requester_id [ none ↦ err database | some user ↦ ok (user, s) ]

abbrev pub new_reservation : ℕ → ℕ → ℤ → ℕ → Reservation
new_reservation order requester amount now = record {
  order_id = order;
  requester_id = some requester;
  status = held;
  original_amount = amount;
  reserved_amount = amount;
  assignment_id = none;
  adjustment = none;
  settlement = none;
  revision = 1;
  created_at = now;
  updated_at = now;
}

abbrev pub hold_entry : ℕ → ℕ → ℤ → Entry
hold_entry order requester amount = record {
  user_id = requester;
  kind = reserve_entry;
  balance_delta = pos 0;
  reserved_delta = amount;
  order_id = some order;
  assignment_id = none;
}

unfoldable pub reserve_new : ℕ → ℕ → ℤ → ℕ → Action MutationResult
unfolding lock_accounts insert_reservation post
reserve_new order requester amount now = do
  accounts ← lock_accounts (requester ∷ [])
  if ltb_ℤ (available_of accounts requester) amount then pure insufficient else do
    next ← insert_reservation (new_reservation order requester amount now)
    post (hold_entry order requester amount ∷ [])
    pure (produced next)

-- `Reserve`
unfoldable pub reserve_tx : ℕ → ℕ → ℤ → ℕ → Action MutationResult
unfolding reserve_new
reserve_tx order requester amount now = do
  r ← get_reservation order
  elim r [
    | some r' ↦ fail (if is_released r'.status then reservation_released else idempotency_conflict)
    | none ↦ reserve_new order requester amount now
  ]

unfoldable pub reserve :
    Library → Env → String → String → ℤ → Store → Result Error Reservation × Store
reserve l env order_text requester_text amount s = elim (canonical_id l order_text) [
  | err e ↦ (err e, s)
  | ok order ↦ elim (canonical_id l requester_text) [
    | err e ↦ (err e, s)
    | ok requester ↦
        if leb_ℤ amount (pos 0)
        then (err invalid_argument, s)
        else mutate l env (record { kind = op_reserve; order_id = order; assignment_id = none })
            (reserve_payload requester amount) (reserve_tx order requester amount env.now) s
  ]
]

-- `requireOpen`
abbrev pub require_open : Option Reservation → Action Reservation
require_open none s = err reservation_not_found
require_open (some r) s = elim r.status [
  | released ↦ err reservation_released
  | settled ↦ err reservation_settled
  | _ ↦ ok (r, s)
]

abbrev pub is_assigned : Status → Bool
is_assigned assigned = true
is_assigned _ = false

abbrev pub offer_row : ℕ → ℕ → ℕ → ℤ → ℕ → Assignment
offer_row order id courier offer now = record {
  order_id = order;
  assignment_id = id;
  courier_id = some courier;
  offer_amount = offer;
  status = applied;
  created_at = now;
  reverted_at = none;
}

abbrev pub adjustment_entry : ℕ → ℕ → ℕ → ℤ → Entry
adjustment_entry order id user delta = record {
  user_id = user;
  kind = adjust_entry;
  balance_delta = pos 0;
  reserved_delta = delta;
  order_id = some order;
  assignment_id = some id;
}

-- The part of `AdjustReservation` after its checks.
unfoldable pub apply_offer : Reservation → ℕ → ℕ → ℤ → ℕ → ℕ → Action MutationResult
unfolding lock_accounts insert_assignment update_reservation post
apply_offer r id courier offer now db_now = do
  requester ← requester_of r
  let delta = offer -ℤ r.reserved_amount
  accounts ← lock_accounts (requester ∷ [])
  if ltb_ℤ (available_of accounts requester) delta then pure insufficient else do
    insert_assignment (offer_row r.order_id id courier offer now)
    next ←
        update_reservation db_now
          (record r { status = assigned; reserved_amount = offer; assignment_id = some id })
          r.revision
    post (adjustment_entry r.order_id id requester delta ∷ [])
    pure (produced next)

-- `AdjustReservation`
unfoldable pub adjust_tx : ℕ → ℕ → ℕ → ℤ → ℕ → ℕ → Action MutationResult
unfolding apply_offer
adjust_tx order id courier offer now db_now = do
  found ← get_reservation order
  r ← require_open found
  if ltb_ℤ offer r.original_amount then fail invalid_argument else do
    a ← get_assignment order id
    if reverted_row a
        then fail adjustment_reverted
        else if is_some a || is_assigned r.status
        then fail adjustment_pending
        else apply_offer r id courier offer now db_now

unfoldable pub adjust_reservation :
    Library → Env → String → String → String → ℤ → Store → Result Error Reservation × Store
adjust_reservation l env order_text id_text courier_text offer s =
    elim (canonical_id l order_text) [
      | err e ↦ (err e, s)
      | ok order ↦ elim (canonical_id l id_text) [
        | err e ↦ (err e, s)
        | ok id ↦ elim (canonical_id l courier_text) [
          | err e ↦ (err e, s)
          | ok courier ↦
              if leb_ℤ offer (pos 0)
              then (err invalid_argument, s)
              else mutate l env
                  (record { kind = op_adjust; order_id = order; assignment_id = some id })
                  (adjust_payload courier offer)
                  (adjust_tx order id courier offer env.now env.db_now) s
        ]
      ]
    ]
