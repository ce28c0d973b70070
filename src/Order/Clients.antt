-- ===== src/Order/Clients.antt =====
-- order-service/internal/clients/creation.go (`Credit`): the answers of the credit service as the order
-- service reads them. The conversion of messages is not modelled: a response is the service's result.
pub mod Rows
pub mod Backed
use Prim.Native.String.{String}
use fo_c.Base.{
  ℕ, suc, Bool, true, false, not, ◌&&◌, ◌||◌, Option, none, some, Result, ok, err, ◌==◌, is_some,
  if◌then◌else◌,
}
use fo_c.Base.Int.{ℤ, pos, ltb_ℤ, eqb_ℤ}
use fo_c.Credit.Types.{
  Error, insufficient_credits, Status, held, assigned, released, settled, expired, Reservation,
}
use fo_c.Credit.Store.{Store, within}
use fo_c.Credit.Service.{Library, Env, get_reservation_tx}
use fo_c.Credit.Operations.{reserve}
use fo_c.Credit.Release.{release_reservation}
use fo_c.Order.Workflow.{
  ReservationState, reservation_held, reservation_is_released, ReservationIntent, ReservationView,
}
use fo_c.Order.Creation.Process.{CreditReply, accepted, insufficient, unknown, CreationCredit}

-- The requester of a response; a row that names none has the empty text.
abbrev pub requester_number : Option ℕ → ℕ
requester_number none = 0
requester_number (some id) = id

-- What `Reserve` makes of the response.
unfoldable pub reserve_reply : ReservationIntent → Result Error Reservation → CreditReply
reserve_reply i (err insufficient_credits) = insufficient
reserve_reply i (err _) = unknown
reserve_reply i (ok r) =
    if (r.order_id == i.order_id)
      && (requester_number r.requester_id == i.requester_id)
      && eqb_ℤ r.original_amount i.amount
    then accepted
    else unknown

abbrev is_released_status : Status → Bool
is_released_status released = true
is_released_status _ = false

-- What `ReleaseExpired` makes of the response.
unfoldable pub release_reply : ℕ → Result Error Reservation → CreditReply
release_reply id (err _) = unknown
release_reply id (ok r) =
    if (r.order_id == id) && is_released_status r.status && eqb_ℤ r.reserved_amount (pos 0)
    then accepted
    else unknown

abbrev view_with : Reservation → ReservationState → Option ReservationView
view_with r state = some (record {
  order_id = r.order_id;
  requester_id = requester_number r.requester_id;
  state = state;
  original_amount = r.original_amount;
  reserved_amount = r.reserved_amount;
})

-- The switch on the status
abbrev pub view_by_status : Reservation → Status → Option ReservationView
view_by_status r held =
    if is_some r.adjustment || is_some r.settlement then none else view_with r reservation_held
view_by_status r released =
    if not (eqb_ℤ r.reserved_amount (pos 0)) || is_some r.adjustment
    then none
    else view_with r reservation_is_released
view_by_status r assigned = none
view_by_status r settled = none

-- What `GetReservation` makes of the response.
unfoldable pub view_reply : ℕ → Result Error Reservation → Option ReservationView
view_reply id (err _) = none
view_reply id (ok r) =
    if not (r.order_id == id) || ltb_ℤ r.original_amount (pos 0) || ltb_ℤ r.reserved_amount (pos 0)
    then none
    else view_by_status r r.status

-- The credit service with the number of changes that it was asked for; the n-th call meets the n-th
-- of `envs`, and `text` writes an id.
module _ (l : Library) (envs : ℕ → Env) (text : ℕ → String) where
  abbrev replied :
      (Result Error Reservation → CreditReply)
      → ℕ
      → Result Error Reservation × Store
      → CreditReply × (ℕ × Store)
  replied reply n (r, s) = (reply r, (suc n, s))

  abbrev reserve_call : ReservationIntent → ℕ × Store → CreditReply × (ℕ × Store)
  reserve_call i (n, s) =
      replied (reserve_reply i) n
        (reserve l (envs n) (text i.order_id) (text i.requester_id) i.amount s)

  abbrev release_call : ℕ → ℕ × Store → CreditReply × (ℕ × Store)
  release_call id (n, s) =
      replied (release_reply id) n (release_reservation l (envs n) (text id) expired s)

  abbrev pub read_call : ℕ → Store → Env → Option ℕ → Option ReservationView
  read_call id s env none = none
  read_call id s env (some order) = view_reply id (within env.commit (get_reservation_tx order) s).0

  abbrev pub view_call : ℕ → ℕ × Store → Option ReservationView
  view_call id (n, s) = read_call id s (envs n) (l.parse_uuid (text id))

  unfoldable pub credit_client : CreationCredit (ℕ × Store)
  unfolding reserve_reply release_reply view_reply reserve release_reservation within
      get_reservation_tx
  credit_client = record {
    reserve = reserve_call;
    release_expired = release_call;
    get_reservation = view_call;
  }
