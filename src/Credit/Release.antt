-- ===== src/Credit/Release.antt =====
-- credit-service/internal/reservation/operations.go: `RevertAdjustment`, `ReleaseReservation` and
-- `release`, which order outcomes share.
use Prim.Native.String.{String}
use fo_c.Base.{
  ℕ, Bool, true, false, not, ◌||◌, Option, none, some, [], ◌∷◌, Result, ok, err, eqb_option,
  if◌then◌else◌,
}
use fo_c.Base.Int.{ℤ, pos, ◌-ℤ◌, neg}
use fo_c.Credit.Types.{
  Error, invalid_argument, reservation_not_found, reservation_settled, Status, held, released,
  settled, ReleaseReason, is_valid_reason, outcome_released, reverted, is_reverted, Reservation,
  Assignment, op_revert, op_release, revert_payload, release_payload, revert_entry, release_entry,
  Entry, MutationResult, produced,
}
use fo_c.Credit.Store.{
  Store, Action, pure, fail, ◌>>=◌, ◌>>◌, post, get_reservation, insert_reservation,
  update_reservation, get_assignment, insert_assignment, revert_assignment,
}
use fo_c.Credit.Service.{Env, Library, canonical_id, mutate}
use fo_c.Credit.Operations.{requester_of, is_assigned}

abbrev pub reverted_tombstone : ℕ → ℕ → ℕ → Assignment
reverted_tombstone order id now = record {
  order_id = order;
  assignment_id = id;
  courier_id = none;
  offer_amount = pos 0;
  status = reverted;
  created_at = now;
  reverted_at = some now;
}

abbrev pub reversal_entry : ℕ → ℕ → ℕ → ℤ → Entry
reversal_entry order id user delta = record {
  user_id = user;
  kind = revert_entry;
  balance_delta = pos 0;
  reserved_delta = delta;
  order_id = some order;
  assignment_id = some id;
}

-- The part of `RevertAdjustment` that gives the hold of the applied offer back.
unfoldable pub undo_offer : Reservation → ℕ → ℕ → Action MutationResult
unfolding update_reservation post
undo_offer r id db_now = do
  next ←
      update_reservation db_now
        (record r { status = held; reserved_amount = r.original_amount; assignment_id = none })
        r.revision
  requester ← requester_of r
  post (reversal_entry r.order_id id requester (r.original_amount -ℤ r.reserved_amount) ∷ [])
  pure (produced next)

abbrev pub is_settled : Status → Bool
is_settled settled = true
is_settled _ = false

-- `RevertAdjustment`, after the reservation is found
unfoldable pub revert_found : Reservation → ℕ → ℕ → ℕ → Action MutationResult
unfolding undo_offer insert_assignment revert_assignment
revert_found r id now db_now = do
  found ← get_assignment r.order_id id
  elim found [
    | none ↦ do insert_assignment (reverted_tombstone r.order_id id now); pure (produced r)
    | some a ↦ if is_reverted a.status then pure (produced r) else do
      revert_assignment r.order_id id now
      if not (is_assigned r.status) || not (eqb_option r.assignment_id (some id))
          then pure (produced r)
          else undo_offer r id db_now
  ]

-- `RevertAdjustment`
unfoldable pub revert_tx : ℕ → ℕ → ℕ → ℕ → Action MutationResult
unfolding revert_found
revert_tx order id now db_now = do
  found ← get_reservation order
  elim found [
    | none ↦ fail reservation_not_found
    | some r ↦
        if is_settled r.status then fail reservation_settled else revert_found r id now db_now
  ]

unfoldable pub revert_adjustment :
    Library → Env → String → String → Store → Result Error Reservation × Store
revert_adjustment l env order_text id_text s = elim (canonical_id l order_text) [
  | err e ↦ (err e, s)
  | ok order ↦ elim (canonical_id l id_text) [
    | err e ↦ (err e, s)
    | ok id ↦
        mutate l env (record { kind = op_revert; order_id = order; assignment_id = some id })
          revert_payload (revert_tx order id env.now env.db_now) s
  ]
]

abbrev pub released_tombstone : ℕ → ReleaseReason → ℕ → Reservation
released_tombstone order reason now = record {
  order_id = order;
  requester_id = none;
  status = released;
  original_amount = pos 0;
  reserved_amount = pos 0;
  assignment_id = none;
  adjustment = none;
  settlement = some (record {
    outcome = outcome_released;
    paid_to_courier = pos 0;
    returned_to_requester = pos 0;
    settled_at = now;
    release_reason = some reason;
    completion = none;
  });
  revision = 1;
  created_at = now;
  updated_at = now;
}

abbrev pub released_version : Reservation → ReleaseReason → ℕ → Reservation
released_version r reason now = record r {
  status = released;
  reserved_amount = pos 0;
  settlement = some (record {
    outcome = outcome_released;
    paid_to_courier = pos 0;
    returned_to_requester = r.reserved_amount;
    settled_at = now;
    release_reason = some reason;
    completion = none;
  });
}

abbrev pub return_entry : ℕ → ℕ → ℤ → Entry
return_entry order user amount = record {
  user_id = user;
  kind = release_entry;
  balance_delta = pos 0;
  reserved_delta = neg amount;
  order_id = some order;
  assignment_id = none;
}

-- The part of `release` for an open reservation.
unfoldable pub return_hold : Reservation → ReleaseReason → ℕ → ℕ → Action (Reservation × Bool)
unfolding update_reservation post
return_hold r reason now db_now = do
  next ← update_reservation db_now (released_version r reason now) r.revision
  requester ← requester_of r
  post (return_entry r.order_id requester r.reserved_amount ∷ [])
  pure (next, true)

-- `release`: the reservation, and whether anything changed
unfoldable pub release :
    ℕ → Option Reservation → ReleaseReason → ℕ → ℕ → Action (Reservation × Bool)
unfolding return_hold insert_reservation
release order none reason now db_now = do
  stored ← insert_reservation (released_tombstone order reason now)
  pure (stored, true)
release order (some r) reason now db_now = elim r.status [
  | settled ↦ fail reservation_settled
  | released ↦ pure (r, false)
  | _ ↦ return_hold r reason now db_now
]

-- `ReleaseReservation`
unfoldable pub release_tx : ℕ → ReleaseReason → ℕ → ℕ → Action MutationResult
unfolding release
release_tx order reason now db_now = do
  r ← get_reservation order
  (next, changed) ← release order r reason now db_now
  pure (produced next)

unfoldable pub release_reservation :
    Library → Env → String → ReleaseReason → Store → Result Error Reservation × Store
release_reservation l env order_text reason s = elim (canonical_id l order_text) [
  | err e ↦ (err e, s)
  | ok order ↦
      if is_valid_reason reason
      then mutate l env (record { kind = op_release; order_id = order; assignment_id = none })
          (release_payload reason) (release_tx order reason env.now env.db_now) s
      else (err invalid_argument, s)
]
