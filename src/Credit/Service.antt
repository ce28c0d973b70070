-- ===== src/Credit/Service.antt =====
-- credit-service/internal/reservation/service.go: what every reservation call shares. UUID parsing
-- and the SHA-256 of the JSON payload are code of other packages: `parse_uuid` and `request_hash`.
use Prim.Native.String.{String}
use fo_c.Base.{
  ℕ, Bool, true, false, not, ◌&&◌, ◌||◌, ⊤, Option, none, some, Result, ok, err, ◌==◌,
  if◌then◌else◌,
}
use fo_c.Base.Dict.{lookup}
use fo_c.Credit.Types.{
  Error, invalid_argument, insufficient_credits, idempotency_conflict, reservation_not_found,
  reservation_released, adjustment_reverted, missing_assignment, Status, assigned, released,
  applied, is_reverted, Reservation, Assignment, eqb_kind, op_reserve, op_adjust, OperationKey,
  Operation, Payload, MutationResult, produced, insufficient,
}
use fo_c.Credit.Store.{
  Commit, Store, Action, pure, fail, ◌>>=◌, ◌>>◌, within, save_operation, get_reservation,
  get_revision,
}

-- What a call meets: the service's clock, the database's, and how its commit ends.
pub record Env : Type 0 where
  pub now : ℕ
  pub db_now : ℕ
  pub commit : Commit

-- What the service relies on that is not part of it.
pub record Library : Type 0 where
  pub parse_uuid : String → Option ℕ
  pub request_hash : Payload → ℕ

abbrev pub canonical_id : Library → String → Result Error ℕ
canonical_id l text = elim (l.parse_uuid text) [ none ↦ err invalid_argument | some id ↦ ok id ]

-- `withAdjustment`
unfoldable pub with_adjustment : Reservation → Action Reservation
with_adjustment r s = elim r.status [
  | assigned ↦ elim r.assignment_id [
    | none ↦ err missing_assignment
    | some id ↦ elim (s.assignments r.order_id id) [
      | none ↦ err missing_assignment
      | some a ↦ ok (
        record r {
          adjustment = some (record {
            assignment_id = a.assignment_id;
            courier_id = a.courier_id;
            previous_amount = r.original_amount;
            offer_amount = a.offer_amount;
            status = applied;
          });
        },
        s,
      )
    ]
  ]
  | _ ↦ ok (record r { adjustment = none }, s)
]

abbrev pub is_released : Status → Bool
is_released released = true
is_released _ = false

abbrev pub released_row : Option Reservation → Bool
released_row none = false
released_row (some r) = is_released r.status

abbrev pub reverted_row : Option Assignment → Bool
reverted_row none = false
reverted_row (some a) = is_reverted a.status

abbrev pub assignment_of : OperationKey → Store → Option Assignment
assignment_of k s = elim k.assignment_id [ none ↦ none | some id ↦ s.assignments k.order_id id ]

-- `checkReplay`
unfoldable pub check_replay : OperationKey → Action ⊤
check_replay k s =
    if not (eqb_kind k.kind op_reserve || eqb_kind k.kind op_adjust)
    then ok (tt, s)
    else if released_row (lookup k.order_id s.reservations)
    then err reservation_released
    else if eqb_kind k.kind op_adjust && reverted_row (assignment_of k s)
    then err adjustment_reverted
    else ok (tt, s)

-- The branch of `mutate` for a repeated call.
unfoldable pub replay : OperationKey → ℕ → Operation → Action MutationResult
unfolding check_replay with_adjustment
replay k hash op s =
    if not (op.request_hash == hash)
    then err idempotency_conflict
    else (check_replay k
          >> (if op.insufficient then pure insufficient else do
            r ← get_revision k.order_id op.revision
            r' ← with_adjustment r
            pure (produced r')))
        s

abbrev pub result_revision : MutationResult → ℕ
result_revision (produced r) = r.revision
result_revision insufficient = 0

abbrev pub is_insufficient : MutationResult → Bool
is_insufficient (produced r) = false
is_insufficient insufficient = true

abbrev pub describe : MutationResult → Action MutationResult
describe (produced r) = do r' ← with_adjustment r; pure (produced r')
describe insufficient = pure insufficient

abbrev pub recorded : ℕ → ℕ → MutationResult → Operation
recorded now hash out = record {
  request_hash = hash;
  revision = result_revision out;
  insufficient = is_insufficient out;
  created_at = now;
}

-- The branch of `mutate` for a first call.
unfoldable pub first_call : ℕ → OperationKey → ℕ → Action MutationResult → Action MutationResult
unfolding with_adjustment save_operation
first_call now k hash apply = do out ← apply; save_operation k (recorded now hash out); describe out

unfoldable pub mutate_tx : ℕ → OperationKey → ℕ → Action MutationResult → Action MutationResult
unfolding replay first_call
mutate_tx now k hash apply s = elim (s.operations k) [
  | some op ↦ replay k hash op s
  | none ↦ first_call now k hash apply s
]

abbrev pub answer : Result Error MutationResult × Store → Result Error Reservation × Store
answer (ok (produced r), s) = (ok r, s)
answer (ok insufficient, s) = (err insufficient_credits, s)
answer (err e, s) = (err e, s)

-- `mutate`
unfoldable pub mutate :
    Library
    → Env
    → OperationKey
    → Payload
    → Action MutationResult
    → Store
    → Result Error Reservation × Store
unfolding mutate_tx within
mutate l env k payload apply s =
    answer (within env.commit (mutate_tx env.now k (l.request_hash payload) apply) s)

-- `GetReservation`, after its id is parsed
unfoldable pub get_reservation_tx : ℕ → Action Reservation
unfolding with_adjustment
get_reservation_tx order = do
  r ← get_reservation order
  elim r [ none ↦ fail reservation_not_found | some r' ↦ with_adjustment r' ]
