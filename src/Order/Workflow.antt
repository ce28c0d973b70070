-- ===== src/Order/Workflow.antt =====
-- order-service/internal/order/creationtypes.go and idempotency.go: the durable state of an order's
-- creation, what Credit is asked and answers, and the keys of retried requests. An id is a canonical
-- UUID, so `parseID` returns it; a generation and a count of attempts do not wrap.
use fo_c.Base.{ℕ, ◌+◌, Bool, true, false, Option, none, some, ◌==◌, if◌then◌else◌}
use fo_c.Base.Int.{ℤ}
use fo_c.Order.Types.{Order, OrderError}
use fo_c.Order.Offers.{Method, create_order}

-- `CreationRejection`, less the empty text, which is `none`
pub data CreationRejection : Type 0 where
  insufficient_credits creation_expired reservation_released : CreationRejection

-- The errors of the workflows: those of the policy, the sentinel errors of creationtypes.go and
-- idempotency.go, a rejection, and what the database refuses.
pub data Failure : Type 0 where
  policy : OrderError → Failure
  already_exists unavailable rate_limited integrity : Failure
  creation_refused : CreationRejection → Failure
  database : Failure

-- `ReservationState`
pub data ReservationState : Type 0 where
  reservation_held reservation_is_released : ReservationState

pub record ReservationIntent : Type 0 where
  pub order_id : ℕ
  pub requester_id : ℕ
  pub amount : ℤ

pub record ReservationView : Type 0 where
  pub order_id : ℕ
  pub requester_id : ℕ
  pub state : ReservationState
  pub original_amount : ℤ
  pub reserved_amount : ℤ

pub data CreationPhase : Type 0 where
  reserve_pending abort_pending creation_opened creation_rejected : CreationPhase

-- `==` on phases
abbrev pub eqb_phase : CreationPhase → CreationPhase → Bool
eqb_phase reserve_pending reserve_pending = true
eqb_phase abort_pending abort_pending = true
eqb_phase creation_opened creation_opened = true
eqb_phase creation_rejected creation_rejected = true
eqb_phase _ _ = false

-- The texts of `LastError`; `no_error` is the empty one.
pub data Diagnostic : Type 0 where
  no_error reservation_state_unknown release_unconfirmed reservation_mismatch : Diagnostic

pub record CreationWorkflow : Type 0 where
  pub id : ℕ
  pub order_id : ℕ
  pub requester_id : ℕ
  pub hash : ℕ
  pub canonical : ℕ
  pub amount : ℤ
  pub expires_at : ℕ
  pub phase : CreationPhase
  pub generation : ℕ
  pub attempts : ℕ
  pub lease_until : ℕ
  pub next_attempt_at : ℕ
  pub last_error : Diagnostic
  pub rejection : Option CreationRejection
  pub result : Option Order
  pub created_at : ℕ
  pub updated_at : ℕ

-- `CreationWorkflow.IsResolved`
abbrev pub is_resolved_phase : CreationPhase → Bool
is_resolved_phase creation_opened = true
is_resolved_phase creation_rejected = true
is_resolved_phase _ = false

-- `CreationWorkflow.Intent`
abbrev pub intent : CreationWorkflow → ReservationIntent
intent w = record { order_id = w.order_id; requester_id = w.requester_id; amount = w.amount }

-- `IdempotencyKey` with its scope, the caller and the method
pub record IdempotencyKey : Type 0 where
  pub caller_id : ℕ
  pub method : Method
  pub key : ℕ
  pub resource_id : ℕ
  pub request_hash : ℕ
  pub expires_at : ℕ

-- `CheckRequestHash`
unfoldable pub check_request_hash : IdempotencyKey → ℕ → Option Failure
check_request_hash k hash = if k.request_hash == hash then none else some already_exists

pub record CreationReplay : Type 0 where
  pub key : IdempotencyKey
  pub workflow : CreationWorkflow

-- 24 hours, in nanoseconds
abbrev retention : ℕ
retention = 86400000000000

-- `creationIdempotencyKey`
abbrev pub creation_key : CreationWorkflow → ℕ → IdempotencyKey
creation_key w key = record {
  caller_id = w.requester_id;
  method = create_order;
  key = key;
  resource_id = w.id;
  request_hash = w.hash;
  expires_at = w.created_at + retention;
}
