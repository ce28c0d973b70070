-- ===== src/Credit/Types.antt =====
-- credit-service/internal/reservation/types.go, repository.go (the records) and account/types.go.
-- A canonical UUID text is the number that it spells, and the empty text is `none`. A time counts
-- nanoseconds from Go's zero time, so `IsZero` is `== 0`.
use Prim.Native.String.{String}
use fo_c.Base.{ℕ, Bool, true, false, Option}
use fo_c.Base.Int.{ℤ, pos, ◌-ℤ◌}

-- The errors of both packages; `missing_assignment` is that of `withAdjustment`, and `database` is
-- what PostgreSQL refuses.
pub data Error : Type 0 where
  invalid_argument insufficient_credits idempotency_conflict reservation_not_found : Error
  reservation_released reservation_settled reservation_not_assigned adjustment_pending : Error
  adjustment_reverted outcome_mismatch aborted account_not_found : Error
  missing_assignment database : Error

pub data Status : Type 0 where
  held assigned released settled : Status

-- `other_reason` stands for every text that is none of the three constants.
pub data ReleaseReason : Type 0 where
  cancelled_before_pickup expired failed other_reason : ReleaseReason

-- `ReleaseReason.valid`
abbrev pub is_valid_reason : ReleaseReason → Bool
is_valid_reason other_reason = false
is_valid_reason _ = true

-- `==` and `!=` on release reasons
abbrev pub eqb_reason : ReleaseReason → ReleaseReason → Bool
eqb_reason cancelled_before_pickup cancelled_before_pickup = true
eqb_reason expired expired = true
eqb_reason failed failed = true
eqb_reason other_reason other_reason = true
eqb_reason _ _ = false

pub data SettlementOutcome : Type 0 where
  outcome_released outcome_completed outcome_cancelled_after_pickup : SettlementOutcome

abbrev pub eqb_outcome : SettlementOutcome → SettlementOutcome → Bool
eqb_outcome outcome_released outcome_released = true
eqb_outcome outcome_completed outcome_completed = true
eqb_outcome outcome_cancelled_after_pickup outcome_cancelled_after_pickup = true
eqb_outcome _ _ = false

pub data AdjustmentStatus : Type 0 where
  applied reverted : AdjustmentStatus

abbrev pub is_reverted : AdjustmentStatus → Bool
is_reverted applied = false
is_reverted reverted = true

pub record Completion : Type 0 where
  pub picked_up_at : ℕ
  pub delivered_at : ℕ
  pub delivery_duration : ℤ

pub record Settlement : Type 0 where
  pub outcome : SettlementOutcome
  pub paid_to_courier : ℤ
  pub returned_to_requester : ℤ
  pub settled_at : ℕ
  pub release_reason : Option ReleaseReason
  pub completion : Option Completion

pub record Adjustment : Type 0 where
  pub assignment_id : ℕ
  pub courier_id : Option ℕ
  pub previous_amount : ℤ
  pub offer_amount : ℤ
  pub status : AdjustmentStatus

pub record Reservation : Type 0 where
  pub order_id : ℕ
  pub requester_id : Option ℕ
  pub status : Status
  pub original_amount : ℤ
  pub reserved_amount : ℤ
  pub assignment_id : Option ℕ
  pub adjustment : Option Adjustment
  pub settlement : Option Settlement
  pub revision : ℕ
  pub created_at : ℕ
  pub updated_at : ℕ

pub record Assignment : Type 0 where
  pub order_id : ℕ
  pub assignment_id : ℕ
  pub courier_id : Option ℕ
  pub offer_amount : ℤ
  pub status : AdjustmentStatus
  pub created_at : ℕ
  pub reverted_at : Option ℕ

-- `unspecified` is the empty text that an unknown event type becomes.
pub data OutcomeType : Type 0 where
  order_completed order_cancelled_before_pickup order_cancelled_after_pickup : OutcomeType
  order_expired order_failed unspecified : OutcomeType

-- `OrderOutcome` as it arrives: its ids are not parsed yet.
pub record RawOutcome : Type 0 where
  pub order_text : String
  pub type : OutcomeType
  pub requester_text : String
  pub courier_text : String
  pub picked_up_at : ℕ
  pub delivered_at : ℕ
  pub delivery_duration : ℤ

-- `OrderOutcome` after `validate` has replaced its ids by canonical ones. The courier of a release
-- outcome is not parsed, and nothing reads it: `none`.
pub record OrderOutcome : Type 0 where
  pub order_id : ℕ
  pub type : OutcomeType
  pub requester_id : ℕ
  pub courier_id : Option ℕ
  pub picked_up_at : ℕ
  pub delivered_at : ℕ
  pub delivery_duration : ℤ

pub data OperationKind : Type 0 where
  op_reserve op_adjust op_revert op_release : OperationKind

abbrev pub eqb_kind : OperationKind → OperationKind → Bool
eqb_kind op_reserve op_reserve = true
eqb_kind op_adjust op_adjust = true
eqb_kind op_revert op_revert = true
eqb_kind op_release op_release = true
eqb_kind _ _ = false

pub record OperationKey : Type 0 where
  pub kind : OperationKind
  pub order_id : ℕ
  pub assignment_id : Option ℕ

-- The anonymous structs that the operations hash.
pub data Payload : Type 0 where
  reserve_payload : ℕ → ℤ → Payload
  adjust_payload : ℕ → ℤ → Payload
  revert_payload : Payload
  release_payload : ReleaseReason → Payload

pub record Operation : Type 0 where
  pub request_hash : ℕ
  pub revision : ℕ
  pub insufficient : Bool
  pub created_at : ℕ

-- `account.Kind`
pub data Kind : Type 0 where
  grant reserve_entry adjust_entry revert_entry release_entry payout_entry refund_entry : Kind

pub record Account : Type 0 where
  pub balance : ℤ
  pub reserved : ℤ

-- `Account.Available`
abbrev pub available : Account → ℤ
available a = a.balance -ℤ a.reserved

-- `StartingCredits`
abbrev pub starting_credits : ℤ
starting_credits = pos 100

-- `reservation.Entry` and `account.Posting`
pub record Entry : Type 0 where
  pub user_id : ℕ
  pub kind : Kind
  pub balance_delta : ℤ
  pub reserved_delta : ℤ
  pub order_id : Option ℕ
  pub assignment_id : Option ℕ

-- `result`: a reservation revision, or a rejection that is committed.
pub data MutationResult : Type 0 where
  produced : Reservation → MutationResult
  insufficient : MutationResult
