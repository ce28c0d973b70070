-- ===== src/Order/Creation.antt =====
-- order-service/internal/order/creationrecovery.go: one step of an order's creation. A step claims the
-- workflow in one transaction, asks Credit outside any transaction, and settles in another one.
pub mod Process
pub mod Fits
pub mod Linked
pub mod Follows
pub mod Held
pub mod Verdicts
pub mod Settlement
pub mod Admission
pub mod Steps
pub mod Run
pub mod Confirmed
pub mod Rounds
pub mod Create
pub mod Due
pub mod Backoff
pub mod Fencing
use fo_c.Base.{
  ℕ, suc, ◌+◌, ◌-◌, ◌*◌, ◌^◌, ◌%◌, Bool, true, false, not, ◌&&◌, ◌||◌, Option, none, some, ⊤,
  Result, ok, err, ltb, leb, ◌==◌, is_some, if◌then◌else◌,
}
use fo_c.Base.Int.{ℤ, pos, ◌+ℤ◌, eqb_ℤ}
use fo_c.Base.Transaction.{pure, from_result, ◌>>=◌, ◌>>◌}
use fo_c.Order.Types.{
  Status, pending_reservation, awaiting_courier, rejected, eqb_status, Order, Actor, system, Action,
  confirm_reservation, refuse_reservation, OrderError, not_found, conflict, Texts,
}
use fo_c.Order.Facts.{new_change, Change}
use fo_c.Order.Mutations.{built}
use fo_c.Order.Workflow.{
  Failure, policy, CreationRejection, insufficient_credits, creation_expired, reservation_released,
  ReservationState, reservation_held, reservation_is_released, ReservationView, CreationPhase,
  reserve_pending, abort_pending, creation_opened, creation_rejected, eqb_phase, Diagnostic,
  no_error, reservation_mismatch, CreationWorkflow, is_resolved_phase,
}
use fo_c.Order.Store.{Tx, Work, lock_order, relationships}
use fo_c.Order.Store.Apply.{apply}
use fo_c.Order.Store.Mutate.{lift, apply_some}
use fo_c.Order.Store.Creations.{try_lock_creation_order, lock_creation, save_creation}

-- A second, and `creationLease`, in nanoseconds
abbrev pub second : ℕ
second = 1000000000

abbrev pub creation_lease : ℕ
creation_lease = 15 * second

abbrev pub min : ℕ → ℕ → ℕ
min a b = if leb a b then a else b

-- The delay before its random part is added, an int64 that is read without its sign.
abbrev pub base_delay : ℕ → ℕ
base_delay attempt = (second * 2 ^ min (attempt - 1) 5) % 2 ^ 64

-- `creationRetryDelay`; `jitter` is the random part, at most a quarter of the base.
unfoldable pub creation_retry_delay : ℕ → ℕ → ℕ
creation_retry_delay attempt jitter = min (30 * second) (base_delay attempt + jitter)

-- `creationObservation`
pub record Observation : Type 0 where
  pub view : Option ReservationView
  pub refused : Bool
  pub diagnostic : Diagnostic

abbrev is_held : ReservationState → Bool
is_held reservation_held = true
is_held reservation_is_released = false

-- `isMatchingHold`
unfoldable pub is_matching_hold : ReservationView → CreationWorkflow → Bool
is_matching_hold v w =
    is_held v.state
    && (v.order_id == w.order_id)
    && (v.requester_id == w.requester_id)
    && eqb_ℤ v.original_amount w.amount
    && eqb_ℤ v.reserved_amount w.amount

-- `isReleased`
unfoldable pub is_released : ReservationView → ℕ → Bool
is_released v id = (v.order_id == id) && not (is_held v.state) && eqb_ℤ v.reserved_amount (pos 0)

abbrev pub shows_release : Option ReservationView → ℕ → Bool
shows_release none id = false
shows_release (some v) id = is_released v id

abbrev pub shows_hold : Option ReservationView → CreationWorkflow → Bool
shows_hold none w = false
shows_hold (some v) w = is_matching_hold v w

-- The claim

-- Whether the workflow is not due.
abbrev pub is_not_due : ℕ → CreationWorkflow → Bool
is_not_due now w =
    is_resolved_phase w.phase
    || ltb now w.lease_until
    || (ltb now w.next_attempt_at
        && (not (eqb_phase w.phase reserve_pending) || ltb now w.expires_at))

abbrev pub claimed_version : ℕ → CreationWorkflow → CreationWorkflow
claimed_version now w = record w {
  phase =
      if eqb_phase w.phase reserve_pending && leb w.expires_at now then abort_pending else w.phase;
  generation = suc w.generation;
  attempts = suc w.attempts;
  lease_until = now + creation_lease;
  updated_at = now;
}

-- What the first transaction claims of the locked rows; `none` where there is nothing to do.
unfoldable pub claim_of : ℕ → Order → CreationWorkflow → Result Failure (Option CreationWorkflow)
claim_of now o w =
    if is_not_due now w
    then ok none
    else if not (eqb_status o.status pending_reservation)
    then err (policy conflict)
    else ok (some (claimed_version now w))

abbrev pub save_claim : ℕ → Option CreationWorkflow → Work (Option CreationWorkflow)
save_claim expected none = pure none
save_claim expected (some w) = do save_creation w expected; pure (some w)

unfoldable pub claim_locked : ℕ → ℕ → Order → Work (Option CreationWorkflow)
unfolding lock_creation claim_of save_creation
claim_locked id now o = do
  w ← lock_creation id
  claimed ← from_result (claim_of now o w)
  save_claim w.generation claimed

-- `errors.Is(err, ErrNotFound)`
abbrev pub is_not_found : Failure → Bool
is_not_found (policy not_found) = true
is_not_found _ = false

-- The first transaction of `ProcessCreation`. An order that is not there, or that another
-- transaction has locked, is nothing to do.
unfoldable pub claim : Bool → ℕ → ℕ → Work (Option CreationWorkflow)
unfolding try_lock_creation_order claim_locked
claim contended id now t = elim (try_lock_creation_order contended id t) [
  | err e ↦ if is_not_found e then ok (none, t) else err e
  | ok (o, t') ↦ claim_locked id now o t'
]

-- The settlement

-- What the switch of the second transaction decides.
pub data Verdict : Type 0 where
  keeps aborts opens : Verdict
  rejects : CreationRejection → Verdict

unfoldable pub verdict : ℕ → Observation → CreationWorkflow → Verdict
verdict now seen w =
    if eqb_phase w.phase abort_pending
    then (if shows_release seen.view w.order_id then rejects creation_expired else keeps)
    else if seen.refused
    then rejects insufficient_credits
    else if leb w.expires_at now
    then aborts
    else if shows_release seen.view w.order_id
    then rejects reservation_released
    else if shows_hold seen.view w
    then opens
    else keeps

-- Whether the claim is no longer this call's.
abbrev pub is_superseded : ℕ → CreationWorkflow → CreationWorkflow → Bool
is_superseded now claimed w =
    not (w.id == claimed.id)
    || not (w.generation == claimed.generation)
    || not (eqb_phase w.phase claimed.phase)
    || is_resolved_phase w.phase
    || leb w.lease_until now

abbrev pub system_actor : Actor
system_actor = record { kind = system; id = 0 }

abbrev pub opened_order : ℕ → ℤ → Order → Order
opened_order now amount o = record o {
  status = awaiting_courier;
  reserved_credits = amount;
  revision = o.revision +ℤ pos 1;
  updated_at = now;
}

-- `reason` is the text of the rejection.
abbrev pub rejected_order : ℕ → ℕ → Order → Order
rejected_order now reason o = record o {
  status = rejected;
  revision = o.revision +ℤ pos 1;
  updated_at = now;
  closed_at = some now;
  close_reason = some reason;
}

module _ (x : Texts) (message : CreationRejection → ℕ) where
  -- The change of the order that the verdict asks for.
  unfoldable pub verdict_change :
      ℕ → Order → CreationWorkflow → Verdict → Result OrderError (Option Change)
  unfolding new_change
  verdict_change now o w keeps = ok none
  verdict_change now o w aborts = ok none
  verdict_change now o w opens =
      built (new_change x (some o) (opened_order now w.amount o) system_actor confirm_reservation 0)
  verdict_change now o w (rejects r) =
      built
        (new_change x (some o) (rejected_order now (message r) o) system_actor refuse_reservation 0)

  -- The phase, the rejection and the result that the verdict leaves.
  abbrev pub decided : ℕ → Order → CreationWorkflow → Verdict → CreationWorkflow
  decided now o w keeps = w
  decided now o w aborts = record w { phase = abort_pending }
  decided now o w opens = record w {
    phase = creation_opened;
    result = some (opened_order now w.amount o);
  }
  decided now o w (rejects r) = record w { phase = creation_rejected; rejection = some r }

  abbrev pub is_abort : Verdict → Bool
  is_abort aborts = true
  is_abort _ = false

  abbrev last_error_of : Observation → CreationWorkflow → Diagnostic
  last_error_of seen w =
      if is_resolved_phase w.phase
      then no_error
      else if is_some seen.view
          && not (shows_hold seen.view w)
          && not (shows_release seen.view w.order_id)
      then reservation_mismatch
      else seen.diagnostic

  abbrev next_attempt_of : ℕ → ℕ → Verdict → CreationWorkflow → ℕ
  next_attempt_of now jitter v w =
      let next = now + creation_retry_delay w.attempts jitter in
      if is_abort v
      then now
      else if eqb_phase w.phase reserve_pending && ltb w.expires_at next
      then w.expires_at
      else next

  -- The workflow that the second transaction saves, from the decided one.
  abbrev pub settled_version : ℕ → ℕ → Observation → Verdict → CreationWorkflow → CreationWorkflow
  settled_version now jitter seen v w = record w {
    lease_until = now;
    updated_at = now;
    last_error = last_error_of seen w;
    next_attempt_at = next_attempt_of now jitter v w;
  }

  abbrev pub settle_current : ℕ → ℕ → Observation → Order → CreationWorkflow → Work Bool
  settle_current now jitter seen o w = do
    change ← from_result (lift (verdict_change now o w (verdict now seen w)))
    apply_some x change
    save_creation
        (settled_version now jitter seen (verdict now seen w)
          (decided now o w (verdict now seen w)))
        w.generation
    pure (is_abort (verdict now seen w))

  abbrev pub settle_locked :
      ℕ → ℕ → CreationWorkflow → Observation → Order → CreationWorkflow → Work Bool
  settle_locked now jitter claimed seen o w =
      if is_superseded now claimed w
      then pure false
      else if not (eqb_status o.status pending_reservation)
      then (λ t. err (policy conflict))
      else settle_current now jitter seen o w

  -- The second transaction of `ProcessCreation`: whether the release is to follow at once.
  unfoldable pub settle : ℕ → ℕ → ℕ → CreationWorkflow → Observation → Work Bool
  unfolding lock_order relationships lock_creation verdict verdict_change apply save_creation
  settle id now jitter claimed seen = do
    o ← lock_order id
    offers ← relationships id
    w ← lock_creation id
    settle_locked now jitter claimed seen o w
