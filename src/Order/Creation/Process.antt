-- ===== src/Order/Creation/Process.antt =====
-- order-service/internal/order/creationrecovery.go (`ProcessCreation`, `observeCreation` and the scan)
-- with the Credit that it asks, of which only the answers are known. No other call reaches Credit
-- during a pass, and a scan goes over ids that are given, one after another.
use fo_c.Base.{
  ℕ, zero, suc, Bool, true, false, not, ◌&&◌, Option, none, some, List, [], ◌∷◌, ⊤, Result, ok, err,
  if◌then◌else◌,
}
use fo_c.Order.Types.{Texts}
use fo_c.Order.Workflow.{
  Failure, CreationRejection, ReservationIntent, ReservationView, reserve_pending, abort_pending,
  eqb_phase, no_error, reservation_state_unknown, release_unconfirmed, CreationWorkflow, intent,
}
use fo_c.Order.Store.{Tables, within}
use fo_c.Order.Creation.{Observation, is_released, claim, settle}

-- The answer of a call that changes Credit: `unknown` is an error that does not tell what happened.
pub data CreditReply : Type 0 where
  accepted insufficient unknown : CreditReply

-- `CreationCredit` on the state `C` of Credit; `none` is an error of the read.
pub record CreationCredit (C : Type 0) : Type 0 where
  pub reserve : ReservationIntent → C → CreditReply × C
  pub release_expired : ℕ → C → CreditReply × C
  pub get_reservation : ℕ → C → Option ReservationView

-- What a call of `ProcessCreation` meets: whether another transaction holds the order, the clock and
-- the random delay, and the errors of its two commits.
pub record Turn : Type 0 where
  pub contended : Bool
  pub claimed_at : ℕ
  pub settled_at : ℕ
  pub jitter : ℕ
  pub claim_commit : Option Failure
  pub settle_commit : Option Failure

-- What a call returned, with the state it left; `none` where the fuel ended.
abbrev pub Answer : Type 0 → Type 0
Answer C = Option (Result Failure ⊤) × (Tables × C)

abbrev pub is_insufficient : CreditReply → Bool
is_insufficient insufficient = true
is_insufficient _ = false

-- The observation that the read leads to.
unfoldable pub observation_of : CreationWorkflow → Option ReservationView → Observation
observation_of w none = record {
  view = none;
  refused = false;
  diagnostic = reservation_state_unknown;
}
observation_of w (some v) =
    if eqb_phase w.phase abort_pending && not (is_released v w.order_id)
    then record { view = none; refused = false; diagnostic = release_unconfirmed }
    else record { view = some v; refused = false; diagnostic = no_error }

module _ {C : Type 0} (credit : CreationCredit C) (x : Texts)
    (message : CreationRejection → ℕ) where
  abbrev pub call : CreationWorkflow → C → CreditReply × C
  call w c =
      if eqb_phase w.phase abort_pending
      then credit.release_expired w.order_id c
      else credit.reserve (intent w) c

  abbrev pub observe_after : CreationWorkflow → CreditReply × C → Observation × C
  observe_after w (reply, c) =
      if eqb_phase w.phase reserve_pending && is_insufficient reply
      then (record { view = none; refused = true; diagnostic = no_error }, c)
      else (observation_of w (credit.get_reservation w.order_id c), c)

  -- `observeCreation`
  unfoldable pub observe : CreationWorkflow → C → Observation × C
  unfolding observation_of
  observe w c = observe_after w (call w c)

  -- The second transaction and what it returns with the state.
  abbrev pub finish :
      Turn → ℕ → CreationWorkflow → Tables → Observation × C → Result Failure Bool × (Tables × C)
  finish turn id claimed s (seen, c) =
      let (result, s') =
        within turn.settle_commit (settle x message id turn.settled_at turn.jitter claimed seen)
          s in
      (result, (s', c))

  abbrev pub continue :
      Turn
      → ℕ
      → Result Failure (Option CreationWorkflow) × Tables
      → C
      → Result Failure Bool × (Tables × C)
  continue turn id (err e, s) c = (err e, (s, c))
  continue turn id (ok none, s) c = (ok false, (s, c))
  continue turn id (ok (some claimed), s) c = finish turn id claimed s (observe claimed c)

  -- One pass of `ProcessCreation`: whether it is to call itself.
  unfoldable pub step : Turn → ℕ → Tables × C → Result Failure Bool × (Tables × C)
  unfolding claim settle within observe
  step turn id (s, c) =
      continue turn id (within turn.claim_commit (claim turn.contended id turn.claimed_at) s) c

  -- What `ProcessCreation` does after a pass.
  abbrev pub after_step : (Tables × C → Answer C) → Result Failure Bool × (Tables × C) → Answer C
  after_step again (err e, w) = (some (err e), w)
  after_step again (ok true, w) = again w
  after_step again (ok false, w) = (some (ok tt), w)

  -- `ProcessCreation`. The n-th call of itself meets the n-th turn.
  unfoldable pub process : ℕ → (ℕ → Turn) → ℕ → Tables × C → Answer C
  unfolding step
  process zero turns id world = (none, world)
  process (suc fuel) turns id world =
      after_step (process fuel (λ n. turns (suc n)) id) (step (turns 0) id world)

  -- The body of `RecoverCreationsOnce`, with its workers one after another: an error of an attempt
  -- is logged.
  unfoldable pub recover_once : (ℕ → ℕ → Turn) → List ℕ → Tables × C → Tables × C
  unfolding process
  recover_once turns [] world = world
  recover_once turns (id ∷ ids) world =
      recover_once (λ n. turns (suc n)) ids (process 2 (turns 0) id world).1
