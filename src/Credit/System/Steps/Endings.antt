-- ===== src/Credit/System/Steps/Endings.antt =====
-- The same for the calls that end a reservation or take its offer back.
use fo_c.Base.{
  ◌||◌, not, eqb_option, ℕ, Bool, true, false, Option, none, some, [], ◌∷◌, arith, Option-cases,
  inl, inr, if◌then◌else◌,
}
use fo_c.Base.Int.{ℤ, pos, ◌-ℤ◌, ltb_ℤ}
use fo_c.Base.Dict.{lookup}
use fo_c.Credit.Types.{
  is_reverted, Status, Assignment, produced, reservation_settled, outcome_mismatch,
  reservation_not_assigned, Reservation, MutationResult, ReleaseReason, OrderOutcome, released,
  settled, held, assigned,
}
use fo_c.Credit.Store.{
  Store, Action, pure, fail, ◌>>◌, open_account, lock_accounts, insert_reservation,
  update_reservation, insert_assignment, revert_assignment, get_reservation, get_assignment,
}
use fo_c.Credit.Ensures.{Ensures}
use fo_c.Credit.System.Steps.{
  KeptByWrites, both, either, returns, fails, post-keeps, lock-keeps, open-keeps, reserve-keeps,
  adjust-keeps,
}
use fo_c.Credit.Operations.{is_assigned, requester_of}
use fo_c.Credit.Release.{
  is_settled, reverted_tombstone, reversal_entry, released_version, return_entry,
  released_tombstone, revert_tx, revert_found, undo_offer, release_tx, release, return_hold,
}
use fo_c.Credit.Outcome.{
  other_requester, settlement_entries, settled_version, get_own_assignment, applied_row,
  release_reason_of, contradicts, outcome_tx, apply_payout, settle, pay_out, repeat_settlement,
}
use fo_c.Credit.System.Keeping.{Keeps, KeptByActions}

module _ (P : Store → Type 0) (kept : KeptByWrites P) where
  undo_offer-keeps : (r : Reservation) (id db_now : ℕ) → Keeps P (undo_offer r id db_now)
  unfolding undo_offer
  undo_offer-keeps r id db_now =
      both P
        (update_reservation db_now
          (record r { status = held; reserved_amount = r.original_amount; assignment_id = none })
          r.revision)
        _
        (kept.by_update db_now
          (record r { status = held; reserved_amount = r.original_amount; assignment_id = none })
          r.revision)
        (λ next.
          both P (requester_of r) _ (λ s p. ground arith)
            (λ requester.
              both P _ (λ _. pure (produced next))
                (post-keeps P kept (
                  reversal_entry r.order_id id requester (r.original_amount -ℤ r.reserved_amount)
                  ∷ []))
                (λ _. returns P (produced next))))

  revert_found-keeps :
      (r : Reservation) (id now db_now : ℕ) → Keeps P (revert_found r id now db_now)
  unfolding revert_found
  revert_found-keeps r id now db_now = both P (get_assignment r.order_id id) _ (λ s p. p) after
    where
      after :
          (found : Option Assignment)
          → Keeps P (elim found as (λ _. Action MutationResult) [
            | none ↦ do insert_assignment (reverted_tombstone r.order_id id now); pure (produced r)
            | some a ↦ if is_reverted a.status then pure (produced r) else do
              revert_assignment r.order_id id now
              if not (is_assigned r.status) || not (eqb_option r.assignment_id (some id))
                  then pure (produced r)
                  else undo_offer r id db_now
          ])
      after none =
          both P (insert_assignment (reverted_tombstone r.order_id id now)) (λ _. pure (produced r))
            (kept.by_offer (reverted_tombstone r.order_id id now)) (λ _. returns P (produced r))
      after (some a) =
          either P (is_reverted a.status) (pure (produced r)) _ (returns P (produced r)) (
            both P (revert_assignment r.order_id id now) _ (kept.by_undo r.order_id id now) (λ _.
              either P (not (is_assigned r.status) || not (eqb_option r.assignment_id (some id)))
                (pure (produced r)) _ (returns P (produced r)) (undo_offer-keeps r id db_now)))

  pub revert-keeps : (order id now db_now : ℕ) → Keeps P (revert_tx order id now db_now)
  unfolding revert_tx
  revert-keeps order id now db_now s p = elim (Option-cases (lookup order s.reservations)) [
    | inl unknown ↦ rw (unknown, Ensures) tt
    | inr (r, known) ↦
        rw (known, Ensures)
          (either P (is_settled r.status) (fail reservation_settled) _
            (fails P MutationResult reservation_settled) (revert_found-keeps r id now db_now) s p)
  ]

  return_hold-keeps :
      (r : Reservation) (reason : ReleaseReason) (now db_now : ℕ)
      → Keeps P (return_hold r reason now db_now)
  unfolding return_hold
  return_hold-keeps r reason now db_now =
      both P (update_reservation db_now (released_version r reason now) r.revision) _
        (kept.by_update db_now (released_version r reason now) r.revision)
        (λ next.
          both P (requester_of r) _ (λ s p. ground arith)
            (λ requester.
              both P _ (λ _. pure (next, true))
                (post-keeps P kept (return_entry r.order_id requester r.reserved_amount ∷ []))
                (λ _ s p. p)))

  release-keeps :
      (order : ℕ) (found : Option Reservation) (reason : ReleaseReason) (now db_now : ℕ)
      → Keeps P (release order found reason now db_now)
  unfolding release
  release-keeps order none reason now db_now =
      both P (insert_reservation (released_tombstone order reason now)) _
        (kept.by_insert (released_tombstone order reason now)) (λ stored s p. p)
  release-keeps order (some r) reason now db_now = by_status r.status
    where
      by_status :
          (t : Status)
          → Keeps P (elim t as (λ _. Action (Reservation × Bool)) [
            | settled ↦ fail reservation_settled
            | released ↦ pure (r, false)
            | _ ↦ return_hold r reason now db_now
          ])
      by_status held = return_hold-keeps r reason now db_now
      by_status assigned = return_hold-keeps r reason now db_now
      by_status released = returns P {A = Reservation × Bool} (r, false)
      by_status settled = fails P (Reservation × Bool) reservation_settled

  pub release_tx-keeps :
      (order : ℕ) (reason : ReleaseReason) (now db_now : ℕ)
      → Keeps P (release_tx order reason now db_now)
  unfolding release_tx
  release_tx-keeps order reason now db_now =
      both P (get_reservation order) _ (λ s p. p)
        (λ r.
          both P (release order r reason now db_now) (λ x. pure (produced x.0))
            (release-keeps order r reason now db_now) (λ x s p. p))

  pay_out-keeps :
      (r : Reservation) (courier : ℕ) (o : OrderOutcome) (payable : ℤ) (now db_now : ℕ)
      → Keeps P (pay_out r courier o payable now db_now)
  unfolding pay_out
  pay_out-keeps r courier o payable now db_now =
      both P (requester_of r) _ (λ s p. ground arith)
        (λ requester.
          both P (lock_accounts (requester ∷ courier ∷ [])) _
            (lock-keeps P kept (requester ∷ courier ∷ []))
            (λ _.
              both P (update_reservation db_now (settled_version r o payable now) r.revision) _
                (kept.by_update db_now (settled_version r o payable now) r.revision)
                (λ next.
                  both P _ (λ _. pure next)
                    (post-keeps P kept (
                      settlement_entries r.order_id requester courier payable
                        (r.reserved_amount -ℤ payable)))
                    (λ _. returns P next))))

  settle-keeps :
      (r : Reservation) (o : OrderOutcome) (payout : ℤ → OrderOutcome → ℤ) (now db_now : ℕ)
      → Keeps P (settle r o payout now db_now)
  unfolding settle
  settle-keeps r o payout now db_now =
      both P (get_own_assignment r) _ (λ s p. ground arith) (λ a. of_offer (applied_row a))
    where
      of_offer :
          (a : Option Assignment)
          → Keeps P (elim a as (λ _. Action Reservation) [
            | none ↦ fail reservation_not_assigned
            | some a' ↦ elim a'.courier_id [
              | none ↦ fail outcome_mismatch
              | some courier ↦
                  if not (eqb_option (some courier) o.courier_id)
                  then fail outcome_mismatch
                  else let payable = payout a'.offer_amount o in
                    if ltb_ℤ payable (pos 0) || ltb_ℤ r.reserved_amount payable
                    then fail outcome_mismatch
                    else pay_out r courier o payable now db_now
            ]
          ])
      of_offer none s p = tt
      of_offer (some a) s p = elim (Option-cases a.courier_id) [
        | inl e ↦ ground arith
        | inr (courier, e) ↦
            ground (arith, pay_out-keeps r courier o (payout a.offer_amount o) now db_now s p)
      ]

  apply_payout-keeps :
      (found : Option Reservation) (o : OrderOutcome) (payout : ℤ → OrderOutcome → ℤ)
      (now db_now : ℕ)
      → Keeps P (apply_payout found o payout now db_now)
  unfolding apply_payout repeat_settlement
  apply_payout-keeps none o payout now db_now s p = tt
  apply_payout-keeps (some r) o payout now db_now s p =
      ground (arith, settle-keeps r o payout now db_now s p)

  pub outcome-keeps :
      (payout : ℤ → OrderOutcome → ℤ) (o : OrderOutcome) (now db_now : ℕ)
      → Keeps P (outcome_tx o payout now db_now)
  unfolding outcome_tx
  outcome-keeps payout o now db_now =
      both P (get_reservation o.order_id) _ (λ s p. p)
        (λ r.
          either P (other_requester r o.requester_id) (fail outcome_mismatch) _
            (fails P (Reservation × Bool) outcome_mismatch) (of_reason r))
    where
      of_reason :
          (r : Option Reservation)
          → Keeps P (elim (release_reason_of o.type) as (λ _. Action (Reservation × Bool)) [
            | some reason ↦
                if contradicts reason r
                then fail outcome_mismatch
                else release o.order_id r reason now db_now
            | none ↦ apply_payout r o payout now db_now
          ])
      of_reason r s p = elim (Option-cases (release_reason_of o.type)) [
        | inl e ↦ rw (e, Ensures) (apply_payout-keeps r o payout now db_now s p)
        | inr (reason, e) ↦
            rw (e, Ensures)
              (either P (contradicts reason r) (fail outcome_mismatch) _
                (fails P (Reservation × Bool) outcome_mismatch)
                (release-keeps o.order_id r reason now db_now) s p)
      ]

pub KeptByWrites-KeptByActions : (P : Store → Type 0) → KeptByWrites P → KeptByActions P
KeptByWrites-KeptByActions P kept = record {
  ignores = kept.ignores;
  by_reserve =
      λ order requester amount now positive. reserve-keeps P kept order requester amount now;
  by_adjust = adjust-keeps P kept;
  by_revert = revert-keeps P kept;
  by_release = release_tx-keeps P kept;
  by_outcome = outcome-keeps P kept;
  by_open = λ user. both P (open_account user) _ (open-keeps P kept user) (λ _ s p. p);
}
