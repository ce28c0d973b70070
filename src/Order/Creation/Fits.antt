-- ===== src/Order/Creation/Fits.antt =====
-- Which status of an order fits which phase of its creation, and that no change of an order but the
-- two that settle a creation leads to a status that no longer fits.
use fo_c.Base.{
  ◌≡◌, refl, Bool, true, false, not, ◌&&◌, none, some, Result, ok, err, arith, if◌then◌else◌,
  Bool-cases, inl, inr,
}
use mathlib.Core.Path.{subst}
use fo_c.Order.Types.{
  Status, pending_reservation, rejected, eqb_status, Order, OrderError, Actor, Action,
  confirm_reservation, refuse_reservation, Texts,
}
use fo_c.Order.Transitions.{allowed_destination, transition, is_action_allowed, may}
use fo_c.Order.Changes.{are_fields_valid}
use fo_c.Order.Facts.{move_error, lifecycle_error, transition_error, metadata_error}
use fo_c.Order.Lifecycle.{transition_passed}
use fo_c.Order.Outcomes.{then_fields-passes, moved_error, eqb_status-same}
use fo_c.Order.Workflow.{
  CreationPhase, reserve_pending, abort_pending, creation_opened, creation_rejected,
}

-- An unresolved creation is that of an order that awaits its reservation; a rejected one is that of
-- a rejected order, and an opened one that of an order that was neither since.
abbrev pub fits : CreationPhase → Status → Bool
fits reserve_pending s = eqb_status s pending_reservation
fits abort_pending s = eqb_status s pending_reservation
fits creation_opened s = not (eqb_status s pending_reservation) && not (eqb_status s rejected)
fits creation_rejected s = eqb_status s rejected

-- The actions that settle a creation.
abbrev pub settles : Action → Bool
settles confirm_reservation = true
settles refuse_reservation = true
settles _ = false

may-fits :
    (x : Texts) (p : CreationPhase) (o : Order) (action : Action) (actor : Actor)
    → settles action ≡ false
    → may x o action actor ≡ true
    → fits p o.status ≡ true
    → fits p (allowed_destination x o action actor) ≡ true
unfolding may is_action_allowed
may-fits x p o action actor other allowed h = ground arith

move_passes :
    (x : Texts) (b a : Order) (actor : Actor) (action : Action)
    (r : Result OrderError (Status × Bool))
    → move_error x b a actor action r ≡ none
    → (next : Status) × (r ≡ ok (next, false)) × (next ≡ a.status)
move_passes x b a actor action (err e) h = absurd (cc)
move_passes x b a actor action (ok (next, true)) h = absurd (cc)
move_passes x b a actor action (ok (next, false)) h =
    (next, refl, eqb_status-same next a.status (ground arith))

moved-fits :
    (x : Texts) (p : CreationPhase) (b a : Order) (actor : Actor) (action : Action)
    → settles action ≡ false
    → transition_error x b a actor action ≡ none
    → fits p b.status ≡ true
    → fits p a.status ≡ true
unfolding transition_error
moved-fits x p b a actor action other passes h =
    let (next, moves, leads) =
      move_passes x b a actor action (transition x b action actor) passes in
    let (destination, allowed, free) = transition_passed x b action actor next moves in
    subst (λ s. fits p s ≡ true) leads
      (subst (λ s. fits p s ≡ true) destination (may-fits x p b action actor other allowed h))

pub change-fits :
    (x : Texts) (p : CreationPhase) (b a : Order) (actor : Actor) (action : Action)
    → settles action ≡ false
    → lifecycle_error x (some b) a actor action ≡ none
    → fits p b.status ≡ true
    → fits p a.status ≡ true
unfolding lifecycle_error
change-fits x p b a actor action other passes h = elim (Bool-cases (eqb_status b.status a.status)) [
  | inl same ↦ subst (λ s. fits p s ≡ true) (eqb_status-same b.status a.status same) h
  | inr moved ↦
      moved-fits x p b a actor action other
        (moved_error (transition_error x b a actor action) (metadata_error x b a actor action)
          (eqb_status b.status a.status) moved
          ((then_fields-passes (are_fields_valid b a action)
            (if not (eqb_status b.status a.status)
              then transition_error x b a actor action
              else metadata_error x b a actor action)
            passes).0))
        h
]
