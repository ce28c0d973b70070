-- ===== src/Order/Offers.antt =====
-- order-service/internal/order/assignmentpolicy.go: which changes of offers an assignment action may
-- carry.
use fo_c.Base.{
  ℕ, Bool, true, false, not, ◌&&◌, ◌||◌, Option, none, some, List, [], ◌∷◌, ◌==◌, is_some,
  if◌then◌else◌,
}
use fo_c.Base.Int.{ℤ, pos, leb_ℤ, eqb_ℤ}
use fo_c.Order.Types.{
  awaiting_courier, eqb_status, Order, Offer, OfferStatus, offer_open, offer_accepting,
  offer_accepted, offer_void, Actor, is_user, Action, propose_offer, begin_assignment,
  resolve_assignment, assign, accept_counteroffer, OrderError, forbidden, invalid, conflict, Texts,
  is_requested_by,
}
use fo_c.Order.Facts.{OfferChange}

-- The methods that keep request keys, `AcceptOffer`, and every other text.
pub data Method : Type 0 where
  accept_order make_offer create_order cancel_order accept_offer other_method : Method

abbrev method_rank : Method → ℕ
method_rank accept_order = 0
method_rank make_offer = 1
method_rank create_order = 2
method_rank cancel_order = 3
method_rank accept_offer = 4
method_rank other_method = 5

-- `==` on methods
abbrev pub eqb_method : Method → Method → Bool
eqb_method m n = method_rank m == method_rank n

-- The text "insufficient_credits", and every other text.
pub data Rejection : Type 0 where
  insufficient_rejection other_rejection : Rejection

pub data AssignmentPhase : Type 0 where
  adjustment_pending revert_pending assignment_succeeded assignment_rejected : AssignmentPhase

-- The fields that the policy reads.
pub record AssignmentAttempt : Type 0 where
  pub order_id : ℕ
  pub offer_id : ℕ
  pub caller_id : ℕ
  pub courier_id : ℕ
  pub method : Method
  pub amount : ℤ
  pub phase : AssignmentPhase
  pub rejection : Rejection

-- `IsResolved`
abbrev pub is_resolved : AssignmentAttempt → Bool
is_resolved a = elim a.phase [
  | assignment_succeeded ↦ true
  | assignment_rejected ↦ true
  | _ ↦ false
]

abbrev pub eqb_offer_status : OfferStatus → OfferStatus → Bool
eqb_offer_status offer_open offer_open = true
eqb_offer_status offer_accepting offer_accepting = true
eqb_offer_status offer_accepted offer_accepted = true
eqb_offer_status offer_void offer_void = true
eqb_offer_status _ _ = false

abbrev pub is_accept_order : Method → Bool
is_accept_order accept_order = true
is_accept_order _ = false

abbrev is_insufficient : Rejection → Bool
is_insufficient insufficient_rejection = true
is_insufficient other_rejection = false

-- `byID[id]`: a later offer with the same id replaces an earlier one.
abbrev pub by_id : ℕ → List Offer → Option Offer
by_id id [] = none
by_id id (f ∷ fs) =
    let rest = by_id id fs in if is_some rest then rest else if f.id == id then some f else none

abbrev pub has_seen : ℕ → List ℕ → Bool
has_seen id [] = false
has_seen id (j ∷ js) = (j == id) || has_seen id js

-- `matchesAttempt`
abbrev pub matches_attempt : AssignmentAttempt → Order → Actor → Bool
matches_attempt a before actor =
    (a.order_id == before.id) && (a.caller_id == actor.id) && is_user actor.kind

abbrev pub changes_offers : Action → Bool
changes_offers propose_offer = true
changes_offers begin_assignment = true
changes_offers resolve_assignment = true
changes_offers assign = true
changes_offers accept_counteroffer = true
changes_offers _ = false

-- Whether an update disagrees with the stored offer.
unfoldable pub is_stale : Option Offer → OfferChange → Bool
is_stale none update = is_some update.expected_status
is_stale (some old) update =
    let f = update.offer in
    not (elim update.expected_status [ none ↦ false | some t ↦ eqb_offer_status t old.status ])
    || not (old.courier_id == f.courier_id)
    || not (eqb_ℤ old.credits f.credits)
    || not (old.created_at == f.created_at)

-- The case of `ProposeOffer`: a new open offer above the reward, or an open one withdrawn.
unfoldable pub may_propose : Texts → Order → Actor → Option Offer → Offer → Bool
may_propose x before actor old f =
    eqb_status before.status awaiting_courier
    && not (is_requested_by x before actor.id)
    && (f.courier_id == actor.id)
    && elim old [
      | none ↦ eqb_offer_status f.status offer_open && not (leb_ℤ f.credits before.reward_credits)
      | some o ↦ eqb_offer_status o.status offer_open && eqb_offer_status f.status offer_void
    ]

unfoldable pub may_begin : Texts → Order → Actor → AssignmentAttempt → Option Offer → Offer → Bool
may_begin x before actor a old f =
    matches_attempt a before actor
    && (f.id == a.offer_id)
    && (f.courier_id == a.courier_id)
    && eqb_ℤ f.credits a.amount
    && eqb_offer_status f.status offer_accepting
    && (if is_accept_order a.method
        then not (is_some old)
          && (f.courier_id == actor.id)
          && eqb_ℤ f.credits before.reward_credits
        else is_requested_by x before actor.id
          && elim old [ none ↦ false | some o ↦ eqb_offer_status o.status offer_open ])

unfoldable pub may_resolve : Order → Actor → AssignmentAttempt → Option Offer → Offer → Bool
may_resolve before actor a none f = false
may_resolve before actor a (some old) f =
    matches_attempt a before actor
    && (f.id == a.offer_id)
    && (eqb_offer_status old.status offer_accepting || eqb_offer_status old.status offer_void)
    && (eqb_offer_status f.status offer_open || eqb_offer_status f.status offer_void)
    && (not (eqb_offer_status old.status offer_void) || eqb_offer_status f.status offer_void)
    && (not (eqb_offer_status f.status offer_open)
        || (not (is_accept_order a.method) && is_insufficient a.rejection))

unfoldable pub may_assign : Order → Actor → AssignmentAttempt → Option Offer → Offer → Bool
may_assign before actor a none f = false
may_assign before actor a (some old) f =
    matches_attempt a before actor
    && (if f.id == a.offer_id
        then eqb_offer_status old.status offer_accepting
          && eqb_offer_status f.status offer_accepted
          && (f.courier_id == a.courier_id)
          && eqb_ℤ f.credits a.amount
        else eqb_offer_status old.status offer_open && eqb_offer_status f.status offer_void)

-- The switch on the action.
unfoldable pub may_change :
    Texts → Order → Actor → Action → Option AssignmentAttempt → Option Offer → Offer → Bool
unfolding may_propose may_begin may_resolve may_assign
may_change x before actor propose_offer attempt old f = may_propose x before actor old f
may_change x before actor begin_assignment (some a) old f = may_begin x before actor a old f
may_change x before actor resolve_assignment (some a) old f = may_resolve before actor a old f
may_change x before actor assign (some a) old f = may_assign before actor a old f
may_change x before actor accept_counteroffer (some a) old f = may_assign before actor a old f
may_change x before actor begin_assignment none old f = false
may_change x before actor resolve_assignment none old f = false
may_change x before actor assign none old f = false
may_change x before actor accept_counteroffer none old f = false
may_change x before actor _ attempt old f = true

abbrev is_bad_offer : Order → List ℕ → Offer → Bool
is_bad_offer before seen f =
    not (f.order_id == before.id)
    || (f.courier_id == before.requester_id)
    || leb_ℤ f.credits (pos 0)
    || has_seen f.id seen

-- The loop over the changed offers; `none` where it returns no error.
unfoldable pub check_offers :
    Texts
    → Order
    → List Offer
    → Actor
    → Action
    → Option AssignmentAttempt
    → List ℕ
    → List OfferChange
    → Option OrderError
unfolding is_stale may_change
check_offers x before stored actor action attempt seen [] = none
check_offers x before stored actor action attempt seen (u ∷ us) =
    let rest = check_offers x before stored actor action attempt (u.offer.id ∷ seen) us in
    if is_bad_offer before seen u.offer
    then some invalid
    else if is_stale (by_id u.offer.id stored) u
    then some conflict
    else if may_change x before actor action attempt (by_id u.offer.id stored) u.offer
    then rest
    else some forbidden

-- `validateAssignmentOffers`
unfoldable pub validate_assignment_offers :
    Texts
    → Order
    → List Offer
    → Actor
    → Action
    → Option AssignmentAttempt
    → List OfferChange
    → Option OrderError
unfolding check_offers
validate_assignment_offers x before stored actor action attempt changes =
    if not (changes_offers action)
    then none
    else if not (is_user actor.kind) || (actor.id == 0)
    then some forbidden
    else check_offers x before stored actor action attempt [] changes
