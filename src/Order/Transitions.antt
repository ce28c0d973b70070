-- ===== src/Order/Transitions.antt =====
-- order-service/internal/order/transitions.go: which actor may do what in which state, and where it
-- leads. `true` beside a status marks a repeat.
use fo_c.Base.{Bool, true, false, not, ◌&&◌, ◌||◌, Result, ok, err, ◌==◌, is_some, if◌then◌else◌}
use fo_c.Order.Types.{
  Status, pending_reservation, awaiting_courier, awaiting_pickup, delivering, delivered, completed,
  cancelled, expired, failed, rejected, unknown_status, is_valid, is_terminal, eqb_status, Order,
  Actor, ActorKind, user, admin, system, is_user, is_admin_kind, is_system, Action,
  confirm_reservation, refuse_reservation, assign, cancel, expire, pickup, withdraw, unassign,
  deliver, timeout, confirm_receipt, accept_counteroffer, OrderError, forbidden, precondition,
  Texts, is_requested_by, is_assigned_to,
}

-- `isActionAllowed`
unfoldable pub is_action_allowed : Status → Action → ActorKind → Bool → Bool → Bool
is_action_allowed pending_reservation confirm_reservation k requester courier = is_system k
is_action_allowed pending_reservation refuse_reservation k requester courier = is_system k
is_action_allowed awaiting_courier assign k requester courier = is_user k && not requester
is_action_allowed awaiting_courier accept_counteroffer k requester courier = requester
is_action_allowed awaiting_courier cancel k requester courier = requester || is_admin_kind k
is_action_allowed awaiting_courier expire k requester courier = is_system k
is_action_allowed awaiting_pickup pickup k requester courier = courier
is_action_allowed awaiting_pickup cancel k requester courier = requester || is_admin_kind k
is_action_allowed awaiting_pickup withdraw k requester courier = courier
is_action_allowed awaiting_pickup unassign k requester courier = is_admin_kind k
is_action_allowed delivering deliver k requester courier = courier
is_action_allowed delivering cancel k requester courier = requester || courier
is_action_allowed delivering timeout k requester courier = is_system k
is_action_allowed delivered confirm_receipt k requester courier = requester
is_action_allowed _ _ k requester courier = false

-- `destinations`: a map yields the empty status for a missing action.
abbrev pub destination : Action → Status
destination confirm_reservation = awaiting_courier
destination refuse_reservation = rejected
destination assign = awaiting_pickup
destination accept_counteroffer = awaiting_pickup
destination cancel = cancelled
destination expire = expired
destination pickup = delivering
destination withdraw = awaiting_courier
destination unassign = awaiting_courier
destination deliver = delivered
destination timeout = failed
destination confirm_receipt = completed
destination _ = unknown_status

abbrev pub is_assign : Action → Bool
is_assign assign = true
is_assign _ = false

abbrev pub is_pickup : Action → Bool
is_pickup pickup = true
is_pickup _ = false

abbrev pub is_cancel : Action → Bool
is_cancel cancel = true
is_cancel _ = false

abbrev pub is_confirm_receipt : Action → Bool
is_confirm_receipt confirm_receipt = true
is_confirm_receipt _ = false

-- A system actor, or a user or admin with an id.
abbrev pub is_actor : Actor → Bool
is_actor a = is_system a.kind || ((is_user a.kind || is_admin_kind a.kind) && not (a.id == 0))

abbrev pub is_requester : Texts → Order → Actor → Bool
is_requester x o actor = is_user actor.kind && is_requested_by x o actor.id

abbrev pub is_courier : Texts → Order → Actor → Bool
is_courier x o actor = is_user actor.kind && is_assigned_to x o actor.id

-- Whether the stored state proves that the actor did the action already.
unfoldable pub is_repeat : Texts → Order → Action → Actor → Bool
is_repeat x o action actor =
    (is_assign action && eqb_status o.status awaiting_pickup && is_courier x o actor)
    || (is_pickup action && eqb_status o.status delivering && is_courier x o actor)
    || (is_confirm_receipt action && eqb_status o.status completed && is_requester x o actor)

-- `isActionAllowed` for an actor, as `Transition` calls it.
unfoldable pub may : Texts → Order → Action → Actor → Bool
unfolding is_action_allowed
may x o action actor =
    is_action_allowed o.status action actor.kind (is_requester x o actor) (is_courier x o actor)

-- The loop over other actors: whether one of them may do the action. The admin's id is the text
-- "admin", which the loop tests against the order's ids.
unfoldable pub others_may : Texts → Order → Action → Bool
unfolding is_action_allowed
others_may x o action =
    is_action_allowed o.status action system (is_requested_by x o 0) (is_assigned_to x o 0)
    || is_action_allowed o.status action admin (is_requested_by x o x.admin_text)
        (is_assigned_to x o x.admin_text)
    || is_action_allowed o.status action user (is_requested_by x o o.requester_id)
        (is_assigned_to x o o.requester_id)
    || is_action_allowed o.status action user false true

abbrev pub is_own_assign : Texts → Order → Action → Actor → Bool
is_own_assign x o action actor = is_assign action && is_requester x o actor

abbrev pub allowed_destination : Texts → Order → Action → Actor → Status
allowed_destination x o action actor =
    if is_cancel action && is_courier x o actor then failed else destination action

-- `Transition`
unfoldable pub transition : Texts → Order → Action → Actor → Result OrderError (Status × Bool)
unfolding is_repeat may others_may
transition x o action actor =
    if not (is_valid o.status)
    then err precondition
    else if not (is_actor actor)
    then err forbidden
    else if is_pickup action && is_some o.pending_cancellation_id
    then err precondition
    else if is_own_assign x o action actor
    then err forbidden
    else if is_repeat x o action actor
    then ok (o.status, true)
    else if is_terminal o.status
    then err precondition
    else if may x o action actor
    then ok (allowed_destination x o action actor, false)
    else if others_may x o action
    then err forbidden
    else err precondition
