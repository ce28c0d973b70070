-- ===== src/Order/Lifecycle.antt =====
-- The lifecycle policy of transitions.go: authority, closed orders and repeats.
use fo_c.Base.{
  ◌≡◌, sym, ◌∙◌, some, ◌⊎◌, Bool, true, false, not, ◌&&◌, ◌||◌, none, Result, ok, err, arith,
  if◌then◌else◌, is_some,
}
use mathlib.Core.Path.{subst}
use fo_c.Order.Types.{
  is_valid, Status, pending_reservation, awaiting_courier, awaiting_pickup, delivering, delivered,
  completed, cancelled, expired, failed, rejected, unknown_status, is_terminal, Order, assign,
  pickup, confirm_receipt, OrderError, forbidden, precondition, Actor, Action, Texts, is_user,
  is_admin_kind, is_system, is_requested_by, is_assigned_to, has_participant,
}
use fo_c.Order.Transitions.{
  is_actor, is_assign, is_requester, allowed_destination, is_pickup, transition, is_action_allowed,
  is_repeat, is_own_assign, is_courier, destination, may, others_may,
}

-- The decisions of `Transition` in their order.
abbrev decide :
    Bool
    → Bool
    → Bool
    → Bool
    → Bool
    → Bool
    → Bool
    → Bool
    → Status
    → Status
    → Result OrderError (Status × Bool)
decide bad stranger fenced own repeats ended allowed others same next =
    if bad
    then err precondition
    else if stranger
    then err forbidden
    else if fenced
    then err precondition
    else if own
    then err forbidden
    else if repeats
    then ok (same, true)
    else if ended
    then err precondition
    else if allowed
    then ok (next, false)
    else if others
    then err forbidden
    else err precondition

decide_moves :
    (bad stranger fenced own repeats ended allowed others : Bool) (same next t : Status)
    → decide bad stranger fenced own repeats ended allowed others same next ≡ ok (t, false)
    → (next ≡ t)
      × (allowed ≡ true)
      × (fenced ≡ false)
      × (ended ≡ false)
      × (stranger ≡ false)
      × (own ≡ false)
decide_moves bad stranger fenced own repeats ended allowed others same next t h = ground arith

decide_repeats :
    (bad stranger fenced own repeats ended allowed others : Bool) (same next t : Status)
    → decide bad stranger fenced own repeats ended allowed others same next ≡ ok (t, true)
    → (same ≡ t) × (repeats ≡ true) × (own ≡ false)
decide_repeats bad stranger fenced own repeats ended allowed others same next t h = ground arith

-- A terminal order is closed: the policy allows only a repeat, which leaves the status as it is.
pub transition-terminal :
    (x : Texts) (o : Order) (action : Action) (actor : Actor) (next : Status) (repeat : Bool)
    → is_terminal o.status ≡ true
    → transition x o action actor ≡ ok (next, repeat)
    → (repeat ≡ true) × (next ≡ o.status)
unfolding transition
transition-terminal x o action actor next repeat terminal h = ground arith

-- The status in which the policy lets an action happen for the first time, where a repeat exists.
abbrev pub first_from : Action → Status
first_from assign = awaiting_courier
first_from pickup = awaiting_pickup
first_from confirm_receipt = delivered
first_from _ = unknown_status

repeat_evidence :
    (x : Texts) (o : Order) (action : Action) (actor : Actor)
    → is_own_assign x o action actor ≡ false
    → is_repeat x o action actor ≡ true
    → (o.status ≡ destination action)
      × (is_action_allowed
            (first_from action)
            action
            actor.kind
            (is_requester x o actor)
            (is_courier x o actor)
          ≡ true)
      × (has_participant x o actor.id ≡ true)
unfolding is_repeat is_action_allowed
repeat_evidence x o action actor foreign h = (ground arith, ground arith, ground arith)

-- A repeat keeps the status, and is accepted only where the order has the status that the action leads
-- to, from a participant whom the policy allows the action in the status it starts from.
pub transition-repeat :
    (x : Texts) (o : Order) (action : Action) (actor : Actor) (next : Status)
    → transition x o action actor ≡ ok (next, true)
    → (next ≡ o.status)
      × (next ≡ destination action)
      × (is_action_allowed
            (first_from action)
            action
            actor.kind
            (is_requester x o actor)
            (is_courier x o actor)
          ≡ true)
      × (has_participant x o actor.id ≡ true)
unfolding transition
transition-repeat x o action actor next h =
    let (same, repeats, foreign) =
      decide_repeats (not (is_valid o.status)) (not (is_actor actor))
        (is_pickup action && is_some o.pending_cancellation_id) (is_own_assign x o action actor)
        (is_repeat x o action actor) (is_terminal o.status) (may x o action actor)
        (others_may x o action) o.status (allowed_destination x o action actor) next h in
    let (leads, allowed, participant) = repeat_evidence x o action actor foreign repeats in
    (sym same, sym same ∙ leads, allowed, participant)

-- The actions that a participant may repeat.
abbrev pub is_repeatable : Action → Bool
is_repeatable assign = true
is_repeatable pickup = true
is_repeatable confirm_receipt = true
is_repeatable _ = false

-- What an action leaves of an order, as far as the policy reads it.
abbrev pub moved : Order → Action → Actor → Status → Order
moved o action actor next = record o {
  status = next;
  courier_id = if is_assign action then some actor.id else o.courier_id;
}

retry_evidence :
    (x : Texts) (o : Order) (action : Action) (actor : Actor)
    → is_repeatable action ≡ true
    → is_actor actor ≡ true
    → may x o action actor ≡ true
    → is_repeat x (moved o action actor (destination action)) action actor ≡ true
unfolding is_repeat may is_action_allowed
retry_evidence x o action actor repeatable known allowed = ground arith

-- From where, and on whose authority, an order comes to a status.
abbrev pub Justified : Texts → Order → Actor → Status → Type 0
Justified x o actor pending_reservation = ⊥
Justified x o actor awaiting_courier =
    ((o.status ≡ pending_reservation) × (is_system actor.kind ≡ true))
    ⊎ ((o.status ≡ awaiting_pickup)
        × (is_admin_kind actor.kind || is_assigned_to x o actor.id ≡ true))
Justified x o actor awaiting_pickup = (o.status ≡ awaiting_courier) × (is_user actor.kind ≡ true)
Justified x o actor delivering =
    (o.status ≡ awaiting_pickup)
    × (is_assigned_to x o actor.id ≡ true)
    × (o.pending_cancellation_id ≡ none)
Justified x o actor delivered = (o.status ≡ delivering) × (is_assigned_to x o actor.id ≡ true)
Justified x o actor completed = (o.status ≡ delivered) × (is_requested_by x o actor.id ≡ true)
Justified x o actor cancelled =
    (is_requested_by x o actor.id || is_admin_kind actor.kind ≡ true)
    × ((o.status ≡ awaiting_courier) ⊎ ((o.status ≡ awaiting_pickup) ⊎ (o.status ≡ delivering)))
Justified x o actor expired = (o.status ≡ awaiting_courier) × (is_system actor.kind ≡ true)
Justified x o actor failed =
    ((o.status ≡ delivering) × (is_system actor.kind || is_assigned_to x o actor.id ≡ true))
    ⊎ ((is_requested_by x o actor.id && is_assigned_to x o actor.id ≡ true)
        × ((o.status ≡ awaiting_courier) ⊎ (o.status ≡ awaiting_pickup)))
Justified x o actor rejected = (o.status ≡ pending_reservation) × (is_system actor.kind ≡ true)
Justified x o actor unknown_status = ⊥

-- What a transition that is no repeat has passed.
pub transition_passed :
    (x : Texts) (o : Order) (action : Action) (actor : Actor) (next : Status)
    → transition x o action actor ≡ ok (next, false)
    → (allowed_destination x o action actor ≡ next)
      × (may x o action actor ≡ true)
      × (is_pickup action ≡ true → o.pending_cancellation_id ≡ none)
unfolding transition
transition_passed x o action actor next h =
    let (leads, allowed, unfenced, live, known, foreign) =
      decide_moves (not (is_valid o.status)) (not (is_actor actor))
        (is_pickup action && is_some o.pending_cancellation_id)
        (is_assign action && is_requester x o actor) (is_repeat x o action actor)
        (is_terminal o.status) (may x o action actor) (others_may x o action) o.status
        (allowed_destination x o action actor) next h in
    (leads, allowed, λ e. ground arith)

decide_again :
    (bad stranger fenced own repeats ended allowed others : Bool) (same next : Status)
    → bad ≡ false
    → stranger ≡ false
    → fenced ≡ false
    → own ≡ false
    → repeats ≡ true
    → decide bad stranger fenced own repeats ended allowed others same next ≡ ok (same, true)
decide_again bad stranger fenced own repeats ended allowed others same next a b c d e = ground arith

destination-valid :
    (action : Action) → is_repeatable action ≡ true → not (is_valid (destination action)) ≡ false
destination-valid action h = ground arith

repeatable_destination :
    (x : Texts) (o : Order) (action : Action) (actor : Actor)
    → is_repeatable action ≡ true
    → allowed_destination x o action actor ≡ destination action
repeatable_destination x o action actor h = ground arith

-- Where the policy let a participant assign, pick up or confirm the receipt, the same action of the
-- same actor on the order as it then stands is a repeat, which keeps its status.
pub transition-retried :
    (x : Texts) (o : Order) (action : Action) (actor : Actor) (next : Status)
    → is_repeatable action ≡ true
    → transition x o action actor ≡ ok (next, false)
    → transition x (moved o action actor next) action actor ≡ ok (next, true)
unfolding transition
transition-retried x o action actor next repeatable h =
    let (leads, allowed, unfenced, live, known, foreign) =
      decide_moves (not (is_valid o.status)) (not (is_actor actor))
        (is_pickup action && is_some o.pending_cancellation_id) (is_own_assign x o action actor)
        (is_repeat x o action actor) (is_terminal o.status) (may x o action actor)
        (others_may x o action) o.status (allowed_destination x o action actor) next h in
    let is_next = sym (repeatable_destination x o action actor repeatable) ∙ leads in
    subst (λ t. transition x (moved o action actor t) action actor ≡ ok (t, true)) is_next
      (let q = moved o action actor (destination action) in
        decide_again (not (is_valid q.status)) (not (is_actor actor))
          (is_pickup action && is_some q.pending_cancellation_id) (is_own_assign x q action actor)
          (is_repeat x q action actor) (is_terminal q.status) (may x q action actor)
          (others_may x q action) q.status (allowed_destination x q action actor)
          (destination-valid action repeatable) known unfenced foreign
          (retry_evidence x o action actor repeatable (ground arith) allowed))
