-- ===== src/Order/Audit.antt =====
-- What a change that `NewChange` accepts shows: its revision, what it keeps, and which facts it emits.
use fo_c.Base.{
  ℕ, ◌≡◌, sym, ap, ◌∙◌, Bool, true, false, not, ◌&&◌, ◌||◌, Option, none, some, Result, ok, err,
  arith, if◌then◌else◌, Option-cases, inl, inr,
}
use fo_c.Base.Int.{ℤ, pos, ◌+ℤ◌, eqb_ℤ, eq_of_parts, leb_ℤ}
use mathlib.Core.Path.{subst}
use fo_c.Order.Types.{
  is_valid, LocationSnapshot, Order, OrderError, invalid, forbidden, Actor, Action, Texts,
}
use fo_c.Order.Transitions.{is_actor}
use fo_c.Order.Changes.{
  are_fields_valid, matches, permitted, versioned, eqb_order, eqb_location, eqb_request,
  eqb_credits, eqb_progress,
}
use fo_c.Order.Facts.{
  Change, new_change, lifecycle_error, facts_of, revision_of, is_other_order, is_bad_revision,
  is_bad_creation, are_details_bad, details_or_empty, change_of,
}

pub record SameLocation (p q : LocationSnapshot) : Type 0 where
  pub same_id : q.location_id ≡ p.location_id
  pub same_name : q.name ≡ p.name
  pub same_building : q.building_name ≡ p.building_name
  pub same_floor : q.floor ≡ p.floor

-- What was asked for, with the snapshots of both places.
pub record SameRequest (b a : Order) : Type 0 where
  pub same_requester : a.requester_id ≡ b.requester_id
  pub same_pickup : SameLocation b.pickup a.pickup
  pub same_delivery : SameLocation b.delivery a.delivery
  pub same_instructions : a.delivery_instructions ≡ b.delivery_instructions
  pub same_item : a.item_description ≡ b.item_description
  pub same_duration : a.delivery_duration ≡ b.delivery_duration
  pub same_deadline : a.expires_at ≡ b.expires_at
  pub same_creation : a.created_at ≡ b.created_at

pub both_hold : (a b : Bool) → a && b ≡ true → (a ≡ true) × (b ≡ true)
both_hold a b h = ground arith

eqb_location-SameLocation : (p q : LocationSnapshot) → eqb_location p q ≡ true → SameLocation p q
eqb_location-SameLocation p q h = record {
  same_id = ground arith;
  same_name = ground arith;
  same_building = ground arith;
  same_floor = ground arith;
}

eqb_instructions :
    (e a : Order) → eqb_progress e a ≡ true → a.delivery_instructions ≡ e.delivery_instructions
eqb_instructions e a h = ground arith

eqb_locations :
    (e a : Order)
    → eqb_request e a ≡ true
    → (eqb_location e.pickup a.pickup ≡ true) × (eqb_location e.delivery a.delivery ≡ true)
eqb_locations e a h = (ground arith, ground arith)

eqb_order-SameRequest : (e a : Order) → eqb_order e a ≡ true → SameRequest e a
eqb_order-SameRequest e a h =
    let (request, others) = both_hold (eqb_request e a) (eqb_credits e a && eqb_progress e a) h in
    let (credits, progress) = both_hold (eqb_credits e a) (eqb_progress e a) others in
    let (pickup, delivery) = eqb_locations e a request in
    record {
      same_requester = ground arith;
      same_pickup = eqb_location-SameLocation e.pickup a.pickup pickup;
      same_delivery = eqb_location-SameLocation e.delivery a.delivery delivery;
      same_instructions = eqb_instructions e a progress;
      same_item = ground arith;
      same_duration = ground arith;
      same_deadline = ground arith;
      same_creation = ground arith;
    }

permitted-SameRequest :
    (b a e : Order) (action : Action)
    → permitted (versioned b a) a action ≡ some e
    → SameRequest b e
permitted-SameRequest b a e action h = record {
  same_instructions = ground arith;
  same_requester = ground arith;
  same_pickup = record {
    same_id = ground arith;
    same_name = ground arith;
    same_building = ground arith;
    same_floor = ground arith;
  };
  same_delivery = record {
    same_id = ground arith;
    same_name = ground arith;
    same_building = ground arith;
    same_floor = ground arith;
  };
  same_item = ground arith;
  same_duration = ground arith;
  same_deadline = ground arith;
  same_creation = ground arith;
}

SameLocation-trans :
    {p q r : LocationSnapshot} → SameLocation p q → SameLocation q r → SameLocation p r
SameLocation-trans a b = record {
  same_id = b.same_id ∙ a.same_id;
  same_name = b.same_name ∙ a.same_name;
  same_building = b.same_building ∙ a.same_building;
  same_floor = b.same_floor ∙ a.same_floor;
}

SameRequest-trans : {a b c : Order} → SameRequest a b → SameRequest b c → SameRequest a c
SameRequest-trans p q = record {
  same_requester = q.same_requester ∙ p.same_requester;
  same_pickup = SameLocation-trans p.same_pickup q.same_pickup;
  same_delivery = SameLocation-trans p.same_delivery q.same_delivery;
  same_instructions = q.same_instructions ∙ p.same_instructions;
  same_item = q.same_item ∙ p.same_item;
  same_duration = q.same_duration ∙ p.same_duration;
  same_deadline = q.same_deadline ∙ p.same_deadline;
  same_creation = q.same_creation ∙ p.same_creation;
}

pub permitted-equal :
    (b a e : Order) (action : Action)
    → are_fields_valid b a action ≡ true
    → permitted (versioned b a) a action ≡ some e
    → eqb_order e a ≡ true
unfolding are_fields_valid
permitted-equal b a e action h permits = subst (λ q. matches q a ≡ true) permits h

pub fields-SameRequest :
    (b a : Order) (action : Action) → are_fields_valid b a action ≡ true → SameRequest b a
unfolding are_fields_valid
fields-SameRequest b a action h = elim (Option-cases (permitted (versioned b a) a action)) [
  | inl refused ↦ absurd (ground arith)
  | inr (e, permits) ↦
      SameRequest-trans (permitted-SameRequest b a e action permits)
        (eqb_order-SameRequest e a (permitted-equal b a e action h permits))
]

-- What `NewChange` has checked when it returns a change, and what the change holds.
pub record IsBuilt (x : Texts) (before : Option Order) (after : Order) (actor : Actor)
    (action : Action) (c : Change) : Type 0 where
  pub is_after : c.order ≡ after
  pub builds_facts : c.facts ≡ facts_of x before after actor action
  pub follows : c.expected_revision ≡ revision_of before
  pub next_revision : after.revision ≡ revision_of before +ℤ pos 1
  pub passes : lifecycle_error x before after actor action ≡ none

-- The decisions of `NewChange` in their order.
abbrev decide : Bool → Bool → Bool → Option OrderError → Bool → Change → Result OrderError Change
decide other bad stranger error unfit c =
    if other
    then err invalid
    else if bad
    then err invalid
    else if stranger
    then err forbidden
    else elim error [ some e ↦ err e | none ↦ if unfit then err invalid else ok c ]

decide_passes :
    (other bad stranger : Bool) (error : Option OrderError) (unfit : Bool) (built c : Change)
    → decide other bad stranger error unfit built ≡ ok c
    → (bad ≡ false) × (error ≡ none) × (built ≡ c)
decide_passes other bad stranger error unfit built c h = ground arith

follows_revision :
    (r n : ℤ) (p q : Bool) → (leb_ℤ r (pos 0) || not (eqb_ℤ r n)) || p || q ≡ false → r ≡ n
follows_revision r n p q h = ground (arith, eq_of_parts r n)

pub new_change-IsBuilt :
    (x : Texts) (before : Option Order) (after : Order) (actor : Actor) (action : Action)
    (details : ℕ) (c : Change)
    → new_change x before after actor action details ≡ ok c
    → IsBuilt x before after actor action c
unfolding new_change
new_change-IsBuilt x before after actor action details c h =
    let (version, error, builds) =
      decide_passes (is_other_order before after)
        (is_bad_revision before after
          || not (is_valid after.status)
          || is_bad_creation before after action)
        (not (is_actor actor)) (lifecycle_error x before after actor action)
        (are_details_bad x (details_or_empty x details))
        (change_of x before after actor action details) c h in
    record {
      is_after = sym (ap (λ d. d.order) builds);
      builds_facts = sym (ap (λ d. d.facts) builds);
      follows = sym (ap (λ d. d.expected_revision) builds);
      next_revision =
          follows_revision after.revision (revision_of before +ℤ pos 1)
            (not (is_valid after.status)) (is_bad_creation before after action) version;
      passes = error;
    }
