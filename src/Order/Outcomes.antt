-- ===== src/Order/Outcomes.antt =====
-- Chains of changes of an order that events.go (`NewChange`) accepts: the request, the credits and the
-- outcome facts.
use fo_c.Base.{
  ℕ, ◌+◌, ◌≤◌, ◌≡◌, refl, sym, ap, ◌∙◌, Bool, true, false, not, ◌&&◌, Option, none, some, List, [],
  ◌∷◌, Result, ok, err, arith, if◌then◌else◌, Option-cases, Bool-cases, inl, inr,
}
use fo_c.Base.Int.{pos, ◌+ℤ◌, eq_of_parts}
use mathlib.Core.Path.{subst}
use fo_c.Order.Types.{
  Status, is_terminal, eqb_status, Order, Actor, Action, assign, accept_counteroffer,
  confirm_reservation, withdraw, Texts, OrderError,
}
use fo_c.Order.Transitions.{transition}
use fo_c.Order.Lifecycle.{transition-terminal}
use fo_c.Order.Changes.{
  matches, are_fields_valid, permitted, versioned, eqb_request, eqb_credits, eqb_progress,
}
use fo_c.Order.Facts.{
  Change, Fact, outcome, new_change, lifecycle_error, move_error, then_fields, transition_error,
  metadata_error, facts_of, ends_with_outcome,
}
use fo_c.Order.Audit.{
  new_change-IsBuilt, SameRequest, fields-SameRequest, both_hold, permitted-equal,
}

pub then_fields-passes :
    (valid : Bool) (e : Option OrderError)
    → then_fields valid e ≡ none
    → (e ≡ none) × (valid ≡ true)
then_fields-passes valid e h = ground arith

lifecycle-fields :
    (x : Texts) (b a : Order) (actor : Actor) (action : Action)
    → lifecycle_error x (some b) a actor action ≡ none
    → are_fields_valid b a action ≡ true
unfolding lifecycle_error
lifecycle-fields x b a actor action h =
    (then_fields-passes (are_fields_valid b a action)
      (if not (eqb_status b.status a.status)
        then transition_error x b a actor action
        else metadata_error x b a actor action)
      h).1

-- A change keeps what was asked for: the requester, the ids of both places, the item, the
-- duration, the deadline and the creation time. Its revision is the next one.
pub new_change-SameRequest :
    (x : Texts) (b a : Order) (actor : Actor) (action : Action) (details : ℕ) (c : Change)
    → new_change x (some b) a actor action details ≡ ok c
    → SameRequest b c.order × (c.order.revision ≡ b.revision +ℤ pos 1)
new_change-SameRequest x b a actor action details c h =
    let built = new_change-IsBuilt x (some b) a actor action details c h in
    rw built.is_after (
      fields-SameRequest b a action (lifecycle-fields x b a actor action built.passes),
      built.next_revision,
    )

-- The actions that own the credits of an order.
abbrev pub reprices : Action → Bool
reprices assign = true
reprices accept_counteroffer = true
reprices confirm_reservation = true
reprices withdraw = true
reprices _ = false

permitted-credits :
    (b a e : Order) (action : Action)
    → reprices action ≡ false
    → permitted (versioned b a) a action ≡ some e
    → (e.reward_credits ≡ b.reward_credits) × (e.reserved_credits ≡ b.reserved_credits)
permitted-credits b a e action other h = (ground arith, ground arith)

eqb_credits-same :
    (e a : Order)
    → eqb_credits e a ≡ true
    → (a.reward_credits ≡ e.reward_credits) × (a.reserved_credits ≡ e.reserved_credits)
eqb_credits-same e a h = (
  ground (arith, eq_of_parts a.reward_credits e.reward_credits),
  ground (arith, eq_of_parts a.reserved_credits e.reserved_credits),
)

refused-invalid :
    (b a : Order) (action : Action)
    → are_fields_valid b a action ≡ true
    → permitted (versioned b a) a action ≡ none
    → ⊥
unfolding are_fields_valid
refused-invalid b a action valid refused =
    let h = subst (λ q. matches q a ≡ true) refused valid in absurd (cc)

-- Only an assignment, a counteroffer, the reservation's confirmation and a withdrawal change an
-- order's reward or its reserved credits.
pub new_change-credits :
    (x : Texts) (b a : Order) (actor : Actor) (action : Action) (details : ℕ) (c : Change)
    → reprices action ≡ false
    → new_change x (some b) a actor action details ≡ ok c
    → (c.order.reward_credits ≡ b.reward_credits) × (c.order.reserved_credits ≡ b.reserved_credits)
new_change-credits x b a actor action details c other h =
    let built = new_change-IsBuilt x (some b) a actor action details c h in
    let valid = lifecycle-fields x b a actor action built.passes in
    elim (Option-cases (permitted (versioned b a) a action)) [
      | inl refused ↦ absurd (refused-invalid b a action valid refused)
      | inr (e, permits) ↦
          let (request, others) =
            both_hold (eqb_request e a) (eqb_credits e a && eqb_progress e a)
              (permitted-equal b a e action valid permits) in
          let (credits, progress) = both_hold (eqb_credits e a) (eqb_progress e a) others in
          let (reward, reserved) = permitted-credits b a e action other permits in
          let (reward', reserved') = eqb_credits-same e a credits in
          rw built.is_after (reward' ∙ reward, reserved' ∙ reserved)
    ]

-- The facts of kind `order.outcome`, of a change and of a list of changes.
abbrev pub count_outcomes : List Fact → ℕ
count_outcomes [] = 0
count_outcomes (f ∷ fs) = elim f.kind [ outcome ↦ 1 | _ ↦ 0 ] + count_outcomes fs

abbrev pub outcomes_of : List Change → ℕ
outcomes_of [] = 0
outcomes_of (c ∷ cs) = count_outcomes c.facts + outcomes_of cs

-- Changes of an order, each built from the version that the one before it left.
pub data Chain (x : Texts) : Order → List Change → Type 0 where
  no_change : {b : Order} → Chain x b []
  change :
      {b : Order} (a : Order) (actor : Actor) (action : Action) (details : ℕ) (c : Change)
      (cs : List Change)
      → new_change x (some b) a actor action details ≡ ok c
      → Chain x c.order cs
      → Chain x b (c ∷ cs)

facts_of-outcomes :
    (x : Texts) (b a : Order) (actor : Actor) (action : Action)
    → count_outcomes (facts_of x (some b) a actor action)
      ≡ (if eqb_status b.status a.status then 0 else if ends_with_outcome a.status then 1 else 0)
facts_of-outcomes x b a actor action = grind (arith)

ends-terminal : (s : Status) → ends_with_outcome s ≡ true → is_terminal s ≡ true
ends-terminal s h = ground arith

pub eqb_status-same : (s t : Status) → eqb_status s t ≡ true → s ≡ t
eqb_status-same s t h = ground arith

move_error-terminal :
    (x : Texts) (b a : Order) (actor : Actor) (action : Action)
    → (r : Result OrderError (Status × Bool))
    → ((next : Status) (repeat : Bool) → r ≡ ok (next, repeat) → repeat ≡ true)
    → move_error x b a actor action r ≡ none
    → ⊥
move_error-terminal x b a actor action (err e) repeats h = absurd (cc)
move_error-terminal x b a actor action (ok (next, true)) repeats h = absurd (cc)
move_error-terminal x b a actor action (ok (next, false)) repeats h =
    let r = repeats next false refl in absurd (cc)

pub moved_error :
    (p q : Option OrderError) (same : Bool)
    → same ≡ false
    → (if not same then p else q) ≡ none
    → p ≡ none
moved_error p q same moved h = ground arith

-- A change of a terminal order keeps its status.
lifecycle-terminal :
    (x : Texts) (b a : Order) (actor : Actor) (action : Action)
    → is_terminal b.status ≡ true
    → lifecycle_error x (some b) a actor action ≡ none
    → eqb_status b.status a.status ≡ true
unfolding lifecycle_error transition_error
lifecycle-terminal x b a actor action closed h = elim (Bool-cases (eqb_status b.status a.status)) [
  | inl same ↦ same
  | inr moved ↦ absurd (
      move_error-terminal x b a actor action (transition x b action actor)
        (λ next repeat e. (transition-terminal x b action actor next repeat closed e).0)
        (moved_error (transition_error x b a actor action) (metadata_error x b a actor action)
          (eqb_status b.status a.status) moved
          ((then_fields-passes (are_fields_valid b a action)
            (if not (eqb_status b.status a.status)
              then transition_error x b a actor action
              else metadata_error x b a actor action)
            h).0)))
]

chain_step :
    (closed stays ends closes : Bool) (n m : ℕ)
    → (closed ≡ true → stays ≡ true)
    → (stays ≡ true → closes ≡ closed)
    → (ends ≡ true → closes ≡ true)
    → n ≡ (if stays then 0 else if ends then 1 else 0)
    → m ≤ (if closes then 0 else 1)
    → n + m ≤ (if closed then 0 else 1)
chain_step closed stays ends closes n m h k e p q = ground arith

-- However an order's changes go, they emit at most one outcome fact, and none once it is terminal.
pub Chain-one_outcome :
    (x : Texts) (b : Order) (cs : List Change)
    → Chain x b cs
    → outcomes_of cs ≤ (if is_terminal b.status then 0 else 1)
Chain-one_outcome x b cs no_change = ground arith
Chain-one_outcome x b cs (change a actor action details c rest h next) =
    let built = new_change-IsBuilt x (some b) a actor action details c h in
    chain_step (is_terminal b.status) (eqb_status b.status a.status) (ends_with_outcome a.status)
      (is_terminal a.status) (count_outcomes c.facts) (outcomes_of rest)
      (λ closed. lifecycle-terminal x b a actor action closed built.passes)
      (λ stays. ap is_terminal (sym (eqb_status-same b.status a.status stays)))
      (ends-terminal a.status)
      (ap count_outcomes built.builds_facts ∙ facts_of-outcomes x b a actor action)
      (subst (λ o. outcomes_of rest ≤ (if is_terminal o.status then 0 else 1)) built.is_after
        (Chain-one_outcome x c.order rest next))
