-- ===== src/Credit/Outcome.antt =====
-- credit-service/internal/reservation/outcome.go: settling or releasing a reservation from Order's
-- `order.outcome` event.
use fo_c.Base.{
  ℕ, ◌-◌, ◌%◌, Bool, true, false, not, ◌||◌, Option, none, some, List, [], ◌∷◌, Result, ok, err,
  ltb, ◌==◌, eqb_option, if◌then◌else◌,
}
use fo_c.Base.Int.{ℤ, pos, pos_part, ◌-ℤ◌, neg, leb_ℤ, ltb_ℤ}
use fo_c.Credit.Types.{
  Error, invalid_argument, reservation_not_found, reservation_not_assigned, outcome_mismatch,
  database, held, assigned, released, settled, ReleaseReason, cancelled_before_pickup, expired,
  failed, eqb_reason, SettlementOutcome, outcome_completed, outcome_cancelled_after_pickup,
  eqb_outcome, Completion, is_reverted, Reservation, Assignment, OutcomeType, order_completed,
  order_cancelled_before_pickup, order_expired, order_failed, unspecified, RawOutcome, OrderOutcome,
  payout_entry, refund_entry, Entry,
}
use fo_c.Credit.Store.{
  Store, Action, pure, fail, ◌>>=◌, ◌>>◌, within, post, lock_accounts, get_reservation,
  update_reservation, get_assignment,
}
use fo_c.Credit.Lateness.{is_completed}
use fo_c.Credit.Service.{Env, Library, canonical_id}
use fo_c.Credit.Operations.{requester_of}
use fo_c.Credit.Release.{release}

-- `releaseReason`
abbrev pub release_reason_of : OutcomeType → Option ReleaseReason
release_reason_of order_cancelled_before_pickup = some cancelled_before_pickup
release_reason_of order_expired = some expired
release_reason_of order_failed = some failed
release_reason_of _ = none

-- `settlementOutcome`
abbrev pub settlement_outcome : OutcomeType → SettlementOutcome
settlement_outcome order_completed = outcome_completed
settlement_outcome _ = outcome_cancelled_after_pickup

-- `Truncate(time.Microsecond)`, of a time and of a duration
abbrev truncate : ℕ → ℕ
truncate t = t - t % 1000

abbrev truncate_duration : ℤ → ℤ
truncate_duration (pos n) = pos (truncate n)
truncate_duration d = neg (pos (truncate (pos_part (neg d))))

abbrev parse_courier : Library → RawOutcome → Result Error (Option ℕ)
parse_courier l o = elim (release_reason_of o.type) [
  | some reason ↦ ok none
  | none ↦ elim (canonical_id l o.courier_text) [ err e ↦ err e | ok courier ↦ ok (some courier) ]
]

abbrev parse_outcome : Library → RawOutcome → Result Error OrderOutcome
parse_outcome l o = elim (canonical_id l o.order_text) [
  | err e ↦ err e
  | ok order ↦ elim (canonical_id l o.requester_text) [
    | err e ↦ err e
    | ok requester ↦ elim (parse_courier l o) [
      | err e ↦ err e
      | ok courier ↦ ok (record {
        order_id = order;
        type = o.type;
        requester_id = requester;
        courier_id = courier;
        picked_up_at = o.picked_up_at;
        delivered_at = o.delivered_at;
        delivery_duration = o.delivery_duration;
      })
    ]
  ]
]

abbrev in_microseconds : OrderOutcome → OrderOutcome
in_microseconds o = record o {
  picked_up_at = truncate o.picked_up_at;
  delivered_at = truncate o.delivered_at;
  delivery_duration = truncate_duration o.delivery_duration;
}

abbrev is_bad_completion : OrderOutcome → Bool
is_bad_completion o =
    (o.picked_up_at == 0) || ltb o.delivered_at o.picked_up_at || leb_ℤ o.delivery_duration (pos 0)

abbrev check_type : OrderOutcome → Result Error OrderOutcome
check_type o = elim o.type [
  | order_completed ↦
      let p = in_microseconds o in if is_bad_completion p then err invalid_argument else ok p
  | unspecified ↦ err invalid_argument
  | _ ↦ ok o
]

-- `validate`
unfoldable pub validate : Library → RawOutcome → Result Error OrderOutcome
unfolding neg
validate l o = elim (parse_outcome l o) [ err e ↦ err e | ok p ↦ check_type p ]

abbrev pub completion_of : OrderOutcome → Option Completion
completion_of o =
    if is_completed o.type
    then some (record {
      picked_up_at = o.picked_up_at;
      delivered_at = o.delivered_at;
      delivery_duration = o.delivery_duration;
    })
    else none

abbrev pub settled_version : Reservation → OrderOutcome → ℤ → ℕ → Reservation
settled_version r o payable now = record r {
  status = settled;
  reserved_amount = pos 0;
  settlement = some (record {
    outcome = settlement_outcome o.type;
    paid_to_courier = payable;
    returned_to_requester = r.reserved_amount -ℤ payable;
    settled_at = now;
    release_reason = none;
    completion = completion_of o;
  });
}

abbrev pub settlement_entries : ℕ → ℕ → ℕ → ℤ → ℤ → List Entry
settlement_entries order requester courier payable returned =
    record {
      user_id = requester;
      kind = payout_entry;
      balance_delta = neg payable;
      reserved_delta = neg payable;
      order_id = some order;
      assignment_id = none;
    }
    ∷ record {
      user_id = requester;
      kind = refund_entry;
      balance_delta = pos 0;
      reserved_delta = neg returned;
      order_id = some order;
      assignment_id = none;
    }
    ∷ record {
      user_id = courier;
      kind = payout_entry;
      balance_delta = payable;
      reserved_delta = pos 0;
      order_id = some order;
      assignment_id = none;
    }
    ∷ []

abbrev pub applied_row : Option Assignment → Option Assignment
applied_row none = none
applied_row (some a) = if is_reverted a.status then none else some a

-- The row that `uuid.MustParse` of the reservation's assignment id selects; it panics on an empty one.
abbrev pub get_own_assignment : Reservation → Action (Option Assignment)
get_own_assignment r s = elim r.assignment_id [
  | none ↦ err database
  | some id ↦ get_assignment r.order_id id s
]

-- The part of `settle` that stores the settlement and moves the credits.
unfoldable pub pay_out : Reservation → ℕ → OrderOutcome → ℤ → ℕ → ℕ → Action Reservation
unfolding lock_accounts update_reservation post
pay_out r courier o payable now db_now = do
  requester ← requester_of r
  lock_accounts (requester ∷ courier ∷ [])
  next ← update_reservation db_now (settled_version r o payable now) r.revision
  post (settlement_entries r.order_id requester courier payable (r.reserved_amount -ℤ payable))
  pure next

-- `settle`
unfoldable pub settle :
    Reservation → OrderOutcome → (ℤ → OrderOutcome → ℤ) → ℕ → ℕ → Action Reservation
unfolding pay_out
settle r o payout now db_now = do
  a ← get_own_assignment r
  elim (applied_row a) [
    | none ↦ fail reservation_not_assigned
    | some a' ↦ elim a'.courier_id [
      | none ↦ fail outcome_mismatch
      | some courier ↦
          if not (eqb_option (some courier) o.courier_id)
          then fail outcome_mismatch
          else let payable = payout a'.offer_amount o in
            if ltb_ℤ payable (pos 0) || ltb_ℤ r.reserved_amount payable
            then fail outcome_mismatch
            else pay_out r courier o payable now db_now
    ]
  ]

-- Whether a terminal reservation contradicts a release outcome.
abbrev pub contradicts : ReleaseReason → Option Reservation → Bool
contradicts reason none = false
contradicts reason (some r) = elim r.status [
  | settled ↦ true
  | released ↦ elim r.settlement [
    | none ↦ true
    | some t ↦ elim t.release_reason [ none ↦ true | some old ↦ not (eqb_reason old reason) ]
  ]
  | _ ↦ false
]

abbrev outcome_of : Reservation → Option SettlementOutcome
outcome_of r = elim r.settlement [ none ↦ none | some t ↦ some t.outcome ]

abbrev same_outcome : Option SettlementOutcome → SettlementOutcome → Bool
same_outcome none o = false
same_outcome (some p) o = eqb_outcome p o

abbrev same_courier : Option Assignment → Option ℕ → Bool
same_courier none courier = false
same_courier (some a) courier = eqb_option a.courier_id courier

-- A payout outcome for a reservation that is settled already.
unfoldable pub repeat_settlement : Reservation → OrderOutcome → Action (Reservation × Bool)
repeat_settlement r o =
    if not (same_outcome (outcome_of r) (settlement_outcome o.type))
    then fail outcome_mismatch
    else do
      a ← get_own_assignment r
      if not (same_courier a o.courier_id) then fail outcome_mismatch else pure (r, false)

-- The payout outcomes of `ApplyOutcome`.
unfoldable pub apply_payout :
    Option Reservation → OrderOutcome → (ℤ → OrderOutcome → ℤ) → ℕ → ℕ → Action (Reservation × Bool)
unfolding settle repeat_settlement
apply_payout none o payout now db_now = fail reservation_not_found
apply_payout (some r) o payout now db_now = elim r.status [
  | settled ↦ repeat_settlement r o
  | released ↦ fail outcome_mismatch
  | held ↦ fail reservation_not_assigned
  | assigned ↦ do next ← settle r o payout now db_now; pure (next, true)
]

abbrev pub other_requester : Option Reservation → ℕ → Bool
other_requester none requester = false
other_requester (some r) requester = elim r.requester_id [
  | none ↦ false
  | some u ↦ not (u == requester)
]

-- `ApplyOutcome`: the reservation, and whether the outcome was applied
unfoldable pub outcome_tx :
    OrderOutcome → (ℤ → OrderOutcome → ℤ) → ℕ → ℕ → Action (Reservation × Bool)
unfolding release apply_payout
outcome_tx o payout now db_now = do
  r ← get_reservation o.order_id
  if other_requester r o.requester_id
      then fail outcome_mismatch
      else elim (release_reason_of o.type) [
        | some reason ↦
            if contradicts reason r
            then fail outcome_mismatch
            else release o.order_id r reason now db_now
        | none ↦ apply_payout r o payout now db_now
      ]

unfoldable pub apply_outcome :
    Library
    → (ℤ → OrderOutcome → ℤ)
    → Env
    → RawOutcome
    → Store
    → Result Error (Reservation × Bool) × Store
apply_outcome l payout env o s = elim (validate l o) [
  | err e ↦ (err e, s)
  | ok p ↦ within env.commit (outcome_tx p payout env.now env.db_now) s
]
