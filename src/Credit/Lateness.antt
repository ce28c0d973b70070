-- ===== src/Credit/Lateness.antt =====
-- credit-service/internal/reservation/lateness.go. A `time.Duration` is an int64 of nanoseconds, so
-- its arithmetic wraps; `math/big` is exact.
pub mod Bounds
use fo_c.Base.{ℕ, ◌+◌, ◌-◌, ◌*◌, ◌/◌, ◌%◌, ◌^◌, Bool, ltb, if◌then◌else◌}
use fo_c.Base.Int.{ℤ, pos, negsuc, pos_part, neg_part, sub_ℕ, ◌+ℤ◌, ◌-ℤ◌, neg, leb_ℤ, ltb_ℤ}
use fo_c.Credit.Types.{OrderOutcome, OutcomeType, order_completed}

-- The int64 that an exact result wraps to.
unfoldable pub wrap64 : ℤ → ℤ
wrap64 z =
    let m = (pos_part z + (2 ^ 64 - neg_part z % 2 ^ 64)) % 2 ^ 64 in
    if ltb m (2 ^ 63) then pos m else negsuc (2 ^ 64 - m - 1)

-- `big.Int.Mul` and `big.Int.Quo`, which truncates towards zero
abbrev abs : ℤ → ℕ
abs z = pos_part z + neg_part z

abbrev is_negative : ℤ → Bool
is_negative (pos n) = Bool.false
is_negative (negsuc n) = Bool.true

abbrev with_sign : Bool → ℕ → ℤ
with_sign negative n = if negative then neg (pos n) else pos n

abbrev signs_differ : ℤ → ℤ → Bool
signs_differ a b =
    if is_negative a then (if is_negative b then Bool.false else Bool.true) else is_negative b

unfoldable pub big_mul : ℤ → ℤ → ℤ
big_mul a b = with_sign (signs_differ a b) (abs a * abs b)

unfoldable pub big_quo : ℤ → ℤ → ℤ
big_quo a b = with_sign (signs_differ a b) (abs a / abs b)

-- `Payable`
unfoldable pub payable : ℤ → ℤ → ℤ → ℤ
payable reward elapsed allowed =
    if leb_ℤ elapsed allowed
    then reward
    else if leb_ℤ (wrap64 (allowed +ℤ allowed)) elapsed
    then pos 0
    else wrap64 (big_quo (big_mul reward (wrap64 (wrap64 (allowed +ℤ allowed) -ℤ elapsed))) allowed)

-- `Time.Sub`, which saturates
unfoldable pub time_sub : ℕ → ℕ → ℤ
time_sub later earlier =
    let d = sub_ℕ later earlier in
    if ltb_ℤ (pos (2 ^ 63 - 1)) d
    then pos (2 ^ 63 - 1)
    else if ltb_ℤ d (negsuc (2 ^ 63 - 1))
    then negsuc (2 ^ 63 - 1)
    else d

abbrev pub is_completed : OutcomeType → Bool
is_completed order_completed = Bool.true
is_completed _ = Bool.false

-- `LatenessPayout`
unfoldable pub lateness_payout : ℤ → OrderOutcome → ℤ
lateness_payout offer o =
    if is_completed o.type
    then payable offer (time_sub o.delivered_at o.picked_up_at) o.delivery_duration
    else offer
