-- ===== src/Credit/Lateness/Bounds.antt =====
-- The courier's pay for a delivery: the exact fraction of the reward, its bounds and its order.
use fo_c.Base.{
  false, ℕ, suc, ◌+◌, ◌-◌, ◌*◌, ◌/◌, ◌^◌, ◌≤◌, ◌<◌, ◌≡◌, arith, leb, if◌then◌else◌, inl, inr,
  Bool-cases, ap, ◌∙◌,
}
use native.Mathlib.Nat.{
  le-div_iff_mul-le, div-mul-le_self, div-le_of_le-mul, mul-le-mul_left, le_trans, mul_comm,
}
use fo_c.Base.Int.{pos, ◌+ℤ◌, ◌-ℤ◌, ◌≤ℤ◌}
use fo_c.Credit.Lateness.{payable, wrap64, big_mul, big_quo}

-- The share of the reward R for a delivery that took e where T was agreed: all of it up to T, then
-- falling linearly to nothing at 2 T.
abbrev pub share : ℕ → ℕ → ℕ → ℕ
share R e T = if leb e T then R else R * (2 * T - e) / T

wrap64_small : (m : ℕ) → m < 2 ^ 63 → wrap64 (pos m) ≡ pos m
unfolding wrap64
wrap64_small m h = ground arith

sum_pos : (a b : ℕ) → pos a +ℤ pos b ≡ pos (a + b)
unfolding ◌+ℤ◌
sum_pos a b = ground arith

difference_pos : (a b : ℕ) → b ≤ a → pos a -ℤ pos b ≡ pos (a - b)
unfolding ◌-ℤ◌
difference_pos a b h = ground arith

twice : (T : ℕ) → 2 * T < 2 ^ 63 → wrap64 (pos T +ℤ pos T) ≡ pos (2 * T)
twice T h = ap wrap64 (sum_pos T T) ∙ wrap64_small (T + T) (omega arith) ∙ ap pos (omega arith)

quotient_pos : (R n T : ℕ) → big_quo (big_mul (pos R) (pos n)) (pos T) ≡ pos (R * n / T)
unfolding big_quo big_mul
quotient_pos R n T = ground arith

zero_share : (R n T : ℕ) → suc 0 ≤ T → n ≡ 0 → R * n / T ≡ 0
zero_share R n T positive h = rw h (ground arith)

div_mono : (a b T : ℕ) → suc 0 ≤ T → a ≤ b → a / T ≤ b / T
div_mono a b T positive h = (le-div_iff_mul-le positive).1 (le_trans (div-mul-le_self a T) h)

within_T : (e T : ℕ) → T ≤ e → 2 * T - e ≤ T
within_T e T h = omega arith

-- The share is at most the reward, all of it in time, and nothing from twice the agreed time.
pub share-Bounded :
    (R e T : ℕ)
    → suc 0 ≤ T
    → (share R e T ≤ R) × (e ≤ T → share R e T ≡ R) × (2 * T ≤ e → share R e T ≡ 0)
share-Bounded R e T positive = (
  at_most,
  λ in_time. ground arith,
  λ late. ground (arith, zero_share R (2 * T - e) T positive (omega arith)),
)
  where
    at_most : share R e T ≤ R
    at_most = elim (Bool-cases (leb e T)) [
      | inl in_time ↦ ground arith
      | inr late ↦ ground (
        arith,
        div-le_of_le-mul T {m = R * (2 * T - e)} {n = R}
            (rw (mul_comm T R) (mul-le-mul_left R (within_T e T (ground arith)))),
      )
    ]

partial_fits : (R e T : ℕ) → R < 2 ^ 63 → suc 0 ≤ T → leb e T ≡ false → R * (2 * T - e) / T < 2 ^ 63
partial_fits R e T reward_fits positive late = ground (arith, (share-Bounded R e T positive).0)

-- For a positive agreed time whose double is below 2^63, and every reward of int64 that is not
-- negative, `Payable` is the exact share of the reward: nothing wraps.
pub payable-share :
    (R e T : ℕ)
    → R < 2 ^ 63
    → suc 0 ≤ T
    → 2 * T < 2 ^ 63
    → payable (pos R) (pos e) (pos T) ≡ pos (share R e T)
unfolding payable
payable-share R e T reward_fits positive small = elim (Bool-cases (leb e T)) [
  | inl in_time ↦ ground arith
  | inr late ↦ elim (Bool-cases (leb (2 * T) e)) [
    | inl too_late ↦
        ground (arith, twice T small, quotient_pos R 0 T, zero_share R (2 * T - e) T positive)
    | inr in_part ↦ ground (
      arith,
      twice T small,
      difference_pos (2 * T) e (ground arith),
      wrap64_small (2 * T - e) (omega arith),
      quotient_pos R (2 * T - e) T,
      wrap64_small (R * (2 * T - e) / T) (partial_fits R e T reward_fits positive late),
    )
  ]
]

-- A later delivery is never paid more.
pub share-antitone : (R e d T : ℕ) → suc 0 ≤ T → e ≤ d → share R d T ≤ share R e T
share-antitone R e d T positive later = ground (
  arith,
  div_mono (R * (2 * T - d)) (R * (2 * T - e)) T positive (mul-le-mul_left R (omega arith)),
  (share-Bounded R d T positive).0,
)

-- What `Payable` returns lies between nothing and the reward, and a later delivery is never paid more.
pub payable-antitone :
    (R e d T : ℕ)
    → R < 2 ^ 63
    → suc 0 ≤ T
    → 2 * T < 2 ^ 63
    → e ≤ d
    → (pos 0 ≤ℤ payable (pos R) (pos d) (pos T))
      × (payable (pos R) (pos d) (pos T) ≤ℤ payable (pos R) (pos e) (pos T))
      × (payable (pos R) (pos e) (pos T) ≤ℤ pos R)
payable-antitone R e d T fits positive small later =
    rw (payable-share R e T fits positive small, payable-share R d T fits positive small)
      (
        omega arith,
        omega (arith, share-antitone R e d T positive later),
        omega (arith, (share-Bounded R e T positive).0),
      )
