-- ===== src/Order/Creation/Backoff.antt =====
-- The delay before the next attempt of a creation, against its schedule.
use fo_c.Base.{ℕ, zero, suc, ◌*◌, ◌≤◌, arith}
use fo_c.Order.Creation.{second, base_delay, creation_retry_delay}

-- The least delay after the first attempt, the second and so on.
abbrev pub scheduled : ℕ → ℕ
scheduled zero = second
scheduled (suc zero) = 2 * second
scheduled (suc (suc zero)) = 4 * second
scheduled (suc (suc (suc zero))) = 8 * second
scheduled (suc (suc (suc (suc zero)))) = 16 * second
scheduled (suc (suc (suc (suc (suc n))))) = 30 * second

-- With a random part of at most a quarter of the base, the delay after each attempt lies between its
-- place in the schedule and the next one, so delays never shrink: the schedule doubles from one second
-- and stays at thirty from the sixth attempt on.
pub creation_retry_delay-scheduled :
    (n jitter : ℕ)
    → 4 * jitter ≤ base_delay (suc n)
    → (scheduled n ≤ creation_retry_delay (suc n) jitter)
      × (creation_retry_delay (suc n) jitter ≤ scheduled (suc n))
unfolding creation_retry_delay
creation_retry_delay-scheduled zero jitter h = (ground arith, ground arith)
creation_retry_delay-scheduled (suc zero) jitter h = (ground arith, ground arith)
creation_retry_delay-scheduled (suc (suc zero)) jitter h = (ground arith, ground arith)
creation_retry_delay-scheduled (suc (suc (suc zero))) jitter h = (ground arith, ground arith)
creation_retry_delay-scheduled (suc (suc (suc (suc zero)))) jitter h = (ground arith, ground arith)
creation_retry_delay-scheduled (suc (suc (suc (suc (suc zero))))) jitter h =
    (ground arith, ground arith)
creation_retry_delay-scheduled (suc (suc (suc (suc (suc (suc n)))))) jitter h =
    (ground arith, ground arith)
