-- ===== src/Moq/Grease/Values.antt =====
-- Which values are reserved.
use imquic.Base.{ℕ, ◌-◌, ◌%◌, ◌<◌, ◌≡◌, arith, true, leb, ◌&&◌, ◌==◌, u64}
use imquic.Moq.Grease.{grease_base, grease_sum, is_grease, random_grease}

-- A 64-bit value is taken for a reserved one exactly if it is 0x9d more than a multiple of 0x7f, and every value
-- that is drawn to be reserved is one.
pub is_grease_values :
    (value n : ℕ)
    → value < u64
    → n < 1000
    → (is_grease value ≡ (leb grease_sum value && (value - grease_sum) % grease_base == 0))
      × (is_grease (random_grease n) ≡ true)
unfolding is_grease random_grease
is_grease_values value n h hn = (ground arith, ground arith)
