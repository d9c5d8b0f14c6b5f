-- ===== src/Detection/Flow/Deltas.antt =====
-- `_wrapped_delta`, against the distance of two numbers on the circle of 2^16 sequence numbers.
use rtpkit.Common.{ℕ, ◌+◌, ◌%◌, ◌^◌, ◌≤◌, min, ◌≡◌, arith}
use rtpkit.Common.Int.{sub_ℕ, abs_ℤ, mod_ℤ, pos_part, neg_part}
use rtpkit.Detection.Flow.{seq_mod, wrapped_delta}

-- The shorter way from one to the other.
abbrev pub circular_distance : ℕ → ℕ → ℕ
circular_distance a b = min (mod_ℤ (sub_ℕ b a) seq_mod) (mod_ℤ (sub_ℕ a b) seq_mod)

pub abs_wrapped_delta : (a b : ℕ) → abs_ℤ (wrapped_delta a b) ≡ circular_distance a b
unfolding wrapped_delta
abs_wrapped_delta a b = ground arith

-- `_wrapped_delta` is the step of at most 2^15 either way that leads from the one number to the other.
pub wrapped_delta_leads :
    (a b : ℕ)
    → (abs_ℤ (wrapped_delta a b) ≤ 2 ^ 15)
      × ((a + pos_part (wrapped_delta a b)) % 2 ^ 16 ≡ (b + neg_part (wrapped_delta a b)) % 2 ^ 16)
unfolding wrapped_delta
wrapped_delta_leads a b = ground arith
