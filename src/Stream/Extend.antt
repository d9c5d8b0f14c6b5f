-- ===== src/Stream/Extend.antt =====
-- `_extend`: the extended number is the one nearest to the highest so far that ends in the 16 bits of
-- the packet's sequence number.
use rtpkit.Common.{ℕ, ◌+◌, ◌-◌, ◌*◌, ◌/◌, ◌%◌, ◌^◌, ◌≤◌, ◌<◌, ◌≡◌, refl, ap, some, arith}
use rtpkit.Common.Int.{ℤ, pos, negsuc, sub_ℕ, abs_ℤ, mod_ℤ, bit_and_ℤ, clear_bits, ◌+ℤ◌, ◌-ℤ◌}
use rtpkit.Common.Bits.{bit_and-mask, bit_or-mask}
use rtpkit.Stream.State.{extend, unwrap_delta}

-- The parts of the highest number are its 16 low bits and the rest.
low_bits : (z : ℤ) → bit_and_ℤ z 0xffff ≡ mod_ℤ z (2 ^ 16)
low_bits (pos n) = bit_and-mask 16 n
low_bits (negsuc n) = ap (λ (m : ℕ). 0xffff - m) (bit_and-mask 16 n)

join_parts : (n m : ℕ) → m ≤ n → pos (n - m) +ℤ pos m ≡ pos n
join_parts n m h = ground arith

join_negative :
    (n : ℕ)
    → negsuc (n / 2 ^ 16 * 2 ^ 16 + (2 ^ 16 - 1)) +ℤ pos (2 ^ 16 - 1 - n % 2 ^ 16) ≡ negsuc n
join_negative n = ground arith

parts_join : (z : ℤ) → clear_bits z 0xffff +ℤ pos (mod_ℤ z (2 ^ 16)) ≡ z
parts_join (pos n) = rw (bit_and-mask 16 n) (join_parts n (n % 2 ^ 16) (omega arith))
parts_join (negsuc n) = rw (bit_or-mask 16 n) (join_negative n)

step_nearest :
    (z : ℤ) (seq : ℕ)
    → seq < 2 ^ 16
    → (mod_ℤ (z +ℤ unwrap_delta (sub_ℕ seq (mod_ℤ z (2 ^ 16)))) (2 ^ 16) ≡ seq)
      × (abs_ℤ (z +ℤ unwrap_delta (sub_ℕ seq (mod_ℤ z (2 ^ 16))) -ℤ z) ≤ 2 ^ 15)
step_nearest (pos n) seq h = ground arith
step_nearest (negsuc n) seq h = ground arith

pub extend_steps :
    (highest : ℤ) (seq : ℕ)
    → extend (some highest) seq ≡ highest +ℤ unwrap_delta (sub_ℕ seq (mod_ℤ highest (2 ^ 16)))
unfolding extend
extend_steps highest seq = rw (low_bits highest, parts_join highest) refl

-- After a packet, the extended number is within 2^15 of the highest number so far, and leaves the packet's
-- sequence number by 2^16, also below zero.
pub extend_nearest :
    (highest : ℤ) (seq : ℕ)
    → seq < 2 ^ 16
    → (mod_ℤ (extend (some highest) seq) (2 ^ 16) ≡ seq)
      × (abs_ℤ (extend (some highest) seq -ℤ highest) ≤ 2 ^ 15)
extend_nearest highest seq h = rw (extend_steps highest seq) (step_nearest highest seq h)

recovered :
    (highest number : ℤ)
    → abs_ℤ (number -ℤ highest) < 2 ^ 15
    → highest +ℤ unwrap_delta (sub_ℕ (mod_ℤ number (2 ^ 16)) (mod_ℤ highest (2 ^ 16))) ≡ number
recovered (pos n) (pos m) h = ground arith
recovered (pos n) (negsuc m) h = ground arith
recovered (negsuc n) (pos m) h = ground arith
recovered (negsuc n) (negsuc m) h = ground arith

-- The 16 bits of a sequence number are enough: a number that is less than 2^15 away from the highest so far is
-- recovered from its remainder by 2^16.
pub extend_recovers :
    (highest number : ℤ)
    → abs_ℤ (number -ℤ highest) < 2 ^ 15
    → extend (some highest) (mod_ℤ number (2 ^ 16)) ≡ number
extend_recovers highest number h =
    rw (extend_steps highest (mod_ℤ number (2 ^ 16))) (recovered highest number h)
