-- ===== src/Rtcp/Bodies/Sign.antt =====
-- The 24-bit two's complement of a report block's loss count.
use rtpkit.Common.{
  ℕ, ◌+◌, ◌-◌, ◌*◌, ◌/◌, ◌%◌, ◌^◌, ◌<◌, ◌≡◌, ap, ◌∙◌, false, true, ◌&&◌, arith, bit_and, truthy,
  leb,
}
use rtpkit.Common.Bits.{bit_and-mask, bit_and-high}
use rtpkit.Common.Int.{ℤ, pos, negsuc, bit_and_ℤ, leb_ℤ}
use rtpkit.Rtcp.Bodies.{sign_extend}

sign_bit : (c : ℕ) → c < 2 ^ 24 → bit_and c 0x80_0000 ≡ c / 2 ^ 23 * 2 ^ 23
sign_bit c h =
    ap (λ (x : ℕ). bit_and x 0x80_0000) split
    ∙ bit_and-high 23 (c / 2 ^ 23) (c % 2 ^ 23) 1 (omega arith)
    ∙ high
  where
    split : c ≡ c / 2 ^ 23 * 2 ^ 23 + c % 2 ^ 23
    split = omega arith

    high : bit_and (c / 2 ^ 23) 1 * 2 ^ 23 ≡ c / 2 ^ 23 * 2 ^ 23
    high = omega (arith, bit_and-mask 1 (c / 2 ^ 23))

low_word : (m c : ℕ) → c < 2 ^ 24 → bit_and (m * 2 ^ 24 + c) 0xff_ffff ≡ c
low_word m c h = omega (arith, bit_and-mask 24 (m * 2 ^ 24 + c))

sign_extend-pos : (m n : ℕ) → n < 2 ^ 23 → sign_extend (m * 2 ^ 24 + n) ≡ pos n
unfolding sign_extend
sign_extend-pos m n h = rw (low_word m n (omega arith), sign_bit n (omega arith), clear)
  where
    clear : truthy (n / 2 ^ 23 * 2 ^ 23) ≡ false
    clear = ground arith

sign_extend-negsuc : (m n : ℕ) → n < 2 ^ 23 → sign_extend (m * 2 ^ 24 + (0xff_ffff - n)) ≡ negsuc n
unfolding sign_extend
sign_extend-negsuc m n h =
    rw
      (low_word m (0xff_ffff - n) (omega arith), sign_bit (0xff_ffff - n) (omega arith), set, below)
      (ap negsuc back)
  where
    set : truthy ((0xff_ffff - n) / 2 ^ 23 * 2 ^ 23) ≡ true
    set = ground arith

    below : leb 0x100_0000 (0xff_ffff - n) ≡ false
    below = ground arith

    back : 0x100_0000 - (0xff_ffff - n) - 1 ≡ n
    back = omega arith

-- The bits of a count in the range, behind the eight of another field, are read back as that count.
pub sign_extend-bit_and_ℤ :
    (m : ℕ) (z : ℤ)
    → (leb_ℤ (negsuc 0x7f_ffff) z && leb_ℤ z (pos 0x7f_ffff)) ≡ true
    → (bit_and_ℤ z 0xff_ffff < 2 ^ 24) × (sign_extend (m * 2 ^ 24 + bit_and_ℤ z 0xff_ffff) ≡ z)
sign_extend-bit_and_ℤ m (pos n) h = (
  omega (arith, mask, small),
  ap (λ (c : ℕ). sign_extend (m * 2 ^ 24 + c)) mask ∙ sign_extend-pos m n small,
)
  where
    small : n < 2 ^ 23
    small = ground arith

    mask : bit_and n 0xff_ffff ≡ n
    mask = omega (arith, bit_and-mask 24 n, small)
sign_extend-bit_and_ℤ m (negsuc n) h =
    (omega arith, ap (λ (c : ℕ). sign_extend (m * 2 ^ 24 + c)) mask ∙ sign_extend-negsuc m n small)
  where
    small : n < 2 ^ 23
    small = ground arith

    mask : 0xff_ffff - bit_and n 0xff_ffff ≡ 0xff_ffff - n
    mask = omega (arith, bit_and-mask 24 n, small)
