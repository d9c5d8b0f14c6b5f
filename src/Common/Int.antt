-- ===== src/Common/Int.antt =====
-- Python ints that may be negative, over the native numbers, with the operations that the code uses
-- on them. Sums and orders go through the two parts of an integer, which are numbers.
use Prim.Native.Nat.{ℕ, suc, ◌+◌, ◌-◌, ◌/◌, ◌%◌, ◌^◌, ◌≤◌, ◌<◌, bit_and, bit_or}
use mathlib.Core.Path.{◌≡◌, refl}
use mathlib.Core.Bool.{Bool, true, false, not, ◌&&◌}
use native.Mathlib.Omega.{arith}
use rtpkit.Common.Tests.{ltb, leb, if◌then◌else◌}

-- `negsuc n` is -(n + 1).
pub data ℤ : Type 0 where
  pos : ℕ → ℤ
  negsuc : ℕ → ℤ

abbrev pub pos_part : ℤ → ℕ
pos_part (pos n) = n
pos_part (negsuc n) = 0

abbrev pub neg_part : ℤ → ℕ
neg_part (pos n) = 0
neg_part (negsuc n) = suc n

-- a - b, as an integer.
abbrev pub sub_ℕ : ℕ → ℕ → ℤ
sub_ℕ a b = if leb b a then pos (a - b) else negsuc (b - a - 1)

infix 50 ◌≤ℤ◌
abbrev pub ◌≤ℤ◌ : ℤ → ℤ → Type 0
a ≤ℤ b = pos_part a + neg_part b ≤ pos_part b + neg_part a

infix 50 ◌<ℤ◌
abbrev pub ◌<ℤ◌ : ℤ → ℤ → Type 0
a <ℤ b = pos_part a + neg_part b < pos_part b + neg_part a

abbrev pub leb_ℤ : ℤ → ℤ → Bool
leb_ℤ a b = leb (pos_part a + neg_part b) (pos_part b + neg_part a)

abbrev pub ltb_ℤ : ℤ → ℤ → Bool
ltb_ℤ a b = ltb (pos_part a + neg_part b) (pos_part b + neg_part a)

-- `z & m` for a mask `m` of zero or more: -(n + 1) is the complement of n.
abbrev pub bit_and_ℤ : ℤ → ℕ → ℕ
bit_and_ℤ (pos n) m = bit_and n m
bit_and_ℤ (negsuc n) m = m - bit_and n m

-- `lo <= z <= hi`, as a test and as a statement.
abbrev pub in_range : ℕ → ℕ → ℤ → Bool
in_range lo hi z = leb_ℤ (pos lo) z && leb_ℤ z (pos hi)

abbrev pub InRange : ℕ → ℕ → ℤ → Type 0
InRange lo hi z = (n : ℕ) × (z ≡ pos n) × (lo ≤ n) × (n ≤ hi)

pub in_range→InRange : (lo hi : ℕ) (z : ℤ) → in_range lo hi z ≡ true → InRange lo hi z
in_range→InRange lo hi (pos n) h = (n, refl, ground arith, ground arith)
in_range→InRange lo hi (negsuc n) h = absurd (ground arith)

pub InRange→in_range : (lo hi : ℕ) (z : ℤ) → InRange lo hi z → in_range lo hi z ≡ true
InRange→in_range lo hi z (n, e, h, k) = rw e (ground arith)

pub not_in_range→InRange : (lo hi : ℕ) (z : ℤ) → not (in_range lo hi z) ≡ false → InRange lo hi z
not_in_range→InRange lo hi z h = in_range→InRange lo hi z (ground arith)

pub InRange→not_in_range : (lo hi : ℕ) (z : ℤ) → InRange lo hi z → not (in_range lo hi z) ≡ false
InRange→not_in_range lo hi z h = rw (InRange→in_range lo hi z h)

abbrev pub abs_ℤ : ℤ → ℕ
abs_ℤ z = pos_part z + neg_part z

-- `z % m`, which is never negative.
abbrev pub mod_ℤ : ℤ → ℕ → ℕ
mod_ℤ (pos n) m = n % m
mod_ℤ (negsuc n) m = m - 1 - n % m

infixl 60 ◌+ℤ◌ ◌-ℤ◌
abbrev pub ◌+ℤ◌ : ℤ → ℤ → ℤ
a +ℤ b = sub_ℕ (pos_part a + pos_part b) (neg_part a + neg_part b)

abbrev pub ◌-ℤ◌ : ℤ → ℤ → ℤ
a -ℤ b = sub_ℕ (pos_part a + neg_part b) (neg_part a + pos_part b)

-- `z & ~m` for a mask `m` of zero or more.
abbrev pub clear_bits : ℤ → ℕ → ℤ
clear_bits (pos n) m = pos (n - bit_and n m)
clear_bits (negsuc n) m = negsuc (bit_or n m)

-- `z >> k`, which rounds down.
abbrev pub shr_ℤ : ℤ → ℕ → ℤ
shr_ℤ (pos n) k = pos (n / 2 ^ k)
shr_ℤ (negsuc n) k = negsuc (n / 2 ^ k)
