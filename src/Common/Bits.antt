-- ===== src/Common/Bits.antt =====
-- Python's `&`, `|`, `<<` and `>>` on the native numbers, and their arithmetic: a mask of low bits is
-- a remainder, and `|` of disjoint fields is a sum. Both laws hold at every width.
use Prim.Native.Nat.{
  ℕ, zero, suc, ◌+◌, ◌-◌, ◌*◌, ◌/◌, ◌%◌, ◌^◌, ◌≤◌, ◌<◌, min, max, digits, bit_and, bit_or,
  bit_and-bitwise, bit_or-bitwise,
}
use mathlib.Core.Path.{◌≡◌, refl, ap, ◌∙◌}
use native.Mathlib.Nat.{pow-suc, one-le-pow}
use native.Mathlib.Omega.{arith}

-- `x >> k` and `x << k`.
abbrev pub shr : ℕ → ℕ → ℕ
shr x k = x / 2 ^ k

abbrev pub shl : ℕ → ℕ → ℕ
shl x k = x * 2 ^ k

-- The recursion on binary digits that the native operations stand for: `base` is the result once the
-- first number is used up, `op` joins two digits.
module _ (base : ℕ → ℕ) (op : ℕ → ℕ → ℕ) where
  abbrev run : ℕ → ℕ → ℕ → ℕ
  run fuel x y = digits base op fuel x y

  fuel_free : (x y f g : ℕ) → x ≤ f → x ≤ g → run f x y ≡ run g x y
  fuel_free zero y zero zero _ _ = refl
  fuel_free zero y zero (suc g) _ _ = refl
  fuel_free zero y (suc f) zero _ _ = refl
  fuel_free zero y (suc f) (suc g) _ _ = refl
  fuel_free (suc x) y zero g h k = absurd (omega arith)
  fuel_free (suc x) y (suc f) zero h k = absurd (omega arith)
  fuel_free (suc x) y (suc f) (suc g) h k =
      let deeper : run f (suc x / 2) (y / 2) ≡ run g (suc x / 2) (y / 2) =
        fuel_free (suc x / 2) (y / 2) f g (omega arith) (omega arith) in
      omega arith

  -- The last digit, and the same recursion on the others.
  last_digit :
      (x y : ℕ)
      → run (suc x) (suc x) y ≡ run (suc x / 2) (suc x / 2) (y / 2) * 2 + op (suc x % 2) (y % 2)
  last_digit x y =
      omega (arith, fuel_free (suc x / 2) (y / 2) x (suc x / 2) (omega arith) (omega arith))

-- `&` and `|` by their last digits.
and_last : (x y : ℕ) → bit_and x y ≡ bit_and (x / 2) (y / 2) * 2 + min (x % 2) (y % 2)
and_last zero y = omega (arith, bit_and-bitwise 0 y, bit_and-bitwise 0 (y / 2))
and_last (suc x) y = omega (
  arith,
  bit_and-bitwise (suc x) y,
  bit_and-bitwise (suc x / 2) (y / 2),
  last_digit (λ _. zero) min x y,
)

or_last : (x y : ℕ) → bit_or x y ≡ bit_or (x / 2) (y / 2) * 2 + max (x % 2) (y % 2)
or_last zero y = omega (arith, bit_or-bitwise 0 y, bit_or-bitwise 0 (y / 2))
or_last (suc x) y = omega (
  arith,
  bit_or-bitwise (suc x) y,
  bit_or-bitwise (suc x / 2) (y / 2),
  last_digit (λ k. k) max x y,
)

-- With zero on the right, for `x` up to a bound on which the recursion runs.
and_nothing : (bound x : ℕ) → x ≤ bound → bit_and x 0 ≡ 0
and_nothing bound zero h = refl
and_nothing zero (suc x) h = absurd (omega arith)
and_nothing (suc bound) (suc x) h =
    omega (arith, and_last (suc x) 0, and_nothing bound (suc x / 2) (omega arith))

or_nothing : (bound x : ℕ) → x ≤ bound → bit_or x 0 ≡ x
or_nothing bound zero h = refl
or_nothing zero (suc x) h = absurd (omega arith)
or_nothing (suc bound) (suc x) h =
    omega (arith, or_last (suc x) 0, or_nothing bound (suc x / 2) (omega arith))

double_power : (q k : ℕ) → q * 2 ^ suc k ≡ 2 * (q * 2 ^ k)
double_power q k = omega (arith, ap (λ (t : ℕ). q * t) (pow-suc 2 k))

low_part : (k high low : ℕ) → low < 2 ^ k → bit_and (high * 2 ^ k + low) (2 ^ k - 1) ≡ low
low_part zero high low h =
    omega (arith, and_nothing (high * 1 + low) (high * 1 + low) (omega arith))
low_part (suc k) high low h =
    let halved : bit_and (high * 2 ^ k + low / 2) (2 ^ k - 1) ≡ low / 2 =
      low_part k high (low / 2) (omega (arith, pow-suc 2 k)) in
    ground (
      arith,
      and_last (high * 2 ^ suc k + low) (2 ^ suc k - 1),
      double_power high k,
      pow-suc 2 k,
      one-le-pow k 2,
    )

-- `a & (2 ** k - 1)` is the remainder by `2 ** k`.
pub bit_and-mask : (k a : ℕ) → bit_and a (2 ^ k - 1) ≡ a % 2 ^ k
bit_and-mask k a =
    let fits : a % 2 ^ k < 2 ^ k = omega (arith, one-le-pow k 2) in
    ground (arith, low_part k (a / 2 ^ k) (a % 2 ^ k) fits)

mask_part :
    (k high low : ℕ)
    → low < 2 ^ k
    → bit_or (high * 2 ^ k + low) (2 ^ k - 1) ≡ high * 2 ^ k + (2 ^ k - 1)
mask_part zero high low h =
    omega (arith, or_nothing (high * 1 + low) (high * 1 + low) (omega arith))
mask_part (suc k) high low h =
    let halved : bit_or (high * 2 ^ k + low / 2) (2 ^ k - 1) ≡ high * 2 ^ k + (2 ^ k - 1) =
      mask_part k high (low / 2) (omega (arith, pow-suc 2 k)) in
    ground (
      arith,
      or_last (high * 2 ^ suc k + low) (2 ^ suc k - 1),
      double_power high k,
      pow-suc 2 k,
      one-le-pow k 2,
    )

-- `a | (2 ** k - 1)` sets the digits that the remainder takes.
pub bit_or-mask : (k a : ℕ) → bit_or a (2 ^ k - 1) ≡ a / 2 ^ k * 2 ^ k + (2 ^ k - 1)
bit_or-mask k a =
    let fits : a % 2 ^ k < 2 ^ k = omega (arith, one-le-pow k 2) in
    ground (arith, mask_part k (a / 2 ^ k) (a % 2 ^ k) fits)

-- `x | y` is a sum if `y` fits below the lowest bit of `x`.
pub bit_or-disjoint : (k q x y : ℕ) → x ≡ q * 2 ^ k → y < 2 ^ k → bit_or x y ≡ x + y
bit_or-disjoint zero q x y e h = ap (bit_or x) zero_y ∙ or_nothing x x (omega arith) ∙ sum_eq
  where
    zero_y : y ≡ 0
    zero_y = omega arith

    sum_eq : x ≡ x + y
    sum_eq = omega arith
bit_or-disjoint (suc k) q x y e h =
    let halved : bit_or (x / 2) (y / 2) ≡ x / 2 + y / 2 =
      bit_or-disjoint k q (x / 2) (y / 2) (omega (arith, double_power q k))
        (omega (arith, pow-suc 2 k)) in
    omega (arith, or_last x y, double_power q k)

-- A mask above `k` bits reads the bits above them.
pub bit_and-high :
    (k high low m : ℕ)
    → low < 2 ^ k
    → bit_and (high * 2 ^ k + low) (m * 2 ^ k) ≡ bit_and high m * 2 ^ k
bit_and-high zero high low m h =
    omega (arith, ap (λ (x : ℕ). bit_and x (m * 1)) x_eq, ap (bit_and high) m_eq)
  where
    x_eq : high * 1 + low ≡ high
    x_eq = omega arith

    m_eq : m * 1 ≡ m
    m_eq = omega arith
bit_and-high (suc k) high low m h =
    let halved : bit_and (high * 2 ^ k + low / 2) (m * 2 ^ k) ≡ bit_and high m * 2 ^ k =
      bit_and-high k high (low / 2) m (omega (arith, pow-suc 2 k)) in
    ground (
      arith,
      and_last (high * 2 ^ suc k + low) (m * 2 ^ suc k),
      double_power high k,
      double_power m k,
      double_power (bit_and high m) k,
      pow-suc 2 k,
    )
