-- ===== src/Net/Encap/Checksum.antt =====
-- `_checksum16` against the ones' complement sum of RFC 1071.
use rtpkit.Common.{
  ℕ, zero, suc, ◌+◌, ◌-◌, ◌*◌, ◌/◌, ◌%◌, ◌^◌, ◌≤◌, ◌<◌, ◌≡◌, ◌∙◌, refl, sym, ap, true, false, [],
  ◌∷◌, inl, inr, Bool-cases, ltb, ltb→lt, ltb→ge, ◌==◌, truthy, bit_or, length, All, if◌then◌else◌,
  arith,
}
use rtpkit.Common.Bits.{shr, shl, bit_and-mask, bit_or-disjoint}
use rtpkit.Outcome.{Outcome, ok, ◌>>=◌}
use rtpkit.Wire.{Bytes, IsByte}
use rtpkit.Net.Encap.{sum_words, fold_carries, complement, pad_even, checksum16}

-- The sum of the 16-bit words, the last filled up with a zero byte.
abbrev pub word_sum : Bytes → ℕ
word_sum [] = 0
word_sum (a ∷ []) = a * 2 ^ 8
word_sum (a ∷ b ∷ rest) = a * 2 ^ 8 + b + word_sum rest

-- The remainder by 2^16 - 1, with 2^16 - 1 in place of 0 for a sum that is not zero.
abbrev pub ones_fold : ℕ → ℕ
ones_fold t = if t == 0 then 0 else (t - 1) % 65535 + 1

word_or : (a b : ℕ) → b < 2 ^ 8 → bit_or (shl a 8) b ≡ a * 2 ^ 8 + b
word_or a b h = bit_or-disjoint 8 a (shl a 8) b refl h

odd_suc : (n : ℕ) → truthy (suc (suc n) % 2) ≡ truthy (n % 2)
odd_suc n = ground arith

pad_even-pair : (a b : ℕ) (rest : Bytes) → pad_even (a ∷ b ∷ rest) ≡ a ∷ b ∷ pad_even rest
pad_even-pair a b rest = elim (Bool-cases (truthy (length rest % 2))) [
  | inl odd ↦ rw (odd_suc (length rest) ∙ odd, odd) refl
  | inr even ↦ rw (odd_suc (length rest) ∙ even, even) refl
]

sum_words-pad_even :
    (bytes : Bytes) → All IsByte bytes → sum_words (pad_even bytes) ≡ word_sum bytes
unfolding sum_words
sum_words-pad_even [] h = refl
sum_words-pad_even (a ∷ []) (h, _) = omega (arith, word_or a 0 (omega arith))
sum_words-pad_even (a ∷ b ∷ rest) (ha, (hb, h)) =
    ap sum_words (pad_even-pair a b rest) ∙ omega (arith, word_or a b hb, sum_words-pad_even rest h)

fold_less : (t : ℕ) → 2 ^ 16 ≤ t → t % 2 ^ 16 + t / 2 ^ 16 < t
fold_less t h = omega arith

fold_same : (t : ℕ) → 2 ^ 16 ≤ t → ones_fold (t % 2 ^ 16 + t / 2 ^ 16) ≡ ones_fold t
fold_same t h = ground arith

small_fold : (t : ℕ) → t < 2 ^ 16 → ones_fold t ≡ t
small_fold t h = ground arith

pub fold_carries_lem : (fuel t : ℕ) → t < fuel → fold_carries fuel t ≡ ok (ones_fold t) []
unfolding fold_carries
fold_carries_lem zero t h = absurd (omega arith)
fold_carries_lem (suc fuel) t h = elim (Bool-cases (ltb t (2 ^ 16))) [
  | inl small ↦
      rw (no_carry t (ltb→lt _ _ small))
        (ap (λ (n : ℕ). ok n []) (sym (small_fold t (ltb→lt _ _ small))))
  | inr large ↦
      let big : 2 ^ 16 ≤ t = ltb→ge _ _ large in
      rw (a_carry t big, bit_and-mask 16 t)
        (fold_carries_lem fuel (t % 2 ^ 16 + t / 2 ^ 16) (omega (arith, fold_less t big))
          ∙ ap (λ (n : ℕ). ok n []) (fold_same t big))
]
  where
    no_carry : (n : ℕ) → n < 2 ^ 16 → truthy (shr n 16) ≡ false
    no_carry n g = ground arith

    a_carry : (n : ℕ) → 2 ^ 16 ≤ n → truthy (shr n 16) ≡ true
    a_carry n g = ground arith

complement_lem : (t : ℕ) → t < 2 ^ 16 → complement t ≡ 65535 - t
complement_lem t h = omega (arith, bit_and-mask 16 t)

ones_fold_lt : (t : ℕ) → ones_fold t < 2 ^ 16
ones_fold_lt t = ground arith

pub checksum16_lem :
    (bytes : Bytes)
    → All IsByte bytes
    → checksum16 bytes ≡ ok (65535 - ones_fold (word_sum bytes)) []
unfolding checksum16
checksum16_lem bytes h =
    bind_eq (complement_lem (ones_fold (word_sum bytes)) (ones_fold_lt (word_sum bytes))) (
      fold_carries_lem (suc (sum_words (pad_even bytes))) (sum_words (pad_even bytes)) (omega arith)
      ∙ ap (λ (t : ℕ). ok (ones_fold t) []) (sum_words-pad_even bytes h))
  where
    bind_eq :
        {m : Outcome ℕ} {t n : ℕ}
        → complement t ≡ n
        → m ≡ ok t []
        → (m >>= λ folded. ok (complement folded) []) ≡ ok n []
    bind_eq e g = rw (g, e) refl

-- A sum and its checksum fold to all ones.
pub ones_fold_closes : (t : ℕ) → ones_fold (t + (65535 - ones_fold t)) ≡ 65535
ones_fold_closes t = ground arith

pub ones_fold_full : (t : ℕ) → ones_fold t ≡ 65535 → ones_fold (t + 65535) ≡ 65535
ones_fold_full t h = ground arith
