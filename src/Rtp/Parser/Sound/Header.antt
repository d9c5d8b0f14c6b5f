-- ===== src/Rtp/Parser/Sound/Header.antt =====
-- The fixed header, and words, that were read stand at the front of the buffer.
use rtpkit.Common.{
  ℕ, zero, suc, ◌+◌, ◌*◌, ◌/◌, ◌^◌, ◌%◌, ◌≤◌, ◌<◌, ◌≡◌, refl, ap, ◌∙◌, [], ◌∷◌, ◌++◌, arith, length,
  drop, int_of_bool, truthy, bit_and, length-append, drop-append, All,
}
use rtpkit.Common.Bits.{bit_and-mask, shr}
use rtpkit.Outcome.Laws.{Ensures, Ensures-bind, Any}
use rtpkit.Wire.{
  Bytes, IsByte, byte_at, u16_at, u32_at, first_u32s, join_u16, join_u32, split_u16, split_u32,
}
use rtpkit.Wire.Write.{words}
use rtpkit.Rtp.Parser.{FixedHeader, parse_fixed_header}

abbrev pub fixed_bytes : FixedHeader → Bytes
fixed_bytes h =
    (h.version * 64 + int_of_bool h.padding_flag * 32 + int_of_bool h.extension_flag * 16 + h.cc)
    ∷ (int_of_bool h.marker * 128 + h.payload_type)
    ∷ (split_u16 h.seq ++ (split_u32 h.timestamp ++ split_u32 h.ssrc))

pub int_of_bool-truthy : (n : ℕ) → n < 2 → int_of_bool (truthy n) ≡ n
int_of_bool-truthy n h = ground arith

pub first_byte_fields :
    (b : ℕ)
    → b < 256
    → b
      ≡ bit_and (shr b 6) 0x03 * 64
        + int_of_bool (truthy (bit_and (shr b 5) 0x01)) * 32
        + int_of_bool (truthy (bit_and (shr b 4) 0x01)) * 16
        + bit_and b 0x0f
first_byte_fields b h = omega (
  arith,
  bit_and-mask 2 (shr b 6),
  bit_and-mask 1 (shr b 5),
  bit_and-mask 1 (shr b 4),
  bit_and-mask 4 b,
  int_of_bool-truthy (bit_and (shr b 5) 0x01),
  int_of_bool-truthy (bit_and (shr b 4) 0x01),
)

pub second_byte_fields :
    (b : ℕ) → b < 256 → b ≡ int_of_bool (truthy (bit_and (shr b 7) 0x01)) * 128 + bit_and b 0x7f
second_byte_fields b h =
    omega (
      arith,
      bit_and-mask 1 (shr b 7),
      bit_and-mask 7 b,
      int_of_bool-truthy (bit_and (shr b 7) 0x01),
    )

pub split-join_u16 :
    (a b : ℕ) (rest : Bytes) → a < 256 → b < 256 → a ∷ b ∷ rest ≡ split_u16 (join_u16 a b) ++ rest
split-join_u16 a b rest ha hb = λ i. hi i ∷ lo i ∷ rest
  where
    hi : a ≡ join_u16 a b / 2 ^ 8
    hi = omega arith

    lo : b ≡ join_u16 a b % 2 ^ 8
    lo = omega arith

pub split-join_u32 :
    (a b c d : ℕ) (rest : Bytes)
    → a < 256
    → b < 256
    → c < 256
    → d < 256
    → a ∷ b ∷ c ∷ d ∷ rest ≡ split_u32 (join_u32 a b c d) ++ rest
split-join_u32 a b c d rest ha hb hc hd = λ i. e0 i ∷ e1 i ∷ e2 i ∷ e3 i ∷ rest
  where
    e0 : a ≡ join_u32 a b c d / 2 ^ 24
    e0 = omega arith

    e1 : b ≡ join_u32 a b c d / 2 ^ 16 % 2 ^ 8
    e1 = omega arith

    e2 : c ≡ join_u32 a b c d / 2 ^ 8 % 2 ^ 8
    e2 = omega arith

    e3 : d ≡ join_u32 a b c d % 2 ^ 8
    e3 = omega arith

pub parse_fixed_header_sound :
    (bytes : Bytes)
    → 12 ≤ length bytes
    → All IsByte bytes
    → Ensures Any (λ h. bytes ≡ fixed_bytes h ++ drop 12 bytes) (parse_fixed_header bytes)
unfolding parse_fixed_header byte_at u16_at u32_at
parse_fixed_header_sound (b0 ∷ b1 ∷ s0 ∷ s1 ∷ t0 ∷ t1 ∷ t2 ∷ t3 ∷ c0 ∷ c1 ∷ c2 ∷ c3 ∷ rest) h
      (h0, (h1, all)) =
    λ i.
      first_byte_fields b0 h0 i
      ∷ second_byte_fields b1 h1 i
      ∷ (split-join_u16 s0 s1 [] (omega arith) (omega arith) i
          ++ (split-join_u32 t0 t1 t2 t3 [] (omega arith) (omega arith) (omega arith) (omega arith)
                i
              ++ (split-join_u32 c0 c1 c2 c3 [] (omega arith) (omega arith) (omega arith)
                    (omega arith) i
                  ++ rest)))
parse_fixed_header_sound _ h all = absurd (omega arith)

-- The words that are read, and the bytes behind them.
pub first_u32s_sound :
    (n : ℕ) (bytes : Bytes)
    → All IsByte bytes
    → Ensures Any
        (λ ns. (length ns ≡ n) × ((rest : Bytes) × (bytes ≡ words ns ++ rest)))
        (first_u32s n bytes)
unfolding first_u32s
first_u32s_sound zero bytes all = (refl, (bytes, refl))
first_u32s_sound (suc n) (a ∷ b ∷ c ∷ d ∷ bytes) (ha, (hb, (hc, (hd, all)))) =
    Ensures-bind Any _ _ (first_u32s n bytes) _ (first_u32s_sound n bytes all)
      λ ns (len, (rest, e)). (
        ap suc len,
        (
          rest,
          split-join_u32 a b c d bytes ha hb hc hd ∙ ap (◌++◌ (split_u32 (join_u32 a b c d))) e,
        ),
      )
first_u32s_sound (suc n) _ all = tt

-- What `tail` begins with, if the buffer is `front` and then `tail`.
module _ (bytes front tail : Bytes) (offset : ℕ) (e : bytes ≡ front ++ tail)
    (at : offset ≡ length front) where
  pub drop_front : drop offset bytes ≡ tail
  drop_front = rw e (drop-append offset front tail at)

  pub length_tail : length bytes ≡ offset + length tail
  length_tail = omega (arith, ap length e, length-append front tail)
