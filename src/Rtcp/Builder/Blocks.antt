-- ===== src/Rtcp/Builder/Blocks.antt =====
-- A report block that is serialized is read back, its negative loss count included.
use rtpkit.Common.{
  ℕ, suc, ◌+◌, ◌*◌, ◌^◌, ◌≤◌, ◌<◌, ◌≡◌, refl, sym, ap, ◌∙◌, true, not, List, [], ◌∷◌, ◌++◌,
  append_assoc, arith, length, length-append, All, bit_and,
}
use rtpkit.Common.Bits.{shl, shr, bit_and-mask, bit_or-disjoint}
use rtpkit.Common.Int.{ℤ, pos, pos_part, bit_and_ℤ, in_range, InRange, not_in_range→InRange}
use rtpkit.Outcome.{ok, raise_if}
use rtpkit.Outcome.Laws.{Any, Ensures, Ensures-bind, Ensures-mono, raise_if-Ensures}
use rtpkit.Wire.{Bytes, pack_u32, pack_u32s}
use rtpkit.Wire.Write.{words, pack_u32-Ensures, pack_u32s-Ensures, IsU32}
use rtpkit.Rtcp.{ReportBlock}
use rtpkit.Rtcp.Bodies.{parse_report_block, with_last_words, sign_extend, report_block_loop}
use rtpkit.Rtcp.Bodies.Blocks.{parse_report_block-words}
use rtpkit.Rtcp.Bodies.Sign.{sign_extend-bit_and_ℤ}
use rtpkit.Rtcp.Builder.{pack_lost, in_i24, serialize_report_block, serialize_report_blocks}

pack_lost_lem :
    (m : ℕ) (z : ℤ)
    → m ≤ 255
    → in_i24 z ≡ true
    → (bit_and (shr (pack_lost (pos m) z) 24) 0xff ≡ m) × (sign_extend (pack_lost (pos m) z) ≡ z)
pack_lost_lem m z h k = (
  omega (arith, sum, small, bit_and-mask 8 (shr (pack_lost (pos m) z) 24)),
  ap sign_extend sum ∙ (sign_extend-bit_and_ℤ m z k).1,
)
  where
    small : bit_and_ℤ z 0xff_ffff < 2 ^ 24
    small = (sign_extend-bit_and_ℤ m z k).0

    high : shl (bit_and m 0xff) 24 ≡ m * 2 ^ 24
    high = omega (arith, bit_and-mask 8 m)

    sum : pack_lost (pos m) z ≡ m * 2 ^ 24 + bit_and_ℤ z 0xff_ffff
    sum =
        bit_or-disjoint 24 m (shl (bit_and m 0xff) 24) (bit_and_ℤ z 0xff_ffff) high small
        ∙ ap (λ (x : ℕ). x + bit_and_ℤ z 0xff_ffff) high

-- These bytes are read back as the block, wherever they stand.
abbrev IsBlock : ReportBlock → Bytes → Type 0
IsBlock rb bytes =
    (length bytes ≡ 24)
    × ((off : ℕ) (front tail : Bytes)
        → off ≡ length front
        → parse_report_block (front ++ (bytes ++ tail)) off ≡ ok rb [])

-- A block of the fields that the checks have passed, on its words.
IsBlock-words :
    (rb : ReportBlock)
    → InRange 0 255 rb.fraction_lost
    → in_i24 rb.cumulative_lost ≡ true
    → All IsU32 (
        rb.ssrc ∷ rb.extended_highest_sequence ∷ rb.jitter ∷ rb.last_sr ∷ rb.delay_since_last_sr
        ∷ [])
    → IsBlock rb (
        words (
          pos_part rb.ssrc
          ∷ pack_lost rb.fraction_lost rb.cumulative_lost
          ∷ pos_part rb.extended_highest_sequence
          ∷ pos_part rb.jitter
          ∷ pos_part rb.last_sr
          ∷ pos_part rb.delay_since_last_sr
          ∷ []))
unfolding with_last_words
IsBlock-words rb (m, frac, _, m_le) lost ((e1, _), ((e2, _), ((e3, _), ((e4, _), ((e5, _), _))))) =
    (refl, λ off front tail at. parse_report_block-words _ _ _ _ _ _ off front tail at ∙ fields)
  where
    bits :
        (bit_and (shr (pack_lost rb.fraction_lost rb.cumulative_lost) 24) 0xff ≡ m)
        × (sign_extend (pack_lost rb.fraction_lost rb.cumulative_lost) ≡ rb.cumulative_lost)
    bits = rw frac (pack_lost_lem m rb.cumulative_lost m_le lost)

    fields :
        with_last_words (pos_part rb.ssrc) (pack_lost rb.fraction_lost rb.cumulative_lost) (
          pos_part rb.extended_highest_sequence
          ∷ pos_part rb.jitter
          ∷ pos_part rb.last_sr
          ∷ pos_part rb.delay_since_last_sr
          ∷ [])
        ≡ ok rb []
    fields = rw (bits.0, bits.1, sym frac, sym e1, sym e2, sym e3, sym e4, sym e5)

serialize_report_block-IsBlock :
    (rb : ReportBlock) → Ensures Any (IsBlock rb) (serialize_report_block rb)
unfolding serialize_report_block
serialize_report_block-IsBlock rb =
    Ensures-bind _ _ _ (raise_if (not (in_range 0 255 rb.fraction_lost)) _) _
      (raise_if-Ensures Any _ _ tt)
      λ _ frac.
        Ensures-bind _ _ _ (raise_if (not (in_i24 rb.cumulative_lost)) _) _
          (raise_if-Ensures Any _ _ tt)
          λ _ lost.
            Ensures-bind _ _ _
              (pack_u32s (
                rb.ssrc
                ∷ pos (pack_lost rb.fraction_lost rb.cumulative_lost)
                ∷ rb.extended_highest_sequence
                ∷ rb.jitter
                ∷ rb.last_sr
                ∷ []))
              _ (Ensures-mono _ Any _ _ (pack_u32s _) (pack_u32s-Ensures _) (λ _ _. tt) (λ _ h. h))
              λ first (fit, first_eq).
                Ensures-bind _ _ _ (pack_u32 rb.delay_since_last_sr) _
                  (Ensures-mono _ Any _ _ (pack_u32 _) (pack_u32-Ensures _) (λ _ _. tt) (λ _ h. h))
                  λ last (fits, last_eq).
                    rw (first_eq, last_eq)
                      (IsBlock-words rb (not_in_range→InRange 0 255 rb.fraction_lost frac)
                        (ground arith)
                        (fit.0, (fit.1.1.0, (fit.1.1.1.0, (fit.1.1.1.1.0, (fits, tt))))))

-- These bytes are read back as the blocks, wherever they stand.
abbrev pub AreBlocks : List ReportBlock → Bytes → Type 0
AreBlocks rbs bytes =
    (length bytes ≡ length rbs * 24)
    × ((off : ℕ) (front tail : Bytes)
        → off ≡ length front
        → report_block_loop (length rbs) (front ++ (bytes ++ tail)) off ≡ ok rbs [])

AreBlocks-append :
    (rb : ReportBlock) (rbs : List ReportBlock) (first rest : Bytes)
    → IsBlock rb first
    → AreBlocks rbs rest
    → AreBlocks (rb ∷ rbs) (first ++ rest)
unfolding report_block_loop
AreBlocks-append rb rbs first rest (size, read) (sizes, reads) =
    (omega (arith, length-append first rest, size, sizes), all)
  where
    all :
        (off : ℕ) (front tail : Bytes)
        → off ≡ length front
        → report_block_loop (suc (length rbs)) (front ++ ((first ++ rest) ++ tail)) off
          ≡ ok (rb ∷ rbs) []
    all off front tail at = rw (
      append_assoc first rest tail,
      read off front (rest ++ tail) at,
      sym (append_assoc front first (rest ++ tail)),
      reads (off + 24) (front ++ first) tail behind,
    )
      where
        behind : off + 24 ≡ length (front ++ first)
        behind = omega (arith, length-append front first, size, at)

pub serialize_report_blocks-AreBlocks :
    (rbs : List ReportBlock) → Ensures Any (AreBlocks rbs) (serialize_report_blocks rbs)
unfolding serialize_report_blocks report_block_loop
serialize_report_blocks-AreBlocks [] = (refl, λ off front tail at. refl)
serialize_report_blocks-AreBlocks (rb ∷ rbs) =
    Ensures-bind _ _ _ (serialize_report_block rb) _ (serialize_report_block-IsBlock rb)
      λ first is_block.
        Ensures-bind _ _ _ (serialize_report_blocks rbs) _ (serialize_report_blocks-AreBlocks rbs)
          λ rest are_blocks. AreBlocks-append rb rbs first rest is_block are_blocks
