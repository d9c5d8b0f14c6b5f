-- ===== src/Rtcp/Builder/Bodies.antt =====
-- What it means that a serialized body is read back as the packet, and that the reports and the SDES are.
use rtpkit.Common.{
  ℕ, ◌%◌, ◌^◌, ◌≤◌, ◌<◌, ◌≡◌, refl, sym, ap, ◌∙◌, List, [], ◌∷◌, ◌++◌, map, append_assoc, arith,
  length, length-append, All, ltb, ltb→ge,
}
use rtpkit.Common.Int.{ℤ, pos, pos_part, InRange}
use rtpkit.Errors.{Field}
use rtpkit.Outcome.{ok, raise_if}
use rtpkit.Outcome.Laws.{Any, Ensures, Ensures-bind, Ensures-mono, raise_if-Ensures}
use rtpkit.Wire.{Bytes, u32s_at, pack_u32, pack_u32s, split_u32}
use rtpkit.Wire.Write.{
  words, IsU32, pack_u32-Ensures, pack_u32s-Ensures, u32_at-append, u32s_at-append,
}
use rtpkit.Rtcp.{
  SenderInfo, ReportBlock, SdesChunk, RtcpPacket, sender_report, receiver_report,
  source_description, application_defined, padding_of,
}
use rtpkit.Rtcp.Bodies.{parse_one, parse_report_blocks}
use rtpkit.Rtcp.Bodies.Complete.{
  parse_report_blocks_reads, parse_sr_reads, parse_rr_reads, parse_sdes_reads,
}
use rtpkit.Rtcp.Builder.{
  require_count, align, serialize_report_blocks, serialize_sr, serialize_rr, serialize_sdes_chunks,
  serialize_sdes,
}
use rtpkit.Rtcp.Builder.Blocks.{AreBlocks, serialize_report_blocks-AreBlocks}
use rtpkit.Rtcp.Builder.Sdes.{serialize_sdes_chunks-AreChunks}

-- The data of an APP packet comes in whole words, since the parser cannot tell them from alignment.
abbrev pub IsAligned : RtcpPacket → Type 0
IsAligned (application_defined _ _ _ body _) = length body % 4 ≡ 0
IsAligned _ = Unit

-- What a serializer returns: a count of five bits, a packet type, and a body that is read back.
abbrev pub ReadsAs : RtcpPacket → ℤ × ℕ × Bytes → Type 0
ReadsAs p (count, packet_type, body) =
    InRange 0 31 count
    × (packet_type < 2 ^ 8)
    × ((pad : ℕ)
        → IsAligned p
        → padding_of p ≡ pos pad
        → parse_one packet_type (pos_part count) (align body) pad ≡ ok p [])

pub count_check : (n : ℕ) (f : Field) → Ensures Any (λ _. n ≤ 31) (require_count n f)
unfolding require_count
count_check n f =
    Ensures-mono _ Any _ _ (raise_if (ltb 31 n) _) (raise_if-Ensures Any (ltb 31 n) _ tt) (λ _ h. h)
      (λ _ h. ltb→ge _ _ h)

-- Whatever follows them, blocks are read back as such.
blocks_read :
    (blocks : List ReportBlock) (bytes tail : Bytes)
    → AreBlocks blocks bytes
    → parse_report_blocks (bytes ++ tail) (length blocks) ≡ ok blocks []
blocks_read blocks bytes tail (size, reads) =
    parse_report_blocks_reads (bytes ++ tail) (length blocks)
      (omega (arith, length-append bytes tail, size)) (reads 0 [] tail refl)

five :
    (a b c d e f : ℕ) (tail : Bytes)
    → u32s_at 5 (words (a ∷ b ∷ c ∷ d ∷ e ∷ f ∷ []) ++ tail) 4 ≡ ok (b ∷ c ∷ d ∷ e ∷ f ∷ []) []
five a b c d e f tail = u32s_at-append 4 (split_u32 a) refl (b ∷ c ∷ d ∷ e ∷ f ∷ []) tail

abbrev sr_words : ℤ → SenderInfo → List ℤ
sr_words ssrc info =
    ssrc ∷ info.ntp_seconds ∷ info.ntp_fraction ∷ info.rtp_timestamp ∷ info.packet_count
    ∷ info.octet_count ∷ []

sr_read :
    (ssrc : ℤ) (info : SenderInfo) (blocks : List ReportBlock) (rest tail : Bytes) (padding : ℤ)
    (pad : ℕ)
    → All IsU32 (sr_words ssrc info)
    → AreBlocks blocks rest
    → padding ≡ pos pad
    → parse_one 200
        (length blocks)
        ((words (map pos_part (sr_words ssrc info)) ++ rest) ++ tail)
        pad
      ≡ ok (sender_report ssrc info blocks padding) []
sr_read ssrc info blocks rest tail padding pad
      ((e1, _), ((e2, _), ((e3, _), ((e4, _), ((e5, _), ((e6, _), _)))))) are_blocks pad_eq =
    ap (λ (r : Bytes). parse_one 200 (length blocks) r pad) (append_assoc front rest tail)
    ∙ parse_sr_reads (front ++ (rest ++ tail)) (rest ++ tail) (pos_part ssrc) (length blocks) pad _
        _ _ _ _ blocks (omega arith) (u32_at-append 0 [] refl (pos_part ssrc) _)
        (five _ _ _ _ _ _ (rest ++ tail)) refl (blocks_read blocks rest tail are_blocks)
    ∙ rw (sym e1, sym e2, sym e3, sym e4, sym e5, sym e6, pad_eq) refl
  where
    front : Bytes
    front = words (map pos_part (sr_words ssrc info))

pub serialize_sr-ReadsAs :
    (ssrc : ℤ) (info : SenderInfo) (blocks : List ReportBlock) (padding : ℤ)
    → Ensures Any (ReadsAs (sender_report ssrc info blocks padding)) (serialize_sr ssrc info blocks)
unfolding serialize_sr
serialize_sr-ReadsAs ssrc info blocks padding =
    Ensures-bind _ _ _ (require_count (length blocks) _) _ (count_check (length blocks) _)
      λ _ count.
        Ensures-bind _ _ _ (pack_u32s (sr_words ssrc info)) _
          (Ensures-mono _ Any _ _ (pack_u32s (sr_words ssrc info))
            (pack_u32s-Ensures (sr_words ssrc info)) (λ _ _. tt) (λ _ h. h))
          λ body (fits, body_eq).
            Ensures-bind _ _ _ (serialize_report_blocks blocks) _
              (serialize_report_blocks-AreBlocks blocks)
              λ rest are_blocks. (
                (length blocks, refl, omega arith, count),
                omega arith,
                λ pad _ pad_eq.
                    ap (λ (b : Bytes). parse_one 200 (length blocks) (align (b ++ rest)) pad)
                      body_eq
                    ∙ sr_read ssrc info blocks rest _ padding pad fits are_blocks pad_eq,
              )

rr_read :
    (ssrc : ℤ) (blocks : List ReportBlock) (rest tail : Bytes) (padding : ℤ) (pad : ℕ)
    → IsU32 ssrc
    → AreBlocks blocks rest
    → padding ≡ pos pad
    → parse_one 201 (length blocks) ((split_u32 (pos_part ssrc) ++ rest) ++ tail) pad
      ≡ ok (receiver_report ssrc blocks padding) []
rr_read ssrc blocks rest tail padding pad (e, _) are_blocks pad_eq =
    parse_rr_reads (split_u32 (pos_part ssrc) ++ (rest ++ tail)) (rest ++ tail) (pos_part ssrc)
      (length blocks) pad blocks (omega arith) (u32_at-append 0 [] refl (pos_part ssrc) _) refl
      (blocks_read blocks rest tail are_blocks)
    ∙ rw (sym e, pad_eq) refl

pub serialize_rr-ReadsAs :
    (ssrc : ℤ) (blocks : List ReportBlock) (padding : ℤ)
    → Ensures Any (ReadsAs (receiver_report ssrc blocks padding)) (serialize_rr ssrc blocks)
unfolding serialize_rr
serialize_rr-ReadsAs ssrc blocks padding =
    Ensures-bind _ _ _ (require_count (length blocks) _) _ (count_check (length blocks) _)
      λ _ count.
        Ensures-bind _ _ _ (pack_u32 ssrc) _
          (Ensures-mono _ Any _ _ (pack_u32 ssrc) (pack_u32-Ensures ssrc) (λ _ _. tt) (λ _ h. h))
          λ body (fits, body_eq).
            Ensures-bind _ _ _ (serialize_report_blocks blocks) _
              (serialize_report_blocks-AreBlocks blocks)
              λ rest are_blocks. (
                (length blocks, refl, omega arith, count),
                omega arith,
                λ pad _ pad_eq.
                    ap (λ (b : Bytes). parse_one 201 (length blocks) (align (b ++ rest)) pad)
                      body_eq
                    ∙ rr_read ssrc blocks rest _ padding pad fits are_blocks pad_eq,
              )

pub serialize_sdes-ReadsAs :
    (cs : List SdesChunk) (padding : ℤ)
    → Ensures Any (ReadsAs (source_description cs padding)) (serialize_sdes cs)
unfolding serialize_sdes
serialize_sdes-ReadsAs cs padding =
    Ensures-bind _ _ _ (require_count (length cs) _) _ (count_check (length cs) _) λ _ count.
      Ensures-bind _ _ _ (serialize_sdes_chunks cs) _ (serialize_sdes_chunks-AreChunks cs)
        λ body are_chunks. (
          (length cs, refl, omega arith, count),
          omega arith,
          λ pad _ pad_eq.
              parse_sdes_reads (align body) (length cs) pad cs (are_chunks _) ∙ rw pad_eq refl,
        )
