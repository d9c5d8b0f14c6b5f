-- ===== src/Rtcp/Parser/Frame.antt =====
-- One round of the strict loop on a packet: its header, its body with the padding, and what follows.
use rtpkit.Common.{
  ℕ, zero, suc, ◌+◌, ◌-◌, ◌*◌, ◌/◌, ◌%◌, ◌≤◌, ◌≡◌, refl, ap, ◌∙◌, true, some, [], ◌∷◌, ◌++◌,
  append-nil, arith, length, length-append, length-replicate, drop, take-append, drop-append,
  ge→ltb, ==_suc, truthy, truthy-suc, int_of_bool, bit_and,
}
use rtpkit.Common.Bits.{shr, bit_and-mask}
use rtpkit.Outcome.{ok, ◌>>=◌, pure}
use rtpkit.Wire.{Bytes, byte_at, slice, u16_at, split_u16, zeros}
use rtpkit.Wire.Write.{join-split_u16, byte_at-behind, slice-append}
use rtpkit.Rtcp.{RtcpPacket}
use rtpkit.Rtcp.Bodies.{parse_one}
use rtpkit.Rtcp.Parser.{
  RtcpHeader, packet_len, parse_header, check_version, use_pad_count, parse_padding, skip_malformed,
  parse_packet, compound_loop, parse_compound, parse_rtcp,
}

-- `pad` bytes of padding, the last of which counts them.
abbrev pub padding_tail : ℕ → Bytes
padding_tail zero = []
padding_tail (suc n) = zeros n ++ (suc n ∷ [])

pub length-padding_tail : (n : ℕ) → length (padding_tail n) ≡ n
length-padding_tail zero = refl
length-padding_tail (suc n) =
    omega (arith, length-append (zeros n) (suc n ∷ []), length-replicate {A = ℕ} n 0)

abbrev header_of : ℕ → ℕ → ℕ → ℕ → RtcpHeader
header_of pad count packet_type words = record {
  version = 2;
  padding_flag = truthy pad;
  count = count;
  packet_type = packet_type;
  length_words = words;
}

parse_header_reads :
    (byte0 pad count packet_type words : ℕ) (tail : Bytes)
    → byte0 ≡ 128 + 32 * int_of_bool (truthy pad) + count
    → count ≤ 31
    → parse_header (byte0 ∷ packet_type ∷ (split_u16 words ++ tail))
      ≡ ok (header_of pad count packet_type words) []
unfolding parse_header byte_at u16_at
parse_header_reads byte0 pad count packet_type words tail e h =
    rw (version, flag, low, join-split_u16 words)
  where
    version : bit_and (shr byte0 6) 0x03 ≡ 2
    version = ground (arith, bit_and-mask 2 (shr byte0 6))

    flag : truthy (bit_and (shr byte0 5) 0x01) ≡ truthy pad
    flag = ground (arith, bit_and-mask 1 (shr byte0 5))

    low : bit_and byte0 0x1f ≡ count
    low = ground (arith, bit_and-mask 5 byte0)

parse_padding_reads :
    (pad : ℕ) (content : Bytes)
    → parse_padding true (truthy pad) (content ++ padding_tail pad) ≡ ok (pad, length content) []
unfolding parse_padding use_pad_count
parse_padding_reads zero content = ap (λ (b : Bytes). ok (0, length b) []) (append-nil content)
parse_padding_reads (suc n) content =
    rw (truthy-suc n, ge→ltb _ _ long, last, ==_suc n, ge→ltb _ _ fits)
      (ap (λ (k : ℕ). ok (suc n, k) []) left)
  where
    size : length (content ++ (zeros n ++ (suc n ∷ []))) ≡ length content + suc n
    size =
        omega (arith, length-append content (zeros n ++ (suc n ∷ [])), length-padding_tail (suc n))

    long : 1 ≤ length (content ++ (zeros n ++ (suc n ∷ [])))
    long = omega (arith, size)

    last :
        byte_at
          (content ++ (zeros n ++ (suc n ∷ [])))
          (length (content ++ (zeros n ++ (suc n ∷ []))) - 1)
        ≡ ok (suc n) []
    last =
        byte_at-behind _ content (zeros n) (omega (arith, size, length-replicate {A = ℕ} n 0))
          (suc n) []

    fits : suc n ≤ length (content ++ (zeros n ++ (suc n ∷ [])))
    fits = omega (arith, size)

    left : length (content ++ (zeros n ++ (suc n ∷ []))) - suc n ≡ length content
    left = omega (arith, size)

parse_packet_reads :
    (pad count packet_type words : ℕ) (content : Bytes) (p : RtcpPacket)
    → parse_one packet_type count content pad ≡ ok p []
    → parse_packet true (header_of pad count packet_type words) (content ++ padding_tail pad)
      ≡ ok (some p) []
unfolding parse_packet skip_malformed
parse_packet_reads pad count packet_type words content p h = rw (
  parse_padding_reads pad content,
  take-append (length content) content (padding_tail pad) refl,
  h,
)

-- The round on any bytes, from what its reads return.
pub compound_loop_reads :
    (fuel : ℕ) (b : ℕ) (bs left : Bytes) (header : RtcpHeader) (p : RtcpPacket)
    → 4 ≤ length (b ∷ bs)
    → parse_header (b ∷ bs) ≡ ok header []
    → header.version ≡ 2
    → packet_len header ≤ length (b ∷ bs)
    → parse_packet true header (slice (b ∷ bs) 4 (packet_len header)) ≡ ok (some p) []
    → drop (packet_len header) (b ∷ bs) ≡ left
    → compound_loop true (suc fuel) (b ∷ bs)
      ≡ (compound_loop true fuel left >>= (λ ps. pure (p ∷ ps)))
unfolding compound_loop check_version
compound_loop_reads fuel b bs left header p long head version fits packet next =
    rw (ge→ltb _ _ long, head, ge→ltb _ _ fits, packet, next, version)

pub compound_loop_step :
    (fuel byte0 pad count packet_type : ℕ) (content body rest : Bytes) (p : RtcpPacket)
    → byte0 ≡ 128 + 32 * int_of_bool (truthy pad) + count
    → count ≤ 31
    → body ≡ content ++ padding_tail pad
    → length body % 4 ≡ 0
    → parse_one packet_type count content pad ≡ ok p []
    → compound_loop true
        (suc fuel)
        (byte0 ∷ packet_type ∷ (split_u16 (length body / 4) ++ (body ++ rest)))
      ≡ (compound_loop true fuel rest >>= (λ ps. pure (p ∷ ps)))
compound_loop_step fuel byte0 pad count packet_type content body rest p byte0_eq small body_eq whole
      read =
    compound_loop_reads fuel byte0 (packet_type ∷ (split_u16 (length body / 4) ++ (body ++ rest)))
      rest (header_of pad count packet_type (length body / 4)) p (omega arith)
      (parse_header_reads byte0 pad count packet_type (length body / 4) (body ++ rest) byte0_eq
        small)
      refl (omega (arith, size, length-append body rest))
      (ap (parse_packet true header) (slice-append 4 front refl stop body rest size)
        ∙ ap (parse_packet true header) body_eq
        ∙ parse_packet_reads pad count packet_type (length body / 4) content p read)
      (drop-append stop (front ++ body) rest (omega (arith, size)))
  where
    front : Bytes
    front = byte0 ∷ packet_type ∷ split_u16 (length body / 4)

    header : RtcpHeader
    header = header_of pad count packet_type (length body / 4)

    stop : ℕ
    stop = packet_len header

    size : stop ≡ 4 + length body
    size = omega (arith, whole)

pub compound_loop-nil : (fuel : ℕ) → compound_loop true fuel [] ≡ ok [] []
unfolding compound_loop
compound_loop-nil zero = refl
compound_loop-nil (suc fuel) = refl

pub parse_rtcp-compound_loop :
    (bytes : Bytes) → 4 ≤ length bytes → parse_rtcp bytes ≡ compound_loop true (length bytes) bytes
unfolding parse_rtcp parse_compound
parse_rtcp-compound_loop bytes h = rw (ge→ltb (length bytes) 4 h) refl
