-- ===== src/Rtcp/Builder/RoundTrip.antt =====
-- `parse_rtcp` undoes `build_rtcp`.
use rtpkit.Common.{
  ℕ, zero, suc, ◌+◌, ◌-◌, ◌*◌, ◌/◌, ◌%◌, ◌≤◌, ◌≡◌, refl, sym, ap, ◌∙◌, Bool, true, false, not, List,
  [], ◌∷◌, ◌++◌, arith, length, length-append, length-replicate, All, truthy, truthy-suc,
  int_of_bool, bit_and, bit_or,
}
use rtpkit.Common.Bits.{bit_and-mask, bit_or-disjoint}
use rtpkit.Common.Int.{ℤ, pos, pos_part, in_range, not_in_range→InRange}
use rtpkit.Outcome.{Outcome, ok, err, ◌>>=◌, pure, raise_if}
use rtpkit.Outcome.Laws.{Any, Ensures, Ensures-bind, Ensures-mono, Ensures-ok, raise_if-Ensures}
use rtpkit.Wire.{Bytes, pack_u8, pack_u16, split_u16, zeros, align_gap}
use rtpkit.Wire.Write.{pack_u8-Ensures, pack_u16-Ensures, align_gap_lem}
use rtpkit.Rtcp.{RtcpPacket, padding_of}
use rtpkit.Rtcp.Bodies.{parse_one}
use rtpkit.Rtcp.Parser.{compound_loop, parse_rtcp}
use rtpkit.Rtcp.Parser.Frame.{
  padding_tail, length-padding_tail, compound_loop_step, compound_loop-nil,
  parse_rtcp-compound_loop,
}
use rtpkit.Rtcp.Builder.{
  align, serialize, catch_struct_error, padding_bytes, header_byte0, pack_packet, build_one,
  build_rtcp,
}
use rtpkit.Rtcp.Builder.Bodies.{IsAligned, ReadsAs}
use rtpkit.Rtcp.Builder.ByeApp.{serialize-ReadsAs}

-- Bytes that one round of the strict loop reads as the packet.
abbrev IsPacket : RtcpPacket → Bytes → Type 0
IsPacket p bytes =
    (4 ≤ length bytes)
    × (IsAligned p
        → (fuel : ℕ) (rest : Bytes)
        → compound_loop true (suc fuel) (bytes ++ rest)
          ≡ (compound_loop true fuel rest >>= (λ ps. pure (p ∷ ps))))

catch_struct_error-Ensures :
    {A : Type 0} (Q : A → Type 0) (m : Outcome A)
    → Ensures Any Q m
    → Ensures Any Q (catch_struct_error m)
catch_struct_error-Ensures Q (ok a ws) h = h
catch_struct_error-Ensures Q (err e) h = tt

padding_bytes_lem : (n : ℕ) → padding_bytes n ≡ padding_tail n
padding_bytes_lem zero = refl
padding_bytes_lem (suc n) = rw (truthy-suc n) (ap (λ (k : ℕ). zeros k ++ (suc n ∷ [])) n_eq)
  where
    n_eq : suc n - 1 ≡ n
    n_eq = omega arith

pub int_of_bool-le : (b : Bool) → int_of_bool b ≤ 1
int_of_bool-le true = omega arith
int_of_bool-le false = omega arith

pub header_byte0_lem :
    (pad c : ℕ) → c ≤ 31 → header_byte0 pad (pos c) ≡ 128 + 32 * int_of_bool (truthy pad) + c
header_byte0_lem pad c h = sum
  where
    f : ℕ
    f = int_of_bool (truthy pad)

    f_le : f ≤ 1
    f_le = int_of_bool-le (truthy pad)

    inner : bit_or 128 (f * 32) ≡ 128 + f * 32
    inner = bit_or-disjoint 6 2 128 (f * 32) refl (omega (arith, f_le))

    sum : bit_or (bit_or 128 (f * 32)) (bit_and c 0x1f) ≡ 128 + 32 * f + c
    sum =
        ap (λ (x : ℕ). bit_or x (bit_and c 0x1f)) inner
        ∙ bit_or-disjoint 5 (4 + f) (128 + f * 32) (bit_and c 0x1f) (omega arith)
            (omega (arith, bit_and-mask 5 c))
        ∙ tidy
      where
        tidy : 128 + f * 32 + bit_and c 0x1f ≡ 128 + 32 * f + c
        tidy = omega (arith, bit_and-mask 5 c)

-- What `pack_packet` writes.
pack_packet-Ensures :
    (byte0 packet_type : ℕ) (body : Bytes)
    → Ensures Any
        (λ bytes. bytes ≡ byte0 ∷ packet_type ∷ (split_u16 (length body / 4) ++ body))
        (pack_packet byte0 packet_type body)
unfolding pack_packet
pack_packet-Ensures byte0 packet_type body =
    Ensures-bind _ _ _ (pack_u8 (pos byte0)) _
      (Ensures-mono _ Any _ _ (pack_u8 _) (pack_u8-Ensures _) (λ _ _. tt) (λ _ h. h))
      λ first (_, first_eq).
        Ensures-bind _ _ _ (pack_u8 (pos packet_type)) _
          (Ensures-mono _ Any _ _ (pack_u8 _) (pack_u8-Ensures _) (λ _ _. tt) (λ _ h. h))
          λ second (_, second_eq).
            Ensures-bind _ _ _ (pack_u16 (pos (length body / 4))) _
              (Ensures-mono _ Any _ _ (pack_u16 _) (pack_u16-Ensures _) (λ _ _. tt) (λ _ h. h))
              λ size (_, size_eq). rw (first_eq, second_eq, size_eq) refl

-- The whole packet: its body is aligned, and so is its padding.
framed :
    (p : RtcpPacket) (count : ℤ) (packet_type pad : ℕ) (raw : Bytes)
    → ReadsAs p (count, packet_type, raw)
    → padding_of p ≡ pos pad
    → pad % 4 ≡ 0
    → (bytes : Bytes)
    → bytes
      ≡ header_byte0 pad count
        ∷ packet_type
        ∷ (split_u16 (length (align raw ++ padding_bytes pad) / 4)
            ++ (align raw ++ padding_bytes pad))
    → IsPacket p bytes
framed p count packet_type pad raw ((c, count_eq, _, small), _, reads) pad_eq aligned bytes
      bytes_eq =
    (
      omega (arith, ap length bytes_eq),
      λ whole fuel rest.
          ap (λ (b : Bytes). compound_loop true (suc fuel) (b ++ rest)) bytes_eq
          ∙ compound_loop_step fuel (header_byte0 pad count) pad c packet_type (align raw) body rest
              p (ap (header_byte0 pad) count_eq ∙ header_byte0_lem pad c small) small body_eq
              words_whole
              (ap (λ (k : ℕ). parse_one packet_type k (align raw) pad) (sym (ap pos_part count_eq))
                ∙ reads pad whole pad_eq),
    )
  where
    body : Bytes
    body = align raw ++ padding_bytes pad

    body_eq : body ≡ align raw ++ padding_tail pad
    body_eq = ap (λ (t : Bytes). align raw ++ t) (padding_bytes_lem pad)

    words_whole : length body % 4 ≡ 0
    words_whole = omega (
      arith,
      length-append (align raw) (padding_bytes pad),
      length-append raw (zeros (align_gap (length raw))),
      length-replicate {A = ℕ} (align_gap (length raw)) 0,
      align_gap_lem (length raw),
      ap length (padding_bytes_lem pad),
      length-padding_tail pad,
      aligned,
    )

build_one-IsPacket : (p : RtcpPacket) → Ensures Any (IsPacket p) (build_one p)
unfolding build_one
build_one-IsPacket p =
    Ensures-bind _ _ _ (catch_struct_error (serialize p)) _
      (catch_struct_error-Ensures (ReadsAs p) (serialize p) (serialize-ReadsAs p))
      λ (count, packet_type, body) reads.
        Ensures-bind _ _ _ (raise_if (not (in_range 0 255 (padding_of p))) _) _
          (raise_if-Ensures Any _ _ tt)
          λ _ pad_in.
            Ensures-bind _ _ _ (raise_if (truthy (pos_part (padding_of p) % 4)) _) _
              (raise_if-Ensures Any _ _ tt)
              λ _ whole.
                let (pad, pad_eq, _, _) = not_in_range→InRange 0 255 (padding_of p) pad_in in
                Ensures-mono _ Any _ _ (pack_packet _ packet_type _)
                  (pack_packet-Ensures (header_byte0 (pos_part (padding_of p)) count) packet_type
                    (align body ++ padding_bytes (pos_part (padding_of p))))
                  (λ _ _. tt)
                  (framed p count packet_type (pos_part (padding_of p)) body reads
                    (pad_eq ∙ ap pos (sym (ap pos_part pad_eq))) (ground arith))

-- Bytes that the strict loop reads as the packets, with fuel to spare.
abbrev ArePackets : List RtcpPacket → Bytes → Type 0
ArePackets ps bytes =
    (length ps * 4 ≤ length bytes)
    × (All IsAligned ps → (fuel : ℕ) → length ps ≤ fuel → compound_loop true fuel bytes ≡ ok ps [])

ArePackets-append :
    (p : RtcpPacket) (ps : List RtcpPacket) (first rest : Bytes)
    → IsPacket p first
    → ArePackets ps rest
    → ArePackets (p ∷ ps) (first ++ rest)
ArePackets-append p ps first rest (size, read) (sizes, reads) =
    (omega (arith, length-append first rest), all)
  where
    all :
        All IsAligned (p ∷ ps)
        → (fuel : ℕ) → suc (length ps) ≤ fuel
        → compound_loop true fuel (first ++ rest) ≡ ok (p ∷ ps) []
    all (a, others) zero h = absurd (omega arith)
    all (a, others) (suc fuel) h = rw (read a fuel rest, reads others fuel (omega arith))

build_rtcp-ArePackets : (ps : List RtcpPacket) → Ensures Any (ArePackets ps) (build_rtcp ps)
unfolding build_rtcp
build_rtcp-ArePackets [] = (omega arith, λ _ fuel h. compound_loop-nil fuel)
build_rtcp-ArePackets (p ∷ ps) =
    Ensures-bind _ _ _ (build_one p) _ (build_one-IsPacket p) λ first is_packet.
      Ensures-bind _ _ _ (build_rtcp ps) _ (build_rtcp-ArePackets ps)
        λ rest are_packets. ArePackets-append p ps first rest is_packet are_packets

-- If `build_rtcp` returns a buffer for one or more packets, and the data of each APP packet among them
-- is made of whole 32-bit words, then `parse_rtcp` returns just these packets for the buffer: every field,
-- negative loss counts, SDES texts, the reason of a BYE and the padding included.
pub parse_rtcp-build_rtcp :
    (p : RtcpPacket) (ps : List RtcpPacket) {bytes : Bytes}
    → All IsAligned (p ∷ ps)
    → build_rtcp (p ∷ ps) ≡ ok bytes []
    → parse_rtcp bytes ≡ ok (p ∷ ps) []
parse_rtcp-build_rtcp p ps {bytes} aligned built =
    let (size, reads) =
      Ensures-ok Any (ArePackets (p ∷ ps)) (build_rtcp (p ∷ ps)) (build_rtcp-ArePackets (p ∷ ps))
        built in
    parse_rtcp-compound_loop bytes (omega (arith, size))
    ∙ (reads aligned (length bytes) (omega (arith, size)))
