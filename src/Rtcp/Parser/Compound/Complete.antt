-- ===== src/Rtcp/Parser/Compound/Complete.antt =====
-- On a compound buffer the strict loop returns its packets.
use rtpkit.Common.{
  ℕ, zero, suc, ◌+◌, ◌-◌, ◌*◌, ◌/◌, ◌^◌, ◌≤◌, ◌≡◌, ◌∙◌, ◌↔◌, refl, sym, ap, Bool, true, false, some,
  List, [], ◌∷◌, ◌++◌, ltb, ltb→ge, ge→ltb, ◌==◌, All, length, take, length-append, take-append,
  drop-append, take_all, ltb→lt, subst, Bool-cases, inl, inr, arith,
}
use rtpkit.Common.Bits.{shr, bit_and-mask}
use rtpkit.Outcome.{ok, ◌>>=◌}
use rtpkit.Outcome.Laws.{Any, Ensures-ok}
use rtpkit.Wire.{Bytes, IsByte, byte_at, u16_at}
use rtpkit.Rtcp.{RtcpPacket}
use rtpkit.Rtcp.Bodies.{parse_one}
use rtpkit.Rtcp.Parser.{
  RtcpHeader, parse_header, use_pad_count, parse_padding, skip_malformed, parse_packet,
  compound_loop, parse_rtcp,
}
use rtpkit.Rtcp.Parser.Modes.{parse_short}
use rtpkit.Rtcp.Parser.Frame.{compound_loop_reads, compound_loop-nil, parse_rtcp-compound_loop}
use rtpkit.Rtcp.Parser.Compound.{IsPadded, IsCompound, IsRead, read_header, flag_eq, count_eq}
use rtpkit.Rtcp.Parser.Compound.Sound.{compound_loop-IsCompound}

padding_reads :
    (flag : Bool) (pad : ℕ) (content body : Bytes)
    → IsPadded flag pad content body
    → (stop : ℕ) × (parse_padding true flag body ≡ ok (pad, stop) []) × (take stop body ≡ content)
unfolding parse_padding use_pad_count
padding_reads false pad content body (none_left, e) =
    (length body, rw none_left refl, take_all (length body) body (omega arith) ∙ sym e)
padding_reads true pad content body (some_left, fits, last, e) = (
  length body - pad,
  rw (ge→ltb (length body) 1 (omega arith), last, nonzero, ge→ltb (length body) pad fits) refl,
  sym e,
)
  where
    nonzero : (pad == 0) ≡ false
    nonzero = ground arith

packet_reads :
    (header : RtcpHeader) (body : Bytes) (p : RtcpPacket)
    → IsRead header body p
    → parse_packet true header body ≡ ok (some p) []
unfolding parse_packet skip_malformed
packet_reads header body p (pad, content, padded, read) =
    let (stop, e, cut) = padding_reads header.padding_flag pad content body padded in
    rw (e, cut, read) refl

round_reads :
    (fuel b0 kind hi lo : ℕ) (body rest : Bytes) (p : RtcpPacket)
    → length body ≡ (hi * 2 ^ 8 + lo) * 4
    → b0 / 64 ≡ 2
    → IsRead (read_header b0 kind hi lo) body p
    → compound_loop true (suc fuel) (b0 ∷ kind ∷ hi ∷ lo ∷ (body ++ rest))
      ≡ (compound_loop true fuel rest >>= (λ ps. ok (p ∷ ps) []))
unfolding parse_header byte_at u16_at
round_reads fuel b0 kind hi lo body rest p size two read =
    compound_loop_reads fuel b0 (kind ∷ hi ∷ lo ∷ (body ++ rest)) rest (read_header b0 kind hi lo) p
      (omega arith) refl (omega (arith, bit_and-mask 2 (shr b0 6)))
      (omega (arith, length-append body rest))
      (ap (parse_packet true (read_header b0 kind hi lo)) (take-append _ body rest (omega arith))
        ∙ packet_reads (read_header b0 kind hi lo) body p read)
      (drop-append _ (b0 ∷ kind ∷ hi ∷ lo ∷ body) rest (omega arith))

compound_loop_complete :
    (fuel : ℕ) (ps : List RtcpPacket) (bytes : Bytes)
    → length bytes ≤ fuel
    → IsCompound ps bytes
    → compound_loop true fuel bytes ≡ ok ps []
compound_loop_complete fuel [] bytes h e = ap (compound_loop true fuel) e ∙ compound_loop-nil fuel
compound_loop_complete zero (p ∷ ps) bytes h
      (chunk, rest, e, (b0, kind, hi, lo, pad, body, content, ec, size, two, padded, read), more) =
    absurd (omega (arith, ap length e, ap length ec, length-append chunk rest))
compound_loop_complete (suc fuel) (p ∷ ps) bytes h
      (chunk, rest, e, (b0, kind, hi, lo, pad, body, content, ec, size, two, padded, read), more) =
    ap (compound_loop true (suc fuel)) (e ∙ ap (λ (xs : Bytes). xs ++ rest) ec)
    ∙ round_reads fuel b0 kind hi lo body rest p size two (
      pad,
      content,
      subst (λ (flag : Bool). IsPadded flag pad content body) (sym (flag_eq b0)) padded,
      ap (λ (n : ℕ). parse_one kind n content pad) (count_eq b0) ∙ read,
    )
    ∙ rw
        (compound_loop_complete fuel ps rest
          (omega (arith, ap length e, ap length ec, length-append chunk rest)) more)
        refl

long_enough :
    (p : RtcpPacket) (ps : List RtcpPacket) (bytes : Bytes)
    → IsCompound (p ∷ ps) bytes
    → 4 ≤ length bytes
long_enough p ps bytes
      (chunk, rest, e, (b0, kind, hi, lo, pad, body, content, ec, size, two, padded, read), more) =
    omega (arith, ap length e, ap length ec, length-append chunk rest)

pub parse_rtcp-iff-IsCompound :
    (bytes : Bytes) (packets : List RtcpPacket)
    → All IsByte bytes
    → (parse_rtcp bytes ≡ ok packets []) ↔ ((1 ≤ length packets) × IsCompound packets bytes)
unfolding parse_rtcp
parse_rtcp-iff-IsCompound bytes packets all = (sound, complete packets)
  where
    whole : 4 ≤ length bytes → parse_rtcp bytes ≡ ok packets [] → IsCompound packets bytes
    whole h e =
        Ensures-ok Any _ (compound_loop true (length bytes) bytes)
          (compound_loop-IsCompound (length bytes) bytes all)
          (sym (parse_rtcp-compound_loop bytes h) ∙ e)

    some_packets : (ps : List RtcpPacket) → 4 ≤ length bytes → IsCompound ps bytes → 1 ≤ length ps
    some_packets [] h e = absurd (omega (arith, ap length e))
    some_packets (p ∷ ps) h c = omega arith

    sound : parse_rtcp bytes ≡ ok packets [] → (1 ≤ length packets) × IsCompound packets bytes
    sound e = elim (Bool-cases (ltb (length bytes) 4)) [
      | inl short ↦ absurd (cc (e, parse_short true bytes (ltb→lt _ _ short)))
      | inr long ↦
          let c = whole (ltb→ge _ _ long) e in (some_packets packets (ltb→ge _ _ long) c, c)
    ]

    complete :
        (ps : List RtcpPacket) → (1 ≤ length ps) × IsCompound ps bytes → parse_rtcp bytes ≡ ok ps []
    complete [] (h, c) = absurd (omega arith)
    complete (p ∷ ps) (h, c) =
        parse_rtcp-compound_loop bytes (long_enough p ps bytes c)
        ∙ compound_loop_complete (length bytes) (p ∷ ps) bytes (omega arith) c
