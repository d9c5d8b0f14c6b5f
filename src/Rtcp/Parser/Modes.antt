-- ===== src/Rtcp/Parser/Modes.antt =====
-- The strict and the lenient mode of the RTCP parser against each other, and what each may raise.
use rtpkit.Common.{
  ℕ, zero, suc, ◌-◌, ◌*◌, ◌≤◌, ◌<◌, ◌≡◌, ◌↔◌, refl, Bool, true, false, List, [], ◌∷◌, inl, inr,
  arith, ◌||◌, length, take, drop, ltb, ltb→lt, ltb→ge, ge→ltb, Bool-cases, ◌==◌,
}
use rtpkit.Errors.{Exception, rtcp_buffer_too_short, is_rtcp_error}
use rtpkit.Outcome.{Outcome, ok, err}
use rtpkit.Outcome.Laws.{
  Ensures, Ensures-err, Agree, Agree-bind, Agree-bind_quiet, Agree-if, Agree-iff, IsQuiet,
  IsQuiet-bind, Yields,
}
use rtpkit.Wire.{Bytes, byte_at, u16_at, slice}
use rtpkit.Wire.Read.{byte_at-IsQuiet, u16_at-IsQuiet}
use rtpkit.Rtcp.{RtcpPacket}
use rtpkit.Rtcp.Bodies.Safety.{IsMalformed, parse_one-Yields}
use rtpkit.Rtcp.Parser.{
  RtcpHeader, packet_len, parse_header, check_version, use_pad_count, parse_padding, skip_malformed,
  parse_packet, compound_loop, parse_compound, parse_rtcp, parse_rtcp_lenient,
}
use rtpkit.Rtcp.Parser.Safety.{Permitted, compound_loop-Ensures}

parse_header-IsQuiet : (rest : Bytes) → IsQuiet (parse_header rest)
unfolding parse_header
parse_header-IsQuiet rest = IsQuiet-bind (byte_at rest 0) _ (byte_at-IsQuiet rest 0) λ first.
    IsQuiet-bind (byte_at rest 1) _ (byte_at-IsQuiet rest 1)
      λ kind. IsQuiet-bind (u16_at rest 2) _ (u16_at-IsQuiet rest 2) λ words. tt

check_version-Agree : (v : ℕ) → Agree (check_version true v) (check_version false v)
unfolding check_version
check_version-Agree v = ground arith

use_pad_count-Agree :
    (body_len n : ℕ) → Agree (use_pad_count true body_len n) (use_pad_count false body_len n)
unfolding use_pad_count
use_pad_count-Agree body_len n = Agree-if ((n == 0) || ltb body_len n) _ _ _ _ tt (refl, refl)

parse_padding-Agree :
    (flag : Bool) (body : Bytes)
    → Agree (parse_padding true flag body) (parse_padding false flag body)
unfolding parse_padding
parse_padding-Agree false body = (refl, refl)
parse_padding-Agree true body = Agree-if (ltb (length body) 1) _ _ _ _ tt (
    Agree-bind_quiet (byte_at body (length body - 1)) _ _ (byte_at-IsQuiet body (length body - 1))
      (use_pad_count-Agree (length body)))

skip_malformed-Agree :
    (packet_type : ℕ) (Q : RtcpPacket → Type 0) (m : Outcome RtcpPacket)
    → Yields IsMalformed Q m
    → Agree (skip_malformed true packet_type m) (skip_malformed false packet_type m)
unfolding skip_malformed
skip_malformed-Agree packet_type Q (ok p []) h = (refl, refl)
skip_malformed-Agree packet_type Q (ok p (w ∷ ws)) h = absurd h
skip_malformed-Agree packet_type Q (err e) (detail, h) = rw h tt

parse_packet-Agree :
    (header : RtcpHeader) (body : Bytes)
    → Agree (parse_packet true header body) (parse_packet false header body)
unfolding parse_packet
parse_packet-Agree header body =
    Agree-bind (parse_padding true header.padding_flag body) _ _ _
      (parse_padding-Agree header.padding_flag body)
      λ (padding_size, stop).
        skip_malformed-Agree header.packet_type _ _
          (parse_one-Yields header.packet_type header.count (take stop body) padding_size)

compound_loop-Agree :
    (fuel : ℕ) (bytes : Bytes)
    → Agree (compound_loop true fuel bytes) (compound_loop false fuel bytes)
unfolding compound_loop
compound_loop-Agree zero [] = (refl, refl)
compound_loop-Agree (suc fuel) [] = (refl, refl)
compound_loop-Agree zero (b ∷ bs) = tt
compound_loop-Agree (suc fuel) (b ∷ bs) = Agree-if (ltb (length (b ∷ bs)) 4) _ _ _ _ tt (
    Agree-bind_quiet (parse_header (b ∷ bs)) _ _ (parse_header-IsQuiet (b ∷ bs)) λ header.
      Agree-bind (check_version true header.version) _ _ _ (check_version-Agree header.version) λ _.
        Agree-if (ltb (length (b ∷ bs)) (packet_len header)) _ _ _ _ tt (
          Agree-bind (parse_packet true header (slice (b ∷ bs) 4 (packet_len header))) _ _ _
            (parse_packet-Agree header _)
            λ packet.
              Agree-bind (compound_loop true fuel (drop (packet_len header) (b ∷ bs))) _ _ _
                (compound_loop-Agree fuel (drop (packet_len header) (b ∷ bs)))
                λ packets. (refl, refl)))

pub parse_compound-Agree :
    (bytes : Bytes) → Agree (parse_compound true bytes) (parse_compound false bytes)
unfolding parse_compound
parse_compound-Agree bytes =
    Agree-if (ltb (length bytes) 4) _ _ _ _ tt (compound_loop-Agree (length bytes) bytes)

pub parse_short :
    (strict : Bool) (bytes : Bytes)
    → length bytes < 4
    → parse_compound strict bytes ≡ err (rtcp_buffer_too_short 4 (length bytes))
unfolding parse_compound
parse_short strict bytes h = ground arith

parse_long :
    (strict : Bool) (bytes : Bytes)
    → 4 ≤ length bytes
    → Ensures (Permitted strict) (λ ps. length ps * 4 ≤ length bytes) (parse_compound strict bytes)
unfolding parse_compound
parse_long strict bytes h =
    rw (ge→ltb _ _ h) (compound_loop-Ensures strict (length bytes) bytes (omega arith))

-- `parse_rtcp` returns some packets exactly when `parse_rtcp_lenient` returns those packets without
-- having logged a warning: the lenient mode skips or cuts nothing in silence.
pub parse_rtcp-parse_rtcp_lenient :
    (bytes : Bytes) (packets : List RtcpPacket)
    → (parse_rtcp bytes ≡ ok packets []) ↔ (parse_rtcp_lenient bytes ≡ ok packets [])
unfolding parse_rtcp parse_rtcp_lenient
parse_rtcp-parse_rtcp_lenient bytes packets =
    Agree-iff (parse_compound true bytes) (parse_compound false bytes) (parse_compound-Agree bytes)
      packets

-- `parse_rtcp` raises nothing but an `RtcpError`, on any input: no index leaves the buffer or a packet's
-- body, and every loop ends.
pub parse_rtcp-IsRtcpError :
    (bytes : Bytes) (e : Exception) → parse_rtcp bytes ≡ err e → is_rtcp_error e ≡ true
unfolding parse_rtcp is_rtcp_error
parse_rtcp-IsRtcpError bytes e h = elim (Bool-cases (ltb (length bytes) 4)) [
  | inl short ↦ cc (h, parse_short true bytes (ltb→lt _ _ short))
  | inr long ↦
      Ensures-err (Permitted true) _ (parse_compound true bytes)
        (parse_long true bytes (ltb→ge _ _ long)) h
]

-- `parse_rtcp_lenient` raises exactly on a buffer that is shorter than one packet header, and then
-- `RtcpBufferTooShort` with the two lengths; on any other buffer it returns.
pub parse_rtcp_lenient_raises :
    (bytes : Bytes) (e : Exception)
    → (parse_rtcp_lenient bytes ≡ err e)
      ↔ ((length bytes < 4) × (e ≡ rtcp_buffer_too_short 4 (length bytes)))
unfolding parse_rtcp_lenient
parse_rtcp_lenient_raises bytes e = (raises, λ (short, q). rw q (parse_short false bytes short))
  where
    raises :
        parse_compound false bytes ≡ err e
        → (length bytes < 4) × (e ≡ rtcp_buffer_too_short 4 (length bytes))
    raises h = elim (Bool-cases (ltb (length bytes) 4)) [
      | inl short ↦ (ltb→lt _ _ short, cc (h, parse_short false bytes (ltb→lt _ _ short)))
      | inr long ↦ absurd (
          Ensures-err (Permitted false) _ (parse_compound false bytes)
            (parse_long false bytes (ltb→ge _ _ long)) h)
    ]
