-- ===== src/Rtcp/Parser/Compound.antt =====
-- What a compound buffer is, by its framing: packets one behind the other, each with its length in words.
pub mod Sound
pub mod Complete
use rtpkit.Common.{
  ℕ, zero, suc, ◌+◌, ◌-◌, ◌*◌, ◌/◌, ◌%◌, ◌^◌, ◌≤◌, ◌≡◌, ◌∙◌, ◌↔◌, refl, sym, ap, Bool, true, false,
  Option, none, some, List, [], ◌∷◌, ◌++◌, not, ◌||◌, ltb, ltb→ge, ge→ltb, ◌==◌, ==_iff, truthy,
  bit_and, All, length, take, drop, length-take, length-drop, length-append, take-append,
  drop-append, take_all, drop-drop, ltb→lt, take-append-drop, ◌<◌, subst, Bool-cases, inl, inr,
  arith,
}
use rtpkit.Common.Bits.{shr, bit_and-mask}
use rtpkit.Outcome.{Outcome, Warning, ok, err, ◌>>=◌}
use rtpkit.Outcome.Laws.{
  Any, Ensures, Ensures-bind, Ensures-if, Ensures-ok, Ensures-self, Ensures-mono, Yields,
}
use rtpkit.Wire.{Bytes, IsByte, byte_at, u16_at, slice}
use rtpkit.Wire.Read.{All-drop, byte_at-IsQuiet}
use rtpkit.Rtcp.{RtcpPacket}
use rtpkit.Rtcp.Bodies.{parse_one}
use rtpkit.Rtcp.Bodies.Safety.{IsMalformed, Matches, parse_one-Yields}
use rtpkit.Rtcp.Parser.{
  RtcpHeader, packet_len, parse_header, check_version, use_pad_count, parse_padding, skip_malformed,
  parse_packet, append_packet, compound_loop, parse_compound, parse_rtcp,
}
use rtpkit.Rtcp.Parser.Modes.{parse_short}
use rtpkit.Rtcp.Parser.Frame.{compound_loop_reads, compound_loop-nil, parse_rtcp-compound_loop}

-- The content of a body: all of it, or, by the padding flag, what is left without as many bytes as the last one says.
abbrev pub IsPadded : Bool → ℕ → Bytes → Bytes → Type 0
IsPadded false pad content body = (pad ≡ 0) × (content ≡ body)
IsPadded true pad content body =
    (1 ≤ pad)
    × (pad ≤ length body)
    × (byte_at body (length body - 1) ≡ ok pad [])
    × (content ≡ take (length body - pad) body)

-- A packet with its header: the version 2 in two bits, the padding flag, a count in five bits, the type, the length of the
-- body in words, and the body, whose content has the format of the type.
abbrev pub IsPacket : RtcpPacket → Bytes → Type 0
IsPacket p chunk =
    (b0 kind hi lo pad : ℕ) × (body content : Bytes) × (chunk ≡ b0 ∷ kind ∷ hi ∷ lo ∷ body)
    × (length body ≡ (hi * 2 ^ 8 + lo) * 4)
    × (b0 / 64 ≡ 2)
    × IsPadded (b0 / 32 % 2 == 1) pad content body
    × (parse_one kind (b0 % 32) content pad ≡ ok p [])

abbrev pub IsCompound : List RtcpPacket → Bytes → Type 0
IsCompound [] bytes = bytes ≡ []
IsCompound (p ∷ ps) bytes =
    (chunk rest : Bytes) × (bytes ≡ chunk ++ rest) × IsPacket p chunk × IsCompound ps rest

-- A body that is read to a packet.
abbrev pub IsRead : RtcpHeader → Bytes → RtcpPacket → Type 0
IsRead header body p =
    (pad : ℕ) × (content : Bytes) × IsPadded header.padding_flag pad content body
    × (parse_one header.packet_type header.count content pad ≡ ok p [])

-- The header of a packet of bytes.
abbrev pub read_header : ℕ → ℕ → ℕ → ℕ → RtcpHeader
read_header b0 kind hi lo = record {
  version = bit_and (shr b0 6) 0x03;
  padding_flag = truthy (bit_and (shr b0 5) 0x01);
  count = bit_and b0 0x1f;
  packet_type = kind;
  length_words = hi * 2 ^ 8 + lo;
}

pub flag_eq : (b0 : ℕ) → truthy (bit_and (shr b0 5) 0x01) ≡ (b0 / 32 % 2 == 1)
flag_eq b0 = ground (arith, bit_and-mask 1 (shr b0 5))

pub count_eq : (b0 : ℕ) → bit_and b0 0x1f ≡ b0 % 32
count_eq b0 = bit_and-mask 5 b0

pub version_eq : (b0 : ℕ) → b0 < 2 ^ 8 → bit_and (shr b0 6) 0x03 ≡ b0 / 64
version_eq b0 h = omega (arith, bit_and-mask 2 (shr b0 6))
