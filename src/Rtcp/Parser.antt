-- ===== src/Rtcp/Parser.antt =====
-- parser/rtcp_parser.py: `_parse_compound`, and its two entry points. The loop over `offset` runs over
-- the bytes from there on; its fuel is their number, and each round takes at least the four of a header.
pub mod Safety
pub mod Modes
pub mod Frame
pub mod Compound
mod Tests
use rtpkit.Common.{
  ℕ, zero, suc, ◌+◌, ◌-◌, ◌*◌, Bool, true, false, Option, none, some, List, [], ◌∷◌, not, ltb, ◌==◌,
  ◌||◌, truthy, bit_and, length, take, drop, if◌then◌else◌,
}
use rtpkit.Common.Bits.{shr}
use rtpkit.Errors.{
  rtcp_buffer_too_short, rtcp_invalid_version, rtcp_length_mismatch, rtcp_malformed_packet,
  empty_padding, invalid_padding, out_of_fuel,
}
use rtpkit.Outcome.{
  Outcome, ok, err, ◌>>=◌, ◌>>◌, pure, raise_or_warn, version_mismatch, trailing_bytes,
  packet_overrun, rtcp_padding_empty, rtcp_padding_invalid, packet_skipped,
}
use rtpkit.Wire.{Bytes, byte_at, slice, u16_at}
use rtpkit.Rtcp.{RtcpPacket}
use rtpkit.Rtcp.Bodies.{parse_one}

abbrev pub header_size : ℕ
header_size = 4

pub record RtcpHeader : Type 0 where
  pub version : ℕ
  pub padding_flag : Bool
  pub count : ℕ
  pub packet_type : ℕ
  pub length_words : ℕ

-- The first bytes of `rest`.
pub parse_header : Bytes → Outcome RtcpHeader
parse_header rest = do
  first_byte ← byte_at rest 0
  packet_type ← byte_at rest 1
  length_words ← u16_at rest 2
  pure (record {
    version = bit_and (shr first_byte 6) 0x03;
    padding_flag = truthy (bit_and (shr first_byte 5) 0x01);
    count = bit_and first_byte 0x1f;
    packet_type = packet_type;
    length_words = length_words;
  })

abbrev pub packet_len : RtcpHeader → ℕ
packet_len header = (header.length_words + 1) * 4

pub check_version : Bool → ℕ → Outcome (Unit {0})
check_version strict version =
    if not (version == 2)
    then raise_or_warn strict (rtcp_invalid_version version) (version_mismatch version) tt
    else pure tt

-- `padding_size` and `content_end`, from the count in the last byte of the body.
pub use_pad_count : Bool → ℕ → ℕ → Outcome (ℕ × ℕ)
use_pad_count strict body_len pad_count =
    if (pad_count == 0) || ltb body_len pad_count
    then raise_or_warn strict (rtcp_malformed_packet (invalid_padding pad_count))
        (rtcp_padding_invalid pad_count) (0, body_len)
    else pure (pad_count, body_len - pad_count)

pub parse_padding : Bool → Bool → Bytes → Outcome (ℕ × ℕ)
parse_padding strict padding_flag body =
    if padding_flag
    then if ltb (length body) 1
      then raise_or_warn strict (rtcp_malformed_packet empty_padding) rtcp_padding_empty
          (0, length body)
      else byte_at body (length body - 1) >>= use_pad_count strict (length body)
    else pure (0, length body)

-- The `try` statement: in lenient mode a malformed packet is skipped.
pub skip_malformed : Bool → ℕ → Outcome RtcpPacket → Outcome (Option RtcpPacket)
skip_malformed strict packet_type (ok packet ws) = ok (some packet) ws
skip_malformed strict packet_type (err (rtcp_malformed_packet detail)) =
    raise_or_warn strict (rtcp_malformed_packet detail) (packet_skipped packet_type) none
skip_malformed strict packet_type (err e) = err e

-- `packets.append(packet)`, of a packet that is not None.
abbrev pub append_packet : Option RtcpPacket → List RtcpPacket → List RtcpPacket
append_packet none packets = packets
append_packet (some packet) packets = packet ∷ packets

-- A packet that fits the buffer, from its header and body.
pub parse_packet : Bool → RtcpHeader → Bytes → Outcome (Option RtcpPacket)
parse_packet strict header body = do
  (padding_size, content_end) ← parse_padding strict header.padding_flag body
  skip_malformed strict header.packet_type
      (parse_one header.packet_type header.count (take content_end body) padding_size)

-- The `while` loop.
pub compound_loop : Bool → ℕ → Bytes → Outcome (List RtcpPacket)
compound_loop strict fuel [] = pure []
compound_loop strict zero (b ∷ bs) = err out_of_fuel
compound_loop strict (suc fuel) (b ∷ bs) =
    let rest : Bytes = b ∷ bs in
    let remaining = length rest in
    if ltb remaining header_size
    then raise_or_warn strict (rtcp_buffer_too_short header_size remaining)
        (trailing_bytes remaining) []
    else do
      header ← parse_header rest
      check_version strict header.version
      if ltb remaining (packet_len header)
          then raise_or_warn strict (rtcp_length_mismatch (packet_len header) remaining)
              (packet_overrun (packet_len header) remaining) []
          else do
            packet ← parse_packet strict header (slice rest header_size (packet_len header))
            packets ← compound_loop strict fuel (drop (packet_len header) rest)
            pure (append_packet packet packets)

-- `_parse_compound`.
pub parse_compound : Bool → Bytes → Outcome (List RtcpPacket)
parse_compound strict bytes =
    if ltb (length bytes) header_size
    then err (rtcp_buffer_too_short header_size (length bytes))
    else compound_loop strict (length bytes) bytes

unfoldable pub parse_rtcp : Bytes → Outcome (List RtcpPacket)
parse_rtcp = parse_compound true

unfoldable pub parse_rtcp_lenient : Bytes → Outcome (List RtcpPacket)
parse_rtcp_lenient = parse_compound false
