-- ===== src/Rtcp/Builder.antt =====
-- builder/rtcp_builder.py: the five serializers, `_build_one` and `build_rtcp`. The test for a packet of
-- another class has no counterpart: `RtcpPacket` has only the five.
pub mod Blocks
pub mod Sdes
pub mod Bodies
pub mod ByeApp
pub mod RoundTrip
pub mod Errors
mod Tests
use rtpkit.Common.{
  ℕ, zero, suc, ◌+◌, ◌-◌, ◌*◌, ◌/◌, ◌%◌, Bool, true, false, Option, none, some, List, [], ◌∷◌, ◌++◌,
  not, ◌&&◌, ltb, ◌==◌, truthy, int_of_bool, bit_or, length, if◌then◌else◌,
}
use rtpkit.Common.Bits.{shl}
use rtpkit.Common.Int.{ℤ, pos, negsuc, pos_part, leb_ℤ, bit_and_ℤ, in_range}
use rtpkit.Errors.{
  rtcp_build_error, struct_error, packet_field, padding_size, report_blocks, fraction_lost,
  cumulative_lost, chunks, type_field, text_field, sources, reason, subtype, name_field, Field,
  Exception,
}
use rtpkit.Outcome.{Outcome, ok, err, ◌>>=◌, ◌>>◌, pure, raise_if}
use rtpkit.Wire.{Bytes, pack_u8, pack_u16, pack_u32, pack_u32s, zeros, align_gap}
use rtpkit.Rtcp.{
  RtcpPacketType, sr, rr, sdes, bye, app, type_number, ReportBlock, SenderInfo, SdesItem, SdesChunk,
  RtcpPacket, sender_report, receiver_report, source_description, goodbye, application_defined,
  padding_of,
}

abbrev pub max_count : ℕ
max_count = 31

-- `_require_count`.
pub require_count : ℕ → Field → Outcome (Unit {0})
require_count count field = raise_if (ltb max_count count) (rtcp_build_error field)

-- -(2 ** 23) <= z <= 2 ** 23 - 1.
abbrev pub in_i24 : ℤ → Bool
in_i24 z = leb_ℤ (negsuc 0x7f_ffff) z && leb_ℤ z (pos 0x7f_ffff)

abbrev pub pack_lost : ℤ → ℤ → ℕ
pack_lost fraction cumulative =
    bit_or (shl (bit_and_ℤ fraction 0xff) 24) (bit_and_ℤ cumulative 0xff_ffff)

pub serialize_report_block : ReportBlock → Outcome Bytes
serialize_report_block rb = do
  raise_if (not (in_range 0 255 rb.fraction_lost)) (rtcp_build_error fraction_lost)
  raise_if (not (in_i24 rb.cumulative_lost)) (rtcp_build_error cumulative_lost)
  first ← pack_u32s (
      rb.ssrc
      ∷ pos (pack_lost rb.fraction_lost rb.cumulative_lost)
      ∷ rb.extended_highest_sequence
      ∷ rb.jitter
      ∷ rb.last_sr
      ∷ [])
  last ← pack_u32 rb.delay_since_last_sr
  pure (first ++ last)

pub serialize_report_blocks : List ReportBlock → Outcome Bytes
serialize_report_blocks [] = pure []
serialize_report_blocks (rb ∷ rbs) = do
  first ← serialize_report_block rb
  rest ← serialize_report_blocks rbs
  pure (first ++ rest)

pub serialize_sr : ℤ → SenderInfo → List ReportBlock → Outcome (ℤ × ℕ × Bytes)
serialize_sr ssrc info blocks = do
  require_count (length blocks) report_blocks
  body ← pack_u32s (
      ssrc ∷ info.ntp_seconds ∷ info.ntp_fraction ∷ info.rtp_timestamp ∷ info.packet_count
      ∷ info.octet_count ∷ [])
  rest ← serialize_report_blocks blocks
  pure (pos (length blocks), type_number sr, body ++ rest)

pub serialize_rr : ℤ → List ReportBlock → Outcome (ℤ × ℕ × Bytes)
serialize_rr ssrc blocks = do
  require_count (length blocks) report_blocks
  body ← pack_u32 ssrc
  rest ← serialize_report_blocks blocks
  pure (pos (length blocks), type_number rr, body ++ rest)

pub serialize_sdes_item : SdesItem → Outcome Bytes
serialize_sdes_item item = do
  raise_if (not (in_range 1 255 item.kind)) (rtcp_build_error type_field)
  raise_if (ltb 255 (length item.text)) (rtcp_build_error text_field)
  kind ← pack_u8 item.kind
  size ← pack_u8 (pos (length item.text))
  pure (kind ++ (size ++ item.text))

pub serialize_sdes_items : List SdesItem → Outcome Bytes
serialize_sdes_items [] = pure []
serialize_sdes_items (item ∷ items) = do
  first ← serialize_sdes_item item
  rest ← serialize_sdes_items items
  pure (first ++ rest)

-- `raw` with zero bytes up to whole words.
abbrev pub align : Bytes → Bytes
align raw = raw ++ zeros (align_gap (length raw))

pub serialize_sdes_chunk : SdesChunk → Outcome Bytes
serialize_sdes_chunk chunk = do
  items ← serialize_sdes_items chunk.items
  ssrc ← pack_u32 chunk.ssrc
  pure (align (ssrc ++ (items ++ (0 ∷ []))))

pub serialize_sdes_chunks : List SdesChunk → Outcome Bytes
serialize_sdes_chunks [] = pure []
serialize_sdes_chunks (chunk ∷ cs) = do
  first ← serialize_sdes_chunk chunk
  rest ← serialize_sdes_chunks cs
  pure (first ++ rest)

pub serialize_sdes : List SdesChunk → Outcome (ℤ × ℕ × Bytes)
serialize_sdes cs = do
  require_count (length cs) chunks
  body ← serialize_sdes_chunks cs
  pure (pos (length cs), type_number sdes, body)

pub serialize_reason : Option Bytes → Outcome Bytes
serialize_reason none = pure []
serialize_reason (some text) = do
  raise_if (ltb 255 (length text)) (rtcp_build_error reason)
  size ← pack_u8 (pos (length text))
  pure (size ++ text)

pub serialize_bye : List ℤ → Option Bytes → Outcome (ℤ × ℕ × Bytes)
serialize_bye ssrcs text = do
  require_count (length ssrcs) sources
  body ← pack_u32s ssrcs
  rest ← serialize_reason text
  pure (pos (length ssrcs), type_number bye, body ++ rest)

-- Whether `encode("ascii")` succeeds.
abbrev pub is_ascii : List ℕ → Bool
is_ascii [] = true
is_ascii (c ∷ cs) = ltb c 128 && is_ascii cs

pub serialize_app : ℤ → ℤ → List ℕ → Bytes → Outcome (ℤ × ℕ × Bytes)
serialize_app kind ssrc name body = do
  raise_if (not (in_range 0 max_count kind)) (rtcp_build_error subtype)
  raise_if (not (is_ascii name)) (rtcp_build_error name_field)
  raise_if (not (length name == 4)) (rtcp_build_error name_field)
  first ← pack_u32 ssrc
  pure (kind, type_number app, first ++ (name ++ body))

-- The `isinstance` tests: the count, the packet type and the body.
pub serialize : RtcpPacket → Outcome (ℤ × ℕ × Bytes)
serialize (sender_report ssrc info blocks _) = serialize_sr ssrc info blocks
serialize (receiver_report ssrc blocks _) = serialize_rr ssrc blocks
serialize (source_description cs _) = serialize_sdes cs
serialize (goodbye ssrcs text _) = serialize_bye ssrcs text
serialize (application_defined kind ssrc name body _) = serialize_app kind ssrc name body

-- `except struct.error: raise RtcpBuildError`.
abbrev pub as_build_error : Exception → Exception
as_build_error struct_error = rtcp_build_error packet_field
as_build_error e = e

abbrev pub catch_struct_error {ℓ} : {A : Type ℓ} → Outcome A → Outcome A
catch_struct_error (ok a ws) = ok a ws
catch_struct_error (err e) = err (as_build_error e)

abbrev pub padding_bytes : ℕ → Bytes
padding_bytes n = if truthy n then zeros (n - 1) ++ (n ∷ []) else []

abbrev pub header_byte0 : ℕ → ℤ → ℕ
header_byte0 padding count =
    bit_or (bit_or (shl 2 6) (shl (int_of_bool (truthy padding)) 5)) (bit_and_ℤ count 0x1f)

-- `struct.pack("!BBH", ...) + body`, outside the `try`.
pub pack_packet : ℕ → ℕ → Bytes → Outcome Bytes
pack_packet byte0 packet_type body = do
  first ← pack_u8 (pos byte0)
  second ← pack_u8 (pos packet_type)
  size ← pack_u16 (pos (length body / 4))
  pure (first ++ (second ++ (size ++ body)))

-- `_build_one`.
pub build_one : RtcpPacket → Outcome Bytes
build_one p = do
  (count, packet_type, body) ← catch_struct_error (serialize p)
  raise_if (not (in_range 0 255 (padding_of p))) (rtcp_build_error padding_size)
  raise_if (truthy (pos_part (padding_of p) % 4)) (rtcp_build_error padding_size)
  pack_packet (header_byte0 (pos_part (padding_of p)) count) packet_type
      (align body ++ padding_bytes (pos_part (padding_of p)))

pub build_rtcp : List RtcpPacket → Outcome Bytes
build_rtcp [] = pure []
build_rtcp (p ∷ ps) = do first ← build_one p; rest ← build_rtcp ps; pure (first ++ rest)
