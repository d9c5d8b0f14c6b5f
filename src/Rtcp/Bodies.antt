-- ===== src/Rtcp/Bodies.antt =====
-- parser/rtcp_parser.py: the bodies of the five packet types, `_parse_one` and what it calls. In the
-- SDES loops the position is given by the bytes from there on.
pub mod Safety
pub mod Blocks
pub mod Sign
pub mod Sdes
pub mod Complete
use rtpkit.Common.{
  ℕ, zero, suc, ◌+◌, ◌-◌, ◌*◌, Bool, Option, none, some, List, [], ◌∷◌, map, ltb, ◌==◌, truthy,
  bit_and, length, take, drop, if◌then◌else◌,
}
use rtpkit.Common.Bits.{shr}
use rtpkit.Common.Int.{ℤ, pos, sub_ℕ}
use rtpkit.Errors.{
  MalformedDetail, rtcp_malformed_packet, unknown_packet_type, short_report_blocks, short_sr,
  short_rr, short_app, chunk_missing_ssrc, chunk_missing_null, item_header_truncated,
  item_data_truncated, chunk_padding_truncated, short_bye, reason_truncated, out_of_fuel,
  struct_error,
}
use rtpkit.Outcome.{Outcome, err, ◌>>=◌, ◌>>◌, pure}
use rtpkit.Wire.{Bytes, byte_at, slice, u32_at, u32s_at, align_gap}
use rtpkit.Rtcp.{
  SenderInfo, ReportBlock, SdesItem, SdesChunk, RtcpPacket, sender_report, receiver_report,
  source_description, goodbye, application_defined, type_number, sr, rr, sdes, bye, app,
}

abbrev pub report_block_size : ℕ
report_block_size = 24

-- `raise RtcpMalformedPacket(detail)`.
abbrev pub malformed {ℓ} : {A : Type ℓ} → MalformedDetail → Outcome A
malformed detail = err (rtcp_malformed_packet detail)

-- The low 24 bits, with their sign extended.
unfoldable pub sign_extend : ℕ → ℤ
sign_extend n =
    let low = bit_and n 0xff_ffff in
    if truthy (bit_and low 0x80_0000) then sub_ℕ low 0x100_0000 else pos low

-- The block of the four words that one `unpack_from` reads.
unfoldable pub with_last_words : ℕ → ℕ → List ℕ → Outcome ReportBlock
with_last_words ssrc fraction_and_lost (ext_highest ∷ jitter ∷ last_sr ∷ dlsr ∷ []) = pure (record {
  ssrc = pos ssrc;
  fraction_lost = pos (bit_and (shr fraction_and_lost 24) 0xff);
  cumulative_lost = sign_extend fraction_and_lost;
  extended_highest_sequence = pos ext_highest;
  jitter = pos jitter;
  last_sr = pos last_sr;
  delay_since_last_sr = pos dlsr;
})
with_last_words ssrc fraction_and_lost _ = err struct_error

-- One round of the loop, at `off`.
unfoldable pub parse_report_block : Bytes → ℕ → Outcome ReportBlock
parse_report_block bytes off = do
  ssrc ← u32_at bytes off
  fraction_and_lost ← u32_at bytes (off + 4)
  last ← u32s_at 4 bytes (off + 8)
  with_last_words ssrc fraction_and_lost last

-- The rounds that are left, from `off` on.
unfoldable pub report_block_loop : ℕ → Bytes → ℕ → Outcome (List ReportBlock)
report_block_loop zero bytes off = pure []
report_block_loop (suc rc) bytes off = do
  block ← parse_report_block bytes off
  blocks ← report_block_loop rc bytes (off + report_block_size)
  pure (block ∷ blocks)

unfoldable pub parse_report_blocks : Bytes → ℕ → Outcome (List ReportBlock)
parse_report_blocks bytes rc =
    let needed = rc * report_block_size in
    if ltb (length bytes) needed
    then malformed (short_report_blocks needed rc (length bytes))
    else report_block_loop rc bytes 0

pub sender_info : List ℕ → Outcome SenderInfo
sender_info (ntp_sec ∷ ntp_frac ∷ rtp_ts ∷ pkt_cnt ∷ oct_cnt ∷ []) = pure (record {
  ntp_seconds = pos ntp_sec;
  ntp_fraction = pos ntp_frac;
  rtp_timestamp = pos rtp_ts;
  packet_count = pos pkt_cnt;
  octet_count = pos oct_cnt;
})
sender_info _ = err struct_error

pub parse_sr : Bytes → ℕ → ℕ → Outcome RtcpPacket
parse_sr content rc padding_size =
    if ltb (length content) 24 then malformed (short_sr (length content)) else do
      ssrc ← u32_at content 0
      words ← u32s_at 5 content 4
      info ← sender_info words
      blocks ← parse_report_blocks (drop 24 content) rc
      pure (sender_report (pos ssrc) info blocks (pos padding_size))

unfoldable pub parse_rr : Bytes → ℕ → ℕ → Outcome RtcpPacket
parse_rr content rc padding_size =
    if ltb (length content) 4 then malformed (short_rr (length content)) else do
      ssrc ← u32_at content 0
      blocks ← parse_report_blocks (drop 4 content) rc
      pure (receiver_report (pos ssrc) blocks (pos padding_size))

-- The `while True` loop over the items of a chunk; it returns what follows the null byte.
unfoldable pub sdes_item_loop : ℕ → Bytes → Outcome (List SdesItem × Bytes)
sdes_item_loop fuel [] = malformed chunk_missing_null
sdes_item_loop zero (item_type ∷ rest) = err out_of_fuel
sdes_item_loop (suc fuel) (item_type ∷ []) =
    if item_type == 0 then pure ([], []) else malformed item_header_truncated
sdes_item_loop (suc fuel) (item_type ∷ item_len ∷ rest) =
    let item : SdesItem = record { kind = pos item_type; text = take item_len rest } in
    let following = sdes_item_loop fuel (drop item_len rest) in
    if item_type == 0
    then pure ([], item_len ∷ rest)
    else if ltb (length rest) item_len
    then malformed item_data_truncated
    else following >>= (λ (items, left). pure (item ∷ items, left))

-- One round of the loop over the chunks; it returns what follows the chunk and its padding.
unfoldable pub parse_sdes_chunk : Bytes → Outcome (SdesChunk × Bytes)
parse_sdes_chunk content = if ltb (length content) 4 then malformed chunk_missing_ssrc else do
  ssrc ← u32_at content 0
  (items, left) ← sdes_item_loop (length content) (drop 4 content)
  let pad = align_gap (length content - length left)
  if ltb (length left) pad
      then malformed chunk_padding_truncated
      else pure (record { ssrc = pos ssrc; items = items }, drop pad left)

unfoldable pub sdes_chunk_loop : ℕ → Bytes → Outcome (List SdesChunk)
sdes_chunk_loop zero content = pure []
sdes_chunk_loop (suc sc) content = do
  (chunk, left) ← parse_sdes_chunk content
  chunks ← sdes_chunk_loop sc left
  pure (chunk ∷ chunks)

unfoldable pub parse_sdes : Bytes → ℕ → ℕ → Outcome RtcpPacket
parse_sdes content sc padding_size = do
  chunks ← sdes_chunk_loop sc content
  pure (source_description chunks (pos padding_size))

-- The reason text of a given length, behind its length byte at `start`.
unfoldable pub cut_reason : Bytes → ℕ → ℕ → Outcome (Option Bytes)
cut_reason content start reason_len =
    if ltb (length content) (start + 1 + reason_len)
    then malformed reason_truncated
    else pure (some (slice content (start + 1) (start + 1 + reason_len)))

unfoldable pub parse_reason : Bytes → ℕ → Outcome (Option Bytes)
parse_reason content start =
    if ltb start (length content)
    then byte_at content start >>= cut_reason content start
    else pure none

unfoldable pub parse_bye : Bytes → ℕ → ℕ → Outcome RtcpPacket
parse_bye content sc padding_size =
    let needed = sc * 4 in
    if ltb (length content) needed then malformed (short_bye needed sc (length content)) else do
      sources ← (if truthy sc then u32s_at sc content 0 else pure [])
      reason ← parse_reason content needed
      pure (goodbye (map pos sources) reason (pos padding_size))

-- `decode("ascii", errors="replace")`.
abbrev pub decode_ascii : Bytes → List ℕ
decode_ascii bytes = map (λ (b : ℕ). if ltb b 128 then b else 0xfffd) bytes

unfoldable pub parse_app : Bytes → ℕ → ℕ → Outcome RtcpPacket
parse_app content subtype padding_size =
    if ltb (length content) 8 then malformed (short_app (length content)) else do
      ssrc ← u32_at content 0
      pure (
          application_defined (pos subtype) (pos ssrc) (decode_ascii (slice content 4 8))
            (drop 8 content) (pos padding_size))

-- `_parse_one`.
unfoldable pub parse_one : ℕ → ℕ → Bytes → ℕ → Outcome RtcpPacket
parse_one packet_type count content padding_size =
    if packet_type == type_number sr
    then parse_sr content count padding_size
    else if packet_type == type_number rr
    then parse_rr content count padding_size
    else if packet_type == type_number sdes
    then parse_sdes content count padding_size
    else if packet_type == type_number bye
    then parse_bye content count padding_size
    else if packet_type == type_number app
    then parse_app content count padding_size
    else malformed (unknown_packet_type packet_type)
