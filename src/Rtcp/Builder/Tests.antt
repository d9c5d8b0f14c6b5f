-- ===== src/Rtcp/Builder/Tests.antt =====
-- Runs of the RTCP builder, and the witnesses of its theorems.
use rtpkit.Common.{◌⊎◌, ◌≡◌, refl, none, some, List, [], ◌∷◌}
use rtpkit.Common.Int.{pos, negsuc}
use rtpkit.Errors.{struct_error, rtcp_build_error, packet_field, padding_size}
use rtpkit.Outcome.{ok, err}
use rtpkit.Wire.{Bytes, pack_u8, pack_u16, pack_u32, pack_u32s}
use rtpkit.Rtcp.{
  RtcpPacket, ReportBlock, receiver_report, goodbye, source_description, application_defined,
}
use rtpkit.Rtcp.Parser.{parse_rtcp}
use rtpkit.Rtcp.Builder.{
  require_count, serialize_report_block, serialize_report_blocks, serialize_rr, serialize_sdes_item,
  serialize_sdes_items, serialize_sdes_chunk, serialize_sdes_chunks, serialize_sdes,
  serialize_reason, serialize_bye, serialize_app, serialize, pack_packet, build_one, build_rtcp,
}
use rtpkit.Rtcp.Builder.Errors.{IsRtcpBuildError, SomeTooLong, build_rtcp_raises}
use rtpkit.Rtcp.Builder.RoundTrip.{parse_rtcp-build_rtcp}

abbrev block : ReportBlock
block = record {
  ssrc = pos 2;
  fraction_lost = pos 128;
  cumulative_lost = negsuc 0;
  extended_highest_sequence = pos 3;
  jitter = pos 4;
  last_sr = pos 5;
  delay_since_last_sr = pos 6;
}

-- A report with padding, a description, a goodbye with a reason, and an application packet.
abbrev report : RtcpPacket
report = receiver_report (pos 1) (block ∷ []) (pos 4)

abbrev others : List RtcpPacket
others =
    source_description
      (record { ssrc = pos 9; items = record { kind = pos 1; text = 97 ∷ 98 ∷ [] } ∷ [] } ∷ [])
      (pos 0)
    ∷ goodbye (pos 7 ∷ []) (some (104 ∷ 105 ∷ [])) (pos 0)
    ∷ application_defined (pos 5) (pos 9) (97 ∷ 98 ∷ 99 ∷ 100 ∷ []) (1 ∷ 2 ∷ 3 ∷ 4 ∷ []) (pos 0)
    ∷ []

abbrev compound : Bytes
compound =
    0xa1 ∷ 201 ∷ 0 ∷ 8 ∷ 0 ∷ 0 ∷ 0 ∷ 1 ∷ 0 ∷ 0 ∷ 0 ∷ 2 ∷ 128 ∷ 255 ∷ 255 ∷ 255 ∷ 0 ∷ 0 ∷ 0 ∷ 3 ∷ 0
    ∷ 0 ∷ 0 ∷ 4 ∷ 0 ∷ 0 ∷ 0 ∷ 5 ∷ 0 ∷ 0 ∷ 0 ∷ 6 ∷ 0 ∷ 0 ∷ 0 ∷ 4 ∷ 0x81 ∷ 202 ∷ 0 ∷ 3 ∷ 0 ∷ 0 ∷ 0 ∷ 9
    ∷ 1 ∷ 2 ∷ 97 ∷ 98 ∷ 0 ∷ 0 ∷ 0 ∷ 0 ∷ 0x81 ∷ 203 ∷ 0 ∷ 2 ∷ 0 ∷ 0 ∷ 0 ∷ 7 ∷ 2 ∷ 104 ∷ 105 ∷ 0
    ∷ 0x85 ∷ 204 ∷ 0 ∷ 3 ∷ 0 ∷ 0 ∷ 0 ∷ 9 ∷ 97 ∷ 98 ∷ 99 ∷ 100 ∷ 1 ∷ 2 ∷ 3 ∷ 4 ∷ []

compound-built : build_rtcp (report ∷ others) ≡ ok compound []
unfolding build_rtcp build_one pack_packet serialize serialize_rr serialize_sdes serialize_bye
    serialize_app require_count serialize_report_blocks serialize_report_block serialize_sdes_chunks
    serialize_sdes_chunk serialize_sdes_items serialize_sdes_item serialize_reason pack_u8 pack_u16
    pack_u32 pack_u32s
compound-built = refl

-- A negative SSRC is a `struct.error` that becomes an `RtcpBuildError`; a padding of 3 is refused.
negative_ssrc :
    build_rtcp (goodbye (negsuc 0 ∷ []) none (pos 0) ∷ []) ≡ err (rtcp_build_error packet_field)
unfolding build_rtcp build_one serialize serialize_bye require_count pack_u32 pack_u32s
negative_ssrc = refl

odd_padding : build_rtcp (goodbye [] none (pos 3) ∷ []) ≡ err (rtcp_build_error padding_size)
unfolding build_rtcp build_one serialize serialize_bye serialize_reason require_count pack_u32s
odd_padding = refl

parse_rtcp-build_rtcp_example : parse_rtcp compound ≡ ok (report ∷ others) []
parse_rtcp-build_rtcp_example =
    parse_rtcp-build_rtcp report others (tt, (tt, (tt, (refl, tt)))) compound-built

build_rtcp_raises_example :
    IsRtcpBuildError (rtcp_build_error packet_field)
    ⊎ ((rtcp_build_error packet_field ≡ struct_error)
        × SomeTooLong (goodbye (negsuc 0 ∷ []) none (pos 0) ∷ []))
build_rtcp_raises_example =
    build_rtcp_raises (goodbye (negsuc 0 ∷ []) none (pos 0) ∷ []) (rtcp_build_error packet_field)
      negative_ssrc
