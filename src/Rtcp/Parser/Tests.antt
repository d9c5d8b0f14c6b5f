-- ===== src/Rtcp/Parser/Tests.antt =====
-- Runs of the RTCP parser, and the witnesses of its theorems.
use rtpkit.Common.{◌<◌, ◌≡◌, ◌↔◌, refl, true, some, [], ◌∷◌, ◌++◌}
use rtpkit.Common.Int.{pos, negsuc}
use rtpkit.Errors.{
  is_rtcp_error, rtcp_buffer_too_short, rtcp_length_mismatch, rtcp_malformed_packet,
  unknown_packet_type,
}
use rtpkit.Outcome.{ok, err, packet_skipped}
use rtpkit.Wire.{Bytes, byte_at, u16_at, u32_at, u32s_at, first_u32s}
use rtpkit.Rtcp.Bodies.{
  sign_extend, with_last_words, parse_report_block, report_block_loop, parse_report_blocks,
  parse_rr, sdes_item_loop, parse_sdes_chunk, sdes_chunk_loop, parse_sdes, cut_reason, parse_reason,
  parse_bye, parse_app, parse_one,
}
use rtpkit.Rtcp.{RtcpPacket, goodbye, receiver_report, source_description, application_defined}
use rtpkit.Rtcp.Parser.{
  parse_header, check_version, parse_packet, parse_padding, use_pad_count, skip_malformed,
  parse_compound, parse_rtcp, parse_rtcp_lenient, compound_loop,
}
use rtpkit.Rtcp.Parser.Modes.{
  parse_rtcp-parse_rtcp_lenient, parse_rtcp-IsRtcpError, parse_rtcp_lenient_raises,
}

-- A Goodbye of one source, with the reason "hi" and a byte of alignment.
abbrev bye_bytes : Bytes
bye_bytes = 0x81 ∷ 203 ∷ 0 ∷ 2 ∷ 0 ∷ 0 ∷ 0 ∷ 7 ∷ 2 ∷ 104 ∷ 105 ∷ 0 ∷ []

abbrev bye_packet : RtcpPacket
bye_packet = goodbye (pos 7 ∷ []) (some (104 ∷ 105 ∷ [])) (pos 0)

-- A packet of an unknown type, without a body.
abbrev unknown_bytes : Bytes
unknown_bytes = 0x80 ∷ 210 ∷ 0 ∷ 0 ∷ []

bye_run : parse_rtcp bye_bytes ≡ ok (bye_packet ∷ []) []
unfolding parse_rtcp parse_compound compound_loop parse_header byte_at u16_at check_version
    parse_packet parse_padding skip_malformed parse_one parse_bye u32s_at first_u32s parse_reason
    cut_reason
bye_run = refl

-- In a compound buffer the lenient mode skips what it does not know, and the strict mode raises.
skip_run :
    parse_rtcp_lenient (unknown_bytes ++ bye_bytes) ≡ ok (bye_packet ∷ []) (packet_skipped 210 ∷ [])
unfolding parse_rtcp_lenient parse_compound compound_loop parse_header byte_at u16_at check_version
    parse_packet parse_padding skip_malformed parse_one parse_bye u32s_at first_u32s parse_reason
    cut_reason
skip_run = refl

strict_run :
    parse_rtcp (unknown_bytes ++ bye_bytes) ≡ err (rtcp_malformed_packet (unknown_packet_type 210))
unfolding parse_rtcp parse_compound compound_loop parse_header byte_at u16_at check_version
    parse_packet parse_padding skip_malformed parse_one
strict_run = refl

-- A declared length that leaves the buffer.
overrun : parse_rtcp (0x81 ∷ 203 ∷ 0 ∷ 2 ∷ []) ≡ err (rtcp_length_mismatch 12 4)
unfolding parse_rtcp parse_compound compound_loop parse_header byte_at u16_at check_version
overrun = refl

-- A receiver report whose one block has lost -1 packets, with four bytes of padding.
negative_loss :
    parse_rtcp (
      0xa1 ∷ 201 ∷ 0 ∷ 8 ∷ 0 ∷ 0 ∷ 0 ∷ 1 ∷ 0 ∷ 0 ∷ 0 ∷ 2 ∷ 128 ∷ 255 ∷ 255 ∷ 255 ∷ 0 ∷ 0 ∷ 0 ∷ 3 ∷ 0
      ∷ 0 ∷ 0 ∷ 4 ∷ 0 ∷ 0 ∷ 0 ∷ 5 ∷ 0 ∷ 0 ∷ 0 ∷ 6 ∷ 0 ∷ 0 ∷ 0 ∷ 4 ∷ [])
    ≡ ok
        (receiver_report
            (pos 1)
            (record {
              ssrc = pos 2;
              fraction_lost = pos 128;
              cumulative_lost = negsuc 0;
              extended_highest_sequence = pos 3;
              jitter = pos 4;
              last_sr = pos 5;
              delay_since_last_sr = pos 6;
            }
              ∷ [])
            (pos 4)
          ∷ [])
        []
unfolding parse_rtcp parse_compound compound_loop parse_header byte_at u16_at check_version
    parse_packet parse_padding skip_malformed parse_one use_pad_count parse_rr u32_at u32s_at
    first_u32s parse_report_blocks report_block_loop parse_report_block with_last_words sign_extend
negative_loss = refl

-- A chunk with one item, ended by a null byte and aligned.
sdes_run :
    parse_rtcp (0x81 ∷ 202 ∷ 0 ∷ 3 ∷ 0 ∷ 0 ∷ 0 ∷ 9 ∷ 1 ∷ 2 ∷ 97 ∷ 98 ∷ 0 ∷ 0 ∷ 0 ∷ 0 ∷ [])
    ≡ ok
        (source_description
            (record { ssrc = pos 9; items = record { kind = pos 1; text = 97 ∷ 98 ∷ [] } ∷ [] }
              ∷ [])
            (pos 0)
          ∷ [])
        []
unfolding parse_rtcp parse_compound compound_loop parse_header byte_at u16_at check_version
    parse_packet parse_padding skip_malformed parse_one parse_sdes sdes_chunk_loop parse_sdes_chunk
    sdes_item_loop u32_at
sdes_run = refl

app_run :
    parse_rtcp (0x85 ∷ 204 ∷ 0 ∷ 3 ∷ 0 ∷ 0 ∷ 0 ∷ 9 ∷ 97 ∷ 98 ∷ 200 ∷ 100 ∷ 1 ∷ 2 ∷ 3 ∷ 4 ∷ [])
    ≡ ok
        (application_defined
            (pos 5)
            (pos 9)
            (97 ∷ 98 ∷ 0xfffd ∷ 100 ∷ [])
            (1 ∷ 2 ∷ 3 ∷ 4 ∷ [])
            (pos 0)
          ∷ [])
        []
unfolding parse_rtcp parse_compound compound_loop parse_header byte_at u16_at check_version
    parse_packet parse_padding skip_malformed parse_one parse_app u32_at
app_run = refl

parse_rtcp-parse_rtcp_lenient_example :
    (parse_rtcp bye_bytes ≡ ok (bye_packet ∷ []) [])
    ↔ (parse_rtcp_lenient bye_bytes ≡ ok (bye_packet ∷ []) [])
parse_rtcp-parse_rtcp_lenient_example = parse_rtcp-parse_rtcp_lenient bye_bytes (bye_packet ∷ [])

parse_rtcp-IsRtcpError_example : is_rtcp_error (rtcp_length_mismatch 12 4) ≡ true
parse_rtcp-IsRtcpError_example =
    parse_rtcp-IsRtcpError (0x81 ∷ 203 ∷ 0 ∷ 2 ∷ []) (rtcp_length_mismatch 12 4) overrun

parse_rtcp_lenient_raises_example :
    (parse_rtcp_lenient (0x81 ∷ []) ≡ err (rtcp_buffer_too_short 4 1))
    ↔ ((1 < 4) × (rtcp_buffer_too_short 4 1 ≡ rtcp_buffer_too_short 4 1))
parse_rtcp_lenient_raises_example =
    parse_rtcp_lenient_raises (0x81 ∷ []) (rtcp_buffer_too_short 4 1)
