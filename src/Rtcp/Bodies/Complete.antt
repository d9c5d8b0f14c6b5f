-- ===== src/Rtcp/Bodies/Complete.antt =====
-- The bodies of the packet types, from what their reads return.
use rtpkit.Common.{
  ℕ, zero, suc, ◌+◌, ◌*◌, ◌≤◌, ◌≡◌, Option, none, some, List, [], ◌∷◌, map, arith, length, drop,
  lt→ltb, ge→ltb, truthy, truthy-suc, if◌then◌else◌,
}
use rtpkit.Common.Int.{pos}
use rtpkit.Outcome.{ok, pure}
use rtpkit.Wire.{Bytes, u32_at, u32s_at, first_u32s, byte_at, slice}
use rtpkit.Rtcp.{
  ReportBlock, SdesChunk, sender_report, receiver_report, source_description, goodbye,
  application_defined,
}
use rtpkit.Rtcp.Bodies.{
  parse_report_blocks, report_block_loop, sender_info, parse_sr, parse_rr, parse_sdes,
  sdes_chunk_loop, cut_reason, parse_reason, parse_bye, decode_ascii, parse_app, parse_one,
}

pub parse_report_blocks_reads :
    (bytes : Bytes) (rc : ℕ) {blocks : List ReportBlock}
    → rc * 24 ≤ length bytes
    → report_block_loop rc bytes 0 ≡ ok blocks []
    → parse_report_blocks bytes rc ≡ ok blocks []
unfolding parse_report_blocks
parse_report_blocks_reads bytes rc h loop = rw (ge→ltb _ _ h, loop)

pub parse_sr_reads :
    (content rest : Bytes) (ssrc rc padding a b c d e : ℕ) (blocks : List ReportBlock)
    → 24 ≤ length content
    → u32_at content 0 ≡ ok ssrc []
    → u32s_at 5 content 4 ≡ ok (a ∷ b ∷ c ∷ d ∷ e ∷ []) []
    → drop 24 content ≡ rest
    → parse_report_blocks rest rc ≡ ok blocks []
    → parse_one 200 rc content padding
      ≡ ok
          (sender_report
            (pos ssrc)
            (record {
              ntp_seconds = pos a;
              ntp_fraction = pos b;
              rtp_timestamp = pos c;
              packet_count = pos d;
              octet_count = pos e;
            })
            blocks
            (pos padding))
          []
unfolding parse_one parse_sr sender_info
parse_sr_reads content rest ssrc rc padding a b c d e blocks long word words left read =
    rw (ge→ltb _ _ long, word, words, left, read)

pub parse_rr_reads :
    (content rest : Bytes) (ssrc rc padding : ℕ) (blocks : List ReportBlock)
    → 4 ≤ length content
    → u32_at content 0 ≡ ok ssrc []
    → drop 4 content ≡ rest
    → parse_report_blocks rest rc ≡ ok blocks []
    → parse_one 201 rc content padding ≡ ok (receiver_report (pos ssrc) blocks (pos padding)) []
unfolding parse_one parse_rr
parse_rr_reads content rest ssrc rc padding blocks long word left read =
    rw (ge→ltb _ _ long, word, left, read)

pub parse_sdes_reads :
    (content : Bytes) (sc padding : ℕ) (cs : List SdesChunk)
    → sdes_chunk_loop sc content ≡ ok cs []
    → parse_one 202 sc content padding ≡ ok (source_description cs (pos padding)) []
unfolding parse_one parse_sdes
parse_sdes_reads content sc padding cs loop = rw loop

sources_reads :
    (content : Bytes) (sc : ℕ) {ns : List ℕ}
    → u32s_at sc content 0 ≡ ok ns []
    → (if truthy sc then u32s_at sc content 0 else pure []) ≡ ok ns []
unfolding u32s_at first_u32s
sources_reads content zero h = h
sources_reads content (suc sc) h = rw (truthy-suc sc) h

pub parse_bye_reads :
    (content : Bytes) (sc padding : ℕ) (ns : List ℕ) (reason : Option Bytes)
    → sc * 4 ≤ length content
    → u32s_at sc content 0 ≡ ok ns []
    → parse_reason content (sc * 4) ≡ ok reason []
    → parse_one 203 sc content padding ≡ ok (goodbye (map pos ns) reason (pos padding)) []
unfolding parse_one parse_bye
parse_bye_reads content sc padding ns reason long words read =
    rw (ge→ltb _ _ long, sources_reads content sc words, read)

pub parse_reason-none :
    (content : Bytes) (start : ℕ) → length content ≤ start → parse_reason content start ≡ ok none []
unfolding parse_reason
parse_reason-none content start h = rw (ge→ltb _ _ h)

pub parse_reason_reads :
    (content text : Bytes) (start size : ℕ)
    → byte_at content start ≡ ok size []
    → start + 1 + size ≤ length content
    → slice content (start + 1) (start + 1 + size) ≡ text
    → parse_reason content start ≡ ok (some text) []
unfolding parse_reason cut_reason
parse_reason_reads content text start size byte fits cut =
    rw (lt→ltb start (length content) (omega arith), byte, ge→ltb _ _ fits, cut)

pub parse_app_reads :
    (content body : Bytes) (subtype ssrc padding : ℕ) (name : List ℕ)
    → 8 ≤ length content
    → u32_at content 0 ≡ ok ssrc []
    → decode_ascii (slice content 4 8) ≡ name
    → drop 8 content ≡ body
    → parse_one 204 subtype content padding
      ≡ ok (application_defined (pos subtype) (pos ssrc) name body (pos padding)) []
unfolding parse_one parse_app
parse_app_reads content body subtype ssrc padding name long word decoded left =
    rw (ge→ltb _ _ long, word) (same_packet decoded left)
  where
    same_packet :
        {x : List ℕ} {y : Bytes}
        → x ≡ name
        → y ≡ body
        → ok (application_defined (pos subtype) (pos ssrc) x y (pos padding)) []
          ≡ ok (application_defined (pos subtype) (pos ssrc) name body (pos padding)) []
    same_packet h k = cc (h, k)
