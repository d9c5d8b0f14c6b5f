-- ===== src/Detection/Tests.antt =====
-- The witnesses of the theorems on the heuristics.
use rtpkit.Common.{none, inl, ◌≡◌, ◌↔◌, refl, Bool, true, false, [], ◌∷◌, All, arith}
use rtpkit.Outcome.{ok}
use rtpkit.Wire.{Bytes, IsByte}
use rtpkit.Rtp.{RtpPacket}
use rtpkit.Detection.{looks_like_rtp, looks_like_rtcp}
use rtpkit.Detection.Heuristics.{
  LooksLikeRtp, LooksLikeRtcp, looks_like_rtp-iff-LooksLikeRtp, looks_like_rtcp-iff-LooksLikeRtcp,
}
use rtpkit.Detection.Exclusive.{looks_like_rtp-looks_like_rtcp}

-- A receiver report without blocks, which is long enough for an RTP header if four bytes of BYE follow.
abbrev report_bytes : Bytes
report_bytes = 0x80 ∷ 201 ∷ 0 ∷ 1 ∷ 0 ∷ 0 ∷ 0 ∷ 1 ∷ 0x80 ∷ 203 ∷ 0 ∷ 0 ∷ []

report_bytes_small : All IsByte report_bytes
report_bytes_small = (
  omega arith,
  (
    omega arith,
    (
      omega arith,
      (
        omega arith,
        (
          omega arith,
          (
            omega arith,
            (
              omega arith,
              (omega arith, (omega arith, (omega arith, (omega arith, (omega arith, tt))))),
            ),
          ),
        ),
      ),
    ),
  ),
)

-- An RTP packet of payload type 8, with the marker.
abbrev audio_bytes : Bytes
audio_bytes = 0x80 ∷ 0x88 ∷ 0 ∷ 1 ∷ 0 ∷ 0 ∷ 0 ∷ 1 ∷ 0 ∷ 0 ∷ 0 ∷ 7 ∷ []

audio_bytes_small : All IsByte audio_bytes
audio_bytes_small = (
  omega arith,
  (
    omega arith,
    (
      omega arith,
      (
        omega arith,
        (
          omega arith,
          (
            omega arith,
            (
              omega arith,
              (omega arith, (omega arith, (omega arith, (omega arith, (omega arith, tt))))),
            ),
          ),
        ),
      ),
    ),
  ),
)

looks_like_rtp-iff-LooksLikeRtp_example :
    ((looks_like_rtp report_bytes ≡ ok true []) ↔ LooksLikeRtp report_bytes)
    × ((b : Bool) × (looks_like_rtp report_bytes ≡ ok b []))
looks_like_rtp-iff-LooksLikeRtp_example =
    looks_like_rtp-iff-LooksLikeRtp report_bytes report_bytes_small

looks_like_rtcp-iff-LooksLikeRtcp_example :
    ((looks_like_rtcp report_bytes ≡ ok true []) ↔ LooksLikeRtcp report_bytes)
    × ((b : Bool) × (looks_like_rtcp report_bytes ≡ ok b []))
looks_like_rtcp-iff-LooksLikeRtcp_example =
    looks_like_rtcp-iff-LooksLikeRtcp report_bytes report_bytes_small

abbrev audio_packet : RtpPacket
audio_packet = record {
  version = 2;
  padding = false;
  extension = false;
  marker = true;
  payload_type = 8;
  sequence_number = 1;
  timestamp = 1;
  ssrc = 7;
  csrc = [];
  header_extension = none;
  payload = [];
  padding_size = 0;
  raw = audio_bytes;
}

audio_like_rtp : looks_like_rtp audio_bytes ≡ ok true []
audio_like_rtp = (looks_like_rtp-iff-LooksLikeRtp audio_bytes audio_bytes_small).0.1 (
  audio_packet,
  [],
  refl,
  record {
    bytes_eq = refl;
    raw_eq = refl;
    version_fits = omega arith;
    csrc_fits = omega arith;
    payload_type_fits = omega arith;
    sequence_number_fits = omega arith;
    timestamp_fits = omega arith;
    ssrc_fits = omega arith;
    csrc_words = tt;
    extension_ok = refl;
    padding_ok = (refl, refl);
  },
  inl (omega arith),
)

looks_like_rtp-looks_like_rtcp_example : looks_like_rtcp audio_bytes ≡ ok false []
looks_like_rtp-looks_like_rtcp_example =
    looks_like_rtp-looks_like_rtcp audio_bytes audio_bytes_small audio_like_rtp
