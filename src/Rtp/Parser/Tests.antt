-- ===== src/Rtp/Parser/Tests.antt =====
-- The parser on concrete buffers, and its theorems at them.
use rtpkit.Common.{ℕ, ◌<◌, ◌≡◌, ◌↔◌, refl, true, false, none, some, [], ◌∷◌, arith, length, All}
use rtpkit.Errors.{rtp_buffer_too_short, rtp_invalid_version, is_rtp_error}
use rtpkit.Outcome.{ok, err, version_mismatch, csrc_truncated}
use rtpkit.Wire.{Bytes, IsByte, byte_at, u16_at, u32_at, u32s_at}
use rtpkit.Rtp.{RtpPacket}
use rtpkit.Rtp.Layout.{IsImage}
use rtpkit.Rtp.Parser.{
  parse_fixed_header, check_version, fit_csrc, parse_csrc, cut_body, parse_extension_body,
  parse_extension, use_pad_count, parse_padding, parse_rest, parse, parse_rtp, parse_rtp_lenient,
}
use rtpkit.Rtp.Parser.Safety.{IsParsed}
use rtpkit.Rtp.Parser.Modes.{
  parse_rtp-parse_rtp_lenient, parse_rtp-IsRtpError, parse_rtp_lenient_raises, parse-IsParsed,
}
use rtpkit.Rtp.Parser.Sound.{parse_rtp-iff-IsImage}

-- One CSRC, an extension of one word, a payload of three bytes and two bytes of padding.
abbrev full : Bytes
full =
    0xb1 ∷ 0x88 ∷ 3 ∷ 0xe8 ∷ 0 ∷ 2 ∷ 0x71 ∷ 0 ∷ 0xde ∷ 0xad ∷ 0xbe ∷ 0xef ∷ 0 ∷ 0 ∷ 0 ∷ 7 ∷ 0xbe
    ∷ 0xde ∷ 0 ∷ 1 ∷ 0x10 ∷ 0xff ∷ 0 ∷ 0 ∷ 1 ∷ 2 ∷ 3 ∷ 0 ∷ 2 ∷ []

abbrev full_packet : RtpPacket
full_packet = record {
  version = 2;
  padding = true;
  extension = true;
  marker = true;
  payload_type = 8;
  sequence_number = 1000;
  timestamp = 160_000;
  ssrc = 0xdead_beef;
  csrc = 7 ∷ [];
  header_extension =
      some (record { profile = 0xbede; length_words = 1; body = 0x10 ∷ 0xff ∷ 0 ∷ 0 ∷ [] });
  payload = 1 ∷ 2 ∷ 3 ∷ [];
  padding_size = 2;
  raw = full;
}

parse_full : parse_rtp full ≡ ok full_packet []
unfolding parse_rtp parse parse_fixed_header check_version fit_csrc parse_csrc cut_body
    parse_extension_body parse_extension use_pad_count parse_padding parse_rest byte_at u16_at
    u32_at u32s_at
parse_full = refl

-- Version 1, two CSRCs declared and room for none.
abbrev odd : Bytes
odd = 0x42 ∷ 0 ∷ 0 ∷ 1 ∷ 0 ∷ 0 ∷ 0 ∷ 0 ∷ 0 ∷ 0 ∷ 0 ∷ 5 ∷ 9 ∷ []

abbrev odd_packet : RtpPacket
odd_packet = record {
  version = 1;
  padding = false;
  extension = false;
  marker = false;
  payload_type = 0;
  sequence_number = 1;
  timestamp = 0;
  ssrc = 5;
  csrc = [];
  header_extension = none;
  payload = 9 ∷ [];
  padding_size = 0;
  raw = odd;
}

parse_odd : parse_rtp odd ≡ err (rtp_invalid_version 1)
unfolding parse_rtp parse parse_fixed_header check_version parse_rest byte_at u16_at u32_at
parse_odd = refl

parse_lenient_odd :
    parse_rtp_lenient odd ≡ ok odd_packet (version_mismatch 1 ∷ csrc_truncated 0 ∷ [])
unfolding parse_rtp_lenient parse parse_fixed_header check_version fit_csrc parse_csrc
    parse_extension parse_padding parse_rest byte_at u16_at u32_at
parse_lenient_odd = refl

full-IsByte : All IsByte full
full-IsByte = omega arith

full-IsImage : IsImage full full_packet (0 ∷ 2 ∷ [])
full-IsImage = record {
  bytes_eq = refl;
  raw_eq = refl;
  version_fits = omega arith;
  csrc_fits = omega arith;
  payload_type_fits = omega arith;
  sequence_number_fits = omega arith;
  timestamp_fits = omega arith;
  ssrc_fits = omega arith;
  csrc_words = omega arith;
  extension_ok = (refl, refl, omega arith, omega arith);
  padding_ok = (0 ∷ [], refl, refl);
}

parse_rtp-iff-IsImage_example :
    (parse_rtp full ≡ ok full_packet [])
    ↔ ((full_packet.version ≡ 2) × ((pad : Bytes) × IsImage full full_packet pad))
parse_rtp-iff-IsImage_example = parse_rtp-iff-IsImage full full_packet full-IsByte

parse_rtp-parse_rtp_lenient_example :
    (parse_rtp full ≡ ok full_packet []) ↔ (parse_rtp_lenient full ≡ ok full_packet [])
parse_rtp-parse_rtp_lenient_example = parse_rtp-parse_rtp_lenient full full_packet

parse_rtp-IsRtpError_example : is_rtp_error (rtp_invalid_version 1) ≡ true
parse_rtp-IsRtpError_example = parse_rtp-IsRtpError odd (rtp_invalid_version 1) parse_odd

parse_rtp_lenient_raises_example :
    (parse_rtp_lenient (1 ∷ 2 ∷ []) ≡ err (rtp_buffer_too_short 12 2)) ↔ (
      (length {A = ℕ} (1 ∷ 2 ∷ []) < 12)
      × (rtp_buffer_too_short 12 2 ≡ rtp_buffer_too_short 12 (length {A = ℕ} (1 ∷ 2 ∷ []))))
parse_rtp_lenient_raises_example = parse_rtp_lenient_raises (1 ∷ 2 ∷ []) (rtp_buffer_too_short 12 2)

parse-IsParsed_example : IsParsed odd odd_packet
unfolding parse_rtp_lenient
parse-IsParsed_example = parse-IsParsed false odd parse_lenient_odd
