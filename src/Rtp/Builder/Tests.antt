-- ===== src/Rtp/Builder/Tests.antt =====
-- The builder on concrete fields, and its theorems at them.
use rtpkit.Common.{◌≡◌, ◌↔◌, ◌⊎◌, refl, true, [], ◌∷◌, arith}
use rtpkit.Common.Int.{pos, negsuc}
use rtpkit.Errors.{Field, rtp_build_error, sequence_number}
use rtpkit.Outcome.{ok, err, ◌>>=◌, pure}
use rtpkit.Wire.{Bytes, pack_u8, pack_u16, pack_u32, pack_u32s}
use rtpkit.Rtp.Layout.{image}
use rtpkit.Rtp.Parser.{parse, check_version}
use rtpkit.Rtp.Builder.{
  RtpBuilder, new_builder, with_marker, with_payload_type, with_sequence_number, with_timestamp,
  with_ssrc, with_csrc, with_extension, with_payload, with_padding, validate, validate_csrc,
  validate_extension, nonzero, header_byte0, header_byte1, pack_header, pack_csrc, pack_extension,
  pack_padding, build, build_packet,
}
use rtpkit.Rtp.Builder.Validation.{IsValid, validate-iff-IsValid}
use rtpkit.Rtp.Builder.Image.{packet_of, padding_of}
use rtpkit.Rtp.Builder.RoundTrip.{build_total, parse-build, Judged, build_packet_cases}

abbrev full : RtpBuilder
unfolding new_builder with_marker with_payload_type with_sequence_number with_timestamp with_ssrc
    with_csrc with_extension with_payload with_padding
full = with_padding (pos 2) (
    with_payload (1 ∷ 2 ∷ 3 ∷ []) (
      with_extension (pos 0xbede) (0x10 ∷ 0xff ∷ 0 ∷ 0 ∷ []) (
        with_csrc (pos 7 ∷ []) (
          with_ssrc (pos 0xdead_beef) (
            with_timestamp (pos 160_000) (
              with_sequence_number (pos 1000)
                (with_payload_type (pos 8) (with_marker true new_builder))))))))

abbrev full_bytes : Bytes
full_bytes =
    0xb1 ∷ 0x88 ∷ 3 ∷ 0xe8 ∷ 0 ∷ 2 ∷ 0x71 ∷ 0 ∷ 0xde ∷ 0xad ∷ 0xbe ∷ 0xef ∷ 0 ∷ 0 ∷ 0 ∷ 7 ∷ 0xbe
    ∷ 0xde ∷ 0 ∷ 1 ∷ 0x10 ∷ 0xff ∷ 0 ∷ 0 ∷ 1 ∷ 2 ∷ 3 ∷ 0 ∷ 2 ∷ []

build-full : build full ≡ ok full_bytes []
unfolding full new_builder with_marker with_payload_type with_sequence_number with_timestamp
    with_ssrc with_csrc with_extension with_payload with_padding validate validate_csrc
    validate_extension nonzero header_byte0 header_byte1 pack_header pack_csrc pack_extension
    pack_padding build pack_u8 pack_u16 pack_u32 pack_u32s
build-full = refl

-- Python's -1 as a sequence number is refused.
build_negative :
    build (with_sequence_number (negsuc 0) new_builder) ≡ err (rtp_build_error sequence_number)
unfolding build validate with_sequence_number new_builder
build_negative = refl

full-IsValid : IsValid full
unfolding new_builder with_marker with_payload_type with_sequence_number with_timestamp with_ssrc
    with_csrc with_extension with_payload with_padding
full-IsValid = record {
  version_ok = (2, refl, omega arith, omega arith);
  payload_type_ok = (8, refl, omega arith, omega arith);
  seq_ok = (1000, refl, omega arith, omega arith);
  timestamp_ok = (160_000, refl, omega arith, omega arith);
  ssrc_ok = (0xdead_beef, refl, omega arith, omega arith);
  csrc_count_ok = omega arith;
  csrc_ok = ((7, refl, omega arith, omega arith), tt);
  extension_ok = ((0xbede, refl, omega arith, omega arith), refl, omega arith);
  padding_ok = (2, refl, omega arith, omega arith);
}

validate-iff-IsValid_example : (validate full ≡ ok tt []) ↔ IsValid full
validate-iff-IsValid_example = validate-iff-IsValid full

build_total_example :
    (IsValid full × (build full ≡ ok (image (packet_of full []) (padding_of full.padding)) []))
    ⊎ ((¬ IsValid full) × ((f : Field) × (build full ≡ err (rtp_build_error f))))
build_total_example = build_total full

parse-build_example :
    parse true full_bytes ≡ (check_version true 2 >>= λ _. pure (packet_of full full_bytes))
unfolding new_builder with_marker with_payload_type with_sequence_number with_timestamp with_ssrc
    with_csrc with_extension with_payload with_padding
parse-build_example = parse-build true full build-full

build_packet_cases_example :
    (IsValid full × Judged full)
    ⊎ ((¬ IsValid full) × ((f : Field) × (build_packet full ≡ err (rtp_build_error f))))
build_packet_cases_example = build_packet_cases full
