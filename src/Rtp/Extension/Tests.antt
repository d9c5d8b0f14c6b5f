-- ===== src/Rtp/Extension/Tests.antt =====
-- Runs of the element parser and builder, and the witnesses of their theorems.
use rtpkit.Common.{false, some, ◌≡◌, ◌↔◌, refl, List, [], ◌∷◌, arith, length, ◌*◌}
use rtpkit.Common.Int.{pos}
use rtpkit.Errors.{Exception, rtp_build_error, id_field, data_field}
use rtpkit.Outcome.{ok, err}
use rtpkit.Outcome.Laws.{Ensures}
use rtpkit.Wire.{Bytes, pack_u8, pack_u16, pack_u32, pack_u32s}
use rtpkit.Rtp.Builder.{
  RtpBuilder, new_builder, with_extension, validate, validate_csrc, validate_extension, nonzero,
  header_byte0, header_byte1, pack_header, pack_csrc, pack_extension, pack_padding, build,
  build_packet,
}
use rtpkit.Rtp.{RtpPacket, HeaderExtension}
use rtpkit.Rtp.Builder.Validation.{IsBuildError}
use rtpkit.Rtp.Extension.{
  ExtensionElement, one_byte, two_byte, classify, classify_profile, one_byte_loop, parse_one_byte,
  parse_elements_as, parse_extension_elements, build_one_byte, build_two_byte, pad_body,
  build_header_extension, with_extension_elements,
}
use rtpkit.Rtp.Extension.Packet.{build_packet-with_extension_elements}
use rtpkit.Rtp.Extension.Parse.{ElementsFit, parse_extension_elements-ElementsFit}
use rtpkit.Rtp.Extension.RoundTrip.{parse_extension_elements-build_header_extension}
use rtpkit.Rtp.Extension.Validation.{CanCarryAll, build_header_extension-iff-CanCarryAll}

abbrev two : List ExtensionElement
two = record { id = pos 1; body = 10 ∷ [] } ∷ record { id = pos 14; body = 1 ∷ 2 ∷ 3 ∷ [] } ∷ []

abbrev two_built : HeaderExtension
two_built = record {
  profile = 0xbede;
  length_words = 2;
  body = 0x10 ∷ 10 ∷ 0xe2 ∷ 1 ∷ 2 ∷ 3 ∷ 0 ∷ 0 ∷ [];
}

two-built : build_header_extension two one_byte ≡ ok two_built []
unfolding build_header_extension build_one_byte pad_body
two-built = refl

two_byte_built :
    build_header_extension (record { id = pos 200; body = [] } ∷ []) two_byte
    ≡ ok (record { profile = 0x1000; length_words = 1; body = 200 ∷ 0 ∷ 0 ∷ 0 ∷ [] }) []
unfolding build_header_extension build_two_byte pad_body
two_byte_built = refl

-- The id 15 ends a one-byte extension, and a body of no bytes does not fit it.
id_fifteen :
    build_header_extension (record { id = pos 15; body = 1 ∷ [] } ∷ []) one_byte
    ≡ err (rtp_build_error id_field)
unfolding build_header_extension build_one_byte
id_fifteen = refl

empty_body :
    build_header_extension (record { id = pos 1; body = [] } ∷ []) one_byte
    ≡ err (rtp_build_error data_field)
unfolding build_header_extension build_one_byte
empty_body = refl

-- A byte 0x01 has the id 0 and the length 2: the parser returns it as an element.
id_zero :
    parse_extension_elements
      (record { profile = 0xbede; length_words = 1; body = 1 ∷ 7 ∷ 8 ∷ 0 ∷ [] })
    ≡ ok (record { id = pos 0; body = 7 ∷ 8 ∷ [] } ∷ []) []
unfolding parse_extension_elements parse_elements_as classify classify_profile parse_one_byte
    one_byte_loop
id_zero = refl

parse_extension_elements-ElementsFit_example :
    Ensures
      (λ (_ : Exception). ⊥)
      (ElementsFit (classify two_built) (length two_built.body))
      (parse_extension_elements two_built)
parse_extension_elements-ElementsFit_example =
    parse_extension_elements-ElementsFit two_built (omega arith)

parse_extension_elements-build_header_extension_example :
    (parse_extension_elements two_built ≡ ok two [])
    × (two_built.length_words * 4 ≡ length two_built.body)
parse_extension_elements-build_header_extension_example =
    parse_extension_elements-build_header_extension two one_byte two-built

build_header_extension-iff-CanCarryAll_example :
    (((ext : HeaderExtension) × (build_header_extension two one_byte ≡ ok ext []))
      ↔ CanCarryAll one_byte two)
    × ((e : Exception) → build_header_extension two one_byte ≡ err e → IsBuildError e)
build_header_extension-iff-CanCarryAll_example = build_header_extension-iff-CanCarryAll two one_byte

-- A builder with its defaults, and the packet of the two elements.
abbrev two_set : RtpBuilder
two_set = record {
  version = pos 2;
  padding = pos 0;
  marker = false;
  payload_type = pos 0;
  seq = pos 0;
  timestamp = pos 0;
  ssrc = pos 0;
  csrc = [];
  ext_profile = some (pos 0xbede);
  ext_data = two_built.body;
  payload = [];
}

two-set : with_extension_elements two one_byte new_builder ≡ ok two_set []
unfolding with_extension_elements with_extension new_builder build_header_extension build_one_byte
    pad_body
two-set = refl

abbrev two_bytes : Bytes
two_bytes = 0x90 ∷ 0 ∷ 0 ∷ 0 ∷ 0 ∷ 0 ∷ 0 ∷ 0 ∷ 0 ∷ 0 ∷ 0 ∷ 0 ∷ 0xbe ∷ 0xde ∷ 0 ∷ 2 ∷ two_built.body

two_set-build : build two_set ≡ ok two_bytes []
unfolding build validate validate_csrc validate_extension nonzero header_byte0 header_byte1
    pack_header pack_csrc pack_extension pack_padding pack_u8 pack_u16 pack_u32 pack_u32s
two_set-build = refl

new_builder-version : new_builder.version ≡ pos 2
unfolding new_builder
new_builder-version = refl

build_packet-with_extension_elements_example :
    (p : RtpPacket) × (ext : HeaderExtension) × (build_packet two_set ≡ ok p [])
    × (p.header_extension ≡ some ext)
    × (parse_extension_elements ext ≡ ok two [])
build_packet-with_extension_elements_example =
    build_packet-with_extension_elements two one_byte new_builder two-set new_builder-version
      two_set-build
