-- ===== src/Rtp/Parser/Complete.antt =====
-- `parse` reads back every packet from its image, in both modes.
mod Header
mod Sections
use rtpkit.Common.{
  ◌==◌, false, ℕ, ◌+◌, ◌-◌, ◌*◌, ◌/◌, ◌^◌, ◌%◌, ◌≤◌, ◌<◌, ◌≡◌, refl, sym, ap, ◌∙◌, Bool, true,
  false, Option, none, some, List, [], ◌∷◌, ◌++◌, arith, length, int_of_bool, truthy, bit_and,
  ge→ltb, length-append, append_assoc, suc, truthy-suc, if◌then◌else◌,
}
use rtpkit.Common.Bits.{bit_and-mask, shr}
use rtpkit.Errors.{rtp_invalid_version}
use rtpkit.Outcome.{err, Outcome, ok, ◌>>=◌, pure}
use rtpkit.Wire.{Bytes, byte_at, u16_at, u32_at, u32s_at, slice, split_u16}
use rtpkit.Wire.Write.{
  words, length-words, join-split_u16, join-split_u32, byte_at-append, u16_at-append,
  u32s_at-append, slice-append, u16_at-behind, slice-behind,
}
use rtpkit.Rtp.{HeaderExtension, RtpPacket, extension_size}
use rtpkit.Rtp.Parser.{
  FixedHeader, parse_fixed_header, check_version, fit_csrc, parse_csrc, cut_body,
  parse_extension_body, parse_extension, use_pad_count, parse_padding, parse_rest, parse,
}
use rtpkit.Rtp.Layout.{
  header_bytes, extension_bytes, image, IsPadding, IsExtension, IsImage, length-pad,
  length-extension_bytes,
}
use Header.{
  int_of_bool-le, truthy-int_of_bool, header_of, first, first-version, first-padding,
  first-extension, first-cc, second-marker, second-payload_type, parse_fixed_header-image,
  parse_csrc-image,
}
use Sections.{
  buffer, fits, cut_body-image, parse_extension_body-image, parse_extension-image,
  use_pad_count-image, padded, length-padded, last_byte, parse_padding-padded, parse_padding-image,
}

module _ (strict : Bool) (p : RtpPacket) (pad : Bytes)
    (extension_ok : IsExtension p.extension p.header_extension)
    (padding_ok : IsPadding p.padding p.padding_size pad) where
  abbrev front : Bytes
  front = header_bytes p ++ (words p.csrc ++ extension_bytes p.header_extension)

  abbrev offset : ℕ
  offset = 12 + length p.csrc * 4 + extension_size p.header_extension

  length-front : offset ≡ length front
  length-front = omega (
    arith,
    length-append (words p.csrc) (extension_bytes p.header_extension),
    length-words p.csrc,
    length-extension_bytes p.extension p.header_extension extension_ok,
  )

  regroup_front : image p pad ≡ front ++ (p.payload ++ pad)
  regroup_front = simp append_assoc

  extension_read :
      parse_extension strict (image p pad) p.extension (12 + length p.csrc * 4)
      ≡ ok (p.header_extension, offset) []
  extension_read =
      ap (λ (bytes : Bytes). parse_extension strict bytes p.extension (12 + length p.csrc * 4))
        (sym (append_assoc (header_bytes p) (words p.csrc) _))
      ∙ parse_extension-image strict (header_bytes p ++ words p.csrc) (p.payload ++ pad) _
          p.extension p.header_extension (omega (arith, length-words p.csrc)) extension_ok

  -- Over any buffer, since `rw` would rewrite inside the image.
  padding_read_of :
      (buffer : Bytes)
      → buffer ≡ front ++ (p.payload ++ pad)
      → parse_padding strict buffer p.padding offset
        ≡ ok (p.padding_size, length buffer - p.padding_size) []
  padding_read_of buffer e = rw e (
      parse_padding-image strict front p.payload pad offset p.padding_size p.padding length-front
        padding_ok)

  payload_read_of :
      (buffer : Bytes)
      → buffer ≡ front ++ (p.payload ++ pad)
      → slice buffer offset (length buffer - p.padding_size) ≡ p.payload
  payload_read_of buffer e = rw e (slice-append offset front length-front _ p.payload pad total)
    where
      total : length (front ++ (p.payload ++ pad)) - p.padding_size ≡ offset + length p.payload
      total = omega (
        arith,
        length-front,
        length-append front (p.payload ++ pad),
        length-append p.payload pad,
        length-pad p.padding p.padding_size pad padding_ok,
      )

  parse_rest-image :
      p.raw ≡ image p pad
      → parse_rest strict (image p pad) (header_of p)
        ≡ (check_version strict p.version >>= λ _. pure p)
  unfolding parse_rest
  parse_rest-image raw_eq =
      rw
        (
          parse_csrc-image strict (header_bytes p)
              (extension_bytes p.header_extension ++ (p.payload ++ pad)) p.csrc refl,
          extension_read,
          padding_read_of (image p pad) regroup_front,
        )
        λ i. check_version strict p.version >>= λ _.
          pure (record p {
            payload = payload_read_of (image p pad) regroup_front i;
            raw = sym raw_eq i;
          })

-- The image of a packet is parsed back, in both modes: but for the version check the result is the
-- packet, with no warning.
pub parse-image :
    (strict : Bool) {bytes : Bytes} {p : RtpPacket} {pad : Bytes}
    → IsImage bytes p pad
    → parse strict bytes ≡ (check_version strict p.version >>= λ _. pure p)
unfolding parse
parse-image strict {bytes} {p} {pad} h = rw h.bytes_eq (
    rw
      (
        ge→ltb (length (image p pad)) 12 (omega arith),
        parse_fixed_header-image p _ h.version_fits h.csrc_fits h.payload_type_fits,
      )
      (parse_rest-image strict p pad h.extension_ok h.padding_ok (h.raw_eq ∙ h.bytes_eq)))

pub check_version_two : (strict : Bool) → check_version strict 2 ≡ pure tt
unfolding check_version
check_version_two strict = refl

pub check_version_other :
    (v : ℕ) → (v == 2) ≡ false → check_version true v ≡ err (rtp_invalid_version v)
unfolding check_version
check_version_other v h = rw h refl
