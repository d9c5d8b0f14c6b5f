-- ===== src/Rtp/Extension.antt =====
-- model/extension.py: the elements of an RFC 8285 header extension. A loop over `pos` runs over the bytes
-- from `pos` on; its fuel is their number, and each round takes at least one.
pub mod Parse
pub mod RoundTrip
pub mod Validation
pub mod Packet
mod Tests
use rtpkit.Common.{
  ℕ, zero, suc, ◌+◌, ◌-◌, ◌/◌, Bool, List, [], ◌∷◌, ◌++◌, not, ltb, ◌==◌, bit_and, bit_or, length,
  take, drop, if◌then◌else◌,
}
use rtpkit.Common.Bits.{shr, shl}
use rtpkit.Common.Int.{ℤ, pos, pos_part, in_range}
use rtpkit.Errors.{rtp_build_error, profile, id_field, data_field, out_of_fuel}
use rtpkit.Outcome.{Outcome, err, ◌>>=◌, ◌>>◌, pure, raise_if}
use rtpkit.Wire.{Bytes, zeros, align_gap}
use rtpkit.Rtp.{HeaderExtension}
use rtpkit.Rtp.Builder.{RtpBuilder, with_extension}

abbrev pub one_byte_magic : ℕ
one_byte_magic = 0xbede

abbrev pub two_byte_mask : ℕ
two_byte_mask = 0xfff0

abbrev pub two_byte_value : ℕ
two_byte_value = 0x1000

pub data ExtensionProfile : Type 0 where
  unknown one_byte two_byte : ExtensionProfile

pub classify_profile : ℕ → ExtensionProfile
classify_profile value =
    if value == one_byte_magic
    then one_byte
    else if bit_and value two_byte_mask == two_byte_value
    then two_byte
    else unknown

-- The method `HeaderExtension.classify`.
pub classify : HeaderExtension → ExtensionProfile
classify ext = classify_profile ext.profile

pub record ExtensionElement : Type 0 where
  pub id : ℤ
  pub body : Bytes

-- `_parse_one_byte`, from `pos` on.
pub one_byte_loop : ℕ → Bytes → Outcome (List ExtensionElement)
one_byte_loop fuel [] = pure []
one_byte_loop zero (byte ∷ rest) = err out_of_fuel
one_byte_loop (suc fuel) (byte ∷ rest) =
    let elem_id = bit_and (shr byte 4) 0x0f in
    let elem_len = bit_and byte 0x0f + 1 in
    let element : ExtensionElement = record { id = pos elem_id; body = take elem_len rest } in
    let skipped = one_byte_loop fuel rest in
    let more = one_byte_loop fuel (drop elem_len rest) in
    if byte == 0
    then skipped
    else if elem_id == 15
    then pure []
    else if ltb (length rest) elem_len
    then pure []
    else more >>= (λ elements. pure (element ∷ elements))

pub parse_one_byte : Bytes → Outcome (List ExtensionElement)
parse_one_byte bytes = one_byte_loop (length bytes) bytes

-- `_parse_two_byte`, from `pos` on: an element whose length byte is missing ends it.
pub two_byte_loop : ℕ → Bytes → Outcome (List ExtensionElement)
two_byte_loop fuel [] = pure []
two_byte_loop zero (byte ∷ rest) = err out_of_fuel
two_byte_loop (suc fuel) (byte ∷ []) = if byte == 0 then two_byte_loop fuel [] else pure []
two_byte_loop (suc fuel) (byte ∷ elem_len ∷ rest) =
    let element : ExtensionElement = record { id = pos byte; body = take elem_len rest } in
    let skipped = two_byte_loop fuel (elem_len ∷ rest) in
    let more = two_byte_loop fuel (drop elem_len rest) in
    if byte == 0
    then skipped
    else if ltb (length rest) elem_len
    then pure []
    else more >>= (λ elements. pure (element ∷ elements))

pub parse_two_byte : Bytes → Outcome (List ExtensionElement)
parse_two_byte bytes = two_byte_loop (length bytes) bytes

-- The dispatch on `ext.classify()`.
pub parse_elements_as : ExtensionProfile → Bytes → Outcome (List ExtensionElement)
parse_elements_as unknown bytes = pure []
parse_elements_as one_byte bytes = parse_one_byte bytes
parse_elements_as two_byte bytes = parse_two_byte bytes

pub parse_extension_elements : HeaderExtension → Outcome (List ExtensionElement)
parse_extension_elements ext = parse_elements_as (classify ext) ext.body

-- `_build_one_byte`; an id is shifted after it was found to be 1 to 14.
pub build_one_byte : List ExtensionElement → Outcome Bytes
build_one_byte [] = pure []
build_one_byte (e ∷ es) = do
  raise_if (not (in_range 1 14 e.id)) (rtp_build_error id_field)
  raise_if (not (in_range 1 16 (pos (length e.body)))) (rtp_build_error data_field)
  rest ← build_one_byte es
  pure (bit_or (shl (pos_part e.id) 4) (length e.body - 1) ∷ (e.body ++ rest))

-- `_build_two_byte`.
pub build_two_byte : List ExtensionElement → Outcome Bytes
build_two_byte [] = pure []
build_two_byte (e ∷ es) = do
  raise_if (not (in_range 1 255 e.id)) (rtp_build_error id_field)
  raise_if (ltb 255 (length e.body)) (rtp_build_error data_field)
  rest ← build_two_byte es
  pure (pos_part e.id ∷ length e.body ∷ (e.body ++ rest))

-- The end of `build_header_extension`: the body is padded to whole words.
pub pad_body : ℕ → Bytes → HeaderExtension
pad_body profile_value body =
    let padded : Bytes = body ++ zeros (align_gap (length body)) in
    record { profile = profile_value; length_words = length padded / 4; body = padded }

pub build_header_extension : List ExtensionElement → ExtensionProfile → Outcome HeaderExtension
build_header_extension es one_byte = do
  body ← build_one_byte es
  pure (pad_body one_byte_magic body)
build_header_extension es two_byte = do
  body ← build_two_byte es
  pure (pad_body two_byte_value body)
build_header_extension es unknown = err (rtp_build_error profile)

-- `RtpBuilder.with_extension_elements`.
pub with_extension_elements :
    List ExtensionElement → ExtensionProfile → RtpBuilder → Outcome RtpBuilder
with_extension_elements es kind b = do
  ext ← build_header_extension es kind
  pure (with_extension (pos ext.profile) ext.body b)
