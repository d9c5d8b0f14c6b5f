-- ===== src/Rtp/Builder.antt =====
-- builder/rtp_builder.py: the class `RtpBuilder`. Its fields are Python ints, which may be negative or
-- too wide until `_validate` has passed; each fluent method returns the changed builder.
pub mod Validation
pub mod Image
pub mod RoundTrip
mod Tests
use rtpkit.Common.{
  ℕ, ◌+◌, ◌-◌, ◌/◌, ◌%◌, Bool, true, false, Option, none, some, List, [], ◌∷◌, ◌++◌, not, ◌&&◌, ltb,
  ◌==◌, truthy, int_of_bool, bit_and, bit_or, length, if◌then◌else◌,
}
use rtpkit.Common.Bits.{shl}
use rtpkit.Common.Int.{ℤ, pos, pos_part, bit_and_ℤ, ltb_ℤ, in_range}
use rtpkit.Errors.{
  rtp_build_error, version, payload_type, sequence_number, timestamp, ssrc, csrc, extension_profile,
  extension_data, padding,
}
use rtpkit.Outcome.{Outcome, ◌>>=◌, ◌>>◌, pure, raise_if}
use rtpkit.Wire.{Bytes, pack_u8, pack_u16, pack_u32, pack_u32s, zeros}
use rtpkit.Rtp.{RtpPacket}
use rtpkit.Rtp.Parser.{parse_rtp}

pub record RtpBuilder : Type 0 where
  pub version : ℤ
  pub padding : ℤ
  pub marker : Bool
  pub payload_type : ℤ
  pub seq : ℤ
  pub timestamp : ℤ
  pub ssrc : ℤ
  pub csrc : List ℤ
  pub ext_profile : Option ℤ
  pub ext_data : Bytes
  pub payload : Bytes

-- `RtpBuilder()`.
unfoldable pub new_builder : RtpBuilder
new_builder = record {
  version = pos 2;
  padding = pos 0;
  marker = false;
  payload_type = pos 0;
  seq = pos 0;
  timestamp = pos 0;
  ssrc = pos 0;
  csrc = [];
  ext_profile = none;
  ext_data = [];
  payload = [];
}

unfoldable pub with_version : ℤ → RtpBuilder → RtpBuilder
with_version v b = record b { version = v }

unfoldable pub with_marker : Bool → RtpBuilder → RtpBuilder
with_marker m b = record b { marker = m }

unfoldable pub with_payload_type : ℤ → RtpBuilder → RtpBuilder
with_payload_type t b = record b { payload_type = t }

unfoldable pub with_sequence_number : ℤ → RtpBuilder → RtpBuilder
with_sequence_number s b = record b { seq = s }

unfoldable pub with_timestamp : ℤ → RtpBuilder → RtpBuilder
with_timestamp t b = record b { timestamp = t }

unfoldable pub with_ssrc : ℤ → RtpBuilder → RtpBuilder
with_ssrc s b = record b { ssrc = s }

unfoldable pub with_csrc : List ℤ → RtpBuilder → RtpBuilder
with_csrc cs b = record b { csrc = cs }

unfoldable pub with_extension : ℤ → Bytes → RtpBuilder → RtpBuilder
with_extension profile body b = record b { ext_profile = some profile; ext_data = body }

unfoldable pub with_payload : Bytes → RtpBuilder → RtpBuilder
with_payload bytes b = record b { payload = bytes }

unfoldable pub with_padding : ℤ → RtpBuilder → RtpBuilder
with_padding count b = record b { padding = count }

abbrev max_csrc : ℕ
max_csrc = 15

abbrev u16_max : ℕ
u16_max = 0xffff

abbrev u32_max : ℕ
u32_max = 0xffff_ffff

-- The loop over `_csrc`.
unfoldable pub validate_csrc : List ℤ → Outcome (Unit {0})
validate_csrc [] = pure tt
validate_csrc (c ∷ cs) = do
  raise_if (not (in_range 0 u32_max c)) (rtp_build_error csrc)
  validate_csrc cs

-- The checks on the extension, where there is one.
unfoldable pub validate_extension : Option ℤ → Bytes → Outcome (Unit {0})
validate_extension none body = pure tt
validate_extension (some profile) body = do
  raise_if (not (in_range 0 u16_max profile)) (rtp_build_error extension_profile)
  raise_if (truthy (length body % 4)) (rtp_build_error extension_data)
  raise_if (ltb u16_max (length body / 4)) (rtp_build_error extension_data)

-- `bool(z)` of an int.
unfoldable pub nonzero : ℤ → Bool
nonzero (pos n) = truthy n
nonzero _ = true

-- `_validate`.
unfoldable pub validate : RtpBuilder → Outcome (Unit {0})
validate b = do
  raise_if (not (in_range 0 3 b.version)) (rtp_build_error version)
  raise_if (not (in_range 0 127 b.payload_type)) (rtp_build_error payload_type)
  raise_if (not (in_range 0 u16_max b.seq)) (rtp_build_error sequence_number)
  raise_if (not (in_range 0 u32_max b.timestamp)) (rtp_build_error timestamp)
  raise_if (not (in_range 0 u32_max b.ssrc)) (rtp_build_error ssrc)
  raise_if (ltb max_csrc (length b.csrc)) (rtp_build_error csrc)
  validate_csrc b.csrc
  validate_extension b.ext_profile b.ext_data
  raise_if (nonzero b.padding && not (in_range 1 255 b.padding)) (rtp_build_error padding)

abbrev pub is_some : Option ℤ → Bool
is_some none = false
is_some (some z) = true

unfoldable pub header_byte0 : ℤ → Bool → Bool → ℕ → ℕ
header_byte0 v has_pad has_ext cc =
    bit_or
      (bit_or (bit_or (shl (bit_and_ℤ v 0x03) 6) (shl (int_of_bool has_pad) 5))
        (shl (int_of_bool has_ext) 4))
      (bit_and cc 0x0f)

unfoldable pub header_byte1 : Bool → ℤ → ℕ
header_byte1 m t = bit_or (shl (int_of_bool m) 7) (bit_and_ℤ t 0x7f)

-- `struct.pack("!BBHII", byte0, byte1, self._seq, self._timestamp, self._ssrc)`.
unfoldable pub pack_header : ℕ → ℕ → ℤ → ℤ → ℤ → Outcome Bytes
pack_header byte0 byte1 seq ts source = do
  b0 ← pack_u8 (pos byte0)
  b1 ← pack_u8 (pos byte1)
  s ← pack_u16 seq
  t ← pack_u32 ts
  c ← pack_u32 source
  pure (b0 ++ (b1 ++ (s ++ (t ++ c))))

-- `if cc: parts.append(struct.pack(f"!{cc}I", *self._csrc))`.
unfoldable pub pack_csrc : List ℤ → Outcome Bytes
pack_csrc cs = if truthy (length cs) then pack_u32s cs else pure []

unfoldable pub pack_extension : Option ℤ → Bytes → Outcome Bytes
pack_extension none body = pure []
pack_extension (some profile) body = do
  p ← pack_u16 profile
  n ← pack_u16 (pos (length body / 4))
  pure (p ++ (n ++ body))

unfoldable pub pack_padding : ℤ → Outcome Bytes
pack_padding count =
    if ltb_ℤ (pos 0) count
    then pack_u8 count >>= (λ last. pure (zeros (pos_part count - 1) ++ last))
    else pure []

unfoldable pub build : RtpBuilder → Outcome Bytes
build b = do
  validate b
  let cc = length b.csrc
  let has_ext = is_some b.ext_profile
  let has_pad = ltb_ℤ (pos 0) b.padding
  head ←
      pack_header (header_byte0 b.version has_pad has_ext cc) (header_byte1 b.marker b.payload_type)
        b.seq b.timestamp b.ssrc
  csrc_part ← pack_csrc b.csrc
  ext_part ← pack_extension b.ext_profile b.ext_data
  pad_part ← pack_padding b.padding
  pure (head ++ (csrc_part ++ (ext_part ++ (b.payload ++ pad_part))))

pub build_packet : RtpBuilder → Outcome RtpPacket
build_packet b = build b >>= parse_rtp
