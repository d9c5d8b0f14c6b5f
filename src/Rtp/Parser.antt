-- ===== src/Rtp/Parser.antt =====
-- parser/rtp_parser.py: `_parse`, section by section, and its two entry points. Every read of the
-- buffer may raise here as it does in Python; `strict` chooses between a raise and a warning.
pub mod Safety
pub mod Modes
pub mod Complete
pub mod Sound
mod Tests
use rtpkit.Common.{
  ℕ, ◌+◌, ◌-◌, ◌*◌, ◌/◌, Bool, true, false, Option, none, some, List, [], not, ltb, ◌==◌, truthy,
  bit_and, length, if◌then◌else◌,
}
use rtpkit.Common.Bits.{shr}
use rtpkit.Errors.{
  rtp_buffer_too_short, rtp_invalid_version, rtp_padding_error, rtp_extension_error,
  header_truncated, data_truncated,
}
use rtpkit.Outcome.{
  Outcome, ◌>>=◌, ◌>>◌, pure, raise_or_warn, err, version_mismatch, csrc_truncated,
  extension_header_truncated, extension_data_truncated, padding_without_bytes, padding_zero,
  padding_exceeds,
}
use rtpkit.Wire.{Bytes, byte_at, slice, u16_at, u32_at, u32s_at}
use rtpkit.Rtp.{HeaderExtension, RtpPacket}

abbrev pub fixed_header_size : ℕ
fixed_header_size = 12

pub record FixedHeader : Type 0 where
  pub version : ℕ
  pub padding_flag : Bool
  pub extension_flag : Bool
  pub cc : ℕ
  pub marker : Bool
  pub payload_type : ℕ
  pub seq : ℕ
  pub timestamp : ℕ
  pub ssrc : ℕ

pub parse_fixed_header : Bytes → Outcome FixedHeader
parse_fixed_header bytes = do
  first ← byte_at bytes 0
  second ← byte_at bytes 1
  seq ← u16_at bytes 2
  timestamp ← u32_at bytes 4
  ssrc ← u32_at bytes 8
  pure (record {
    version = bit_and (shr first 6) 0x03;
    padding_flag = truthy (bit_and (shr first 5) 0x01);
    extension_flag = truthy (bit_and (shr first 4) 0x01);
    cc = bit_and first 0x0f;
    marker = truthy (bit_and (shr second 7) 0x01);
    payload_type = bit_and second 0x7f;
    seq = seq;
    timestamp = timestamp;
    ssrc = ssrc;
  })

pub check_version : Bool → ℕ → Outcome (Unit {0})
check_version strict version =
    if not (version == 2)
    then raise_or_warn strict (rtp_invalid_version version) (version_mismatch version) tt
    else pure tt

-- The CSRC count that fits the buffer.
pub fit_csrc : Bool → ℕ → ℕ → Outcome ℕ
fit_csrc strict buf_len cc =
    let csrc_end = fixed_header_size + cc * 4 in
    let fitting = (buf_len - fixed_header_size) / 4 in
    if ltb buf_len csrc_end
    then raise_or_warn strict (rtp_buffer_too_short csrc_end buf_len) (csrc_truncated fitting)
        fitting
    else pure cc

-- The CSRC list and `csrc_end`.
pub parse_csrc : Bool → Bytes → ℕ → Outcome (List ℕ × ℕ)
parse_csrc strict bytes declared = do
  cc ← fit_csrc strict (length bytes) declared
  csrc ← (if truthy cc then u32s_at cc bytes fixed_header_size else pure [])
  pure (csrc, fixed_header_size + cc * 4)

-- Whether the declared body fits, and then its bytes.
pub cut_body : Bool → Bytes → ℕ → ℕ → ℕ → ℕ → Outcome (Option HeaderExtension × ℕ)
cut_body strict bytes ext_profile ext_word_len available offset =
    let ext_data_len = ext_word_len * 4 in
    let ext_data_end = offset + 4 + ext_data_len in
    if ltb (length bytes) ext_data_end
    then raise_or_warn strict (rtp_extension_error (data_truncated ext_data_len available))
        (extension_data_truncated ext_data_len available) (none, offset)
    else pure (
      some (record {
        profile = ext_profile;
        length_words = ext_word_len;
        body = slice bytes (offset + 4) ext_data_end;
      }),
      ext_data_end,
    )

-- An extension whose header fits, and the offset behind it.
pub parse_extension_body : Bool → Bytes → ℕ → Outcome (Option HeaderExtension × ℕ)
parse_extension_body strict bytes offset = do
  ext_profile ← u16_at bytes offset
  ext_word_len ← u16_at bytes (offset + 2)
  cut_body strict bytes ext_profile ext_word_len (length bytes - (offset + 4)) offset

pub parse_extension : Bool → Bytes → Bool → ℕ → Outcome (Option HeaderExtension × ℕ)
parse_extension strict bytes extension_flag offset =
    if extension_flag
    then if ltb (length bytes) (offset + 4)
      then raise_or_warn strict (rtp_extension_error (header_truncated (offset + 4) (length bytes)))
          extension_header_truncated (none, offset)
      else parse_extension_body strict bytes offset
    else pure (none, offset)

-- `padding_size` and `payload_end`, from the count in the last byte.
pub use_pad_count : Bool → ℕ → ℕ → ℕ → Outcome (ℕ × ℕ)
use_pad_count strict buf_len available pad_count =
    if pad_count == 0
    then raise_or_warn strict (rtp_padding_error 0 available) padding_zero (0, buf_len)
    else if ltb available pad_count
    then raise_or_warn strict (rtp_padding_error pad_count available)
        (padding_exceeds pad_count available) (0, buf_len)
    else pure (pad_count, buf_len - pad_count)

pub parse_padding : Bool → Bytes → Bool → ℕ → Outcome (ℕ × ℕ)
parse_padding strict bytes padding_flag offset =
    let buf_len = length bytes in
    let available = buf_len - offset in
    if padding_flag
    then if ltb available 1
      then raise_or_warn strict (rtp_padding_error 0 available) padding_without_bytes (0, buf_len)
      else byte_at bytes (buf_len - 1) >>= use_pad_count strict buf_len available
    else pure (0, buf_len)

-- What follows the fixed header.
pub parse_rest : Bool → Bytes → FixedHeader → Outcome RtpPacket
parse_rest strict bytes header = do
  check_version strict header.version
  (csrc, csrc_end) ← parse_csrc strict bytes header.cc
  (header_ext, offset) ← parse_extension strict bytes header.extension_flag csrc_end
  (padding_size, payload_end) ← parse_padding strict bytes header.padding_flag offset
  pure (record {
    version = header.version;
    padding = header.padding_flag;
    extension = header.extension_flag;
    marker = header.marker;
    payload_type = header.payload_type;
    sequence_number = header.seq;
    timestamp = header.timestamp;
    ssrc = header.ssrc;
    csrc = csrc;
    header_extension = header_ext;
    payload = slice bytes offset payload_end;
    padding_size = padding_size;
    raw = bytes;
  })

-- `_parse`.
pub parse : Bool → Bytes → Outcome RtpPacket
parse strict bytes =
    if ltb (length bytes) fixed_header_size
    then err (rtp_buffer_too_short fixed_header_size (length bytes))
    else parse_fixed_header bytes >>= parse_rest strict bytes

unfoldable pub parse_rtp : Bytes → Outcome RtpPacket
parse_rtp = parse true

unfoldable pub parse_rtp_lenient : Bytes → Outcome RtpPacket
parse_rtp_lenient = parse false
