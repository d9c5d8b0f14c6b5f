-- ===== src/Rtp/Layout.antt =====
-- The RTP packet of RFC 3550 as a sequence of bytes, independent of the parser and the builder: fixed
-- header, CSRC list, header extension, payload, padding.
use rtpkit.Common.{
  ℕ, ◌+◌, ◌*◌, ◌^◌, ◌<◌, ◌≡◌, Bool, true, false, Option, none, some, [], ◌∷◌, ◌++◌, int_of_bool,
  length, length-append, refl, ap, arith,
}
use rtpkit.Wire.{Bytes, split_u16, split_u32}
use rtpkit.Wire.Write.{words, AreU32}
use rtpkit.Rtp.{HeaderExtension, RtpPacket, extension_size}

abbrev pub header_bytes : RtpPacket → Bytes
header_bytes p =
    (p.version * 64 + int_of_bool p.padding * 32 + int_of_bool p.extension * 16 + length p.csrc)
    ∷ (int_of_bool p.marker * 128 + p.payload_type)
    ∷ (split_u16 p.sequence_number ++ (split_u32 p.timestamp ++ split_u32 p.ssrc))

abbrev pub extension_bytes : Option HeaderExtension → Bytes
extension_bytes none = []
extension_bytes (some ext) = split_u16 ext.profile ++ (split_u16 ext.length_words ++ ext.body)

abbrev pub image : RtpPacket → Bytes → Bytes
image p pad =
    header_bytes p ++ (words p.csrc ++ (extension_bytes p.header_extension ++ (p.payload ++ pad)))

-- Padding ends in its own length; without the padding bit there is none.
abbrev pub IsPadding : Bool → ℕ → Bytes → Type 0
IsPadding false size pad = (size ≡ 0) × (pad ≡ [])
IsPadding true size pad = (fill : Bytes) × (pad ≡ fill ++ (size ∷ [])) × (length fill + 1 ≡ size)

-- The extension bit tells whether there is an extension, and the body has its declared length.
abbrev pub IsExtension : Bool → Option HeaderExtension → Type 0
IsExtension flag none = flag ≡ false
IsExtension flag (some ext) =
    (flag ≡ true)
    × (length ext.body ≡ ext.length_words * 4)
    × (ext.profile < 2 ^ 16)
    × (ext.length_words < 2 ^ 16)

pub record IsImage (bytes : Bytes) (p : RtpPacket) (pad : Bytes) : Type 0 where
  pub bytes_eq : bytes ≡ image p pad
  pub raw_eq : p.raw ≡ bytes
  pub version_fits : p.version < 4
  pub csrc_fits : length p.csrc < 16
  pub payload_type_fits : p.payload_type < 128
  pub sequence_number_fits : p.sequence_number < 2 ^ 16
  pub timestamp_fits : p.timestamp < 2 ^ 32
  pub ssrc_fits : p.ssrc < 2 ^ 32
  pub csrc_words : AreU32 p.csrc
  pub extension_ok : IsExtension p.extension p.header_extension
  pub padding_ok : IsPadding p.padding p.padding_size pad

-- The sizes of the pieces.
pub length-pad :
    (flag : Bool) (size : ℕ) (pad : Bytes) → IsPadding flag size pad → length pad ≡ size
length-pad false size pad (e, q) = omega (arith, ap length q)
length-pad true size pad (fill, q, len) = omega (arith, ap length q, length-append fill (size ∷ []))

pub length-extension_bytes :
    (flag : Bool) (ext : Option HeaderExtension)
    → IsExtension flag ext
    → length (extension_bytes ext) ≡ extension_size ext
unfolding extension_size
length-extension_bytes flag none h = refl
length-extension_bytes flag (some ext) h = omega (arith, h.1)
