-- ===== src/Rtp.antt =====
-- model/packet.py and the class `HeaderExtension` of model/extension.py: a parsed RTP packet. A
-- `memoryview` is the list of bytes that it shows.
pub mod Layout
pub mod Parser
pub mod Builder
pub mod Extension
use rtpkit.Common.{ℕ, ◌+◌, ◌*◌, Bool, Option, none, some, List, length}
use rtpkit.Wire.{Bytes}

pub record HeaderExtension : Type 0 where
  pub profile : ℕ
  pub length_words : ℕ
  pub body : Bytes

pub record RtpPacket : Type 0 where
  pub version : ℕ
  pub padding : Bool
  pub extension : Bool
  pub marker : Bool
  pub payload_type : ℕ
  pub sequence_number : ℕ
  pub timestamp : ℕ
  pub ssrc : ℕ
  pub csrc : List ℕ
  pub header_extension : Option HeaderExtension
  pub payload : Bytes
  pub padding_size : ℕ
  pub raw : Bytes

-- The properties `cc`, `header_size` and `total_size`.
unfoldable pub cc : RtpPacket → ℕ
cc p = length p.csrc

unfoldable pub extension_size : Option HeaderExtension → ℕ
extension_size none = 0
extension_size (some ext) = 4 + ext.length_words * 4

unfoldable pub header_size : RtpPacket → ℕ
unfolding extension_size
header_size p = 12 + length p.csrc * 4 + extension_size p.header_extension

unfoldable pub total_size : RtpPacket → ℕ
total_size p = length p.raw
