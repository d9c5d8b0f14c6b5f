-- ===== src/Rtcp.antt =====
-- model/rtcp.py: the RTCP packets. Ints are ℤ, since callers of the builder may set any; a str is the
-- list of its code points. The float `SenderInfo.ntp_timestamp` is left out.
pub mod Bodies
pub mod Parser
pub mod Builder
use rtpkit.Common.{ℕ, Option, List, length}
use rtpkit.Common.Int.{ℤ, pos}
use rtpkit.Wire.{Bytes}

-- The members of `RtcpPacketType`, and their numbers on the wire.
pub data RtcpPacketType : Type 0 where
  sr rr sdes bye app : RtcpPacketType

abbrev pub type_number : RtcpPacketType → ℕ
type_number sr = 200
type_number rr = 201
type_number sdes = 202
type_number bye = 203
type_number app = 204

pub record SenderInfo : Type 0 where
  pub ntp_seconds : ℤ
  pub ntp_fraction : ℤ
  pub rtp_timestamp : ℤ
  pub packet_count : ℤ
  pub octet_count : ℤ

pub record ReportBlock : Type 0 where
  pub ssrc : ℤ
  pub fraction_lost : ℤ
  pub cumulative_lost : ℤ
  pub extended_highest_sequence : ℤ
  pub jitter : ℤ
  pub last_sr : ℤ
  pub delay_since_last_sr : ℤ

pub record SdesItem : Type 0 where
  pub kind : ℤ
  pub text : Bytes

pub record SdesChunk : Type 0 where
  pub ssrc : ℤ
  pub items : List SdesItem

-- The classes of the union `RtcpPacket`, with their fields.
pub data RtcpPacket : Type 0 where
  sender_report :
      (ssrc : ℤ) (info : SenderInfo) (blocks : List ReportBlock) (padding_size : ℤ) → RtcpPacket
  receiver_report : (ssrc : ℤ) (blocks : List ReportBlock) (padding_size : ℤ) → RtcpPacket
  source_description : (chunks : List SdesChunk) (padding_size : ℤ) → RtcpPacket
  goodbye : (sources : List ℤ) (reason : Option Bytes) (padding_size : ℤ) → RtcpPacket
  application_defined :
      (subtype : ℤ) (ssrc : ℤ) (name : List ℕ) (body : Bytes) (padding_size : ℤ) → RtcpPacket

abbrev pub type_of : RtcpPacket → RtcpPacketType
type_of (sender_report _ _ _ _) = sr
type_of (receiver_report _ _ _) = rr
type_of (source_description _ _) = sdes
type_of (goodbye _ _ _) = bye
type_of (application_defined _ _ _ _ _) = app

-- What the five-bit field of the header counts.
abbrev pub count_of : RtcpPacket → ℤ
count_of (sender_report _ _ blocks _) = pos (length blocks)
count_of (receiver_report _ blocks _) = pos (length blocks)
count_of (source_description chunks _) = pos (length chunks)
count_of (goodbye sources _ _) = pos (length sources)
count_of (application_defined subtype _ _ _ _) = subtype

abbrev pub padding_of : RtcpPacket → ℤ
padding_of (sender_report _ _ _ padding_size) = padding_size
padding_of (receiver_report _ _ padding_size) = padding_size
padding_of (source_description _ padding_size) = padding_size
padding_of (goodbye _ _ padding_size) = padding_size
padding_of (application_defined _ _ _ _ padding_size) = padding_size
