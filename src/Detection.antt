-- ===== src/Detection.antt =====
-- detection/heuristics.py: whether a single buffer looks like an RTP or a compound RTCP packet.
pub mod Heuristics
pub mod Exclusive
pub mod Flow
mod Tests
use rtpkit.Common.{
  ℕ, Bool, true, false, Option, none, some, List, [], ◌∷◌, not, ◌&&◌, leb, ltb, if◌then◌else◌,
}
use rtpkit.Errors.{Exception, is_rtp_error, is_rtcp_error}
use rtpkit.Outcome.{Outcome, ok, err, ◌>>=◌, pure}
use rtpkit.Wire.{Bytes}
use rtpkit.Rtp.{RtpPacket}
use rtpkit.Rtp.Parser.{parse_rtp}
use rtpkit.Rtcp.{RtcpPacket, sender_report, receiver_report}
use rtpkit.Rtcp.Parser.{parse_rtcp}

-- `payload_type in range(72, 77)`.
abbrev pub in_rtcp_collision_range : ℕ → Bool
in_rtcp_collision_range payload_type = leb 72 payload_type && ltb payload_type 77

-- `try: ... except E:` around a call, for the class `E` of exceptions that `catches` accepts.
abbrev pub try_call {ℓ} : {A : Type ℓ} → (Exception → Bool) → Outcome A → Outcome (Option A)
try_call catches (ok a ws) = ok (some a) ws
try_call catches (err e) = if catches e then pure none else err e

abbrev pub rtp_verdict : Option RtpPacket → Bool
rtp_verdict none = false
rtp_verdict (some packet) = not (in_rtcp_collision_range packet.payload_type)

pub looks_like_rtp : Bytes → Outcome Bool
looks_like_rtp bytes = do
  packet ← try_call is_rtp_error (parse_rtp bytes)
  pure (rtp_verdict packet)

-- `isinstance(packet, (SenderReport, ReceiverReport))`.
abbrev pub is_report : RtcpPacket → Bool
is_report (sender_report _ _ _ _) = true
is_report (receiver_report _ _ _) = true
is_report _ = false

abbrev pub rtcp_verdict : Option (List RtcpPacket) → Bool
rtcp_verdict none = false
rtcp_verdict (some []) = false
rtcp_verdict (some (packet ∷ packets)) = is_report packet

pub looks_like_rtcp : Bytes → Outcome Bool
looks_like_rtcp bytes = do
  packets ← try_call is_rtcp_error (parse_rtcp bytes)
  pure (rtcp_verdict packets)
