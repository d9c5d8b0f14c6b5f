-- ===== src/Stream.antt =====
-- stream/tracker.py and model/stream.py: `_StreamState`, which counts the packets of one SSRC, and
-- `RtpStreamTracker`, a dict of such states. Arrival times and the jitter are floats, of which the
-- code only asks the operations of `Floats`.
pub mod State
pub mod Tracker
pub mod Extend
pub mod Invariant
pub mod Order
pub mod Loss
pub mod Stats
pub mod Reports
pub mod AllStats
mod Tests
pub mod Isolation
use rtpkit.Common.{ℕ, Option, List}
use rtpkit.Common.Int.{ℤ}
use rtpkit.Rtp.{RtpPacket}

-- Python's floats, as far as the tracker uses them.
pub record Floats : Type 1 where
  pub Float : Type 0
  pub zero_float : Float
  pub times_int : Float → ℤ → Float
  pub minus_int : Float → ℕ → Float
  pub plus : Float → Float → Float
  pub minus : Float → Float → Float
  pub abs_float : Float → Float
  pub over_int : Float → ℕ → Float
  pub ratio : ℕ → ℤ → Float

pub record RtpStreamStats (Float : Type 0) : Type 0 where
  pub ssrc : ℕ
  pub payload_type : ℕ
  pub packet_count : ℕ
  pub expected_count : ℤ
  pub lost_count : ℕ
  pub out_of_order_count : ℕ
  pub duplicate_count : ℕ
  pub first_extended_sequence : ℤ
  pub highest_extended_sequence : ℤ
  pub jitter : Float

-- A call of `RtpStreamTracker.observe`.
pub record Arrival (Float : Type 0) : Type 0 where
  pub packet : RtpPacket
  pub arrival_time : Float
  pub clock_rate : ℤ
