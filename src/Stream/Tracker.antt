-- ===== src/Stream/Tracker.antt =====
-- The class `RtpStreamTracker`: its state is the dict from an SSRC to the state of its stream.
use rtpkit.Common.{ℕ, Option, none, some, List, [], ◌∷◌}
use rtpkit.Common.Int.{ℤ, pos}
use rtpkit.Common.Keys.{lookup, insert, keys, nat_eq}
use rtpkit.Outcome.{Outcome, ◌>>=◌, pure}
use rtpkit.Rtp.{RtpPacket}
use rtpkit.Stream.{Floats, RtpStreamStats, Arrival}
use rtpkit.Stream.State.{StreamState, new_state}
use rtpkit.Stream.State

abbrev pub default_clock_rate : ℤ
default_clock_rate = pos 8000

module _ (floats : Floats) where
  open floats use {Float}

  abbrev pub RtpStreamTracker : Type 0
  RtpStreamTracker = List (ℕ × StreamState Float)

  -- The state to go on with: that of the dict, or a new one.
  abbrev pub state_or_new : Option (StreamState Float) → ℕ → StreamState Float
  state_or_new none payload_type = new_state floats payload_type
  state_or_new (some state) payload_type = state

  unfoldable pub observe : RtpStreamTracker → Arrival Float → RtpStreamTracker
  observe self a =
      let state = state_or_new (lookup a.packet.ssrc self) a.packet.payload_type in
      insert a.packet.ssrc (State.observe floats state a) self

  unfoldable pub ssrcs : RtpStreamTracker → List ℕ
  ssrcs self = keys self

  abbrev pub stats_of : ℕ → Option (StreamState Float) → Outcome (Option (RtpStreamStats Float))
  stats_of ssrc none = pure none
  stats_of ssrc (some state) = do snapshot ← State.snapshot floats state ssrc; pure (some snapshot)

  unfoldable pub stats : RtpStreamTracker → ℕ → Outcome (Option (RtpStreamStats Float))
  stats self ssrc = stats_of ssrc (lookup ssrc self)

  unfoldable pub all_stats : RtpStreamTracker → Outcome (List (ℕ × RtpStreamStats Float))
  all_stats [] = pure []
  all_stats ((ssrc, state) ∷ more) = do
    snapshot ← State.snapshot floats state ssrc
    rest ← all_stats more
    pure ((ssrc, snapshot) ∷ rest)

  abbrev pub packets_of : Option (StreamState Float) → Outcome (List RtpPacket)
  packets_of none = pure []
  packets_of (some state) = State.ordered_packets floats state

  unfoldable pub ordered_packets : RtpStreamTracker → ℕ → Outcome (List RtpPacket)
  ordered_packets self ssrc = packets_of (lookup ssrc self)

  -- The packets of a capture, in arrival order.
  unfoldable pub observe_all : RtpStreamTracker → List (Arrival Float) → RtpStreamTracker
  unfolding observe
  observe_all self [] = self
  observe_all self (a ∷ more) = observe_all (observe self a) more
