-- ===== src/Detection/Flow.antt =====
-- detection/flow.py: `RtpFlowClassifier`, which gathers evidence over the payloads of one presumed flow.
pub mod Deltas
pub mod Decided
pub mod Verdict
mod Tests
pub mod Signals
use rtpkit.Common.{
  ℕ, ◌+◌, ◌^◌, Bool, true, false, Option, none, some, List, [], ◌∷◌, not, ◌&&◌, ltb, ◌==◌, length,
  if◌then◌else◌,
}
use rtpkit.Common.Int.{ℤ, pos, sub_ℕ, abs_ℤ, mod_ℤ, leb_ℤ, ltb_ℤ}
use rtpkit.Common.Keys.{add, nat_eq}
use rtpkit.Errors.{is_rtp_error}
use rtpkit.Outcome.{Outcome, ◌>>=◌, pure}
use rtpkit.Wire.{Bytes}
use rtpkit.Rtp.{RtpPacket}
use rtpkit.Rtp.Parser.{parse_rtp}
use rtpkit.Detection.{try_call, in_rtcp_collision_range}

pub record FlowClassification : Type 0 where
  pub packets_observed : ℕ
  pub packets_parsed : ℕ
  pub ssrc_consistent : Bool
  pub sequence_plausible : Bool
  pub sequence_progressing : Bool
  pub is_likely_rtp : Bool

abbrev pub seq_mod : ℕ
seq_mod = 2 ^ 16

abbrev pub seq_mod_half : ℕ
seq_mod_half = 2 ^ 15

unfoldable pub wrapped_delta : ℕ → ℕ → ℤ
wrapped_delta a b =
    let delta = mod_ℤ (sub_ℕ b a) seq_mod in
    if ltb seq_mod_half delta then sub_ℕ delta seq_mod else pos delta

pub record RtpFlowClassifier : Type 0 where
  pub min_packets : ℤ
  pub seq_jump_threshold : ℤ
  pub packets_observed : ℕ
  pub packets_parsed : ℕ
  pub ssrc : Option ℕ
  pub ssrc_consistent : Bool
  pub last_seq : Option ℕ
  pub sequence_plausible : Bool
  pub distinct_seqs : List ℕ

-- `RtpFlowClassifier(min_packets, seq_jump_threshold)`.
unfoldable pub new_classifier : ℤ → ℤ → RtpFlowClassifier
new_classifier min_packets seq_jump_threshold = record {
  min_packets = min_packets;
  seq_jump_threshold = seq_jump_threshold;
  packets_observed = 0;
  packets_parsed = 0;
  ssrc = none;
  ssrc_consistent = true;
  last_seq = none;
  sequence_plausible = true;
  distinct_seqs = [];
}

abbrev pub default_min_packets : ℤ
default_min_packets = pos 4

abbrev pub default_seq_jump_threshold : ℤ
default_seq_jump_threshold = pos 1000

-- The `if self._ssrc is None` and its `elif`.
abbrev pub note_ssrc : RtpFlowClassifier → Option ℕ → ℕ → RtpFlowClassifier
note_ssrc c none s = record c { ssrc = some s }
note_ssrc c (some known) s = if not (s == known) then record c { ssrc_consistent = false } else c

-- The test on `_last_seq`.
abbrev pub note_delta : RtpFlowClassifier → Option ℕ → ℕ → RtpFlowClassifier
note_delta c none seq = c
note_delta c (some last) seq =
    if ltb_ℤ c.seq_jump_threshold (pos (abs_ℤ (wrapped_delta last seq)))
    then record c { sequence_plausible = false }
    else c

-- What `observe` does with a packet that counts as evidence.
unfoldable pub note_packet : RtpFlowClassifier → RtpPacket → RtpFlowClassifier
note_packet self packet =
    let c = record self { packets_parsed = self.packets_parsed + 1 } in
    let d = note_ssrc c c.ssrc packet.ssrc in
    let e = note_delta d d.last_seq packet.sequence_number in
    record e {
      last_seq = some packet.sequence_number;
      distinct_seqs = add packet.sequence_number e.distinct_seqs;
    }

-- The two early returns of `observe`.
abbrev pub note_result : RtpFlowClassifier → Option RtpPacket → RtpFlowClassifier
note_result self none = self
note_result self (some packet) =
    if in_rtcp_collision_range packet.payload_type then self else note_packet self packet

unfoldable pub observe : RtpFlowClassifier → Bytes → Outcome RtpFlowClassifier
observe self bytes = do
  packet ← try_call is_rtp_error (parse_rtp bytes)
  pure (note_result (record self { packets_observed = self.packets_observed + 1 }) packet)

unfoldable pub classify : RtpFlowClassifier → FlowClassification
classify self =
    let sequence_progressing = ltb 1 (length self.distinct_seqs) in
    record {
      packets_observed = self.packets_observed;
      packets_parsed = self.packets_parsed;
      ssrc_consistent = self.ssrc_consistent;
      sequence_plausible = self.sequence_plausible;
      sequence_progressing = sequence_progressing;
      is_likely_rtp =
          leb_ℤ self.min_packets (pos self.packets_parsed)
          && self.ssrc_consistent
          && self.sequence_plausible
          && sequence_progressing;
    }

-- The payloads of a flow, in arrival order.
unfoldable pub observe_all : RtpFlowClassifier → List Bytes → Outcome RtpFlowClassifier
unfolding observe
observe_all self [] = pure self
observe_all self (bytes ∷ more) = do next ← observe self bytes; observe_all next more
