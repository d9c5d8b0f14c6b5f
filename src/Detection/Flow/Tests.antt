-- ===== src/Detection/Flow/Tests.antt =====
-- Runs of `_wrapped_delta`, and the witnesses of the theorems on the flow classifier.
use rtpkit.Common.{ℕ, ◌+◌, ◌^◌, ◌%◌, ◌≤◌, ◌≡◌, refl, List, [], ◌∷◌, length}
use rtpkit.Common.Int.{pos, negsuc, abs_ℤ, pos_part, neg_part}
use rtpkit.Outcome.{ok}
use rtpkit.Wire.{Bytes}
use rtpkit.Detection.Flow.{
  RtpFlowClassifier, new_classifier, observe_all, classify, wrapped_delta, default_min_packets,
  default_seq_jump_threshold,
}
use rtpkit.Detection.Flow.Deltas.{wrapped_delta_leads}
use rtpkit.Detection.Flow.Verdict.{Reports, history, classify-observe_all}

wrapped_delta_rollover : wrapped_delta 65535 2 ≡ pos 3
unfolding wrapped_delta
wrapped_delta_rollover = refl

wrapped_delta_back : wrapped_delta 2 65535 ≡ negsuc 2
unfolding wrapped_delta
wrapped_delta_back = refl

wrapped_delta_half : wrapped_delta 0 32768 ≡ pos 32768
unfolding wrapped_delta
wrapped_delta_half = refl

-- RTP headers of one source across the rollover of the sequence number, a repeated one, and a payload
-- that is no RTP at all.
abbrev packet_bytes : ℕ → ℕ → Bytes
packet_bytes high low = 0x80 ∷ 8 ∷ high ∷ low ∷ 0 ∷ 0 ∷ 0 ∷ 1 ∷ 0 ∷ 0 ∷ 0 ∷ 7 ∷ []

abbrev payloads : List Bytes
payloads =
    packet_bytes 255 255
    ∷ (1 ∷ 2 ∷ [])
    ∷ packet_bytes 0 0
    ∷ packet_bytes 0 0
    ∷ packet_bytes 0 1
    ∷ []

classify-observe_all_example :
    (c : RtpFlowClassifier) × (observe_all
        (new_classifier default_min_packets default_seq_jump_threshold)
        payloads
      ≡ ok c [])
    × Reports default_min_packets default_seq_jump_threshold
        (length payloads)
        (history [] payloads)
        (classify c)
classify-observe_all_example =
    classify-observe_all default_min_packets default_seq_jump_threshold payloads

wrapped_delta_leads_example :
    (abs_ℤ (wrapped_delta 65535 2) ≤ 2 ^ 15)
    × ((65535 + pos_part (wrapped_delta 65535 2)) % 2 ^ 16
        ≡ (2 + neg_part (wrapped_delta 65535 2)) % 2 ^ 16)
wrapped_delta_leads_example = wrapped_delta_leads 65535 2
