-- ===== src/Detection/Flow/Verdict.antt =====
-- What the classifier has seen and answers after the payloads of a flow, on the history of the packets that
-- count as evidence.
use rtpkit.Common.{
  ℕ, suc, ◌+◌, ◌≡◌, subst, ◌↔◌, inl, inr, refl, true, false, List, [], ◌∷◌, length, Bool-cases,
  if◌then◌else◌, arith,
}
use rtpkit.Common.Int.{ℤ, pos, ◌≤ℤ◌}
use rtpkit.Common.Keys.{nat_eq}
use rtpkit.Errors.{Exception, is_rtp_error}
use rtpkit.Outcome.{Outcome, Warning, ok, err, ◌>>=◌, pure}
use rtpkit.Wire.{Bytes}
use rtpkit.Rtp.{RtpPacket}
use rtpkit.Rtp.Parser.{parse_rtp}
use rtpkit.Rtp.Parser.Modes.{parse_rtp-IsRtpError, parse_rtp_quiet}
use rtpkit.Detection.{try_call, in_rtcp_collision_range}
use rtpkit.Detection.Flow.{
  RtpFlowClassifier, FlowClassification, new_classifier, observe, observe_all, note_result,
  note_packet, classify,
}
use rtpkit.Detection.Flow.Decided.{
  shares_ssrc-iff-SharesSsrc, steps_small-iff-StepsSmall, seqs_of-iff-IsFrozen,
}
use rtpkit.Detection.Flow.Signals.{SharesSsrc, StepsSmall, IsFrozen, Counted, note_packet-Counted}

-- A payload counts if `parse_rtp` returns a packet for it whose payload type is none of 72 to 76.
abbrev pub count : Outcome RtpPacket → List RtpPacket → List RtpPacket
count (ok p ws) h = if in_rtcp_collision_range p.payload_type then h else p ∷ h
count (err e) h = h

-- The packets that count, the latest first, for payloads that follow a history.
abbrev pub history : List RtpPacket → List Bytes → List RtpPacket
history h [] = h
history h (bytes ∷ more) = history (count (parse_rtp bytes) h) more

-- What a report says of the packets that count, of payloads `observed`, for the two settings `m` and `t`.
pub record Reports (m t : ℤ) (observed : ℕ) (h : List RtpPacket) (r : FlowClassification)
    : Type 0 where
  pub observed_eq : r.packets_observed ≡ observed
  pub parsed_eq : r.packets_parsed ≡ length h
  pub consistent_iff : (r.ssrc_consistent ≡ true) ↔ SharesSsrc h
  pub plausible_iff : (r.sequence_plausible ≡ true) ↔ StepsSmall t h
  pub progressing_iff : (r.sequence_progressing ≡ false) ↔ IsFrozen h
  pub likely_iff :
      (r.is_likely_rtp ≡ true)
      ↔ ((m ≤ℤ pos (length h)) × SharesSsrc h × StepsSmall t h × (¬ IsFrozen h))

classify-Reports :
    (m t : ℤ) (n : ℕ) (h : List RtpPacket) (c : RtpFlowClassifier)
    → Counted m t n h c
    → Reports m t n h (classify c)
unfolding classify
classify-Reports m t n h c k =
    rw (k.min_eq, k.observed_eq, k.parsed_eq, k.consistent_eq, k.plausible_eq, k.distinct_eq)
      (record {
        observed_eq = refl;
        parsed_eq = refl;
        consistent_iff = shares_ssrc-iff-SharesSsrc h;
        plausible_iff = steps_small-iff-StepsSmall t h;
        progressing_iff = ground (arith, seqs_of-iff-IsFrozen h);
        likely_iff = ground (
          arith,
          shares_ssrc-iff-SharesSsrc h,
          steps_small-iff-StepsSmall t h,
          seqs_of-iff-IsFrozen h,
        );
      })

-- A payload is one more observed, and counts or not.
observed-Counted :
    (m t : ℤ) (n : ℕ) (h : List RtpPacket) (c : RtpFlowClassifier)
    → Counted m t n h c
    → Counted m t (n + 1) h (record c { packets_observed = c.packets_observed + 1 })
observed-Counted m t n h c k = record {
  min_eq = k.min_eq;
  threshold_eq = k.threshold_eq;
  observed_eq = omega (arith, k.observed_eq);
  parsed_eq = k.parsed_eq;
  ssrc_eq = k.ssrc_eq;
  consistent_eq = k.consistent_eq;
  last_eq = k.last_eq;
  plausible_eq = k.plausible_eq;
  distinct_eq = k.distinct_eq;
}

-- By what the parser makes of the payload.
result-Counted :
    (m t : ℤ) (n : ℕ) (h : List RtpPacket) (c : RtpFlowClassifier) (r : Outcome RtpPacket)
    → ((p : RtpPacket) (ws : List Warning) → r ≡ ok p ws → r ≡ ok p [])
    → ((e : Exception) → r ≡ err e → is_rtp_error e ≡ true)
    → Counted m t n h c
    → (d : RtpFlowClassifier) × ((try_call is_rtp_error r
          >>= (λ packet. pure (note_result c packet)))
        ≡ ok d [])
      × Counted m t n (count r h) d
result-Counted m t n h c (ok p []) quiet caught k =
    elim (Bool-cases (in_rtcp_collision_range p.payload_type)) [
      | inl collides ↦ rw (collides) (c, refl, k)
      | inr counts ↦ rw (counts) (note_packet c p, refl, note_packet-Counted m t n h c p k)
    ]
result-Counted m t n h c (ok p (w ∷ ws)) quiet caught k = absurd (cc (quiet p (w ∷ ws) refl))
result-Counted m t n h c (err e) quiet caught k = rw (caught e refl) (c, refl, k)

observe-Counted :
    (m t : ℤ) (n : ℕ) (h : List RtpPacket) (c : RtpFlowClassifier) (bytes : Bytes)
    → Counted m t n h c
    → (d : RtpFlowClassifier) × (observe c bytes ≡ ok d [])
      × Counted m t (n + 1) (count (parse_rtp bytes) h) d
unfolding observe
observe-Counted m t n h c bytes k =
    result-Counted m t (n + 1) h (record c { packets_observed = c.packets_observed + 1 })
      (parse_rtp bytes) (parse_rtp_quiet bytes) (parse_rtp-IsRtpError bytes)
      (observed-Counted m t n h c k)

-- Observing any payloads at all returns a classifier whose state stands for what it has seen.
observe_all-Counted :
    (m t : ℤ) (n : ℕ) (h : List RtpPacket) (c : RtpFlowClassifier) (payloads : List Bytes)
    → Counted m t n h c
    → (d : RtpFlowClassifier) × (observe_all c payloads ≡ ok d [])
      × Counted m t (n + length payloads) (history h payloads) d
unfolding observe_all
observe_all-Counted m t n h c [] k = (c, refl, subst (λ (i : ℕ). Counted m t i h c) n_eq k)
  where
    n_eq : n ≡ n + 0
    n_eq = omega arith
observe_all-Counted m t n h c (bytes ∷ more) k =
    let (d, e, kd) = observe-Counted m t n h c bytes k in
    let (d', e', kd') = observe_all-Counted m t (n + 1) (count (parse_rtp bytes) h) d more kd in
    (d', rw e e', subst (λ (i : ℕ). Counted m t i (history h (bytes ∷ more)) d') n_eq kd')
  where
    n_eq : n + 1 + length more ≡ n + suc (length more)
    n_eq = omega arith

new_classifier-Counted : (m t : ℤ) → Counted m t 0 [] (new_classifier m t)
unfolding new_classifier
new_classifier-Counted m t = record {
  min_eq = refl;
  threshold_eq = refl;
  observed_eq = refl;
  parsed_eq = refl;
  ssrc_eq = refl;
  consistent_eq = refl;
  last_eq = refl;
  plausible_eq = refl;
  distinct_eq = refl;
}

-- A new classifier observes any payloads without raising, and then reports what the packets among them that
-- count have in common: their number, one SSRC, steps between sequence numbers (on the circle of
-- 2^16) within the threshold, and more than one sequence number; `is_likely_rtp` holds just if all
-- of these do for the number of packets that is asked for. A payload counts if `parse_rtp` returns
-- a packet for it whose payload type is not one of 72 to 76.
pub classify-observe_all :
    (m t : ℤ) (payloads : List Bytes)
    → (c : RtpFlowClassifier) × (observe_all (new_classifier m t) payloads ≡ ok c [])
      × Reports m t (length payloads) (history [] payloads) (classify c)
classify-observe_all m t payloads =
    let (c, e, k) =
      observe_all-Counted m t 0 [] (new_classifier m t) payloads (new_classifier-Counted m t) in
    (
      c,
      e,
      classify-Reports m t (length payloads) (history [] payloads) c
          (subst (λ (i : ℕ). Counted m t i (history [] payloads) c) n_eq k),
    )
  where
    n_eq : 0 + length payloads ≡ length payloads
    n_eq = omega arith
