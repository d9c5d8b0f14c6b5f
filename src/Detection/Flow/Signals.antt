-- ===== src/Detection/Flow/Signals.antt =====
-- The signals of a flow, described on the history of the packets that count, the latest first, and
-- what the fields of the classifier tell of them.
use rtpkit.Common.{
  ℕ, ◌+◌, ◌≡◌, ◌∙◌, inl, inr, refl, ap, Bool, true, false, Option, none, some, List, [], ◌∷◌, not,
  ◌==◌, length, All, Bool-cases, if◌then◌else◌, arith,
}
use rtpkit.Common.Int.{ℤ, pos, abs_ℤ, ◌≤ℤ◌, ltb_ℤ}
use rtpkit.Common.Keys.{add, nat_eq}
use rtpkit.Rtp.{RtpPacket}
use rtpkit.Detection.Flow.{RtpFlowClassifier, wrapped_delta, note_ssrc, note_delta, note_packet}
use rtpkit.Detection.Flow.Deltas.{circular_distance}

-- All packets have one SSRC.
abbrev pub SharesSsrc : List RtpPacket → Type 0
SharesSsrc h = (s : ℕ) × All (λ (p : RtpPacket). p.ssrc ≡ s) h

-- No packet is farther than `t` from the one before it.
abbrev pub StepsSmall : ℤ → List RtpPacket → Type 0
StepsSmall t [] = Unit
StepsSmall t (p ∷ []) = Unit
StepsSmall t (p ∷ q ∷ h) =
    (pos (circular_distance q.sequence_number p.sequence_number) ≤ℤ t) × StepsSmall t (q ∷ h)

-- All packets have one sequence number.
abbrev pub IsFrozen : List RtpPacket → Type 0
IsFrozen h = (n : ℕ) × All (λ (p : RtpPacket). p.sequence_number ≡ n) h

-- What the fields hold after the packets of a history.
abbrev pub oldest_ssrc : RtpPacket → List RtpPacket → ℕ
oldest_ssrc p [] = p.ssrc
oldest_ssrc p (q ∷ h) = oldest_ssrc q h

abbrev pub first_ssrc : List RtpPacket → Option ℕ
first_ssrc [] = none
first_ssrc (p ∷ h) = some (oldest_ssrc p h)

abbrev pub latest_seq : List RtpPacket → Option ℕ
latest_seq [] = none
latest_seq (p ∷ h) = some p.sequence_number

abbrev pub seqs_of : List RtpPacket → List ℕ
seqs_of [] = []
seqs_of (p ∷ h) = add p.sequence_number (seqs_of h)

abbrev pub shares_ssrc : List RtpPacket → Bool
shares_ssrc [] = true
shares_ssrc (p ∷ []) = true
shares_ssrc (p ∷ q ∷ h) = if not (p.ssrc == oldest_ssrc q h) then false else shares_ssrc (q ∷ h)

abbrev pub steps_small : ℤ → List RtpPacket → Bool
steps_small t [] = true
steps_small t (p ∷ []) = true
steps_small t (p ∷ q ∷ h) =
    if ltb_ℤ t (pos (abs_ℤ (wrapped_delta q.sequence_number p.sequence_number)))
    then false
    else steps_small t (q ∷ h)

-- The state of a classifier that has counted the packets of a history.
pub record Counted (m t : ℤ) (observed : ℕ) (h : List RtpPacket) (c : RtpFlowClassifier)
    : Type 0 where
  pub min_eq : c.min_packets ≡ m
  pub threshold_eq : c.seq_jump_threshold ≡ t
  pub observed_eq : c.packets_observed ≡ observed
  pub parsed_eq : c.packets_parsed ≡ length h
  pub ssrc_eq : c.ssrc ≡ first_ssrc h
  pub consistent_eq : c.ssrc_consistent ≡ shares_ssrc h
  pub last_eq : c.last_seq ≡ latest_seq h
  pub plausible_eq : c.sequence_plausible ≡ steps_small t h
  pub distinct_eq : c.distinct_seqs ≡ seqs_of h

-- A field that none of the assignments touch.
note_ssrc_keeps :
    {A : Type 0} (f : RtpFlowClassifier → A) (c : RtpFlowClassifier) (o : Option ℕ) (s : ℕ)
    → ((d : RtpFlowClassifier) (r : Option ℕ) → f (record d { ssrc = r }) ≡ f d)
    → ((d : RtpFlowClassifier) → f (record d { ssrc_consistent = false }) ≡ f d)
    → f (note_ssrc c o s) ≡ f c
note_ssrc_keeps f c none s h k = h c (some s)
note_ssrc_keeps f c (some known) s h k = elim (Bool-cases (not (s == known))) [
  | inl differ ↦ rw differ (k c)
  | inr same ↦ rw same refl
]

note_delta_keeps :
    {A : Type 0} (f : RtpFlowClassifier → A) (c : RtpFlowClassifier) (o : Option ℕ) (seq : ℕ)
    → ((d : RtpFlowClassifier) → f (record d { sequence_plausible = false }) ≡ f d)
    → f (note_delta c o seq) ≡ f c
note_delta_keeps f c none seq h = refl
note_delta_keeps f c (some last) seq h =
    elim (Bool-cases (ltb_ℤ c.seq_jump_threshold (pos (abs_ℤ (wrapped_delta last seq))))) [
      | inl far ↦ rw far (h c)
      | inr near ↦ rw near refl
    ]

note_ssrc_notes :
    (c : RtpFlowClassifier) (h : List RtpPacket) (p : RtpPacket)
    → c.ssrc ≡ first_ssrc h
    → c.ssrc_consistent ≡ shares_ssrc h
    → ((note_ssrc c c.ssrc p.ssrc).ssrc ≡ first_ssrc (p ∷ h))
      × ((note_ssrc c c.ssrc p.ssrc).ssrc_consistent ≡ shares_ssrc (p ∷ h))
note_ssrc_notes c [] p e k = rw e (refl, k)
note_ssrc_notes c (q ∷ h) p e k = elim (Bool-cases (not (p.ssrc == oldest_ssrc q h))) [
  | inl differ ↦ rw (e, differ) (refl, refl)
  | inr same ↦ rw (e, same) (refl, k)
]

note_delta_notes :
    (c : RtpFlowClassifier) (t : ℤ) (h : List RtpPacket) (p : RtpPacket)
    → c.seq_jump_threshold ≡ t
    → c.last_seq ≡ latest_seq h
    → c.sequence_plausible ≡ steps_small t h
    → (note_delta c c.last_seq p.sequence_number).sequence_plausible ≡ steps_small t (p ∷ h)
note_delta_notes c t [] p e l k = rw l k
note_delta_notes c t (q ∷ h) p e l k =
    rw (l, e)
      (elim (Bool-cases
        (ltb_ℤ t (pos (abs_ℤ (wrapped_delta q.sequence_number p.sequence_number))))) [
          | inl far ↦ rw far refl
          | inr near ↦ rw near k
        ])

pub note_packet-Counted :
    (m t : ℤ) (n : ℕ) (h : List RtpPacket) (c : RtpFlowClassifier) (p : RtpPacket)
    → Counted m t n h c
    → Counted m t n (p ∷ h) (note_packet c p)
unfolding note_packet
note_packet-Counted m t n h c p k = record {
  min_eq = keeps (λ d. d.min_packets) (λ d r. refl) (λ d. refl) (λ d. refl) ∙ k.min_eq;
  threshold_eq =
      keeps (λ d. d.seq_jump_threshold) (λ d r. refl) (λ d. refl) (λ d. refl) ∙ k.threshold_eq;
  observed_eq =
      keeps (λ d. d.packets_observed) (λ d r. refl) (λ d. refl) (λ d. refl) ∙ k.observed_eq;
  parsed_eq =
      keeps (λ d. d.packets_parsed) (λ d r. refl) (λ d. refl) (λ d. refl)
      ∙ omega (arith, k.parsed_eq);
  ssrc_eq = past_delta (λ d. d.ssrc) (λ d. refl) ∙ ssrcs.0;
  consistent_eq = past_delta (λ d. d.ssrc_consistent) (λ d. refl) ∙ ssrcs.1;
  last_eq = refl;
  plausible_eq =
      note_delta_notes d t h p
        (past_ssrc (λ d. d.seq_jump_threshold) (λ d r. refl) (λ d. refl) ∙ k.threshold_eq)
        (past_ssrc (λ d. d.last_seq) (λ d r. refl) (λ d. refl) ∙ k.last_eq)
        (past_ssrc (λ d. d.sequence_plausible) (λ d r. refl) (λ d. refl) ∙ k.plausible_eq);
  distinct_eq =
      ap (add p.sequence_number)
        (keeps (λ d. d.distinct_seqs) (λ d r. refl) (λ d. refl) (λ d. refl) ∙ k.distinct_eq);
}
  where
    counting : RtpFlowClassifier
    counting = record c { packets_parsed = c.packets_parsed + 1 }

    d : RtpFlowClassifier
    d = note_ssrc counting c.ssrc p.ssrc

    past_ssrc :
        {A : Type 0} (f : RtpFlowClassifier → A)
        → ((d : RtpFlowClassifier) (r : Option ℕ) → f (record d { ssrc = r }) ≡ f d)
        → ((d : RtpFlowClassifier) → f (record d { ssrc_consistent = false }) ≡ f d)
        → f d ≡ f counting
    past_ssrc f = note_ssrc_keeps f counting c.ssrc p.ssrc

    past_delta :
        {A : Type 0} (f : RtpFlowClassifier → A)
        → ((d : RtpFlowClassifier) → f (record d { sequence_plausible = false }) ≡ f d)
        → f (note_delta d d.last_seq p.sequence_number) ≡ f d
    past_delta f = note_delta_keeps f d d.last_seq p.sequence_number

    keeps :
        {A : Type 0} (f : RtpFlowClassifier → A)
        → ((d : RtpFlowClassifier) (r : Option ℕ) → f (record d { ssrc = r }) ≡ f d)
        → ((d : RtpFlowClassifier) → f (record d { ssrc_consistent = false }) ≡ f d)
        → ((d : RtpFlowClassifier) → f (record d { sequence_plausible = false }) ≡ f d)
        → f (note_delta d d.last_seq p.sequence_number) ≡ f counting
    keeps f h k l = past_delta f l ∙ past_ssrc f h k

    ssrcs : (d.ssrc ≡ first_ssrc (p ∷ h)) × (d.ssrc_consistent ≡ shares_ssrc (p ∷ h))
    ssrcs = note_ssrc_notes counting h p k.ssrc_eq k.consistent_eq
