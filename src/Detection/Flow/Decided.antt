-- ===== src/Detection/Flow/Decided.antt =====
-- The Booleans and the set that the classifier keeps decide the signals of its history.
use rtpkit.Common.{
  ℕ, ◌≤◌, ◌≡◌, ◌∙◌, sym, ap, ◌↔◌, inl, inr, refl, true, List, [], ◌∷◌, ◌==◌, ==_iff, length, All,
  Bool-cases, arith,
}
use rtpkit.Common.Int.{ℤ}
use rtpkit.Common.Keys.{contains, add, nat_eq, beq_refl}
use rtpkit.Rtp.{RtpPacket}
use rtpkit.Detection.Flow.Deltas.{abs_wrapped_delta}
use rtpkit.Detection.Flow.Signals.{
  SharesSsrc, StepsSmall, IsFrozen, shares_ssrc, steps_small, seqs_of, oldest_ssrc,
}

-- The three signals, decided.
shares_ssrc-All :
    (s : ℕ) (p : RtpPacket) (h : List RtpPacket)
    → All (λ (q : RtpPacket). q.ssrc ≡ s) (p ∷ h)
    → (oldest_ssrc p h ≡ s) × (shares_ssrc (p ∷ h) ≡ true)
shares_ssrc-All s p [] (e, _) = (e, refl)
shares_ssrc-All s p (q ∷ h) (e, k) =
    let (oldest, shares) = shares_ssrc-All s q h k in
    (oldest, rw ((==_iff p.ssrc (oldest_ssrc q h)).1 (e ∙ sym oldest)) shares)

All-shares_ssrc :
    (p : RtpPacket) (h : List RtpPacket)
    → shares_ssrc (p ∷ h) ≡ true
    → All (λ (q : RtpPacket). q.ssrc ≡ oldest_ssrc p h) (p ∷ h)
All-shares_ssrc p [] e = (refl, tt)
All-shares_ssrc p (q ∷ h) e = elim (Bool-cases (p.ssrc == oldest_ssrc q h)) [
  | inl same ↦ ((==_iff p.ssrc (oldest_ssrc q h)).0 same, All-shares_ssrc q h (rw same at e))
  | inr differ ↦ absurd (cc (rw differ at e))
]

pub shares_ssrc-iff-SharesSsrc : (h : List RtpPacket) → (shares_ssrc h ≡ true) ↔ SharesSsrc h
shares_ssrc-iff-SharesSsrc [] = (λ _. (0, tt), λ _. refl)
shares_ssrc-iff-SharesSsrc (p ∷ h) =
    (λ e. (oldest_ssrc p h, All-shares_ssrc p h e), λ (s, k). (shares_ssrc-All s p h k).1)

pub steps_small-iff-StepsSmall :
    (t : ℤ) (h : List RtpPacket) → (steps_small t h ≡ true) ↔ StepsSmall t h
steps_small-iff-StepsSmall t [] = (λ _. tt, λ _. refl)
steps_small-iff-StepsSmall t (p ∷ []) = (λ _. tt, λ _. refl)
steps_small-iff-StepsSmall t (p ∷ q ∷ h) = ground (
  arith,
  abs_wrapped_delta q.sequence_number p.sequence_number,
  steps_small-iff-StepsSmall t (q ∷ h),
)

-- Every sequence number of a history is in its set.
contains-add : (m n : ℕ) (s : List ℕ) → contains m s ≡ true → contains m (add n s) ≡ true
contains-add m n s h = elim (Bool-cases (contains n s)) [
  | inl old ↦ rw old h
  | inr new ↦ rw (new, h) (ground arith)
]

contains-add_self : (n : ℕ) (s : List ℕ) → contains n (add n s) ≡ true
contains-add_self n s = elim (Bool-cases (contains n s)) [
  | inl old ↦ rw old old
  | inr new ↦ rw (new, beq_refl n) refl
]

Noted : List ℕ → List RtpPacket → Type 0
Noted s h = All (λ (p : RtpPacket). contains p.sequence_number s ≡ true) h

Noted-add : (n : ℕ) (s : List ℕ) (h : List RtpPacket) → Noted s h → Noted (add n s) h
unfolding Noted
Noted-add n s [] k = tt
Noted-add n s (p ∷ h) (e, k) = (contains-add p.sequence_number n s e, Noted-add n s h k)

seqs_of-Noted : (h : List RtpPacket) → Noted (seqs_of h) h
unfolding Noted
seqs_of-Noted [] = tt
seqs_of-Noted (p ∷ h) = (
  contains-add_self p.sequence_number (seqs_of h),
  Noted-add p.sequence_number (seqs_of h) h (seqs_of-Noted h),
)

Noted-one :
    (n : ℕ) (h : List RtpPacket)
    → Noted (n ∷ []) h
    → All (λ (p : RtpPacket). p.sequence_number ≡ n) h
unfolding Noted
Noted-one n [] k = tt
Noted-one n (p ∷ h) (e, k) = (ground (arith, e), Noted-one n h k)

Noted-few : (s : List ℕ) (h : List RtpPacket) → Noted s h → length s ≤ 1 → IsFrozen h
unfolding Noted
Noted-few [] [] k e = (0, tt)
Noted-few [] (p ∷ h) k e = absurd (cc (k.0))
Noted-few (n ∷ []) h k e = (n, Noted-one n h k)
Noted-few (n ∷ m ∷ s) h k e = absurd (omega arith)

seqs_of_frozen :
    (n : ℕ) (p : RtpPacket) (h : List RtpPacket)
    → All (λ (q : RtpPacket). q.sequence_number ≡ n) (p ∷ h)
    → seqs_of (p ∷ h) ≡ n ∷ []
seqs_of_frozen n p [] (e, _) = rw e refl
seqs_of_frozen n p (q ∷ h) (e, k) = rw (seqs_of_frozen n q h k, e, beq_refl n) refl

pub seqs_of-iff-IsFrozen : (h : List RtpPacket) → (length (seqs_of h) ≤ 1) ↔ IsFrozen h
seqs_of-iff-IsFrozen [] = (λ _. (0, tt), λ _. omega arith)
seqs_of-iff-IsFrozen (p ∷ h) = (
  Noted-few (seqs_of (p ∷ h)) (p ∷ h) (seqs_of-Noted (p ∷ h)),
  λ (n, k). omega (arith, ap length (seqs_of_frozen n p h k)),
)
