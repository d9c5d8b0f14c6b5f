-- ===== src/Stream/AllStats.antt =====
-- `all_stats`: the statistics of every stream, in first-seen order.
use rtpkit.Common.{ℕ, ◌^◌, ◌<◌, ◌≡◌, refl, sym, some, List, [], ◌∷◌, inl, inr, All}
use rtpkit.Common.Int.{ℤ}
use rtpkit.Common.Keys.{lookup, insert, nat_eq, beq_cases}
use rtpkit.Outcome.{ok}
use rtpkit.Stream.{Floats, RtpStreamStats, Arrival}
use rtpkit.Stream.State.{StreamState}
use rtpkit.Stream.Tracker.{RtpStreamTracker, state_or_new, observe, observe_all, all_stats}
use rtpkit.Stream.Invariant.{IsConsistent, new_state-IsConsistent, observe-IsConsistent}
use rtpkit.Stream.Stats.{Describes, snapshot-Describes}
use rtpkit.Stream.Reports.{Fits, observe_counts}

module _ (floats : Floats) where
  open floats use {Float}

  -- A stream that has observed a packet.
  abbrev Started : ℕ × StreamState Float → Type 0
  Started (ssrc, s) = IsConsistent ssrc s × ((f : ℤ) × (s.first_ext_seq ≡ some f))

  insert-All :
      (P : ℕ × StreamState Float → Type 0) (k : ℕ) (v : StreamState Float)
      (d : List (ℕ × StreamState Float))
      → P (k, v)
      → All P d
      → All P (insert k v d)
  insert-All P k v [] p h = (p, tt)
  insert-All P k v ((j, w) ∷ d) p (q, h) = elim (beq_cases k j) [
    | inl (same, e) ↦ rw same (rw (sym e) p, h)
    | inr (differ, _) ↦ rw differ (q, insert-All P k v d p h)
  ]

  current-IsConsistent :
      (ssrc payload_type : ℕ) (self : RtpStreamTracker floats)
      → All Started self
      → IsConsistent ssrc (state_or_new floats (lookup ssrc self) payload_type)
  current-IsConsistent ssrc payload_type [] h = new_state-IsConsistent floats ssrc payload_type
  current-IsConsistent ssrc payload_type ((j, s) ∷ more) ((c, _), h) = elim (beq_cases ssrc j) [
    | inl (same, e) ↦ rw same (rw e c)
    | inr (differ, _) ↦ rw differ (current-IsConsistent ssrc payload_type more h)
  ]

  observe-Started :
      (self : RtpStreamTracker floats) (a : Arrival Float)
      → a.packet.sequence_number < 2 ^ 16
      → All Started self
      → All Started (observe floats self a)
  unfolding observe
  observe-Started self a fits h =
      insert-All Started a.packet.ssrc _ self
        (
          observe-IsConsistent floats a.packet.ssrc current a refl fits
              (current-IsConsistent a.packet.ssrc a.packet.payload_type self h),
          (_, (observe_counts floats current a).1),
        )
        h
    where
      current : StreamState Float
      current = state_or_new floats (lookup a.packet.ssrc self) a.packet.payload_type

  observe_all-Started :
      (self : RtpStreamTracker floats) (arrivals : List (Arrival Float))
      → All (Fits floats) arrivals
      → All Started self
      → All Started (observe_all floats self arrivals)
  unfolding observe_all
  observe_all-Started self [] fits h = h
  observe_all-Started self (a ∷ more) (fit, fits) h =
      observe_all-Started (observe floats self a) more fits (observe-Started self a fit h)

  -- Statistics for each of some states, in their order.
  abbrev pub DescribesAll : List (ℕ × StreamState Float) → List (ℕ × RtpStreamStats Float) → Type 0
  DescribesAll [] [] = Unit
  DescribesAll ((ssrc, s) ∷ states) ((k, r) ∷ reports) =
      (k ≡ ssrc) × Describes ssrc s r × DescribesAll states reports
  DescribesAll _ _ = ⊥

  all_stats-Started :
      (self : RtpStreamTracker floats)
      → All Started self
      → (reports : List (ℕ × RtpStreamStats Float)) × (all_stats floats self ≡ ok reports [])
        × DescribesAll self reports
  unfolding all_stats
  all_stats-Started [] h = ([], refl, tt)
  all_stats-Started ((ssrc, s) ∷ more) ((c, (f, e)), h) =
      let (r, q, d) = snapshot-Describes floats ssrc s f e c in
      let (reports, p, ds) = all_stats-Started more h in
      ((ssrc, r) ∷ reports, rw (q, p) refl, (refl, d, ds))

  -- `all_stats` never fails the `assert` in `snapshot`: after any packets with sequence numbers of 16 bits it
  -- returns one report for each stream, in the order of the streams, that describes its state; its out-of-order count leaves out
  -- late duplicates.
  pub all_stats-DescribesAll :
      (arrivals : List (Arrival Float))
      → All (Fits floats) arrivals
      → (reports : List (ℕ × RtpStreamStats Float)) × (all_stats floats
            (observe_all floats [] arrivals)
          ≡ ok reports [])
        × DescribesAll (observe_all floats [] arrivals) reports
  all_stats-DescribesAll arrivals fits =
      all_stats-Started (observe_all floats [] arrivals) (observe_all-Started [] arrivals fits tt)
