-- ===== src/Stream/Isolation.antt =====
-- The streams of a tracker do not touch each other: the state of an SSRC is what its own packets make
-- of it, in their order.
use rtpkit.Common.{
  ℕ, ◌≡◌, ◌∙◌, refl, ap, ◌≢◌, Option, none, some, List, [], ◌∷◌, ◌++◌, map, inl, inr, ◌==◌,
  if◌then◌else◌,
}
use rtpkit.Common.Keys.{
  contains, lookup, keys, nat_eq, beq_cases, lookup-insert_self, lookup-insert_ne,
}
use rtpkit.Common.Dicts.{keys-insert}
use rtpkit.Stream.{Floats, Arrival}
use rtpkit.Stream.State.{StreamState}
use rtpkit.Stream.State
use rtpkit.Stream.Tracker.{RtpStreamTracker, state_or_new, observe, ssrcs, observe_all}

-- `n` behind the numbers that were there, unless it is one of them.
abbrev pub enlist : ℕ → List ℕ → List ℕ
enlist n ns = if contains n ns then ns else ns ++ (n ∷ [])

abbrev pub enlist_all : List ℕ → List ℕ → List ℕ
enlist_all ns [] = ns
enlist_all ns (m ∷ ms) = enlist_all (enlist m ns) ms

module _ (floats : Floats) where
  open floats use {Float}

  abbrev pub of_ssrc : ℕ → List (Arrival Float) → List (Arrival Float)
  of_ssrc ssrc [] = []
  of_ssrc ssrc (a ∷ more) =
      if ssrc == a.packet.ssrc then a ∷ of_ssrc ssrc more else of_ssrc ssrc more

  -- One stream alone.
  abbrev pub follow : Option (StreamState Float) → List (Arrival Float) → Option (StreamState Float)
  follow o [] = o
  follow o (a ∷ more) =
      follow (some (State.observe floats (state_or_new floats o a.packet.payload_type) a)) more

  lookup-observe_self :
      (self : RtpStreamTracker floats) (a : Arrival Float)
      → lookup a.packet.ssrc (observe floats self a)
        ≡ some (
            State.observe floats
              (state_or_new floats (lookup a.packet.ssrc self) a.packet.payload_type)
              a)
  unfolding observe
  lookup-observe_self self a = lookup-insert_self a.packet.ssrc _ self

  lookup-observe_ne :
      (self : RtpStreamTracker floats) (a : Arrival Float) (ssrc : ℕ)
      → ssrc ≢ a.packet.ssrc
      → lookup ssrc (observe floats self a) ≡ lookup ssrc self
  unfolding observe
  lookup-observe_ne self a ssrc n = lookup-insert_ne ssrc a.packet.ssrc _ self n

  pub lookup-observe_all :
      (self : RtpStreamTracker floats) (arrivals : List (Arrival Float)) (ssrc : ℕ)
      → lookup ssrc (observe_all floats self arrivals)
        ≡ follow (lookup ssrc self) (of_ssrc ssrc arrivals)
  unfolding observe_all
  lookup-observe_all self [] ssrc = refl
  lookup-observe_all self (a ∷ more) ssrc = elim (beq_cases ssrc a.packet.ssrc) [
    | inl (same, e) ↦ rw same (
        lookup-observe_all (observe floats self a) more ssrc
        ∙ ap (λ (o : Option (StreamState Float)). follow o (of_ssrc ssrc more))
            (rw e (lookup-observe_self self a)))
    | inr (differ, n) ↦ rw differ (
        lookup-observe_all (observe floats self a) more ssrc
        ∙ ap (λ (o : Option (StreamState Float)). follow o (of_ssrc ssrc more))
            (lookup-observe_ne self a ssrc n))
  ]

  keys-observe :
      (self : RtpStreamTracker floats) (a : Arrival Float)
      → keys (observe floats self a) ≡ enlist a.packet.ssrc (keys self)
  unfolding observe
  keys-observe self a = keys-insert a.packet.ssrc _ self

  keys-observe_all :
      (self : RtpStreamTracker floats) (arrivals : List (Arrival Float))
      → keys (observe_all floats self arrivals)
        ≡ enlist_all (keys self) (map (λ (a : Arrival Float). a.packet.ssrc) arrivals)
  unfolding observe_all
  keys-observe_all self [] = refl
  keys-observe_all self (a ∷ more) =
      keys-observe_all (observe floats self a) more
      ∙ ap (λ (ns : List ℕ). enlist_all ns (map (λ (b : Arrival Float). b.packet.ssrc) more))
          (keys-observe self a)

  -- A tracker that has observed any packets lists their SSRCs in first-seen order, and keeps for each SSRC the
  -- state that its own packets alone, in their order, lead to; it keeps none for another SSRC.
  pub observe_all-follow :
      (arrivals : List (Arrival Float))
      → (ssrcs floats (observe_all floats [] arrivals)
          ≡ enlist_all [] (map (λ (a : Arrival Float). a.packet.ssrc) arrivals))
        × ((ssrc : ℕ)
            → lookup ssrc (observe_all floats [] arrivals) ≡ follow none (of_ssrc ssrc arrivals))
  unfolding ssrcs
  observe_all-follow arrivals = (keys-observe_all [] arrivals, lookup-observe_all [] arrivals)
