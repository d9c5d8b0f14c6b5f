-- ===== src/Stream/Reports.antt =====
-- What a tracker reports after any sequence of packets: each observed stream has statistics, and its
-- packets in order.
use rtpkit.Common.{
  ℕ, suc, ◌+◌, ◌^◌, ◌<◌, ◌≡◌, ◌∙◌, refl, sym, subst, none, some, List, [], ◌∷◌, inl, inr,
  Bool-cases, ◌==◌, ==_iff, All, length, arith,
}
use rtpkit.Common.Int.{ℤ, pos}
use rtpkit.Common.Keys.{contains, lookup, int_eq, nat_eq}
use rtpkit.Outcome.{ok}
use rtpkit.Rtp.{RtpPacket}
use rtpkit.Stream.{Floats, RtpStreamStats, Arrival}
use rtpkit.Stream.State.{StreamState, extend, first_or, new_state, snapshot}
use rtpkit.Stream.State
use rtpkit.Stream.Tracker.{observe_all, stats, stats_of, ordered_packets}
use rtpkit.Stream.Invariant.{IsConsistent, new_state-IsConsistent, observe-IsConsistent}
use rtpkit.Stream.Isolation.{of_ssrc, follow, lookup-observe_all}
use rtpkit.Stream.Order.{IsOrdered, items_at-IsOrdered}
use rtpkit.Stream.Stats.{Describes, snapshot-Describes}

module _ (floats : Floats) where
  open floats use {Float}

  -- An arrival whose sequence number has 16 bits.
  abbrev pub Fits : Arrival Float → Type 0
  Fits a = a.packet.sequence_number < 2 ^ 16

  abbrev Suits : ℕ → Arrival Float → Type 0
  Suits ssrc a = (a.packet.ssrc ≡ ssrc) × (a.packet.sequence_number < 2 ^ 16)

  of_ssrc-Suits :
      (ssrc : ℕ) (arrivals : List (Arrival Float))
      → All Fits arrivals
      → All (Suits ssrc) (of_ssrc floats ssrc arrivals)
  of_ssrc-Suits ssrc [] h = tt
  of_ssrc-Suits ssrc (a ∷ more) (fits, h) = elim (Bool-cases (ssrc == a.packet.ssrc)) [
    | inl same ↦
        rw same ((sym ((==_iff ssrc a.packet.ssrc).0 same), fits), of_ssrc-Suits ssrc more h)
    | inr differ ↦ rw differ (of_ssrc-Suits ssrc more h)
  ]

  pub observe_counts :
      (s : StreamState Float) (a : Arrival Float)
      → ((State.observe floats s a).packet_count ≡ s.packet_count + 1)
        × ((State.observe floats s a).first_ext_seq
            ≡ some (first_or s.first_ext_seq (extend s.highest_ext_seq a.packet.sequence_number)))
  unfolding State.observe
  observe_counts s a =
      elim (Bool-cases
        (contains (extend s.highest_ext_seq a.packet.sequence_number) s.seen_ext_seqs)) [
          | inl old ↦ rw old (refl, refl)
          | inr new ↦ rw new (refl, refl)
        ]

  -- The state of a stream that began with `first` and has `count` packets.
  record Runs (ssrc count : ℕ) (first : ℤ) (s : StreamState Float) : Type 0 where
    consistent : IsConsistent ssrc s
    first_eq : s.first_ext_seq ≡ some first
    count_eq : s.packet_count ≡ count

  follow-Runs :
      (ssrc count : ℕ) (first : ℤ) (s : StreamState Float) (arrivals : List (Arrival Float))
      → All (Suits ssrc) arrivals
      → Runs ssrc count first s
      → (r : StreamState Float) × (follow floats (some s) arrivals ≡ some r)
        × Runs ssrc (count + length arrivals) first r
  follow-Runs ssrc count first s [] h k = (s, refl, subst (λ (n : ℕ). Runs ssrc n first s) n_eq k)
    where
      n_eq : count ≡ count + 0
      n_eq = omega arith
  follow-Runs ssrc count first s (a ∷ more) ((mine, fits), h) k =
      let (r, e, runs) =
        follow-Runs ssrc (count + 1) first (State.observe floats s a) more h next in
      (r, e, subst (λ (n : ℕ). Runs ssrc n first r) n_eq runs)
    where
      n_eq : count + 1 + length more ≡ count + suc (length more)
      n_eq = omega arith

      next : Runs ssrc (count + 1) first (State.observe floats s a)
      next = record {
        consistent = observe-IsConsistent floats ssrc s a mine fits k.consistent;
        first_eq = (observe_counts s a).1 ∙ rw k.first_eq refl;
        count_eq = omega (arith, (observe_counts s a).0, k.count_eq);
      }

  stream-Runs :
      (ssrc : ℕ) (a : Arrival Float) (more : List (Arrival Float))
      → All (Suits ssrc) (a ∷ more)
      → (r : StreamState Float) × (follow floats none (a ∷ more) ≡ some r)
        × Runs ssrc (suc (length more)) (pos a.packet.sequence_number) r
  unfolding new_state extend
  stream-Runs ssrc a more ((mine, fits), h) =
      let (r, e, runs) =
        follow-Runs ssrc 1 (pos a.packet.sequence_number) (State.observe floats fresh a) more h
          first_one in
      (r, e, subst (λ (n : ℕ). Runs ssrc n (pos a.packet.sequence_number) r) n_eq runs)
    where
      fresh : StreamState Float
      fresh = new_state floats a.packet.payload_type

      n_eq : 1 + length more ≡ suc (length more)
      n_eq = omega arith

      first_one : Runs ssrc 1 (pos a.packet.sequence_number) (State.observe floats fresh a)
      first_one = record {
        consistent =
            observe-IsConsistent floats ssrc fresh a mine fits
              (new_state-IsConsistent floats ssrc a.packet.payload_type);
        first_eq = (observe_counts fresh a).1;
        count_eq = (observe_counts fresh a).0;
      }

  stream_of :
      (ssrc : ℕ) (mine : List (Arrival Float)) (s : StreamState Float)
      → All (Suits ssrc) mine
      → follow floats none mine ≡ some s
      → IsConsistent ssrc s × (s.packet_count ≡ length mine)
  stream_of ssrc [] s h e = absurd (cc e)
  stream_of ssrc (a ∷ more) s h e =
      let (r, q, runs) = stream-Runs ssrc a more h in
      subst (λ (t : StreamState Float). IsConsistent ssrc t × (t.packet_count ≡ suc (length more)))
        (some_inj r s (sym q ∙ e)) (runs.consistent, runs.count_eq)
    where
      some_inj : (r s : StreamState Float) → some r ≡ some s → r ≡ s
      some_inj r s p = cc p

  -- Whatever packets a tracker has observed, if their sequence numbers have 16 bits, the state that it keeps for
  -- an SSRC is consistent: its packet count is that of the stream's packets and the sum of those
  -- stored and the duplicates, the set of seen numbers is that of the keys, which are all different,
  -- each packet is stored under a number that leaves its sequence number by 2^16, the first and the
  -- highest number are stored, none is higher, and the out-of-order count is the number of stored packets,
  -- in the order in which they came, that came later than one with a higher number: a late duplicate is
  -- not among them.
  pub observe_all-IsConsistent :
      (arrivals : List (Arrival Float)) (ssrc : ℕ) (s : StreamState Float)
      → All Fits arrivals
      → lookup ssrc (observe_all floats [] arrivals) ≡ some s
      → IsConsistent ssrc s × (s.packet_count ≡ length (of_ssrc floats ssrc arrivals))
  observe_all-IsConsistent arrivals ssrc s h e =
      stream_of ssrc (of_ssrc floats ssrc arrivals) s (of_ssrc-Suits ssrc arrivals h)
        (sym (lookup-observe_all floats [] arrivals ssrc) ∙ e)

  stats_of-Runs :
      (ssrc count : ℕ) (first : ℤ) (s : StreamState Float)
      → Runs ssrc count first s
      → (r : RtpStreamStats Float) × (stats_of floats ssrc (some s) ≡ ok (some r) [])
        × (r.packet_count ≡ count)
        × (r.first_extended_sequence ≡ first)
        × Describes ssrc s r
  stats_of-Runs ssrc count first s k =
      let (r, e, d) = snapshot-Describes floats ssrc s first k.first_eq k.consistent in
      (
        r,
        rw e refl,
        d.count_eq ∙ k.count_eq,
        some_inj r.first_extended_sequence first (d.first_eq ∙ k.first_eq),
        d,
      )
    where
      some_inj : (i j : ℤ) → some i ≡ some j → i ≡ j
      some_inj i j p = cc p

  -- Once a packet of an SSRC has been observed, `stats` answers for it, and the `assert` in `snapshot` holds.
  -- The statistics count the stream's packets from the first one's sequence number, describe the
  -- stored packets, count as out of order the stored ones that came later than a higher one, late
  -- duplicates left out, and report fewer lost packets than expected ones; where no packet from before
  -- the first one came in late, the loss is the number of the extended numbers up to the highest
  -- that are missing.
  pub stats-Describes :
      (arrivals : List (Arrival Float)) (ssrc : ℕ) (a : Arrival Float) (more : List (Arrival Float))
      → All Fits arrivals
      → of_ssrc floats ssrc arrivals ≡ a ∷ more
      → (s : StreamState Float) × (r : RtpStreamStats Float) × (lookup ssrc
            (observe_all floats [] arrivals)
          ≡ some s)
        × (stats floats (observe_all floats [] arrivals) ssrc ≡ ok (some r) [])
        × (r.packet_count ≡ suc (length more))
        × (r.first_extended_sequence ≡ pos a.packet.sequence_number)
        × Describes ssrc s r
  unfolding stats
  stats-Describes arrivals ssrc a more h e =
      let (s, q, runs) =
        stream-Runs ssrc a more (subst (All (Suits ssrc)) e (of_ssrc-Suits ssrc arrivals h)) in
      let found = lookup-observe_all floats [] arrivals ssrc ∙ rw e q in
      let (r, p, count, first, d) =
        stats_of-Runs ssrc (suc (length more)) (pos a.packet.sequence_number) s runs in
      (s, r, found, rw found p, count, first, d)

  -- `ordered_packets` returns the stored packets of an observed stream, each once, in strictly rising order of
  -- their extended numbers; it raises no KeyError.
  pub ordered_packets-IsOrdered :
      (arrivals : List (Arrival Float)) (ssrc : ℕ) (s : StreamState Float)
      → All Fits arrivals
      → lookup ssrc (observe_all floats [] arrivals) ≡ some s
      → (ps : List RtpPacket) × (ordered_packets floats (observe_all floats [] arrivals) ssrc
          ≡ ok ps [])
        × IsOrdered s.packets ps
  unfolding ordered_packets State.ordered_packets
  ordered_packets-IsOrdered arrivals ssrc s h e =
      let (c, _) = observe_all-IsConsistent arrivals ssrc s h e in
      rw e (items_at-IsOrdered s.packets c.no_dup)
