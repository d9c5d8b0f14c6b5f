-- ===== src/Stream/Stats.antt =====
-- What `snapshot` reports of a consistent state.
use rtpkit.Common.{
  ℕ, suc, ◌+◌, ◌-◌, ◌≤◌, ◌≡◌, ◌∙◌, refl, sym, ap, subst, true, Option, none, some, List, [], ◌∷◌,
  All, length, arith,
}
use rtpkit.Common.Int.{ℤ, pos, negsuc, pos_part, sub_ℕ, ◌≤ℤ◌, ◌<ℤ◌, ◌+ℤ◌, ◌-ℤ◌}
use rtpkit.Common.Keys.{contains, keys, int_eq}
use rtpkit.Common.Dicts.{contains-All, All-mono}
use rtpkit.Outcome.{ok}
use rtpkit.Stream.{Floats, RtpStreamStats}
use rtpkit.Stream.State.{StreamState, stats_between, snapshot}
use rtpkit.Stream.Invariant.{IsConsistent, Spans, overtaken}
use rtpkit.Stream.Loss.{missing, missing-length, step_lt}

-- The numbers from one to another.
span_size :
    (first highest : ℤ)
    → first ≤ℤ highest
    → (highest -ℤ first +ℤ pos 1 ≡ pos (suc (pos_part (highest -ℤ first))))
      × (first +ℤ pos (pos_part (highest -ℤ first)) ≡ highest)
span_size (pos m) (pos n) h = ground arith
span_size (pos m) (negsuc n) h = ground arith
span_size (negsuc m) (pos n) h = ground arith
span_size (negsuc m) (negsuc n) h = ground arith

lost_size :
    (span size duplicates : ℕ)
    → pos_part (pos (suc span) -ℤ sub_ℕ (size + duplicates) duplicates) ≡ suc span - size
lost_size span size duplicates = ground arith

length-keys : {V : Type 0} (d : List (ℤ × V)) → length (keys d) ≡ length d
length-keys [] = refl
length-keys (b ∷ d) = ap suc (length-keys d)

plus_suc : (first : ℤ) (n : ℕ) → first +ℤ pos (suc n) ≡ first +ℤ pos n +ℤ pos 1
plus_suc (pos m) n = ground arith
plus_suc (negsuc m) n = ground arith

le_lt_trans : (a b c : ℤ) → a ≤ℤ b → b <ℤ c → a <ℤ c
le_lt_trans a b c h g = omega arith

pair_All : (P Q : ℤ → Type 0) (ks : List ℤ) → All P ks → All Q ks → All (λ (k : ℤ). P k × Q k) ks
pair_All P Q [] h g = tt
pair_All P Q (k ∷ ks) (p, h) (q, g) = ((p, q), pair_All P Q ks h g)

-- The statistics of a state. A late packet counts as such once for its number, when it is stored. The loss is exact where no stored packet lies before the one that came first.
pub record Describes {Float : Type 0} (ssrc : ℕ) (s : StreamState Float) (r : RtpStreamStats Float)
    : Type 0 where
  pub ssrc_eq : r.ssrc ≡ ssrc
  pub payload_type_eq : r.payload_type ≡ s.payload_type
  pub count_eq : r.packet_count ≡ s.packet_count
  pub unique_eq : r.packet_count ≡ length s.packets + r.duplicate_count
  pub late_eq : r.out_of_order_count ≡ overtaken [] (keys s.packets)
  pub first_eq : some r.first_extended_sequence ≡ s.first_ext_seq
  pub highest_stored : contains r.highest_extended_sequence (keys s.packets) ≡ true
  pub highest_top : All (λ (k : ℤ). k ≤ℤ r.highest_extended_sequence) (keys s.packets)
  pub expected_eq :
      r.first_extended_sequence +ℤ r.expected_count ≡ r.highest_extended_sequence +ℤ pos 1
  pub lost_lt : pos r.lost_count <ℤ r.expected_count
  pub lost_eq :
      All (λ (k : ℤ). r.first_extended_sequence ≤ℤ k) (keys s.packets)
      → r.lost_count
        ≡ missing (keys s.packets) r.first_extended_sequence (pos_part r.expected_count)

module _ (floats : Floats) where
  open floats use {Float}

  -- With the parts of `lost_count` computed.
  between-Describes :
      (ssrc : ℕ) (s : StreamState Float) (f h : ℤ)
      → some f ≡ s.first_ext_seq
      → IsConsistent ssrc s
      → Spans (some f) (some h) s.out_of_order_count (keys s.packets)
      → (r : RtpStreamStats Float) × (stats_between floats s ssrc (some f) (some h) ≡ ok r [])
        × Describes ssrc s r
  between-Describes ssrc s f h first_eq c (has_f, has_h, top, late) = (
    _,
    refl,
    record {
      ssrc_eq = refl;
      payload_type_eq = refl;
      count_eq = refl;
      unique_eq = c.counted;
      late_eq = late;
      first_eq = first_eq;
      highest_stored = has_h;
      highest_top = top;
      expected_eq = ap (◌+ℤ◌ f) expected ∙ plus_suc f span ∙ ap (λ (k : ℤ). k +ℤ pos 1) reached;
      lost_lt =
          rw (expected, c.counted, lost_size span (length s.packets) s.duplicate_count)
            (omega (arith, stored (keys s.packets) has_f, length-keys s.packets));
      lost_eq = λ low.
          rw (expected, c.counted, lost_size span (length s.packets) s.duplicate_count)
            (omega (
              arith,
              length-keys s.packets,
              missing-length (keys s.packets) f (suc span) c.no_dup (in_range low),
            ));
    },
  )
    where
      stored : (ks : List ℤ) → contains f ks ≡ true → 1 ≤ length ks
      stored [] h = absurd (cc h)
      stored (k ∷ ks) h = omega arith

      span : ℕ
      span = pos_part (h -ℤ f)

      f_le : f ≤ℤ h
      f_le = contains-All (λ (k : ℤ). k ≤ℤ h) f (keys s.packets) has_f top

      expected : h -ℤ f +ℤ pos 1 ≡ pos (suc span)
      expected = (span_size f h f_le).0

      reached : f +ℤ pos span ≡ h
      reached = (span_size f h f_le).1

      in_range :
          All (λ (k : ℤ). f ≤ℤ k) (keys s.packets)
          → All (λ (k : ℤ). (f ≤ℤ k) × (k <ℤ f +ℤ pos (suc span))) (keys s.packets)
      in_range low = pair_All _ _ (keys s.packets) low (
          All-mono _ _ (keys s.packets)
            (λ k under.
              le_lt_trans k (f +ℤ pos span) (f +ℤ pos (suc span))
                (subst (λ (j : ℤ). k ≤ℤ j) (sym reached) under) (step_lt f span))
            top)

  options-Describes :
      (ssrc : ℕ) (s : StreamState Float) (first highest : Option ℤ) (f : ℤ)
      → first ≡ s.first_ext_seq
      → first ≡ some f
      → IsConsistent ssrc s
      → Spans first highest s.out_of_order_count (keys s.packets)
      → (r : RtpStreamStats Float) × (stats_between floats s ssrc first highest ≡ ok r [])
        × Describes ssrc s r
  options-Describes ssrc s (some g) (some h) f e q c i = between-Describes ssrc s g h e c i
  options-Describes ssrc s none highest f e q c i = absurd (cc q)
  options-Describes ssrc s (some g) none f e q c i = absurd i

  -- A consistent state that has a first number passes the `assert` of `snapshot`.
  pub snapshot-Describes :
      (ssrc : ℕ) (s : StreamState Float) (f : ℤ)
      → s.first_ext_seq ≡ some f
      → IsConsistent ssrc s
      → (r : RtpStreamStats Float) × (snapshot floats s ssrc ≡ ok r []) × Describes ssrc s r
  unfolding snapshot
  snapshot-Describes ssrc s f e c =
      options-Describes ssrc s s.first_ext_seq s.highest_ext_seq f refl e c c.spans
