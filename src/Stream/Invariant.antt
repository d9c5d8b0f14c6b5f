-- ===== src/Stream/Invariant.antt =====
-- What holds of the state of a stream whatever packets it has observed.
use rtpkit.Common.{
  ℕ, ◌+◌, ◌^◌, ◌<◌, ◌≡◌, ◌∙◌, refl, sym, ap, append-nil, append_assoc, Bool, true, false, Option,
  none, some, List, [], ◌∷◌, ◌++◌, ◌⊎◌, inl, inr, Bool-cases, All, length, length-append, ◌||◌,
  if◌then◌else◌, arith,
}
use rtpkit.Common.Int.{ℤ, mod_ℤ, ◌≤ℤ◌, ltb_ℤ}
use rtpkit.Common.Keys.{NoDup, contains, keys, int_eq, beq_ℤ, beq_cases}
use rtpkit.Common.Dicts.{
  All-append, All-mono, contains-append, contains-append_left, contains-append_last,
  NoDup-append_one, insert_new, keys-append,
}
use rtpkit.Rtp.{RtpPacket}
use rtpkit.Stream.{Floats, Arrival}
use rtpkit.Stream.State.{StreamState, extend, first_or, raise_highest, below, new_state, observe}
use rtpkit.Stream.Extend.{extend_nearest}

-- Some of the numbers is above `k`.
abbrev pub any_above : ℤ → List ℤ → Bool
any_above k [] = false
any_above k (j ∷ js) = ltb_ℤ k j || any_above k js

-- How many of `ks`, which came in this order after `earlier`, came later than a higher one.
abbrev pub overtaken : List ℤ → List ℤ → ℕ
overtaken earlier [] = 0
overtaken earlier (k ∷ ks) =
    (if any_above k earlier then 1 else 0) + overtaken (earlier ++ (k ∷ [])) ks

-- The first and the highest number, and the count of late packets, for the numbers stored.
abbrev pub Spans : Option ℤ → Option ℤ → ℕ → List ℤ → Type 0
Spans none none late ks = (ks ≡ []) × (late ≡ 0)
Spans (some first) (some highest) late ks =
    (contains first ks ≡ true)
    × (contains highest ks ≡ true)
    × All (λ (k : ℤ). k ≤ℤ highest) ks
    × (late ≡ overtaken [] ks)
Spans _ _ _ _ = ⊥

-- A packet of the stream under its extended number.
abbrev pub Belongs : ℕ → ℤ × RtpPacket → Type 0
Belongs ssrc (k, p) = (mod_ℤ k (2 ^ 16) ≡ p.sequence_number) × (p.ssrc ≡ ssrc)

pub record IsConsistent {Float : Type 0} (ssrc : ℕ) (s : StreamState Float) : Type 0 where
  pub counted : s.packet_count ≡ length s.packets + s.duplicate_count
  pub same_keys : (k : ℤ) → contains k s.seen_ext_seqs ≡ contains k (keys s.packets)
  pub no_dup : NoDup (keys s.packets)
  pub belong : All (Belongs ssrc) s.packets
  pub spans : Spans s.first_ext_seq s.highest_ext_seq s.out_of_order_count (keys s.packets)

overtaken-append_one :
    (earlier ks : List ℤ) (k : ℤ)
    → overtaken earlier (ks ++ (k ∷ []))
      ≡ overtaken earlier ks + (if any_above k (earlier ++ ks) then 1 else 0)
overtaken-append_one earlier [] k = rw (append-nil earlier) (omega arith)
overtaken-append_one earlier (j ∷ ks) k = omega (
  arith,
  overtaken-append_one (earlier ++ (j ∷ [])) ks k,
  ap {B = ℕ} (λ (js : List ℤ). if any_above k js then 1 else 0) (append_assoc earlier (j ∷ []) ks),
)

-- The highest number tells whether some number is above.
above_found :
    (k m : ℤ) (ks : List ℤ) → ltb_ℤ k m ≡ true → contains m ks ≡ true → any_above k ks ≡ true
above_found k m [] h e = absurd (cc e)
above_found k m (j ∷ js) h e = elim (beq_cases m j) [
  | inl (same, q) ↦ rw (sym q, h) refl
  | inr (differ, q) ↦ rw (above_found k m js h (rw differ at e)) (or_true (ltb_ℤ k j))
]
  where
    or_true : (b : Bool) → (b || true) ≡ true
    or_true b = ground arith

above_none :
    (k m : ℤ) (ks : List ℤ)
    → ltb_ℤ k m ≡ false
    → All (λ (j : ℤ). j ≤ℤ m) ks
    → any_above k ks ≡ false
above_none k m [] h top = refl
above_none k m (j ∷ js) h (under, top) = rw (not_above, above_none k m js h top) refl
  where
    not_above : ltb_ℤ k j ≡ false
    not_above = ground arith

any_above-below :
    (k m : ℤ) (ks : List ℤ)
    → contains m ks ≡ true
    → All (λ (j : ℤ). j ≤ℤ m) ks
    → any_above k ks ≡ below k (some m)
any_above-below k m ks h top = elim (Bool-cases (ltb_ℤ k m)) [
  | inl above ↦ above_found k m ks above h ∙ sym above
  | inr under ↦ above_none k m ks under top ∙ sym under
]

if_suc : (b : Bool) (n : ℕ) → (if b then n + 1 else n) ≡ n + (if b then 1 else 0)
if_suc b n = ground arith

≤ℤ_refl : (k : ℤ) → k ≤ℤ k
≤ℤ_refl k = omega arith

≤ℤ_trans : (i j k : ℤ) → i ≤ℤ j → j ≤ℤ k → i ≤ℤ k
≤ℤ_trans i j k g h = omega arith

raise_highest_cases :
    (m k : ℤ)
    → ((raise_highest (some m) k ≡ m) × (k ≤ℤ m))
      ⊎ ((raise_highest (some m) k ≡ k) × (m ≤ℤ k) × (below k (some m) ≡ false))
raise_highest_cases m k = elim (Bool-cases (ltb_ℤ m k)) [
  | inl above ↦ inr (rw above refl, ground arith, ground arith)
  | inr under ↦ inl (rw under refl, ground arith)
]

Spans-old :
    (first highest : Option ℤ) (late : ℕ) (ks : List ℤ) (k : ℤ)
    → contains k ks ≡ true
    → Spans first highest late ks
    → Spans (some (first_or first k)) (some (raise_highest highest k)) late ks
Spans-old none none late ks k h (e, _) = absurd (cc (rw e at h))
Spans-old (some f) (some m) late ks k h (hf, hm, top, few) = elim (raise_highest_cases m k) [
  | inl (e, _) ↦ rw e (hf, hm, top, few)
  | inr (e, over, _) ↦
      rw e (hf, h, All-mono _ _ ks (λ j below_m. ≤ℤ_trans j m k below_m over) top, few)
]
Spans-old none (some m) late ks k h i = absurd i
Spans-old (some f) none late ks k h i = absurd i

Spans-new :
    (first highest : Option ℤ) (late : ℕ) (ks : List ℤ) (k : ℤ)
    → Spans first highest late ks
    → Spans
        (some (first_or first k))
        (some (raise_highest highest k))
        (if below k highest then late + 1 else late)
        (ks ++ (k ∷ []))
Spans-new none none late ks k (e, n) = rw e (only_one k, only_one k, (≤ℤ_refl k, tt), omega arith)
  where
    only_one : (j : ℤ) → contains j (j ∷ []) ≡ true
    only_one j = contains-append_last j []
Spans-new (some f) (some m) late ks k (hf, hm, top, few) = elim (raise_highest_cases m k) [
  | inl (e, under) ↦ rw e (
    contains-append_left f ks (k ∷ []) hf,
    contains-append_left m ks (k ∷ []) hm,
    All-append _ ks (k ∷ []) top (under, tt),
    few_more,
  )
  | inr (e, over, _) ↦ rw e (
    contains-append_left f ks (k ∷ []) hf,
    contains-append_last k ks,
    All-append _ ks (k ∷ []) (All-mono _ _ ks (λ j below_m. ≤ℤ_trans j m k below_m over) top)
        (≤ℤ_refl k, tt),
    few_more,
  )
]
  where
    few_more : (if below k (some m) then late + 1 else late) ≡ overtaken [] (ks ++ (k ∷ []))
    few_more =
        if_suc (below k (some m)) late
        ∙ ap (λ (n : ℕ). n + (if below k (some m) then 1 else 0)) few
        ∙ ap (λ (b : Bool). overtaken [] ks + (if b then 1 else 0))
            (sym (any_above-below k m ks hm top))
        ∙ sym (overtaken-append_one [] ks k)
Spans-new none (some m) late ks k i = absurd i
Spans-new (some f) none late ks k i = absurd i

extend_leaves :
    (highest : Option ℤ) (seq : ℕ) → seq < 2 ^ 16 → mod_ℤ (extend highest seq) (2 ^ 16) ≡ seq
unfolding extend
extend_leaves none seq h = omega arith
extend_leaves (some highest) seq h = (extend_nearest highest seq h).0

or_swap : (a b : Bool) → (a || b) ≡ (b || (a || false))
or_swap a b = ground arith

module _ (floats : Floats) where
  open floats use {Float}

  pub new_state-IsConsistent :
      (ssrc payload_type : ℕ) → IsConsistent ssrc (new_state floats payload_type)
  unfolding new_state
  new_state-IsConsistent ssrc payload_type = record {
    counted = refl;
    same_keys = λ k. refl;
    no_dup = tt;
    belong = tt;
    spans = (refl, refl);
  }

  pub observe-IsConsistent :
      (ssrc : ℕ) (s : StreamState Float) (a : Arrival Float)
      → a.packet.ssrc ≡ ssrc
      → a.packet.sequence_number < 2 ^ 16
      → IsConsistent ssrc s
      → IsConsistent ssrc (observe floats s a)
  unfolding observe
  observe-IsConsistent ssrc s a mine fits c = elim (Bool-cases (contains e s.seen_ext_seqs)) [
    | inl old ↦ rw old (record {
      counted = omega (arith, c.counted);
      same_keys = c.same_keys;
      no_dup = c.no_dup;
      belong = c.belong;
      spans =
          Spans-old s.first_ext_seq s.highest_ext_seq s.out_of_order_count (keys s.packets) e
            (sym (c.same_keys e) ∙ old) c.spans;
    })
    | inr new ↦
        rw (new, insert_new e a.packet s.packets (fresh e new))
          (record {
            counted = omega (arith, c.counted, length-append s.packets ((e, a.packet) ∷ []));
            same_keys = λ k.
                rw
                  (
                    keys-append s.packets ((e, a.packet) ∷ []),
                    contains-append k (keys s.packets) (e ∷ []),
                    c.same_keys k,
                  )
                  (or_swap (beq_ℤ k e) (contains k (keys s.packets)));
            no_dup =
                rw (keys-append s.packets ((e, a.packet) ∷ []))
                  (NoDup-append_one e (keys s.packets) (fresh e new) c.no_dup);
            belong = All-append (Belongs ssrc) s.packets _ c.belong ((leaves, mine), tt);
            spans = rw (keys-append s.packets ((e, a.packet) ∷ [])) (
                Spans-new s.first_ext_seq s.highest_ext_seq s.out_of_order_count (keys s.packets) e
                  c.spans);
          })
  ]
    where
      e : ℤ
      e = extend s.highest_ext_seq a.packet.sequence_number

      fresh : (k : ℤ) → contains k s.seen_ext_seqs ≡ false → contains k (keys s.packets) ≡ false
      fresh k h = sym (c.same_keys k) ∙ h

      leaves : mod_ℤ e (2 ^ 16) ≡ a.packet.sequence_number
      leaves = extend_leaves s.highest_ext_seq a.packet.sequence_number fits
