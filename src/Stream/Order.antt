-- ===== src/Stream/Order.antt =====
-- `sorted` and `_StreamState.ordered_packets`: the stored packets in strictly rising order of their numbers.
use rtpkit.Common.{
  ◌≡◌, ◌∙◌, refl, sym, ap, subst, Bool, true, false, some, List, [], ◌∷◌, map, ◌||◌, inl, inr,
  Bool-cases, All, arith,
}
use rtpkit.Common.Int.{ℤ, pos, negsuc, ◌<ℤ◌, leb_ℤ}
use rtpkit.Common.Keys.{NoDup, contains, lookup, keys, int_eq, beq_refl, beq_ℤ}
use rtpkit.Common.Dicts.{All-mono, lookup-contains, or_false}
use rtpkit.Outcome.{ok}
use rtpkit.Rtp.{RtpPacket}
use rtpkit.Stream.State.{items_at, insert_sorted, sorted}

-- Each number is below all that follow it.
abbrev pub IsAscending : List ℤ → Type 0
IsAscending [] = Unit
IsAscending (k ∷ ks) = All (λ (j : ℤ). k <ℤ j) ks × IsAscending ks

or_rotate : (a b c : Bool) → (b || (a || c)) ≡ (a || (b || c))
or_rotate a b c = ground arith

contains-insert_sorted :
    (i k : ℤ) (ks : List ℤ) → contains i (insert_sorted k ks) ≡ (beq_ℤ i k || contains i ks)
unfolding insert_sorted
contains-insert_sorted i k [] = refl
contains-insert_sorted i k (j ∷ js) = elim (Bool-cases (leb_ℤ k j)) [
  | inl before ↦ rw before refl
  | inr behind ↦
      rw (behind, contains-insert_sorted i k js) (or_rotate (beq_ℤ i k) (beq_ℤ i j) (contains i js))
]

contains-sorted : (i : ℤ) (ks : List ℤ) → contains i (sorted ks) ≡ contains i ks
unfolding sorted
contains-sorted i [] = refl
contains-sorted i (k ∷ ks) =
    contains-insert_sorted i k (sorted ks) ∙ ap (◌||◌ (beq_ℤ i k)) (contains-sorted i ks)

insert_sorted-All :
    (P : ℤ → Type 0) (k : ℤ) (ks : List ℤ) → P k → All P ks → All P (insert_sorted k ks)
unfolding insert_sorted
insert_sorted-All P k [] p h = (p, tt)
insert_sorted-All P k (j ∷ js) p (q, h) = elim (Bool-cases (leb_ℤ k j)) [
  | inl before ↦ rw before (p, (q, h))
  | inr behind ↦ rw behind (q, insert_sorted-All P k js p h)
]

-- Between different numbers.
strictly : (k j : ℤ) → beq_ℤ k j ≡ false → leb_ℤ k j ≡ true → k <ℤ j
strictly (pos m) (pos n) d h = ground arith
strictly (pos m) (negsuc n) d h = ground arith
strictly (negsuc m) (pos n) d h = ground arith
strictly (negsuc m) (negsuc n) d h = ground arith

behind_strictly : (k j : ℤ) → leb_ℤ k j ≡ false → j <ℤ k
behind_strictly (pos m) (pos n) h = ground arith
behind_strictly (pos m) (negsuc n) h = ground arith
behind_strictly (negsuc m) (pos n) h = ground arith
behind_strictly (negsuc m) (negsuc n) h = ground arith

below-All :
    (k j : ℤ) (js : List ℤ) → k <ℤ j → All (λ (i : ℤ). j <ℤ i) js → All (λ (i : ℤ). k <ℤ i) js
below-All k j js h = All-mono _ _ js (λ i g. chain k j i h g)
  where
    chain : (k j i : ℤ) → k <ℤ j → j <ℤ i → k <ℤ i
    chain k j i h g = ground arith

insert_sorted-IsAscending :
    (k : ℤ) (ks : List ℤ)
    → contains k ks ≡ false
    → IsAscending ks
    → IsAscending (insert_sorted k ks)
unfolding insert_sorted
insert_sorted-IsAscending k [] new h = (tt, tt)
insert_sorted-IsAscending k (j ∷ js) new (over, h) = elim (Bool-cases (leb_ℤ k j)) [
  | inl before ↦
      rw before (
        (strictly k j differ before, below-All k j js (strictly k j differ before) over),
        (over, h),
      )
  | inr behind ↦ rw behind (
    insert_sorted-All _ k js (behind_strictly k j behind) over,
    insert_sorted-IsAscending k js fresh h,
  )
]
  where
    differ : beq_ℤ k j ≡ false
    differ = (or_false (beq_ℤ k j) (contains k js) new).0

    fresh : contains k js ≡ false
    fresh = (or_false (beq_ℤ k j) (contains k js) new).1

sorted-IsAscending : (ks : List ℤ) → NoDup ks → IsAscending (sorted ks)
unfolding sorted
sorted-IsAscending [] h = tt
sorted-IsAscending (k ∷ ks) (new, h) =
    insert_sorted-IsAscending k (sorted ks) (contains-sorted k ks ∙ new) (sorted-IsAscending ks h)

-- The reading of the items under some keys.
abbrev pub Stored : List (ℤ × RtpPacket) → ℤ × RtpPacket → Type 0
Stored d (k, p) = lookup k d ≡ some p

items_at-Stored :
    (d : List (ℤ × RtpPacket)) (ks : List ℤ)
    → All (λ (k : ℤ). contains k (keys d) ≡ true) ks
    → (entries : List (ℤ × RtpPacket)) × (keys entries ≡ ks)
      × All (Stored d) entries
      × (items_at d ks ≡ ok (map (λ (b : ℤ × RtpPacket). b.1) entries) [])
unfolding items_at
items_at-Stored d [] h = ([], refl, tt, refl)
items_at-Stored d (k ∷ ks) (there, h) =
    let (p, e) = lookup-contains k d there in
    let (entries, same, stored, read) = items_at-Stored d ks h in
    ((k, p) ∷ entries, ap (◌∷◌ k) same, (e, stored), rw (e, read) refl)

contains_self_All :
    (ks js : List ℤ)
    → ((k : ℤ) → contains k js ≡ true → contains k ks ≡ true)
    → All (λ (k : ℤ). contains k ks ≡ true) js
contains_self_All ks [] h = tt
contains_self_All ks (j ∷ js) h = (
  h j (rw (beq_refl j) refl),
  contains_self_All ks js (λ k there. h k (rw there (or_true (beq_ℤ k j)))),
)
  where
    or_true : (b : Bool) → (b || true) ≡ true
    or_true b = ground arith

-- Packets in the order of their numbers: just those of a dict, each number once and below the next.
pub record IsOrdered (d : List (ℤ × RtpPacket)) (ps : List RtpPacket) : Type 0 where
  pub entries : List (ℤ × RtpPacket)
  pub values_eq : ps ≡ map (λ (b : ℤ × RtpPacket). b.1) entries
  pub ascending : IsAscending (keys entries)
  pub stored : All (Stored d) entries
  pub complete : (k : ℤ) → contains k (keys entries) ≡ contains k (keys d)

pub items_at-IsOrdered :
    (d : List (ℤ × RtpPacket))
    → NoDup (keys d)
    → (ps : List RtpPacket) × (items_at d (sorted (keys d)) ≡ ok ps []) × IsOrdered d ps
items_at-IsOrdered d h =
    let (entries, same, stored, read) = items_at-Stored d (sorted (keys d)) (
      contains_self_All (keys d) (sorted (keys d))
        (λ k there. sym (contains-sorted k (keys d)) ∙ there)) in
    (
      map (λ (b : ℤ × RtpPacket). b.1) entries,
      read,
      record {
        entries = entries;
        values_eq = refl;
        ascending = subst IsAscending (sym same) (sorted-IsAscending (keys d) h);
        stored = stored;
        complete = λ k. ap (contains k) same ∙ contains-sorted k (keys d);
      },
    )
