-- ===== src/Capture/Pcap/Writable.antt =====
-- Which packets `write_pcap` writes.
use rtpkit.Common.{
  ℕ, ◌+◌, ◌^◌, ◌<◌, ◌≡◌, ◌↔◌, refl, Option, none, some, List, [], ◌∷◌, ltb, lt→ltb, ltb→lt, length,
  All,
}
use rtpkit.Common.Int.{ℤ, pos, negsuc}
use rtpkit.Common.Keys.{beq_ℤ-iff}
use rtpkit.Outcome.{Outcome, ok, err, ◌>>=◌}
use rtpkit.Outcome.Laws.{Any, Ensures, Ensures-bind, Ensures-if, Ensures-ok}
use rtpkit.Wire.{Bytes}
use rtpkit.Wire.Order.{pack_u32_le}
use rtpkit.Capture.{Times, PcapPacket}
use rtpkit.Capture.Pcap.{
  split_timestamp, choose_link_type, check_link_types, write_record, write_records, write_pcap,
}
use rtpkit.Capture.Pcap.RoundTrip.{check_link_types-Ensures}

-- A call that returns without a warning.
abbrev Succeeds {ℓ} : {A : Type ℓ} → Outcome A → Type 0
Succeeds (ok a []) = Unit
Succeeds (ok a (w ∷ ws)) = ⊥
Succeeds (err e) = ⊥

Succeeds-bind {ℓ κ} :
    {A : Type ℓ} {B : Type κ} (m : Outcome A) (f : A → Outcome B)
    → Succeeds m
    → ((a : A) → Succeeds (f a))
    → Succeeds (m >>= f)
Succeeds-bind (ok a []) f h k = k a
Succeeds-bind (ok a (w ∷ ws)) f h k = absurd h
Succeeds-bind (err e) f h k = absurd h

Succeeds-ok {ℓ} : {A : Type ℓ} (m : Outcome A) → Succeeds m → (a : A) × (m ≡ ok a [])
Succeeds-ok (ok a []) h = (a, refl)
Succeeds-ok (ok a (w ∷ ws)) h = absurd h
Succeeds-ok (err e) h = absurd h

-- An unsigned number of 32 bits.
abbrev pub IsWord : ℤ → Type 0
IsWord (pos n) = n < 2 ^ 32
IsWord (negsuc n) = ⊥

pack_u32_le-IsWord : (z : ℤ) → Ensures Any (λ bytes. IsWord z) (pack_u32_le z)
unfolding pack_u32_le
pack_u32_le-IsWord (pos n) =
    Ensures-if Any _ (ltb n (2 ^ 32)) _ _ (λ h. ltb→lt n (2 ^ 32) h) (λ _. tt)
pack_u32_le-IsWord (negsuc n) = tt

IsWord-pack_u32_le : (z : ℤ) → IsWord z → Succeeds (pack_u32_le z)
unfolding pack_u32_le
IsWord-pack_u32_le (pos n) h = rw (lt→ltb n (2 ^ 32) h) tt
IsWord-pack_u32_le (negsuc n) h = absurd h

module _ (times : Times) where
  open times use {Time}

  -- The link type of the file: the one that is given, else that of the first packet.
  abbrev pub IsChosen : List (PcapPacket Time) → Option ℤ → ℤ → Type 0
  IsChosen packets (some given) link_type = given ≡ link_type
  IsChosen [] none link_type = ⊥
  IsChosen (p ∷ packets) none link_type = p.link_type ≡ link_type

  abbrev pub FitsRecord : PcapPacket Time → Type 0
  FitsRecord p =
      IsWord (split_timestamp times p.timestamp).0
      × IsWord (split_timestamp times p.timestamp).1
      × (length p.body < 2 ^ 32)
      × IsWord p.original_length

  -- All packets have the link type of the file, and every number fits its field.
  abbrev pub IsWritable : List (PcapPacket Time) → Option ℤ → Type 0
  IsWritable packets given =
      (link_type : ℤ) × IsChosen packets given link_type
      × All (λ (p : PcapPacket Time). p.link_type ≡ link_type) packets
      × IsWord link_type
      × All FitsRecord packets

  choose_link_type-IsChosen :
      (packets : List (PcapPacket Time)) (given : Option ℤ)
      → Ensures Any (IsChosen packets given) (choose_link_type times packets given)
  choose_link_type-IsChosen packets (some given) = refl
  choose_link_type-IsChosen [] none = tt
  choose_link_type-IsChosen (p ∷ packets) none = refl

  IsChosen-choose_link_type :
      (packets : List (PcapPacket Time)) (given : Option ℤ) (link_type : ℤ)
      → IsChosen packets given link_type
      → choose_link_type times packets given ≡ ok link_type []
  IsChosen-choose_link_type packets (some given) link_type e = rw e refl
  IsChosen-choose_link_type [] none link_type e = absurd e
  IsChosen-choose_link_type (p ∷ packets) none link_type e = rw e refl

  check_link_types-Succeeds :
      (i : ℕ) (packets : List (PcapPacket Time)) (link_type : ℤ)
      → All (λ (p : PcapPacket Time). p.link_type ≡ link_type) packets
      → Succeeds (check_link_types times i packets link_type)
  unfolding check_link_types
  check_link_types-Succeeds i [] link_type h = tt
  check_link_types-Succeeds i (p ∷ packets) link_type (e, h) =
      rw ((beq_ℤ-iff p.link_type link_type).1 e)
        (check_link_types-Succeeds (i + 1) packets link_type h)

  write_record-FitsRecord :
      (p : PcapPacket Time) → Ensures Any (λ bytes. FitsRecord p) (write_record times p)
  unfolding write_record
  write_record-FitsRecord p =
      Ensures-bind Any _ _ (pack_u32_le (split_timestamp times p.timestamp).0) _
        (pack_u32_le-IsWord _)
        λ a s.
          Ensures-bind Any _ _ (pack_u32_le (split_timestamp times p.timestamp).1) _
            (pack_u32_le-IsWord _)
            λ b u.
              Ensures-bind Any _ _ (pack_u32_le (pos (length p.body))) _ (pack_u32_le-IsWord _)
                λ c n.
                  Ensures-bind Any _ _ (pack_u32_le p.original_length) _ (pack_u32_le-IsWord _)
                    λ d o. (s, u, n, o)

  FitsRecord-write_record : (p : PcapPacket Time) → FitsRecord p → Succeeds (write_record times p)
  unfolding write_record
  FitsRecord-write_record p (s, u, n, o) =
      Succeeds-bind (pack_u32_le (split_timestamp times p.timestamp).0) _ (IsWord-pack_u32_le _ s)
        λ a.
          Succeeds-bind (pack_u32_le (split_timestamp times p.timestamp).1) _
            (IsWord-pack_u32_le _ u)
            λ b.
              Succeeds-bind (pack_u32_le (pos (length p.body))) _
                (IsWord-pack_u32_le (pos (length p.body)) n)
                λ c.
                  Succeeds-bind (pack_u32_le p.original_length) _ (IsWord-pack_u32_le _ o) λ d. tt

  write_records-FitsRecord :
      (packets : List (PcapPacket Time))
      → Ensures Any (λ bytes. All FitsRecord packets) (write_records times packets)
  unfolding write_records
  write_records-FitsRecord [] = tt
  write_records-FitsRecord (p ∷ packets) =
      Ensures-bind Any _ _ (write_record times p) _ (write_record-FitsRecord p) λ first h.
        Ensures-bind Any _ _ (write_records times packets) _ (write_records-FitsRecord packets)
          λ more k. (h, k)

  write_records-Succeeds :
      (packets : List (PcapPacket Time))
      → All FitsRecord packets
      → Succeeds (write_records times packets)
  unfolding write_records
  write_records-Succeeds [] h = tt
  write_records-Succeeds (p ∷ packets) (h, k) =
      Succeeds-bind (write_record times p) _ (FitsRecord-write_record p h) λ first.
        Succeeds-bind (write_records times packets) _ (write_records-Succeeds packets k) λ more. tt

  write_pcap-IsWritable :
      (packets : List (PcapPacket Time)) (given : Option ℤ)
      → Ensures Any (λ bytes. IsWritable packets given) (write_pcap times packets given)
  unfolding write_pcap
  write_pcap-IsWritable packets given =
      Ensures-bind Any _ _ (choose_link_type times packets given) _
        (choose_link_type-IsChosen packets given)
        λ link_type chosen.
          Ensures-bind Any _ _ (check_link_types times 0 packets link_type) _
            (check_link_types-Ensures times 0 packets link_type)
            λ _ same.
              Ensures-bind Any _ _ (pack_u32_le link_type) _ (pack_u32_le-IsWord link_type)
                λ packed word.
                  Ensures-bind Any _ _ (write_records times packets) _
                    (write_records-FitsRecord packets)
                    λ records fit. (link_type, chosen, same, word, fit)

  IsWritable-write_pcap :
      (packets : List (PcapPacket Time)) (given : Option ℤ)
      → IsWritable packets given
      → Succeeds (write_pcap times packets given)
  unfolding write_pcap
  IsWritable-write_pcap packets given (link_type, chosen, same, word, fit) =
      rw (IsChosen-choose_link_type packets given link_type chosen) (
        Succeeds-bind (check_link_types times 0 packets link_type) _
          (check_link_types-Succeeds 0 packets link_type same)
          λ _. Succeeds-bind (pack_u32_le link_type) _ (IsWord-pack_u32_le link_type word) λ packed.
            Succeeds-bind (write_records times packets) _ (write_records-Succeeds packets fit)
              λ records. tt)

  -- `write_pcap` returns the bytes of a file exactly if a link type is given or there is a first packet to take it from,
  -- all packets have this link type, and it, the lengths and the seconds and microseconds of every packet are unsigned
  -- numbers of 32 bits; otherwise it raises.
  pub write_pcap-iff-IsWritable :
      (packets : List (PcapPacket Time)) (given : Option ℤ)
      → ((bytes : Bytes) × (write_pcap times packets given ≡ ok bytes []))
        ↔ IsWritable packets given
  write_pcap-iff-IsWritable packets given = (
    λ (bytes, e).
        Ensures-ok Any _ (write_pcap times packets given) (write_pcap-IsWritable packets given) e,
    λ h. Succeeds-ok (write_pcap times packets given) (IsWritable-write_pcap packets given h),
  )
