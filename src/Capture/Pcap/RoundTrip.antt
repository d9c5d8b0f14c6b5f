-- ===== src/Capture/Pcap/RoundTrip.antt =====
-- What `write_pcap` writes is read back.
use rtpkit.Common.{
  ℕ, zero, suc, ◌+◌, ◌-◌, ◌/◌, ◌%◌, ◌^◌, ◌≤◌, ◌≡◌, ◌∙◌, refl, sym, ap, Bool, true, false, Option,
  List, [], ◌∷◌, ◌++◌, map, not, ltb, ge→ltb, drop, take-append, drop-append, drop-drop, length,
  length-append, All, arith,
}
use rtpkit.Common.Int.{ℤ, pos, negsuc, pos_part}
use rtpkit.Common.Keys.{beq_ℤ, beq_ℤ-iff}
use rtpkit.Outcome.{Outcome, Warning, ok, err, raise_if}
use rtpkit.Outcome.Laws.{
  Any, Ensures, Ensures-bind, Ensures-if, Ensures-ok, Ensures-mono, raise_if-Ensures,
}
use rtpkit.Wire.{Bytes, join_u32, slice, zeros}
use rtpkit.Wire.Write.{join-split_u32}
use rtpkit.Wire.Order.{ByteOrder, little, ordered_u32_at, split_u32_le, pack_u32_le}
use rtpkit.Capture.{Run, yields, returns, after, Times, PcapPacket}
use rtpkit.Capture.Pcap.{
  magic_le_us, take_record, record_loop, read_pcap_in, read_pcap, read_pcap_lenient,
  split_timestamp, choose_link_type, check_link_types, write_record, write_records, write_pcap,
}

-- What is packed has the number's four bytes.
abbrev pub Packs : ℤ → Bytes → Type 0
Packs z bytes = (n : ℕ) × (z ≡ pos n) × (bytes ≡ split_u32_le n)

pub pack_u32_le-Ensures : (z : ℤ) → Ensures Any (Packs z) (pack_u32_le z)
unfolding pack_u32_le
pack_u32_le-Ensures (pos n) = Ensures-if Any _ (ltb n (2 ^ 32)) _ _ (λ _. (n, refl, refl)) (λ _. tt)
pack_u32_le-Ensures (negsuc n) = tt

abbrev record_image : ℕ → ℕ → ℕ → ℕ → Bytes → Bytes
record_image s u n o body =
    split_u32_le s ++ (split_u32_le u ++ (split_u32_le n ++ (split_u32_le o ++ body)))

-- A run that yields some packets and returns.
abbrev pub yield_all {ℓ} : {A : Type ℓ} → List A → Run A
yield_all [] = returns
yield_all (a ∷ more) = yields a (yield_all more)

pub word_ok :
    (n : ℕ)
    → ok (join_u32 (n / 2 ^ 24) (n / 2 ^ 16 % 2 ^ 8) (n / 2 ^ 8 % 2 ^ 8) (n % 2 ^ 8)) [] ≡ ok n []
word_ok n = ap (λ (k : ℕ). ok k []) (join-split_u32 n)

negated : (b : Bool) → not b ≡ false → b ≡ true
negated true h = refl
negated false h = absurd (cc h)

Ensures-Any {ℓ} : {A : Type ℓ} (m : Outcome A) → Ensures Any (λ (a : A). Unit {0}) m
Ensures-Any (ok a ws) = tt
Ensures-Any (err e) = tt

abbrev file_image : ℕ → Bytes → Bytes
file_image n records =
    magic_le_us
    ++ ((2 ∷ 0 ∷ 4 ∷ 0 ∷ []) ++ (zeros 8 ++ ((0 ∷ 0 ∷ 4 ∷ 0 ∷ []) ++ (split_u32_le n ++ records))))

module _ (times : Times) where
  open times use {Time, seconds}

  -- A packet as it comes back: its time is that of the seconds and microseconds that were written.
  abbrev pub reread : PcapPacket Time → PcapPacket Time
  reread p = record {
    timestamp =
        seconds (pos_part (split_timestamp times p.timestamp).0)
          (pos_part (split_timestamp times p.timestamp).1) 1_000_000;
    captured_length = length p.body;
    original_length = p.original_length;
    link_type = p.link_type;
    body = p.body;
  }

  abbrev Writes : PcapPacket Time → Bytes → Type 0
  Writes p bytes =
      (s u o : ℕ) × ((split_timestamp times p.timestamp).0 ≡ pos s)
      × ((split_timestamp times p.timestamp).1 ≡ pos u)
      × (p.original_length ≡ pos o)
      × (bytes ≡ record_image s u (length p.body) o p.body)

  write_record-Ensures : (p : PcapPacket Time) → Ensures Any (Writes p) (write_record times p)
  unfolding write_record
  write_record-Ensures p =
      Ensures-bind Any _ _ (pack_u32_le (split_timestamp times p.timestamp).0) _
        (pack_u32_le-Ensures _)
        λ a (s, es, fs).
          Ensures-bind Any _ _ (pack_u32_le (split_timestamp times p.timestamp).1) _
            (pack_u32_le-Ensures _)
            λ b (u, eu, fu).
              Ensures-bind Any _ _ (pack_u32_le (pos (length p.body))) _ (pack_u32_le-Ensures _)
                λ c (n, en, fn).
                  Ensures-bind Any _ _ (pack_u32_le p.original_length) _ (pack_u32_le-Ensures _)
                    λ d (o, eo, fo).
                      (s, u, o, es, eu, eo, rw (fs, fu, fn, fo, sym (ap pos_part en)) refl)

  abbrev WritesAll : List (PcapPacket Time) → Bytes → Type 0
  WritesAll [] bytes = bytes ≡ []
  WritesAll (p ∷ packets) bytes =
      (first more : Bytes) × (bytes ≡ first ++ more) × Writes p first × WritesAll packets more

  write_records-Ensures :
      (packets : List (PcapPacket Time))
      → Ensures Any (WritesAll packets) (write_records times packets)
  unfolding write_records
  write_records-Ensures [] = refl
  write_records-Ensures (p ∷ packets) =
      Ensures-bind Any _ _ (write_record times p) _ (write_record-Ensures p) λ first hf.
        Ensures-bind Any _ _ (write_records times packets) _ (write_records-Ensures packets)
          λ more hm. (first, more, refl, hf, hm)

  -- One round of the reader, for what it reads.
  round_reads :
      (fuel : ℕ) (strict : Bool) (order : ByteOrder) (d : ℕ) (link_type : ℤ) (b : ℕ) (bs : Bytes)
      (s u n o : ℕ)
      → 16 ≤ length (b ∷ bs)
      → ordered_u32_at order (b ∷ bs) 0 ≡ ok s []
      → ordered_u32_at order (b ∷ bs) 4 ≡ ok u []
      → ordered_u32_at order (b ∷ bs) 8 ≡ ok n []
      → ordered_u32_at order (b ∷ bs) 12 ≡ ok o []
      → record_loop times (suc fuel) strict order d link_type (b ∷ bs)
        ≡ take_record times strict d link_type s u n o
            (b ∷ bs)
            (record_loop times fuel strict order d link_type (drop (16 + n) (b ∷ bs)))
  unfolding record_loop
  round_reads fuel strict order d link_type b bs s u n o h e0 e4 e8 e12 =
      rw (ge→ltb (length (b ∷ bs)) 16 h, e0, e4, e8, e12) refl

  taken :
      (strict : Bool) (d : ℕ) (link_type : ℤ) (s u n o : ℕ) (rest body : Bytes)
      (more : Run (PcapPacket Time))
      → 16 + n ≤ length rest
      → slice rest 16 (16 + n) ≡ body
      → take_record times strict d link_type s u n o rest more
        ≡ yields
            (record {
              timestamp = seconds s u d;
              captured_length = n;
              original_length = pos o;
              link_type = link_type;
              body = body;
            })
            more
  taken strict d link_type s u n o rest body more h e = rw (ge→ltb (length rest) (16 + n) h, e) refl

  record_read :
      (fuel : ℕ) (strict : Bool) (d : ℕ) (link_type : ℤ) (s u o : ℕ) (body rest : Bytes)
      → record_loop times
          (suc fuel)
          strict
          little
          d
          link_type
          (record_image s u (length body) o body ++ rest)
        ≡ yields
            (record {
              timestamp = seconds s u d;
              captured_length = length body;
              original_length = pos o;
              link_type = link_type;
              body = body;
            })
            (record_loop times fuel strict little d link_type rest)
  unfolding ordered_u32_at
  record_read fuel strict d link_type s u o body rest =
      round_reads fuel strict little d link_type _ _ s u (length body) o
        (omega (arith, length-append body rest)) (word_ok s) (word_ok u) (word_ok (length body))
        (word_ok o)
      ∙ taken strict d link_type s u (length body) o (record_image s u (length body) o body ++ rest)
          body _ (omega (arith, length-append body rest))
          (take-append (16 + length body - 16) body rest (omega arith))
      ∙ ap
          (λ (more : Bytes).
            yields
              (record {
                timestamp = seconds s u d;
                captured_length = length body;
                original_length = pos o;
                link_type = link_type;
                body = body;
              })
              (record_loop times fuel strict little d link_type more))
          dropped
    where
      dropped : drop (16 + length body) (record_image s u (length body) o body ++ rest) ≡ rest
      dropped =
          sym (drop-drop (length body) 16 (record_image s u (length body) o body ++ rest))
          ∙ drop-append (length body) body rest refl

  -- What is read of a record is the packet that was written.
  yields_same :
      (p : PcapPacket Time) (s u o : ℕ) (link_type : ℤ) (packets : List (PcapPacket Time))
      (more : Run (PcapPacket Time))
      → (split_timestamp times p.timestamp).0 ≡ pos s
      → (split_timestamp times p.timestamp).1 ≡ pos u
      → p.original_length ≡ pos o
      → p.link_type ≡ link_type
      → more ≡ yield_all packets
      → yields
          (record {
            timestamp = seconds s u 1_000_000;
            captured_length = length p.body;
            original_length = pos o;
            link_type = link_type;
            body = p.body;
          })
          more
        ≡ yields (reread p) (yield_all packets)
  yields_same p s u o link_type packets more es eu eo el e = rw (es, eu, eo, el, e) refl

  -- All records, on any fuel that reaches.
  records_read :
      (fuel : ℕ) (strict : Bool) (link_type : ℤ) (packets : List (PcapPacket Time)) (bytes : Bytes)
      → length bytes ≤ fuel
      → All (λ (p : PcapPacket Time). p.link_type ≡ link_type) packets
      → WritesAll packets bytes
      → record_loop times fuel strict little 1_000_000 link_type bytes
        ≡ yield_all (map reread packets)
  unfolding record_loop
  records_read fuel strict link_type [] bytes h k e = rw e refl
  records_read zero strict link_type (p ∷ packets) bytes h k
        (first, more, e, (s, u, o, es, eu, eo, f), w) =
      absurd (omega (arith, ap length e, ap (λ (xs : Bytes). length (xs ++ more)) f))
  records_read (suc fuel) strict link_type (p ∷ packets) bytes h (link_eq, k)
        (first, more, e, (s, u, o, es, eu, eo, f), w) =
      ap (record_loop times (suc fuel) strict little 1_000_000 link_type)
        (e ∙ ap (λ (xs : Bytes). xs ++ more) f)
      ∙ record_read fuel strict 1_000_000 link_type s u o p.body more
      ∙ yields_same p s u o link_type (map reread packets) _ es eu eo link_eq (
          records_read fuel strict link_type packets more
            (omega (
              arith,
              h,
              ap length e,
              ap (λ (xs : Bytes). length (xs ++ more)) f,
              length-append p.body more,
            ))
            k w)

  pub check_link_types-Ensures :
      (i : ℕ) (packets : List (PcapPacket Time)) (link_type : ℤ)
      → Ensures Any
          (λ _. All (λ (p : PcapPacket Time). p.link_type ≡ link_type) packets)
          (check_link_types times i packets link_type)
  unfolding check_link_types
  check_link_types-Ensures i [] link_type = tt
  check_link_types-Ensures i (p ∷ packets) link_type =
      Ensures-bind Any _ _ (raise_if (not (beq_ℤ p.link_type link_type)) _) _
        (raise_if-Ensures Any (not (beq_ℤ p.link_type link_type)) _ tt)
        λ _ same.
          Ensures-mono Any Any _ _ (check_link_types times (i + 1) packets link_type)
            (check_link_types-Ensures (i + 1) packets link_type) (λ e p. p)
            (λ _ others. ((beq_ℤ-iff p.link_type link_type).0 (negated _ same), others))

  header_read :
      (strict : Bool) (n : ℕ) (records : Bytes)
      → read_pcap_in times strict (file_image n records)
        ≡ record_loop times (length (file_image n records)) strict little 1_000_000 (pos n) records
  unfolding read_pcap_in ordered_u32_at
  header_read strict n records = rw (ge→ltb (length (file_image n records)) 24 (omega arith)) (
      ap
        (λ (m : Outcome ℕ). after m (λ link_type.
          record_loop times (length (file_image n records)) strict little 1_000_000 (pos link_type)
            records))
        (word_ok n))

  file_read :
      (strict : Bool) (link_type : ℤ) (n : ℕ) (packets : List (PcapPacket Time))
      (packed records : Bytes)
      → link_type ≡ pos n
      → packed ≡ split_u32_le n
      → All (λ (p : PcapPacket Time). p.link_type ≡ link_type) packets
      → WritesAll packets records
      → read_pcap_in times strict (
          magic_le_us
          ++ ((2 ∷ 0 ∷ 4 ∷ 0 ∷ []) ++ (zeros 8 ++ ((0 ∷ 0 ∷ 4 ∷ 0 ∷ []) ++ (packed ++ records)))))
        ≡ yield_all (map reread packets)
  file_read strict link_type n packets packed records el ep same written = rw ep (
      header_read strict n records
      ∙ ap
          (λ (z : ℤ).
            record_loop times (length (file_image n records)) strict little 1_000_000 z records)
          (sym el)
      ∙ records_read (length (file_image n records)) strict link_type packets records (omega arith)
          same written)

  write_pcap-Ensures :
      (packets : List (PcapPacket Time)) (given : Option ℤ)
      → Ensures Any
          (λ bytes.
            (strict : Bool) → read_pcap_in times strict bytes ≡ yield_all (map reread packets))
          (write_pcap times packets given)
  unfolding write_pcap
  write_pcap-Ensures packets given =
      Ensures-bind Any _ _ (choose_link_type times packets given) _ (Ensures-Any _) λ link_type _.
        Ensures-bind Any _ _ (check_link_types times 0 packets link_type) _
          (check_link_types-Ensures 0 packets link_type)
          λ _ same.
            Ensures-bind Any _ _ (pack_u32_le link_type) _ (pack_u32_le-Ensures link_type)
              λ packed (n, el, ep).
                Ensures-bind Any _ _ (write_records times packets) _ (write_records-Ensures packets)
                  λ records written strict.
                    file_read strict link_type n packets packed records el ep same written

  -- What `write_pcap` writes, `read_pcap` and `read_pcap_lenient` read back, packet by packet and without a warning:
  -- the same bytes, lengths and link type, and the time of the seconds and microseconds written.
  pub read_pcap-write_pcap :
      (packets : List (PcapPacket Time)) (given : Option ℤ) (bytes : Bytes) {ws : List Warning}
      → write_pcap times packets given ≡ ok bytes ws
      → (read_pcap times bytes ≡ yield_all (map reread packets))
        × (read_pcap_lenient times bytes ≡ yield_all (map reread packets))
  unfolding read_pcap read_pcap_lenient
  read_pcap-write_pcap packets given bytes e =
      let again =
        Ensures-ok Any _ (write_pcap times packets given) (write_pcap-Ensures packets given) e in
      (again true, again false)
