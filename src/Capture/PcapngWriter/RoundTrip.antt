-- ===== src/Capture/PcapngWriter/RoundTrip.antt =====
-- What `write_pcapng` writes is read back.
use rtpkit.Common.{
  ℕ, zero, suc, ◌+◌, ◌≤◌, ◌≡◌, ◌∙◌, refl, sym, ap, Bool, true, false, Option, none, some, List, [],
  ◌∷◌, ◌++◌, map, append-nil, append_assoc, length, length-append, ge→ltb, get_elem?, All, arith,
}
use rtpkit.Common.Int.{ℤ, pos}
use rtpkit.Common.Keys.{int_eq, lookup, keys}
use rtpkit.Outcome.{Outcome, Warning, ok}
use rtpkit.Outcome.Laws.{Any, Ensures, Ensures-bind, Ensures-ok}
use rtpkit.Wire.{Bytes}
use rtpkit.Wire.Order.{little, split_u32_le}
use rtpkit.Capture.{yields, Times, PcapPacket}
use rtpkit.Capture.Pcap.RoundTrip.{yield_all}
use rtpkit.Capture.Pcapng.{
  Interface, bom_little_endian, add_interface, yield_packet, block_loop, read_pcapng_in,
  read_pcapng, read_pcapng_lenient,
}
use rtpkit.Capture.PcapngWriter.{
  shb_type, number_interfaces, build_shb, build_idb, build_idbs, item_or_raise, build_epb,
  build_epbs, write_pcapng,
}
use rtpkit.Capture.PcapngWriter.Blocks.{padded, block_image, wrap_block-Ensures, block_read}
use rtpkit.Capture.PcapngWriter.Bodies.{
  written_interface, idb_image, build_idb-Ensures, idb_parsed, epb_body, build_epb-Ensures,
  reread_ticks, epb_parsed,
}
use rtpkit.Capture.PcapngWriter.Numbering.{
  Numbered, interface_of, Natural, lookup-Stands, number_interfaces-Numbered,
}

abbrev shb_body : Bytes
shb_body =
    bom_little_endian
    ++ (1 ∷ 0 ∷ 0 ∷ 0 ∷ 0xff ∷ 0xff ∷ 0xff ∷ 0xff ∷ 0xff ∷ 0xff ∷ 0xff ∷ 0xff ∷ [])

abbrev shb_image : Bytes
shb_image = block_image shb_type shb_body

build_shb-Ensures : Ensures Any (λ bytes. bytes ≡ shb_image) build_shb
unfolding build_shb
build_shb-Ensures = wrap_block-Ensures shb_type shb_body

rest_shorter :
    (fuel kind : ℕ) (body more bytes : Bytes)
    → bytes ≡ block_image kind body ++ more
    → length bytes ≤ suc fuel
    → length more ≤ fuel
rest_shorter fuel kind body more bytes e h =
    omega (arith, ap length e, length-append (body ++ split_u32_le (12 + length body)) more)

abbrev WritesTypes : List ℤ → Bytes → Type 0
WritesTypes [] bytes = bytes ≡ []
WritesTypes (z ∷ types) bytes =
    (n : ℕ) × (more : Bytes) × (z ≡ pos n) × (bytes ≡ idb_image n ++ more) × WritesTypes types more

build_idbs-Ensures : (types : List ℤ) → Ensures Any (WritesTypes types) (build_idbs types)
unfolding build_idbs
build_idbs-Ensures [] = refl
build_idbs-Ensures (z ∷ types) =
    Ensures-bind Any _ _ (build_idb z) _ (build_idb-Ensures z) λ first (n, ez, ef).
      Ensures-bind Any _ _ (build_idbs types) _ (build_idbs-Ensures types)
        λ more h. (n, more, ez, ap (λ (xs : Bytes). xs ++ more) ef, h)

types-Natural : (types : List ℤ) (bytes : Bytes) → WritesTypes types bytes → All Natural types
types-Natural [] bytes h = tt
types-Natural (z ∷ types) bytes (n, more, ez, e, h) = ((n, ez), types-Natural types more h)

module _ (times : Times) where
  open times use {Time}

  abbrev WritesBlocks : List (ℤ × ℕ) → List (PcapPacket Time) → Bytes → Type 0
  WritesBlocks d [] bytes = bytes ≡ []
  WritesBlocks d (p ∷ packets) bytes =
      (i o : ℕ) × (more : Bytes) × (lookup p.link_type d ≡ some i)
      × (p.original_length ≡ pos o)
      × (bytes ≡ block_image 6 (padded (epb_body times i p o)) ++ more)
      × WritesBlocks d packets more

  item-Ensures : (found : Option ℕ) → Ensures Any (λ i. found ≡ some i) (item_or_raise found)
  item-Ensures none = tt
  item-Ensures (some i) = refl

  build_epbs-Ensures :
      (d : List (ℤ × ℕ)) (packets : List (PcapPacket Time))
      → Ensures Any (WritesBlocks d packets) (build_epbs times d packets)
  unfolding build_epbs
  build_epbs-Ensures d [] = refl
  build_epbs-Ensures d (p ∷ packets) =
      Ensures-bind Any _ _ (item_or_raise (lookup p.link_type d)) _
        (item-Ensures (lookup p.link_type d))
        λ i hi.
          Ensures-bind Any _ _ (build_epb times i p) _ (build_epb-Ensures times i p)
            λ first (o, eo, ef).
              Ensures-bind Any _ _ (build_epbs times d packets) _ (build_epbs-Ensures d packets)
                λ more h. (i, o, more, hi, eo, ap (λ (xs : Bytes). xs ++ more) ef, h)

  module _ (strict : Bool) where
    idb_read :
        (fuel : ℕ) (known : List Interface) (n : ℕ) (rest : Bytes)
        → block_loop times (suc fuel) strict (some little) known (idb_image n ++ rest)
          ≡ block_loop times fuel strict (some little) (known ++ (written_interface n ∷ [])) rest
    idb_read fuel known n rest =
        block_read times fuel strict (some little) known known 1 _ rest refl
        ∙ ap
            (λ (m : Outcome Interface).
              add_interface times strict 1 m known
                (λ more. block_loop times fuel strict (some little) more rest))
            (idb_parsed n)

    epb_read :
        (fuel : ℕ) (interfaces : List Interface) (i : ℕ) (p : PcapPacket Time) (o l : ℕ)
        (rest : Bytes)
        → p.original_length ≡ pos o
        → p.link_type ≡ pos l
        → get_elem? interfaces i ≡ some (written_interface l)
        → block_loop times
            (suc fuel)
            strict
            (some little)
            interfaces
            (block_image 6 (padded (epb_body times i p o)) ++ rest)
          ≡ yields
              (reread_ticks times p)
              (block_loop times fuel strict (some little) interfaces rest)
    epb_read fuel interfaces i p o l rest eo el e =
        block_read times fuel strict (some little) interfaces interfaces 6
          (padded (epb_body times i p o)) rest refl
        ∙ ap
            (λ (m : Outcome (PcapPacket Time)).
              yield_packet times strict 6 m
                (block_loop times fuel strict (some little) interfaces rest))
            (epb_parsed times i p o l interfaces eo el e)

    -- The interfaces are read, and enough fuel is left for what follows.
    idbs_read :
        (fuel : ℕ) (known : List Interface) (types : List ℤ) (bytes rest : Bytes)
        → length (bytes ++ rest) ≤ fuel
        → WritesTypes types bytes
        → (left : ℕ) × (length rest ≤ left)
          × (block_loop times fuel strict (some little) known (bytes ++ rest)
              ≡ block_loop times left strict (some little) (known ++ map interface_of types) rest)
    idbs_read fuel known [] bytes rest h e =
        (fuel, omega (arith, length-append bytes rest), rw (e, append-nil known) refl)
    idbs_read zero known (z ∷ types) bytes rest h (n, more, ez, e, w) =
        absurd (omega (arith, ap (λ (xs : Bytes). length (xs ++ rest)) e))
    idbs_read (suc fuel) known (z ∷ types) bytes rest h (n, more, ez, e, w) =
        let (left, enough, same) =
          idbs_read fuel (known ++ (written_interface n ∷ [])) types more rest
            (omega (arith, ap (λ (xs : Bytes). length (xs ++ rest)) e)) w in
        (
          left,
          enough,
          ap (λ (xs : Bytes). block_loop times (suc fuel) strict (some little) known (xs ++ rest)) e
              ∙ ap (block_loop times (suc fuel) strict (some little) known)
                  (append_assoc (idb_image n) more rest)
              ∙ idb_read fuel known n (more ++ rest)
              ∙ same
              ∙ ap (λ (xs : List Interface). block_loop times left strict (some little) xs rest)
                  (append_assoc known (written_interface n ∷ []) (map interface_of types)
                    ∙ ap (λ (y : ℤ). known ++ (interface_of y ∷ map interface_of types)) (sym ez)),
        )

    epbs_read :
        (fuel : ℕ) (d : List (ℤ × ℕ)) (packets : List (PcapPacket Time)) (bytes : Bytes)
        → length bytes ≤ fuel
        → Numbered 0 d
        → All Natural (keys d)
        → WritesBlocks d packets bytes
        → block_loop times fuel strict (some little) (map interface_of (keys d)) bytes
          ≡ yield_all (map (reread_ticks times) packets)
    unfolding block_loop
    epbs_read fuel d [] bytes h c a e = rw e refl
    epbs_read zero d (p ∷ packets) bytes h c a (i, o, more, hi, eo, e, w) =
        absurd (omega (arith, ap length e))
    epbs_read (suc fuel) d (p ∷ packets) bytes h c a (i, o, more, hi, eo, e, w) =
        let (m, l, em, el, eg) = lookup-Stands 0 d p.link_type i c a hi in
        ap (block_loop times (suc fuel) strict (some little) (map interface_of (keys d))) e
        ∙ epb_read fuel (map interface_of (keys d)) i p o l more eo el
            (ap (get_elem? (map interface_of (keys d))) (index_same i m em) ∙ eg)
        ∙ ap (yields (reread_ticks times p)) (
            epbs_read fuel d packets more
              (rest_shorter fuel 6 (padded (epb_body times i p o)) more bytes e h) c a w)
      where
        index_same : (j k : ℕ) → j ≡ 0 + k → j ≡ k
        index_same j k q = omega arith

    shb_read :
        (fuel : ℕ) (rest : Bytes)
        → block_loop times (suc fuel) strict none [] (shb_image ++ rest)
          ≡ block_loop times fuel strict (some little) [] rest
    shb_read fuel rest = block_read times fuel strict none [] [] shb_type shb_body rest refl

    long_read :
        (bytes : Bytes)
        → 12 ≤ length bytes
        → read_pcapng_in times strict bytes ≡ block_loop times (length bytes) strict none [] bytes
    unfolding read_pcapng_in
    long_read bytes h = rw (ge→ltb (length bytes) 12 h) refl

    file_read :
        (packets : List (PcapPacket Time)) (d : List (ℤ × ℕ)) (shb idbs epbs : Bytes)
        → Numbered 0 d
        → shb ≡ shb_image
        → WritesTypes (keys d) idbs
        → WritesBlocks d packets epbs
        → read_pcapng_in times strict (shb ++ (idbs ++ epbs))
          ≡ yield_all (map (reread_ticks times) packets)
    file_read packets d shb idbs epbs c es wi we =
        let (left, enough, same) =
          idbs_read (27 + length (idbs ++ epbs)) [] (keys d) idbs epbs (omega arith) wi in
        rw es (
          long_read (shb_image ++ (idbs ++ epbs)) (omega arith)
          ∙ (ap (λ (k : ℕ). block_loop times k strict none [] (shb_image ++ (idbs ++ epbs)))
                fuel_same
              ∙ shb_read (27 + length (idbs ++ epbs)) (idbs ++ epbs)
              ∙ same
              ∙ epbs_read left d packets epbs enough c (types-Natural (keys d) idbs wi) we))
      where
        fuel_same : length (shb_image ++ (idbs ++ epbs)) ≡ suc (27 + length (idbs ++ epbs))
        fuel_same = omega arith

  write_pcapng-Ensures :
      (packets : List (PcapPacket Time))
      → Ensures Any
          (λ bytes.
            (strict : Bool)
            → read_pcapng_in times strict bytes ≡ yield_all (map (reread_ticks times) packets))
          (write_pcapng times packets)
  unfolding write_pcapng
  write_pcapng-Ensures packets = Ensures-bind Any _ _ build_shb _ build_shb-Ensures λ shb es.
      Ensures-bind Any _ _ (build_idbs (keys (number_interfaces times [] packets))) _
        (build_idbs-Ensures _)
        λ idbs wi.
          Ensures-bind Any _ _ (build_epbs times (number_interfaces times [] packets) packets) _
            (build_epbs-Ensures _ packets)
            λ epbs we strict.
              file_read strict packets (number_interfaces times [] packets) shb idbs epbs
                (number_interfaces-Numbered times packets [] tt) es wi we

  -- What `write_pcapng` writes, `read_pcapng` and `read_pcapng_lenient` read back, packet by packet and without a
  -- warning, whatever link types are mixed: the same bytes, lengths and link types, and the time of the 64 bits of
  -- microseconds written.
  pub read_pcapng-write_pcapng :
      (packets : List (PcapPacket Time)) (bytes : Bytes) {ws : List Warning}
      → write_pcapng times packets ≡ ok bytes ws
      → (read_pcapng times bytes ≡ yield_all (map (reread_ticks times) packets))
        × (read_pcapng_lenient times bytes ≡ yield_all (map (reread_ticks times) packets))
  unfolding read_pcapng read_pcapng_lenient
  read_pcapng-write_pcapng packets bytes e =
      let again = Ensures-ok Any _ (write_pcapng times packets) (write_pcapng-Ensures packets) e in
      (again true, again false)
