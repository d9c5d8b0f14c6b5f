-- ===== src/Capture/Pcapng/Safety.antt =====
-- The pcapng reader raises nothing but a `CaptureError`.
use rtpkit.Common.{
  ℕ, zero, suc, ◌+◌, ◌≤◌, ◌<◌, ◌≡◌, refl, Bool, true, false, Option, none, some, List, [], ◌∷◌,
  ◌++◌, not, ◌||◌, ◌&&◌, leb, ltb, ltb→ge, ◌==◌, drop, length, length-drop, get_elem?, arith,
}
use rtpkit.Errors.{Exception, is_capture_error}
use rtpkit.Outcome.{Outcome, ok, err, ◌>>=◌, raise_if}
use rtpkit.Outcome.Laws.{Ensures, Ensures-bind, Ensures-if, raise_if-Ensures}
use rtpkit.Wire.{Bytes, slice, byte_at, align_gap}
use rtpkit.Wire.Order.{ByteOrder, ordered_u16_at, ordered_u32_at}
use rtpkit.Wire.Read.{byte_at_reads}
use rtpkit.Capture.{Run, Times, PcapPacket, same_bytes}
use rtpkit.Capture.Pcapng.{
  idb_type, epb_type, spb_type, bom_big_endian, bom_little_endian, shb_magic, opt_endofopt,
  opt_if_tsresol, Interface, iter_options, find_tsresol, parse_if_tsresol, parse_idb, interface_at,
  parse_epb, parse_spb, is_malformed_block, skip_malformed, add_interface, yield_packet, read_block,
  section_order, current_section, enter_section, block_loop, read_pcapng_in,
}
use rtpkit.Capture.Runs.{
  Ends, Ends-if, IsCaptureError, after-Ends, Reads, ordered_u16_at-Reads, ordered_u32_at-Reads,
}

abbrev P : Exception → Type 0
P = IsCaptureError

abbrev Anything {ℓ} : {A : Type ℓ} → A → Type 0
Anything a = Unit

iter_options-Ensures :
    (fuel : ℕ) (rest : Bytes) (order : ByteOrder)
    → length rest < fuel
    → Ensures P Anything (iter_options fuel rest order)
unfolding iter_options
iter_options-Ensures zero rest order h = absurd (omega arith)
iter_options-Ensures (suc fuel) rest order h =
    Ensures-if P Anything (ltb (length rest) 4) _ _ (λ _. tt)
      λ long.
        Ensures-bind P Reads Anything (ordered_u16_at order rest 0) _
          (ordered_u16_at-Reads P order rest 0 (omega (arith, ltb→ge _ _ long)))
          λ code _.
            Ensures-bind P Reads Anything (ordered_u16_at order rest 2) _
              (ordered_u16_at-Reads P order rest 2 (omega (arith, ltb→ge _ _ long)))
              λ size _.
                Ensures-if P Anything (code == opt_endofopt) _ _ (λ _. tt)
                  λ _.
                    Ensures-if P Anything (ltb (length (drop 4 rest)) size) _ _ (λ _. tt)
                      λ _.
                        Ensures-bind P Anything Anything
                          (iter_options fuel (drop (4 + (size + align_gap size)) rest) order) _
                          (iter_options-Ensures fuel (drop (4 + (size + align_gap size)) rest) order
                            (omega (
                              arith,
                              ltb→ge _ _ long,
                              length-drop (4 + (size + align_gap size)) rest,
                            )))
                          (λ options _. tt)

find_tsresol-Ensures : (options : List (ℕ × Bytes)) → Ensures P Anything (find_tsresol options)
unfolding find_tsresol
find_tsresol-Ensures [] = tt
find_tsresol-Ensures ((code, value) ∷ options) =
    Ensures-if P Anything (code == opt_if_tsresol && leb 1 (length value)) _ _
      (λ long.
        Ensures-bind P _ Anything (byte_at value 0) _
          (byte_at_reads P value 0 (some_byte (code == opt_if_tsresol) (length value) long))
          (λ raw _. tt))
      (λ _. find_tsresol-Ensures options)
  where
    some_byte : (b : Bool) (n : ℕ) → (b && leb 1 n) ≡ true → 0 + 1 ≤ n
    some_byte b n h = ground arith

parse_idb-Ensures : (body : Bytes) (order : ByteOrder) → Ensures P Anything (parse_idb body order)
unfolding parse_idb parse_if_tsresol is_capture_error
parse_idb-Ensures body order =
    Ensures-bind P _ Anything (raise_if (ltb (length body) 8) _) _
      (raise_if-Ensures P (ltb (length body) 8) _ refl)
      λ _ long.
        Ensures-bind P Reads Anything (ordered_u16_at order body 0) _
          (ordered_u16_at-Reads P order body 0 (omega (arith, ltb→ge _ _ long)))
          λ link_type _.
            Ensures-bind P Anything Anything
              (iter_options (suc (length (drop 8 body))) (drop 8 body) order >>= find_tsresol) _
              (Ensures-bind P Anything Anything
                (iter_options (suc (length (drop 8 body))) (drop 8 body) order) find_tsresol
                (iter_options-Ensures (suc (length (drop 8 body))) (drop 8 body) order
                  (omega arith))
                (λ options _. find_tsresol-Ensures options))
              (λ resolution _. tt)

known_interface :
    (i : ℕ) (interfaces : List Interface)
    → i < length interfaces
    → Ensures P Anything (interface_at (get_elem? interfaces i))
known_interface i [] h = absurd (omega arith)
known_interface zero (f ∷ interfaces) h = tt
known_interface (suc i) (f ∷ interfaces) h = known_interface i interfaces (omega arith)

module _ (times : Times) where
  open times use {Time}

  parse_epb-Ensures :
      (body : Bytes) (order : ByteOrder) (interfaces : List Interface)
      → Ensures P Anything (parse_epb times body order interfaces)
  unfolding parse_epb is_capture_error
  parse_epb-Ensures body order interfaces =
      Ensures-bind P _ Anything (raise_if (ltb (length body) 20) _) _
        (raise_if-Ensures P (ltb (length body) 20) _ refl)
        λ _ long.
          Ensures-bind P Reads Anything (ordered_u32_at order body 0) _
            (ordered_u32_at-Reads P order body 0 (omega (arith, ltb→ge _ _ long)))
            λ iface_id _.
              Ensures-bind P Reads Anything (ordered_u32_at order body 4) _
                (ordered_u32_at-Reads P order body 4 (omega (arith, ltb→ge _ _ long)))
                λ ts_high _.
                  Ensures-bind P Reads Anything (ordered_u32_at order body 8) _
                    (ordered_u32_at-Reads P order body 8 (omega (arith, ltb→ge _ _ long)))
                    λ ts_low _.
                      Ensures-bind P Reads Anything (ordered_u32_at order body 12) _
                        (ordered_u32_at-Reads P order body 12 (omega (arith, ltb→ge _ _ long)))
                        λ cap_len _.
                          Ensures-bind P Reads Anything (ordered_u32_at order body 16) _
                            (ordered_u32_at-Reads P order body 16 (omega (arith, ltb→ge _ _ long)))
                            λ orig_len _.
                              Ensures-bind P _ Anything
                                (raise_if (ltb (length body) (20 + cap_len)) _) _
                                (raise_if-Ensures P (ltb (length body) (20 + cap_len)) _ refl)
                                λ _ _.
                                  Ensures-bind P _ Anything
                                    (raise_if (leb (length interfaces) iface_id) _) _
                                    (raise_if-Ensures P (leb (length interfaces) iface_id) _ refl)
                                    λ _ known.
                                      Ensures-bind P Anything Anything
                                        (interface_at (get_elem? interfaces iface_id)) _
                                        (known_interface iface_id interfaces
                                          (below (length interfaces) iface_id known))
                                        (λ iface _. tt)
    where
      below : (m n : ℕ) → leb m n ≡ false → n < m
      below m n h = ground arith

  parse_spb-Ensures :
      (body : Bytes) (order : ByteOrder) (interfaces : List Interface)
      → Ensures P Anything (parse_spb times body order interfaces)
  unfolding parse_spb is_capture_error
  parse_spb-Ensures body order interfaces =
      Ensures-bind P _ Anything (raise_if (ltb (length body) 4) _) _
        (raise_if-Ensures P (ltb (length body) 4) _ refl)
        λ _ long.
          Ensures-bind P Reads Anything (ordered_u32_at order body 0) _
            (ordered_u32_at-Reads P order body 0 (omega (arith, ltb→ge _ _ long)))
            (λ orig_len _. tt)

  skip_malformed-Ends :
      (strict : Bool) (block_type : ℕ) (e : Exception) (more : Run (PcapPacket Time))
      → P e
      → Ends P more
      → Ends P (skip_malformed times strict block_type e more)
  skip_malformed-Ends strict block_type e more h k =
      Ends-if P (not (is_malformed_block e)) _ _ (λ _. h)
        (λ _. Ends-if P strict _ _ (λ _. h) (λ _. k))

  yield_packet-Ends :
      (strict : Bool) (block_type : ℕ) (m : Outcome (PcapPacket Time))
      (more : Run (PcapPacket Time))
      → Ensures P Anything m
      → Ends P more
      → Ends P (yield_packet times strict block_type m more)
  yield_packet-Ends strict block_type (ok packet ws) more h k = k
  yield_packet-Ends strict block_type (err e) more h k =
      skip_malformed-Ends strict block_type e more h k

  add_interface-Ends :
      (strict : Bool) (block_type : ℕ) (m : Outcome Interface) (interfaces : List Interface)
      (more : List Interface → Run (PcapPacket Time))
      → Ensures P Anything m
      → ((known : List Interface) → Ends P (more known))
      → Ends P (add_interface times strict block_type m interfaces more)
  add_interface-Ends strict block_type (ok interface ws) interfaces more h k =
      k (interfaces ++ (interface ∷ []))
  add_interface-Ends strict block_type (err e) interfaces more h k =
      skip_malformed-Ends strict block_type e (more interfaces) h (k interfaces)

  read_block-Ends :
      (strict : Bool) (order : ByteOrder) (interfaces : List Interface) (block_type : ℕ)
      (body : Bytes) (more : List Interface → Run (PcapPacket Time))
      → ((known : List Interface) → Ends P (more known))
      → Ends P (read_block times strict order interfaces block_type body more)
  read_block-Ends strict order interfaces block_type body more k =
      Ends-if P (block_type == idb_type) _ _
        (λ _.
          add_interface-Ends strict block_type (parse_idb body order) interfaces more
            (parse_idb-Ensures body order) k)
        λ _.
          Ends-if P (block_type == epb_type) _ _
            (λ _.
              yield_packet-Ends strict block_type (parse_epb times body order interfaces)
                (more interfaces) (parse_epb-Ensures body order interfaces) (k interfaces))
            λ _.
              Ends-if P (block_type == spb_type) _ _
                (λ _.
                  yield_packet-Ends strict block_type (parse_spb times body order interfaces)
                    (more interfaces) (parse_spb-Ensures body order interfaces) (k interfaces))
                (λ _. k interfaces)

  section_order-Ensures : (bom : Bytes) → Ensures P Anything (section_order bom)
  unfolding is_capture_error
  section_order-Ensures bom =
      Ensures-if P Anything (same_bytes bom bom_big_endian) _ _ (λ _. tt)
        λ _. Ensures-if P Anything (same_bytes bom bom_little_endian) _ _ (λ _. tt) (λ _. refl)

  current_section-Ensures :
      (order : Option ByteOrder) (interfaces : List Interface)
      → Ensures P Anything (current_section order interfaces)
  unfolding is_capture_error
  current_section-Ensures none interfaces = refl
  current_section-Ensures (some order) interfaces = tt

  enter_section-Ensures :
      (order : Option ByteOrder) (interfaces : List Interface) (rest : Bytes)
      → Ensures P Anything (enter_section order interfaces rest)
  enter_section-Ensures order interfaces rest =
      Ensures-if P Anything (same_bytes (slice rest 0 4) shb_magic) _ _
        (λ _.
          Ensures-bind P Anything Anything (section_order (slice rest 8 12)) _
            (section_order-Ensures (slice rest 8 12)) (λ new _. tt))
        (λ _. current_section-Ensures order interfaces)

  block_loop-Ends :
      (fuel : ℕ) (strict : Bool) (order : Option ByteOrder) (interfaces : List Interface)
      (rest : Bytes)
      → length rest ≤ fuel
      → Ends P (block_loop times fuel strict order interfaces rest)
  unfolding block_loop is_capture_error
  block_loop-Ends fuel strict order interfaces [] h = tt
  block_loop-Ends zero strict order interfaces (b ∷ bs) h = absurd (omega arith)
  block_loop-Ends (suc fuel) strict order interfaces (b ∷ bs) h =
      Ends-if P (ltb (length (b ∷ bs)) 12) _ _ (λ _. Ends-if P strict _ _ (λ _. refl) (λ _. tt))
        λ long.
          after-Ends P Anything (enter_section order interfaces (b ∷ bs)) _
            (enter_section-Ensures order interfaces (b ∷ bs))
            λ section _.
              after-Ends P Reads (ordered_u32_at section.0 (b ∷ bs) 0) _
                (ordered_u32_at-Reads P section.0 (b ∷ bs) 0 (omega (arith, ltb→ge _ _ long)))
                λ block_type _.
                  after-Ends P Reads (ordered_u32_at section.0 (b ∷ bs) 4) _
                    (ordered_u32_at-Reads P section.0 (b ∷ bs) 4 (omega (arith, ltb→ge _ _ long)))
                    λ size _.
                      Ends-if P (ltb size 12 || ltb (length (b ∷ bs)) size) _ _
                        (λ _. Ends-if P strict _ _ (λ _. refl) (λ _. tt))
                        λ fits. read_block-Ends strict section.0 section.1 block_type _ _ λ known.
                          block_loop-Ends fuel strict (some section.0) known (drop size (b ∷ bs)) (
                            omega (
                              arith,
                              length-drop size (b ∷ bs),
                              at_least (ltb (length (b ∷ bs)) size) size fits,
                            ))
    where
      at_least : (b : Bool) (n : ℕ) → (ltb n 12 || b) ≡ false → 12 ≤ n
      at_least b n e = ground arith

  pub read_pcapng_in-Ends :
      (strict : Bool) (bytes : Bytes) → Ends P (read_pcapng_in times strict bytes)
  unfolding read_pcapng_in is_capture_error
  read_pcapng_in-Ends strict bytes =
      Ends-if P (ltb (length bytes) 12) _ _ (λ _. refl)
        (λ _. block_loop-Ends (length bytes) strict none [] bytes (omega arith))
