-- ===== src/Net/Decap/Safety.antt =====
-- `decapsulate_udp` never raises, and what it finds is a piece of the frame.
use rtpkit.Common.{
  ◌+◌, ◌≤◌, ◌<◌, ◌⊎◌, inl, inr, leb, ◌&&◌, take, Bool-cases, take_all, drop-take, length-drop, sym,
  false, ℕ, ◌-◌, ◌*◌, ◌≡◌, refl, Option, none, some, [], ◌∷◌, not, ◌||◌, ltb, ltb→ge, ◌==◌, bit_and,
  drop, length, arith,
}
use rtpkit.Common.Bits.{shr}
use rtpkit.Common.Int.{ℤ}
use rtpkit.Outcome.{Outcome, ok, err}
use rtpkit.Outcome.Laws.{Yields, Yields-bind, Yields-if}
use rtpkit.Wire.{Bytes, byte_at, slice, u16_at}
use rtpkit.Wire.Read.{byte_at-Yields, u16_at-Yields}
use rtpkit.Net.{IpAddresses, DecapsulatedUdp, ethertype_ipv4, ethertype_ipv6, proto_udp}
use rtpkit.Net.Decap.{
  max_ipv6_ext_headers, strip_link_layer, within_or, decap_udp, decap_ipv4_header, decap_ipv4,
  ext_header_loop, decap_ipv6_payload, decap_ipv6, decap_ip, decapsulate_udp,
}
use rtpkit.Net.Decap.Link.{
  Never, IsPiece, whole-IsPiece, IsPiece-trans, LinkLeft, strip_link_layer-Yields,
  ext_header_loop-Yields,
}

module _ (addresses : IpAddresses) where
  open addresses use {Text, ipv4_text, ipv6_text}

  -- A datagram, and what its header and its body say: the payload ends where the length in the header
  -- says, or, if that is too small or too large, at the end.
  abbrev pub IsDatagram : Bytes → DecapsulatedUdp Text → Type 0
  IsDatagram udp d =
      (size : ℕ) × (8 ≤ length udp)
      × (u16_at udp 0 ≡ ok d.src_port [])
      × (u16_at udp 2 ≡ ok d.dst_port [])
      × (u16_at udp 4 ≡ ok size [])
      × (((8 ≤ size) × (size ≤ length udp) × (d.payload ≡ drop 8 (take size udp)))
          ⊎ (((size < 8) ⊎ (length udp < size)) × (d.payload ≡ drop 8 udp)))

  -- What is found is a datagram that stands in the frame.
  abbrev pub IsFound : Bytes → Option (DecapsulatedUdp Text) → Type 0
  IsFound frame none = Unit
  IsFound frame (some d) = (udp : Bytes) × IsPiece frame udp × IsDatagram udp d

  IsFound-inside :
      (frame inner : Bytes) (r : Option (DecapsulatedUdp Text))
      → IsPiece frame inner
      → IsFound inner r
      → IsFound frame r
  IsFound-inside frame inner none h k = tt
  IsFound-inside frame inner (some d) h (udp, piece, k) =
      (udp, IsPiece-trans frame inner udp h piece, k)

  -- A read inside the bytes, with the call that returned the number.
  u16_at-Reads :
      (bytes : Bytes) (i : ℕ)
      → i + 2 ≤ length bytes
      → Yields Never (λ n. u16_at bytes i ≡ ok n []) (u16_at bytes i)
  u16_at-Reads bytes i h = itself (u16_at bytes i) _ (u16_at-Yields Never bytes i h)
    where
      itself :
          (m : Outcome ℕ) (Q : ℕ → Type 0) → Yields Never Q m → Yields Never (λ n. m ≡ ok n []) m
      itself (ok n []) Q h = refl
      itself (ok n (w ∷ ws)) Q h = absurd h
      itself (err e) Q h = absurd h

  payload_cases :
      (bytes : Bytes) (size : ℕ)
      → ((8 ≤ size)
          × (size ≤ length bytes)
          × (slice bytes 8 (within_or 8 (length bytes) size) ≡ drop 8 (take size bytes)))
        ⊎ (((size < 8) ⊎ (length bytes < size))
            × (slice bytes 8 (within_or 8 (length bytes) size) ≡ drop 8 bytes))
  payload_cases bytes size = elim (Bool-cases (leb 8 size && leb size (length bytes))) [
    | inl fits ↦ inl (ground arith, ground arith, rw fits (sym (drop-take 8 size bytes)))
    | inr misfit ↦ inr (
      outside misfit,
      rw misfit (take_all (length bytes - 8) (drop 8 bytes) (omega (arith, length-drop 8 bytes))),
    )
  ]
    where
      outside : (leb 8 size && leb size (length bytes)) ≡ false → (size < 8) ⊎ (length bytes < size)
      outside misfit = elim (Bool-cases (leb 8 size)) [
        | inl enough ↦ inr (ground arith)
        | inr small ↦ inl (ground arith)
      ]

  -- A decapsulation of a piece, seen from the whole.
  inside-Yields :
      (frame inner : Bytes) (m : Outcome (Option (DecapsulatedUdp Text)))
      → IsPiece frame inner
      → Yields Never (IsFound inner) m
      → Yields Never (IsFound frame) m
  inside-Yields frame inner (ok r []) h k = IsFound-inside frame inner r h k
  inside-Yields frame inner (ok r (w ∷ ws)) h k = absurd k
  inside-Yields frame inner (err e) h k = absurd k

  decap_udp-Yields :
      (bytes : Bytes) (src_ip dst_ip : Text)
      → Yields Never (IsFound bytes) (decap_udp addresses bytes src_ip dst_ip)
  unfolding decap_udp
  decap_udp-Yields bytes src_ip dst_ip =
      Yields-if Never _ (ltb (length bytes) 8) _ _ (λ _. tt)
        λ long.
          Yields-bind Never _ _ (u16_at bytes 0) _
            (u16_at-Reads bytes 0 (omega (arith, ltb→ge _ _ long)))
            λ src_port src_eq.
              Yields-bind Never _ _ (u16_at bytes 2) _
                (u16_at-Reads bytes 2 (omega (arith, ltb→ge _ _ long)))
                λ dst_port dst_eq.
                  Yields-bind Never _ _ (u16_at bytes 4) _
                    (u16_at-Reads bytes 4 (omega (arith, ltb→ge _ _ long)))
                    (λ size size_eq. (
                      bytes,
                      whole-IsPiece bytes 0,
                      (size, ltb→ge _ _ long, src_eq, dst_eq, size_eq, payload_cases bytes size),
                    ))

  decap_ipv4-Yields : (bytes : Bytes) → Yields Never (IsFound bytes) (decap_ipv4 addresses bytes)
  unfolding decap_ipv4 decap_ipv4_header
  decap_ipv4-Yields bytes =
      Yields-if Never _ (ltb (length bytes) 20) _ _ (λ _. tt)
        λ long.
          Yields-bind Never _ _ (byte_at bytes 0) _
            (byte_at-Yields Never bytes 0 (omega (arith, ltb→ge _ _ long)))
            λ first _.
              Yields-if Never _ (not (bit_and (shr first 4) 0x0f == 4)) _ _ (λ _. tt)
                λ _.
                  Yields-if Never _
                    (ltb (bit_and first 0x0f * 4) 20 || ltb (length bytes) (bit_and first 0x0f * 4))
                    _ _ (λ _. tt)
                    λ _.
                      Yields-bind Never _ _ (byte_at bytes 9) _
                        (byte_at-Yields Never bytes 9 (omega (arith, ltb→ge _ _ long)))
                        λ proto _.
                          Yields-if Never _ (not (proto == proto_udp)) _ _ (λ _. tt)
                            λ _.
                              Yields-bind Never _ _ (u16_at bytes 2) _
                                (u16_at-Yields Never bytes 2 (omega (arith, ltb→ge _ _ long)))
                                λ total_length _.
                                  inside-Yields bytes _ _ (bit_and first 0x0f * 4, _, refl)
                                    (decap_udp-Yields _ (ipv4_text (slice bytes 12 16))
                                      (ipv4_text (slice bytes 16 20)))

  decap_ipv6_payload-Yields :
      (bytes : Bytes) (src_ip dst_ip : Text) (last : Option (ℕ × ℕ))
      → Yields Never (IsFound bytes) (decap_ipv6_payload addresses bytes src_ip dst_ip last)
  decap_ipv6_payload-Yields bytes src_ip dst_ip none = tt
  decap_ipv6_payload-Yields bytes src_ip dst_ip (some (next_header, offset)) =
      Yields-if Never _ (not (next_header == proto_udp)) _ _ (λ _. tt)
        λ _.
          inside-Yields bytes (drop offset bytes) _ (whole-IsPiece bytes offset)
            (decap_udp-Yields (drop offset bytes) src_ip dst_ip)

  decap_ipv6-Yields : (bytes : Bytes) → Yields Never (IsFound bytes) (decap_ipv6 addresses bytes)
  unfolding decap_ipv6
  decap_ipv6-Yields bytes =
      Yields-if Never _ (ltb (length bytes) 40) _ _ (λ _. tt)
        λ long.
          Yields-bind Never _ _ (byte_at bytes 0) _
            (byte_at-Yields Never bytes 0 (omega (arith, ltb→ge _ _ long)))
            λ first _.
              Yields-if Never _ (not (bit_and (shr first 4) 0x0f == 6)) _ _ (λ _. tt)
                λ _.
                  Yields-bind Never _ _ (byte_at bytes 6) _
                    (byte_at-Yields Never bytes 6 (omega (arith, ltb→ge _ _ long)))
                    λ next_header _.
                      Yields-bind Never _ _
                        (ext_header_loop max_ipv6_ext_headers bytes next_header 40) _
                        (ext_header_loop-Yields max_ipv6_ext_headers bytes next_header 40)
                        (λ last _. decap_ipv6_payload-Yields bytes _ _ last)

  decap_ip-Yields :
      (frame : Bytes) (stripped : Option (ℕ × Bytes))
      → LinkLeft frame stripped
      → Yields Never (IsFound frame) (decap_ip addresses stripped)
  decap_ip-Yields frame none h = tt
  decap_ip-Yields frame (some (ethertype, rest)) h =
      Yields-if Never _ (ethertype == ethertype_ipv4) _ _
        (λ _. inside-Yields frame rest _ h (decap_ipv4-Yields rest))
        λ _.
          Yields-if Never _ (ethertype == ethertype_ipv6) _ _
            (λ _. inside-Yields frame rest _ h (decap_ipv6-Yields rest)) (λ _. tt)

  answered :
      {A : Type 0} (Q : A → Type 0) (m : Outcome A)
      → Yields Never Q m
      → (a : A) × (m ≡ ok a []) × Q a
  answered Q (ok a []) h = (a, refl, h)
  answered Q (ok a (w ∷ ws)) h = absurd h
  answered Q (err e) h = absurd h

  -- `decapsulate_udp` answers for every link type and every frame: no read leaves the frame, nothing is raised;
  -- and what it finds is a UDP datagram that stands in consecutive bytes of the frame: the ports are those of its
  -- header, and the payload is what follows the header, up to the length that this states, if that is at least
  -- eight and no more than there is, and else up to the end.
  pub decapsulate_udp-IsFound :
      (link_type : ℤ) (frame : Bytes)
      → (r : Option (DecapsulatedUdp Text)) × (decapsulate_udp addresses link_type frame ≡ ok r [])
        × IsFound frame r
  unfolding decapsulate_udp
  decapsulate_udp-IsFound link_type frame = answered (IsFound frame) _ (
      Yields-bind Never _ _ (strip_link_layer link_type frame) _
        (strip_link_layer-Yields link_type frame) (decap_ip-Yields frame))
