-- ===== src/Net/Encap/Errors.antt =====
-- Which calls of `encapsulate_udp` return, and what the others raise.
use rtpkit.Common.{
  ℕ, ◌^◌, ◌≤◌, ◌<◌, ◌≡◌, ◌↔◌, inl, inr, refl, subst, false, Option, none, some, not, ltb, ltb→ge,
  ◌==◌, [], length, All, arith,
}
use rtpkit.Common.Int.{ℤ, pos, InRange, in_range, not_in_range→InRange}
use rtpkit.Errors.{
  Exception, EncapsulationDetail, encapsulation_error, invalid_address, ip_versions_differ,
  invalid_port, unsupported_link_type, payload_too_long,
}
use rtpkit.Outcome.{Outcome, ok, err, ◌>>=◌, raise_if}
use rtpkit.Outcome.Laws.{
  Ensures, Ensures-bind, Ensures-mono, Ensures-err, Ensures-ok, raise_if-Ensures,
}
use rtpkit.Wire.{Bytes, IsByte}
use rtpkit.Net.{IpAddresses}
use rtpkit.Net.Encap.{
  IpAddress, version_of, address_of, parse_ip, validate_port, max_payload, ethertype_of, wrap_link,
  build_udp, build_ip, encapsulate_udp,
}
use rtpkit.Net.Encap.Frame.{SupportedLink, link_type_cases}
use rtpkit.Net.Encap.RoundTrip.{CanCarry, built, frame_built, decapsulate_udp-encapsulate_udp}

abbrev pub IsEncapsulationError : Exception → Type 0
IsEncapsulationError e = (detail : EncapsulationDetail) × (e ≡ encapsulation_error detail)

address_of-Ensures :
    (o o' : Option Bytes)
    → Ensures IsEncapsulationError (λ a. address_of o o' ≡ ok a []) (address_of o o')
address_of-Ensures (some p) o' = refl
address_of-Ensures none (some p) = refl
address_of-Ensures none none = (invalid_address, refl)

same_versions : (a b : ℕ) → not (a == b) ≡ false → a ≡ b
same_versions a b h = ground arith

module _ (addresses : IpAddresses) where
  open addresses use {Text, ipv4_packed, ipv6_packed}

  parse_ip-Ensures :
      (text : Text)
      → Ensures IsEncapsulationError
          (λ a. parse_ip addresses text ≡ ok a [])
          (parse_ip addresses text)
  unfolding parse_ip
  parse_ip-Ensures text = address_of-Ensures (ipv4_packed text) (ipv6_packed text)

  module _ (link_type : ℤ) (src_ip dst_ip : Text) (payload : Bytes)
      (payload_bytes : All IsByte payload) where
    abbrev build_frame : ℤ → ℤ → ℕ → Outcome Bytes
    build_frame src_port dst_port v =
        build_udp addresses src_ip dst_ip src_port dst_port payload v >>= λ segment.
        build_ip addresses src_ip dst_ip segment v >>= λ packet.
        wrap_link link_type packet (ethertype_of v)

    build_frame-Ensures :
        (src dst : IpAddress) (m n : ℕ)
        → parse_ip addresses src_ip ≡ ok src []
        → parse_ip addresses dst_ip ≡ ok dst []
        → version_of src ≡ version_of dst
        → m < 2 ^ 16
        → n < 2 ^ 16
        → length payload ≤ max_payload (version_of src)
        → Ensures IsEncapsulationError
            (λ _. SupportedLink link_type)
            (build_frame (pos m) (pos n) (version_of src))
    build_frame-Ensures src dst m n se de v hm hn l = elim (link_type_cases link_type) [
      | inl k ↦
          let (frame, e, _) =
            frame_built addresses link_type src_ip dst_ip src dst m n payload se de v hm hn
              payload_bytes l k in
          rw e k
      | inr unsupported ↦
          let (segment, packet, udp_eq, ip_eq, _, _) =
            built addresses src_ip dst_ip src dst m n payload se de v hm hn payload_bytes l in
          rw (udp_eq, ip_eq, unsupported packet (ethertype_of (version_of src)))
            (unsupported_link_type, refl)
    ]

    checked-Ensures :
        (src_port dst_port : ℤ) (src dst : IpAddress)
        → parse_ip addresses src_ip ≡ ok src []
        → parse_ip addresses dst_ip ≡ ok dst []
        → version_of src ≡ version_of dst
        → InRange 0 0xffff src_port
        → InRange 0 0xffff dst_port
        → length payload ≤ max_payload (version_of src)
        → Ensures IsEncapsulationError
            (λ _. CanCarry addresses link_type src_ip dst_ip src_port dst_port payload)
            (build_frame src_port dst_port (version_of src))
    checked-Ensures src_port dst_port src dst se de v (m, me, a, mh) (n, ne, b, nh) l =
        subst
          (λ (p : ℤ × ℤ).
            Ensures IsEncapsulationError (carried p.0 p.1) (build_frame p.0 p.1 (version_of src)))
          (cc (me, ne))
          (Ensures-mono IsEncapsulationError IsEncapsulationError (λ _. SupportedLink link_type)
            (carried (pos m) (pos n)) (build_frame (pos m) (pos n) (version_of src))
            (build_frame-Ensures src dst m n se de v (omega arith) (omega arith) l) (λ e p. p)
            (λ frame k. record {
              src = src;
              dst = dst;
              src_eq = se;
              dst_eq = de;
              same_version = v;
              src_port_fits = (m, refl, a, mh);
              dst_port_fits = (n, refl, b, nh);
              payload_fits = l;
              link_supported = k;
            }))
      where
        carried : ℤ → ℤ → Bytes → Type 0
        carried i j frame = CanCarry addresses link_type src_ip dst_ip i j payload

    pub encapsulate_udp-Ensures :
        (src_port dst_port : ℤ)
        → Ensures IsEncapsulationError
            (λ _. CanCarry addresses link_type src_ip dst_ip src_port dst_port payload)
            (encapsulate_udp addresses link_type src_ip dst_ip src_port dst_port payload)
    unfolding encapsulate_udp
    encapsulate_udp-Ensures src_port dst_port =
        Ensures-bind P _ _ (parse_ip addresses src_ip) _ (parse_ip-Ensures src_ip) λ src se.
          Ensures-bind P _ _ (parse_ip addresses dst_ip) _ (parse_ip-Ensures dst_ip) λ dst de.
            Ensures-bind P _ _
              (raise_if (not (version_of src == version_of dst))
                (encapsulation_error ip_versions_differ))
              _
              (raise_if-Ensures P (not (version_of src == version_of dst)) _
                (ip_versions_differ, refl))
              λ _ same.
                Ensures-bind P _ _ (validate_port src_port) _
                  (raise_if-Ensures P (not (in_range 0 0xffff src_port)) _ (invalid_port, refl))
                  λ _ sp.
                    Ensures-bind P _ _ (validate_port dst_port) _
                      (raise_if-Ensures P (not (in_range 0 0xffff dst_port)) _ (invalid_port, refl))
                      λ _ dp.
                        Ensures-bind P _ _
                          (raise_if (ltb (max_payload (version_of src)) (length payload)) (
                            encapsulation_error
                              (payload_too_long (length payload) (max_payload (version_of src)))))
                          _
                          (raise_if-Ensures P (ltb (max_payload (version_of src)) (length payload))
                            _ (_, refl))
                          λ _ size.
                            checked-Ensures src_port dst_port src dst se de (same_versions _ _ same)
                              (not_in_range→InRange 0 0xffff src_port sp)
                              (not_in_range→InRange 0 0xffff dst_port dp) (ltb→ge _ _ size)
      where
        P : Exception → Type 0
        P = IsEncapsulationError

  -- `encapsulate_udp` returns a frame exactly if the addresses are valid and of one version, the ports fit in 16
  -- bits, the payload fits in the length fields and the link type is one of the three; what it raises
  -- otherwise is an `EncapsulationError`, and never a ValueError or a struct.error.
  pub encapsulate_udp-iff-CanCarry :
      (link_type : ℤ) (src_ip dst_ip : Text) (src_port dst_port : ℤ) (payload : Bytes)
      → All IsByte payload
      → (((frame : Bytes) × (encapsulate_udp addresses link_type src_ip dst_ip src_port dst_port
                payload
              ≡ ok frame []))
          ↔ CanCarry addresses link_type src_ip dst_ip src_port dst_port payload)
        × ((e : Exception)
            → encapsulate_udp addresses link_type src_ip dst_ip src_port dst_port payload ≡ err e
            → IsEncapsulationError e)
  encapsulate_udp-iff-CanCarry link_type src_ip dst_ip src_port dst_port payload h = (
    (
      λ (frame, e). Ensures-ok IsEncapsulationError _ _ ensured e,
      λ c.
          let (frame, e, _) =
            decapsulate_udp-encapsulate_udp addresses link_type src_ip dst_ip src_port dst_port
              payload h c in
          (frame, e),
    ),
    λ e q. Ensures-err IsEncapsulationError _ _ ensured q,
  )
    where
      ensured :
          Ensures IsEncapsulationError
            (λ _. CanCarry addresses link_type src_ip dst_ip src_port dst_port payload)
            (encapsulate_udp addresses link_type src_ip dst_ip src_port dst_port payload)
      ensured = encapsulate_udp-Ensures link_type src_ip dst_ip payload h src_port dst_port
