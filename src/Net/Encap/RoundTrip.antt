-- ===== src/Net/Encap/RoundTrip.antt =====
-- `decapsulate_udp` undoes `encapsulate_udp`.
use rtpkit.Common.{
  ℕ, ◌+◌, ◌^◌, ◌≤◌, ◌<◌, ◌≡◌, ◌∙◌, refl, sym, ap, ◌⊎◌, inl, inr, false, Option, none, some, [],
  ◌++◌, not, ge→ltb, ◌==◌, length, All, arith,
}
use rtpkit.Common.Int.{ℤ, pos, pos_part, InRange, InRange→not_in_range}
use rtpkit.Outcome.{Outcome, ok, ◌>>=◌}
use rtpkit.Wire.{Bytes, IsByte}
use rtpkit.Net.{IpAddresses, DecapsulatedUdp}
use rtpkit.Net.Decap.{ethertype_vlan, strip_raw, decap_ip, decapsulate_udp}
use rtpkit.Net.Encap.{
  IpAddress, ipv4, ipv6, version_of, address_of, parse_ip, max_payload, ethertype_of, wrap_link,
  build_udp, build_ip, encapsulate_udp,
}
use rtpkit.Net.Encap.Image.{udp_image, ipv4_image, ipv6_image, build_udp_lem}
use rtpkit.Net.Encap.Headers.{
  build_ipv4_lem, build_ipv6_lem, pseudo_header_v4_lem, pseudo_header_v6_lem,
}
use rtpkit.Net.Encap.Undone.{decap_udp-udp_image, decap_ipv4-ipv4_image, decap_ipv6-ipv6_image}
use rtpkit.Net.Encap.Frame.{SupportedLink, strip_raw_v4, strip_raw_v6, wrap_link-strip}

address_of_cases :
    (o o' : Option Bytes) (a : IpAddress)
    → address_of o o' ≡ ok a []
    → ((p : Bytes) × (a ≡ ipv4 p) × (o ≡ some p)) ⊎ ((p : Bytes) × (a ≡ ipv6 p) × (o' ≡ some p))
address_of_cases (some p) o' a h = inl (p, cc h, refl)
address_of_cases none (some p) a h = inr (p, cc h, refl)
address_of_cases none none a h = absurd (cc h)

abbrev packed_of : IpAddress → Bytes
packed_of (ipv4 p) = p
packed_of (ipv6 p) = p

ethertype_fits : (a : IpAddress) → ethertype_of (version_of a) < 2 ^ 16
ethertype_fits (ipv4 p) = omega arith
ethertype_fits (ipv6 p) = omega arith

not_vlan : (a : IpAddress) → (ethertype_of (version_of a) == ethertype_vlan) ≡ false
not_vlan (ipv4 p) = refl
not_vlan (ipv6 p) = refl

pub same_test : (a b : ℕ) → a ≡ b → not (a == b) ≡ false
same_test a b e = ground arith

module _ (addresses : IpAddresses) where
  open addresses use {Text, ipv4_packed, ipv6_packed, ipv4_text, ipv6_text, ipv4_fits, ipv6_fits}

  pub parse_ip_cases :
      (text : Text) (a : IpAddress)
      → parse_ip addresses text ≡ ok a []
      → ((p : Bytes) × (a ≡ ipv4 p) × (ipv4_packed text ≡ some p))
        ⊎ ((p : Bytes) × (a ≡ ipv6 p) × (ipv6_packed text ≡ some p))
  unfolding parse_ip
  parse_ip_cases text a h = address_of_cases (ipv4_packed text) (ipv6_packed text) a h

  parse_ip-ipv4 :
      (text : Text) (p : Bytes)
      → parse_ip addresses text ≡ ok (ipv4 p) []
      → ipv4_packed text ≡ some p
  parse_ip-ipv4 text p h = elim (parse_ip_cases text (ipv4 p) h) [
    | inl (q, e, g) ↦ g ∙ ap some (sym (ap packed_of e))
    | inr (q, e, g) ↦ absurd (cc e)
  ]

  parse_ip-ipv6 :
      (text : Text) (p : Bytes)
      → parse_ip addresses text ≡ ok (ipv6 p) []
      → ipv6_packed text ≡ some p
  parse_ip-ipv6 text p h = elim (parse_ip_cases text (ipv6 p) h) [
    | inl (q, e, g) ↦ absurd (cc e)
    | inr (q, e, g) ↦ g ∙ ap some (sym (ap packed_of e))
  ]

  -- The canonical text of an address.
  abbrev pub text_of : IpAddress → Text
  text_of (ipv4 packed) = ipv4_text packed
  text_of (ipv6 packed) = ipv6_text packed

  abbrev found : Text → Text → ℕ → ℕ → Bytes → Outcome (Option (DecapsulatedUdp Text))
  found src_ip dst_ip src_port dst_port payload =
      ok
        (some (record {
          src_ip = src_ip;
          dst_ip = dst_ip;
          src_port = src_port;
          dst_port = dst_port;
          payload = payload;
        }))
        []

  -- A packet that is built, and what becomes of it on the way back.
  abbrev pub GoesBack : Text → Text → ℕ → ℕ → Bytes → ℕ → Text → Text → Type 0
  GoesBack src_ip dst_ip src_port dst_port payload ip_version src_text dst_text =
      (segment packet : Bytes) × (build_udp addresses src_ip dst_ip (pos src_port) (pos dst_port)
          payload ip_version
        ≡ ok segment [])
      × (build_ip addresses src_ip dst_ip segment ip_version ≡ ok packet [])
      × (strip_raw packet ≡ ok (some (ethertype_of ip_version, packet)) [])
      × (decap_ip addresses (some (ethertype_of ip_version, packet))
          ≡ found src_text dst_text src_port dst_port payload)

  module _ (src_ip dst_ip : Text) (src dst : Bytes) (src_port dst_port : ℕ) (payload : Bytes)
      (src_fits : src_port < 2 ^ 16) (dst_fits : dst_port < 2 ^ 16)
      (payload_bytes : All IsByte payload) where
    built_v4 :
        ipv4_packed src_ip ≡ some src
        → ipv4_packed dst_ip ≡ some dst
        → length payload ≤ max_payload 4
        → GoesBack src_ip dst_ip src_port dst_port payload 4 (ipv4_text src) (ipv4_text dst)
    unfolding build_ip
    built_v4 src_eq dst_eq h =
        let (pseudo, pseudo_eq, whole, pseudo_bytes) =
          pseudo_header_v4_lem addresses src_ip dst_ip src dst (8 + length payload) src_eq dst_eq
            (omega arith) in
        let (c, _, udp_eq, _) =
          build_udp_lem addresses src_ip dst_ip src_port dst_port payload pseudo 4 src_fits dst_fits
            (omega arith) payload_bytes whole pseudo_bytes pseudo_eq in
        let segment = udp_image src_port dst_port c payload in
        let (d, ip_eq, _) =
          build_ipv4_lem addresses src_ip dst_ip src dst segment src_eq dst_eq (omega arith) in
        (
          segment,
          ipv4_image (20 + length segment) d (src ++ (dst ++ segment)),
          udp_eq,
          ip_eq,
          strip_raw_v4 _,
          decap_ipv4-ipv4_image addresses d src dst segment (ipv4_fits src_ip src src_eq).0
                (ipv4_fits dst_ip dst dst_eq).0
              ∙ decap_udp-udp_image addresses src_port dst_port c payload (ipv4_text src)
                  (ipv4_text dst),
        )

    built_v6 :
        ipv6_packed src_ip ≡ some src
        → ipv6_packed dst_ip ≡ some dst
        → length payload ≤ max_payload 6
        → GoesBack src_ip dst_ip src_port dst_port payload 6 (ipv6_text src) (ipv6_text dst)
    unfolding build_ip
    built_v6 src_eq dst_eq h =
        let (pseudo, pseudo_eq, whole, pseudo_bytes) =
          pseudo_header_v6_lem addresses src_ip dst_ip src dst (8 + length payload) src_eq dst_eq
            (omega arith) in
        let (c, _, udp_eq, _) =
          build_udp_lem addresses src_ip dst_ip src_port dst_port payload pseudo 6 src_fits dst_fits
            (omega arith) payload_bytes whole pseudo_bytes pseudo_eq in
        let segment = udp_image src_port dst_port c payload in
        (
          segment,
          ipv6_image (length segment) (src ++ (dst ++ segment)),
          udp_eq,
          build_ipv6_lem addresses src_ip dst_ip src dst segment src_eq dst_eq (omega arith),
          strip_raw_v6 _,
          decap_ipv6-ipv6_image addresses src dst segment (ipv6_fits src_ip src src_eq).0
                (ipv6_fits dst_ip dst dst_eq).0
              ∙ decap_udp-udp_image addresses src_port dst_port c payload (ipv6_text src)
                  (ipv6_text dst),
        )

  -- What `encapsulate_udp` asks of its arguments.
  pub record CanCarry (link_type : ℤ) (src_ip dst_ip : Text) (src_port dst_port : ℤ)
      (payload : Bytes) : Type 0 where
    pub src : IpAddress
    pub dst : IpAddress
    pub src_eq : parse_ip addresses src_ip ≡ ok src []
    pub dst_eq : parse_ip addresses dst_ip ≡ ok dst []
    pub same_version : version_of src ≡ version_of dst
    pub src_port_fits : InRange 0 0xffff src_port
    pub dst_port_fits : InRange 0 0xffff dst_port
    pub payload_fits : length payload ≤ max_payload (version_of src)
    pub link_supported : SupportedLink link_type

  -- The packet for two addresses of one version.
  pub built :
      (src_ip dst_ip : Text) (src dst : IpAddress) (src_port dst_port : ℕ) (payload : Bytes)
      → parse_ip addresses src_ip ≡ ok src []
      → parse_ip addresses dst_ip ≡ ok dst []
      → version_of src ≡ version_of dst
      → src_port < 2 ^ 16
      → dst_port < 2 ^ 16
      → All IsByte payload
      → length payload ≤ max_payload (version_of src)
      → GoesBack src_ip dst_ip src_port dst_port payload
          (version_of src)
          (text_of src)
          (text_of dst)
  built src_ip dst_ip (ipv4 p) (ipv4 q) src_port dst_port payload se de v hs hd h l =
      built_v4 src_ip dst_ip p q src_port dst_port payload hs hd h (parse_ip-ipv4 src_ip p se)
        (parse_ip-ipv4 dst_ip q de) l
  built src_ip dst_ip (ipv6 p) (ipv6 q) src_port dst_port payload se de v hs hd h l =
      built_v6 src_ip dst_ip p q src_port dst_port payload hs hd h (parse_ip-ipv6 src_ip p se)
        (parse_ip-ipv6 dst_ip q de) l
  built src_ip dst_ip (ipv4 p) (ipv6 q) src_port dst_port payload se de v hs hd h l =
      absurd (omega arith)
  built src_ip dst_ip (ipv6 p) (ipv4 q) src_port dst_port payload se de v hs hd h l =
      absurd (omega arith)

  -- Behind the checks the frame is built, and it decapsulates to what went in.
  pub frame_built :
      (link_type : ℤ) (src_ip dst_ip : Text) (src dst : IpAddress) (src_port dst_port : ℕ)
      (payload : Bytes)
      → parse_ip addresses src_ip ≡ ok src []
      → parse_ip addresses dst_ip ≡ ok dst []
      → version_of src ≡ version_of dst
      → src_port < 2 ^ 16
      → dst_port < 2 ^ 16
      → All IsByte payload
      → length payload ≤ max_payload (version_of src)
      → SupportedLink link_type
      → (frame : Bytes) × ((build_udp addresses src_ip dst_ip
              (pos src_port)
              (pos dst_port)
              payload
              (version_of src)
            >>= λ segment. build_ip addresses src_ip dst_ip segment (version_of src) >>= λ packet.
                wrap_link link_type packet (ethertype_of (version_of src)))
          ≡ ok frame [])
        × (decapsulate_udp addresses link_type frame
            ≡ found (text_of src) (text_of dst) src_port dst_port payload)
  unfolding decapsulate_udp
  frame_built link_type src_ip dst_ip src dst src_port dst_port payload se de v hs hd h l k =
      let (segment, packet, udp_eq, ip_eq, raw, decap) =
        built src_ip dst_ip src dst src_port dst_port payload se de v hs hd h l in
      let (frame, wrap_eq, strip_eq) =
        wrap_link-strip link_type (ethertype_of (version_of src)) packet k (ethertype_fits src)
          (not_vlan src) raw in
      (frame, rw (udp_eq, ip_eq) wrap_eq, rw strip_eq decap)

  -- If the addresses are valid and of one version, the ports and the payload fit, and the link type is one of the
  -- three, `encapsulate_udp` returns a frame, and `decapsulate_udp` recovers from it the addresses in
  -- their canonical text, the ports and the payload.
  pub decapsulate_udp-encapsulate_udp :
      (link_type : ℤ) (src_ip dst_ip : Text) (src_port dst_port : ℤ) (payload : Bytes)
      → All IsByte payload
      → (c : CanCarry link_type src_ip dst_ip src_port dst_port payload)
      → (frame : Bytes) × (encapsulate_udp addresses link_type src_ip dst_ip src_port dst_port
            payload
          ≡ ok frame [])
        × (decapsulate_udp addresses link_type frame
            ≡ ok
                (some (record {
                  src_ip = text_of c.src;
                  dst_ip = text_of c.dst;
                  src_port = pos_part src_port;
                  dst_port = pos_part dst_port;
                  payload = payload;
                }))
                [])
  unfolding encapsulate_udp
  decapsulate_udp-encapsulate_udp link_type src_ip dst_ip src_port dst_port payload h c =
      let (m, me, _, mh) = c.src_port_fits in
      let (n, ne, _, nh) = c.dst_port_fits in
      let (frame, built_eq, decap_eq) =
        frame_built link_type src_ip dst_ip c.src c.dst m n payload c.src_eq c.dst_eq c.same_version
          (omega arith) (omega arith) h c.payload_fits c.link_supported in
      (
        frame,
        rw
            (
              c.src_eq,
              c.dst_eq,
              same_test (version_of c.src) (version_of c.dst) c.same_version,
              InRange→not_in_range 0 0xffff src_port c.src_port_fits,
              InRange→not_in_range 0 0xffff dst_port c.dst_port_fits,
              ge→ltb (max_payload (version_of c.src)) (length payload) c.payload_fits,
              me,
              ne,
            )
            built_eq,
        rw (me, ne) decap_eq,
      )
