-- ===== src/Net/Tests.antt =====
-- The addresses of three hosts, and the witnesses of the theorems on frames.
use rtpkit.Common.{
  ℕ, ◌≡◌, ◌↔◌, refl, subst, inl, inr, ◌==◌, if◌then◌else◌, Option, none, some, [], ◌∷◌, ◌++◌,
  length, take, All, arith,
}
use rtpkit.Common.Int.{pos}
use rtpkit.Errors.{Exception}
use rtpkit.Outcome.{ok, err}
use rtpkit.Wire.{u16_at, byte_at, Bytes, IsByte}
use rtpkit.Net.{IpAddresses, DecapsulatedUdp}
use rtpkit.Net.Decap.{decapsulate_udp}
use rtpkit.Net.Decap.Safety.{IsFound, decapsulate_udp-IsFound}
use rtpkit.Net.Encap.{
  ipv4, parse_ip, checksum16, pseudo_header, build_udp, build_ipv4, encapsulate_udp,
}
use rtpkit.Net.Encap.RoundTrip.{CanCarry, text_of, decapsulate_udp-encapsulate_udp}
use rtpkit.Net.Encap.Errors.{IsEncapsulationError, encapsulate_udp-iff-CanCarry}
use rtpkit.Net.Encap.Verified.{checksum16_verifies}

data Host : Type 0 where
  alpha beta gamma unknown : Host

abbrev alpha_bytes : Bytes
alpha_bytes = 10 ∷ 0 ∷ 0 ∷ 1 ∷ []

abbrev beta_bytes : Bytes
beta_bytes = 10 ∷ 0 ∷ 0 ∷ 2 ∷ []

abbrev gamma_bytes : Bytes
gamma_bytes = 0xfe ∷ 0x80 ∷ 0 ∷ 0 ∷ 0 ∷ 0 ∷ 0 ∷ 0 ∷ 0 ∷ 0 ∷ 0 ∷ 0 ∷ 0 ∷ 0 ∷ 0 ∷ 1 ∷ []

abbrev packed_v4 : Host → Option Bytes
packed_v4 alpha = some alpha_bytes
packed_v4 beta = some beta_bytes
packed_v4 _ = none

abbrev packed_v6 : Host → Option Bytes
packed_v6 gamma = some gamma_bytes
packed_v6 _ = none

abbrev text_v4 : Bytes → Host
text_v4 (_ ∷ _ ∷ _ ∷ b ∷ []) = if b == 1 then alpha else beta
text_v4 _ = unknown

abbrev HasSize : ℕ → Bytes → Type 0
HasSize n packed = (length packed ≡ n) × All IsByte packed

fits_v4 : (host : Host) (packed : Bytes) → packed_v4 host ≡ some packed → HasSize 4 packed
fits_v4 alpha packed h = subst (HasSize 4) (same_packed h) (refl, omega arith)
  where
    same_packed : some alpha_bytes ≡ some packed → alpha_bytes ≡ packed
    same_packed e = cc e
fits_v4 beta packed h = subst (HasSize 4) (same_packed h) (refl, omega arith)
  where
    same_packed : some beta_bytes ≡ some packed → beta_bytes ≡ packed
    same_packed e = cc e
fits_v4 gamma packed h = absurd (cc h)
fits_v4 unknown packed h = absurd (cc h)

fits_v6 : (host : Host) (packed : Bytes) → packed_v6 host ≡ some packed → HasSize 16 packed
fits_v6 gamma packed h = subst (HasSize 16) (same_packed h) (refl, omega arith)
  where
    same_packed : some gamma_bytes ≡ some packed → gamma_bytes ≡ packed
    same_packed e = cc e
fits_v6 alpha packed h = absurd (cc h)
fits_v6 beta packed h = absurd (cc h)
fits_v6 unknown packed h = absurd (cc h)

abbrev hosts : IpAddresses
hosts = record {
  Text = Host;
  ipv4_packed = packed_v4;
  ipv6_packed = packed_v6;
  ipv4_text = text_v4;
  ipv6_text = λ _. gamma;
  ipv4_fits = fits_v4;
  ipv6_fits = fits_v6;
}

abbrev payload : Bytes
payload = 1 ∷ 2 ∷ 3 ∷ []

can_carry : CanCarry hosts (pos 113) alpha beta (pos 5004) (pos 5006) payload
unfolding parse_ip
can_carry = record {
  src = ipv4 alpha_bytes;
  dst = ipv4 beta_bytes;
  src_eq = refl;
  dst_eq = refl;
  same_version = refl;
  src_port_fits = (5004, refl, omega arith, omega arith);
  dst_port_fits = (5006, refl, omega arith, omega arith);
  payload_fits = omega arith;
  link_supported = inr (inl refl);
}

decapsulate_udp-encapsulate_udp_example :
    (frame : Bytes) × (encapsulate_udp hosts (pos 113) alpha beta (pos 5004) (pos 5006) payload
      ≡ ok frame [])
    × (decapsulate_udp hosts (pos 113) frame
        ≡ ok
            (some (record {
              src_ip = text_of hosts can_carry.src;
              dst_ip = text_of hosts can_carry.dst;
              src_port = 5004;
              dst_port = 5006;
              payload = payload;
            }))
            [])
decapsulate_udp-encapsulate_udp_example =
    decapsulate_udp-encapsulate_udp hosts (pos 113) alpha beta (pos 5004) (pos 5006) payload
      (omega arith) can_carry

encapsulate_udp-iff-CanCarry_example :
    (((frame : Bytes) × (encapsulate_udp hosts (pos 1) alpha gamma (pos 5004) (pos 5006) payload
          ≡ ok frame []))
      ↔ CanCarry hosts (pos 1) alpha gamma (pos 5004) (pos 5006) payload)
    × ((e : Exception)
        → encapsulate_udp hosts (pos 1) alpha gamma (pos 5004) (pos 5006) payload ≡ err e
        → IsEncapsulationError e)
encapsulate_udp-iff-CanCarry_example =
    encapsulate_udp-iff-CanCarry hosts (pos 1) alpha gamma (pos 5004) (pos 5006) payload
      (omega arith)

-- An Ethernet frame with a byte behind its IPv4 packet.
abbrev ethernet_bytes : Bytes
ethernet_bytes =
    0 ∷ 0 ∷ 0 ∷ 0 ∷ 0 ∷ 1 ∷ 0 ∷ 0 ∷ 0 ∷ 0 ∷ 0 ∷ 2 ∷ 8 ∷ 0 ∷ 0x45 ∷ 0 ∷ 0 ∷ 31 ∷ 0 ∷ 0 ∷ 0 ∷ 0 ∷ 64
    ∷ 17 ∷ 0 ∷ 0 ∷ 10 ∷ 0 ∷ 0 ∷ 1 ∷ 10 ∷ 0 ∷ 0 ∷ 2 ∷ 0x13 ∷ 0x8c ∷ 0x13 ∷ 0x8e ∷ 0 ∷ 11 ∷ 0 ∷ 0 ∷ 1
    ∷ 2 ∷ 3 ∷ 0xff ∷ []

found_payload :
    decapsulate_udp hosts (pos 1) ethernet_bytes
    ≡ ok
        (some (record {
          src_ip = alpha;
          dst_ip = beta;
          src_port = 5004;
          dst_port = 5006;
          payload = payload;
        }))
        []
unfolding decapsulate_udp u16_at byte_at
found_payload = refl

decapsulate_udp-IsFound_example :
    (r : Option (DecapsulatedUdp Host)) × (decapsulate_udp hosts (pos 1) ethernet_bytes ≡ ok r [])
    × IsFound hosts ethernet_bytes r
decapsulate_udp-IsFound_example = decapsulate_udp-IsFound hosts (pos 1) ethernet_bytes

checksum16_verifies_example :
    (pseudo segment packet : Bytes) × (pseudo_header hosts alpha beta (length segment) 4
      ≡ ok pseudo [])
    × (build_udp hosts alpha beta (pos 5004) (pos 5006) payload 4 ≡ ok segment [])
    × (build_ipv4 hosts alpha beta segment ≡ ok packet [])
    × (checksum16 (pseudo ++ segment) ≡ ok 0 [])
    × (checksum16 (take 20 packet) ≡ ok 0 [])
checksum16_verifies_example =
    checksum16_verifies hosts alpha beta alpha_bytes beta_bytes 5004 5006 payload refl refl
      (omega arith) (omega arith) (omega arith) (omega arith)
