-- ===== src/Net/Encap/Verified.antt =====
-- A receiver that checks the sums of an IPv4 packet accepts it.
use rtpkit.Common.{
  ℕ, ◌+◌, ◌^◌, ◌≤◌, ◌<◌, ◌≡◌, ◌∙◌, sym, ap, some, [], ◌++◌, append_assoc, length, length-append,
  take, take-append, All, arith,
}
use rtpkit.Common.Int.{pos}
use rtpkit.Outcome.{ok}
use rtpkit.Wire.{Bytes, IsByte}
use rtpkit.Net.{IpAddresses}
use rtpkit.Net.Encap.{checksum16, pseudo_header, build_udp, build_ipv4, max_udp_payload_v4}
use rtpkit.Net.Encap.Image.{udp_image, ipv4_image, build_udp_lem}
use rtpkit.Net.Encap.Headers.{build_ipv4_lem, pseudo_header_v4_lem}

-- The header of a packet is its first 20 bytes.
header_taken :
    (total c : ℕ) (src dst rest : Bytes)
    → length src ≡ 4
    → length dst ≡ 4
    → take 20 (ipv4_image total c (src ++ (dst ++ rest))) ≡ ipv4_image total c (src ++ dst)
header_taken total c src dst rest hs hd = ap (ipv4_image total c) (
    ap (take 8) (sym (append_assoc src dst rest))
    ∙ take-append 8 (src ++ dst) rest (omega (arith, length-append src dst, hs, hd)))

module _ (addresses : IpAddresses) where
  open addresses use {Text, ipv4_packed, ipv4_fits}

  -- For IPv4 addresses, ports of 16 bits and a payload within the limit: `_checksum16` is 0 over the pseudo header
  -- with the UDP segment that `_build_udp` returns, and over the header, the first 20 bytes, of the
  -- packet that `_build_ipv4` makes of it. This is what a receiver tests.
  pub checksum16_verifies :
      (src_ip dst_ip : Text) (src dst : Bytes) (src_port dst_port : ℕ) (payload : Bytes)
      → ipv4_packed src_ip ≡ some src
      → ipv4_packed dst_ip ≡ some dst
      → src_port < 2 ^ 16
      → dst_port < 2 ^ 16
      → All IsByte payload
      → length payload ≤ max_udp_payload_v4
      → (pseudo segment packet : Bytes) × (pseudo_header addresses src_ip dst_ip (length segment) 4
          ≡ ok pseudo [])
        × (build_udp addresses src_ip dst_ip (pos src_port) (pos dst_port) payload 4
            ≡ ok segment [])
        × (build_ipv4 addresses src_ip dst_ip segment ≡ ok packet [])
        × (checksum16 (pseudo ++ segment) ≡ ok 0 [])
        × (checksum16 (take 20 packet) ≡ ok 0 [])
  checksum16_verifies src_ip dst_ip src dst src_port dst_port payload se de hs hd h l =
      let (pseudo, pseudo_eq, whole, pseudo_bytes) =
        pseudo_header_v4_lem addresses src_ip dst_ip src dst (8 + length payload) se de
          (omega arith) in
      let (c, _, udp_eq, udp_sum) =
        build_udp_lem addresses src_ip dst_ip src_port dst_port payload pseudo 4 hs hd (omega arith)
          h whole pseudo_bytes pseudo_eq in
      let segment = udp_image src_port dst_port c payload in
      let (d, ip_eq, ip_sum) =
        build_ipv4_lem addresses src_ip dst_ip src dst segment se de (omega arith) in
      (
        pseudo,
        segment,
        ipv4_image (20 + length segment) d (src ++ (dst ++ segment)),
        ap (λ (n : ℕ). pseudo_header addresses src_ip dst_ip n 4) (size_eq c) ∙ pseudo_eq,
        udp_eq,
        ip_eq,
        udp_sum,
        ap checksum16 (
              header_taken (20 + length segment) d src dst segment (ipv4_fits src_ip src se).0
                (ipv4_fits dst_ip dst de).0)
            ∙ ip_sum,
      )
    where
      size_eq : (c : ℕ) → length (udp_image src_port dst_port c payload) ≡ 8 + length payload
      size_eq c = omega arith
