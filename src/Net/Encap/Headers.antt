-- ===== src/Net/Encap/Headers.antt =====
-- The IP headers that the builders return, and the pseudo headers.
use rtpkit.Common.{
  ℕ, ◌+◌, ◌-◌, ◌%◌, ◌^◌, ◌<◌, ◌≡◌, ◌∙◌, refl, ap, some, [], ◌∷◌, ◌++◌, append_assoc, length,
  length-append, All, arith,
}
use rtpkit.Outcome.{ok}
use rtpkit.Wire.{Bytes, IsByte, split_u16, split_u32}
use rtpkit.Wire.Write.{pack_u16_lem, pack_u32_lem, split_u16-IsByte, split_u32-IsByte, All-append}
use rtpkit.Net.{IpAddresses, proto_udp}
use rtpkit.Net.Encap.{
  checksum16, pseudo_header, pseudo_header_v4, pseudo_header_v6, build_ipv4, build_ipv6,
}
use rtpkit.Net.Encap.Checksum.{word_sum, ones_fold, checksum16_lem, ones_fold_closes}
use rtpkit.Net.Encap.Image.{
  ipv4_image, ipv6_image, ipv4_image-IsByte, word_sum-ipv4_image, verifies,
}

checksum_fits : (t : ℕ) → 65535 - t < 2 ^ 16
checksum_fits t = omega arith

module _ (addresses : IpAddresses) where
  open addresses use {Text, ipv4_packed, ipv6_packed, ipv4_fits, ipv6_fits}

  module _ (src_ip dst_ip : Text) (src dst segment : Bytes) (src_eq : ipv4_packed src_ip ≡ some src)
      (dst_eq : ipv4_packed dst_ip ≡ some dst) (total_fits : 20 + length segment < 2 ^ 16) where
    abbrev total : ℕ
    total = 20 + length segment

    addresses_bytes : All IsByte (src ++ dst)
    addresses_bytes =
        All-append src dst (ipv4_fits src_ip src src_eq).1 (ipv4_fits dst_ip dst dst_eq).1

    abbrev checksum : ℕ
    checksum = 65535 - ones_fold (word_sum (ipv4_image total 0 (src ++ dst)))

    -- The packet, and that the words of its header add up to all ones.
    pub build_ipv4_lem :
        (c : ℕ) × (build_ipv4 addresses src_ip dst_ip segment
          ≡ ok (ipv4_image (20 + length segment) c (src ++ (dst ++ segment))) [])
        × (checksum16 (ipv4_image (20 + length segment) c (src ++ dst)) ≡ ok 0 [])
    unfolding build_ipv4
    build_ipv4_lem = (
      checksum,
      rw
          (
            pack_u16_lem total total_fits,
            src_eq,
            dst_eq,
            checksum16_lem (ipv4_image total 0 (src ++ dst))
                (ipv4_image-IsByte total 0 (src ++ dst) total_fits (omega arith) addresses_bytes),
            pack_u16_lem checksum (checksum_fits _),
          )
          (ap (λ (rest : Bytes). ok (ipv4_image total checksum rest) [])
            (append_assoc src dst segment)),
      verifies (ipv4_image total checksum (src ++ dst))
          (ipv4_image-IsByte total checksum (src ++ dst) total_fits (checksum_fits _)
            addresses_bytes)
          (ap ones_fold (word_sum-ipv4_image total checksum (src ++ dst))
            ∙ ones_fold_closes (word_sum (ipv4_image total 0 (src ++ dst)))),
    )

  pub build_ipv6_lem :
      (src_ip dst_ip : Text) (src dst segment : Bytes)
      → ipv6_packed src_ip ≡ some src
      → ipv6_packed dst_ip ≡ some dst
      → length segment < 2 ^ 16
      → build_ipv6 addresses src_ip dst_ip segment
        ≡ ok (ipv6_image (length segment) (src ++ (dst ++ segment))) []
  unfolding build_ipv6
  build_ipv6_lem src_ip dst_ip src dst segment src_eq dst_eq h =
      rw (pack_u32_lem 0x60000000 (omega arith), pack_u16_lem (length segment) h, src_eq, dst_eq)
        refl

  pub pseudo_header_v4_lem :
      (src_ip dst_ip : Text) (src dst : Bytes) (size : ℕ)
      → ipv4_packed src_ip ≡ some src
      → ipv4_packed dst_ip ≡ some dst
      → size < 2 ^ 16
      → (pseudo : Bytes) × (pseudo_header addresses src_ip dst_ip size 4 ≡ ok pseudo [])
        × (length pseudo % 2 ≡ 0)
        × All IsByte pseudo
  unfolding pseudo_header pseudo_header_v4
  pseudo_header_v4_lem src_ip dst_ip src dst size src_eq dst_eq h =
      let (src_len, src_bytes) = ipv4_fits src_ip src src_eq in
      let (dst_len, dst_bytes) = ipv4_fits dst_ip dst dst_eq in
      (
        src ++ (dst ++ (0 ∷ proto_udp ∷ split_u16 size)),
        rw (src_eq, dst_eq, pack_u16_lem size h) refl,
        omega (
          arith,
          length-append src (dst ++ (0 ∷ proto_udp ∷ split_u16 size)),
          length-append dst (0 ∷ proto_udp ∷ split_u16 size),
          src_len,
          dst_len,
        ),
        All-append src _ src_bytes (
            All-append dst (0 ∷ proto_udp ∷ split_u16 size) dst_bytes
              (omega arith, (omega arith, split_u16-IsByte size h))),
      )

  pub pseudo_header_v6_lem :
      (src_ip dst_ip : Text) (src dst : Bytes) (size : ℕ)
      → ipv6_packed src_ip ≡ some src
      → ipv6_packed dst_ip ≡ some dst
      → size < 2 ^ 16
      → (pseudo : Bytes) × (pseudo_header addresses src_ip dst_ip size 6 ≡ ok pseudo [])
        × (length pseudo % 2 ≡ 0)
        × All IsByte pseudo
  unfolding pseudo_header pseudo_header_v6
  pseudo_header_v6_lem src_ip dst_ip src dst size src_eq dst_eq h =
      let (src_len, src_bytes) = ipv6_fits src_ip src src_eq in
      let (dst_len, dst_bytes) = ipv6_fits dst_ip dst dst_eq in
      (
        src ++ (dst ++ (split_u32 size ++ (0 ∷ 0 ∷ 0 ∷ proto_udp ∷ []))),
        rw (src_eq, dst_eq, pack_u32_lem size (omega arith)) refl,
        omega (
          arith,
          length-append src (dst ++ (split_u32 size ++ (0 ∷ 0 ∷ 0 ∷ proto_udp ∷ []))),
          length-append dst (split_u32 size ++ (0 ∷ 0 ∷ 0 ∷ proto_udp ∷ [])),
          src_len,
          dst_len,
        ),
        All-append src (dst ++ (split_u32 size ++ (0 ∷ 0 ∷ 0 ∷ proto_udp ∷ []))) src_bytes (
            All-append dst (split_u32 size ++ (0 ∷ 0 ∷ 0 ∷ proto_udp ∷ [])) dst_bytes (
              All-append (split_u32 size) (0 ∷ 0 ∷ 0 ∷ proto_udp ∷ [])
                (split_u32-IsByte size (omega arith)) (omega arith))),
      )
