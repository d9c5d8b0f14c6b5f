-- ===== src/Net/Encap/Undone.antt =====
-- Decapsulating what the builders return, layer by layer.
use rtpkit.Common.{
  ℕ, ◌+◌, ◌-◌, ◌/◌, ◌%◌, ◌^◌, ◌≤◌, ◌≡◌, ◌∙◌, refl, sym, ap, some, [], ◌++◌, append_assoc, ge→ltb,
  length, length-append, take, take-append, take_all, drop, drop-append, arith,
}
use rtpkit.Outcome.{ok}
use rtpkit.Wire.{Bytes, join_u16, byte_at, u16_at}
use rtpkit.Wire.Write.{join-split_u16}
use rtpkit.Net.{IpAddresses}
use rtpkit.Net.Decap.{
  within_or, decap_udp, decap_ipv4, decap_ipv4_header, decap_ipv6, ext_header_loop,
}
use rtpkit.Net.Encap.Image.{udp_image, ipv4_image, ipv6_image}

-- A declared size that is the real one.
declared_size : (low total size : ℕ) → low ≤ total → size ≡ total → within_or low total size ≡ total
declared_size low total size h e = ground arith

-- What stands behind a header, up to the declared size.
behind_header :
    (low total size : ℕ) (rest : Bytes)
    → size ≡ low + length rest
    → total ≡ low + length rest
    → take (within_or low total size - low) rest ≡ rest
behind_header low total size rest e g =
    take_all _ rest (omega (arith, declared_size low total size (omega arith) (omega arith)))

-- Two pieces of one size, and what follows.
module _ (n : ℕ) (src dst rest : Bytes) (src_len : length src ≡ n) (dst_len : length dst ≡ n) where
  src_read : take n (src ++ (dst ++ rest)) ≡ src
  src_read = take-append n src (dst ++ rest) (sym src_len)

  dst_read : take n (drop n (src ++ (dst ++ rest))) ≡ dst
  dst_read =
      ap (take n) (drop-append n src (dst ++ rest) (sym src_len))
      ∙ take-append n dst rest (sym dst_len)

  rest_read : drop (n + n) (src ++ (dst ++ rest)) ≡ rest
  rest_read =
      ap (drop (n + n)) (sym (append_assoc src dst rest))
      ∙ drop-append (n + n) (src ++ dst) rest
          (omega (arith, length-append src dst, src_len, dst_len))

module _ (addresses : IpAddresses) where
  open addresses use {Text, ipv4_text, ipv6_text}

  pub decap_udp-udp_image :
      (src_port dst_port c : ℕ) (payload : Bytes) (src_ip dst_ip : Text)
      → decap_udp addresses (udp_image src_port dst_port c payload) src_ip dst_ip
        ≡ ok
            (some (record {
              src_ip = src_ip;
              dst_ip = dst_ip;
              src_port = src_port;
              dst_port = dst_port;
              payload = payload;
            }))
            []
  unfolding decap_udp u16_at
  decap_udp-udp_image src_port dst_port c payload src_ip dst_ip =
      rw
        (
          ge→ltb (length (udp_image src_port dst_port c payload)) 8 (omega arith),
          join-split_u16 src_port,
          join-split_u16 dst_port,
          behind_header 8 (length (udp_image src_port dst_port c payload))
              (join_u16 ((8 + length payload) / 2 ^ 8) ((8 + length payload) % 2 ^ 8)) payload
              (join-split_u16 (8 + length payload)) (omega arith),
        )
        refl

  pub decap_ipv4-ipv4_image :
      (c : ℕ) (src dst segment : Bytes)
      → length src ≡ 4
      → length dst ≡ 4
      → decap_ipv4 addresses (ipv4_image (20 + length segment) c (src ++ (dst ++ segment)))
        ≡ decap_udp addresses segment (ipv4_text src) (ipv4_text dst)
  unfolding decap_ipv4 decap_ipv4_header byte_at u16_at
  decap_ipv4-ipv4_image c src dst segment hs hd =
      rw
        (
          ge→ltb (length (ipv4_image (20 + length segment) c (src ++ (dst ++ segment)))) 20 (
              omega (arith, length-append src (dst ++ segment), length-append dst segment, hs, hd)),
          rest_read 4 src dst segment hs hd,
          src_read 4 src dst segment hs hd,
          dst_read 4 src dst segment hs hd,
          behind_header 20 (length (ipv4_image (20 + length segment) c (src ++ (dst ++ segment))))
              (join_u16 ((20 + length segment) / 2 ^ 8) ((20 + length segment) % 2 ^ 8)) segment
              (join-split_u16 (20 + length segment))
              (omega
                (arith, length-append src (dst ++ segment), length-append dst segment, hs, hd)),
        )
        refl

  pub decap_ipv6-ipv6_image :
      (src dst segment : Bytes)
      → length src ≡ 16
      → length dst ≡ 16
      → decap_ipv6 addresses (ipv6_image (length segment) (src ++ (dst ++ segment)))
        ≡ decap_udp addresses segment (ipv6_text src) (ipv6_text dst)
  unfolding decap_ipv6 byte_at ext_header_loop
  decap_ipv6-ipv6_image src dst segment hs hd =
      rw
        (
          ge→ltb (length (ipv6_image (length segment) (src ++ (dst ++ segment)))) 40 (
              omega (arith, length-append src (dst ++ segment), length-append dst segment, hs, hd)),
          rest_read 16 src dst segment hs hd,
          src_read 16 src dst segment hs hd,
          dst_read 16 src dst segment hs hd,
        )
        refl
