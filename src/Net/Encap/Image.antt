-- ===== src/Net/Encap/Image.antt =====
-- The bytes that the builders of the UDP, IPv4 and IPv6 headers return, and their checksums.
use rtpkit.Common.{
  ℕ, ◌+◌, ◌-◌, ◌%◌, ◌^◌, ◌<◌, ◌≡◌, ◌∙◌, refl, ap, false, [], ◌∷◌, ◌++◌, inl, inr, Bool-cases, not,
  ◌==◌, length, All, if◌then◌else◌, arith,
}
use rtpkit.Common.Int.{pos}
use rtpkit.Outcome.{ok}
use rtpkit.Wire.{Bytes, IsByte, split_u16}
use rtpkit.Wire.Write.{pack_u16_lem, split_u16-IsByte, All-append}
use rtpkit.Net.{IpAddresses, proto_udp}
use rtpkit.Net.Encap.{checksum16, pack_udp_header, pseudo_header, udp_checksum, build_udp}
use rtpkit.Net.Encap.Checksum.{
  word_sum, ones_fold, checksum16_lem, ones_fold_closes, ones_fold_full,
}

abbrev pub udp_image : ℕ → ℕ → ℕ → Bytes → Bytes
udp_image src_port dst_port checksum payload =
    split_u16 src_port
    ++ (split_u16 dst_port ++ (split_u16 (8 + length payload) ++ (split_u16 checksum ++ payload)))

abbrev pub ipv4_image : ℕ → ℕ → Bytes → Bytes
ipv4_image total_length checksum rest =
    0x45
    ∷ 0
    ∷ (split_u16 total_length ++ (0 ∷ 0 ∷ 0 ∷ 0 ∷ 64 ∷ proto_udp ∷ (split_u16 checksum ++ rest)))

abbrev pub ipv6_image : ℕ → Bytes → Bytes
ipv6_image size rest = 0x60 ∷ 0 ∷ 0 ∷ 0 ∷ (split_u16 size ++ (proto_udp ∷ 64 ∷ rest))

pub word_sum-append :
    (xs ys : Bytes) → length xs % 2 ≡ 0 → word_sum (xs ++ ys) ≡ word_sum xs + word_sum ys
word_sum-append [] ys h = omega arith
word_sum-append (a ∷ []) ys h = absurd (omega arith)
word_sum-append (a ∷ b ∷ xs) ys h = omega (arith, word_sum-append xs ys (omega arith))

-- The checksum that UDP sends: all ones in place of zero.
abbrev pub nonzero_checksum : ℕ → ℕ
nonzero_checksum c = if not (c == 0) then c else 0xffff

nonzero_closes : (t : ℕ) → ones_fold (t + nonzero_checksum (65535 - ones_fold t)) ≡ 65535
nonzero_closes t = elim (Bool-cases (not (65535 - ones_fold t == 0))) [
  | inl some_left ↦ rw some_left (ones_fold_closes t)
  | inr none_left ↦ rw none_left (ones_fold_full t (full t none_left))
]
  where
    full : (n : ℕ) → not (65535 - ones_fold n == 0) ≡ false → ones_fold n ≡ 65535
    full n h = ground arith

nonzero_fits : (t : ℕ) → nonzero_checksum (65535 - t) < 2 ^ 16
nonzero_fits t = ground arith

-- Bytes whose words add up to a sum and its checksum verify.
pub verifies :
    (bytes : Bytes)
    → All IsByte bytes
    → ones_fold (word_sum bytes) ≡ 65535
    → checksum16 bytes ≡ ok 0 []
verifies bytes h e = checksum16_lem bytes h ∙ rw e refl

pack_udp_header_lem :
    (src_port dst_port size checksum : ℕ)
    → src_port < 2 ^ 16
    → dst_port < 2 ^ 16
    → size < 2 ^ 16
    → checksum < 2 ^ 16
    → pack_udp_header (pos src_port) (pos dst_port) size checksum
      ≡ ok (split_u16 src_port ++ (split_u16 dst_port ++ (split_u16 size ++ split_u16 checksum))) []
unfolding pack_udp_header
pack_udp_header_lem a b c d ha hb hc hd =
    rw (pack_u16_lem a ha, pack_u16_lem b hb, pack_u16_lem c hc, pack_u16_lem d hd) refl

pub put_u16 :
    (n : ℕ) (rest : Bytes) → n < 2 ^ 16 → All IsByte rest → All IsByte (split_u16 n ++ rest)
put_u16 n rest h k = All-append (split_u16 n) rest (split_u16-IsByte n h) k

udp_image-IsByte :
    (a b c : ℕ) (payload : Bytes)
    → a < 2 ^ 16
    → b < 2 ^ 16
    → 8 + length payload < 2 ^ 16
    → c < 2 ^ 16
    → All IsByte payload
    → All IsByte (udp_image a b c payload)
udp_image-IsByte a b c payload ha hb hl hc h =
    put_u16 a (split_u16 b ++ (split_u16 (8 + length payload) ++ (split_u16 c ++ payload))) ha (
      put_u16 b (split_u16 (8 + length payload) ++ (split_u16 c ++ payload)) hb
        (put_u16 (8 + length payload) (split_u16 c ++ payload) hl (put_u16 c payload hc h)))

-- A checksum adds to the sum of the segment with a zero in its place.
word_sum-udp_image :
    (a b c : ℕ) (payload : Bytes)
    → word_sum (udp_image a b c payload) ≡ word_sum (udp_image a b 0 payload) + c
word_sum-udp_image a b c payload = omega arith

pub word_sum-ipv4_image :
    (total c : ℕ) (rest : Bytes)
    → word_sum (ipv4_image total c rest) ≡ word_sum (ipv4_image total 0 rest) + c
word_sum-ipv4_image total c rest = omega arith

-- An IP header before its checksum, and the whole packet.
pub ipv4_image-IsByte :
    (total c : ℕ) (rest : Bytes)
    → total < 2 ^ 16
    → c < 2 ^ 16
    → All IsByte rest
    → All IsByte (ipv4_image total c rest)
ipv4_image-IsByte total c rest ht hc h = (
  omega arith,
  (
    omega arith,
    put_u16 total (0 ∷ 0 ∷ 0 ∷ 0 ∷ 64 ∷ proto_udp ∷ (split_u16 c ++ rest)) ht (
      omega arith,
      (
        omega arith,
        (omega arith, (omega arith, (omega arith, (omega arith, put_u16 c rest hc h)))),
      ),
    ),
  ),
)

module _ (addresses : IpAddresses) where
  open addresses use {Text, ipv4_packed, ipv6_packed}

  udp_checksum_of :
      (src_ip dst_ip : Text) (segment pseudo : Bytes) (ip_version : ℕ)
      → pseudo_header addresses src_ip dst_ip (length segment) ip_version ≡ ok pseudo []
      → All IsByte (pseudo ++ segment)
      → udp_checksum addresses src_ip dst_ip segment ip_version
        ≡ ok (nonzero_checksum (65535 - ones_fold (word_sum (pseudo ++ segment)))) []
  unfolding udp_checksum
  udp_checksum_of src_ip dst_ip segment pseudo ip_version e h =
      rw (e, checksum16_lem (pseudo ++ segment) h) refl

  -- A UDP segment behind a pseudo header of whole words.
  module _ (src_ip dst_ip : Text) (src_port dst_port : ℕ) (payload pseudo : Bytes) (ip_version : ℕ)
      (src_fits : src_port < 2 ^ 16) (dst_fits : dst_port < 2 ^ 16)
      (size_fits : 8 + length payload < 2 ^ 16) (payload_bytes : All IsByte payload)
      (whole : length pseudo % 2 ≡ 0) (pseudo_bytes : All IsByte pseudo)
      (pseudo_eq : pseudo_header addresses src_ip dst_ip (8 + length payload) ip_version
        ≡ ok pseudo []) where
    abbrev sum : ℕ
    sum = word_sum (pseudo ++ udp_image src_port dst_port 0 payload)

    abbrev checksum : ℕ
    checksum = nonzero_checksum (65535 - ones_fold sum)

    checksum_fits : checksum < 2 ^ 16
    checksum_fits = nonzero_fits (ones_fold sum)

    blank_bytes : All IsByte (pseudo ++ udp_image src_port dst_port 0 payload)
    blank_bytes = All-append pseudo (udp_image src_port dst_port 0 payload) pseudo_bytes (
        udp_image-IsByte src_port dst_port 0 payload src_fits dst_fits size_fits (omega arith)
          payload_bytes)

    size_eq : length (udp_image src_port dst_port 0 payload) ≡ 8 + length payload
    size_eq = omega arith

    udp_checksum_lem :
        udp_checksum addresses src_ip dst_ip (udp_image src_port dst_port 0 payload) ip_version
        ≡ ok checksum []
    udp_checksum_lem =
        udp_checksum_of src_ip dst_ip (udp_image src_port dst_port 0 payload) pseudo ip_version
          (ap (λ (n : ℕ). pseudo_header addresses src_ip dst_ip n ip_version) size_eq ∙ pseudo_eq)
          blank_bytes

    udp_sum : (c : ℕ) → word_sum (pseudo ++ udp_image src_port dst_port c payload) ≡ sum + c
    udp_sum c = omega (
      arith,
      word_sum-append pseudo (udp_image src_port dst_port c payload) whole,
      word_sum-append pseudo (udp_image src_port dst_port 0 payload) whole,
      word_sum-udp_image src_port dst_port c payload,
    )

    -- The segment, and that a receiver's sum over it and the pseudo header is all ones.
    pub build_udp_lem :
        (c : ℕ) × (c < 2 ^ 16)
        × (build_udp addresses src_ip dst_ip (pos src_port) (pos dst_port) payload ip_version
            ≡ ok (udp_image src_port dst_port c payload) [])
        × (checksum16 (pseudo ++ udp_image src_port dst_port c payload) ≡ ok 0 [])
    unfolding build_udp
    build_udp_lem = (
      checksum,
      checksum_fits,
      rw
          (
            pack_udp_header_lem src_port dst_port (8 + length payload) 0 src_fits dst_fits size_fits
                (omega arith),
            udp_checksum_lem,
            pack_udp_header_lem src_port dst_port (8 + length payload) checksum src_fits dst_fits
                size_fits checksum_fits,
          )
          refl,
      verifies (pseudo ++ udp_image src_port dst_port checksum payload)
          (All-append pseudo (udp_image src_port dst_port checksum payload) pseudo_bytes (
            udp_image-IsByte src_port dst_port checksum payload src_fits dst_fits size_fits
              checksum_fits payload_bytes))
          (ap ones_fold (udp_sum checksum) ∙ nonzero_closes sum),
    )
