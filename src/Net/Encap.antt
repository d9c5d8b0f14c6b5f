-- ===== src/Net/Encap.antt =====
-- io/encap.py: `encapsulate_udp`, the inverse of `decapsulate_udp`.
pub mod Checksum
pub mod Image
pub mod Headers
pub mod Undone
pub mod Frame
pub mod RoundTrip
pub mod Errors
pub mod Verified
use rtpkit.Common.{
  ℕ, zero, suc, ◌+◌, ◌-◌, ◌*◌, ◌%◌, ◌^◌, Bool, true, false, Option, none, some, List, [], ◌∷◌, ◌++◌,
  not, ltb, ◌==◌, bit_and, bit_or, take, drop, length, truthy, if◌then◌else◌,
}
use rtpkit.Common.Bits.{shr, shl}
use rtpkit.Common.Int.{ℤ, pos, negsuc, bit_and_ℤ, in_range}
use rtpkit.Common.Keys.{beq_ℤ}
use rtpkit.Errors.{
  encapsulation_error, invalid_address, ip_versions_differ, invalid_port, unsupported_link_type,
  payload_too_long, value_error, out_of_fuel,
}
use rtpkit.Outcome.{Outcome, err, ◌>>=◌, ◌>>◌, pure, raise_if}
use rtpkit.Wire.{Bytes, pack_u8, pack_u16, pack_u32, zeros}
use rtpkit.Net.{
  IpAddresses, dlt_en10mb, dlt_raw, dlt_linux_sll, ethertype_ipv4, ethertype_ipv6, proto_udp,
}

abbrev pub dummy_dst_mac : Bytes
dummy_dst_mac = 0 ∷ 0 ∷ 0 ∷ 0 ∷ 0 ∷ 1 ∷ []

abbrev pub dummy_src_mac : Bytes
dummy_src_mac = 0 ∷ 0 ∷ 0 ∷ 0 ∷ 0 ∷ 2 ∷ []

abbrev pub max_udp_payload_v4 : ℕ
max_udp_payload_v4 = 0xffff - 20 - 8

abbrev pub max_udp_payload_v6 : ℕ
max_udp_payload_v6 = 0xffff - 8

-- The sum over the pairs of bytes.
unfoldable pub sum_words : Bytes → ℕ
sum_words (a ∷ b ∷ rest) = bit_or (shl a 8) b + sum_words rest
sum_words _ = 0

-- `while total >> 16`: each round leaves a smaller total.
unfoldable pub fold_carries : ℕ → ℕ → Outcome ℕ
fold_carries zero total = err out_of_fuel
fold_carries (suc fuel) total =
    if truthy (shr total 16)
    then fold_carries fuel (bit_and total 0xffff + shr total 16)
    else pure total

-- `(~total) & 0xFFFF`.
abbrev pub complement : ℕ → ℕ
complement total = bit_and_ℤ (negsuc total) 0xffff

abbrev pub pad_even : Bytes → Bytes
pad_even bytes = if truthy (length bytes % 2) then bytes ++ (0 ∷ []) else bytes

unfoldable pub checksum16 : Bytes → Outcome ℕ
unfolding sum_words fold_carries
checksum16 bytes =
    let total = sum_words (pad_even bytes) in
    fold_carries (suc total) total >>= λ folded. pure (complement folded)

-- `struct.pack("!HHHH", ...)`.
unfoldable pub pack_udp_header : ℤ → ℤ → ℕ → ℕ → Outcome Bytes
pack_udp_header src_port dst_port size checksum = do
  a ← pack_u16 src_port
  b ← pack_u16 dst_port
  c ← pack_u16 (pos size)
  d ← pack_u16 (pos checksum)
  pure (a ++ (b ++ (c ++ d)))

abbrev pub validate_port : ℤ → Outcome (Unit {0})
validate_port port = raise_if (not (in_range 0 0xffff port)) (encapsulation_error invalid_port)

-- `ipaddress.ip_address`: an IPv4 address, else an IPv6 address, else a ValueError.
pub data IpAddress : Type 0 where
  ipv4 ipv6 : (packed : Bytes) → IpAddress

abbrev pub version_of : IpAddress → ℕ
version_of (ipv4 _) = 4
version_of (ipv6 _) = 6

-- `.packed` of an address that a ValueError may take the place of.
abbrev pub packed_or_raise : Option Bytes → Outcome Bytes
packed_or_raise none = err value_error
packed_or_raise (some packed) = pure packed

abbrev pub address_of : Option Bytes → Option Bytes → Outcome IpAddress
address_of (some packed) _ = pure (ipv4 packed)
address_of none (some packed) = pure (ipv6 packed)
address_of none none = err (encapsulation_error invalid_address)

abbrev pub ethertype_of : ℕ → ℕ
ethertype_of ip_version = if ip_version == 4 then ethertype_ipv4 else ethertype_ipv6

abbrev pub ethernet_frame : Bytes → ℕ → Outcome Bytes
ethernet_frame ip_packet ethertype = do
  packed ← pack_u16 (pos ethertype)
  pure (dummy_dst_mac ++ (dummy_src_mac ++ (packed ++ ip_packet)))

abbrev pub sll_frame : Bytes → ℕ → Outcome Bytes
sll_frame ip_packet ethertype = do
  packed ← pack_u16 (pos ethertype)
  pure ((0 ∷ 0 ∷ 0 ∷ 1 ∷ 0 ∷ 0 ∷ []) ++ (zeros 8 ++ (packed ++ ip_packet)))

-- The last part of `encapsulate_udp`.
unfoldable pub wrap_link : ℤ → Bytes → ℕ → Outcome Bytes
wrap_link link_type ip_packet ethertype =
    if beq_ℤ link_type (pos dlt_en10mb)
    then ethernet_frame ip_packet ethertype
    else if beq_ℤ link_type (pos dlt_linux_sll)
    then sll_frame ip_packet ethertype
    else if beq_ℤ link_type (pos dlt_raw)
    then pure ip_packet
    else err (encapsulation_error unsupported_link_type)

abbrev pub max_payload : ℕ → ℕ
max_payload ip_version = if ip_version == 4 then max_udp_payload_v4 else max_udp_payload_v6

module _ (addresses : IpAddresses) where
  open addresses use {Text, ipv4_packed, ipv6_packed}

  unfoldable pub parse_ip : Text → Outcome IpAddress
  parse_ip text = address_of (ipv4_packed text) (ipv6_packed text)

  unfoldable pub pseudo_header_v4 : Text → Text → ℕ → Outcome Bytes
  pseudo_header_v4 src_ip dst_ip size = do
    src ← packed_or_raise (ipv4_packed src_ip)
    dst ← packed_or_raise (ipv4_packed dst_ip)
    len ← pack_u16 (pos size)
    pure (src ++ (dst ++ (0 ∷ proto_udp ∷ len)))

  unfoldable pub pseudo_header_v6 : Text → Text → ℕ → Outcome Bytes
  pseudo_header_v6 src_ip dst_ip size = do
    src ← packed_or_raise (ipv6_packed src_ip)
    dst ← packed_or_raise (ipv6_packed dst_ip)
    len ← pack_u32 (pos size)
    pure (src ++ (dst ++ (len ++ (0 ∷ 0 ∷ 0 ∷ proto_udp ∷ []))))

  unfoldable pub pseudo_header : Text → Text → ℕ → ℕ → Outcome Bytes
  unfolding pseudo_header_v4 pseudo_header_v6
  pseudo_header src_ip dst_ip size ip_version =
      if ip_version == 4
      then pseudo_header_v4 src_ip dst_ip size
      else pseudo_header_v6 src_ip dst_ip size

  unfoldable pub udp_checksum : Text → Text → Bytes → ℕ → Outcome ℕ
  unfolding pseudo_header checksum16
  udp_checksum src_ip dst_ip udp_segment ip_version = do
    pseudo ← pseudo_header src_ip dst_ip (length udp_segment) ip_version
    checksum ← checksum16 (pseudo ++ udp_segment)
    pure (if not (checksum == 0) then checksum else 0xffff)

  unfoldable pub build_udp : Text → Text → ℤ → ℤ → Bytes → ℕ → Outcome Bytes
  unfolding pack_udp_header udp_checksum
  build_udp src_ip dst_ip src_port dst_port payload ip_version = do
    let size = 8 + length payload
    blank ← pack_udp_header src_port dst_port size 0
    checksum ← udp_checksum src_ip dst_ip (blank ++ payload) ip_version
    header ← pack_udp_header src_port dst_port size checksum
    pure (header ++ payload)

  unfoldable pub build_ipv4 : Text → Text → Bytes → Outcome Bytes
  unfolding checksum16
  build_ipv4 src_ip dst_ip udp_segment = do
    total_length ← pack_u16 (pos (20 + length udp_segment))
    src ← packed_or_raise (ipv4_packed src_ip)
    dst ← packed_or_raise (ipv4_packed dst_ip)
    let header =
        (0x45 ∷ 0 ∷ [])
        ++ (total_length ++ ((0 ∷ 0 ∷ 0 ∷ 0 ∷ 64 ∷ proto_udp ∷ 0 ∷ 0 ∷ []) ++ (src ++ dst)))
    checksum ← checksum16 header
    packed ← pack_u16 (pos checksum)
    pure (take 10 header ++ (packed ++ (drop 12 header ++ udp_segment)))

  unfoldable pub build_ipv6 : Text → Text → Bytes → Outcome Bytes
  build_ipv6 src_ip dst_ip udp_segment = do
    first ← pack_u32 (pos (shl 6 28))
    size ← pack_u16 (pos (length udp_segment))
    src ← packed_or_raise (ipv6_packed src_ip)
    dst ← packed_or_raise (ipv6_packed dst_ip)
    pure (first ++ (size ++ ((proto_udp ∷ 64 ∷ []) ++ (src ++ (dst ++ udp_segment)))))

  unfoldable pub build_ip : Text → Text → Bytes → ℕ → Outcome Bytes
  unfolding build_ipv4 build_ipv6
  build_ip src_ip dst_ip udp_segment ip_version =
      if ip_version == 4
      then build_ipv4 src_ip dst_ip udp_segment
      else build_ipv6 src_ip dst_ip udp_segment

  unfoldable pub encapsulate_udp : ℤ → Text → Text → ℤ → ℤ → Bytes → Outcome Bytes
  unfolding parse_ip build_udp build_ip wrap_link
  encapsulate_udp link_type src_ip dst_ip src_port dst_port payload = do
    src_addr ← parse_ip src_ip
    dst_addr ← parse_ip dst_ip
    raise_if (not (version_of src_addr == version_of dst_addr))
        (encapsulation_error ip_versions_differ)
    validate_port src_port
    validate_port dst_port
    let ip_version = version_of src_addr
    raise_if (ltb (max_payload ip_version) (length payload))
        (encapsulation_error (payload_too_long (length payload) (max_payload ip_version)))
    udp_segment ← build_udp src_ip dst_ip src_port dst_port payload ip_version
    ip_packet ← build_ip src_ip dst_ip udp_segment ip_version
    wrap_link link_type ip_packet (ethertype_of ip_version)
