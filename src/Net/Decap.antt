-- ===== src/Net/Decap.antt =====
-- io/decap.py: `decapsulate_udp`, which answers None for any frame that is not UDP. The reads of the
-- frame may raise here as they do in Python.
pub mod Link
pub mod Safety
use rtpkit.Common.{
  ℕ, zero, suc, ◌+◌, ◌*◌, Bool, true, false, Option, none, some, List, not, ◌||◌, ◌&&◌, leb, ltb,
  ◌==◌, bit_and, drop, length, if◌then◌else◌,
}
use rtpkit.Common.Bits.{shr}
use rtpkit.Common.Int.{ℤ, pos}
use rtpkit.Common.Keys.{beq_ℤ}
use rtpkit.Outcome.{Outcome, ◌>>=◌, pure}
use rtpkit.Wire.{Bytes, byte_at, slice, u16_at}
use rtpkit.Net.{
  IpAddresses, DecapsulatedUdp, dlt_en10mb, dlt_raw, dlt_linux_sll, ethertype_ipv4, ethertype_ipv6,
  proto_udp,
}

abbrev pub ethertype_vlan : ℕ
ethertype_vlan = 0x8100

abbrev pub max_vlan_tags : ℕ
max_vlan_tags = 2

abbrev pub max_ipv6_ext_headers : ℕ
max_ipv6_ext_headers = 8

abbrev pub ipv6_fragment : ℕ
ipv6_fragment = 44

-- `next_header in _IPV6_EXT_HEADERS`.
abbrev pub is_ipv6_ext_header : ℕ → Bool
is_ipv6_ext_header n = n == 0 || n == 43 || n == ipv6_fragment || n == 60

-- The loop over the VLAN tags, for the rounds that are left.
unfoldable pub vlan_loop : ℕ → Bytes → ℕ → ℕ → Outcome (Option (ℕ × Bytes))
vlan_loop zero frame ethertype offset = pure (some (ethertype, drop offset frame))
vlan_loop (suc n) frame ethertype offset =
    if not (ethertype == ethertype_vlan)
    then pure (some (ethertype, drop offset frame))
    else if ltb (length frame) (offset + 4)
    then pure none
    else u16_at frame (offset + 2) >>= λ inner. vlan_loop n frame inner (offset + 4)

unfoldable pub strip_ethernet : Bytes → Outcome (Option (ℕ × Bytes))
unfolding vlan_loop
strip_ethernet frame =
    if ltb (length frame) 14
    then pure none
    else u16_at frame 12 >>= λ ethertype. vlan_loop max_vlan_tags frame ethertype 14

unfoldable pub strip_sll : Bytes → Outcome (Option (ℕ × Bytes))
strip_sll frame =
    if ltb (length frame) 16
    then pure none
    else u16_at frame 14 >>= λ ethertype. pure (some (ethertype, drop 16 frame))

abbrev pub raw_version : Bytes → ℕ → Option (ℕ × Bytes)
raw_version frame version =
    if version == 4
    then some (ethertype_ipv4, frame)
    else if version == 6
    then some (ethertype_ipv6, frame)
    else none

unfoldable pub strip_raw : Bytes → Outcome (Option (ℕ × Bytes))
strip_raw frame =
    if ltb (length frame) 1
    then pure none
    else byte_at frame 0 >>= λ b. pure (raw_version frame (bit_and (shr b 4) 0x0f))

unfoldable pub strip_link_layer : ℤ → Bytes → Outcome (Option (ℕ × Bytes))
unfolding strip_ethernet strip_sll strip_raw
strip_link_layer link_type frame =
    if beq_ℤ link_type (pos dlt_en10mb)
    then strip_ethernet frame
    else if beq_ℤ link_type (pos dlt_linux_sll)
    then strip_sll frame
    else if beq_ℤ link_type (pos dlt_raw)
    then strip_raw frame
    else pure none

-- `n if low <= n <= high else high`.
abbrev pub within_or : ℕ → ℕ → ℕ → ℕ
within_or low high n = if leb low n && leb n high then n else high

-- The loop over the extension headers, for the rounds that are left: the next header and its offset,
-- or none for a chain that is cut.
unfoldable pub ext_header_loop : ℕ → Bytes → ℕ → ℕ → Outcome (Option (ℕ × ℕ))
ext_header_loop zero bytes next_header offset = pure (some (next_header, offset))
ext_header_loop (suc n) bytes next_header offset =
    if not (is_ipv6_ext_header next_header)
    then pure (some (next_header, offset))
    else if ltb (length bytes) (offset + 2)
    then pure none
    else byte_at bytes offset >>= λ following. byte_at bytes (offset + 1) >>= λ units.
        let ext_len = if next_header == ipv6_fragment then 8 else (units + 1) * 8 in
        if ltb (length bytes) (offset + ext_len)
        then pure none
        else ext_header_loop n bytes following (offset + ext_len)

module _ (addresses : IpAddresses) where
  open addresses use {Text, ipv4_text, ipv6_text}

  unfoldable pub decap_udp : Bytes → Text → Text → Outcome (Option (DecapsulatedUdp Text))
  decap_udp bytes src_ip dst_ip =
      if ltb (length bytes) 8
      then pure none
      else u16_at bytes 0 >>= λ src_port. u16_at bytes 2 >>= λ dst_port. u16_at bytes 4 >>= λ size.
          pure (
            some (record {
              src_ip = src_ip;
              dst_ip = dst_ip;
              src_port = src_port;
              dst_port = dst_port;
              payload = slice bytes 8 (within_or 8 (length bytes) size);
            }))

  -- Behind the length check, for the first byte.
  unfoldable pub decap_ipv4_header : Bytes → ℕ → Outcome (Option (DecapsulatedUdp Text))
  unfolding decap_udp
  decap_ipv4_header bytes first =
      let header_len = bit_and first 0x0f * 4 in
      if not (bit_and (shr first 4) 0x0f == 4)
      then pure none
      else if ltb header_len 20 || ltb (length bytes) header_len
      then pure none
      else byte_at bytes 9 >>= λ proto.
          if not (proto == proto_udp)
          then pure none
          else u16_at bytes 2 >>= λ total_length.
              decap_udp (slice bytes header_len (within_or header_len (length bytes) total_length))
                (ipv4_text (slice bytes 12 16)) (ipv4_text (slice bytes 16 20))

  unfoldable pub decap_ipv4 : Bytes → Outcome (Option (DecapsulatedUdp Text))
  unfolding decap_ipv4_header
  decap_ipv4 bytes =
      if ltb (length bytes) 20 then pure none else byte_at bytes 0 >>= decap_ipv4_header bytes

  abbrev pub decap_ipv6_payload :
      Bytes → Text → Text → Option (ℕ × ℕ) → Outcome (Option (DecapsulatedUdp Text))
  decap_ipv6_payload bytes src_ip dst_ip none = pure none
  decap_ipv6_payload bytes src_ip dst_ip (some (next_header, offset)) =
      if not (next_header == proto_udp)
      then pure none
      else decap_udp (drop offset bytes) src_ip dst_ip

  unfoldable pub decap_ipv6 : Bytes → Outcome (Option (DecapsulatedUdp Text))
  unfolding decap_udp ext_header_loop
  decap_ipv6 bytes =
      if ltb (length bytes) 40
      then pure none
      else byte_at bytes 0 >>= λ first.
          if not (bit_and (shr first 4) 0x0f == 6)
          then pure none
          else byte_at bytes 6 >>= λ next_header.
              ext_header_loop max_ipv6_ext_headers bytes next_header 40 >>= λ last.
              decap_ipv6_payload bytes (ipv6_text (slice bytes 8 24))
                (ipv6_text (slice bytes 24 40)) last

  abbrev pub decap_ip : Option (ℕ × Bytes) → Outcome (Option (DecapsulatedUdp Text))
  decap_ip none = pure none
  decap_ip (some (ethertype, ip_packet)) =
      if ethertype == ethertype_ipv4
      then decap_ipv4 ip_packet
      else if ethertype == ethertype_ipv6
      then decap_ipv6 ip_packet
      else pure none

  unfoldable pub decapsulate_udp : ℤ → Bytes → Outcome (Option (DecapsulatedUdp Text))
  unfolding strip_link_layer decap_ipv4 decap_ipv6
  decapsulate_udp link_type frame = strip_link_layer link_type frame >>= decap_ip
