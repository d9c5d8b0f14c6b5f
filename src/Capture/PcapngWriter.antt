-- ===== src/Capture/PcapngWriter.antt =====
-- io/pcapng_writer.py: one section, one interface for each link type, one block for each packet.
pub mod Blocks
pub mod Bodies
pub mod Numbering
pub mod RoundTrip
use rtpkit.Common.{
  ℕ, ◌+◌, Option, none, some, List, [], ◌∷◌, ◌++◌, length, replicate, if◌then◌else◌,
}
use rtpkit.Common.Int.{ℤ, pos, bit_and_ℤ, shr_ℤ}
use rtpkit.Common.Keys.{contains, lookup, insert, keys, int_eq}
use rtpkit.Errors.{key_error}
use rtpkit.Outcome.{Outcome, err, ◌>>=◌, pure}
use rtpkit.Wire.{Bytes, zeros, align_gap}
use rtpkit.Wire.Order.{pack_u16_le, pack_u32_le}
use rtpkit.Capture.{Times, PcapPacket}
use rtpkit.Capture.Pcapng.{idb_type, epb_type, bom_little_endian}

abbrev pub shb_type : ℕ
shb_type = 0x0a0d_0d0a

unfoldable pub wrap_block : ℕ → Bytes → Outcome Bytes
wrap_block block_type body = do
  let padded_body = body ++ zeros (align_gap (length body))
  let total_len = 8 + length padded_body + 4
  kind ← pack_u32_le (pos block_type)
  size ← pack_u32_le (pos total_len)
  pure (kind ++ (size ++ (padded_body ++ size)))

-- The body is the byte-order magic, the version 1.0 and the section length -1.
unfoldable pub build_shb : Outcome Bytes
unfolding wrap_block
build_shb = wrap_block shb_type (bom_little_endian ++ ((1 ∷ 0 ∷ 0 ∷ 0 ∷ []) ++ replicate 8 0xff))

unfoldable pub build_idb : ℤ → Outcome Bytes
unfolding wrap_block
build_idb link_type = do
  packed ← pack_u16_le link_type
  wrap_block idb_type (packed ++ (0 ∷ 0 ∷ 0 ∷ 0 ∷ 4 ∷ 0 ∷ []))

unfoldable pub build_idbs : List ℤ → Outcome Bytes
unfolding build_idb
build_idbs [] = pure []
build_idbs (link_type ∷ link_types) = do
  first ← build_idb link_type
  more ← build_idbs link_types
  pure (first ++ more)

-- `d[k]`.
abbrev pub item_or_raise : Option ℕ → Outcome ℕ
item_or_raise none = err key_error
item_or_raise (some n) = pure n

module _ (times : Times) where
  open times use {Time, ticks}

  unfoldable pub build_epb : ℕ → PcapPacket Time → Outcome Bytes
  unfolding wrap_block
  build_epb iface_id pkt = do
    let ts_ticks = ticks pkt.timestamp
    id ← pack_u32_le (pos iface_id)
    ts_high ← pack_u32_le (pos (bit_and_ℤ (shr_ℤ ts_ticks 32) 0xffff_ffff))
    ts_low ← pack_u32_le (pos (bit_and_ℤ ts_ticks 0xffff_ffff))
    cap_len ← pack_u32_le (pos (length pkt.body))
    orig_len ← pack_u32_le pkt.original_length
    wrap_block epb_type (id ++ (ts_high ++ (ts_low ++ (cap_len ++ (orig_len ++ pkt.body)))))

  -- The loop that numbers the link types.
  unfoldable pub number_interfaces : List (ℤ × ℕ) → List (PcapPacket Time) → List (ℤ × ℕ)
  number_interfaces interfaces [] = interfaces
  number_interfaces interfaces (pkt ∷ packets) =
      number_interfaces
        (if contains pkt.link_type (keys interfaces)
          then interfaces
          else insert pkt.link_type (length interfaces) interfaces)
        packets

  unfoldable pub build_epbs : List (ℤ × ℕ) → List (PcapPacket Time) → Outcome Bytes
  unfolding build_epb
  build_epbs interfaces [] = pure []
  build_epbs interfaces (pkt ∷ packets) = do
    iface_id ← item_or_raise (lookup pkt.link_type interfaces)
    first ← build_epb iface_id pkt
    more ← build_epbs interfaces packets
    pure (first ++ more)

  unfoldable pub write_pcapng : List (PcapPacket Time) → Outcome Bytes
  unfolding number_interfaces build_shb build_idbs build_epbs
  write_pcapng packets = do
    let interfaces = number_interfaces [] packets
    shb ← build_shb
    idbs ← build_idbs (keys interfaces)
    epbs ← build_epbs interfaces packets
    pure (shb ++ (idbs ++ epbs))
