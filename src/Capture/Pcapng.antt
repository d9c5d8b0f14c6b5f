-- ===== src/Capture/Pcapng.antt =====
-- io/pcapng_reader.py. The loop over an offset is a recursion on the bytes from there on; each round takes
-- a block of at least twelve of them.
pub mod Safety
pub mod Modes
use rtpkit.Common.{
  ℕ, zero, suc, ◌+◌, ◌-◌, ◌*◌, ◌^◌, min, Bool, true, false, Option, none, some, List, [], ◌∷◌, ◌++◌,
  not, ◌||◌, ◌&&◌, leb, ltb, ◌==◌, truthy, bit_and, bit_or, drop, take, length, get_elem?,
  if◌then◌else◌,
}
use rtpkit.Common.Bits.{shl}
use rtpkit.Common.Int.{ℤ, pos}
use rtpkit.Errors.{
  Exception, index_error, out_of_fuel, pcapng_buffer_too_short, pcapng_invalid_byte_order_magic,
  pcapng_malformed_block, no_section_header, block_unavailable, short_idb, short_epb, short_spb,
  short_packet, unknown_interface,
}
use rtpkit.Outcome.{Outcome, ok, err, ◌>>=◌, ◌>>◌, pure, raise_if}
use rtpkit.Wire.{Bytes, slice, byte_at, align_gap}
use rtpkit.Wire.Order.{ByteOrder, big, little, ordered_u16_at, ordered_u32_at}
use rtpkit.Capture.{
  Run, yields, logs, returns, raises, after, short_block, unavailable_block, malformed_block, Times,
  PcapPacket, same_bytes,
}

abbrev pub min_block_size : ℕ
min_block_size = 8 + 4

abbrev pub shb_magic : Bytes
shb_magic = 0x0a ∷ 0x0d ∷ 0x0d ∷ 0x0a ∷ []

abbrev pub idb_type : ℕ
idb_type = 1

abbrev pub spb_type : ℕ
spb_type = 3

abbrev pub epb_type : ℕ
epb_type = 6

abbrev pub bom_big_endian : Bytes
bom_big_endian = 0x1a ∷ 0x2b ∷ 0x3c ∷ 0x4d ∷ []

abbrev pub bom_little_endian : Bytes
bom_little_endian = 0x4d ∷ 0x3c ∷ 0x2b ∷ 0x1a ∷ []

abbrev pub opt_endofopt : ℕ
opt_endofopt = 0

abbrev pub opt_if_tsresol : ℕ
opt_if_tsresol = 9

abbrev pub default_ts_resol : ℕ
default_ts_resol = 1_000_000

pub record Interface : Type 0 where
  pub link_type : ℕ
  pub ts_resolution : ℕ

-- Behind the header of an option: its value, and the options that follow.
abbrev pub take_option : ℕ → ℕ → Bytes → Outcome (List (ℕ × Bytes)) → Outcome (List (ℕ × Bytes))
take_option code size rest more =
    if code == opt_endofopt
    then pure []
    else if ltb (length rest) size
    then pure []
    else more >>= λ options. pure ((code, slice rest 0 size) ∷ options)

-- The options that `_iter_options` yields.
unfoldable pub iter_options : ℕ → Bytes → ByteOrder → Outcome (List (ℕ × Bytes))
iter_options zero rest order = err out_of_fuel
iter_options (suc fuel) rest order =
    if ltb (length rest) 4
    then pure []
    else ordered_u16_at order rest 0 >>= λ code. ordered_u16_at order rest 2 >>= λ size.
        take_option code size (drop 4 rest)
          (iter_options fuel (drop (4 + (size + align_gap size)) rest) order)

abbrev pub resolution_of : ℕ → ℕ
resolution_of raw = if truthy (bit_and raw 0x80) then 2 ^ bit_and raw 0x7f else 10 ^ raw

-- The loop of `_parse_if_tsresol`.
unfoldable pub find_tsresol : List (ℕ × Bytes) → Outcome ℕ
find_tsresol [] = pure default_ts_resol
find_tsresol ((code, value) ∷ options) =
    if code == opt_if_tsresol && leb 1 (length value)
    then (byte_at value 0 >>= λ raw. pure (resolution_of raw))
    else find_tsresol options

unfoldable pub parse_if_tsresol : Bytes → ByteOrder → Outcome ℕ
unfolding iter_options find_tsresol
parse_if_tsresol options order = iter_options (suc (length options)) options order >>= find_tsresol

unfoldable pub parse_idb : Bytes → ByteOrder → Outcome Interface
unfolding parse_if_tsresol
parse_idb body order = do
  raise_if (ltb (length body) 8) (pcapng_malformed_block (short_idb (length body)))
  link_type ← ordered_u16_at order body 0
  ts_resolution ← parse_if_tsresol (drop 8 body) order
  pure (record { link_type = link_type; ts_resolution = ts_resolution })

-- `interfaces[i]`.
abbrev pub interface_at : Option Interface → Outcome Interface
interface_at none = err index_error
interface_at (some interface) = pure interface

-- `isinstance(e, PcapngMalformedBlock)`.
unfoldable pub is_malformed_block : Exception → Bool
is_malformed_block (pcapng_malformed_block _) = true
is_malformed_block _ = false

-- The byte order of a section, by the magic in its header.
abbrev pub section_order : Bytes → Outcome ByteOrder
section_order bom =
    if same_bytes bom bom_big_endian
    then pure big
    else if same_bytes bom bom_little_endian
    then pure little
    else err (pcapng_invalid_byte_order_magic bom)

-- A block that begins no section has the order of the one that it is in.
abbrev pub current_section :
    Option ByteOrder → List Interface → Outcome (ByteOrder × List Interface)
current_section none interfaces = err (pcapng_malformed_block no_section_header)
current_section (some order) interfaces = pure (order, interfaces)

abbrev pub enter_section :
    Option ByteOrder → List Interface → Bytes → Outcome (ByteOrder × List Interface)
enter_section order interfaces rest =
    if same_bytes (slice rest 0 4) shb_magic
    then (section_order (slice rest 8 12) >>= λ new. pure (new, []))
    else current_section order interfaces

module _ (times : Times) where
  open times use {Time, zero_time, ratio}

  unfoldable pub parse_epb : Bytes → ByteOrder → List Interface → Outcome (PcapPacket Time)
  parse_epb body order interfaces = do
    raise_if (ltb (length body) 20) (pcapng_malformed_block (short_epb (length body)))
    iface_id ← ordered_u32_at order body 0
    ts_high ← ordered_u32_at order body 4
    ts_low ← ordered_u32_at order body 8
    cap_len ← ordered_u32_at order body 12
    orig_len ← ordered_u32_at order body 16
    raise_if (ltb (length body) (20 + cap_len))
        (pcapng_malformed_block (short_packet cap_len (length body - 20)))
    raise_if (leb (length interfaces) iface_id)
        (pcapng_malformed_block (unknown_interface iface_id))
    iface ← interface_at (get_elem? interfaces iface_id)
    pure (record {
      timestamp = ratio (bit_or (shl ts_high 32) ts_low) iface.ts_resolution;
      captured_length = cap_len;
      original_length = pos orig_len;
      link_type = pos iface.link_type;
      body = slice body 20 (20 + cap_len);
    })

  -- `interfaces[0].link_type if interfaces else 0`.
  abbrev pub first_link_type : List Interface → ℕ
  first_link_type [] = 0
  first_link_type (iface ∷ interfaces) = iface.link_type

  unfoldable pub parse_spb : Bytes → ByteOrder → List Interface → Outcome (PcapPacket Time)
  parse_spb body order interfaces = do
    raise_if (ltb (length body) 4) (pcapng_malformed_block (short_spb (length body)))
    orig_len ← ordered_u32_at order body 0
    let captured_length = min orig_len (length body - 4)
    pure (record {
      timestamp = zero_time;
      captured_length = captured_length;
      original_length = pos orig_len;
      link_type = pos (first_link_type interfaces);
      body = slice body 4 (4 + captured_length);
    })

  -- `except PcapngMalformedBlock`.
  abbrev pub skip_malformed : Bool → ℕ → Exception → Run (PcapPacket Time) → Run (PcapPacket Time)
  skip_malformed strict block_type e more =
      if not (is_malformed_block e)
      then raises e
      else if strict
      then raises e
      else logs (malformed_block block_type) more

  -- A block that parses to an interface, or to a packet.
  abbrev pub add_interface :
      Bool
      → ℕ
      → Outcome Interface
      → List Interface
      → (List Interface → Run (PcapPacket Time))
      → Run (PcapPacket Time)
  add_interface strict block_type (ok interface ws) interfaces more =
      more (interfaces ++ (interface ∷ []))
  add_interface strict block_type (err e) interfaces more =
      skip_malformed strict block_type e (more interfaces)

  abbrev pub yield_packet :
      Bool → ℕ → Outcome (PcapPacket Time) → Run (PcapPacket Time) → Run (PcapPacket Time)
  yield_packet strict block_type (ok packet ws) more = yields packet more
  yield_packet strict block_type (err e) more = skip_malformed strict block_type e more

  -- The `try` statement, and the rounds that follow it.
  abbrev pub read_block :
      Bool
      → ByteOrder
      → List Interface
      → ℕ
      → Bytes
      → (List Interface → Run (PcapPacket Time))
      → Run (PcapPacket Time)
  read_block strict order interfaces block_type body more =
      if block_type == idb_type
      then add_interface strict block_type (parse_idb body order) interfaces more
      else if block_type == epb_type
      then yield_packet strict block_type (parse_epb body order interfaces) (more interfaces)
      else if block_type == spb_type
      then yield_packet strict block_type (parse_spb body order interfaces) (more interfaces)
      else more interfaces

  -- A block whose header has been read.
  abbrev pub take_block :
      Bool
      → ByteOrder
      → List Interface
      → ℕ
      → ℕ
      → Bytes
      → (List Interface → Run (PcapPacket Time))
      → Run (PcapPacket Time)
  take_block strict order interfaces block_type block_total_length rest more =
      if ltb block_total_length min_block_size || ltb (length rest) block_total_length
      then if strict
        then raises (pcapng_malformed_block (block_unavailable block_total_length))
        else logs (unavailable_block block_total_length) returns
      else read_block strict order interfaces block_type (slice rest 8 (block_total_length - 4))
          more

  unfoldable pub block_loop :
      ℕ → Bool → Option ByteOrder → List Interface → Bytes → Run (PcapPacket Time)
  unfolding parse_idb parse_epb parse_spb
  block_loop fuel strict order interfaces [] = returns
  block_loop zero strict order interfaces (b ∷ bs) = raises out_of_fuel
  block_loop (suc fuel) strict order interfaces (b ∷ bs) =
      let rest = b ∷ bs in
      if ltb (length rest) min_block_size
      then if strict
        then raises (pcapng_buffer_too_short min_block_size (length rest))
        else logs (short_block (length rest)) returns
      else after (enter_section order interfaces rest) λ section.
        after (ordered_u32_at section.0 rest 0) λ block_type.
          after (ordered_u32_at section.0 rest 4) λ block_total_length.
            take_block strict section.0 section.1 block_type block_total_length rest
              λ known. block_loop fuel strict (some section.0) known (drop block_total_length rest)

  unfoldable pub read_pcapng_in : Bool → Bytes → Run (PcapPacket Time)
  unfolding block_loop
  read_pcapng_in strict bytes =
      if ltb (length bytes) min_block_size
      then raises (pcapng_buffer_too_short min_block_size (length bytes))
      else block_loop (length bytes) strict none [] bytes

  unfoldable pub read_pcapng : Bytes → Run (PcapPacket Time)
  unfolding read_pcapng_in
  read_pcapng bytes = read_pcapng_in true bytes

  unfoldable pub read_pcapng_lenient : Bytes → Run (PcapPacket Time)
  unfolding read_pcapng_in
  read_pcapng_lenient bytes = read_pcapng_in false bytes
