-- ===== src/Capture/Pcap.antt =====
-- io/pcap_reader.py and io/pcap_writer.py. The reader's loop over an offset is a recursion on the bytes
-- from there on; each round takes at least sixteen of them.
pub mod Safety
pub mod RoundTrip
pub mod Writable
use rtpkit.Common.{
  ℕ, zero, suc, ◌+◌, ◌-◌, ◌^◌, Bool, true, false, Option, none, some, List, [], ◌∷◌, ◌++◌, not, ltb,
  drop, take, length, if◌then◌else◌,
}
use rtpkit.Common.Int.{ℤ, pos, leb_ℤ, ◌+ℤ◌, ◌-ℤ◌}
use rtpkit.Common.Keys.{beq_ℤ}
use rtpkit.Errors.{
  out_of_fuel, pcap_write_error, link_type_required, link_type_differs, pcap_buffer_too_short,
  pcap_invalid_magic, pcap_truncated_record,
}
use rtpkit.Outcome.{Outcome, err, ◌>>=◌, ◌>>◌, pure, raise_if}
use rtpkit.Wire.{Bytes, slice, zeros}
use rtpkit.Wire.Order.{ByteOrder, big, little, ordered_u32_at, pack_u32_le}
use rtpkit.Capture.{
  Run, yields, logs, returns, raises, after, short_record, truncated_record, Times, PcapPacket,
  same_bytes,
}

abbrev pub global_header_size : ℕ
global_header_size = 24

abbrev pub record_header_size : ℕ
record_header_size = 16

abbrev pub magic_le_us : Bytes
magic_le_us = 0xd4 ∷ 0xc3 ∷ 0xb2 ∷ 0xa1 ∷ []

-- `_MAGIC_TABLE.get(magic)`.
unfoldable pub magic_info : Bytes → Option (ByteOrder × ℕ)
magic_info magic =
    if same_bytes magic (0xa1 ∷ 0xb2 ∷ 0xc3 ∷ 0xd4 ∷ [])
    then some (big, 1_000_000)
    else if same_bytes magic (0xa1 ∷ 0xb2 ∷ 0x3c ∷ 0x4d ∷ [])
    then some (big, 1_000_000_000)
    else if same_bytes magic magic_le_us
    then some (little, 1_000_000)
    else if same_bytes magic (0x4d ∷ 0x3c ∷ 0xb2 ∷ 0xa1 ∷ [])
    then some (little, 1_000_000_000)
    else none

module _ (times : Times) where
  open times use {Time, seconds, whole_seconds, micros}

  -- A record whose header has been read: its bytes, and the rounds that follow.
  abbrev pub take_record :
      Bool → ℕ → ℤ → ℕ → ℕ → ℕ → ℕ → Bytes → Run (PcapPacket Time) → Run (PcapPacket Time)
  take_record strict ts_divisor link_type ts_sec ts_frac incl_len orig_len rest more =
      if ltb (length rest) (record_header_size + incl_len)
      then if strict
        then raises (pcap_truncated_record incl_len (length rest - record_header_size))
        else logs (truncated_record incl_len (length rest - record_header_size)) returns
      else yields
          (record {
            timestamp = seconds ts_sec ts_frac ts_divisor;
            captured_length = incl_len;
            original_length = pos orig_len;
            link_type = link_type;
            body = slice rest record_header_size (record_header_size + incl_len);
          })
          more

  unfoldable pub record_loop : ℕ → Bool → ByteOrder → ℕ → ℤ → Bytes → Run (PcapPacket Time)
  record_loop fuel strict order ts_divisor link_type [] = returns
  record_loop zero strict order ts_divisor link_type (b ∷ bs) = raises out_of_fuel
  record_loop (suc fuel) strict order ts_divisor link_type (b ∷ bs) =
      let rest = b ∷ bs in
      if ltb (length rest) record_header_size
      then if strict
        then raises (pcap_buffer_too_short record_header_size (length rest))
        else logs (short_record (length rest)) returns
      else after (ordered_u32_at order rest 0) λ ts_sec.
        after (ordered_u32_at order rest 4) λ ts_frac.
          after (ordered_u32_at order rest 8) λ incl_len.
            after (ordered_u32_at order rest 12) λ orig_len.
              take_record strict ts_divisor link_type ts_sec ts_frac incl_len orig_len rest (
                record_loop fuel strict order ts_divisor link_type
                  (drop (record_header_size + incl_len) rest))

  abbrev pub read_records : Bool → Bytes → Option (ByteOrder × ℕ) → Run (PcapPacket Time)
  read_records strict bytes none = raises (pcap_invalid_magic (slice bytes 0 4))
  read_records strict bytes (some (order, ts_divisor)) =
      after (ordered_u32_at order bytes 20) λ link_type.
        record_loop (length bytes) strict order ts_divisor (pos link_type)
          (drop global_header_size bytes)

  unfoldable pub read_pcap_in : Bool → Bytes → Run (PcapPacket Time)
  unfolding magic_info record_loop
  read_pcap_in strict bytes =
      if ltb (length bytes) global_header_size
      then raises (pcap_buffer_too_short global_header_size (length bytes))
      else read_records strict bytes (magic_info (slice bytes 0 4))

  unfoldable pub read_pcap : Bytes → Run (PcapPacket Time)
  unfolding read_pcap_in
  read_pcap bytes = read_pcap_in true bytes

  unfoldable pub read_pcap_lenient : Bytes → Run (PcapPacket Time)
  unfolding read_pcap_in
  read_pcap_lenient bytes = read_pcap_in false bytes

  abbrev pub million : ℤ
  million = pos 1_000_000

  unfoldable pub split_timestamp : Time → ℤ × ℤ
  split_timestamp timestamp =
      let ts_sec = whole_seconds timestamp in
      let ts_usec = micros timestamp ts_sec in
      if leb_ℤ million ts_usec then (ts_sec +ℤ pos 1, ts_usec -ℤ million) else (ts_sec, ts_usec)

  -- `link_type` given, or that of the first packet.
  abbrev pub choose_link_type : List (PcapPacket Time) → Option ℤ → Outcome ℤ
  choose_link_type packets (some link_type) = pure link_type
  choose_link_type [] none = err (pcap_write_error link_type_required)
  choose_link_type (p ∷ packets) none = pure p.link_type

  unfoldable pub check_link_types : ℕ → List (PcapPacket Time) → ℤ → Outcome (Unit {0})
  check_link_types i [] link_type = pure tt
  check_link_types i (p ∷ packets) link_type = do
    raise_if (not (beq_ℤ p.link_type link_type)) (pcap_write_error (link_type_differs i))
    check_link_types (i + 1) packets link_type

  unfoldable pub write_record : PcapPacket Time → Outcome Bytes
  unfolding split_timestamp
  write_record p = do
    let times_of = split_timestamp p.timestamp
    ts_sec ← pack_u32_le times_of.0
    ts_usec ← pack_u32_le times_of.1
    incl_len ← pack_u32_le (pos (length p.body))
    orig_len ← pack_u32_le p.original_length
    pure (ts_sec ++ (ts_usec ++ (incl_len ++ (orig_len ++ p.body))))

  unfoldable pub write_records : List (PcapPacket Time) → Outcome Bytes
  unfolding write_record
  write_records [] = pure []
  write_records (p ∷ packets) = do
    first ← write_record p
    more ← write_records packets
    pure (first ++ more)

  unfoldable pub write_pcap : List (PcapPacket Time) → Option ℤ → Outcome Bytes
  unfolding check_link_types write_records
  write_pcap packets given = do
    link_type ← choose_link_type packets given
    check_link_types 0 packets link_type
    packed ← pack_u32_le link_type
    records ← write_records packets
    pure (
        magic_le_us
        ++ ((2 ∷ 0 ∷ 4 ∷ 0 ∷ []) ++ (zeros 8 ++ ((0 ∷ 0 ∷ 4 ∷ 0 ∷ []) ++ (packed ++ records)))))
