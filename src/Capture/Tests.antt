-- ===== src/Capture/Tests.antt =====
-- Runs of the capture readers and writers with times in whole microseconds, and the witnesses of their theorems.
use rtpkit.Common.{arith, ℕ, ◌*◌, ◌+◌, ◌-◌, ◌/◌, ◌≡◌, refl, none, List, [], ◌∷◌, ◌++◌, map}
use rtpkit.Common.Int.{ℤ, pos, negsuc}
use rtpkit.Errors.{
  pcap_buffer_too_short, pcap_write_error, link_type_differs, pcapng_invalid_byte_order_magic,
  pcapng_malformed_block, short_epb,
}
use rtpkit.Outcome.{ok, err}
use rtpkit.Wire.{Bytes}
use rtpkit.Wire.Order.{ordered_u16_at, ordered_u32_at, pack_u16_le, pack_u32_le}
use rtpkit.Capture.{
  Run, yields, logs, returns, raises, after, Times, PcapPacket, short_record, malformed_block,
  short_block,
}
use rtpkit.Capture.Pcap.{read_pcap, read_pcap_lenient, write_pcap, split_timestamp}
use rtpkit.Capture.Pcap.RoundTrip.{reread, yield_all, read_pcap-write_pcap}
use rtpkit.Capture.Pcap.Safety.{IsHeaderError, read_pcap-read_pcap_lenient}
use rtpkit.Capture.Pcap.Writable.{IsWritable, write_pcap-iff-IsWritable}
use rtpkit.Capture.Pcapng.Modes.{Follows, read_pcapng-read_pcapng_lenient}
use rtpkit.Capture.Pcapng.{read_pcapng, read_pcapng_lenient, is_malformed_block}
use rtpkit.Capture.PcapngWriter.{write_pcapng}
use rtpkit.Capture.PcapngWriter.Bodies.{reread_ticks}
use rtpkit.Capture.PcapngWriter.RoundTrip.{read_pcapng-write_pcapng}
use rtpkit.Capture.Dispatch.{read_capture, read_capture_lenient}
use rtpkit.Capture.Dispatch.Safety.{read_capture-Ends}
use rtpkit.Capture.Runs.{Ends, IsCaptureError, yielded}

abbrev micros_behind : ℕ → ℤ → ℤ
micros_behind t (pos s) = pos (t - s * 1_000_000)
micros_behind t (negsuc s) = pos t

abbrev in_micros : Times
in_micros = record {
  Time = ℕ;
  zero_time = 0;
  seconds = λ s n d. s * 1_000_000 + n;
  ratio = λ m n. m;
  whole_seconds = λ t. pos (t / 1_000_000);
  micros = micros_behind;
  ticks = λ t. pos t;
}

abbrev packet_at : ℕ → ℤ → Bytes → PcapPacket ℕ
packet_at t link_type body = record {
  timestamp = t;
  captured_length = 3;
  original_length = pos 60;
  link_type = link_type;
  body = body;
}

abbrev two_packets : List (PcapPacket ℕ)
two_packets =
    packet_at 2_000_005 (pos 1) (7 ∷ 8 ∷ 9 ∷ []) ∷ packet_at 3_500_000 (pos 1) (4 ∷ 5 ∷ 6 ∷ []) ∷ []

abbrev file_header : Bytes
file_header =
    0xd4 ∷ 0xc3 ∷ 0xb2 ∷ 0xa1 ∷ 2 ∷ 0 ∷ 4 ∷ 0 ∷ 0 ∷ 0 ∷ 0 ∷ 0 ∷ 0 ∷ 0 ∷ 0 ∷ 0 ∷ 0 ∷ 0 ∷ 4 ∷ 0 ∷ 1
    ∷ 0 ∷ 0 ∷ 0 ∷ []

abbrev first_record : Bytes
first_record = 2 ∷ 0 ∷ 0 ∷ 0 ∷ 5 ∷ 0 ∷ 0 ∷ 0 ∷ 3 ∷ 0 ∷ 0 ∷ 0 ∷ 60 ∷ 0 ∷ 0 ∷ 0 ∷ 7 ∷ 8 ∷ 9 ∷ []

abbrev two_records : Bytes
two_records =
    file_header
    ++ (first_record
        ++ (3 ∷ 0 ∷ 0 ∷ 0 ∷ 0x20 ∷ 0xa1 ∷ 7 ∷ 0 ∷ 3 ∷ 0 ∷ 0 ∷ 0 ∷ 60 ∷ 0 ∷ 0 ∷ 0 ∷ 4 ∷ 5 ∷ 6 ∷ []))

-- A record, and one byte of the next.
abbrev cut_file : Bytes
cut_file = file_header ++ (first_record ++ (3 ∷ []))

abbrev broken_section : Bytes
broken_section = 0x0a ∷ 0x0d ∷ 0x0d ∷ 0x0a ∷ 28 ∷ 0 ∷ 0 ∷ 0 ∷ 1 ∷ 2 ∷ 3 ∷ 4 ∷ []

-- A section with an interface, a simple packet and a malformed block, and the header of another block.
abbrev cut_section : Bytes
cut_section =
    (0x0a ∷ 0x0d ∷ 0x0d ∷ 0x0a ∷ 28 ∷ 0 ∷ 0 ∷ 0 ∷ 0x4d ∷ 0x3c ∷ 0x2b ∷ 0x1a ∷ 1 ∷ 0 ∷ 0 ∷ 0 ∷ 0xff
      ∷ 0xff ∷ 0xff ∷ 0xff ∷ 0xff ∷ 0xff ∷ 0xff ∷ 0xff ∷ 28 ∷ 0 ∷ 0 ∷ 0 ∷ [])
    ++ ((1 ∷ 0 ∷ 0 ∷ 0 ∷ 20 ∷ 0 ∷ 0 ∷ 0 ∷ 1 ∷ 0 ∷ 0 ∷ 0 ∷ 0 ∷ 0 ∷ 4 ∷ 0 ∷ 20 ∷ 0 ∷ 0 ∷ 0 ∷ [])
        ++ ((3 ∷ 0 ∷ 0 ∷ 0 ∷ 20 ∷ 0 ∷ 0 ∷ 0 ∷ 3 ∷ 0 ∷ 0 ∷ 0 ∷ 7 ∷ 8 ∷ 9 ∷ 0 ∷ 20 ∷ 0 ∷ 0 ∷ 0 ∷ [])
            ++ (6 ∷ 0 ∷ 0 ∷ 0 ∷ 12 ∷ 0 ∷ 0 ∷ 0 ∷ 12 ∷ 0 ∷ 0 ∷ 0 ∷ 3 ∷ 0 ∷ 0 ∷ 0 ∷ 20 ∷ 0 ∷ 0 ∷ 0
                ∷ [])))

write_two : write_pcap in_micros two_packets none ≡ ok two_records []
unfolding write_pcap pack_u32_le
write_two = refl

write_mixed :
    write_pcap in_micros (two_packets ++ (packet_at 0 (pos 101) [] ∷ [])) none
    ≡ err (pcap_write_error (link_type_differs 2))
unfolding write_pcap pack_u32_le
write_mixed = refl

read_cut :
    (read_pcap in_micros cut_file
      ≡ yields (packet_at 2_000_005 (pos 1) (7 ∷ 8 ∷ 9 ∷ [])) (raises (pcap_buffer_too_short 16 1)))
    × (read_pcap_lenient in_micros cut_file
        ≡ yields (packet_at 2_000_005 (pos 1) (7 ∷ 8 ∷ 9 ∷ [])) (logs (short_record 1) returns))
unfolding read_pcap read_pcap_lenient ordered_u32_at
read_cut = (refl, refl)

read_broken :
    read_capture in_micros broken_section
    ≡ raises (pcapng_invalid_byte_order_magic (1 ∷ 2 ∷ 3 ∷ 4 ∷ []))
unfolding read_capture
read_broken = refl

-- A packet of each of two link types, through the pcapng writer and back.
abbrev mixed_packets : List (PcapPacket ℕ)
mixed_packets = packet_at 9 (pos 1) (4 ∷ 5 ∷ 6 ∷ []) ∷ packet_at 8 (pos 101) (7 ∷ 8 ∷ 9 ∷ []) ∷ []

abbrev written_pcapng : Run (PcapPacket ℕ)
unfolding write_pcapng read_pcapng pack_u16_le pack_u32_le ordered_u16_at ordered_u32_at
written_pcapng = after (write_pcapng in_micros mixed_packets) (read_pcapng in_micros)

pcapng_back :
    written_pcapng
    ≡ yields
        (packet_at 9 (pos 1) (4 ∷ 5 ∷ 6 ∷ []))
        (yields (packet_at 8 (pos 101) (7 ∷ 8 ∷ 9 ∷ [])) returns)
unfolding write_pcapng read_pcapng pack_u16_le pack_u32_le ordered_u16_at ordered_u32_at
pcapng_back = refl

abbrev simple_packet : PcapPacket ℕ
simple_packet = record {
  timestamp = 0;
  captured_length = 3;
  original_length = pos 3;
  link_type = pos 1;
  body = 7 ∷ 8 ∷ 9 ∷ [];
}

read_cut_section :
    (read_pcapng in_micros cut_section
      ≡ yields simple_packet (raises (pcapng_malformed_block (short_epb 0))))
    × (read_pcapng_lenient in_micros cut_section
        ≡ yields simple_packet (logs (malformed_block 6) (logs (short_block 8) returns)))
unfolding read_pcapng read_pcapng_lenient ordered_u16_at ordered_u32_at is_malformed_block
read_cut_section = (refl, refl)

abbrev mixed_file : Bytes
mixed_file =
    (10 ∷ 13 ∷ 13 ∷ 10 ∷ 28 ∷ 0 ∷ 0 ∷ 0 ∷ 0x4d ∷ 0x3c ∷ 0x2b ∷ 0x1a ∷ 1 ∷ 0 ∷ 0 ∷ 0 ∷ 0xff ∷ 0xff
      ∷ 0xff ∷ 0xff ∷ 0xff ∷ 0xff ∷ 0xff ∷ 0xff ∷ 28 ∷ 0 ∷ 0 ∷ 0 ∷ [])
    ++ ((1 ∷ 0 ∷ 0 ∷ 0 ∷ 20 ∷ 0 ∷ 0 ∷ 0 ∷ 1 ∷ 0 ∷ 0 ∷ 0 ∷ 0 ∷ 0 ∷ 4 ∷ 0 ∷ 20 ∷ 0 ∷ 0 ∷ 0 ∷ [])
        ++ ((1 ∷ 0 ∷ 0 ∷ 0 ∷ 20 ∷ 0 ∷ 0 ∷ 0 ∷ 101 ∷ 0 ∷ 0 ∷ 0 ∷ 0 ∷ 0 ∷ 4 ∷ 0 ∷ 20 ∷ 0 ∷ 0 ∷ 0 ∷ [])
            ++ ((6 ∷ 0 ∷ 0 ∷ 0 ∷ 36 ∷ 0 ∷ 0 ∷ 0 ∷ 0 ∷ 0 ∷ 0 ∷ 0 ∷ 0 ∷ 0 ∷ 0 ∷ 0 ∷ 9 ∷ 0 ∷ 0 ∷ 0 ∷ 3
                  ∷ 0 ∷ 0 ∷ 0 ∷ 60 ∷ 0 ∷ 0 ∷ 0 ∷ 4 ∷ 5 ∷ 6 ∷ 0 ∷ 36 ∷ 0 ∷ 0 ∷ 0 ∷ [])
                ++ ((6 ∷ 0 ∷ 0 ∷ 0 ∷ 36 ∷ 0 ∷ 0 ∷ 0 ∷ 1 ∷ 0 ∷ 0 ∷ 0 ∷ 0 ∷ 0 ∷ 0 ∷ 0 ∷ 8 ∷ 0 ∷ 0 ∷ 0
                    ∷ 3 ∷ 0 ∷ 0 ∷ 0 ∷ 60 ∷ 0 ∷ 0 ∷ 0 ∷ 7 ∷ 8 ∷ 9 ∷ 0 ∷ 36 ∷ 0 ∷ 0 ∷ 0 ∷ [])))))

write_mixed_file : write_pcapng in_micros mixed_packets ≡ ok mixed_file []
unfolding write_pcapng pack_u16_le pack_u32_le
write_mixed_file = refl

read_pcapng-write_pcapng_example :
    (read_pcapng in_micros mixed_file ≡ yield_all (map (reread_ticks in_micros) mixed_packets))
    × (read_pcapng_lenient in_micros mixed_file
        ≡ yield_all (map (reread_ticks in_micros) mixed_packets))
read_pcapng-write_pcapng_example =
    read_pcapng-write_pcapng in_micros mixed_packets mixed_file write_mixed_file

read_capture-Ends_example :
    Ends IsCaptureError (read_capture in_micros cut_section)
    × Ends IsCaptureError (read_capture_lenient in_micros cut_section)
read_capture-Ends_example = read_capture-Ends in_micros cut_section

read_pcap-read_pcap_lenient_example :
    (yielded (read_pcap in_micros cut_file) ≡ yielded (read_pcap_lenient in_micros cut_file))
    × Ends (IsHeaderError in_micros) (read_pcap_lenient in_micros cut_file)
read_pcap-read_pcap_lenient_example = read_pcap-read_pcap_lenient in_micros cut_file

read_pcap-write_pcap_example :
    (read_pcap in_micros two_records ≡ yield_all (map (reread in_micros) two_packets))
    × (read_pcap_lenient in_micros two_records ≡ yield_all (map (reread in_micros) two_packets))
read_pcap-write_pcap_example = read_pcap-write_pcap in_micros two_packets none two_records write_two

two_packets-IsWritable : IsWritable in_micros two_packets none
unfolding split_timestamp
two_packets-IsWritable = (
  pos 1,
  refl,
  (refl, (refl, tt)),
  omega arith,
  (
    (omega arith, omega arith, omega arith, omega arith),
    ((omega arith, omega arith, omega arith, omega arith), tt),
  ),
)

write_pcap-iff-IsWritable_example :
    (bytes : Bytes) × (write_pcap in_micros two_packets none ≡ ok bytes [])
write_pcap-iff-IsWritable_example =
    (write_pcap-iff-IsWritable in_micros two_packets none).1 two_packets-IsWritable

read_pcapng-read_pcapng_lenient_example :
    Follows (read_pcapng in_micros cut_section) (read_pcapng_lenient in_micros cut_section)
read_pcapng-read_pcapng_lenient_example = read_pcapng-read_pcapng_lenient in_micros cut_section
