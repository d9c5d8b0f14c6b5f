-- ===== src/Capture/Dispatch.antt =====
-- io/capture.py: the reader is chosen by the magic bytes.
pub mod Safety
use rtpkit.Common.{Bool, if◌then◌else◌}
use rtpkit.Wire.{Bytes, slice}
use rtpkit.Capture.{Run, Times, PcapPacket, same_bytes}
use rtpkit.Capture.Pcap.{read_pcap, read_pcap_lenient}
use rtpkit.Capture.Pcapng.{shb_magic, read_pcapng, read_pcapng_lenient}

abbrev pub is_pcapng : Bytes → Bool
is_pcapng bytes = same_bytes (slice bytes 0 4) shb_magic

module _ (times : Times) where
  open times use {Time}

  unfoldable pub read_capture : Bytes → Run (PcapPacket Time)
  unfolding read_pcap read_pcapng
  read_capture bytes = if is_pcapng bytes then read_pcapng times bytes else read_pcap times bytes

  unfoldable pub read_capture_lenient : Bytes → Run (PcapPacket Time)
  unfolding read_pcap_lenient read_pcapng_lenient
  read_capture_lenient bytes =
      if is_pcapng bytes then read_pcapng_lenient times bytes else read_pcap_lenient times bytes
