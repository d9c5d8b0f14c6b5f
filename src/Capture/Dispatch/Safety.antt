-- ===== src/Capture/Dispatch/Safety.antt =====
-- Reading any bytes as a capture.
use rtpkit.Common.{true, false}
use rtpkit.Wire.{Bytes}
use rtpkit.Capture.{Times}
use rtpkit.Capture.Pcap.{read_pcap, read_pcap_lenient}
use rtpkit.Capture.Pcap.Safety.{read_pcap_in-Ends}
use rtpkit.Capture.Pcapng.{read_pcapng, read_pcapng_lenient}
use rtpkit.Capture.Pcapng.Safety.{read_pcapng_in-Ends}
use rtpkit.Capture.Dispatch.{is_pcapng, read_capture, read_capture_lenient}
use rtpkit.Capture.Runs.{Ends, Ends-if, IsCaptureError}

-- Reading any bytes comes to an end, in both modes, and what it raises at the end, if anything, is a
-- `CaptureError`: no index or format leaves the buffer, and every round takes some bytes.
pub read_capture-Ends :
    (times : Times) (bytes : Bytes)
    → Ends IsCaptureError (read_capture times bytes)
      × Ends IsCaptureError (read_capture_lenient times bytes)
unfolding read_capture read_capture_lenient read_pcap read_pcap_lenient read_pcapng
    read_pcapng_lenient
read_capture-Ends times bytes = (
  Ends-if IsCaptureError (is_pcapng bytes) _ _ (λ _. read_pcapng_in-Ends times true bytes)
      (λ _. read_pcap_in-Ends times true bytes),
  Ends-if IsCaptureError (is_pcapng bytes) _ _ (λ _. read_pcapng_in-Ends times false bytes)
      (λ _. read_pcap_in-Ends times false bytes),
)
