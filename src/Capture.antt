-- ===== src/Capture.antt =====
-- The capture files of src/rtpkit/io, and model/pcap.py. A reader is a generator: its run yields packets, may
-- log warnings in between, and ends by returning or by an exception. Times are floats, of which the code
-- only asks the operations of `Times`.
pub mod Pcap
pub mod Pcapng
pub mod PcapngWriter
pub mod Dispatch
pub mod Runs
mod Tests
use rtpkit.Common.{ℕ, Bool, true, false, List, [], ◌∷◌, ◌&&◌, ◌==◌}
use rtpkit.Common.Int.{ℤ}
use rtpkit.Errors.{Exception}
use rtpkit.Outcome.{Outcome, ok, err}
use rtpkit.Wire.{Bytes}

-- The warnings of the two readers, with the numbers that they print.
pub data CaptureWarning : Type 0 where
  short_record : (remaining : ℕ) → CaptureWarning
  truncated_record : (declared available : ℕ) → CaptureWarning
  short_block : (remaining : ℕ) → CaptureWarning
  unavailable_block : (block_total_length : ℕ) → CaptureWarning
  malformed_block : (block_type : ℕ) → CaptureWarning

-- The run of a generator, event by event.
pub data Run {ℓ} (A : Type ℓ) : Type ℓ where
  yields : A → Run A → Run A
  logs : CaptureWarning → Run A → Run A
  returns : Run A
  raises : Exception → Run A

-- A call inside a generator; the calls that it makes log nothing.
abbrev pub after {ℓ κ} : {A : Type ℓ} {B : Type κ} → Outcome A → (A → Run B) → Run B
after (ok a ws) k = k a
after (err e) k = raises e

-- Python's floats as times. `seconds s n d` is `s + n / d`, and `micros t s` is
-- `round((t - s) * 1_000_000)`.
pub record Times : Type 1 where
  pub Time : Type 0
  pub zero_time : Time
  pub seconds : ℕ → ℕ → ℕ → Time
  pub ratio : ℕ → ℕ → Time
  pub whole_seconds : Time → ℤ
  pub micros : Time → ℤ → ℤ
  pub ticks : Time → ℤ

-- The field `data` is `body` here.
pub record PcapPacket (Time : Type 0) : Type 0 where
  pub timestamp : Time
  pub captured_length : ℕ
  pub original_length : ℤ
  pub link_type : ℤ
  pub body : Bytes

-- `==` on bytes.
abbrev pub same_bytes : Bytes → Bytes → Bool
same_bytes [] [] = true
same_bytes (x ∷ xs) (y ∷ ys) = x == y && same_bytes xs ys
same_bytes _ _ = false
