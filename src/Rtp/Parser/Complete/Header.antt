-- ===== src/Rtp/Parser/Complete/Header.antt =====
-- The fixed header and the CSRC list of an image are read back.
use rtpkit.Common.{
  ℕ, ◌+◌, ◌*◌, ◌≤◌, ◌<◌, ◌≡◌, refl, Bool, true, false, List, [], ◌∷◌, ◌++◌, arith, length,
  int_of_bool, truthy, bit_and, ge→ltb, length-append, truthy-suc, if◌then◌else◌,
}
use rtpkit.Common.Bits.{bit_and-mask, shr}
use rtpkit.Outcome.{ok, pure}
use rtpkit.Wire.{Bytes, byte_at, u16_at, u32_at, u32s_at}
use rtpkit.Wire.Write.{words, length-words, join-split_u16, join-split_u32, u32s_at-append}
use rtpkit.Rtp.{RtpPacket}
use rtpkit.Rtp.Parser.{FixedHeader, parse_fixed_header, fit_csrc, parse_csrc}
use rtpkit.Rtp.Layout.{header_bytes}

pub int_of_bool-le : (b : Bool) → int_of_bool b ≤ 1
int_of_bool-le true = omega arith
int_of_bool-le false = omega arith

pub truthy-int_of_bool : (b : Bool) (n : ℕ) → n ≡ int_of_bool b → truthy n ≡ b
truthy-int_of_bool true n h = ground arith
truthy-int_of_bool false n h = ground arith

abbrev pub header_of : RtpPacket → FixedHeader
header_of p = record {
  version = p.version;
  padding_flag = p.padding;
  extension_flag = p.extension;
  cc = length p.csrc;
  marker = p.marker;
  payload_type = p.payload_type;
  seq = p.sequence_number;
  timestamp = p.timestamp;
  ssrc = p.ssrc;
}

-- The fields of the first byte.
module _ (v n : ℕ) (pad ext : Bool) (hn : n < 16) where
  abbrev pub first : ℕ
  first = v * 64 + int_of_bool pad * 32 + int_of_bool ext * 16 + n

  pub first-version : v < 4 → bit_and (shr first 6) 0x03 ≡ v
  first-version hv =
      omega (arith, bit_and-mask 2 (shr first 6), int_of_bool-le pad, int_of_bool-le ext)

  pub first-padding : truthy (bit_and (shr first 5) 0x01) ≡ pad
  first-padding =
      truthy-int_of_bool pad _
        (omega (arith, bit_and-mask 1 (shr first 5), int_of_bool-le pad, int_of_bool-le ext))

  pub first-extension : truthy (bit_and (shr first 4) 0x01) ≡ ext
  first-extension =
      truthy-int_of_bool ext _
        (omega (arith, bit_and-mask 1 (shr first 4), int_of_bool-le pad, int_of_bool-le ext))

  pub first-cc : bit_and first 0x0f ≡ n
  first-cc = omega (arith, bit_and-mask 4 first, int_of_bool-le pad, int_of_bool-le ext)

pub second-marker :
    (m : Bool) (n : ℕ) → n < 128 → truthy (bit_and (shr (int_of_bool m * 128 + n) 7) 0x01) ≡ m
second-marker m n h =
    truthy-int_of_bool m _
      (omega (arith, bit_and-mask 1 (shr (int_of_bool m * 128 + n) 7), int_of_bool-le m))

pub second-payload_type : (m : Bool) (n : ℕ) → n < 128 → bit_and (int_of_bool m * 128 + n) 0x7f ≡ n
second-payload_type m n h = omega (arith, bit_and-mask 7 (int_of_bool m * 128 + n))

pub parse_fixed_header-image :
    (p : RtpPacket) (rest : Bytes)
    → p.version < 4
    → length p.csrc < 16
    → p.payload_type < 128
    → parse_fixed_header (header_bytes p ++ rest) ≡ ok (header_of p) []
unfolding parse_fixed_header byte_at u16_at u32_at
parse_fixed_header-image p rest hv hc ht = λ i.
    ok
      (record {
        version = first-version p.version (length p.csrc) p.padding p.extension hc hv i;
        padding_flag = first-padding p.version (length p.csrc) p.padding p.extension hc i;
        extension_flag = first-extension p.version (length p.csrc) p.padding p.extension hc i;
        cc = first-cc p.version (length p.csrc) p.padding p.extension hc i;
        marker = second-marker p.marker p.payload_type ht i;
        payload_type = second-payload_type p.marker p.payload_type ht i;
        seq = join-split_u16 p.sequence_number i;
        timestamp = join-split_u32 p.timestamp i;
        ssrc = join-split_u32 p.ssrc i;
      })
      []

pub parse_csrc-image :
    (strict : Bool) (header rest : Bytes) (csrc : List ℕ)
    → 12 ≡ length header
    → parse_csrc strict (header ++ (words csrc ++ rest)) (length csrc)
      ≡ ok (csrc, 12 + length csrc * 4) []
unfolding parse_csrc fit_csrc
parse_csrc-image strict header rest csrc h = rw (ge→ltb _ _ fits, reads csrc)
  where
    fits : 12 + length csrc * 4 ≤ length (header ++ (words csrc ++ rest))
    fits = omega (
      arith,
      length-append header (words csrc ++ rest),
      length-append (words csrc) rest,
      length-words csrc,
    )

    reads :
        (ns : List ℕ)
        → (if truthy (length ns)
            then u32s_at (length ns) (header ++ (words ns ++ rest)) 12
            else pure [])
          ≡ ok ns []
    reads [] = refl
    reads (n ∷ ns) = rw (truthy-suc (length ns)) (u32s_at-append 12 header h (n ∷ ns) rest)
