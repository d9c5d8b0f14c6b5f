-- ===== src/Rtp/Builder/Image.antt =====
-- What each part of `build` writes, for a builder whose fields fit the wire format.
use rtpkit.Common.{
  ℕ, suc, ◌+◌, ◌-◌, ◌*◌, ◌/◌, ◌^◌, ◌≤◌, ◌<◌, ◌≡◌, refl, ap, Bool, true, false, Option, none, some,
  List, [], ◌∷◌, ◌++◌, arith, map, truthy-suc, int_of_bool, bit_and, bit_or, length,
  length-replicate, All, lt→ltb, zero, if◌then◌else◌,
}
use rtpkit.Common.Bits.{shl, bit_and-mask, bit_or-disjoint}
use rtpkit.Common.Int.{ℤ, pos, pos_part, ltb_ℤ, InRange}
use rtpkit.Outcome.{ok, ◌>>=◌, pure}
use rtpkit.Wire.{Bytes, pack_u32s, pack_u8, zeros, split_u16, split_u32}
use rtpkit.Wire.Write.{words, AreU32, pack_u8_lem, pack_u16_lem, pack_u32_lem}
use rtpkit.Rtp.{RtpPacket, HeaderExtension}
use rtpkit.Rtp.Layout.{extension_bytes, IsExtension, IsPadding}
use rtpkit.Rtp.Builder.{
  RtpBuilder, is_some, header_byte0, header_byte1, pack_header, pack_csrc, pack_extension,
  pack_padding,
}
use rtpkit.Rtp.Builder.Validation.{ExtensionValid}

pub int_of_bool-le : (b : Bool) → int_of_bool b ≤ 1
int_of_bool-le true = omega arith
int_of_bool-le false = omega arith

-- The bit fields of the first byte add up.
pub join_fields :
    (v p e n : ℕ)
    → p ≤ 1
    → e ≤ 1
    → n < 16
    → bit_or (bit_or (bit_or (v * 64) (p * 32)) (e * 16)) n ≡ v * 64 + p * 32 + e * 16 + n
join_fields v p e n hp he hn = rw (
  bit_or-disjoint 6 v (v * 64) (p * 32) refl (omega arith),
  bit_or-disjoint 5 (v * 2 + p) (v * 64 + p * 32) (e * 16) (omega arith) (omega arith),
  bit_or-disjoint 4 (v * 4 + p * 2 + e) (v * 64 + p * 32 + e * 16) n (omega arith) hn,
)

pub header_byte0_lem :
    (v n : ℕ) (p e : Bool)
    → v < 4
    → n < 16
    → header_byte0 (pos v) p e n ≡ v * 64 + int_of_bool p * 32 + int_of_bool e * 16 + n
unfolding header_byte0
header_byte0_lem v n p e hv hn =
    rw (v_eq, n_eq)
      (join_fields v (int_of_bool p) (int_of_bool e) n (int_of_bool-le p) (int_of_bool-le e) hn)
  where
    v_eq : bit_and v 0x03 ≡ v
    v_eq = omega (arith, bit_and-mask 2 v)

    n_eq : bit_and n 0x0f ≡ n
    n_eq = omega (arith, bit_and-mask 4 n)

pub header_byte1_lem :
    (m : Bool) (t : ℕ) → t < 128 → header_byte1 m (pos t) ≡ int_of_bool m * 128 + t
unfolding header_byte1
header_byte1_lem m t h = omega (
  arith,
  bit_and-mask 7 t,
  bit_or-disjoint 7 (int_of_bool m) (shl (int_of_bool m) 7) (bit_and t 0x7f) refl
      (omega (arith, bit_and-mask 7 t)),
)

-- The numbers that a valid builder holds.
abbrev pub nats : List ℤ → List ℕ
nats = map pos_part

pub nats-AreU32 : (cs : List ℤ) → All (InRange 0 0xffff_ffff) cs → AreU32 (nats cs)
nats-AreU32 [] h = tt
nats-AreU32 (c ∷ cs) ((n, e, _, k), hs) = (rw e (omega arith), nats-AreU32 cs hs)

pub length-nats : (cs : List ℤ) → length (nats cs) ≡ length cs
length-nats [] = refl
length-nats (c ∷ cs) = ap suc (length-nats cs)

abbrev pub built_extension : Option ℤ → Bytes → Option HeaderExtension
built_extension none body = none
built_extension (some z) body =
    some (record { profile = pos_part z; length_words = length body / 4; body = body })

-- The packet that a builder describes, over the bytes that it was built to.
abbrev pub packet_of : RtpBuilder → Bytes → RtpPacket
packet_of b bytes = record {
  version = pos_part b.version;
  padding = ltb_ℤ (pos 0) b.padding;
  extension = is_some b.ext_profile;
  marker = b.marker;
  payload_type = pos_part b.payload_type;
  sequence_number = pos_part b.seq;
  timestamp = pos_part b.timestamp;
  ssrc = pos_part b.ssrc;
  csrc = nats b.csrc;
  header_extension = built_extension b.ext_profile b.ext_data;
  payload = b.payload;
  padding_size = pos_part b.padding;
  raw = bytes;
}

abbrev pub padding_of : ℤ → Bytes
padding_of z = elim (pos_part z) [ zero ↦ [] | suc n ↦ zeros n ++ (suc n ∷ []) ]

pub pack_u32s_lem :
    (cs : List ℤ) → All (InRange 0 0xffff_ffff) cs → pack_u32s cs ≡ ok (words (nats cs)) []
unfolding pack_u32s
pack_u32s_lem [] h = refl
pack_u32s_lem (c ∷ cs) ((n, e, _, k), hs) =
    rw (e, pack_u32_lem n (omega arith), pack_u32s_lem cs hs)

pub pack_csrc_lem :
    (cs : List ℤ) → All (InRange 0 0xffff_ffff) cs → pack_csrc cs ≡ ok (words (nats cs)) []
unfolding pack_csrc
pack_csrc_lem [] h = refl
pack_csrc_lem (c ∷ cs) h = rw (truthy-suc (length cs)) (pack_u32s_lem (c ∷ cs) h)

pub pack_extension_lem :
    (profile : Option ℤ) (body : Bytes)
    → ExtensionValid profile body
    → pack_extension profile body ≡ ok (extension_bytes (built_extension profile body)) []
unfolding pack_extension
pack_extension_lem none body h = refl
pack_extension_lem (some z) body ((n, e, _, k), m, w) =
    rw (e, pack_u16_lem n (omega arith), pack_u16_lem (length body / 4) (omega arith))

pub pack_padding_lem : (z : ℤ) → InRange 0 255 z → pack_padding z ≡ ok (padding_of z) []
unfolding pack_padding
pack_padding_lem z (n, e, _, h) = rw e (at_most n h)
  where
    at_most :
        (k : ℕ)
        → k ≤ 255
        → (if ltb_ℤ (pos 0) (pos k)
            then pack_u8 (pos k) >>= (λ last. pure (zeros (k - 1) ++ last))
            else pure [])
          ≡ ok (padding_of (pos k)) []
    at_most zero h = refl
    at_most (suc k) h =
        rw (lt→ltb 0 (suc k + 0) (omega arith), pack_u8_lem (suc k) (omega arith))
          (ap (λ (m : ℕ). ok (zeros m ++ (suc k ∷ [])) []) pred_eq)
      where
        pred_eq : suc k - 1 ≡ k
        pred_eq = omega arith

pub pack_header_lem :
    (byte0 byte1 s t c : ℕ)
    → byte0 < 2 ^ 8
    → byte1 < 2 ^ 8
    → s < 2 ^ 16
    → t < 2 ^ 32
    → c < 2 ^ 32
    → pack_header byte0 byte1 (pos s) (pos t) (pos c)
      ≡ ok (byte0 ∷ byte1 ∷ (split_u16 s ++ (split_u32 t ++ split_u32 c))) []
unfolding pack_header
pack_header_lem byte0 byte1 s t c h0 h1 hs ht hc = rw (
  pack_u8_lem byte0 h0,
  pack_u8_lem byte1 h1,
  pack_u16_lem s hs,
  pack_u32_lem t ht,
  pack_u32_lem c hc,
)

pub header_packed :
    (v t s ts c : ℤ) (p e m : Bool) (n : ℕ)
    → InRange 0 3 v
    → InRange 0 127 t
    → InRange 0 0xffff s
    → InRange 0 0xffff_ffff ts
    → InRange 0 0xffff_ffff c
    → n ≤ 15
    → pack_header (header_byte0 v p e n) (header_byte1 m t) s ts c
      ≡ ok
          ((pos_part v * 64 + int_of_bool p * 32 + int_of_bool e * 16 + n)
            ∷ (int_of_bool m * 128 + pos_part t)
            ∷ (split_u16 (pos_part s) ++ (split_u32 (pos_part ts) ++ split_u32 (pos_part c))))
          []
header_packed v t s ts c p e m n (v', ev, _, hv) (t', et, _, ht) (s', es, _, hs) (ts', ets, _, hts)
      (c', ec, _, hc) hn =
    rw
      (
        ev,
        et,
        es,
        ets,
        ec,
        header_byte0_lem v' n p e (omega arith) (omega arith),
        header_byte1_lem m t' (omega arith),
      )
      (pack_header_lem _ _ s' ts' c' byte0_fits byte1_fits (omega arith) (omega arith)
        (omega arith))
  where
    byte0_fits : v' * 64 + int_of_bool p * 32 + int_of_bool e * 16 + n < 2 ^ 8
    byte0_fits = omega (arith, int_of_bool-le p, int_of_bool-le e)

    byte1_fits : int_of_bool m * 128 + t' < 2 ^ 8
    byte1_fits = omega (arith, int_of_bool-le m)

pub padding_of-IsPadding :
    (z : ℤ) → InRange 0 255 z → IsPadding (ltb_ℤ (pos 0) z) (pos_part z) (padding_of z)
padding_of-IsPadding z (n, e, _, h) = rw e (at_most n)
  where
    at_most : (k : ℕ) → IsPadding (ltb_ℤ (pos 0) (pos k)) k (padding_of (pos k))
    at_most zero = (refl, refl)
    at_most (suc k) =
        rw (lt→ltb 0 (suc k + 0) (omega arith))
          (zeros k, refl, omega (arith, length-replicate {A = ℕ} k 0))

pub built_extension-IsExtension :
    (profile : Option ℤ) (body : Bytes)
    → ExtensionValid profile body
    → IsExtension (is_some profile) (built_extension profile body)
built_extension-IsExtension none body h = refl
built_extension-IsExtension (some z) body ((n, e, _, k), m, w) =
    (refl, omega arith, rw e (omega arith), omega arith)

pub InRange-le : (lo hi : ℕ) (z : ℤ) → InRange lo hi z → pos_part z ≤ hi
InRange-le lo hi z (n, e, _, h) = rw e h
