-- ===== src/Capture/PcapngWriter/Bodies.antt =====
-- How the pcapng reader parses the bodies of the writer's blocks.
use rtpkit.Common.{
  ℕ, zero, suc, ◌+◌, ◌-◌, ◌/◌, ◌%◌, ◌^◌, ◌<◌, ◌≤◌, ◌≡◌, ◌∙◌, refl, sym, ap, false, some, List, [],
  ◌∷◌, ◌++◌, leb, ltb, ge→ltb, take-append, length, length-append, get_elem?, bit_or, arith,
}
use rtpkit.Common.Bits.{shl}
use rtpkit.Common.Int.{ℤ, pos, negsuc, pos_part, bit_and_ℤ, shr_ℤ}
use rtpkit.Outcome.{ok}
use rtpkit.Outcome.Laws.{Any, Ensures, Ensures-bind, Ensures-if, Ensures-mono}
use rtpkit.Wire.{Bytes, slice, zeros, align_gap}
use rtpkit.Wire.Write.{join-split_u16}
use rtpkit.Wire.Order.{
  little, ordered_u16_at, ordered_u32_at, split_u32_le, pack_u16_le, pack_u32_le,
}
use rtpkit.Capture.{Times, PcapPacket}
use rtpkit.Capture.Pcap.RoundTrip.{pack_u32_le-Ensures, word_ok}
use rtpkit.Capture.Pcapng.{Interface, parse_idb, parse_epb}
use rtpkit.Capture.PcapngWriter.{wrap_block, build_idb, build_epb}
use rtpkit.Capture.PcapngWriter.Blocks.{padded, block_image, wrap_block-Ensures}

abbrev pub written_interface : ℕ → Interface
written_interface n = record { link_type = n; ts_resolution = 1_000_000 }

abbrev pub idb_image : ℕ → Bytes
idb_image n = block_image 1 (n % 2 ^ 8 ∷ n / 2 ^ 8 ∷ 0 ∷ 0 ∷ 0 ∷ 0 ∷ 4 ∷ 0 ∷ [])

pack_u16_le-Ensures :
    (z : ℤ)
    → Ensures Any
        (λ bytes. (n : ℕ) × (z ≡ pos n) × (bytes ≡ n % 2 ^ 8 ∷ n / 2 ^ 8 ∷ []))
        (pack_u16_le z)
unfolding pack_u16_le
pack_u16_le-Ensures (pos n) = Ensures-if Any _ (ltb n (2 ^ 16)) _ _ (λ _. (n, refl, refl)) (λ _. tt)
pack_u16_le-Ensures (negsuc n) = tt

pub build_idb-Ensures :
    (z : ℤ) → Ensures Any (λ bytes. (n : ℕ) × (z ≡ pos n) × (bytes ≡ idb_image n)) (build_idb z)
unfolding build_idb
build_idb-Ensures z =
    Ensures-bind Any _ _ (pack_u16_le z) _ (pack_u16_le-Ensures z) λ packed (n, en, fn).
      Ensures-mono Any Any _ _ (wrap_block 1 (packed ++ (0 ∷ 0 ∷ 0 ∷ 0 ∷ 4 ∷ 0 ∷ [])))
        (wrap_block-Ensures 1 (packed ++ (0 ∷ 0 ∷ 0 ∷ 0 ∷ 4 ∷ 0 ∷ []))) (λ e p. p)
        (λ bytes same. (
          n,
          en,
          same
              ∙ ap (λ (xs : Bytes). block_image 1 (padded (xs ++ (0 ∷ 0 ∷ 0 ∷ 0 ∷ 4 ∷ 0 ∷ [])))) fn,
        ))

pub idb_parsed :
    (n : ℕ)
    → parse_idb (n % 2 ^ 8 ∷ n / 2 ^ 8 ∷ 0 ∷ 0 ∷ 0 ∷ 0 ∷ 4 ∷ 0 ∷ []) little
      ≡ ok (written_interface n) []
unfolding parse_idb ordered_u16_at
idb_parsed n = ap (λ (k : ℕ). ok (written_interface k) []) (join-split_u16 n)

not_leb : (a b : ℕ) → b < a → leb a b ≡ false
not_leb a b h = ground arith

sent : {m n : ℕ} {bytes : Bytes} → pos m ≡ pos n → bytes ≡ split_u32_le n → bytes ≡ split_u32_le m
sent e f = f ∙ ap split_u32_le (sym (ap pos_part e))

module _ (times : Times) where
  open times use {Time, ratio, ticks}

  abbrev pub high_ticks : PcapPacket Time → ℕ
  high_ticks p = bit_and_ℤ (shr_ℤ (ticks p.timestamp) 32) 0xffff_ffff

  abbrev pub low_ticks : PcapPacket Time → ℕ
  low_ticks p = bit_and_ℤ (ticks p.timestamp) 0xffff_ffff

  abbrev pub epb_body : ℕ → PcapPacket Time → ℕ → Bytes
  epb_body i p o =
      split_u32_le i
      ++ (split_u32_le (high_ticks p)
          ++ (split_u32_le (low_ticks p)
              ++ (split_u32_le (length p.body) ++ (split_u32_le o ++ p.body))))

  body_same :
      (i : ℕ) (p : PcapPacket Time) (o : ℕ) (a b c d g : Bytes)
      → a ≡ split_u32_le i
      → b ≡ split_u32_le (high_ticks p)
      → c ≡ split_u32_le (low_ticks p)
      → d ≡ split_u32_le (length p.body)
      → g ≡ split_u32_le o
      → a ++ (b ++ (c ++ (d ++ (g ++ p.body)))) ≡ epb_body i p o
  body_same i p o a b c d g fa fb fc fd fg = rw (fa, fb, fc, fd, fg) refl

  pub build_epb-Ensures :
      (i : ℕ) (p : PcapPacket Time)
      → Ensures Any
          (λ bytes.
            (o : ℕ) × (p.original_length ≡ pos o)
            × (bytes ≡ block_image 6 (padded (epb_body i p o))))
          (build_epb times i p)
  unfolding build_epb
  build_epb-Ensures i p =
      Ensures-bind Any _ _ (pack_u32_le (pos i)) _ (pack_u32_le-Ensures _) λ a (ka, ea, fa).
        Ensures-bind Any _ _ (pack_u32_le (pos (high_ticks p))) _ (pack_u32_le-Ensures _)
          λ b (kb, eb, fb).
            Ensures-bind Any _ _ (pack_u32_le (pos (low_ticks p))) _ (pack_u32_le-Ensures _)
              λ c (kc, ec, fc).
                Ensures-bind Any _ _ (pack_u32_le (pos (length p.body))) _ (pack_u32_le-Ensures _)
                  λ d (kd, ed, fd).
                    Ensures-bind Any _ _ (pack_u32_le p.original_length) _ (pack_u32_le-Ensures _)
                      λ g (o, eo, fo).
                        Ensures-mono Any Any _ _
                          (wrap_block 6 (a ++ (b ++ (c ++ (d ++ (g ++ p.body))))))
                          (wrap_block-Ensures 6 (a ++ (b ++ (c ++ (d ++ (g ++ p.body))))))
                          (λ e h. h)
                          (λ bytes same. (
                            o,
                            eo,
                            same
                                ∙ ap (λ (xs : Bytes). block_image 6 (padded xs))
                                    (body_same i p o a b c d g (sent ea fa) (sent eb fb)
                                      (sent ec fc) (sent ed fd) fo),
                          ))

  -- A packet as it comes back: its time is that of the 64 bits of ticks that were written.
  abbrev pub reread_ticks : PcapPacket Time → PcapPacket Time
  reread_ticks p = record {
    timestamp = ratio (bit_or (shl (high_ticks p) 32) (low_ticks p)) 1_000_000;
    captured_length = length p.body;
    original_length = p.original_length;
    link_type = p.link_type;
    body = p.body;
  }

  get_elem?_below :
      (xs : List Interface) (i : ℕ) (x : Interface) → get_elem? xs i ≡ some x → i < length xs
  get_elem?_below [] i x e = absurd (cc e)
  get_elem?_below (y ∷ xs) zero x e = omega arith
  get_elem?_below (y ∷ xs) (suc i) x e = omega (arith, get_elem?_below xs i x e)

  -- The parser, for what it reads.
  epb_reads :
      (bytes : Bytes) (interfaces : List Interface) (i high low n o l : ℕ) (body : Bytes)
      → 20 + n ≤ length bytes
      → i < length interfaces
      → get_elem? interfaces i ≡ some (written_interface l)
      → ordered_u32_at little bytes 0 ≡ ok i []
      → ordered_u32_at little bytes 4 ≡ ok high []
      → ordered_u32_at little bytes 8 ≡ ok low []
      → ordered_u32_at little bytes 12 ≡ ok n []
      → ordered_u32_at little bytes 16 ≡ ok o []
      → slice bytes 20 (20 + n) ≡ body
      → parse_epb times bytes little interfaces
        ≡ ok
            (record {
              timestamp = ratio (bit_or (shl high 32) low) 1_000_000;
              captured_length = n;
              original_length = pos o;
              link_type = pos l;
              body = body;
            })
            []
  unfolding parse_epb
  epb_reads bytes interfaces i high low n o l body h k e e0 e4 e8 e12 e16 es =
      rw
        (
          ge→ltb (length bytes) 20 (omega arith),
          e0,
          e4,
          e8,
          e12,
          e16,
          ge→ltb (length bytes) (20 + n) h,
          not_leb (length interfaces) i k,
          e,
          es,
        )
        refl

  pub epb_parsed :
      (i : ℕ) (p : PcapPacket Time) (o l : ℕ) (interfaces : List Interface)
      → p.original_length ≡ pos o
      → p.link_type ≡ pos l
      → get_elem? interfaces i ≡ some (written_interface l)
      → parse_epb times (padded (epb_body i p o)) little interfaces ≡ ok (reread_ticks p) []
  unfolding ordered_u32_at
  epb_parsed i p o l interfaces eo el e =
      epb_reads (padded (epb_body i p o)) interfaces i (high_ticks p) (low_ticks p) (length p.body)
        o l p.body
        (omega (arith, length-append p.body (zeros (align_gap (length (epb_body i p o))))))
        (get_elem?_below interfaces i _ e) e (word_ok i) (word_ok (high_ticks p))
        (word_ok (low_ticks p)) (word_ok (length p.body)) (word_ok o)
        (take-append (20 + length p.body - 20) p.body _ (omega arith))
      ∙ rw (sym eo, sym el) refl
