-- ===== src/Capture/PcapngWriter/Blocks.antt =====
-- How the pcapng reader reads a block of the writer.
use rtpkit.Common.{
  ℕ, suc, ◌+◌, ◌-◌, ◌≤◌, ◌≡◌, ◌∙◌, refl, sym, ap, Bool, Option, some, List, [], ◌∷◌, ◌++◌, ge→ltb,
  drop, take, append_assoc, take-append, drop-append, length, length-append, arith,
}
use rtpkit.Common.Int.{pos, pos_part}
use rtpkit.Outcome.{ok}
use rtpkit.Outcome.Laws.{Any, Ensures, Ensures-bind}
use rtpkit.Wire.{Bytes, slice, zeros, align_gap}
use rtpkit.Wire.Order.{ByteOrder, little, ordered_u32_at, split_u32_le, pack_u32_le}
use rtpkit.Capture.{Times}
use rtpkit.Capture.Pcap.RoundTrip.{pack_u32_le-Ensures, word_ok}
use rtpkit.Capture.Pcapng.{Interface, enter_section, read_block, block_loop}
use rtpkit.Capture.PcapngWriter.{wrap_block}

abbrev pub padded : Bytes → Bytes
padded body = body ++ zeros (align_gap (length body))

abbrev pub block_image : ℕ → Bytes → Bytes
block_image kind body =
    split_u32_le kind
    ++ (split_u32_le (12 + length body) ++ (body ++ split_u32_le (12 + length body)))

pub wrap_block-Ensures :
    (kind : ℕ) (body : Bytes)
    → Ensures Any (λ bytes. bytes ≡ block_image kind (padded body)) (wrap_block kind body)
unfolding wrap_block
wrap_block-Ensures kind body =
    Ensures-bind Any _ _ (pack_u32_le (pos kind)) _ (pack_u32_le-Ensures (pos kind))
      λ a (k, ek, fk).
        Ensures-bind Any _ _ (pack_u32_le (pos (8 + length (padded body) + 4))) _
          (pack_u32_le-Ensures _) λ b (n, en, fn). same_image a b k n ek en fk fn
  where
    same_image :
        (a b : Bytes) (k n : ℕ)
        → pos kind ≡ pos k
        → pos (8 + length (padded body) + 4) ≡ pos n
        → a ≡ split_u32_le k
        → b ≡ split_u32_le n
        → a ++ (b ++ (padded body ++ b)) ≡ block_image kind (padded body)
    same_image a b k n ek en fk fn = rw (fk, fn, sym (ap pos_part ek), size) refl
      where
        size : n ≡ 12 + length (padded body)
        size = omega (arith, ap pos_part en)

module _ (times : Times) where
  open times use {Time}

  -- One round of the loop, for what it reads.
  round_reads :
      (fuel : ℕ) (strict : Bool) (order : Option ByteOrder) (known : List Interface) (b : ℕ)
      (bs : Bytes) (interfaces : List Interface) (kind total : ℕ) (body rest : Bytes)
      → 12 ≤ total
      → total ≤ length (b ∷ bs)
      → enter_section order known (b ∷ bs) ≡ ok (little, interfaces) []
      → ordered_u32_at little (b ∷ bs) 0 ≡ ok kind []
      → ordered_u32_at little (b ∷ bs) 4 ≡ ok total []
      → slice (b ∷ bs) 8 (total - 4) ≡ body
      → drop total (b ∷ bs) ≡ rest
      → block_loop times (suc fuel) strict order known (b ∷ bs)
        ≡ read_block times strict little interfaces kind body
            (λ more. block_loop times fuel strict (some little) more rest)
  unfolding block_loop
  round_reads fuel strict order known b bs interfaces kind total body rest h k e e0 e4 es ed =
      rw
        (
          ge→ltb (length (b ∷ bs)) 12 (omega arith),
          e,
          e0,
          e4,
          ge→ltb total 12 h,
          ge→ltb (length (b ∷ bs)) total k,
          es,
          ed,
        )
        refl

  pub block_read :
      (fuel : ℕ) (strict : Bool) (order : Option ByteOrder) (known interfaces : List Interface)
      (kind : ℕ) (body rest : Bytes)
      → enter_section order known (block_image kind body ++ rest) ≡ ok (little, interfaces) []
      → block_loop times (suc fuel) strict order known (block_image kind body ++ rest)
        ≡ read_block times strict little interfaces kind body
            (λ more. block_loop times fuel strict (some little) more rest)
  unfolding ordered_u32_at
  block_read fuel strict order known interfaces kind body rest e =
      round_reads fuel strict order known _ _ interfaces kind (12 + length body) body rest
        (omega arith)
        (omega (
          arith,
          length-append (body ++ split_u32_le (12 + length body)) rest,
          length-append body (split_u32_le (12 + length body)),
        ))
        e (word_ok kind) (word_ok (12 + length body))
        (ap (take (12 + length body - 4 - 8)) tail_same
          ∙ take-append (12 + length body - 4 - 8) body (split_u32_le (12 + length body) ++ rest)
              (omega arith))
        (drop-append (12 + length body) (block_image kind body) rest
          (omega (arith, length-append body (split_u32_le (12 + length body)))))
    where
      tail_same :
          (body ++ split_u32_le (12 + length body)) ++ rest
          ≡ body ++ (split_u32_le (12 + length body) ++ rest)
      tail_same = append_assoc body (split_u32_le (12 + length body)) rest
