-- ===== src/Rtcp/Bodies/Sdes.antt =====
-- Reading SDES items and chunks off the bytes that they are made of.
use rtpkit.Common.{
  ℕ, suc, ◌+◌, ◌-◌, ◌≤◌, ◌≡◌, refl, sym, ap, ◌∙◌, false, List, [], ◌∷◌, ◌++◌, append_assoc, arith,
  length, length-append, length-replicate, drop, take-append, drop-append, ltb, ge→ltb, ◌==◌,
}
use rtpkit.Common.Int.{pos}
use rtpkit.Outcome.{ok, ◌>>=◌, pure}
use rtpkit.Wire.{Bytes, u32_at, split_u32, zeros, align_gap}
use rtpkit.Wire.Write.{u32_at-append}
use rtpkit.Rtcp.{SdesItem, SdesChunk}
use rtpkit.Rtcp.Bodies.{sdes_item_loop, parse_sdes_chunk}

-- The null byte ends the items.
pub sdes_item_loop-null :
    (fuel : ℕ) (rest : Bytes) → sdes_item_loop (suc fuel) (0 ∷ rest) ≡ ok ([], rest) []
unfolding sdes_item_loop
sdes_item_loop-null fuel [] = refl
sdes_item_loop-null fuel (b ∷ rest) = refl

-- One round on the bytes of an item, whatever follows.
pub sdes_item_loop_step :
    (fuel n : ℕ) (text tail : Bytes)
    → 1 ≤ n
    → sdes_item_loop (suc fuel) (n ∷ length text ∷ (text ++ tail)) ≡ (
        sdes_item_loop fuel tail
        >>= (λ (items, left). pure (record { kind = pos n; text = text } ∷ items, left)))
unfolding sdes_item_loop
sdes_item_loop_step fuel n text tail h = rw (
  not_end,
  enough,
  take-append (length text) text tail refl,
  drop-append (length text) text tail refl,
)
  where
    not_end : (n == 0) ≡ false
    not_end = ground arith

    enough : ltb (length (text ++ tail)) (length text) ≡ false
    enough = ge→ltb _ _ (omega (arith, length-append text tail))

-- The items of a chunk, read off their bytes.
abbrev pub AreItems : List SdesItem → Bytes → Type 0
AreItems items bytes =
    (fuel : ℕ) (rest : Bytes)
    → length bytes + 1 ≤ fuel
    → sdes_item_loop fuel (bytes ++ (0 ∷ rest)) ≡ ok (items, rest) []

-- A chunk: its SSRC, its items, the null byte and the alignment.
abbrev pub chunk_raw : ℕ → Bytes → Bytes
chunk_raw ssrc items = split_u32 ssrc ++ (items ++ (0 ∷ []))

regroup :
    (ssrc : ℕ) (items pad rest : Bytes)
    → (chunk_raw ssrc items ++ pad) ++ rest ≡ split_u32 ssrc ++ (items ++ (0 ∷ (pad ++ rest)))
regroup ssrc items pad rest =
    append_assoc (chunk_raw ssrc items) pad rest
    ∙ ap (λ (r : Bytes). split_u32 ssrc ++ r) (append_assoc items (0 ∷ []) (pad ++ rest))

-- The round on any content, from what its reads return.
parse_sdes_chunk_reads :
    (content left : Bytes) (ssrc gap : ℕ) (items : List SdesItem)
    → 4 ≤ length content
    → u32_at content 0 ≡ ok ssrc []
    → sdes_item_loop (length content) (drop 4 content) ≡ ok (items, left) []
    → align_gap (length content - length left) ≡ gap
    → gap ≤ length left
    → parse_sdes_chunk content ≡ ok (record { ssrc = pos ssrc; items = items }, drop gap left) []
unfolding parse_sdes_chunk
parse_sdes_chunk_reads content left ssrc gap items long word loop gap_eq fits =
    rw (ge→ltb _ _ long, word, loop, gap_eq, ge→ltb _ _ fits)

pub parse_sdes_chunk-chunk_raw :
    (ssrc : ℕ) (items : List SdesItem) (bytes rest : Bytes)
    → AreItems items bytes
    → parse_sdes_chunk
        ((chunk_raw ssrc bytes ++ zeros (align_gap (length (chunk_raw ssrc bytes)))) ++ rest)
      ≡ ok (record { ssrc = pos ssrc; items = items }, rest) []
parse_sdes_chunk-chunk_raw ssrc items bytes rest reads =
    ap parse_sdes_chunk (regroup ssrc bytes (zeros gap) rest)
    ∙ parse_sdes_chunk_reads content (zeros gap ++ rest) ssrc gap items
        (omega (arith, content_len, raw_len))
        (u32_at-append 0 [] refl ssrc (bytes ++ (0 ∷ (zeros gap ++ rest))))
        (reads (length content) (zeros gap ++ rest) (omega (arith, content_len, raw_len)))
        (ap align_gap taken) (omega (arith, length-append (zeros gap) rest, gap_len))
    ∙ ap (λ (r : Bytes). ok (chunk, r) []) (drop-append gap (zeros gap) rest (sym gap_len))
  where
    chunk : SdesChunk
    chunk = record { ssrc = pos ssrc; items = items }

    gap : ℕ
    gap = align_gap (length (chunk_raw ssrc bytes))

    content : Bytes
    content = split_u32 ssrc ++ (bytes ++ (0 ∷ (zeros gap ++ rest)))

    gap_len : length (zeros gap) ≡ gap
    gap_len = length-replicate {A = ℕ} gap 0

    content_len : length content ≡ length (chunk_raw ssrc bytes) + length (zeros gap ++ rest)
    content_len =
        omega (arith, length-append bytes (0 ∷ (zeros gap ++ rest)), length-append bytes (0 ∷ []))

    raw_len : length (chunk_raw ssrc bytes) ≡ length bytes + 5
    raw_len = omega (arith, length-append bytes (0 ∷ []))

    taken : length content - length (zeros gap ++ rest) ≡ length (chunk_raw ssrc bytes)
    taken = omega (arith, content_len)
