-- ===== src/Rtcp/Builder/Sdes.antt =====
-- SDES chunks that are serialized are read back, whatever follows them.
use rtpkit.Common.{
  ℕ, zero, suc, ◌+◌, ◌≤◌, ◌≡◌, refl, sym, ap, ◌∙◌, not, List, [], ◌∷◌, ◌++◌, append_assoc, arith,
  length, length-append, ltb,
}
use rtpkit.Common.Int.{ℤ, pos, pos_part, in_range, not_in_range→InRange}
use rtpkit.Outcome.{ok, raise_if}
use rtpkit.Outcome.Laws.{Any, Ensures, Ensures-bind, Ensures-mono, raise_if-Ensures}
use rtpkit.Wire.{Bytes, pack_u8, pack_u32}
use rtpkit.Wire.Write.{pack_u8-Ensures, pack_u32-Ensures}
use rtpkit.Rtcp.{SdesItem, SdesChunk}
use rtpkit.Rtcp.Bodies.{sdes_item_loop, parse_sdes_chunk, sdes_chunk_loop}
use rtpkit.Rtcp.Bodies.Sdes.{
  sdes_item_loop-null, sdes_item_loop_step, AreItems, parse_sdes_chunk-chunk_raw,
}
use rtpkit.Rtcp.Builder.{
  align, serialize_sdes_item, serialize_sdes_items, serialize_sdes_chunk, serialize_sdes_chunks,
}

-- The bytes of an item.
abbrev IsItem : SdesItem → Bytes → Type 0
IsItem item bytes =
    (n : ℕ) × (item.kind ≡ pos n) × (1 ≤ n) × (bytes ≡ n ∷ length item.text ∷ item.text)

serialize_sdes_item-IsItem :
    (item : SdesItem) → Ensures Any (IsItem item) (serialize_sdes_item item)
unfolding serialize_sdes_item
serialize_sdes_item-IsItem item =
    Ensures-bind _ _ _ (raise_if (not (in_range 1 255 item.kind)) _) _ (raise_if-Ensures Any _ _ tt)
      λ _ kind_in.
        Ensures-bind _ _ _ (raise_if (ltb 255 (length item.text)) _) _ (raise_if-Ensures Any _ _ tt)
          λ _ _.
            Ensures-bind _ _ _ (pack_u8 item.kind) _
              (Ensures-mono _ Any _ _ (pack_u8 _) (pack_u8-Ensures _) (λ _ _. tt) (λ _ h. h))
              λ first (_, first_eq).
                Ensures-bind _ _ _ (pack_u8 (pos (length item.text))) _
                  (Ensures-mono _ Any _ _ (pack_u8 _) (pack_u8-Ensures _) (λ _ _. tt) (λ _ h. h))
                  λ second (_, second_eq).
                    let (n, kind_eq, n_ge, _) = not_in_range→InRange 1 255 item.kind kind_in in
                    (n, kind_eq, n_ge, cc (first_eq, second_eq, ap pos_part kind_eq))

AreItems-append :
    (item : SdesItem) (items : List SdesItem) (first rest : Bytes)
    → IsItem item first
    → AreItems items rest
    → AreItems (item ∷ items) (first ++ rest)
AreItems-append item items first rest (n, kind_eq, n_ge, first_eq) reads zero tail h =
    absurd (omega arith)
AreItems-append item items first rest (n, kind_eq, n_ge, first_eq) reads (suc fuel) tail h = rw (
  first_eq,
  append_assoc item.text rest (0 ∷ tail),
  sdes_item_loop_step fuel n item.text (rest ++ (0 ∷ tail)) n_ge,
  reads fuel tail enough,
  sym kind_eq,
)
  where
    enough : length rest + 1 ≤ fuel
    enough = omega (arith, length-append first rest, ap length first_eq)

serialize_sdes_items-AreItems :
    (items : List SdesItem) → Ensures Any (AreItems items) (serialize_sdes_items items)
unfolding serialize_sdes_items
serialize_sdes_items-AreItems [] = none_left
  where
    none_left :
        (fuel : ℕ) (rest : Bytes) → 0 + 1 ≤ fuel → sdes_item_loop fuel (0 ∷ rest) ≡ ok ([], rest) []
    none_left zero rest h = absurd (omega arith)
    none_left (suc fuel) rest h = sdes_item_loop-null fuel rest
serialize_sdes_items-AreItems (item ∷ items) =
    Ensures-bind _ _ _ (serialize_sdes_item item) _ (serialize_sdes_item-IsItem item)
      λ first is_item.
        Ensures-bind _ _ _ (serialize_sdes_items items) _ (serialize_sdes_items-AreItems items)
          λ rest are_items. AreItems-append item items first rest is_item are_items

abbrev IsChunk : SdesChunk → Bytes → Type 0
IsChunk chunk bytes = (rest : Bytes) → parse_sdes_chunk (bytes ++ rest) ≡ ok (chunk, rest) []

serialize_sdes_chunk-IsChunk :
    (chunk : SdesChunk) → Ensures Any (IsChunk chunk) (serialize_sdes_chunk chunk)
unfolding serialize_sdes_chunk
serialize_sdes_chunk-IsChunk chunk =
    Ensures-bind _ _ _ (serialize_sdes_items chunk.items) _
      (serialize_sdes_items-AreItems chunk.items)
      λ items are_items.
        Ensures-bind _ _ _ (pack_u32 chunk.ssrc) _
          (Ensures-mono _ Any _ _ (pack_u32 _) (pack_u32-Ensures _) (λ _ _. tt) (λ _ h. h))
          λ word ((ssrc_eq, _), word_eq). λ rest.
            ap (λ (w : Bytes). parse_sdes_chunk (align (w ++ (items ++ (0 ∷ []))) ++ rest)) word_eq
            ∙ parse_sdes_chunk-chunk_raw (pos_part chunk.ssrc) chunk.items items rest are_items
            ∙ ap (λ (z : ℤ). ok (record { ssrc = z; items = chunk.items }, rest) []) (sym ssrc_eq)

-- The chunks of a packet, read off their bytes.
abbrev pub AreChunks : List SdesChunk → Bytes → Type 0
AreChunks cs bytes = (rest : Bytes) → sdes_chunk_loop (length cs) (bytes ++ rest) ≡ ok cs []

AreChunks-append :
    (c : SdesChunk) (cs : List SdesChunk) (first more : Bytes)
    → IsChunk c first
    → AreChunks cs more
    → AreChunks (c ∷ cs) (first ++ more)
unfolding sdes_chunk_loop
AreChunks-append c cs first more read reads rest =
    rw (append_assoc first more rest, read (more ++ rest), reads rest)

pub serialize_sdes_chunks-AreChunks :
    (cs : List SdesChunk) → Ensures Any (AreChunks cs) (serialize_sdes_chunks cs)
unfolding serialize_sdes_chunks sdes_chunk_loop
serialize_sdes_chunks-AreChunks [] = λ rest. refl
serialize_sdes_chunks-AreChunks (c ∷ cs) =
    Ensures-bind _ _ _ (serialize_sdes_chunk c) _ (serialize_sdes_chunk-IsChunk c) λ first is_chunk.
      Ensures-bind _ _ _ (serialize_sdes_chunks cs) _ (serialize_sdes_chunks-AreChunks cs)
        λ more are_chunks. AreChunks-append c cs first more is_chunk are_chunks
