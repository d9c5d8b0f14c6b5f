-- ===== src/Rtcp/Bodies/Blocks.antt =====
-- Reading report blocks off the words that they are made of.
use rtpkit.Common.{ℕ, ◌+◌, ◌≡◌, ap, ◌∙◌, [], ◌∷◌, ◌++◌, arith, length, drop, drop-append}
use rtpkit.Outcome.{ok}
use rtpkit.Wire.{Bytes, u32_at, u32s_at, first_u32s}
use rtpkit.Wire.Write.{words, u32_at-drop, u32s_at-drop, join-split_u32}
use rtpkit.Rtcp.Bodies.{parse_report_block, with_last_words}

-- The six words of a block at the front of the bytes.
six :
    (a b c d e f : ℕ) (tail : Bytes)
    → (u32_at (words (a ∷ b ∷ c ∷ d ∷ e ∷ f ∷ []) ++ tail) 0 ≡ ok a [])
      × (u32_at (words (a ∷ b ∷ c ∷ d ∷ e ∷ f ∷ []) ++ tail) 4 ≡ ok b [])
      × (u32s_at 4 (words (a ∷ b ∷ c ∷ d ∷ e ∷ f ∷ []) ++ tail) 8 ≡ ok (c ∷ d ∷ e ∷ f ∷ []) [])
unfolding u32_at u32s_at first_u32s
six a b c d e f tail = (
  ap (λ (k : ℕ). ok k []) (join-split_u32 a),
  ap (λ (k : ℕ). ok k []) (join-split_u32 b),
  rw (join-split_u32 c, join-split_u32 d, join-split_u32 e)
      (ap (λ (k : ℕ). ok (c ∷ d ∷ e ∷ k ∷ []) []) (join-split_u32 f)),
)

pub parse_report_block-words :
    (a b c d e f off : ℕ) (front tail : Bytes)
    → off ≡ length front
    → parse_report_block (front ++ (words (a ∷ b ∷ c ∷ d ∷ e ∷ f ∷ []) ++ tail)) off
      ≡ with_last_words a b (c ∷ d ∷ e ∷ f ∷ [])
unfolding parse_report_block
parse_report_block-words a b c d e f off front tail h = rw (first, second, last)
  where
    block : Bytes
    block = words (a ∷ b ∷ c ∷ d ∷ e ∷ f ∷ []) ++ tail

    left : drop off (front ++ block) ≡ block
    left = drop-append off front block h

    first : u32_at (front ++ block) off ≡ ok a []
    first =
        ap (u32_at (front ++ block)) off_eq
        ∙ u32_at-drop (front ++ block) off 0
        ∙ ap (λ (r : Bytes). u32_at r 0) left
        ∙ (six a b c d e f tail).0
      where
        off_eq : off ≡ off + 0
        off_eq = omega arith

    second : u32_at (front ++ block) (off + 4) ≡ ok b []
    second =
        u32_at-drop (front ++ block) off 4
        ∙ ap (λ (r : Bytes). u32_at r 4) left
        ∙ (six a b c d e f tail).1

    last : u32s_at 4 (front ++ block) (off + 8) ≡ ok (c ∷ d ∷ e ∷ f ∷ []) []
    last =
        u32s_at-drop 4 (front ++ block) off 8
        ∙ ap (λ (r : Bytes). u32s_at 4 r 8) left
        ∙ (six a b c d e f tail).2
