-- ===== src/Wire/Write.antt =====
-- What `struct.pack` writes, and that the reads return it, whatever follows.
use rtpkit.Common.{
  ℕ, ◌+◌, ◌-◌, ◌*◌, ◌/◌, ◌%◌, ◌^◌, ◌<◌, ◌≡◌, refl, sym, ◌∙◌, append_assoc, ap, List, [], ◌∷◌, ◌++◌,
  arith, length, All, map, ltb, ltb→lt, drop, drop-drop, length-append, take-append, drop-append,
  append_assoc,
}
use rtpkit.Common.Int.{ℤ, pos, negsuc, pos_part}
use rtpkit.Errors.{Exception, struct_error}
use rtpkit.Outcome.Laws.{Ensures, Ensures-bind, Ensures-if}
use rtpkit.Outcome.{ok}
use rtpkit.Wire.{
  Bytes, IsByte, slice, byte_at, join_u16, join_u32, split_u16, split_u32, u16_at, u32_at,
  first_u32s, u32s_at, pack_u8, pack_u16, pack_u32, pack_u32s, align_gap,
}

pub join-split_u16 : (n : ℕ) → join_u16 (n / 2 ^ 8) (n % 2 ^ 8) ≡ n
join-split_u16 n = omega arith

pub join-split_u32 :
    (n : ℕ) → join_u32 (n / 2 ^ 24) (n / 2 ^ 16 % 2 ^ 8) (n / 2 ^ 8 % 2 ^ 8) (n % 2 ^ 8) ≡ n
join-split_u32 n = omega arith

pub split_u16-IsByte : (n : ℕ) → n < 2 ^ 16 → All IsByte (split_u16 n)
split_u16-IsByte n h = omega arith

pub split_u32-IsByte : (n : ℕ) → n < 2 ^ 32 → All IsByte (split_u32 n)
split_u32-IsByte n h = omega arith

pub All-append : (xs ys : Bytes) → All IsByte xs → All IsByte ys → All IsByte (xs ++ ys)
All-append [] ys h k = k
All-append (x ∷ xs) ys h k = (h.0, All-append xs ys h.1 k)

-- The words of a list, one after the other.
abbrev pub words : List ℕ → Bytes
words [] = []
words (n ∷ ns) = split_u32 n ++ words ns

pub length-words : (ns : List ℕ) → length (words ns) ≡ length ns * 4
length-words [] = refl
length-words (n ∷ ns) = omega (arith, length-words ns)

abbrev pub AreU32 : List ℕ → Type 0
AreU32 = All (λ n. n < 2 ^ 32)

pub words-IsByte : (ns : List ℕ) → AreU32 ns → All IsByte (words ns)
words-IsByte [] h = tt
words-IsByte (n ∷ ns) h =
    All-append (split_u32 n) (words ns) (split_u32-IsByte n h.0) (words-IsByte ns h.1)

pub pack_u8_lem : (n : ℕ) → n < 2 ^ 8 → pack_u8 (pos n) ≡ ok (n ∷ []) []
unfolding pack_u8
pack_u8_lem n h = ground arith

pub pack_u16_lem : (n : ℕ) → n < 2 ^ 16 → pack_u16 (pos n) ≡ ok (split_u16 n) []
unfolding pack_u16
pack_u16_lem n h = ground arith

pub pack_u32_lem : (n : ℕ) → n < 2 ^ 32 → pack_u32 (pos n) ≡ ok (split_u32 n) []
unfolding pack_u32
pack_u32_lem n h = ground arith

pub first_u32s-words :
    (ns : List ℕ) (rest : Bytes) → first_u32s (length ns) (words ns ++ rest) ≡ ok ns []
unfolding first_u32s
first_u32s-words [] rest = refl
first_u32s-words (n ∷ ns) rest =
    rw (first_u32s-words ns rest) (ap (λ (k : ℕ). ok (k ∷ ns) []) (join-split_u32 n))

-- Reads at an offset, of bytes that stand behind a prefix of that length.
module _ (i : ℕ) (front : Bytes) (at : i ≡ length front) where
  pub byte_at-append : (b : ℕ) (rest : Bytes) → byte_at (front ++ (b ∷ rest)) i ≡ ok b []
  unfolding byte_at
  byte_at-append b rest = rw (drop-append i front (b ∷ rest) at)

  pub u16_at-append : (n : ℕ) (rest : Bytes) → u16_at (front ++ (split_u16 n ++ rest)) i ≡ ok n []
  unfolding u16_at
  u16_at-append n rest =
      rw (drop-append i front (split_u16 n ++ rest) at) (ap (λ (k : ℕ). ok k []) (join-split_u16 n))

  pub u32_at-append : (n : ℕ) (rest : Bytes) → u32_at (front ++ (split_u32 n ++ rest)) i ≡ ok n []
  unfolding u32_at
  u32_at-append n rest =
      rw (drop-append i front (split_u32 n ++ rest) at) (ap (λ (k : ℕ). ok k []) (join-split_u32 n))

  pub u32s_at-append :
      (ns : List ℕ) (rest : Bytes) → u32s_at (length ns) (front ++ (words ns ++ rest)) i ≡ ok ns []
  unfolding u32s_at
  u32s_at-append ns rest = rw (drop-append i front (words ns ++ rest) at) (first_u32s-words ns rest)

  pub slice-append :
      (j : ℕ) (mid rest : Bytes) → j ≡ i + length mid → slice (front ++ (mid ++ rest)) i j ≡ mid
  slice-append j mid rest to =
      rw (drop-append i front (mid ++ rest) at) (take-append (j - i) mid rest (omega arith))

-- The same, of bytes that stand behind two pieces.
module _ (i : ℕ) (front mid : Bytes) (at : i ≡ length front + length mid) where
  behind : i ≡ length (front ++ mid)
  behind = omega (arith, length-append front mid)

  regroup : (rest : Bytes) → front ++ (mid ++ rest) ≡ (front ++ mid) ++ rest
  regroup rest = sym (append_assoc front mid rest)

  pub byte_at-behind : (b : ℕ) (rest : Bytes) → byte_at (front ++ (mid ++ (b ∷ rest))) i ≡ ok b []
  byte_at-behind b rest =
      ap (λ (bytes : Bytes). byte_at bytes i) (regroup (b ∷ rest))
      ∙ byte_at-append i (front ++ mid) behind b rest

  pub u16_at-behind :
      (n : ℕ) (rest : Bytes) → u16_at (front ++ (mid ++ (split_u16 n ++ rest))) i ≡ ok n []
  u16_at-behind n rest =
      ap (λ (bytes : Bytes). u16_at bytes i) (regroup (split_u16 n ++ rest))
      ∙ u16_at-append i (front ++ mid) behind n rest

  pub slice-behind :
      (j : ℕ) (piece rest : Bytes)
      → j ≡ i + length piece
      → slice (front ++ (mid ++ (piece ++ rest))) i j ≡ piece
  slice-behind j piece rest to =
      ap (λ (bytes : Bytes). slice bytes i j) (regroup (piece ++ rest))
      ∙ slice-append i (front ++ mid) behind j piece rest to

pub align_gap_lem : (n : ℕ) → ((n + align_gap n) % 4 ≡ 0) × (align_gap n < 4)
align_gap_lem n = omega arith

pub align_gap-multiple : (n : ℕ) → n % 4 ≡ 0 → align_gap n ≡ 0
align_gap-multiple n h = omega arith

-- What the packers accept, and what they write.
abbrev pub IsStructError : Exception → Type 0
IsStructError e = e ≡ struct_error

abbrev pub IsU32 : ℤ → Type 0
IsU32 z = (z ≡ pos (pos_part z)) × (pos_part z < 2 ^ 32)

pub pack_u32-Ensures :
    (z : ℤ)
    → Ensures IsStructError (λ bytes. IsU32 z × (bytes ≡ split_u32 (pos_part z))) (pack_u32 z)
unfolding pack_u32
pack_u32-Ensures (pos n) =
    Ensures-if _ _ (ltb n (2 ^ 32)) _ _ (λ h. ((refl, ltb→lt _ _ h), refl)) (λ _. refl)
pack_u32-Ensures (negsuc n) = refl

pub pack_u32s-Ensures :
    (zs : List ℤ)
    → Ensures IsStructError
        (λ bytes. All IsU32 zs × (bytes ≡ words (map pos_part zs)))
        (pack_u32s zs)
unfolding pack_u32s
pack_u32s-Ensures [] = (tt, refl)
pack_u32s-Ensures (z ∷ zs) =
    Ensures-bind _ _ _ (pack_u32 z) _ (pack_u32-Ensures z) λ first (fits, first_eq).
      Ensures-bind _ _ _ (pack_u32s zs) _ (pack_u32s-Ensures zs)
        λ rest (fit, rest_eq). ((fits, fit), cc (first_eq, rest_eq))

-- A read behind an offset is a read of what is left there.
pub u32_at-drop : (bytes : Bytes) (off k : ℕ) → u32_at bytes (off + k) ≡ u32_at (drop off bytes) k
unfolding u32_at
u32_at-drop bytes off k = rw (drop-drop k off bytes)

pub u32s_at-drop :
    (n : ℕ) (bytes : Bytes) (off k : ℕ) → u32s_at n bytes (off + k) ≡ u32s_at n (drop off bytes) k
unfolding u32s_at
u32s_at-drop n bytes off k = rw (drop-drop k off bytes)

pub pack_u8-Ensures :
    (z : ℤ)
    → Ensures IsStructError
        (λ bytes. (z ≡ pos (pos_part z)) × (bytes ≡ pos_part z ∷ []))
        (pack_u8 z)
unfolding pack_u8
pack_u8-Ensures (pos n) = Ensures-if _ _ (ltb n (2 ^ 8)) _ _ (λ _. (refl, refl)) (λ _. refl)
pack_u8-Ensures (negsuc n) = refl

pub pack_u16-Ensures :
    (z : ℤ)
    → Ensures IsStructError
        (λ bytes. (z ≡ pos (pos_part z)) × (bytes ≡ split_u16 (pos_part z)))
        (pack_u16 z)
unfolding pack_u16
pack_u16-Ensures (pos n) = Ensures-if _ _ (ltb n (2 ^ 16)) _ _ (λ _. (refl, refl)) (λ _. refl)
pack_u16-Ensures (negsuc n) = refl
