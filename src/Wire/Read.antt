-- ===== src/Wire/Read.antt =====
-- A read within the bounds returns, and what it returns fits its width.
use rtpkit.Common.{
  ℕ, zero, suc, ◌+◌, ◌*◌, ◌-◌, ◌^◌, ◌≤◌, ◌<◌, ◌≡◌, refl, ap, List, [], ◌∷◌, arith, take, drop,
  length, All, length-drop, length-take,
}
use rtpkit.Errors.{Exception}
use rtpkit.Outcome.{Outcome}
use rtpkit.Outcome.Laws.{
  Ensures, Ensures-bind, Ensures-mono, IsQuiet, IsQuiet-bind, Yields, Yields-of,
}
use rtpkit.Wire.{
  Bytes, IsByte, slice, first_byte, byte_at, first_u16, u16_at, first_u32, u32_at, first_u32s,
  u32s_at,
}

pub All-drop : (n : ℕ) (bytes : Bytes) → All IsByte bytes → All IsByte (drop n bytes)
All-drop zero bytes h = h
All-drop (suc n) [] h = h
All-drop (suc n) (b ∷ bytes) h = All-drop n bytes h.1

pub All-take : (n : ℕ) (bytes : Bytes) → All IsByte bytes → All IsByte (take n bytes)
All-take zero bytes h = tt
All-take (suc n) [] h = h
All-take (suc n) (b ∷ bytes) h = (h.0, All-take n bytes h.1)

pub length-slice :
    (bytes : Bytes) (start stop : ℕ)
    → stop ≤ length bytes
    → length (slice bytes start stop) ≡ stop - start
length-slice bytes start stop h =
    omega (arith, length-take (stop - start) (drop start bytes), length-drop start bytes)

-- The words that `first_u32s n` or `u32s_at n` returns.
abbrev pub AreWords : ℕ → Bytes → List ℕ → Type 0
AreWords n bytes words = (length words ≡ n) × (All IsByte bytes → All (λ v. v < 2 ^ 32) words)

module _ (P : Exception → Type 0) where
  first_byte_reads :
      (bytes : Bytes)
      → 1 ≤ length bytes
      → Ensures P (λ v. All IsByte bytes → v < 2 ^ 8) (first_byte bytes)
  first_byte_reads [] h = absurd (omega arith)
  first_byte_reads (b ∷ rest) h = λ a. a.0

  first_u16_reads :
      (bytes : Bytes)
      → 2 ≤ length bytes
      → Ensures P (λ v. All IsByte bytes → v < 2 ^ 16) (first_u16 bytes)
  first_u16_reads [] h = absurd (omega arith)
  first_u16_reads (a ∷ []) h = absurd (omega arith)
  first_u16_reads (a ∷ b ∷ rest) h = λ k. omega arith

  first_u32_reads :
      (bytes : Bytes)
      → 4 ≤ length bytes
      → Ensures P (λ v. All IsByte bytes → v < 2 ^ 32) (first_u32 bytes)
  first_u32_reads [] h = absurd (omega arith)
  first_u32_reads (a ∷ []) h = absurd (omega arith)
  first_u32_reads (a ∷ b ∷ []) h = absurd (omega arith)
  first_u32_reads (a ∷ b ∷ c ∷ []) h = absurd (omega arith)
  first_u32_reads (a ∷ b ∷ c ∷ d ∷ rest) h = λ k. omega arith

  -- A read at an offset is a read of what is left there.
  at_offset :
      (n size i : ℕ) (bytes : Bytes) (first : Bytes → Outcome ℕ)
      → ((rest : Bytes)
          → n ≤ length rest
          → Ensures P (λ v. All IsByte rest → v < size) (first rest))
      → i + n ≤ length bytes
      → Ensures P (λ v. All IsByte bytes → v < size) (first (drop i bytes))
  at_offset n size i bytes first reads h =
      Ensures-mono P P (λ v. All IsByte (drop i bytes) → v < size) _ (first (drop i bytes))
        (reads (drop i bytes) (omega (arith, length-drop i bytes))) (λ e p. p)
        (λ v fits all. fits (All-drop i bytes all))

  pub byte_at_reads :
      (bytes : Bytes) (i : ℕ)
      → i + 1 ≤ length bytes
      → Ensures P (λ v. All IsByte bytes → v < 2 ^ 8) (byte_at bytes i)
  unfolding byte_at
  byte_at_reads bytes i h = at_offset 1 (2 ^ 8) i bytes first_byte first_byte_reads h

  pub u16_at_reads :
      (bytes : Bytes) (i : ℕ)
      → i + 2 ≤ length bytes
      → Ensures P (λ v. All IsByte bytes → v < 2 ^ 16) (u16_at bytes i)
  unfolding u16_at
  u16_at_reads bytes i h = at_offset 2 (2 ^ 16) i bytes first_u16 first_u16_reads h

  pub u32_at_reads :
      (bytes : Bytes) (i : ℕ)
      → i + 4 ≤ length bytes
      → Ensures P (λ v. All IsByte bytes → v < 2 ^ 32) (u32_at bytes i)
  unfolding u32_at
  u32_at_reads bytes i h = at_offset 4 (2 ^ 32) i bytes first_u32 first_u32_reads h

  first_u32s_reads :
      (n : ℕ) (bytes : Bytes)
      → n * 4 ≤ length bytes
      → Ensures P (AreWords n bytes) (first_u32s n bytes)
  unfolding first_u32s
  first_u32s_reads zero bytes h = (refl, λ k. tt)
  first_u32s_reads (suc n) [] h = absurd (omega arith)
  first_u32s_reads (suc n) (a ∷ []) h = absurd (omega arith)
  first_u32s_reads (suc n) (a ∷ b ∷ []) h = absurd (omega arith)
  first_u32s_reads (suc n) (a ∷ b ∷ c ∷ []) h = absurd (omega arith)
  first_u32s_reads (suc n) (a ∷ b ∷ c ∷ d ∷ rest) h =
      Ensures-bind P (AreWords n rest) _ (first_u32s n rest) _
        (first_u32s_reads n rest (omega arith))
        (λ more (len, fits). (ap suc len, λ k. (omega arith, fits k.1.1.1.1)))

  pub u32s_at_reads :
      (n : ℕ) (bytes : Bytes) (i : ℕ)
      → i + n * 4 ≤ length bytes
      → Ensures P (AreWords n bytes) (u32s_at n bytes i)
  unfolding u32s_at
  u32s_at_reads n bytes i h =
      Ensures-mono P P (AreWords n (drop i bytes)) _ (first_u32s n (drop i bytes))
        (first_u32s_reads n (drop i bytes) (omega (arith, length-drop i bytes))) (λ e p. p)
        (λ words (len, fits). (len, λ all. fits (All-drop i bytes all)))

-- Reads log nothing.
first_byte-IsQuiet : (bytes : Bytes) → IsQuiet (first_byte bytes)
first_byte-IsQuiet [] = tt
first_byte-IsQuiet (b ∷ rest) = tt

first_u16-IsQuiet : (bytes : Bytes) → IsQuiet (first_u16 bytes)
first_u16-IsQuiet (a ∷ b ∷ rest) = tt
first_u16-IsQuiet [] = tt
first_u16-IsQuiet (a ∷ []) = tt

first_u32-IsQuiet : (bytes : Bytes) → IsQuiet (first_u32 bytes)
first_u32-IsQuiet (a ∷ b ∷ c ∷ d ∷ rest) = tt
first_u32-IsQuiet _ = tt

first_u32s-IsQuiet : (n : ℕ) (bytes : Bytes) → IsQuiet (first_u32s n bytes)
unfolding first_u32s
first_u32s-IsQuiet zero bytes = tt
first_u32s-IsQuiet (suc n) (a ∷ b ∷ c ∷ d ∷ rest) =
    IsQuiet-bind (first_u32s n rest) _ (first_u32s-IsQuiet n rest) (λ _. tt)
first_u32s-IsQuiet (suc n) _ = tt

pub byte_at-IsQuiet : (bytes : Bytes) (i : ℕ) → IsQuiet (byte_at bytes i)
unfolding byte_at
byte_at-IsQuiet bytes i = first_byte-IsQuiet (drop i bytes)

pub u16_at-IsQuiet : (bytes : Bytes) (i : ℕ) → IsQuiet (u16_at bytes i)
unfolding u16_at
u16_at-IsQuiet bytes i = first_u16-IsQuiet (drop i bytes)

pub u32_at-IsQuiet : (bytes : Bytes) (i : ℕ) → IsQuiet (u32_at bytes i)
unfolding u32_at
u32_at-IsQuiet bytes i = first_u32-IsQuiet (drop i bytes)

pub u32s_at-IsQuiet : (n : ℕ) (bytes : Bytes) (i : ℕ) → IsQuiet (u32s_at n bytes i)
unfolding u32s_at
u32s_at-IsQuiet n bytes i = first_u32s-IsQuiet n (drop i bytes)

-- The reads, as calls that raise nothing and log nothing.
module _ (P : Exception → Type 0) where
  pub byte_at-Yields :
      (bytes : Bytes) (i : ℕ)
      → i + 1 ≤ length bytes
      → Yields P (λ v. All IsByte bytes → v < 2 ^ 8) (byte_at bytes i)
  byte_at-Yields bytes i h =
      Yields-of P _ (byte_at bytes i) (byte_at_reads P bytes i h) (byte_at-IsQuiet bytes i)

  pub u16_at-Yields :
      (bytes : Bytes) (i : ℕ)
      → i + 2 ≤ length bytes
      → Yields P (λ v. All IsByte bytes → v < 2 ^ 16) (u16_at bytes i)
  u16_at-Yields bytes i h =
      Yields-of P _ (u16_at bytes i) (u16_at_reads P bytes i h) (u16_at-IsQuiet bytes i)

  pub u32_at-Yields :
      (bytes : Bytes) (i : ℕ)
      → i + 4 ≤ length bytes
      → Yields P (λ v. All IsByte bytes → v < 2 ^ 32) (u32_at bytes i)
  u32_at-Yields bytes i h =
      Yields-of P _ (u32_at bytes i) (u32_at_reads P bytes i h) (u32_at-IsQuiet bytes i)

  pub u32s_at-Yields :
      (n : ℕ) (bytes : Bytes) (i : ℕ)
      → i + n * 4 ≤ length bytes
      → Yields P (AreWords n bytes) (u32s_at n bytes i)
  u32s_at-Yields n bytes i h =
      Yields-of P _ (u32s_at n bytes i) (u32s_at_reads P n bytes i h) (u32s_at-IsQuiet n bytes i)
