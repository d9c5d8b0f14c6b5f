-- ===== src/Wire.antt =====
-- Byte strings, and the reads and writes of them that the code makes: `data[i]`, slices, and the
-- formats B, H and I of the `struct` module in network byte order.
pub mod Read
pub mod Write
pub mod Order
use rtpkit.Common.{
  ℕ, zero, suc, ◌+◌, ◌-◌, ◌*◌, ◌/◌, ◌%◌, ◌^◌, ◌<◌, Bool, List, [], ◌∷◌, ◌++◌, ltb, take, drop,
  length, replicate, if◌then◌else◌,
}
use rtpkit.Common.Int.{ℤ, pos, negsuc}
use rtpkit.Errors.{index_error, struct_error}
use rtpkit.Outcome.{Outcome, ok, err, ◌>>=◌, pure}

-- `bytes`, `bytearray` or `memoryview`: the code only reads it.
abbrev pub Bytes : Type 0
Bytes = List ℕ

abbrev pub IsByte : ℕ → Type 0
IsByte b = b < 2 ^ 8

abbrev pub first_byte : Bytes → Outcome ℕ
first_byte [] = err index_error
first_byte (b ∷ rest) = pure b

-- `data[i]` for `i` of zero or more.
unfoldable pub byte_at : Bytes → ℕ → Outcome ℕ
byte_at bytes i = first_byte (drop i bytes)

-- `data[start:stop]` for bounds of zero or more: Python cuts them to the length.
abbrev pub slice : Bytes → ℕ → ℕ → Bytes
slice bytes start stop = take (stop - start) (drop start bytes)

abbrev pub join_u16 : ℕ → ℕ → ℕ
join_u16 a b = a * 2 ^ 8 + b

abbrev pub join_u32 : ℕ → ℕ → ℕ → ℕ → ℕ
join_u32 a b c d = a * 2 ^ 24 + b * 2 ^ 16 + c * 2 ^ 8 + d

abbrev pub first_u16 : Bytes → Outcome ℕ
first_u16 (a ∷ b ∷ rest) = pure (join_u16 a b)
first_u16 _ = err struct_error

abbrev pub first_u32 : Bytes → Outcome ℕ
first_u32 (a ∷ b ∷ c ∷ d ∷ rest) = pure (join_u32 a b c d)
first_u32 _ = err struct_error

-- `struct.unpack_from("!H", data, offset)` and `"!I"`.
unfoldable pub u16_at : Bytes → ℕ → Outcome ℕ
u16_at bytes offset = first_u16 (drop offset bytes)

unfoldable pub u32_at : Bytes → ℕ → Outcome ℕ
u32_at bytes offset = first_u32 (drop offset bytes)

unfoldable pub first_u32s : ℕ → Bytes → Outcome (List ℕ)
first_u32s zero bytes = pure []
first_u32s (suc n) (a ∷ b ∷ c ∷ d ∷ rest) = do
  more ← first_u32s n rest
  pure (join_u32 a b c d ∷ more)
first_u32s (suc n) _ = err struct_error

-- `struct.unpack_from(f"!{n}I", data, offset)`.
unfoldable pub u32s_at : ℕ → Bytes → ℕ → Outcome (List ℕ)
unfolding first_u32s
u32s_at n bytes offset = first_u32s n (drop offset bytes)

abbrev pub split_u16 : ℕ → Bytes
split_u16 n = n / 2 ^ 8 ∷ n % 2 ^ 8 ∷ []

abbrev pub split_u32 : ℕ → Bytes
split_u32 n = n / 2 ^ 24 ∷ n / 2 ^ 16 % 2 ^ 8 ∷ n / 2 ^ 8 % 2 ^ 8 ∷ n % 2 ^ 8 ∷ []

-- `struct.pack("B", z)`, `"!H"` and `"!I"`: out of range is a `struct.error`.
unfoldable pub pack_u8 : ℤ → Outcome Bytes
pack_u8 (pos n) = if ltb n (2 ^ 8) then pure (n ∷ []) else err struct_error
pack_u8 (negsuc n) = err struct_error

unfoldable pub pack_u16 : ℤ → Outcome Bytes
pack_u16 (pos n) = if ltb n (2 ^ 16) then pure (split_u16 n) else err struct_error
pack_u16 (negsuc n) = err struct_error

unfoldable pub pack_u32 : ℤ → Outcome Bytes
pack_u32 (pos n) = if ltb n (2 ^ 32) then pure (split_u32 n) else err struct_error
pack_u32 (negsuc n) = err struct_error

-- `struct.pack(f"!{len(zs)}I", *zs)`.
unfoldable pub pack_u32s : List ℤ → Outcome Bytes
unfolding pack_u32
pack_u32s [] = pure []
pack_u32s (z ∷ zs) = do first ← pack_u32 z; rest ← pack_u32s zs; pure (first ++ rest)

-- `b"\x00" * n`.
abbrev pub zeros : ℕ → Bytes
zeros n = replicate n 0

-- `(-n) % 4`: the bytes that are missing to a multiple of four.
abbrev pub align_gap : ℕ → ℕ
align_gap n = (4 - n % 4) % 4
