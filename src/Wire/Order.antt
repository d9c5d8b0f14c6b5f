-- ===== src/Wire/Order.antt =====
-- The formats H and I of the `struct` module in either byte order.
use rtpkit.Common.{ℕ, ◌/◌, ◌%◌, ◌^◌, [], ◌∷◌, ltb, drop, if◌then◌else◌}
use rtpkit.Common.Int.{ℤ, pos, negsuc}
use rtpkit.Errors.{struct_error}
use rtpkit.Outcome.{Outcome, err, pure}
use rtpkit.Wire.{Bytes, join_u16, join_u32, u16_at, u32_at}

-- The prefixes `>` and `<` of a format.
pub data ByteOrder : Type 0 where
  big little : ByteOrder

abbrev pub first_u16_le : Bytes → Outcome ℕ
first_u16_le (a ∷ b ∷ rest) = pure (join_u16 b a)
first_u16_le _ = err struct_error

abbrev pub first_u32_le : Bytes → Outcome ℕ
first_u32_le (a ∷ b ∷ c ∷ d ∷ rest) = pure (join_u32 d c b a)
first_u32_le _ = err struct_error

-- `struct.unpack_from(f"{order}H", data, offset)`, and with I.
unfoldable pub ordered_u16_at : ByteOrder → Bytes → ℕ → Outcome ℕ
ordered_u16_at big bytes offset = u16_at bytes offset
ordered_u16_at little bytes offset = first_u16_le (drop offset bytes)

unfoldable pub ordered_u32_at : ByteOrder → Bytes → ℕ → Outcome ℕ
ordered_u32_at big bytes offset = u32_at bytes offset
ordered_u32_at little bytes offset = first_u32_le (drop offset bytes)

abbrev pub split_u32_le : ℕ → Bytes
split_u32_le n = n % 2 ^ 8 ∷ n / 2 ^ 8 % 2 ^ 8 ∷ n / 2 ^ 16 % 2 ^ 8 ∷ n / 2 ^ 24 ∷ []

-- `struct.pack("<H", z)` and `"<I"`.
unfoldable pub pack_u16_le : ℤ → Outcome Bytes
pack_u16_le (pos n) = if ltb n (2 ^ 16) then pure (n % 2 ^ 8 ∷ n / 2 ^ 8 ∷ []) else err struct_error
pack_u16_le (negsuc n) = err struct_error

unfoldable pub pack_u32_le : ℤ → Outcome Bytes
pack_u32_le (pos n) = if ltb n (2 ^ 32) then pure (split_u32_le n) else err struct_error
pack_u32_le (negsuc n) = err struct_error
