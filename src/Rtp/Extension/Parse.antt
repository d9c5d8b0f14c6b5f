-- ===== src/Rtp/Extension/Parse.antt =====
-- Parsing the elements of any extension ends, raises nothing, and returns elements that fit the format.
use rtpkit.Common.{
  Bool-cases, inl, inr, ◌⊎◌, ◌/◌, ℕ, zero, suc, ◌+◌, ◌%◌, ◌^◌, ◌≤◌, ◌<◌, ◌≡◌, refl, false, List, [],
  ◌∷◌, arith, length, take, drop, length-take, length-drop, All, bit_and, ltb, ◌==◌,
}
use rtpkit.Common.Bits.{shr, bit_and-mask}
use rtpkit.Common.Int.{pos}
use rtpkit.Outcome.Laws.{Ensures, Ensures-bind, Ensures-mono, Ensures-if}
use rtpkit.Wire.{Bytes, IsByte}
use rtpkit.Wire.Read.{All-drop}
use rtpkit.Rtp.{HeaderExtension}
use rtpkit.Rtp.Extension.{
  ExtensionElement, ExtensionProfile, unknown, one_byte, two_byte, classify, one_byte_loop,
  parse_one_byte, two_byte_loop, parse_two_byte, parse_elements_as, parse_extension_elements,
}

-- What an element that is read in each format looks like. In the one-byte format an id of 0 stands for padding,
-- but only the byte 0 is skipped: an element of two bytes or more is read with the id 0 too.
abbrev pub ElementFits : ExtensionProfile → ExtensionElement → Type 0
ElementFits unknown e = ⊥
ElementFits one_byte e =
    (n : ℕ) × (e.id ≡ pos n)
    × (((1 ≤ n) × (n ≤ 14) × (1 ≤ length e.body)) ⊎ ((n ≡ 0) × (2 ≤ length e.body)))
    × (length e.body ≤ 16)
ElementFits two_byte e = (n : ℕ) × (e.id ≡ pos n) × (1 ≤ n) × (n < 2 ^ 8) × (length e.body < 2 ^ 8)

abbrev pub element_overhead : ExtensionProfile → ℕ
element_overhead unknown = 0
element_overhead one_byte = 1
element_overhead two_byte = 2

abbrev pub encoded_size : ExtensionProfile → List ExtensionElement → ℕ
encoded_size kind [] = 0
encoded_size kind (e ∷ es) = element_overhead kind + length e.body + encoded_size kind es

-- The elements fit the format, and their encodings together fit in `size` bytes.
abbrev pub ElementsFit : ExtensionProfile → ℕ → List ExtensionElement → Type 0
ElementsFit kind size es = All (ElementFits kind) es × (encoded_size kind es ≤ size)

grow :
    (kind : ExtensionProfile) (m n : ℕ) (es : List ExtensionElement)
    → m ≤ n
    → ElementsFit kind m es
    → ElementsFit kind n es
grow kind m n es h (fits, size) = (fits, omega arith)

id_cases :
    (byte n size : ℕ)
    → byte < 2 ^ 8
    → (byte == 0) ≡ false
    → n ≡ byte / 16 % 16
    → (n == 15) ≡ false
    → size ≡ byte % 16 + 1
    → ((1 ≤ n) × (n ≤ 14) × (1 ≤ size)) ⊎ ((n ≡ 0) × (2 ≤ size))
id_cases byte n size small nonzero high id_ne e = elim (Bool-cases (n == 0)) [
  | inl padding_id ↦ inr (ground arith, ground arith)
  | inr other ↦ inl (ground arith, ground arith, omega arith)
]

one_byte_loop-Ensures :
    (fuel : ℕ) (bytes : Bytes)
    → length bytes ≤ fuel
    → All IsByte bytes
    → Ensures (λ _. ⊥) (ElementsFit one_byte (length bytes)) (one_byte_loop fuel bytes)
unfolding one_byte_loop
one_byte_loop-Ensures zero [] h k = (tt, omega arith)
one_byte_loop-Ensures (suc fuel) [] h k = (tt, omega arith)
one_byte_loop-Ensures zero (byte ∷ rest) h k = absurd (omega arith)
one_byte_loop-Ensures (suc fuel) (byte ∷ rest) h (is_byte, k) =
    Ensures-if _ _ (byte == 0) _ _
      (λ _.
        Ensures-mono _ _ _ _ (one_byte_loop fuel rest)
          (one_byte_loop-Ensures fuel rest (omega arith) k) (λ e p. p)
          (λ es fits. grow one_byte (length rest) _ es (omega arith) fits))
      (λ nonzero.
        Ensures-if _ _ (bit_and (shr byte 4) 0x0f == 15) _ _ (λ _. (tt, omega arith))
          (λ id_ne.
            Ensures-if _ _ (ltb (length rest) len) _ _ (λ _. (tt, omega arith))
              (λ fits.
                Ensures-bind _ _ _ (one_byte_loop fuel (drop len rest)) _
                  (one_byte_loop-Ensures fuel (drop len rest) (omega (arith, length-drop len rest))
                    (All-drop len rest k))
                  (λ es (all, size). (
                    (
                      (
                        _,
                        refl,
                        read_id nonzero id_ne (length (take len rest)) (omega (arith, taken fits)),
                        omega (arith, taken fits, mask),
                      ),
                      all,
                    ),
                    omega (arith, taken fits, length-drop len rest),
                  )))))
  where
    len : ℕ
    len = bit_and byte 0x0f + 1

    mask : len ≡ byte % 16 + 1
    mask = omega (arith, bit_and-mask 4 byte)

    taken : ltb (length rest) len ≡ false → (length (take len rest) ≡ len) × (len ≤ length rest)
    taken h = (ground (arith, length-take len rest), ground arith)

    elem_id : ℕ
    elem_id = bit_and (shr byte 4) 0x0f

    high : elem_id ≡ byte / 2 ^ 4 % 16
    high = bit_and-mask 4 (shr byte 4)

    read_id :
        (byte == 0) ≡ false
        → (elem_id == 15) ≡ false
        → (size : ℕ) → size ≡ len
        → ((1 ≤ elem_id) × (elem_id ≤ 14) × (1 ≤ size)) ⊎ ((elem_id ≡ 0) × (2 ≤ size))
    read_id nonzero id_ne size e =
        id_cases byte elem_id size is_byte nonzero (omega (arith, high)) id_ne
          (omega (arith, e, mask))

two_byte_loop-Ensures :
    (fuel : ℕ) (bytes : Bytes)
    → length bytes ≤ fuel
    → All IsByte bytes
    → Ensures (λ _. ⊥) (ElementsFit two_byte (length bytes)) (two_byte_loop fuel bytes)
unfolding two_byte_loop
two_byte_loop-Ensures zero [] h k = (tt, omega arith)
two_byte_loop-Ensures (suc fuel) [] h k = (tt, omega arith)
two_byte_loop-Ensures zero (byte ∷ rest) h k = absurd (omega arith)
two_byte_loop-Ensures (suc fuel) (byte ∷ []) h k =
    Ensures-if _ _ (byte == 0) _ _
      (λ _.
        Ensures-mono (λ _. ⊥) _ (ElementsFit two_byte 0) _ (two_byte_loop fuel [])
          (two_byte_loop-Ensures fuel [] (omega arith) tt) (λ e p. p)
          (λ es fits. grow two_byte 0 1 es (omega arith) fits))
      (λ _. (tt, omega arith))
two_byte_loop-Ensures (suc fuel) (byte ∷ len ∷ rest) h (small, (small_len, k)) =
    Ensures-if _ _ (byte == 0) _ _
      (λ _.
        Ensures-mono _ _ _ _ (two_byte_loop fuel (len ∷ rest))
          (two_byte_loop-Ensures fuel (len ∷ rest) (omega arith) (small_len, k)) (λ e p. p)
          (λ es fits. grow two_byte (length (len ∷ rest)) _ es (omega arith) fits))
      (λ id_ne.
        Ensures-if _ _ (ltb (length rest) len) _ _ (λ _. (tt, omega arith))
          (λ fits.
            Ensures-bind _ _ _ (two_byte_loop fuel (drop len rest)) _
              (two_byte_loop-Ensures fuel (drop len rest) (omega (arith, length-drop len rest))
                (All-drop len rest k))
              (λ es (all, size). (
                ((byte, refl, ground arith, small, omega (arith, taken fits)), all),
                omega (arith, taken fits, length-drop len rest),
              ))))
  where
    taken : ltb (length rest) len ≡ false → (length (take len rest) ≡ len) × (len ≤ length rest)
    taken h = (ground (arith, length-take len rest), ground arith)

-- For every extension whose body is made of bytes: parsing its elements ends and raises nothing. In the
-- two-byte format the elements have ids from 1 to 255 and fewer than 256 bytes; in the one-byte format ids from
-- 1 to 14 and 1 to 16 bytes, or the id 0, which the format keeps for padding, and 2 to 16 bytes; in an unknown one there are none. Their
-- encodings together take no more than the bytes of the body.
pub parse_extension_elements-ElementsFit :
    (ext : HeaderExtension)
    → All IsByte ext.body
    → Ensures (λ _. ⊥) (ElementsFit (classify ext) (length ext.body)) (parse_extension_elements ext)
unfolding parse_extension_elements parse_elements_as parse_one_byte parse_two_byte
parse_extension_elements-ElementsFit ext h = by_kind (classify ext)
  where
    by_kind :
        (kind : ExtensionProfile)
        → Ensures (λ _. ⊥) (ElementsFit kind (length ext.body)) (parse_elements_as kind ext.body)
    by_kind unknown = (tt, omega arith)
    by_kind one_byte = one_byte_loop-Ensures (length ext.body) ext.body (omega arith) h
    by_kind two_byte = two_byte_loop-Ensures (length ext.body) ext.body (omega arith) h
