-- ===== src/Rtp/Extension/RoundTrip.antt =====
-- The elements that `build_header_extension` writes are those that `parse_extension_elements` reads.
use rtpkit.Common.{
  ℕ, zero, suc, ◌+◌, ◌-◌, ◌*◌, ◌/◌, ◌^◌, ◌≤◌, ◌≡◌, refl, ap, false, not, List, [], ◌∷◌, ◌++◌, arith,
  length, length-append, length-replicate, take-append, drop-append, append_assoc, bit_and, bit_or,
  ltb, ge→ltb, ◌==◌,
}
use rtpkit.Common.Bits.{shr, shl, bit_and-mask, bit_or-disjoint}
use rtpkit.Common.Int.{ℤ, pos, pos_part, in_range, InRange, not_in_range→InRange}
use rtpkit.Outcome.{Outcome, ok, ◌>>=◌, pure, raise_if}
use rtpkit.Outcome.Laws.{Any, Ensures, Ensures-bind, Ensures-ok, raise_if-Ensures}
use rtpkit.Wire.{Bytes, zeros, align_gap}
use rtpkit.Wire.Write.{align_gap_lem}
use rtpkit.Rtp.{HeaderExtension}
use rtpkit.Rtp.Extension.{
  ExtensionElement, ExtensionProfile, unknown, one_byte, two_byte, classify, classify_profile,
  one_byte_magic, two_byte_value, one_byte_loop, parse_one_byte, two_byte_loop, parse_two_byte,
  parse_elements_as, parse_extension_elements, build_one_byte, build_two_byte, pad_body,
  build_header_extension,
}

-- Zero bytes are skipped, whatever their number.
one_byte_loop-zeros : (fuel k : ℕ) → k ≤ fuel → one_byte_loop fuel (zeros k) ≡ ok [] []
unfolding one_byte_loop
one_byte_loop-zeros zero zero h = refl
one_byte_loop-zeros (suc fuel) zero h = refl
one_byte_loop-zeros zero (suc k) h = absurd (omega arith)
one_byte_loop-zeros (suc fuel) (suc k) h = one_byte_loop-zeros fuel k (omega arith)

two_byte_loop-zeros : (fuel k : ℕ) → k ≤ fuel → two_byte_loop fuel (zeros k) ≡ ok [] []
unfolding two_byte_loop
two_byte_loop-zeros zero zero h = refl
two_byte_loop-zeros (suc fuel) zero h = refl
two_byte_loop-zeros zero (suc k) h = absurd (omega arith)
two_byte_loop-zeros (suc zero) (suc zero) h = refl
two_byte_loop-zeros (suc (suc fuel)) (suc zero) h = refl
two_byte_loop-zeros (suc fuel) (suc (suc k)) h = two_byte_loop-zeros fuel (suc k) (omega arith)

-- One round on the encoding of an element, whatever follows.
one_byte_loop_step :
    (fuel byte n : ℕ) (body tail : Bytes)
    → (1 ≤ n) × (n ≤ 14)
    → (1 ≤ length body) × (length body ≤ 16)
    → byte ≡ n * 2 ^ 4 + (length body - 1)
    → one_byte_loop (suc fuel) (byte ∷ (body ++ tail))
      ≡ (one_byte_loop fuel tail >>= (λ es. pure (record { id = pos n; body = body } ∷ es)))
unfolding one_byte_loop
one_byte_loop_step fuel byte n body tail hn hb e = rw (
  not_padding,
  id_eq,
  not_reserved,
  len_eq,
  enough,
  take-append (length body) body tail refl,
  drop-append (length body) body tail refl,
)
  where
    not_padding : (byte == 0) ≡ false
    not_padding = ground arith

    id_eq : bit_and (shr byte 4) 0x0f ≡ n
    id_eq = omega (arith, bit_and-mask 4 (shr byte 4))

    not_reserved : (n == 15) ≡ false
    not_reserved = ground arith

    len_eq : bit_and byte 0x0f + 1 ≡ length body
    len_eq = omega (arith, bit_and-mask 4 byte)

    enough : ltb (length (body ++ tail)) (length body) ≡ false
    enough = ge→ltb _ _ (omega (arith, length-append body tail))

two_byte_loop_step :
    (fuel n : ℕ) (body tail : Bytes)
    → 1 ≤ n
    → two_byte_loop (suc fuel) (n ∷ length body ∷ (body ++ tail))
      ≡ (two_byte_loop fuel tail >>= (λ es. pure (record { id = pos n; body = body } ∷ es)))
unfolding two_byte_loop
two_byte_loop_step fuel n body tail hn = rw (
  not_padding,
  enough,
  take-append (length body) body tail refl,
  drop-append (length body) body tail refl,
)
  where
    not_padding : (n == 0) ≡ false
    not_padding = ground arith

    enough : ltb (length (body ++ tail)) (length body) ≡ false
    enough = ge→ltb _ _ (omega (arith, length-append body tail))

-- The loop reads `es` off these bytes and any number of zeros.
abbrev ReadsBack :
    (ℕ → Bytes → Outcome (List ExtensionElement)) → List ExtensionElement → Bytes → Type 0
ReadsBack loop es bytes =
    (fuel k : ℕ) → length bytes + k ≤ fuel → loop fuel (bytes ++ zeros k) ≡ ok es []

one_byte_element-ReadsBack :
    (id : ℤ) (body rest : Bytes) (es : List ExtensionElement)
    → InRange 1 14 id
    → InRange 1 16 (pos (length body))
    → ReadsBack one_byte_loop es rest
    → ReadsBack one_byte_loop
        (record { id = id; body = body } ∷ es)
        (bit_or (shl (pos_part id) 4) (length body - 1) ∷ (body ++ rest))
one_byte_element-ReadsBack id body rest es (n, id_eq, n_ge, n_le) (m, len_eq, m_ge, m_le) reads zero
      k h =
    absurd (omega arith)
one_byte_element-ReadsBack id body rest es (n, id_eq, n_ge, n_le) (m, len_eq, m_ge, m_le) reads
      (suc fuel) k h =
    rw (
      id_eq,
      append_assoc body rest (zeros k),
      one_byte_loop_step fuel byte n body (rest ++ zeros k) (n_ge, n_le) size byte_eq,
      reads fuel k (omega (arith, length-append body rest)),
    )
  where
    size : (1 ≤ length body) × (length body ≤ 16)
    size = omega (arith, ap pos_part len_eq)

    byte : ℕ
    byte = bit_or (n * 2 ^ 4) (length body - 1)

    byte_eq : byte ≡ n * 2 ^ 4 + (length body - 1)
    byte_eq = bit_or-disjoint 4 n (n * 2 ^ 4) (length body - 1) refl (omega (arith, size))

two_byte_element-ReadsBack :
    (id : ℤ) (body rest : Bytes) (es : List ExtensionElement)
    → InRange 1 255 id
    → ReadsBack two_byte_loop es rest
    → ReadsBack two_byte_loop
        (record { id = id; body = body } ∷ es)
        (pos_part id ∷ length body ∷ (body ++ rest))
two_byte_element-ReadsBack id body rest es (n, id_eq, n_ge, n_le) reads zero k h =
    absurd (omega arith)
two_byte_element-ReadsBack id body rest es (n, id_eq, n_ge, n_le) reads (suc fuel) k h = rw (
  id_eq,
  append_assoc body rest (zeros k),
  two_byte_loop_step fuel n body (rest ++ zeros k) n_ge,
  reads fuel k (omega (arith, length-append body rest)),
)

build_one_byte-ReadsBack :
    (es : List ExtensionElement) → Ensures Any (ReadsBack one_byte_loop es) (build_one_byte es)
unfolding build_one_byte
build_one_byte-ReadsBack [] = λ fuel k h. one_byte_loop-zeros fuel k (omega arith)
build_one_byte-ReadsBack (e ∷ es) =
    Ensures-bind _ _ _ (raise_if (not (in_range 1 14 e.id)) _) _ (raise_if-Ensures Any _ _ tt)
      (λ _ id_in.
        Ensures-bind _ _ _ (raise_if (not (in_range 1 16 (pos (length e.body)))) _) _
          (raise_if-Ensures Any _ _ tt)
          (λ _ len_in.
            Ensures-bind _ _ _ (build_one_byte es) _ (build_one_byte-ReadsBack es) (λ rest reads.
              one_byte_element-ReadsBack e.id e.body rest es (not_in_range→InRange 1 14 e.id id_in)
                (not_in_range→InRange 1 16 _ len_in) reads)))

build_two_byte-ReadsBack :
    (es : List ExtensionElement) → Ensures Any (ReadsBack two_byte_loop es) (build_two_byte es)
unfolding build_two_byte
build_two_byte-ReadsBack [] = λ fuel k h. two_byte_loop-zeros fuel k (omega arith)
build_two_byte-ReadsBack (e ∷ es) =
    Ensures-bind _ _ _ (raise_if (not (in_range 1 255 e.id)) _) _ (raise_if-Ensures Any _ _ tt)
      (λ _ id_in.
        Ensures-bind _ _ _ (raise_if (ltb 255 (length e.body)) _) _ (raise_if-Ensures Any _ _ tt)
          (λ _ _.
            Ensures-bind _ _ _ (build_two_byte es) _ (build_two_byte-ReadsBack es) (λ rest reads.
              two_byte_element-ReadsBack e.id e.body rest es (not_in_range→InRange 1 255 e.id id_in)
                reads)))

-- What a built extension is: whole words, and its elements are those that it was built from.
abbrev pub IsBuiltFrom : List ExtensionElement → HeaderExtension → Type 0
IsBuiltFrom es ext =
    (ext.length_words * 4 ≡ length ext.body) × (parse_extension_elements ext ≡ ok es [])

padded_length :
    (body : Bytes)
    → length (body ++ zeros (align_gap (length body))) ≡ length body + align_gap (length body)
padded_length body = omega (
  arith,
  length-append body (zeros (align_gap (length body))),
  length-replicate {A = ℕ} (align_gap (length body)) 0,
)

whole_words :
    (body : Bytes)
    → length (body ++ zeros (align_gap (length body))) / 4 * 4
      ≡ length (body ++ zeros (align_gap (length body)))
whole_words body = omega (arith, padded_length body, align_gap_lem (length body))

pad_body-IsBuiltFrom_one :
    (es : List ExtensionElement) (body : Bytes)
    → ReadsBack one_byte_loop es body
    → IsBuiltFrom es (pad_body one_byte_magic body)
unfolding parse_extension_elements parse_elements_as classify classify_profile parse_one_byte
    pad_body
pad_body-IsBuiltFrom_one es body reads =
    (whole_words body, reads _ (align_gap (length body)) (omega (arith, padded_length body)))

pad_body-IsBuiltFrom_two :
    (es : List ExtensionElement) (body : Bytes)
    → ReadsBack two_byte_loop es body
    → IsBuiltFrom es (pad_body two_byte_value body)
unfolding parse_extension_elements parse_elements_as classify classify_profile parse_two_byte
    pad_body
pad_body-IsBuiltFrom_two es body reads =
    (whole_words body, reads _ (align_gap (length body)) (omega (arith, padded_length body)))

pub build_header_extension-Ensures :
    (es : List ExtensionElement) (kind : ExtensionProfile)
    → Ensures Any (IsBuiltFrom es) (build_header_extension es kind)
unfolding build_header_extension
build_header_extension-Ensures es unknown = tt
build_header_extension-Ensures es one_byte =
    Ensures-bind Any _ _ (build_one_byte es) _ (build_one_byte-ReadsBack es)
      (pad_body-IsBuiltFrom_one es)
build_header_extension-Ensures es two_byte =
    Ensures-bind Any _ _ (build_two_byte es) _ (build_two_byte-ReadsBack es)
      (pad_body-IsBuiltFrom_two es)

-- If `build_header_extension` returns an extension for some elements and a profile family, then
-- `parse_extension_elements` reads just those elements off it, in their order and in spite of the zero
-- bytes that end the body, and its length field counts the 32-bit words of the body.
pub parse_extension_elements-build_header_extension :
    (es : List ExtensionElement) (kind : ExtensionProfile) {ext : HeaderExtension}
    → build_header_extension es kind ≡ ok ext []
    → (parse_extension_elements ext ≡ ok es []) × (ext.length_words * 4 ≡ length ext.body)
parse_extension_elements-build_header_extension es kind h =
    let (whole, parsed) =
      Ensures-ok Any (IsBuiltFrom es) (build_header_extension es kind)
        (build_header_extension-Ensures es kind) h in
    (parsed, whole)
