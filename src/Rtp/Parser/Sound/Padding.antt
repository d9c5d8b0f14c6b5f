-- ===== src/Rtp/Parser/Sound/Padding.antt =====
-- The payload and the padding that the strict parser reads.
use rtpkit.Common.{
  ℕ, zero, suc, ◌+◌, ◌-◌, ◌≤◌, ◌≡◌, refl, sym, ap, ◌∙◌, Bool, true, false, [], ◌∷◌, ◌++◌, arith,
  length, take, drop, ltb, ltb→ge, length-take, length-drop, ==_suc, take-append-drop, drop-drop,
  Bool-cases, inl, inr,
}
use rtpkit.Outcome.{ok}
use rtpkit.Outcome.Laws.{Ensures, Ensures-bind, Ensures-self, Any}
use rtpkit.Wire.{Bytes, byte_at, first_byte, slice}
use rtpkit.Wire.Read.{byte_at-IsQuiet}
use rtpkit.Rtp.Parser.{use_pad_count, parse_padding}
use rtpkit.Rtp.Layout.{IsPadding}
use rtpkit.Rtp.Parser.Sound.Header.{drop_front, length_tail}
use rtpkit.Rtp.Parser.Sound.Sections.{size}

-- A string that ends in `n`.
pub last_split :
    (xs : Bytes) (n : ℕ)
    → byte_at xs (length xs - 1) ≡ ok n []
    → xs ≡ take (length xs - 1) xs ++ (n ∷ [])
unfolding byte_at
last_split xs n h =
    sym (take-append-drop (length xs - 1) xs) ∙ ap (◌++◌ (take (length xs - 1) xs)) last
  where
    single : (ys : Bytes) → length ys ≤ 1 → first_byte ys ≡ ok n [] → ys ≡ n ∷ []
    single [] k q = absurd (cc)
    single (y ∷ []) k q = cc
    single (y ∷ z ∷ ys) k q = absurd (omega arith)

    last : drop (length xs - 1) xs ≡ n ∷ []
    last = single _ (omega (arith, length-drop (length xs - 1) xs)) h

abbrev pub PaddingRead : Bytes → Bytes → Bool → ℕ → ℕ × ℕ → Type 0
PaddingRead bytes tail flag offset (size, stop) =
    (pad : Bytes) × (tail ≡ slice bytes offset stop ++ pad) × IsPadding flag size pad

module _ (bytes front tail : Bytes) (offset : ℕ) (e : bytes ≡ front ++ tail)
    (at : offset ≡ length front) where
  pub payload_eq : (stop : ℕ) → slice bytes offset stop ≡ take (stop - offset) tail
  payload_eq stop = ap (take (stop - offset)) (drop_front bytes front tail offset e at)

  pub cut_at : (stop k : ℕ) → stop - offset ≡ k → tail ≡ slice bytes offset stop ++ drop k tail
  cut_at stop k q =
      sym (take-append-drop k tail)
      ∙ ap (λ (piece : Bytes). piece ++ drop k tail)
          (sym (payload_eq stop ∙ ap (λ (i : ℕ). take i tail) q))

  pub no_padding : PaddingRead bytes tail false offset (0, length bytes)
  no_padding =
      (drop (length tail) tail, cut_at (length bytes) (length tail) tail_eq, (refl, nothing tail))
    where
      tail_eq : length bytes - offset ≡ length tail
      tail_eq = omega (arith, length_tail bytes front tail offset e at)

      nothing : (xs : Bytes) → drop (length xs) xs ≡ []
      nothing [] = refl
      nothing (x ∷ xs) = nothing xs

  module _ (n : ℕ) (last : byte_at bytes (length bytes - 1) ≡ ok n []) (pos : 1 ≤ n)
      (fits : n ≤ length tail) where
    abbrev payload_size : ℕ
    payload_size = length tail - n

    abbrev padding : Bytes
    padding = drop payload_size tail

    length-padding : length padding ≡ n
    length-padding = omega (arith, length-drop payload_size tail)

    last_of_padding : byte_at padding (length padding - 1) ≡ ok n []
    unfolding byte_at
    last_of_padding =
        ap first_byte (
          drop-drop (length padding - 1) payload_size tail
          ∙ ap (drop (payload_size + (length padding - 1)))
              (sym (drop_front bytes front tail offset e at))
          ∙ drop-drop (payload_size + (length padding - 1)) offset bytes
          ∙ ap (λ (i : ℕ). drop i bytes) index)
        ∙ last
      where
        index : offset + (payload_size + (length padding - 1)) ≡ length bytes - 1
        index = omega (arith, length-padding, length_tail bytes front tail offset e at)

    padding_cut : PaddingRead bytes tail true offset (n, length bytes - n)
    padding_cut = (
      padding,
      cut_at (length bytes - n) payload_size
          (omega (arith, length_tail bytes front tail offset e at)),
      (
        take (length padding - 1) padding,
        last_split padding n last_of_padding,
        omega (arith, length-padding, length-take (length padding - 1) padding),
      ),
    )

  pub use_pad_count_sound :
      (n : ℕ)
      → byte_at bytes (length bytes - 1) ≡ ok n []
      → Ensures Any
          (PaddingRead bytes tail true offset)
          (use_pad_count true (length bytes) (length bytes - offset) n)
  unfolding use_pad_count
  use_pad_count_sound zero last = tt
  use_pad_count_sound (suc n) last = elim (Bool-cases (ltb (length bytes - offset) (suc n))) [
    | inl cut ↦ rw (==_suc n, cut) tt
    | inr fits ↦
        rw (==_suc n, fits)
          (padding_cut (suc n) last (omega arith)
            (omega (arith, ltb→ge _ _ fits, length_tail bytes front tail offset e at)))
  ]

  pub parse_padding_sound :
      (flag : Bool)
      → Ensures Any (PaddingRead bytes tail flag offset) (parse_padding true bytes flag offset)
  unfolding parse_padding
  parse_padding_sound false = no_padding
  parse_padding_sound true = elim (Bool-cases (ltb (length bytes - offset) 1)) [
    | inl empty ↦ rw empty tt
    | inr fits ↦ rw fits (
        Ensures-bind Any _ _ (byte_at bytes (length bytes - 1)) _
          (Ensures-self (byte_at bytes (length bytes - 1))
            (byte_at-IsQuiet bytes (length bytes - 1)))
          use_pad_count_sound)
  ]
