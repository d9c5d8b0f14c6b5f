-- ===== src/Rtp/Parser/Sound/Sections.antt =====
-- The CSRC list and the header extension that the strict parser reads.
use rtpkit.Common.{
  ℕ, zero, suc, ◌+◌, ◌-◌, ◌*◌, ◌≤◌, ◌<◌, ◌≡◌, refl, sym, ap, ◌∙◌, Bool, true, false, Option, List,
  [], ◌∷◌, ◌++◌, arith, length, take, drop, truthy, truthy-suc, ltb, ltb→ge, length-append,
  take-append-drop, append_assoc, All, Bool-cases, inl, inr, if◌then◌else◌,
}
use rtpkit.Outcome.{ok, pure}
use rtpkit.Outcome.Laws.{Ensures, Ensures-bind, Any}
use rtpkit.Wire.{Bytes, IsByte, u16_at, u32s_at, slice, join_u16, split_u16}
use rtpkit.Wire.Write.{words}
use rtpkit.Wire.Read.{length-slice}
use rtpkit.Rtp.{HeaderExtension, extension_size}
use rtpkit.Rtp.Parser.{fit_csrc, parse_csrc, cut_body, parse_extension_body, parse_extension}
use rtpkit.Rtp.Layout.{extension_bytes, IsExtension}
use rtpkit.Rtp.Parser.Sound.Header.{split-join_u16, first_u32s_sound, drop_front, length_tail}

pub fit_csrc_strict : (buf_len n : ℕ) → Ensures Any (λ k. k ≡ n) (fit_csrc true buf_len n)
unfolding fit_csrc
fit_csrc_strict buf_len n = ground arith

-- What a stage has read: `piece` stands at the front of `tail`.
abbrev pub Leads : Bytes → Bytes → Type 0
Leads piece tail = (rest : Bytes) × (tail ≡ piece ++ rest)

abbrev pub CsrcRead : Bytes → ℕ → List ℕ × ℕ → Type 0
CsrcRead tail n (csrc, stop) =
    (length csrc ≡ n) × (stop ≡ 12 + length csrc * 4) × Leads (words csrc) tail

module _ (bytes front tail : Bytes) (e : bytes ≡ front ++ tail) (all : All IsByte tail) where
  pub csrc_words_sound :
      (n : ℕ)
      → 12 ≡ length front
      → Ensures Any
          (λ ns. (length ns ≡ n) × Leads (words ns) tail)
          (if truthy n then u32s_at n bytes 12 else pure [])
  unfolding u32s_at
  csrc_words_sound zero at = (refl, (tail, refl))
  csrc_words_sound (suc n) at =
      rw (truthy-suc n, drop_front bytes front tail 12 e at) (first_u32s_sound (suc n) tail all)

  pub parse_csrc_sound :
      (n : ℕ) → 12 ≡ length front → Ensures Any (CsrcRead tail n) (parse_csrc true bytes n)
  unfolding parse_csrc
  parse_csrc_sound n at =
      Ensures-bind Any _ _ (fit_csrc true (length bytes) n) _ (fit_csrc_strict (length bytes) n)
        λ k q.
          Ensures-bind Any _ _ (if truthy k then u32s_at k bytes 12 else pure []) _
            (csrc_words_sound k at) λ ns (len, lead). (len ∙ q, omega arith, lead)

abbrev pub ExtensionRead : Bytes → Bool → ℕ → Option HeaderExtension × ℕ → Type 0
ExtensionRead tail flag offset (ext, stop) =
    IsExtension flag ext × (stop ≡ offset + extension_size ext) × Leads (extension_bytes ext) tail

-- A buffer with an extension's header at `offset`.
module _ (bytes front rest : Bytes) (offset a b c d : ℕ)
    (e : bytes ≡ front ++ (a ∷ b ∷ c ∷ d ∷ rest)) (ha : a < 256) (hb : b < 256) (hc : c < 256)
    (hd : d < 256) (at : offset ≡ length front) where
  pub profile_read : u16_at bytes offset ≡ ok (join_u16 a b) []
  unfolding u16_at
  profile_read = rw (drop_front bytes front (a ∷ b ∷ c ∷ d ∷ rest) offset e at)

  pub words_read : u16_at bytes (offset + 2) ≡ ok (join_u16 c d) []
  unfolding u16_at
  words_read = rw (
      drop_front bytes (front ++ (a ∷ b ∷ [])) (c ∷ d ∷ rest) (offset + 2)
        (e ∙ sym (append_assoc front (a ∷ b ∷ []) (c ∷ d ∷ rest)))
        (omega (arith, length-append front (a ∷ b ∷ []))))

  pub rest_dropped : drop (offset + 4) bytes ≡ rest
  rest_dropped =
      drop_front bytes (front ++ (a ∷ b ∷ c ∷ d ∷ [])) rest (offset + 4)
        (e ∙ sym (append_assoc front (a ∷ b ∷ c ∷ d ∷ []) rest))
        (omega (arith, length-append front (a ∷ b ∷ c ∷ d ∷ [])))

  abbrev pub size : ℕ
  size = join_u16 c d * 4

  pub body_eq : slice bytes (offset + 4) (offset + 4 + size) ≡ take size rest
  body_eq = λ i. take (size_eq i) (rest_dropped i)
    where
      size_eq : offset + 4 + size - (offset + 4) ≡ size
      size_eq = omega arith

  pub tail_eq :
      a ∷ b ∷ c ∷ d ∷ rest
      ≡ split_u16 (join_u16 a b)
        ++ (split_u16 (join_u16 c d)
            ++ (slice bytes (offset + 4) (offset + 4 + size) ++ drop size rest))
  tail_eq =
      split-join_u16 a b (c ∷ d ∷ rest) ha hb
      ∙ ap (◌++◌ (split_u16 (join_u16 a b))) (
          split-join_u16 c d rest hc hd
          ∙ ap (◌++◌ (split_u16 (join_u16 c d))) (
              sym (take-append-drop size rest)
              ∙ ap (λ (body : Bytes). body ++ drop size rest) (sym body_eq)))

  pub cut_body_sound :
      (available : ℕ)
      → Ensures Any
          (ExtensionRead (a ∷ b ∷ c ∷ d ∷ rest) true offset)
          (cut_body true bytes (join_u16 a b) (join_u16 c d) available offset)
  unfolding cut_body extension_size
  cut_body_sound available = elim (Bool-cases (ltb (length bytes) (offset + 4 + size))) [
    | inl cut ↦ rw cut tt
    | inr fits ↦ rw fits (
      (
        refl,
        omega (arith, length-slice bytes (offset + 4) (offset + 4 + size) (ltb→ge _ _ fits)),
        omega arith,
        omega arith,
      ),
      omega arith,
      (drop size rest, tail_eq),
    )
  ]

  pub body_sound :
      Ensures Any
        (ExtensionRead (a ∷ b ∷ c ∷ d ∷ rest) true offset)
        (parse_extension_body true bytes offset)
  unfolding parse_extension_body
  body_sound = rw (profile_read, words_read) (cut_body_sound _)

pub parse_extension_body_sound :
    (bytes front tail : Bytes) (offset : ℕ)
    → bytes ≡ front ++ tail
    → All IsByte tail
    → offset ≡ length front
    → 4 ≤ length tail
    → Ensures Any (ExtensionRead tail true offset) (parse_extension_body true bytes offset)
parse_extension_body_sound bytes front (a ∷ b ∷ c ∷ d ∷ rest) offset e (ha, (hb, (hc, (hd, _)))) at
      h =
    body_sound bytes front rest offset a b c d e ha hb hc hd at
parse_extension_body_sound bytes front _ offset e all at h = absurd (omega arith)

module _ (bytes front tail : Bytes) (offset : ℕ) (e : bytes ≡ front ++ tail) (all : All IsByte tail)
    (at : offset ≡ length front) where
  pub parse_extension_sound :
      (flag : Bool)
      → Ensures Any (ExtensionRead tail flag offset) (parse_extension true bytes flag offset)
  unfolding parse_extension extension_size
  parse_extension_sound false = (refl, omega arith, (tail, refl))
  parse_extension_sound true = elim (Bool-cases (ltb (length bytes) (offset + 4))) [
    | inl cut ↦ rw cut tt
    | inr fits ↦ rw fits (
        parse_extension_body_sound bytes front tail offset e all at
          (omega (arith, ltb→ge _ _ fits, length_tail bytes front tail offset e at)))
  ]
