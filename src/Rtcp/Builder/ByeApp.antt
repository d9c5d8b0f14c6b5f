-- ===== src/Rtcp/Builder/ByeApp.antt =====
-- The bodies of BYE and APP are read back as the packets, and so are those of all types.
use rtpkit.Common.{
  ℕ, suc, ◌+◌, ◌*◌, ◌%◌, ◌≡◌, refl, sym, ap, ◌∙◌, true, not, Option, none, some, List, [], ◌∷◌,
  ◌++◌, map, append-nil, append_assoc, arith, length, length-append, drop-append, All, ltb, ◌==◌,
  Bool-cases, inl, inr,
}
use rtpkit.Common.Int.{ℤ, pos, pos_part, in_range, not_in_range→InRange}
use rtpkit.Outcome.{ok, raise_if}
use rtpkit.Outcome.Laws.{Any, Ensures, Ensures-bind, Ensures-mono, raise_if-Ensures}
use rtpkit.Wire.{Bytes, u32s_at, pack_u8, pack_u32, pack_u32s, split_u32, zeros, align_gap}
use rtpkit.Wire.Write.{
  words, length-words, IsU32, pack_u8-Ensures, pack_u32-Ensures, pack_u32s-Ensures, u32_at-append,
  u32s_at-append, byte_at-append, slice-append, slice-behind, align_gap-multiple,
}
use rtpkit.Rtcp.{
  RtcpPacket, sender_report, receiver_report, source_description, goodbye, application_defined,
}
use rtpkit.Rtcp.Bodies.{parse_one, decode_ascii, parse_reason}
use rtpkit.Rtcp.Bodies.Complete.{
  parse_bye_reads, parse_reason-none, parse_reason_reads, parse_app_reads,
}
use rtpkit.Rtcp.Builder.{
  require_count, align, serialize_reason, serialize_bye, is_ascii, serialize_app, serialize,
}
use rtpkit.Rtcp.Builder.Bodies.{
  ReadsAs, count_check, serialize_sr-ReadsAs, serialize_rr-ReadsAs, serialize_sdes-ReadsAs,
}

map_pos : (zs : List ℤ) → All IsU32 zs → map pos (map pos_part zs) ≡ zs
map_pos [] h = refl
map_pos (z ∷ zs) ((e, _), h) = rw (sym e, map_pos zs h)

length-map-pos_part : (zs : List ℤ) → length (map pos_part zs) ≡ length zs
length-map-pos_part [] = refl
length-map-pos_part (z ∷ zs) = ap suc (length-map-pos_part zs)

-- The reason behind the sources, in a body that is aligned.
abbrev IsReason : Option Bytes → Bytes → Type 0
IsReason reason bytes =
    (front : Bytes)
    → length front % 4 ≡ 0
    → parse_reason (align (front ++ bytes)) (length front) ≡ ok reason []

some_reason :
    (text front tail : Bytes)
    → parse_reason ((front ++ (length text ∷ text)) ++ tail) (length front) ≡ ok (some text) []
some_reason text front tail =
    ap (λ (r : Bytes). parse_reason r (length front)) (append_assoc front (length text ∷ text) tail)
    ∙ parse_reason_reads (front ++ (length text ∷ (text ++ tail))) text (length front) (length text)
        (byte_at-append (length front) front refl (length text) (text ++ tail))
        (omega (arith, length-append front (length text ∷ (text ++ tail)), length-append text tail))
        (slice-behind (length front + 1) front (length text ∷ []) (omega arith)
          (length front + 1 + length text) text tail refl)

no_reason :
    (front : Bytes)
    → length front % 4 ≡ 0
    → parse_reason (align (front ++ [])) (length front) ≡ ok none []
no_reason front h = parse_reason-none (align (front ++ [])) (length front) (
    omega (
      arith,
      length-append (front ++ []) (zeros (align_gap (length (front ++ [])))),
      ap length (append-nil front),
      length-zeros,
      gap,
    ))
  where
    gap : align_gap (length (front ++ [])) ≡ 0
    gap = align_gap-multiple (length (front ++ [])) (omega (arith, ap length (append-nil front)))

    length-zeros : length (zeros (align_gap (length (front ++ [])))) ≡ 0
    length-zeros = ap (λ (n : ℕ). length (zeros n)) gap

serialize_reason-IsReason :
    (reason : Option Bytes) → Ensures Any (IsReason reason) (serialize_reason reason)
unfolding serialize_reason
serialize_reason-IsReason none = no_reason
serialize_reason-IsReason (some text) =
    Ensures-bind _ _ _ (raise_if (ltb 255 (length text)) _) _ (raise_if-Ensures Any _ _ tt) λ _ _.
      Ensures-bind _ _ _ (pack_u8 (pos (length text))) _
        (Ensures-mono _ Any _ _ (pack_u8 _) (pack_u8-Ensures _) (λ _ _. tt) (λ _ h. h))
        λ size (_, size_eq). λ front h.
          ap (λ (s : Bytes). parse_reason (align (front ++ (s ++ text))) (length front)) size_eq
          ∙ some_reason text front _

bye_read :
    (ssrcs : List ℤ) (reason : Option Bytes) (rest : Bytes) (padding : ℤ) (pad : ℕ)
    → All IsU32 ssrcs
    → IsReason reason rest
    → padding ≡ pos pad
    → parse_one 203 (length ssrcs) (align (words (map pos_part ssrcs) ++ rest)) pad
      ≡ ok (goodbye ssrcs reason padding) []
bye_read ssrcs reason rest padding pad fits is_reason pad_eq =
    parse_bye_reads (align (front ++ rest)) (length ssrcs) pad (map pos_part ssrcs) reason
      (omega (
        arith,
        length-append (front ++ rest) (zeros (align_gap (length (front ++ rest)))),
        length-append front rest,
        front_len,
      ))
      sources
      (ap (parse_reason (align (front ++ rest))) (sym front_len)
        ∙ is_reason front (omega (arith, front_len)))
    ∙ rw (map_pos ssrcs fits, pad_eq) refl
  where
    front : Bytes
    front = words (map pos_part ssrcs)

    front_len : length front ≡ length ssrcs * 4
    front_len = omega (arith, length-words (map pos_part ssrcs), length-map-pos_part ssrcs)

    sources : u32s_at (length ssrcs) (align (front ++ rest)) 0 ≡ ok (map pos_part ssrcs) []
    sources =
        ap (λ (n : ℕ). u32s_at n (align (front ++ rest)) 0) (sym (length-map-pos_part ssrcs))
        ∙ ap (λ (r : Bytes). u32s_at (length (map pos_part ssrcs)) r 0) (append_assoc front rest _)
        ∙ u32s_at-append 0 [] refl (map pos_part ssrcs)
            (rest ++ zeros (align_gap (length (front ++ rest))))

serialize_bye-ReadsAs :
    (ssrcs : List ℤ) (reason : Option Bytes) (padding : ℤ)
    → Ensures Any (ReadsAs (goodbye ssrcs reason padding)) (serialize_bye ssrcs reason)
unfolding serialize_bye
serialize_bye-ReadsAs ssrcs reason padding =
    Ensures-bind _ _ _ (require_count (length ssrcs) _) _ (count_check (length ssrcs) _) λ _ count.
      Ensures-bind _ _ _ (pack_u32s ssrcs) _
        (Ensures-mono _ Any _ _ (pack_u32s ssrcs) (pack_u32s-Ensures ssrcs) (λ _ _. tt) (λ _ h. h))
        λ body (fits, body_eq).
          Ensures-bind _ _ _ (serialize_reason reason) _ (serialize_reason-IsReason reason)
            λ rest is_reason. (
              (length ssrcs, refl, omega arith, count),
              omega arith,
              λ pad _ pad_eq.
                  ap (λ (b : Bytes). parse_one 203 (length ssrcs) (align (b ++ rest)) pad) body_eq
                  ∙ bye_read ssrcs reason rest padding pad fits is_reason pad_eq,
            )

-- `decode` after `encode` is the identity on ASCII.
decode_ascii-is_ascii : (name : List ℕ) → is_ascii name ≡ true → decode_ascii name ≡ name
decode_ascii-is_ascii [] h = refl
decode_ascii-is_ascii (c ∷ cs) h = elim (Bool-cases (ltb c 128)) [
  | inl small ↦ rw (small, decode_ascii-is_ascii cs (rw small at h))
  | inr large ↦ absurd (cc (rw large at h))
]

app_read :
    (subtype ssrc : ℤ) (name : List ℕ) (body : Bytes) (padding : ℤ) (n pad : ℕ)
    → subtype ≡ pos n
    → IsU32 ssrc
    → is_ascii name ≡ true
    → length name ≡ 4
    → length body % 4 ≡ 0
    → padding ≡ pos pad
    → parse_one 204 n (align (split_u32 (pos_part ssrc) ++ (name ++ body))) pad
      ≡ ok (application_defined subtype ssrc name body padding) []
app_read subtype ssrc name body padding n pad sub_eq (ssrc_eq, _) ascii four aligned pad_eq =
    ap (λ (r : Bytes). parse_one 204 n r pad) content_eq
    ∙ parse_app_reads content body n (pos_part ssrc) pad name
        (omega (arith, length-append name body))
        (u32_at-append 0 [] refl (pos_part ssrc) (name ++ body))
        (ap decode_ascii (slice-append 4 (split_u32 (pos_part ssrc)) refl 8 name body (omega arith))
          ∙ decode_ascii-is_ascii name ascii)
        (drop-append 4 name body (sym four))
    ∙ rw (sym ssrc_eq, sub_eq, pad_eq) refl
  where
    content : Bytes
    content = split_u32 (pos_part ssrc) ++ (name ++ body)

    content_eq : align content ≡ content
    content_eq =
        ap (λ (g : ℕ). content ++ zeros g)
          (align_gap-multiple (length content) (omega (arith, length-append name body)))
        ∙ append-nil content

serialize_app-ReadsAs :
    (subtype ssrc : ℤ) (name : List ℕ) (body : Bytes) (padding : ℤ)
    → Ensures Any
        (ReadsAs (application_defined subtype ssrc name body padding))
        (serialize_app subtype ssrc name body)
unfolding serialize_app
serialize_app-ReadsAs subtype ssrc name body padding =
    Ensures-bind _ _ _ (raise_if (not (in_range 0 31 subtype)) _) _ (raise_if-Ensures Any _ _ tt)
      λ _ sub_in.
        Ensures-bind _ _ _ (raise_if (not (is_ascii name)) _) _ (raise_if-Ensures Any _ _ tt)
          λ _ ascii.
            Ensures-bind _ _ _ (raise_if (not (length name == 4)) _) _ (raise_if-Ensures Any _ _ tt)
              λ _ four.
                Ensures-bind _ _ _ (pack_u32 ssrc) _
                  (Ensures-mono _ Any _ _ (pack_u32 ssrc) (pack_u32-Ensures ssrc) (λ _ _. tt)
                    (λ _ h. h))
                  λ first (fits, first_eq).
                    let (n, sub_eq, lo, hi) = not_in_range→InRange 0 31 subtype sub_in in
                    (
                      (n, sub_eq, lo, hi),
                      omega arith,
                      λ pad aligned pad_eq.
                          ap (λ (k : ℕ). parse_one 204 k (align (first ++ (name ++ body))) pad)
                            (ap pos_part sub_eq)
                          ∙ ap (λ (w : Bytes). parse_one 204 n (align (w ++ (name ++ body))) pad)
                              first_eq
                          ∙ app_read subtype ssrc name body padding n pad sub_eq fits (ground arith)
                              (ground arith) aligned pad_eq,
                    )

pub serialize-ReadsAs : (p : RtcpPacket) → Ensures Any (ReadsAs p) (serialize p)
unfolding serialize
serialize-ReadsAs (sender_report ssrc info blocks padding) =
    serialize_sr-ReadsAs ssrc info blocks padding
serialize-ReadsAs (receiver_report ssrc blocks padding) = serialize_rr-ReadsAs ssrc blocks padding
serialize-ReadsAs (source_description cs padding) = serialize_sdes-ReadsAs cs padding
serialize-ReadsAs (goodbye ssrcs reason padding) = serialize_bye-ReadsAs ssrcs reason padding
serialize-ReadsAs (application_defined subtype ssrc name body padding) =
    serialize_app-ReadsAs subtype ssrc name body padding
