-- ===== src/Rtp/Parser/Sound.antt =====
-- What the strict parser accepts is an image of the packet that it returns.
mod Header
mod Sections
mod Padding
use rtpkit.Common.{
  ℕ, zero, suc, ◌+◌, ◌-◌, ◌*◌, ◌/◌, ◌^◌, ◌%◌, ◌≤◌, ◌<◌, ◌≡◌, ◌↔◌, refl, sym, ap, ◌∙◌, Bool, true,
  false, Option, none, some, List, [], ◌∷◌, ◌++◌, arith, length, take, drop, int_of_bool, truthy,
  truthy-suc, bit_and, ltb, ltb→ge, length-append, length-take, length-drop, ==_suc,
  take-append-drop, drop-append, drop-drop, append_assoc, All, Bool-cases, inl, inr, if◌then◌else◌,
  ◌==◌, ==_iff,
}
use rtpkit.Common.Bits.{bit_and-mask, shr}
use rtpkit.Errors.{Exception}
use rtpkit.Outcome.{Outcome, ok, ◌>>=◌, pure}
use rtpkit.Outcome.Laws.{Ensures, Ensures-bind, Ensures-self, Ensures-ok, Any}
use rtpkit.Wire.{
  Bytes, IsByte, byte_at, first_byte, u16_at, first_u16, u32_at, u32s_at, first_u32s, slice,
  join_u16, join_u32, split_u16, split_u32,
}
use rtpkit.Wire.Write.{words, length-words}
use rtpkit.Wire.Read.{length-slice, All-drop, byte_at-IsQuiet}
use rtpkit.Rtp.{HeaderExtension, RtpPacket, extension_size}
use rtpkit.Rtp.Parser.{
  FixedHeader, parse_fixed_header, check_version, fit_csrc, parse_csrc, cut_body,
  parse_extension_body, parse_extension, use_pad_count, parse_padding, parse_rest, parse, parse_rtp,
}
use rtpkit.Rtp.Parser.Modes.{parse-IsParsed}
use rtpkit.Rtp.Parser.Complete.{parse-image}
use rtpkit.Rtp.Layout.{
  extension_bytes, image, IsPadding, IsExtension, IsImage, length-pad, length-extension_bytes,
}
use Header.{
  fixed_bytes, int_of_bool-truthy, first_byte_fields, second_byte_fields, split-join_u16,
  split-join_u32, parse_fixed_header_sound, first_u32s_sound, drop_front, length_tail,
}
use Sections.{
  fit_csrc_strict, Leads, CsrcRead, csrc_words_sound, parse_csrc_sound, ExtensionRead, profile_read,
  words_read, rest_dropped, size, body_eq, tail_eq, cut_body_sound, body_sound,
  parse_extension_body_sound, parse_extension_sound,
}
use Padding.{
  last_split, PaddingRead, payload_eq, cut_at, no_padding, use_pad_count_sound, parse_padding_sound,
}

check_version_strict : (v : ℕ) → Ensures Any (λ _. v ≡ 2) (check_version true v)
unfolding check_version
check_version_strict v = ground arith

-- What the walk through the buffer shows; the widths are `IsParsed`.
abbrev Shape : Bytes → RtpPacket → Type 0
Shape bytes p =
    (p.version ≡ 2)
    × IsExtension p.extension p.header_extension
    × ((pad : Bytes) × (bytes ≡ image p pad) × IsPadding p.padding p.padding_size pad)

All-append_right : (xs ys : Bytes) → All IsByte (xs ++ ys) → All IsByte ys
All-append_right [] ys h = h
All-append_right (x ∷ xs) ys h = All-append_right xs ys h.1

-- One piece further into the buffer.
advance :
    (bytes front tail piece rest : Bytes)
    → bytes ≡ front ++ tail
    → tail ≡ piece ++ rest
    → bytes ≡ (front ++ piece) ++ rest
advance bytes front tail piece rest e q =
    e ∙ ap (◌++◌ front) q ∙ sym (append_assoc front piece rest)

parse_rest_sound :
    (bytes : Bytes) (h : FixedHeader)
    → All IsByte bytes
    → bytes ≡ fixed_bytes h ++ drop 12 bytes
    → Ensures Any (Shape bytes) (parse_rest true bytes h)
unfolding parse_rest
parse_rest_sound bytes h all e =
    Ensures-bind Any (λ _. h.version ≡ 2) _ (check_version true h.version) _
      (check_version_strict h.version)
      λ _ v.
        Ensures-bind Any _ _ (parse_csrc true bytes h.cc) _
          (parse_csrc_sound bytes (fixed_bytes h) (drop 12 bytes) e (All-drop 12 bytes all) h.cc
            refl)
          λ (csrc, csrc_end) (len, csrc_eq, (rest, q)).
            let front : Bytes = fixed_bytes h ++ words csrc in
            let e1 : bytes ≡ front ++ rest =
              advance bytes (fixed_bytes h) (drop 12 bytes) (words csrc) rest e q in
            let at : csrc_end ≡ length front = omega (arith, length-words csrc) in
            Ensures-bind Any _ _ (parse_extension true bytes h.extension_flag csrc_end) _
              (parse_extension_sound bytes front rest csrc_end e1
                (All-append_right front rest (rw e1 at all)) at h.extension_flag)
              λ (ext, offset) (ext_ok, offset_eq, (rest', q')).
                let front' : Bytes = front ++ extension_bytes ext in
                Ensures-bind Any _ _ (parse_padding true bytes h.padding_flag offset) _
                  (parse_padding_sound bytes front' rest' offset
                    (advance bytes front rest _ rest' e1 q')
                    (omega (
                      arith,
                      length-append (words csrc) (extension_bytes ext),
                      length-words csrc,
                      length-extension_bytes h.extension_flag ext ext_ok,
                    ))
                    h.padding_flag)
                  λ (size, stop) (pad, q'', pad_ok).
                    let pieces : Bytes =
                      words csrc ++ (extension_bytes ext ++ (slice bytes offset stop ++ pad)) in
                    (
                      v,
                      ext_ok,
                      (
                        pad,
                        e
                            ∙ ap (◌++◌ (fixed_bytes h)) (
                                q
                                ∙ ap (◌++◌ (words csrc)) (q' ∙ ap (◌++◌ (extension_bytes ext)) q''))
                            ∙ ap (λ (n : ℕ). fixed_bytes (record h { cc = n }) ++ pieces) (sym len),
                        pad_ok,
                      ),
                    )

parse_sound : (bytes : Bytes) → All IsByte bytes → Ensures Any (Shape bytes) (parse true bytes)
unfolding parse
parse_sound bytes all = elim (Bool-cases (ltb (length bytes) 12)) [
  | inl short ↦ rw short tt
  | inr long ↦ rw long (
      Ensures-bind Any _ _ (parse_fixed_header bytes) _
        (parse_fixed_header_sound bytes (ltb→ge _ _ long) all)
        (λ h e. parse_rest_sound bytes h all e))
]

-- `parse_rtp` is exact: on a string of bytes it returns a packet just if the packet's version is 2 and
-- the string is the packet's image, with some padding that the packet's padding bit and size allow.
pub parse_rtp-iff-IsImage :
    (bytes : Bytes) (p : RtpPacket)
    → All IsByte bytes
    → (parse_rtp bytes ≡ ok p []) ↔ ((p.version ≡ 2) × ((pad : Bytes) × IsImage bytes p pad))
unfolding parse_rtp
parse_rtp-iff-IsImage bytes p all = (sound, complete)
  where
    sound : parse true bytes ≡ ok p [] → (p.version ≡ 2) × ((pad : Bytes) × IsImage bytes p pad)
    sound h =
        let (v, ext_ok, (pad, e, pad_ok)) =
          Ensures-ok Any (Shape bytes) (parse true bytes) (parse_sound bytes all) h in
        let facts = parse-IsParsed true bytes h in
        let (seq_fits, timestamp_fits, ssrc_fits, csrc_words) = facts.words_fit all in
        (
          v,
          (
            pad,
            record {
              bytes_eq = e;
              raw_eq = facts.raw_eq;
              version_fits = facts.version_fits;
              csrc_fits = facts.csrc_fits;
              payload_type_fits = facts.payload_type_fits;
              sequence_number_fits = seq_fits;
              timestamp_fits = timestamp_fits;
              ssrc_fits = ssrc_fits;
              csrc_words = csrc_words;
              extension_ok = ext_ok;
              padding_ok = pad_ok;
            },
          ),
        )

    complete : (p.version ≡ 2) × ((pad : Bytes) × IsImage bytes p pad) → parse true bytes ≡ ok p []
    complete (v, (pad, h)) = parse-image true h ∙ rw v (unfold check_version in refl)
