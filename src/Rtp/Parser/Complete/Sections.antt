-- ===== src/Rtp/Parser/Complete/Sections.antt =====
-- The header extension and the padding of an image are read back.
use rtpkit.Common.{
  ℕ, ◌+◌, ◌-◌, ◌*◌, ◌≤◌, ◌≡◌, sym, ap, ◌∙◌, Bool, true, false, Option, none, some, [], ◌∷◌, ◌++◌,
  arith, length, ge→ltb, length-append, append_assoc,
}
use rtpkit.Outcome.{ok}
use rtpkit.Wire.{Bytes, byte_at, slice, split_u16}
use rtpkit.Wire.Write.{byte_at-append, u16_at-append, u16_at-behind, slice-behind}
use rtpkit.Rtp.{HeaderExtension, extension_size}
use rtpkit.Rtp.Parser.{
  cut_body, parse_extension_body, parse_extension, use_pad_count, parse_padding,
}
use rtpkit.Rtp.Layout.{extension_bytes, IsPadding, IsExtension}

module _ (strict : Bool) (front rest : Bytes) (offset : ℕ) (ext : HeaderExtension)
    (at : offset ≡ length front) (len : length ext.body ≡ ext.length_words * 4) where
  abbrev pub buffer : Bytes
  buffer = front ++ (extension_bytes (some ext) ++ rest)

  pub fits : offset + 4 + ext.length_words * 4 ≤ length buffer
  fits =
      omega (
        arith,
        length-append front (extension_bytes (some ext) ++ rest),
        length-append ext.body rest,
      )

  pub cut_body-image :
      (available : ℕ)
      → cut_body strict buffer ext.profile ext.length_words available offset
        ≡ ok (some ext, offset + extension_size (some ext)) []
  unfolding cut_body extension_size
  cut_body-image available =
      rw (ge→ltb _ _ fits) λ i. ok (some (record ext { body = body_eq i }), end_eq i) []
    where
      body_eq : slice buffer (offset + 4) (offset + 4 + ext.length_words * 4) ≡ ext.body
      body_eq =
          slice-behind (offset + 4) front (split_u16 ext.profile ++ split_u16 ext.length_words)
            (omega arith) (offset + 4 + ext.length_words * 4) ext.body rest (omega arith)

      end_eq : offset + 4 + ext.length_words * 4 ≡ offset + (4 + ext.length_words * 4)
      end_eq = omega arith

  pub parse_extension_body-image :
      parse_extension_body strict buffer offset
      ≡ ok (some ext, offset + extension_size (some ext)) []
  unfolding parse_extension_body
  parse_extension_body-image =
      rw
        (
          u16_at-append offset front at ext.profile
              (split_u16 ext.length_words ++ (ext.body ++ rest)),
          u16_at-behind (offset + 2) front (split_u16 ext.profile) (omega arith) ext.length_words
              (ext.body ++ rest),
        )
        (cut_body-image _)

pub parse_extension-image :
    (strict : Bool) (front rest : Bytes) (offset : ℕ) (flag : Bool) (ext : Option HeaderExtension)
    → offset ≡ length front
    → IsExtension flag ext
    → parse_extension strict (front ++ (extension_bytes ext ++ rest)) flag offset
      ≡ ok (ext, offset + extension_size ext) []
unfolding parse_extension extension_size
parse_extension-image strict front rest offset flag none h e =
    rw e (ap (λ (n : ℕ). ok (none, n) []) offset_eq)
  where
    offset_eq : offset ≡ offset + 0
    offset_eq = omega arith
parse_extension-image strict front rest offset flag (some ext) h (e, len, _, _) =
    let inside : offset + 4 ≤ length (front ++ (extension_bytes (some ext) ++ rest)) =
      omega (arith, fits strict front rest offset ext h len) in
    rw (e, ge→ltb _ _ inside) (parse_extension_body-image strict front rest offset ext h len)

pub use_pad_count-image :
    (strict : Bool) (buf_len available size : ℕ)
    → 1 ≤ size
    → size ≤ available
    → use_pad_count strict buf_len available size ≡ ok (size, buf_len - size) []
unfolding use_pad_count
use_pad_count-image strict buf_len available size h k = ground arith

module _ (front payload fill : Bytes) (offset size : ℕ) (at : offset ≡ length front)
    (len : length fill + 1 ≡ size) where
  abbrev pub padded : Bytes
  padded = front ++ (payload ++ (fill ++ (size ∷ [])))

  pub length-padded : length padded ≡ offset + length payload + size
  length-padded = omega (
    arith,
    length-append front (payload ++ (fill ++ (size ∷ []))),
    length-append payload (fill ++ (size ∷ [])),
    length-append fill (size ∷ []),
  )

  pub last_byte : byte_at padded (length padded - 1) ≡ ok size []
  last_byte =
      ap (λ (bytes : Bytes). byte_at bytes (length padded - 1)) regrouped
      ∙ byte_at-append (length padded - 1) (front ++ (payload ++ fill))
          (omega (
            arith,
            length-padded,
            length-append front (payload ++ fill),
            length-append payload fill,
          ))
          size []
    where
      regrouped : padded ≡ (front ++ (payload ++ fill)) ++ (size ∷ [])
      regrouped = simp append_assoc

  pub parse_padding-padded :
      (strict : Bool) → parse_padding strict padded true offset ≡ ok (size, length padded - size) []
  unfolding parse_padding
  parse_padding-padded strict =
      rw (ge→ltb _ _ some_left, last_byte)
        (use_pad_count-image strict (length padded) (length padded - offset) size (omega arith)
          (omega (arith, length-padded)))
    where
      some_left : 1 ≤ length padded - offset
      some_left = omega (arith, length-padded)

pub parse_padding-image :
    (strict : Bool) (front payload pad : Bytes) (offset size : ℕ) (flag : Bool)
    → offset ≡ length front
    → IsPadding flag size pad
    → let buffer : Bytes = front ++ (payload ++ pad) in
      parse_padding strict buffer flag offset ≡ ok (size, length buffer - size) []
unfolding parse_padding
parse_padding-image strict front payload pad offset size false h (e, _) =
    λ i. ok (sym e i, end_eq i) []
  where
    end_eq : length (front ++ (payload ++ pad)) ≡ length (front ++ (payload ++ pad)) - size
    end_eq = omega arith
parse_padding-image strict front payload pad offset size true h (fill, e, len) =
    rw e (parse_padding-padded front payload fill offset size h len strict)
