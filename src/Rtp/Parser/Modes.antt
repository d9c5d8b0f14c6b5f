-- ===== src/Rtp/Parser/Modes.antt =====
-- The strict and the lenient mode against each other, and what each may raise.
use rtpkit.Common.{
  ℕ, ◌+◌, ◌-◌, ◌*◌, ◌<◌, ◌≡◌, ◌↔◌, refl, Bool, true, false, List, [], inl, inr, arith, length, ltb,
  ltb→lt, ltb→ge, Bool-cases, ◌==◌, if◌then◌else◌, truthy,
}
use rtpkit.Errors.{Exception, rtp_buffer_too_short, is_rtp_error}
use rtpkit.Outcome.{Warning, ok, err, pure}
use rtpkit.Outcome.Laws.{
  Ensures-ok, Ensures-err, Agree, Agree-bind, Agree-bind_quiet, Agree-strict_quiet, Agree-if,
  Agree-iff, IsQuiet, IsQuiet-bind, Agree-of_quiet,
}
use rtpkit.Wire.{Bytes, byte_at, u16_at, u32_at, u32s_at}
use rtpkit.Wire.Read.{byte_at-IsQuiet, u16_at-IsQuiet, u32_at-IsQuiet, u32s_at-IsQuiet}
use rtpkit.Rtp.{RtpPacket}
use rtpkit.Rtp.Parser.{
  FixedHeader, parse_fixed_header, check_version, fit_csrc, parse_csrc, cut_body,
  parse_extension_body, parse_extension, use_pad_count, parse_padding, parse_rest, parse, parse_rtp,
  parse_rtp_lenient,
}
use rtpkit.Rtp.Parser.Safety.{Permitted, IsParsed, parse-Ensures, parse_short}

check_version-Agree : (v : ℕ) → Agree (check_version true v) (check_version false v)
unfolding check_version
check_version-Agree v = ground arith

fit_csrc-Agree : (buf_len n : ℕ) → Agree (fit_csrc true buf_len n) (fit_csrc false buf_len n)
unfolding fit_csrc
fit_csrc-Agree buf_len n = ground arith

csrc_words-IsQuiet :
    (n : ℕ) (bytes : Bytes) (b : Bool) → IsQuiet (if b then u32s_at n bytes 12 else pure [])
csrc_words-IsQuiet n bytes true = u32s_at-IsQuiet n bytes 12
csrc_words-IsQuiet n bytes false = tt

parse_csrc-Agree :
    (bytes : Bytes) (n : ℕ) → Agree (parse_csrc true bytes n) (parse_csrc false bytes n)
unfolding parse_csrc
parse_csrc-Agree bytes n =
    Agree-bind (fit_csrc true (length bytes) n) (fit_csrc false (length bytes) n) _ _
      (fit_csrc-Agree (length bytes) n)
      λ k. Agree-of_quiet _ (
        IsQuiet-bind (if truthy k then u32s_at k bytes 12 else pure []) _
          (csrc_words-IsQuiet k bytes (truthy k)) (λ _. tt))

cut_body-Agree :
    (bytes : Bytes) (profile words available offset : ℕ)
    → Agree
        (cut_body true bytes profile words available offset)
        (cut_body false bytes profile words available offset)
unfolding cut_body
cut_body-Agree bytes profile words available offset =
    Agree-if (ltb (length bytes) (offset + 4 + words * 4)) _ _ _ _ tt (refl, refl)

parse_extension_body-Agree :
    (bytes : Bytes) (offset : ℕ)
    → Agree (parse_extension_body true bytes offset) (parse_extension_body false bytes offset)
unfolding parse_extension_body
parse_extension_body-Agree bytes offset =
    Agree-bind_quiet (u16_at bytes offset) _ _ (u16_at-IsQuiet bytes offset) λ profile.
      Agree-bind_quiet (u16_at bytes (offset + 2)) _ _ (u16_at-IsQuiet bytes (offset + 2))
        λ words. cut_body-Agree bytes profile words _ offset

parse_extension-Agree :
    (bytes : Bytes) (flag : Bool) (offset : ℕ)
    → Agree (parse_extension true bytes flag offset) (parse_extension false bytes flag offset)
unfolding parse_extension
parse_extension-Agree bytes false offset = (refl, refl)
parse_extension-Agree bytes true offset =
    Agree-if (ltb (length bytes) (offset + 4)) _ _ _ _ tt (parse_extension_body-Agree bytes offset)

use_pad_count-Agree :
    (buf_len available pad_count : ℕ)
    → Agree
        (use_pad_count true buf_len available pad_count)
        (use_pad_count false buf_len available pad_count)
unfolding use_pad_count
use_pad_count-Agree buf_len available pad_count =
    Agree-if (pad_count == 0) _ _ _ _ tt
      (Agree-if (ltb available pad_count) _ _ _ _ tt (refl, refl))

parse_padding-Agree :
    (bytes : Bytes) (flag : Bool) (offset : ℕ)
    → Agree (parse_padding true bytes flag offset) (parse_padding false bytes flag offset)
unfolding parse_padding
parse_padding-Agree bytes false offset = (refl, refl)
parse_padding-Agree bytes true offset = Agree-if (ltb (length bytes - offset) 1) _ _ _ _ tt (
    Agree-bind_quiet (byte_at bytes (length bytes - 1)) _ _ (byte_at-IsQuiet bytes _)
      (use_pad_count-Agree (length bytes) (length bytes - offset)))

parse_rest-Agree :
    (bytes : Bytes) (h : FixedHeader) → Agree (parse_rest true bytes h) (parse_rest false bytes h)
unfolding parse_rest
parse_rest-Agree bytes h =
    Agree-bind (check_version true h.version) _ _ _ (check_version-Agree h.version) λ _.
      Agree-bind (parse_csrc true bytes h.cc) _ _ _ (parse_csrc-Agree bytes h.cc)
        λ (csrc, csrc_end).
          Agree-bind (parse_extension true bytes h.extension_flag csrc_end) _ _ _
            (parse_extension-Agree bytes h.extension_flag csrc_end)
            λ (ext, offset).
              Agree-bind (parse_padding true bytes h.padding_flag offset) _ _ _
                (parse_padding-Agree bytes h.padding_flag offset) λ (size, stop). (refl, refl)

parse_fixed_header-IsQuiet : (bytes : Bytes) → IsQuiet (parse_fixed_header bytes)
unfolding parse_fixed_header
parse_fixed_header-IsQuiet bytes =
    IsQuiet-bind (byte_at bytes 0) _ (byte_at-IsQuiet bytes 0) λ first.
      IsQuiet-bind (byte_at bytes 1) _ (byte_at-IsQuiet bytes 1) λ second.
        IsQuiet-bind (u16_at bytes 2) _ (u16_at-IsQuiet bytes 2) λ seq.
          IsQuiet-bind (u32_at bytes 4) _ (u32_at-IsQuiet bytes 4)
            λ timestamp. IsQuiet-bind (u32_at bytes 8) _ (u32_at-IsQuiet bytes 8) λ ssrc. tt

pub parse-Agree : (bytes : Bytes) → Agree (parse true bytes) (parse false bytes)
unfolding parse
parse-Agree bytes = Agree-if (ltb (length bytes) 12) _ _ _ _ tt (
    Agree-bind_quiet (parse_fixed_header bytes) _ _ (parse_fixed_header-IsQuiet bytes)
      (parse_rest-Agree bytes))

-- `parse_rtp` returns a packet exactly when `parse_rtp_lenient` returns that packet without having
-- logged a warning: what the lenient mode tolerates in silence is what the strict mode accepts.
pub parse_rtp-parse_rtp_lenient :
    (bytes : Bytes) (p : RtpPacket)
    → (parse_rtp bytes ≡ ok p []) ↔ (parse_rtp_lenient bytes ≡ ok p [])
unfolding parse_rtp parse_rtp_lenient
parse_rtp-parse_rtp_lenient bytes p =
    Agree-iff (parse true bytes) (parse false bytes) (parse-Agree bytes) p

pub parse_rtp_quiet :
    (bytes : Bytes) (p : RtpPacket) (ws : List Warning)
    → parse_rtp bytes ≡ ok p ws
    → parse_rtp bytes ≡ ok p []
unfolding parse_rtp
parse_rtp_quiet bytes p ws h =
    Agree-strict_quiet (parse true bytes) (parse false bytes) (parse-Agree bytes) p ws h

-- `parse_rtp` raises nothing but an `RtpError`, on any input: no index leaves the buffer.
pub parse_rtp-IsRtpError :
    (bytes : Bytes) (e : Exception) → parse_rtp bytes ≡ err e → is_rtp_error e ≡ true
unfolding parse_rtp is_rtp_error
parse_rtp-IsRtpError bytes e h = elim (Bool-cases (ltb (length bytes) 12)) [
  | inl short ↦ cc (h, parse_short true bytes (ltb→lt _ _ short))
  | inr long ↦
      Ensures-err (Permitted true) (IsParsed bytes) (parse true bytes)
        (parse-Ensures true bytes (ltb→ge _ _ long)) h
]

-- `parse_rtp_lenient` raises exactly on a buffer shorter than the fixed header, and then
-- `RtpBufferTooShort` with the two lengths.
pub parse_rtp_lenient_raises :
    (bytes : Bytes) (e : Exception)
    → (parse_rtp_lenient bytes ≡ err e)
      ↔ ((length bytes < 12) × (e ≡ rtp_buffer_too_short 12 (length bytes)))
unfolding parse_rtp_lenient
parse_rtp_lenient_raises bytes e = (raises, λ (short, q). rw q (parse_short false bytes short))
  where
    raises :
        parse false bytes ≡ err e
        → (length bytes < 12) × (e ≡ rtp_buffer_too_short 12 (length bytes))
    raises h = elim (Bool-cases (ltb (length bytes) 12)) [
      | inl short ↦ (ltb→lt _ _ short, cc (h, parse_short false bytes (ltb→lt _ _ short)))
      | inr long ↦ absurd (
          Ensures-err (Permitted false) (IsParsed bytes) (parse false bytes)
            (parse-Ensures false bytes (ltb→ge _ _ long)) h)
    ]

-- In both modes a packet that is returned describes the buffer: its header, payload and padding have
-- the buffer's length together, the payload is what stands between the others, the extension body
-- has its declared length, and each field fits its width on the wire.
pub parse-IsParsed :
    (strict : Bool) (bytes : Bytes) {p : RtpPacket} {ws : List Warning}
    → parse strict bytes ≡ ok p ws
    → IsParsed bytes p
parse-IsParsed strict bytes h = elim (Bool-cases (ltb (length bytes) 12)) [
  | inl short ↦ absurd (cc (h, parse_short strict bytes (ltb→lt _ _ short)))
  | inr long ↦
      Ensures-ok (Permitted strict) (IsParsed bytes) (parse strict bytes)
        (parse-Ensures strict bytes (ltb→ge _ _ long)) h
]
