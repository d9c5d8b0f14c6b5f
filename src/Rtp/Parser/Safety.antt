-- ===== src/Rtp/Parser/Safety.antt =====
-- What `parse` may raise and return, in both modes: no read leaves the buffer, and the packet that is
-- returned describes the whole buffer.
use rtpkit.Common.{
  zero, suc, truthy, truthy-suc, if◌then◌else◌, ltb, ltb→ge, ge→ltb, lt→ltb, ℕ, ◌+◌, ◌-◌, ◌*◌, ◌/◌,
  ◌^◌, ◌≤◌, ◌<◌, ◌≡◌, refl, Bool, true, false, Option, none, some, List, [], arith, length, All,
  Bool-cases, inl, inr,
}
use rtpkit.Common.Bits.{bit_and-mask}
use rtpkit.Errors.{
  Exception, is_rtp_error, rtp_extension_error, data_truncated, header_truncated, rtp_padding_error,
  rtp_buffer_too_short,
}
use rtpkit.Outcome.{
  pure, err, raise_or_warn, extension_data_truncated, extension_header_truncated,
  padding_without_bytes,
}
use rtpkit.Outcome.Laws.{Ensures, Ensures-bind}
use rtpkit.Wire.{Bytes, IsByte, byte_at, slice, u16_at, u32_at, u32s_at}
use rtpkit.Wire.Read.{
  byte_at_reads, u16_at_reads, u32_at_reads, u32s_at_reads, AreWords, length-slice,
}
use rtpkit.Rtp.{HeaderExtension, RtpPacket, extension_size, header_size}
use rtpkit.Rtp.Parser.{
  FixedHeader, parse_fixed_header, check_version, fit_csrc, parse_csrc, cut_body,
  parse_extension_body, parse_extension, use_pad_count, parse_padding, parse_rest, parse,
}

abbrev pub IsRtpError : Exception → Type 0
IsRtpError e = is_rtp_error e ≡ true

-- Behind the length check the strict mode may raise an `RtpError`, and the lenient mode nothing.
abbrev pub Permitted : Bool → Exception → Type 0
Permitted true e = IsRtpError e
Permitted false e = ⊥

-- The widths of the header's fields. Those below a byte hold whatever the buffer holds.
pub record HeaderFits (bytes : Bytes) (h : FixedHeader) : Type 0 where
  pub version_fits : h.version < 4
  pub cc_fits : h.cc < 16
  pub payload_type_fits : h.payload_type < 128
  pub words_fit : All IsByte bytes → (h.seq < 2 ^ 16) × (h.timestamp < 2 ^ 32) × (h.ssrc < 2 ^ 32)

pub parse_fixed_header-Ensures :
    (strict : Bool) (bytes : Bytes)
    → 12 ≤ length bytes
    → Ensures (Permitted strict) (HeaderFits bytes) (parse_fixed_header bytes)
unfolding parse_fixed_header
parse_fixed_header-Ensures strict bytes h =
    Ensures-bind P _ _ (byte_at bytes 0) _ (byte_at_reads P bytes 0 (omega arith)) λ first _.
      Ensures-bind P _ _ (byte_at bytes 1) _ (byte_at_reads P bytes 1 (omega arith)) λ second _.
        Ensures-bind P _ _ (u16_at bytes 2) _ (u16_at_reads P bytes 2 (omega arith)) λ seq hs.
          Ensures-bind P _ _ (u32_at bytes 4) _ (u32_at_reads P bytes 4 (omega arith))
            λ timestamp ht.
              Ensures-bind P _ _ (u32_at bytes 8) _ (u32_at_reads P bytes 8 (omega arith))
                λ ssrc hc. record {
                  version_fits = omega (arith, bit_and-mask 2 (first / 64));
                  cc_fits = omega (arith, bit_and-mask 4 first);
                  payload_type_fits = omega (arith, bit_and-mask 7 second);
                  words_fit = λ all. (hs all, ht all, hc all);
                }
  where
    P : Exception → Type 0
    P = Permitted strict

-- The CSRC count after the check leaves the list inside the buffer, and never grows.
fit_csrc-Ensures :
    (strict : Bool) (buf_len cc : ℕ)
    → 12 ≤ buf_len
    → Ensures
        (Permitted strict)
        (λ fitting. (12 + fitting * 4 ≤ buf_len) × (fitting ≤ cc))
        (fit_csrc strict buf_len cc)
unfolding fit_csrc is_rtp_error
fit_csrc-Ensures true buf_len n h = ground arith
fit_csrc-Ensures false buf_len n h = ground arith

pub record CsrcFits (bytes : Bytes) (cc : ℕ) (r : List ℕ × ℕ) : Type 0 where
  pub end_eq : r.1 ≡ 12 + length r.0 * 4
  pub end_le : r.1 ≤ length bytes
  pub count_le : length r.0 ≤ cc
  pub words_fit : All IsByte bytes → All (λ n. n < 2 ^ 32) r.0

csrc_words-Ensures :
    (strict : Bool) (bytes : Bytes) (cc : ℕ)
    → 12 + cc * 4 ≤ length bytes
    → Ensures
        (Permitted strict)
        (AreWords cc bytes)
        (if truthy cc then u32s_at cc bytes 12 else pure [])
csrc_words-Ensures strict bytes zero h = (refl, λ all. tt)
csrc_words-Ensures strict bytes (suc n) h =
    rw (truthy-suc n) (u32s_at_reads (Permitted strict) (suc n) bytes 12 h)

parse_csrc-Ensures :
    (strict : Bool) (bytes : Bytes) (cc : ℕ)
    → 12 ≤ length bytes
    → Ensures (Permitted strict) (CsrcFits bytes cc) (parse_csrc strict bytes cc)
unfolding parse_csrc
parse_csrc-Ensures strict bytes cc h =
    Ensures-bind (Permitted strict) _ _ (fit_csrc strict (length bytes) cc) _
      (fit_csrc-Ensures strict (length bytes) cc h)
      λ n (inside, less).
        Ensures-bind (Permitted strict) _ _ (if truthy n then u32s_at n bytes 12 else pure []) _
          (csrc_words-Ensures strict bytes n inside)
          λ csrc (len, fits). record {
            end_eq = omega arith;
            end_le = inside;
            count_le = omega arith;
            words_fit = fits;
          }

-- The body of an extension has the length that its header declares.
abbrev pub ExtensionFits : Bytes → Option HeaderExtension → Type 0
ExtensionFits bytes none = Unit
ExtensionFits bytes (some ext) =
    (length ext.body ≡ ext.length_words * 4)
    × (All IsByte bytes → (ext.profile < 2 ^ 16) × (ext.length_words < 2 ^ 16))

abbrev pub OffsetFits : Bytes → ℕ → Option HeaderExtension × ℕ → Type 0
OffsetFits bytes offset (ext, stop) =
    (stop ≡ offset + extension_size ext) × (stop ≤ length bytes) × ExtensionFits bytes ext

cut_body-Ensures :
    (strict : Bool) (bytes : Bytes) (profile words available offset : ℕ)
    → offset ≤ length bytes
    → (All IsByte bytes → profile < 2 ^ 16)
    → (All IsByte bytes → words < 2 ^ 16)
    → Ensures
        (Permitted strict)
        (OffsetFits bytes offset)
        (cut_body strict bytes profile words available offset)
unfolding cut_body is_rtp_error extension_size
cut_body-Ensures strict bytes profile words available offset inside hp hw =
    elim (Bool-cases (ltb (length bytes) (offset + 4 + words * 4))) [
      | inl cut ↦ rw cut (warned strict)
      | inr fits ↦ rw fits (
        omega arith,
        ltb→ge _ _ fits,
        (
          omega (arith, length-slice bytes (offset + 4) (offset + 4 + words * 4) (ltb→ge _ _ fits)),
          λ all. (hp all, hw all),
        ),
      )
    ]
  where
    warned :
        (b : Bool)
        → Ensures (Permitted b) (OffsetFits bytes offset) (
            raise_or_warn b
              (rtp_extension_error (data_truncated (words * 4) available))
              (extension_data_truncated (words * 4) available)
              (none, offset))
    warned true = refl
    warned false = (omega arith, inside, tt)

parse_extension_body-Ensures :
    (strict : Bool) (bytes : Bytes) (offset : ℕ)
    → offset + 4 ≤ length bytes
    → Ensures
        (Permitted strict)
        (OffsetFits bytes offset)
        (parse_extension_body strict bytes offset)
unfolding parse_extension_body
parse_extension_body-Ensures strict bytes offset h =
    Ensures-bind (Permitted strict) _ _ (u16_at bytes offset) _
      (u16_at_reads (Permitted strict) bytes offset (omega arith))
      λ profile hp.
        Ensures-bind (Permitted strict) _ _ (u16_at bytes (offset + 2)) _
          (u16_at_reads (Permitted strict) bytes (offset + 2) (omega arith))
          λ words hw. cut_body-Ensures strict bytes profile words _ offset (omega arith) hp hw

parse_extension-Ensures :
    (strict : Bool) (bytes : Bytes) (flag : Bool) (offset : ℕ)
    → offset ≤ length bytes
    → Ensures
        (Permitted strict)
        (OffsetFits bytes offset)
        (parse_extension strict bytes flag offset)
unfolding parse_extension is_rtp_error extension_size
parse_extension-Ensures strict bytes false offset h = (omega arith, h, tt)
parse_extension-Ensures strict bytes true offset h =
    elim (Bool-cases (ltb (length bytes) (offset + 4))) [
      | inl cut ↦ rw cut (warned strict)
      | inr fits ↦ rw fits (parse_extension_body-Ensures strict bytes offset (ltb→ge _ _ fits))
    ]
  where
    warned :
        (b : Bool)
        → Ensures (Permitted b) (OffsetFits bytes offset) (
            raise_or_warn b
              (rtp_extension_error (header_truncated (offset + 4) (length bytes)))
              extension_header_truncated
              (none, offset))
    warned true = refl
    warned false = (omega arith, h, tt)

-- The padding is what stands behind the payload, and the payload does not begin behind its end.
abbrev pub PaddingFits : Bytes → ℕ → ℕ × ℕ → Type 0
PaddingFits bytes offset (size, stop) = (stop + size ≡ length bytes) × (offset ≤ stop)

use_pad_count-Ensures :
    (strict : Bool) (bytes : Bytes) (offset pad_count : ℕ)
    → offset ≤ length bytes
    → Ensures
        (Permitted strict)
        (PaddingFits bytes offset)
        (use_pad_count strict (length bytes) (length bytes - offset) pad_count)
unfolding use_pad_count is_rtp_error
use_pad_count-Ensures true bytes offset pad_count h = ground arith
use_pad_count-Ensures false bytes offset pad_count h = ground arith

parse_padding-Ensures :
    (strict : Bool) (bytes : Bytes) (flag : Bool) (offset : ℕ)
    → offset ≤ length bytes
    → Ensures (Permitted strict) (PaddingFits bytes offset) (parse_padding strict bytes flag offset)
unfolding parse_padding is_rtp_error
parse_padding-Ensures strict bytes false offset h = (omega arith, h)
parse_padding-Ensures strict bytes true offset h =
    elim (Bool-cases (ltb (length bytes - offset) 1)) [
      | inl empty ↦ rw empty (warned strict)
      | inr some_left ↦ rw some_left (
          Ensures-bind (Permitted strict) _ _ (byte_at bytes (length bytes - 1)) _
            (byte_at_reads (Permitted strict) bytes (length bytes - 1)
              (omega (arith, ltb→ge _ _ some_left)))
            λ pad_count _. use_pad_count-Ensures strict bytes offset pad_count h)
    ]
  where
    warned :
        (b : Bool)
        → Ensures (Permitted b) (PaddingFits bytes offset) (
            raise_or_warn b
              (rtp_padding_error 0 (length bytes - offset))
              padding_without_bytes
              (0, length bytes))
    warned true = refl
    warned false = (omega arith, h)

-- A packet that `parse` has read off `bytes`: its parts lie one behind the other and fill the buffer,
-- and every field fits its width on the wire (the wider ones if `bytes` holds bytes).
pub record IsParsed (bytes : Bytes) (p : RtpPacket) : Type 0 where
  pub raw_eq : p.raw ≡ bytes
  pub fills : header_size p + length p.payload + p.padding_size ≡ length bytes
  pub payload_eq : p.payload ≡ slice bytes (header_size p) (length bytes - p.padding_size)
  pub version_fits : p.version < 4
  pub csrc_fits : length p.csrc < 16
  pub payload_type_fits : p.payload_type < 128
  pub extension_fits : ExtensionFits bytes p.header_extension
  pub words_fit :
      All IsByte bytes
      → (p.sequence_number < 2 ^ 16)
        × (p.timestamp < 2 ^ 32)
        × (p.ssrc < 2 ^ 32)
        × All (λ n. n < 2 ^ 32) p.csrc

check_version-Ensures :
    (strict : Bool) (version : ℕ)
    → Ensures (Permitted strict) (λ _. Unit) (check_version strict version)
unfolding check_version is_rtp_error
check_version-Ensures true version = ground arith
check_version-Ensures false version = ground arith

parse_rest-Ensures :
    (strict : Bool) (bytes : Bytes) (h : FixedHeader)
    → 12 ≤ length bytes
    → HeaderFits bytes h
    → Ensures (Permitted strict) (IsParsed bytes) (parse_rest strict bytes h)
unfolding parse_rest header_size
parse_rest-Ensures strict bytes h long hf =
    Ensures-bind (Permitted strict) (λ _. Unit) _ (check_version strict h.version) _
      (check_version-Ensures strict h.version)
      λ _ _.
        Ensures-bind (Permitted strict) _ _ (parse_csrc strict bytes h.cc) _
          (parse_csrc-Ensures strict bytes h.cc long)
          λ (csrc, csrc_end) c.
            Ensures-bind (Permitted strict) _ _
              (parse_extension strict bytes h.extension_flag csrc_end) _
              (parse_extension-Ensures strict bytes h.extension_flag csrc_end c.end_le)
              λ (ext, offset) (offset_eq, offset_le, ext_fits).
                Ensures-bind (Permitted strict) _ _
                  (parse_padding strict bytes h.padding_flag offset) _
                  (parse_padding-Ensures strict bytes h.padding_flag offset offset_le)
                  λ (size, stop) (size_eq, stop_ge).
                    let size_of_header : 12 + length csrc * 4 + extension_size ext ≡ offset =
                      omega (arith, c.end_eq) in
                    let stop_eq : length bytes - size ≡ stop = omega arith in
                    record {
                      raw_eq = refl;
                      fills = omega (arith, length-slice bytes offset stop (omega arith));
                      payload_eq = rw (size_of_header, stop_eq);
                      version_fits = hf.version_fits;
                      csrc_fits = omega (arith, c.count_le, hf.cc_fits);
                      payload_type_fits = hf.payload_type_fits;
                      extension_fits = ext_fits;
                      words_fit =
                          λ all. let (s, t, r) = hf.words_fit all in (s, t, r, c.words_fit all);
                    }

pub parse-Ensures :
    (strict : Bool) (bytes : Bytes)
    → 12 ≤ length bytes
    → Ensures (Permitted strict) (IsParsed bytes) (parse strict bytes)
unfolding parse
parse-Ensures strict bytes h = rw (ge→ltb _ _ h) (
    Ensures-bind (Permitted strict) _ _ (parse_fixed_header bytes) _
      (parse_fixed_header-Ensures strict bytes h)
      (λ header hf. parse_rest-Ensures strict bytes header h hf))

pub parse_short :
    (strict : Bool) (bytes : Bytes)
    → length bytes < 12
    → parse strict bytes ≡ err (rtp_buffer_too_short 12 (length bytes))
unfolding parse
parse_short strict bytes h = rw (lt→ltb _ _ h)
