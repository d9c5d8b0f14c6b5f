-- ===== src/Rtp/Builder/RoundTrip.antt =====
-- `build` writes the image of the packet that the builder describes, so the parser reads it back.
use rtpkit.Common.{
  ◌==◌, ==_iff, ◌≢◌, Bool-cases, false, ℕ, ◌+◌, ◌*◌, ◌≡◌, refl, sym, ap, ◌∙◌, ◌⊎◌, inl, inr, Bool,
  true, List, [], ◌∷◌, ◌++◌, arith, int_of_bool, length,
}
use rtpkit.Common.Int.{ℤ, pos, pos_part, ltb_ℤ, InRange}
use rtpkit.Errors.{Field, rtp_build_error, rtp_invalid_version}
use rtpkit.Outcome.{Outcome, Warning, ok, err, ◌>>=◌, pure}
use rtpkit.Wire.{Bytes, split_u16, split_u32}
use rtpkit.Wire.Write.{words}
use rtpkit.Rtp.{RtpPacket}
use rtpkit.Rtp.Layout.{extension_bytes, image, IsImage}
use rtpkit.Rtp.Parser.{parse, check_version, parse_rtp}
use rtpkit.Rtp.Parser.Complete.{parse-image, check_version_two, check_version_other}
use rtpkit.Rtp.Builder.{RtpBuilder, validate, is_some, build, build_packet}
use rtpkit.Rtp.Builder.Validation.{IsValid, validate-iff-IsValid, validate_cases}
use rtpkit.Rtp.Builder.Image.{
  nats, nats-AreU32, length-nats, built_extension, packet_of, padding_of, pack_csrc_lem,
  pack_extension_lem, pack_padding_lem, header_packed, padding_of-IsPadding,
  built_extension-IsExtension, InRange-le,
}

module _ (b : RtpBuilder) (valid : IsValid b) where
  -- `build` writes the image of the packet that a valid builder describes.
  build-image : build b ≡ ok (image (packet_of b []) (padding_of b.padding)) []
  unfolding build
  build-image =
      rw
        (
          (validate-iff-IsValid b).1 valid,
          header_packed b.version b.payload_type b.seq b.timestamp b.ssrc (ltb_ℤ (pos 0) b.padding)
              (is_some b.ext_profile) b.marker (length b.csrc) valid.version_ok
              valid.payload_type_ok valid.seq_ok valid.timestamp_ok valid.ssrc_ok
              valid.csrc_count_ok,
          pack_csrc_lem b.csrc valid.csrc_ok,
          pack_extension_lem b.ext_profile b.ext_data valid.extension_ok,
          pack_padding_lem b.padding valid.padding_ok,
        )
        (ap (λ (n : ℕ). ok (image_with n) []) (sym (length-nats b.csrc)))
    where
      image_with : ℕ → Bytes
      image_with n =
          (pos_part b.version * 64
            + int_of_bool (ltb_ℤ (pos 0) b.padding) * 32
            + int_of_bool (is_some b.ext_profile) * 16
            + n)
          ∷ (int_of_bool b.marker * 128 + pos_part b.payload_type)
          ∷ (split_u16 (pos_part b.seq)
              ++ (split_u32 (pos_part b.timestamp) ++ split_u32 (pos_part b.ssrc))
              ++ (words (nats b.csrc)
                  ++ (extension_bytes (built_extension b.ext_profile b.ext_data)
                      ++ (b.payload ++ padding_of b.padding))))

  packet_of-IsImage :
      IsImage
        (image (packet_of b []) (padding_of b.padding))
        (packet_of b (image (packet_of b []) (padding_of b.padding)))
        (padding_of b.padding)
  packet_of-IsImage = record {
    bytes_eq = refl;
    raw_eq = refl;
    version_fits = omega (arith, InRange-le 0 3 b.version valid.version_ok);
    csrc_fits = omega (arith, length-nats b.csrc, valid.csrc_count_ok);
    payload_type_fits = omega (arith, InRange-le 0 127 b.payload_type valid.payload_type_ok);
    sequence_number_fits = omega (arith, InRange-le 0 0xffff b.seq valid.seq_ok);
    timestamp_fits = omega (arith, InRange-le 0 0xffff_ffff b.timestamp valid.timestamp_ok);
    ssrc_fits = omega (arith, InRange-le 0 0xffff_ffff b.ssrc valid.ssrc_ok);
    csrc_words = nats-AreU32 b.csrc valid.csrc_ok;
    extension_ok = built_extension-IsExtension b.ext_profile b.ext_data valid.extension_ok;
    padding_ok = padding_of-IsPadding b.padding valid.padding_ok;
  }

build_refused :
    (b : RtpBuilder) (f : Field)
    → validate b ≡ err (rtp_build_error f)
    → build b ≡ err (rtp_build_error f)
unfolding build
build_refused b f h = rw h

-- `build` returns exactly on the builders whose fields fit the wire format; on all others it raises an
-- `RtpBuildError`, and never a `struct.error`.
pub build_total :
    (b : RtpBuilder)
    → (IsValid b × (build b ≡ ok (image (packet_of b []) (padding_of b.padding)) []))
      ⊎ ((¬ IsValid b) × ((f : Field) × (build b ≡ err (rtp_build_error f))))
build_total b = elim (validate_cases b) [
  | inl valid ↦ inl (valid, build-image b valid)
  | inr (f, e) ↦ inr ((λ valid. cc (e, (validate-iff-IsValid b).1 valid)), (f, build_refused b f e))
]

-- What `build` returns is parsed back, in both modes: but for the version check the result is the
-- packet that the builder's fields describe, and nothing is logged.
pub parse-build :
    (strict : Bool) (b : RtpBuilder) {bytes : Bytes} {ws : List Warning}
    → build b ≡ ok bytes ws
    → parse strict bytes
      ≡ (check_version strict (pos_part b.version) >>= λ _. pure (packet_of b bytes))
parse-build strict b {bytes} {ws} h = elim (build_total b) [
  | inl (valid, e) ↦
      let q : bytes ≡ image (packet_of b []) (padding_of b.padding) = cc (h, e) in
      rw q (parse-image strict (packet_of-IsImage b valid))
  | inr (_, (f, e)) ↦ absurd (cc (h, e))
]

-- A builder with the version 2.
pub build_packet_lem :
    (b : RtpBuilder) {bytes : Bytes}
    → build b ≡ ok bytes []
    → b.version ≡ pos 2
    → build_packet b ≡ ok (packet_of b bytes) []
unfolding build_packet parse_rtp
build_packet_lem b {bytes} h v = rw h (
    parse-build true b h
    ∙ ap (λ (z : ℤ). check_version true (pos_part z) >>= λ _. pure (packet_of b bytes)) v
    ∙ ap (λ (m : Outcome (Unit {0})). m >>= λ _. pure (packet_of b bytes)) (check_version_two true))

build_packet_rejected :
    (b : RtpBuilder) {bytes : Bytes} (v : ℕ)
    → build b ≡ ok bytes []
    → b.version ≡ pos v
    → (v == 2) ≡ false
    → build_packet b ≡ err (rtp_invalid_version v)
unfolding build_packet parse_rtp
build_packet_rejected b {bytes} v h e other = rw h (
    parse-build true b h
    ∙ ap (λ (z : ℤ). check_version true (pos_part z) >>= λ _. pure (packet_of b bytes)) e
    ∙ ap (λ (m : Outcome (Unit {0})). m >>= λ _. pure (packet_of b bytes))
        (check_version_other v other))

build_packet_refused :
    (b : RtpBuilder) (f : Field)
    → build b ≡ err (rtp_build_error f)
    → build_packet b ≡ err (rtp_build_error f)
unfolding build_packet
build_packet_refused b f e = rw e refl

-- The packet that a builder's fields describe, with the bytes of its image.
abbrev pub built_packet : RtpBuilder → RtpPacket
built_packet b = packet_of b (image (packet_of b []) (padding_of b.padding))

-- What `build_packet` does with a builder that fits the wire, by its version.
abbrev pub Judged : RtpBuilder → Type 0
Judged b =
    ((b.version ≡ pos 2) × (build_packet b ≡ ok (built_packet b) []))
    ⊎ ((v : ℕ) × (b.version ≡ pos v) × (v ≢ 2) × (build_packet b ≡ err (rtp_invalid_version v)))

-- `build_packet` returns just for the builders whose fields fit the wire format and whose version is 2, and
-- then the packet that the fields describe, with the bytes that `build` writes as its `raw`. With another
-- version that fits it raises `RtpInvalidVersion`, and with fields that do not fit an `RtpBuildError`.
pub build_packet_cases :
    (b : RtpBuilder)
    → (IsValid b × Judged b)
      ⊎ ((¬ IsValid b) × ((f : Field) × (build_packet b ≡ err (rtp_build_error f))))
build_packet_cases b = elim (build_total b) [
  | inl (valid, e) ↦ inl (valid, judge e valid.version_ok)
  | inr (invalid, (f, e)) ↦ inr (invalid, (f, build_packet_refused b f e))
]
  where
    judge :
        build b ≡ ok (image (packet_of b []) (padding_of b.padding)) []
        → InRange 0 3 b.version
        → Judged b
    judge e (v, at, low, high) = elim (Bool-cases (v == 2)) [
      | inl two ↦
          let q : b.version ≡ pos 2 = at ∙ ap pos ((==_iff v 2).0 two) in
          inl (q, build_packet_lem b e q)
      | inr other ↦
          inr (v, at, (λ q. cc (other, (==_iff v 2).1 q)), build_packet_rejected b v e at other)
    ]
