-- ===== src/Rtp/Builder/Validation.antt =====
-- `_validate` accepts exactly the builders whose fields fit the wire, and raises nothing but an
-- `RtpBuildError`.
use rtpkit.Common.{
  ℕ, ◌/◌, ◌%◌, ◌≤◌, ◌≡◌, ◌↔◌, refl, ap, ◌∙◌, ◌⊎◌, false, Option, none, some, List, [], ◌∷◌, arith,
  not, ◌&&◌, truthy, ltb, ltb→ge, ge→ltb, length, All, inl, inr,
}
use rtpkit.Common.Int.{
  ℤ, pos, negsuc, in_range, InRange, not_in_range→InRange, InRange→not_in_range,
}
use rtpkit.Errors.{
  Exception, Field, rtp_build_error, version, payload_type, sequence_number, timestamp, ssrc, csrc,
  extension_profile, extension_data, padding,
}
use rtpkit.Outcome.{ok, err, raise_if}
use rtpkit.Outcome.Laws.{
  Ensures, Ensures-bind, Ensures-mono, Outcome-cases, Ensures-ok, Ensures-err, raise_if-Ensures,
  raise_if_passes,
}
use rtpkit.Wire.{Bytes}
use rtpkit.Rtp.Builder.{RtpBuilder, validate_csrc, validate_extension, nonzero, validate}

abbrev pub ExtensionValid : Option ℤ → Bytes → Type 0
ExtensionValid none body = Unit
ExtensionValid (some profile) body =
    InRange 0 0xffff profile × (length body % 4 ≡ 0) × (length body / 4 ≤ 0xffff)

-- Every field fits the wire format.
pub record IsValid (b : RtpBuilder) : Type 0 where
  pub version_ok : InRange 0 3 b.version
  pub payload_type_ok : InRange 0 127 b.payload_type
  pub seq_ok : InRange 0 0xffff b.seq
  pub timestamp_ok : InRange 0 0xffff_ffff b.timestamp
  pub ssrc_ok : InRange 0 0xffff_ffff b.ssrc
  pub csrc_count_ok : length b.csrc ≤ 15
  pub csrc_ok : All (InRange 0 0xffff_ffff) b.csrc
  pub extension_ok : ExtensionValid b.ext_profile b.ext_data
  pub padding_ok : InRange 0 255 b.padding

abbrev pub IsBuildError : Exception → Type 0
IsBuildError e = (f : Field) × (e ≡ rtp_build_error f)

range_check :
    (lo hi : ℕ) (z : ℤ) (f : Field)
    → Ensures IsBuildError
        (λ _. InRange lo hi z)
        (raise_if (not (in_range lo hi z)) (rtp_build_error f))
range_check lo hi z f =
    Ensures-mono IsBuildError IsBuildError _ _
      (raise_if (not (in_range lo hi z)) (rtp_build_error f))
      (raise_if-Ensures IsBuildError (not (in_range lo hi z)) (rtp_build_error f) (f, refl))
      (λ e p. p) (λ _ q. not_in_range→InRange lo hi z q)

validate_csrc-Ensures :
    (cs : List ℤ) → Ensures IsBuildError (λ _. All (InRange 0 0xffff_ffff) cs) (validate_csrc cs)
unfolding validate_csrc
validate_csrc-Ensures [] = tt
validate_csrc-Ensures (c ∷ cs) =
    Ensures-bind IsBuildError _ _ (raise_if (not (in_range 0 0xffff_ffff c)) (rtp_build_error csrc))
      _ (range_check 0 0xffff_ffff c csrc)
      λ _ h.
        Ensures-mono IsBuildError IsBuildError _ _ (validate_csrc cs) (validate_csrc-Ensures cs)
          (λ e p. p) (λ _ hs. (h, hs))

truthy-false : (n : ℕ) → truthy n ≡ false → n ≡ 0
truthy-false n h = ground arith

validate_extension-Ensures :
    (profile : Option ℤ) (body : Bytes)
    → Ensures IsBuildError (λ _. ExtensionValid profile body) (validate_extension profile body)
unfolding validate_extension
validate_extension-Ensures none body = tt
validate_extension-Ensures (some z) body =
    Ensures-bind IsBuildError _ _
      (raise_if (not (in_range 0 0xffff z)) (rtp_build_error extension_profile)) _
      (range_check 0 0xffff z extension_profile)
      λ _ h.
        Ensures-bind IsBuildError _ _
          (raise_if (truthy (length body % 4)) (rtp_build_error extension_data)) _
          (raise_if-Ensures IsBuildError _ _ (extension_data, refl))
          λ _ m.
            Ensures-mono IsBuildError IsBuildError _ _
              (raise_if (ltb 0xffff (length body / 4)) (rtp_build_error extension_data))
              (raise_if-Ensures IsBuildError _ _ (extension_data, refl)) (λ e p. p)
              (λ _ w. (h, truthy-false _ m, ltb→ge _ _ w))

padding_range : (z : ℤ) → (nonzero z && not (in_range 1 255 z)) ≡ false → InRange 0 255 z
unfolding nonzero
padding_range (pos n) h = (n, refl, omega arith, ground arith)
padding_range (negsuc n) h = absurd (ground arith)

validate-Ensures : (b : RtpBuilder) → Ensures IsBuildError (λ _. IsValid b) (validate b)
unfolding validate
validate-Ensures b =
    Ensures-bind P _ _ (raise_if (not (in_range 0 3 b.version)) _) _
      (range_check 0 3 b.version version)
      λ _ v.
        Ensures-bind P _ _ (raise_if (not (in_range 0 127 b.payload_type)) _) _
          (range_check 0 127 b.payload_type payload_type)
          λ _ t.
            Ensures-bind P _ _ (raise_if (not (in_range 0 0xffff b.seq)) _) _
              (range_check 0 0xffff b.seq sequence_number)
              λ _ s.
                Ensures-bind P _ _ (raise_if (not (in_range 0 0xffff_ffff b.timestamp)) _) _
                  (range_check 0 0xffff_ffff b.timestamp timestamp)
                  λ _ ts.
                    Ensures-bind P _ _ (raise_if (not (in_range 0 0xffff_ffff b.ssrc)) _) _
                      (range_check 0 0xffff_ffff b.ssrc ssrc)
                      λ _ sr.
                        Ensures-bind P _ _ (raise_if (ltb 15 (length b.csrc)) _) _
                          (raise_if-Ensures P _ _ (csrc, refl))
                          λ _ n.
                            Ensures-bind P _ _ (validate_csrc b.csrc) _
                              (validate_csrc-Ensures b.csrc)
                              λ _ cs.
                                Ensures-bind P _ _ (validate_extension b.ext_profile b.ext_data) _
                                  (validate_extension-Ensures b.ext_profile b.ext_data)
                                  λ _ ext.
                                    Ensures-mono P P _ _
                                      (raise_if
                                        (nonzero b.padding && not (in_range 1 255 b.padding))
                                        (rtp_build_error padding))
                                      (raise_if-Ensures P _ _ (padding, refl)) (λ e p. p)
                                      λ _ pad. record {
                                        version_ok = v;
                                        payload_type_ok = t;
                                        seq_ok = s;
                                        timestamp_ok = ts;
                                        ssrc_ok = sr;
                                        csrc_count_ok = ltb→ge _ _ n;
                                        csrc_ok = cs;
                                        extension_ok = ext;
                                        padding_ok = padding_range b.padding pad;
                                      }
  where
    P : Exception → Type 0
    P = IsBuildError

validate_csrc_passes : (cs : List ℤ) → All (InRange 0 0xffff_ffff) cs → validate_csrc cs ≡ ok tt []
unfolding validate_csrc
validate_csrc_passes [] h = refl
validate_csrc_passes (c ∷ cs) (h, hs) =
    rw (InRange→not_in_range 0 0xffff_ffff c h) (validate_csrc_passes cs hs)

validate_extension_passes :
    (profile : Option ℤ) (body : Bytes)
    → ExtensionValid profile body
    → validate_extension profile body ≡ ok tt []
unfolding validate_extension
validate_extension_passes none body h = refl
validate_extension_passes (some z) body (h, m, w) =
    rw (InRange→not_in_range 0 0xffff z h, m, ge→ltb 0xffff (length body / 4) w)

padding_check : (z : ℤ) → InRange 0 255 z → (nonzero z && not (in_range 1 255 z)) ≡ false
unfolding nonzero
padding_check z (n, e, _, h) = rw e (ground arith)

validate_passes : (b : RtpBuilder) → IsValid b → validate b ≡ ok tt []
unfolding validate
validate_passes b h =
    rw
      (
        InRange→not_in_range 0 3 b.version h.version_ok,
        InRange→not_in_range 0 127 b.payload_type h.payload_type_ok,
        InRange→not_in_range 0 0xffff b.seq h.seq_ok,
        InRange→not_in_range 0 0xffff_ffff b.timestamp h.timestamp_ok,
        InRange→not_in_range 0 0xffff_ffff b.ssrc h.ssrc_ok,
        ge→ltb 15 (length b.csrc) h.csrc_count_ok,
        validate_csrc_passes b.csrc h.csrc_ok,
        validate_extension_passes b.ext_profile b.ext_data h.extension_ok,
      )
      (raise_if_passes _ _ (padding_check b.padding h.padding_ok))

-- `_validate` accepts a builder exactly if every field fits the wire format.
pub validate-iff-IsValid : (b : RtpBuilder) → (validate b ≡ ok tt []) ↔ IsValid b
validate-iff-IsValid b = (
  λ h. Ensures-ok IsBuildError (λ _. IsValid b) (validate b) (validate-Ensures b) h,
  validate_passes b,
)

-- Whatever `_validate` raises is an `RtpBuildError`.
pub validate_raises : (b : RtpBuilder) (e : Exception) → validate b ≡ err e → IsBuildError e
validate_raises b e h =
    Ensures-err IsBuildError (λ _. IsValid b) (validate b) (validate-Ensures b) h

pub validate_cases :
    (b : RtpBuilder) → IsValid b ⊎ ((f : Field) × (validate b ≡ err (rtp_build_error f)))
validate_cases b = elim (Outcome-cases (validate b)) [
  | inl (u, ws, e) ↦
      inl (Ensures-ok IsBuildError (λ _. IsValid b) (validate b) (validate-Ensures b) e)
  | inr (x, e) ↦ let (f, q) = validate_raises b x e in inr (f, e ∙ ap err q)
]
