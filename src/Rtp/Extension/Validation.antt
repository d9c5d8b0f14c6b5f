-- ===== src/Rtp/Extension/Validation.antt =====
-- Which elements each format can carry: `build_header_extension` accepts those, and for all others it
-- raises an `RtpBuildError`.
use rtpkit.Common.{
  ℕ, ◌≤◌, ◌≡◌, ◌↔◌, refl, List, [], ◌∷◌, ◌++◌, ◌-◌, arith, not, ltb, ltb→ge, ge→ltb, length, All,
  bit_or,
}
use rtpkit.Common.Bits.{shl}
use rtpkit.Common.Int.{pos, pos_part, in_range, InRange, not_in_range→InRange, InRange→not_in_range}
use rtpkit.Errors.{Exception, id_field, data_field, profile}
use rtpkit.Outcome.{ok, err, raise_if}
use rtpkit.Outcome.Laws.{Ensures, Ensures-bind, Ensures-ok, Ensures-err, raise_if-Ensures}
use rtpkit.Wire.{Bytes}
use rtpkit.Rtp.{HeaderExtension}
use rtpkit.Rtp.Builder.Validation.{IsBuildError}
use rtpkit.Rtp.Extension.{
  ExtensionElement, ExtensionProfile, unknown, one_byte, two_byte, one_byte_magic, two_byte_value,
  build_one_byte, build_two_byte, pad_body, build_header_extension,
}

-- An element that the format can carry.
abbrev pub CanCarry : ExtensionProfile → ExtensionElement → Type 0
CanCarry unknown e = ⊥
CanCarry one_byte e = InRange 1 14 e.id × (1 ≤ length e.body) × (length e.body ≤ 16)
CanCarry two_byte e = InRange 1 255 e.id × (length e.body ≤ 255)

-- A format that is known, and elements that it can carry.
abbrev pub CanCarryAll : ExtensionProfile → List ExtensionElement → Type 0
CanCarryAll unknown es = ⊥
CanCarryAll one_byte es = All (CanCarry one_byte) es
CanCarryAll two_byte es = All (CanCarry two_byte) es

size_in : (n : ℕ) → InRange 1 16 (pos n) → (1 ≤ n) × (n ≤ 16)
size_in n (m, e, lo, hi) = omega (arith, ap_pos e)
  where
    ap_pos : pos n ≡ pos m → n ≡ m
    ap_pos q = cc q

build_one_byte-Ensures :
    (es : List ExtensionElement)
    → Ensures IsBuildError (λ _. All (CanCarry one_byte) es) (build_one_byte es)
unfolding build_one_byte
build_one_byte-Ensures [] = tt
build_one_byte-Ensures (e ∷ es) =
    Ensures-bind IsBuildError _ _ (raise_if (not (in_range 1 14 e.id)) _) _
      (raise_if-Ensures IsBuildError _ _ (id_field, refl))
      (λ _ id_in.
        Ensures-bind IsBuildError _ _ (raise_if (not (in_range 1 16 (pos (length e.body)))) _) _
          (raise_if-Ensures IsBuildError _ _ (data_field, refl))
          (λ _ len_in.
            Ensures-bind IsBuildError _ _ (build_one_byte es) _ (build_one_byte-Ensures es)
              (λ rest fit.
                let (lo, hi) = size_in _ (not_in_range→InRange 1 16 _ len_in) in
                ((not_in_range→InRange 1 14 e.id id_in, lo, hi), fit))))

build_two_byte-Ensures :
    (es : List ExtensionElement)
    → Ensures IsBuildError (λ _. All (CanCarry two_byte) es) (build_two_byte es)
unfolding build_two_byte
build_two_byte-Ensures [] = tt
build_two_byte-Ensures (e ∷ es) =
    Ensures-bind IsBuildError _ _ (raise_if (not (in_range 1 255 e.id)) _) _
      (raise_if-Ensures IsBuildError _ _ (id_field, refl))
      (λ _ id_in.
        Ensures-bind IsBuildError _ _ (raise_if (ltb 255 (length e.body)) _) _
          (raise_if-Ensures IsBuildError _ _ (data_field, refl))
          (λ _ len_le.
            Ensures-bind IsBuildError _ _ (build_two_byte es) _ (build_two_byte-Ensures es)
              (λ rest fit. ((not_in_range→InRange 1 255 e.id id_in, ltb→ge 255 _ len_le), fit))))

build_one_byte_passes :
    (es : List ExtensionElement)
    → All (CanCarry one_byte) es
    → (body : Bytes) × (build_one_byte es ≡ ok body [])
unfolding build_one_byte
build_one_byte_passes [] h = ([], refl)
build_one_byte_passes (e ∷ es) ((id_in, lo, hi), h) =
    let (rest, built) = build_one_byte_passes es h in
    (
      bit_or (shl (pos_part e.id) 4) (length e.body - 1) ∷ (e.body ++ rest),
      rw (
        InRange→not_in_range 1 14 e.id id_in,
        InRange→not_in_range 1 16 (pos (length e.body)) (length e.body, refl, lo, hi),
        built,
      ),
    )

build_two_byte_passes :
    (es : List ExtensionElement)
    → All (CanCarry two_byte) es
    → (body : Bytes) × (build_two_byte es ≡ ok body [])
unfolding build_two_byte
build_two_byte_passes [] h = ([], refl)
build_two_byte_passes (e ∷ es) ((id_in, size), h) =
    let (rest, built) = build_two_byte_passes es h in
    (
      pos_part e.id ∷ length e.body ∷ (e.body ++ rest),
      rw (InRange→not_in_range 1 255 e.id id_in, ge→ltb 255 (length e.body) size, built),
    )

build_header_extension-Ensures :
    (es : List ExtensionElement) (kind : ExtensionProfile)
    → Ensures IsBuildError (λ _. CanCarryAll kind es) (build_header_extension es kind)
unfolding build_header_extension
build_header_extension-Ensures es unknown = (profile, refl)
build_header_extension-Ensures es one_byte =
    Ensures-bind IsBuildError _ _ (build_one_byte es) _ (build_one_byte-Ensures es) (λ _ h. h)
build_header_extension-Ensures es two_byte =
    Ensures-bind IsBuildError _ _ (build_two_byte es) _ (build_two_byte-Ensures es) (λ _ h. h)

build_header_extension_passes :
    (es : List ExtensionElement) (kind : ExtensionProfile)
    → CanCarryAll kind es
    → (ext : HeaderExtension) × (build_header_extension es kind ≡ ok ext [])
unfolding build_header_extension
build_header_extension_passes es unknown h = absurd h
build_header_extension_passes es one_byte h =
    let (body, built) = build_one_byte_passes es h in (pad_body one_byte_magic body, rw built)
build_header_extension_passes es two_byte h =
    let (body, built) = build_two_byte_passes es h in (pad_body two_byte_value body, rw built)

-- `build_header_extension` returns an extension exactly if the profile family is the one-byte or the
-- two-byte one and each element has an id and a size that it can carry; whatever it raises otherwise is
-- an `RtpBuildError`.
pub build_header_extension-iff-CanCarryAll :
    (es : List ExtensionElement) (kind : ExtensionProfile)
    → (((ext : HeaderExtension) × (build_header_extension es kind ≡ ok ext []))
        ↔ CanCarryAll kind es)
      × ((e : Exception) → build_header_extension es kind ≡ err e → IsBuildError e)
build_header_extension-iff-CanCarryAll es kind = (
  (
    λ (ext, h).
        Ensures-ok IsBuildError (λ _. CanCarryAll kind es) (build_header_extension es kind)
          (build_header_extension-Ensures es kind) h,
    build_header_extension_passes es kind,
  ),
  λ e h.
      Ensures-err IsBuildError (λ _. CanCarryAll kind es) (build_header_extension es kind)
        (build_header_extension-Ensures es kind) h,
)
