-- ===== src/Rtp/Extension/Packet.antt =====
-- Extension elements on their way through a packet: set on the builder, built, parsed, and read.
use rtpkit.Common.{ℕ, ◌*◌, ◌/◌, ◌≡◌, refl, ap, ◌∙◌, some, List, [], arith, length}
use rtpkit.Common.Int.{pos}
use rtpkit.Outcome.{ok}
use rtpkit.Outcome.Laws.{Any, Ensures, Ensures-bind, Ensures-ok}
use rtpkit.Wire.{Bytes}
use rtpkit.Rtp.{HeaderExtension, RtpPacket}
use rtpkit.Rtp.Builder.{RtpBuilder, with_extension, build, build_packet}
use rtpkit.Rtp.Builder.Image.{built_extension, packet_of}
use rtpkit.Rtp.Builder.RoundTrip.{build_packet_lem}
use rtpkit.Rtp.Extension.{
  ExtensionElement, ExtensionProfile, parse_extension_elements, build_header_extension,
  with_extension_elements,
}
use rtpkit.Rtp.Extension.RoundTrip.{IsBuiltFrom, build_header_extension-Ensures}

-- The builder's version is kept, and its extension is one that holds the elements.
abbrev Carries : List ExtensionElement → RtpBuilder → RtpBuilder → Type 0
Carries es b b' =
    (b'.version ≡ b.version)
    × ((ext : HeaderExtension) × (built_extension b'.ext_profile b'.ext_data ≡ some ext)
        × (parse_extension_elements ext ≡ ok es []))

same_extension :
    (ext : HeaderExtension)
    → ext.length_words * 4 ≡ length ext.body
    → built_extension (some (pos ext.profile)) ext.body ≡ some ext
same_extension ext h =
    ap (λ (n : ℕ). some (record { profile = ext.profile; length_words = n; body = ext.body })) words
  where
    words : length ext.body / 4 ≡ ext.length_words
    words = omega (arith, h)

with_extension_elements-Ensures :
    (es : List ExtensionElement) (kind : ExtensionProfile) (b : RtpBuilder)
    → Ensures Any (Carries es b) (with_extension_elements es kind b)
unfolding with_extension_elements with_extension
with_extension_elements-Ensures es kind b =
    Ensures-bind Any (IsBuiltFrom es) (Carries es b) (build_header_extension es kind) _
      (build_header_extension-Ensures es kind)
      λ ext (whole, parsed). (refl, (ext, same_extension ext whole, parsed))

-- If `with_extension_elements` accepts some elements on a builder of version 2, and `build` then returns,
-- then `build_packet` returns a packet with a header extension, off which `parse_extension_elements` reads
-- just those elements.
pub build_packet-with_extension_elements :
    (es : List ExtensionElement) (kind : ExtensionProfile) (b : RtpBuilder) {b' : RtpBuilder}
    {bytes : Bytes}
    → with_extension_elements es kind b ≡ ok b' []
    → b.version ≡ pos 2
    → build b' ≡ ok bytes []
    → (p : RtpPacket) × (ext : HeaderExtension) × (build_packet b' ≡ ok p [])
      × (p.header_extension ≡ some ext)
      × (parse_extension_elements ext ≡ ok es [])
build_packet-with_extension_elements es kind b {b'} {bytes} set version built =
    let (kept, (ext, held, parsed)) =
      Ensures-ok Any (Carries es b) (with_extension_elements es kind b)
        (with_extension_elements-Ensures es kind b) set in
    (packet_of b' bytes, ext, build_packet_lem b' built (kept ∙ version), held, parsed)
