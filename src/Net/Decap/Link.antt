-- ===== src/Net/Decap/Link.antt =====
-- The link layers and the IPv6 extension headers: stripping them raises nothing and leaves a stretch of the
-- frame.
use rtpkit.Common.{
  ℕ, zero, suc, ◌+◌, ◌-◌, ◌*◌, min, ◌≡◌, ◌∙◌, sym, ap, Option, none, some, Bool-cases, inl, inr,
  not, ltb, ltb→ge, ◌==◌, bit_and, take, drop, length, drop-drop, drop-take, take-take, take_all,
  if◌then◌else◌, arith,
}
use rtpkit.Common.Bits.{shr}
use rtpkit.Common.Int.{ℤ, pos}
use rtpkit.Common.Keys.{beq_ℤ}
use rtpkit.Errors.{Exception}
use rtpkit.Outcome.Laws.{Yields, Yields-bind, Yields-if}
use rtpkit.Wire.{Bytes, byte_at, u16_at}
use rtpkit.Wire.Read.{byte_at-Yields, u16_at-Yields}
use rtpkit.Net.{dlt_en10mb, dlt_linux_sll, dlt_raw}
use rtpkit.Net.Decap.{
  ethertype_vlan, max_vlan_tags, is_ipv6_ext_header, ipv6_fragment, vlan_loop, strip_ethernet,
  strip_sll, strip_raw, raw_version, strip_link_layer, ext_header_loop,
}

abbrev pub Never : Exception → Type 0
Never e = ⊥

-- A stretch of a byte string.
abbrev pub IsPiece : Bytes → Bytes → Type 0
IsPiece whole piece = (i n : ℕ) × (piece ≡ take n (drop i whole))

pub whole-IsPiece : (whole : Bytes) (i : ℕ) → IsPiece whole (drop i whole)
whole-IsPiece whole i = (i, length (drop i whole), sym (take_all _ (drop i whole) (omega arith)))

pub IsPiece-trans : (a b c : Bytes) → IsPiece a b → IsPiece b c → IsPiece a c
IsPiece-trans a b c (i, n, e) (j, m, f) = (i + j, min m (n - j), joined)
  where
    joined : c ≡ take (min m (n - j)) (drop (i + j) a)
    joined =
        f
        ∙ ap (λ (xs : Bytes). take m (drop j xs)) e
        ∙ ap (take m) (drop-take j n (drop i a))
        ∙ take-take m (n - j) (drop j (drop i a))
        ∙ ap (take (min m (n - j))) (drop-drop j i a)

-- A link layer that is stripped leaves a piece of the frame.
abbrev pub LinkLeft : Bytes → Option (ℕ × Bytes) → Type 0
LinkLeft frame none = Unit
LinkLeft frame (some (ethertype, rest)) = IsPiece frame rest

vlan_loop-Yields :
    (n : ℕ) (frame : Bytes) (ethertype offset : ℕ)
    → Yields Never (LinkLeft frame) (vlan_loop n frame ethertype offset)
unfolding vlan_loop
vlan_loop-Yields zero frame ethertype offset = whole-IsPiece frame offset
vlan_loop-Yields (suc n) frame ethertype offset =
    Yields-if Never _ (not (ethertype == ethertype_vlan)) _ _ (λ _. whole-IsPiece frame offset)
      λ _.
        Yields-if Never _ (ltb (length frame) (offset + 4)) _ _ (λ _. tt)
          λ long.
            Yields-bind Never _ _ (u16_at frame (offset + 2)) _
              (u16_at-Yields Never frame (offset + 2) (omega (arith, ltb→ge _ _ long)))
              (λ inner _. vlan_loop-Yields n frame inner (offset + 4))

strip_ethernet-Yields : (frame : Bytes) → Yields Never (LinkLeft frame) (strip_ethernet frame)
unfolding strip_ethernet
strip_ethernet-Yields frame =
    Yields-if Never _ (ltb (length frame) 14) _ _ (λ _. tt)
      λ long.
        Yields-bind Never _ _ (u16_at frame 12) _
          (u16_at-Yields Never frame 12 (omega (arith, ltb→ge _ _ long)))
          (λ ethertype _. vlan_loop-Yields max_vlan_tags frame ethertype 14)

strip_sll-Yields : (frame : Bytes) → Yields Never (LinkLeft frame) (strip_sll frame)
unfolding strip_sll
strip_sll-Yields frame =
    Yields-if Never _ (ltb (length frame) 16) _ _ (λ _. tt)
      λ long.
        Yields-bind Never _ _ (u16_at frame 14) _
          (u16_at-Yields Never frame 14 (omega (arith, ltb→ge _ _ long)))
          (λ ethertype _. whole-IsPiece frame 16)

raw_version-LinkLeft : (frame : Bytes) (version : ℕ) → LinkLeft frame (raw_version frame version)
raw_version-LinkLeft frame version = elim (Bool-cases (version == 4)) [
  | inl four ↦ rw four (whole-IsPiece frame 0)
  | inr other ↦ rw other (elim (Bool-cases (version == 6)) [
    | inl six ↦ rw six (whole-IsPiece frame 0)
    | inr none_such ↦ rw none_such tt
  ])
]

strip_raw-Yields : (frame : Bytes) → Yields Never (LinkLeft frame) (strip_raw frame)
unfolding strip_raw
strip_raw-Yields frame =
    Yields-if Never _ (ltb (length frame) 1) _ _ (λ _. tt)
      λ long.
        Yields-bind Never _ _ (byte_at frame 0) _
          (byte_at-Yields Never frame 0 (omega (arith, ltb→ge _ _ long)))
          (λ b _. raw_version-LinkLeft frame (bit_and (shr b 4) 0x0f))

pub strip_link_layer-Yields :
    (link_type : ℤ) (frame : Bytes)
    → Yields Never (LinkLeft frame) (strip_link_layer link_type frame)
unfolding strip_link_layer
strip_link_layer-Yields link_type frame =
    Yields-if Never _ (beq_ℤ link_type (pos dlt_en10mb)) _ _ (λ _. strip_ethernet-Yields frame)
      λ _.
        Yields-if Never _ (beq_ℤ link_type (pos dlt_linux_sll)) _ _ (λ _. strip_sll-Yields frame)
          λ _.
            Yields-if Never _ (beq_ℤ link_type (pos dlt_raw)) _ _ (λ _. strip_raw-Yields frame)
              (λ _. tt)

pub ext_header_loop-Yields :
    (n : ℕ) (bytes : Bytes) (next_header offset : ℕ)
    → Yields Never (λ _. Unit {0}) (ext_header_loop n bytes next_header offset)
unfolding ext_header_loop
ext_header_loop-Yields zero bytes next_header offset = tt
ext_header_loop-Yields (suc n) bytes next_header offset =
    Yields-if Never _ (not (is_ipv6_ext_header next_header)) _ _ (λ _. tt)
      λ _.
        Yields-if Never _ (ltb (length bytes) (offset + 2)) _ _ (λ _. tt)
          λ long.
            Yields-bind Never _ _ (byte_at bytes offset) _
              (byte_at-Yields Never bytes offset (omega (arith, ltb→ge _ _ long)))
              λ following _.
                Yields-bind Never _ _ (byte_at bytes (offset + 1)) _
                  (byte_at-Yields Never bytes (offset + 1) (omega (arith, ltb→ge _ _ long)))
                  λ units _.
                    Yields-if Never _
                      (ltb (length bytes)
                        (offset + (if next_header == ipv6_fragment then 8 else (units + 1) * 8)))
                      _ _ (λ _. tt) (λ _. ext_header_loop-Yields n bytes following _)
