-- ===== src/Net/Encap/Frame.antt =====
-- The link layer that is put around a packet is what `_strip_link_layer` takes off.
use rtpkit.Common.{
  ℕ, ◌^◌, ◌<◌, ◌≡◌, refl, ◌⊎◌, inl, inr, false, some, [], ◌∷◌, ◌++◌, ge→ltb, ◌==◌, length, arith,
}
use rtpkit.Common.Int.{ℤ, pos}
use rtpkit.Common.Keys.{beq_cases, int_eq}
use rtpkit.Errors.{encapsulation_error, unsupported_link_type}
use rtpkit.Outcome.{ok, err}
use rtpkit.Wire.{Bytes, split_u16, zeros, byte_at, u16_at}
use rtpkit.Wire.Write.{pack_u16_lem, join-split_u16}
use rtpkit.Net.{dlt_en10mb, dlt_linux_sll, dlt_raw, ethertype_ipv4, ethertype_ipv6}
use rtpkit.Net.Decap.{
  ethertype_vlan, vlan_loop, strip_ethernet, strip_sll, strip_raw, strip_link_layer,
}
use rtpkit.Net.Encap.{dummy_dst_mac, dummy_src_mac, wrap_link}

-- The link types that a frame can be built for.
abbrev pub SupportedLink : ℤ → Type 0
SupportedLink link_type =
    (link_type ≡ pos dlt_en10mb) ⊎ ((link_type ≡ pos dlt_linux_sll) ⊎ (link_type ≡ pos dlt_raw))

ethernet_stripped :
    (ethertype : ℕ) (a b c d e f g h i j k l : ℕ) (packet : Bytes)
    → (ethertype == ethertype_vlan) ≡ false
    → strip_ethernet
        (a ∷ b ∷ c ∷ d ∷ e ∷ f ∷ g ∷ h ∷ i ∷ j ∷ k ∷ l ∷ (split_u16 ethertype ++ packet))
      ≡ ok (some (ethertype, packet)) []
unfolding strip_ethernet vlan_loop u16_at
ethernet_stripped ethertype a b c d e f g h i j k l packet t =
    rw
      (
        ge→ltb
            (length
              (a ∷ b ∷ c ∷ d ∷ e ∷ f ∷ g ∷ h ∷ i ∷ j ∷ k ∷ l ∷ (split_u16 ethertype ++ packet)))
            14 (omega arith),
        join-split_u16 ethertype,
        t,
      )
      refl

sll_stripped :
    (ethertype : ℕ) (a b c d e f g h i j k l m n : ℕ) (packet : Bytes)
    → strip_sll
        (a ∷ b ∷ c ∷ d ∷ e ∷ f ∷ g ∷ h ∷ i ∷ j ∷ k ∷ l ∷ m ∷ n ∷ (split_u16 ethertype ++ packet))
      ≡ ok (some (ethertype, packet)) []
unfolding strip_sll u16_at
sll_stripped ethertype a b c d e f g h i j k l m n packet =
    rw
      (
        ge→ltb
            (length (
              a
              ∷ b
              ∷ c
              ∷ d
              ∷ e
              ∷ f
              ∷ g
              ∷ h
              ∷ i
              ∷ j
              ∷ k
              ∷ l
              ∷ m
              ∷ n
              ∷ (split_u16 ethertype ++ packet)))
            16 (omega arith),
        join-split_u16 ethertype,
      )
      refl

-- The first byte tells the version of a raw packet.
pub strip_raw_v4 :
    (rest : Bytes) → strip_raw (0x45 ∷ rest) ≡ ok (some (ethertype_ipv4, 0x45 ∷ rest)) []
unfolding strip_raw byte_at
strip_raw_v4 rest = rw (ge→ltb (length (0x45 ∷ rest)) 1 (omega arith)) refl

pub strip_raw_v6 :
    (rest : Bytes) → strip_raw (0x60 ∷ rest) ≡ ok (some (ethertype_ipv6, 0x60 ∷ rest)) []
unfolding strip_raw byte_at
strip_raw_v6 rest = rw (ge→ltb (length (0x60 ∷ rest)) 1 (omega arith)) refl

pub wrap_link-strip :
    (link_type : ℤ) (ethertype : ℕ) (packet : Bytes)
    → SupportedLink link_type
    → ethertype < 2 ^ 16
    → (ethertype == ethertype_vlan) ≡ false
    → strip_raw packet ≡ ok (some (ethertype, packet)) []
    → (frame : Bytes) × (wrap_link link_type packet ethertype ≡ ok frame [])
      × (strip_link_layer link_type frame ≡ ok (some (ethertype, packet)) [])
unfolding wrap_link strip_link_layer
wrap_link-strip link_type ethertype packet (inl e) h t raw = (
  dummy_dst_mac ++ (dummy_src_mac ++ (split_u16 ethertype ++ packet)),
  rw (e, pack_u16_lem ethertype h) refl,
  rw e (ethernet_stripped ethertype 0 0 0 0 0 1 0 0 0 0 0 2 packet t),
)
wrap_link-strip link_type ethertype packet (inr (inl e)) h t raw = (
  (0 ∷ 0 ∷ 0 ∷ 1 ∷ 0 ∷ 0 ∷ []) ++ (zeros 8 ++ (split_u16 ethertype ++ packet)),
  rw (e, pack_u16_lem ethertype h) refl,
  rw e (sll_stripped ethertype 0 0 0 1 0 0 0 0 0 0 0 0 0 0 packet),
)
wrap_link-strip link_type ethertype packet (inr (inr e)) h t raw = (packet, rw e refl, rw e raw)

pub link_type_cases :
    (link_type : ℤ)
    → SupportedLink link_type
      ⊎ ((packet : Bytes) (ethertype : ℕ)
          → wrap_link link_type packet ethertype ≡ err (encapsulation_error unsupported_link_type))
unfolding wrap_link
link_type_cases link_type = elim (beq_cases link_type (pos dlt_en10mb)) [
  | inl (_, e) ↦ inl (inl e)
  | inr (a, _) ↦ elim (beq_cases link_type (pos dlt_linux_sll)) [
    | inl (_, e) ↦ inl (inr (inl e))
    | inr (b, _) ↦ elim (beq_cases link_type (pos dlt_raw)) [
      | inl (_, e) ↦ inl (inr (inr e))
      | inr (c, _) ↦ inr (λ packet ethertype. rw (a, b, c) refl)
    ]
  ]
]
