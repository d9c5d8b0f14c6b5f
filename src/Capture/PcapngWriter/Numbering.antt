-- ===== src/Capture/PcapngWriter/Numbering.antt =====
-- The interfaces that `write_pcapng` numbers: each link type has the index at which it stands.
use rtpkit.Common.{
  ℕ, suc, ◌+◌, ◌≡◌, ◌∙◌, ap, some, List, [], ◌∷◌, ◌++◌, map, inl, inr, Bool-cases, length,
  get_elem?, All, arith,
}
use rtpkit.Common.Int.{ℤ, pos, pos_part}
use rtpkit.Common.Keys.{int_eq, contains, lookup, keys, beq_cases}
use rtpkit.Common.Dicts.{insert_new}
use rtpkit.Capture.{Times, PcapPacket}
use rtpkit.Capture.Pcapng.{Interface}
use rtpkit.Capture.PcapngWriter.{number_interfaces}
use rtpkit.Capture.PcapngWriter.Bodies.{written_interface}

abbrev pub Numbered : ℕ → List (ℤ × ℕ) → Type 0
Numbered i [] = Unit
Numbered i ((k, v) ∷ d) = (v ≡ i) × Numbered (suc i) d

Numbered-append_one :
    (i : ℕ) (d : List (ℤ × ℕ)) (k : ℤ) (v : ℕ)
    → v ≡ i + length d
    → Numbered i d
    → Numbered i (d ++ ((k, v) ∷ []))
Numbered-append_one i [] k v e h = (omega arith, tt)
Numbered-append_one i ((j, w) ∷ d) k v e (same, h) =
    (same, Numbered-append_one (suc i) d k v (omega arith) h)

abbrev pub interface_of : ℤ → Interface
interface_of z = written_interface (pos_part z)

abbrev pub Natural : ℤ → Type 0
Natural z = (n : ℕ) × (z ≡ pos n)

-- What a number finds among the interfaces in this order.
abbrev Stands : ℕ → ℤ → ℕ → List ℤ → Type 0
Stands i k j types =
    (m l : ℕ) × (j ≡ i + m)
    × (k ≡ pos l)
    × (get_elem? (map interface_of types) m ≡ some (written_interface l))

pub lookup-Stands :
    (i : ℕ) (d : List (ℤ × ℕ)) (k : ℤ) (j : ℕ)
    → Numbered i d
    → All Natural (keys d)
    → lookup k d ≡ some j
    → Stands i k j (keys d)
lookup-Stands i [] k j h a e = absurd (cc e)
lookup-Stands i ((k', v) ∷ d) k j (same, h) ((n, at), a) e = elim (beq_cases k k') [
  | inl (hit, q) ↦ (
    0,
    n,
    omega (arith, some_same v j (rw hit at e)),
    q ∙ at,
    ap (λ (z : ℤ). some (interface_of z)) at,
  )
  | inr (miss, q) ↦ later (lookup-Stands (suc i) d k j h a (rw miss at e))
]
  where
    some_same : (x y : ℕ) → some x ≡ some y → x ≡ y
    some_same x y p = cc p

    later : Stands (suc i) k j (keys d) → Stands i k j (k' ∷ keys d)
    later (m, l, em, ek, eg) = (suc m, l, omega arith, ek, eg)

module _ (times : Times) where
  open times use {Time}

  pub number_interfaces-Numbered :
      (packets : List (PcapPacket Time)) (d : List (ℤ × ℕ))
      → Numbered 0 d
      → Numbered 0 (number_interfaces times d packets)
  unfolding number_interfaces
  number_interfaces-Numbered [] d h = h
  number_interfaces-Numbered (p ∷ packets) d h =
      number_interfaces-Numbered packets _ (elim (Bool-cases (contains p.link_type (keys d))) [
        | inl old ↦ rw old h
        | inr new ↦
            rw (new, insert_new p.link_type (length d) d new)
              (Numbered-append_one 0 d p.link_type (length d) (omega arith) h)
      ])
