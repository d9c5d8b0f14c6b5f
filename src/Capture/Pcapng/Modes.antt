-- ===== src/Capture/Pcapng/Modes.antt =====
-- The strict and the lenient mode of the pcapng reader.
use rtpkit.Common.{
  ℕ, zero, suc, ◌-◌, ◌≡◌, refl, Bool, true, false, Option, none, some, List, [], ◌∷◌, not, ◌||◌,
  ltb, ◌==◌, drop, length, if◌then◌else◌,
}
use rtpkit.Errors.{Exception}
use rtpkit.Outcome.{Outcome, ok, err}
use rtpkit.Wire.{Bytes, slice}
use rtpkit.Wire.Order.{ByteOrder, ordered_u32_at}
use rtpkit.Capture.{Run, yields, returns, raises, after, Times, PcapPacket}
use rtpkit.Capture.Pcapng.{
  Interface, parse_idb, parse_epb, parse_spb, is_malformed_block, enter_section, skip_malformed,
  add_interface, yield_packet, read_block, block_loop, read_pcapng_in, read_pcapng,
  read_pcapng_lenient, min_block_size, idb_type, epb_type, spb_type,
}

-- The second run does what the first does, until the first raises: it yields the same packets, logs nothing
-- before, and returns where the first returns.
abbrev pub Follows {ℓ} : {A : Type ℓ} → Run A → Run A → Type ℓ
Follows (yields a more) (yields b more') = (a ≡ b) × Follows more more'
Follows returns returns = Unit
Follows (raises e) run = Unit
Follows _ _ = ⊥ × Unit

module _ (times : Times) where
  open times use {Time}

  Follows-if :
      (test : Bool) (r s r' s' : Run (PcapPacket Time))
      → Follows r r'
      → Follows s s'
      → Follows (if test then r else s) (if test then r' else s')
  Follows-if true r s r' s' h k = h
  Follows-if false r s r' s' h k = k

  after-Follows :
      {A : Type 0} (m : Outcome A) (k l : A → Run (PcapPacket Time))
      → ((a : A) → Follows (k a) (l a))
      → Follows (after m k) (after m l)
  after-Follows (ok a ws) k l h = h a
  after-Follows (err e) k l h = tt

  skip_malformed-Follows :
      (block_type : ℕ) (e : Exception) (more more' : Run (PcapPacket Time))
      → Follows
          (skip_malformed times true block_type e more)
          (skip_malformed times false block_type e more')
  skip_malformed-Follows block_type e more more' =
      Follows-if (not (is_malformed_block e)) _ _ _ _ tt tt

  module _ (block_type : ℕ) (known known' : List Interface → Run (PcapPacket Time))
      (same : (interfaces : List Interface) → Follows (known interfaces) (known' interfaces)) where
    add_interface-Follows :
        (m : Outcome Interface) (interfaces : List Interface)
        → Follows
            (add_interface times true block_type m interfaces known)
            (add_interface times false block_type m interfaces known')
    add_interface-Follows (ok interface ws) interfaces = same _
    add_interface-Follows (err e) interfaces =
        skip_malformed-Follows block_type e (known interfaces) (known' interfaces)

    yield_packet-Follows :
        (m : Outcome (PcapPacket Time)) (interfaces : List Interface)
        → Follows
            (yield_packet times true block_type m (known interfaces))
            (yield_packet times false block_type m (known' interfaces))
    yield_packet-Follows (ok packet ws) interfaces = (refl, same interfaces)
    yield_packet-Follows (err e) interfaces =
        skip_malformed-Follows block_type e (known interfaces) (known' interfaces)

    read_block-Follows :
        (order : ByteOrder) (interfaces : List Interface) (body : Bytes)
        → Follows
            (read_block times true order interfaces block_type body known)
            (read_block times false order interfaces block_type body known')
    read_block-Follows order interfaces body =
        Follows-if (block_type == idb_type) _ _ _ _
          (add_interface-Follows (parse_idb body order) interfaces)
          (Follows-if (block_type == epb_type) _ _ _ _
            (yield_packet-Follows (parse_epb times body order interfaces) interfaces)
            (Follows-if (block_type == spb_type) _ _ _ _
              (yield_packet-Follows (parse_spb times body order interfaces) interfaces)
              (same interfaces)))

  block_loop-Follows :
      (fuel : ℕ) (order : Option ByteOrder) (interfaces : List Interface) (rest : Bytes)
      → Follows
          (block_loop times fuel true order interfaces rest)
          (block_loop times fuel false order interfaces rest)
  unfolding block_loop
  block_loop-Follows fuel order interfaces [] = tt
  block_loop-Follows zero order interfaces (b ∷ bs) = tt
  block_loop-Follows (suc fuel) order interfaces (b ∷ bs) =
      Follows-if (ltb (length (b ∷ bs)) min_block_size) _ _ _ _ tt (
        after-Follows (enter_section order interfaces (b ∷ bs)) _ _ λ section.
          after-Follows (ordered_u32_at section.0 (b ∷ bs) 0) _ _ λ block_type.
            after-Follows (ordered_u32_at section.0 (b ∷ bs) 4) _ _ λ block_total_length.
              Follows-if
                (ltb block_total_length min_block_size || ltb (length (b ∷ bs)) block_total_length)
                _ _ _ _ tt
                (read_block-Follows block_type _ _
                  (λ known.
                    block_loop-Follows fuel (some section.0) known
                      (drop block_total_length (b ∷ bs)))
                  section.0 section.1 (slice (b ∷ bs) 8 (block_total_length - 4))))

  -- `read_pcapng_lenient` does just what `read_pcapng` does, until that raises, if it does: it yields the same packets, in
  -- order and without a warning in between, and it returns where the strict reader returns.
  pub read_pcapng-read_pcapng_lenient :
      (bytes : Bytes) → Follows (read_pcapng times bytes) (read_pcapng_lenient times bytes)
  unfolding read_pcapng read_pcapng_lenient read_pcapng_in
  read_pcapng-read_pcapng_lenient bytes =
      Follows-if (ltb (length bytes) min_block_size) _ _ _ _ tt
        (block_loop-Follows (length bytes) none [] bytes)
