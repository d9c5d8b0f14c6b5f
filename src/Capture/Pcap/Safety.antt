-- ===== src/Capture/Pcap/Safety.antt =====
-- The pcap reader raises nothing but a `CaptureError`, and both modes yield the same packets.
use rtpkit.Common.{
  ℕ, zero, suc, ◌+◌, ◌≤◌, ◌≡◌, refl, Bool, true, false, Option, none, some, [], ◌∷◌, ◌⊎◌, inl, inr,
  ltb, ltb→ge, drop, length, length-drop, if◌then◌else◌, arith,
}
use rtpkit.Common.Int.{ℤ, pos}
use rtpkit.Errors.{
  Exception, is_capture_error, pcap_buffer_too_short, pcap_truncated_record, pcap_invalid_magic,
}
use rtpkit.Outcome.{Outcome, ok, err}
use rtpkit.Wire.{Bytes, slice}
use rtpkit.Wire.Order.{ByteOrder, ordered_u32_at}
use rtpkit.Capture.{Run, after, Times, PcapPacket}
use rtpkit.Capture.Pcap.{
  magic_info, take_record, record_loop, read_records, read_pcap_in, read_pcap, read_pcap_lenient,
}
use rtpkit.Capture.Runs.{
  Ends, Ends-if, IsCaptureError, after-Ends, yielded, Reads, ordered_u32_at-Reads,
}

module _ (times : Times) where
  open times use {Time}

  -- The loop raises only in strict mode, and then one of two exceptions.
  module _ (P : Exception → Type 0) (strict : Bool)
      (short : strict ≡ true → (n : ℕ) → P (pcap_buffer_too_short 16 n))
      (truncated : strict ≡ true → (m n : ℕ) → P (pcap_truncated_record m n)) where
    record_loop-Ends :
        (fuel : ℕ) (order : ByteOrder) (ts_divisor : ℕ) (link_type : ℤ) (rest : Bytes)
        → length rest ≤ fuel
        → Ends P (record_loop times fuel strict order ts_divisor link_type rest)
    unfolding record_loop
    record_loop-Ends fuel order ts_divisor link_type [] h = tt
    record_loop-Ends zero order ts_divisor link_type (b ∷ bs) h = absurd (omega arith)
    record_loop-Ends (suc fuel) order ts_divisor link_type (b ∷ bs) h =
        Ends-if P (ltb (length (b ∷ bs)) 16) _ _
          (λ _. Ends-if P strict _ _ (λ s. short s (length (b ∷ bs))) (λ _. tt))
          λ long.
            after-Ends P Reads (ordered_u32_at order (b ∷ bs) 0) _
              (ordered_u32_at-Reads P order (b ∷ bs) 0 (omega (arith, ltb→ge _ _ long)))
              λ ts_sec _.
                after-Ends P Reads (ordered_u32_at order (b ∷ bs) 4) _
                  (ordered_u32_at-Reads P order (b ∷ bs) 4 (omega (arith, ltb→ge _ _ long)))
                  λ ts_frac _.
                    after-Ends P Reads (ordered_u32_at order (b ∷ bs) 8) _
                      (ordered_u32_at-Reads P order (b ∷ bs) 8 (omega (arith, ltb→ge _ _ long)))
                      λ incl_len _.
                        after-Ends P Reads (ordered_u32_at order (b ∷ bs) 12) _
                          (ordered_u32_at-Reads P order (b ∷ bs) 12
                            (omega (arith, ltb→ge _ _ long)))
                          λ orig_len _.
                            Ends-if P (ltb (length (b ∷ bs)) (16 + incl_len)) _ _
                              (λ _. Ends-if P strict _ _ (λ s. truncated s incl_len _) (λ _. tt))
                              (λ _.
                                record_loop-Ends fuel order ts_divisor link_type
                                  (drop (16 + incl_len) (b ∷ bs))
                                  (omega (arith, length-drop (16 + incl_len) (b ∷ bs))))

    read_records-Ends :
        (bytes : Bytes) (info : Option (ByteOrder × ℕ))
        → 24 ≤ length bytes
        → ((magic : Bytes) → P (pcap_invalid_magic magic))
        → Ends P (read_records times strict bytes info)
    read_records-Ends bytes none h unknown = unknown (slice bytes 0 4)
    read_records-Ends bytes (some (order, ts_divisor)) h unknown =
        after-Ends P Reads (ordered_u32_at order bytes 20) _
          (ordered_u32_at-Reads P order bytes 20 (omega arith))
          λ link_type _.
            record_loop-Ends (length bytes) order ts_divisor (pos link_type) (drop 24 bytes)
              (omega (arith, length-drop 24 bytes))

  pub read_pcap_in-Ends :
      (strict : Bool) (bytes : Bytes) → Ends IsCaptureError (read_pcap_in times strict bytes)
  unfolding read_pcap_in is_capture_error
  read_pcap_in-Ends strict bytes =
      Ends-if IsCaptureError (ltb (length bytes) 24) _ _ (λ _. refl)
        (λ long.
          read_records-Ends IsCaptureError strict (λ s n. refl) (λ s m n. refl) bytes
            (magic_info (slice bytes 0 4)) (ltb→ge _ _ long) (λ magic. refl))

  -- What can be wrong with the header of a file.
  abbrev pub IsHeaderError : Exception → Type 0
  IsHeaderError e =
      ((n : ℕ) × (e ≡ pcap_buffer_too_short 24 n))
      ⊎ ((magic : Bytes) × (e ≡ pcap_invalid_magic magic))

  lenient-Ends : (bytes : Bytes) → Ends IsHeaderError (read_pcap_in times false bytes)
  unfolding read_pcap_in
  lenient-Ends bytes =
      Ends-if IsHeaderError (ltb (length bytes) 24) _ _ (λ _. inl (length bytes, refl))
        (λ long.
          read_records-Ends IsHeaderError false (λ s n. absurd (cc s)) (λ s m n. absurd (cc s))
            bytes (magic_info (slice bytes 0 4)) (ltb→ge _ _ long) (λ magic. inr (magic, refl)))

  -- Runs that yield the same packets.
  after_same :
      {A : Type 0} (m : Outcome A) (k l : A → Run (PcapPacket Time))
      → ((a : A) → yielded (k a) ≡ yielded (l a))
      → yielded (after m k) ≡ yielded (after m l)
  after_same (ok a ws) k l h = h a
  after_same (err e) k l h = refl

  if_same :
      (test : Bool) (r s r' s' : Run (PcapPacket Time))
      → yielded r ≡ yielded r'
      → yielded s ≡ yielded s'
      → yielded (if test then r else s) ≡ yielded (if test then r' else s')
  if_same true r s r' s' h k = h
  if_same false r s r' s' h k = k

  take_record_same :
      (ts_divisor : ℕ) (link_type : ℤ) (ts_sec ts_frac incl_len orig_len : ℕ) (rest : Bytes)
      (more more' : Run (PcapPacket Time))
      → yielded more ≡ yielded more'
      → yielded
          (take_record times true ts_divisor link_type ts_sec ts_frac incl_len orig_len rest more)
        ≡ yielded (
            take_record times false ts_divisor link_type ts_sec ts_frac incl_len orig_len rest
              more')
  take_record_same ts_divisor link_type ts_sec ts_frac incl_len orig_len rest more more' h =
      if_same (ltb (length rest) (16 + incl_len)) _ _ _ _ refl (rw h refl)

  record_loop_same :
      (fuel : ℕ) (order : ByteOrder) (ts_divisor : ℕ) (link_type : ℤ) (rest : Bytes)
      → yielded (record_loop times fuel true order ts_divisor link_type rest)
        ≡ yielded (record_loop times fuel false order ts_divisor link_type rest)
  unfolding record_loop
  record_loop_same fuel order ts_divisor link_type [] = refl
  record_loop_same zero order ts_divisor link_type (b ∷ bs) = refl
  record_loop_same (suc fuel) order ts_divisor link_type (b ∷ bs) =
      if_same (ltb (length (b ∷ bs)) 16) _ _ _ _ refl (
        after_same (ordered_u32_at order (b ∷ bs) 0) _ _ λ ts_sec.
          after_same (ordered_u32_at order (b ∷ bs) 4) _ _ λ ts_frac.
            after_same (ordered_u32_at order (b ∷ bs) 8) _ _ λ incl_len.
              after_same (ordered_u32_at order (b ∷ bs) 12) _ _ λ orig_len.
                take_record_same ts_divisor link_type ts_sec ts_frac incl_len orig_len (b ∷ bs) _ _
                  (record_loop_same fuel order ts_divisor link_type
                    (drop (16 + incl_len) (b ∷ bs))))

  records_same :
      (bytes : Bytes) (info : Option (ByteOrder × ℕ))
      → yielded (read_records times true bytes info) ≡ yielded (read_records times false bytes info)
  records_same bytes none = refl
  records_same bytes (some (order, ts_divisor)) =
      after_same (ordered_u32_at order bytes 20) _ _ (λ link_type.
        record_loop_same (length bytes) order ts_divisor (pos link_type) (drop 24 bytes))

  -- `read_pcap_lenient` yields just the packets that `read_pcap` yields before it raises, if it does; and it raises
  -- itself only over the header of the file: a buffer shorter than that, or an unknown magic.
  pub read_pcap-read_pcap_lenient :
      (bytes : Bytes)
      → (yielded (read_pcap times bytes) ≡ yielded (read_pcap_lenient times bytes))
        × Ends IsHeaderError (read_pcap_lenient times bytes)
  unfolding read_pcap read_pcap_lenient read_pcap_in
  read_pcap-read_pcap_lenient bytes = (
    if_same (ltb (length bytes) 24) _ _ _ _ refl
        (records_same bytes (magic_info (slice bytes 0 4))),
    lenient-Ends bytes,
  )
