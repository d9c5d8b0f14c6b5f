-- ===== src/Rtcp/Parser/Compound/Sound.antt =====
-- Where the strict loop returns, its bytes are a compound buffer of the packets.
use rtpkit.Common.{
  ℕ, zero, suc, ◌+◌, ◌-◌, ◌*◌, ◌^◌, ◌≡◌, ◌∙◌, refl, sym, ap, Bool, true, false, Option, some, [],
  ◌∷◌, ◌++◌, not, ◌||◌, ltb, ltb→ge, ◌==◌, bit_and, All, length, take, drop, length-take, take_all,
  drop-drop, take-append-drop, ◌<◌, subst, arith,
}
use rtpkit.Common.Bits.{shr}
use rtpkit.Outcome.{Outcome, ok, err}
use rtpkit.Outcome.Laws.{Any, Ensures, Ensures-bind, Ensures-if, Ensures-self, Ensures-mono, Yields}
use rtpkit.Wire.{Bytes, IsByte, byte_at, u16_at, slice}
use rtpkit.Wire.Read.{All-drop, byte_at-IsQuiet}
use rtpkit.Rtcp.{RtcpPacket}
use rtpkit.Rtcp.Bodies.{parse_one}
use rtpkit.Rtcp.Bodies.Safety.{IsMalformed, Matches, parse_one-Yields}
use rtpkit.Rtcp.Parser.{
  RtcpHeader, packet_len, parse_header, check_version, use_pad_count, parse_padding, skip_malformed,
  parse_packet, append_packet, compound_loop,
}
use rtpkit.Rtcp.Parser.Compound.{
  IsPadded, IsPacket, IsCompound, IsRead, read_header, flag_eq, count_eq, version_eq,
}

parse_padding-IsPadded :
    (flag : Bool) (body : Bytes)
    → Ensures Any
        (λ (pad, stop). IsPadded flag pad (take stop body) body)
        (parse_padding true flag body)
unfolding parse_padding use_pad_count
parse_padding-IsPadded false body = (refl, take_all (length body) body (omega arith))
parse_padding-IsPadded true body =
    Ensures-if Any _ (ltb (length body) 1) _ _ (λ _. tt)
      λ _.
        Ensures-bind Any _ _ (byte_at body (length body - 1)) _
          (Ensures-self (byte_at body (length body - 1)) (byte_at-IsQuiet body (length body - 1)))
          λ pad last.
            Ensures-if Any _ ((pad == 0) || ltb (length body) pad) _ _ (λ _. tt)
              (λ fits. (ground arith, ground arith, last, refl))

skip_malformed-some :
    (kind : ℕ) (Q : RtcpPacket → Type 0) (m : Outcome RtcpPacket)
    → Yields IsMalformed Q m
    → Ensures Any
        (λ r. (p : RtcpPacket) × (r ≡ some p) × (m ≡ ok p []))
        (skip_malformed true kind m)
unfolding skip_malformed
skip_malformed-some kind Q (ok p []) h = (p, refl, refl)
skip_malformed-some kind Q (ok p (w ∷ ws)) h = absurd h
skip_malformed-some kind Q (err e) (detail, h) = rw h tt

parse_packet-IsRead :
    (header : RtcpHeader) (body : Bytes)
    → Ensures Any
        (λ r. (p : RtcpPacket) × (r ≡ some p) × IsRead header body p)
        (parse_packet true header body)
unfolding parse_packet
parse_packet-IsRead header body =
    Ensures-bind Any _ _ (parse_padding true header.padding_flag body) _
      (parse_padding-IsPadded header.padding_flag body)
      λ (pad, stop) padded.
        Ensures-mono Any Any _ _
          (skip_malformed true header.packet_type
            (parse_one header.packet_type header.count (take stop body) pad))
          (skip_malformed-some header.packet_type (Matches header.packet_type header.count pad) _
            (parse_one-Yields header.packet_type header.count (take stop body) pad))
          (λ e h. h) (λ r (p, e, q). (p, e, (pad, take stop body, padded, q)))

check_version-IsTwo : (v : ℕ) → Ensures Any (λ _. v ≡ 2) (check_version true v)
unfolding check_version
check_version-IsTwo v = Ensures-if Any _ (not (v == 2)) _ _ (λ _. tt) (λ h. ground arith)

module _ (b0 kind hi lo : ℕ) (rest : Bytes) where
  -- A round that returns has read a packet.
  round-IsPacket :
      (p : RtcpPacket) (body : Bytes)
      → b0 < 2 ^ 8
      → bit_and (shr b0 6) 0x03 ≡ 2
      → length body ≡ (hi * 2 ^ 8 + lo) * 4
      → IsRead (read_header b0 kind hi lo) body p
      → IsPacket p (b0 ∷ kind ∷ hi ∷ lo ∷ body)
  round-IsPacket p body small two size (pad, content, padded, read) = (
    b0,
    kind,
    hi,
    lo,
    pad,
    body,
    content,
    refl,
    size,
    sym (version_eq b0 small) ∙ two,
    subst (λ (flag : Bool). IsPadded flag pad content body) (flag_eq b0) padded,
    ap (λ (n : ℕ). parse_one kind n content pad) (sym (count_eq b0)) ∙ read,
  )

cut_bytes :
    (b0 kind hi lo : ℕ) (rest : Bytes) (n stop : ℕ)
    → stop ≡ 4 + n
    → b0 ∷ kind ∷ hi ∷ lo ∷ rest
      ≡ b0
        ∷ kind
        ∷ hi
        ∷ lo
        ∷ (slice (b0 ∷ kind ∷ hi ∷ lo ∷ rest) 4 stop ++ drop stop (b0 ∷ kind ∷ hi ∷ lo ∷ rest))
cut_bytes b0 kind hi lo rest n stop e =
    subst
      (λ (m : ℕ).
        b0 ∷ kind ∷ hi ∷ lo ∷ rest
        ≡ b0
          ∷ kind
          ∷ hi
          ∷ lo
          ∷ (slice (b0 ∷ kind ∷ hi ∷ lo ∷ rest) 4 m ++ drop m (b0 ∷ kind ∷ hi ∷ lo ∷ rest)))
      (sym e)
      (ap (λ (xs : Bytes). b0 ∷ kind ∷ hi ∷ lo ∷ xs) (sym (take-append-drop n rest))
        ∙ ap (λ (k : ℕ). b0 ∷ kind ∷ hi ∷ lo ∷ (take k rest ++ drop n rest)) left
        ∙ ap (λ (xs : Bytes). b0 ∷ kind ∷ hi ∷ lo ∷ (take (4 + n - 4) rest ++ xs))
            (drop-drop n 4 (b0 ∷ kind ∷ hi ∷ lo ∷ rest)))
  where
    left : n ≡ 4 + n - 4
    left = omega arith

pub compound_loop-IsCompound :
    (fuel : ℕ) (bytes : Bytes)
    → All IsByte bytes
    → Ensures Any (λ ps. IsCompound ps bytes) (compound_loop true fuel bytes)
unfolding compound_loop parse_header byte_at u16_at
compound_loop-IsCompound fuel [] h = refl
compound_loop-IsCompound zero (b ∷ bs) h = tt
compound_loop-IsCompound (suc fuel) (a ∷ []) h = tt
compound_loop-IsCompound (suc fuel) (a ∷ b ∷ []) h = tt
compound_loop-IsCompound (suc fuel) (a ∷ b ∷ c ∷ []) h = tt
compound_loop-IsCompound (suc fuel) (b0 ∷ kind ∷ hi ∷ lo ∷ rest) (small, h) =
    Ensures-if Any _ (ltb (length bytes) 4) _ _ (λ _. tt)
      λ long.
        Ensures-bind Any _ _ (check_version true (read_header b0 kind hi lo).version) _
          (check_version-IsTwo _)
          λ _ two.
            Ensures-if Any _ (ltb (length bytes) stop) _ _ (λ _. tt)
              λ fits.
                Ensures-bind Any _ _
                  (parse_packet true (read_header b0 kind hi lo) (slice bytes 4 stop)) _
                  (parse_packet-IsRead (read_header b0 kind hi lo) (slice bytes 4 stop))
                  λ r (p, e, read).
                    Ensures-bind Any _ _ (compound_loop true fuel (drop stop bytes)) _
                      (compound_loop-IsCompound fuel (drop stop bytes)
                        (All-drop stop bytes (small, h)))
                      λ ps more.
                        subst
                          (λ (found : Option RtcpPacket). IsCompound (append_packet found ps) bytes)
                          (sym e)
                          (
                            b0 ∷ kind ∷ hi ∷ lo ∷ slice bytes 4 stop,
                            drop stop bytes,
                            cut_bytes b0 kind hi lo rest ((hi * 2 ^ 8 + lo) * 4) stop (omega arith),
                            round-IsPacket b0 kind hi lo rest p (slice bytes 4 stop) small two
                                (omega (arith, length-take (stop - 4) rest, ltb→ge _ _ fits)) read,
                            more,
                          )
  where
    bytes : Bytes
    bytes = b0 ∷ kind ∷ hi ∷ lo ∷ rest

    stop : ℕ
    stop = packet_len (read_header b0 kind hi lo)
