-- ===== src/Rtcp/Parser/Safety.antt =====
-- What `parse_compound` may raise and return: no read leaves the buffer, and the loop ends.
use rtpkit.Common.{
  ℕ, zero, suc, ◌-◌, ◌*◌, ◌≤◌, ◌≡◌, refl, Bool, true, false, Option, none, some, List, [], ◌∷◌,
  arith, not, ◌||◌, ltb, ltb→ge, ◌==◌, length, take, drop, length-drop,
}
use rtpkit.Errors.{Exception, is_rtcp_error}
use rtpkit.Outcome.{Outcome, Warning, ok, err, raise_or_warn}
use rtpkit.Outcome.Laws.{Ensures, Ensures-bind, Ensures-if, Ensures-mono, Yields-Ensures}
use rtpkit.Wire.{Bytes, byte_at, slice, u16_at}
use rtpkit.Wire.Read.{byte_at_reads, u16_at_reads}
use rtpkit.Rtcp.{RtcpPacket}
use rtpkit.Rtcp.Bodies.{parse_one}
use rtpkit.Rtcp.Bodies.Safety.{IsMalformed, Matches, parse_one-Yields}
use rtpkit.Rtcp.Parser.{
  RtcpHeader, packet_len, parse_header, check_version, use_pad_count, parse_padding, skip_malformed,
  parse_packet, append_packet, compound_loop,
}

abbrev pub IsRtcpError : Exception → Type 0
IsRtcpError e = is_rtcp_error e ≡ true

-- Behind the length check the strict mode may raise an `RtcpError`, and the lenient mode nothing.
abbrev pub Permitted : Bool → Exception → Type 0
Permitted true e = IsRtcpError e
Permitted false e = ⊥

abbrev Anything {ℓ} : {A : Type ℓ} → A → Type 0
Anything a = Unit

raise_or_warn-Ensures {ℓ} :
    {A : Type ℓ} (strict : Bool) (Q : A → Type 0) (e : Exception) (w : Warning) (a : A)
    → IsRtcpError e
    → Q a
    → Ensures (Permitted strict) Q (raise_or_warn strict e w a)
raise_or_warn-Ensures true Q e w a h k = h
raise_or_warn-Ensures false Q e w a h k = k

parse_header-Ensures :
    (strict : Bool) (rest : Bytes)
    → 4 ≤ length rest
    → Ensures (Permitted strict) Anything (parse_header rest)
unfolding parse_header
parse_header-Ensures strict rest h =
    Ensures-bind _ _ _ (byte_at rest 0) _ (byte_at_reads (Permitted strict) rest 0 (omega arith))
      λ first _.
        Ensures-bind _ _ _ (byte_at rest 1) _
          (byte_at_reads (Permitted strict) rest 1 (omega arith))
          λ kind _.
            Ensures-bind _ _ _ (u16_at rest 2) _
              (u16_at_reads (Permitted strict) rest 2 (omega arith)) λ words _. tt

check_version-Ensures :
    (strict : Bool) (version : ℕ)
    → Ensures (Permitted strict) Anything (check_version strict version)
unfolding check_version is_rtcp_error
check_version-Ensures strict version =
    Ensures-if _ _ (not (version == 2)) _ _
      (λ _. raise_or_warn-Ensures strict Anything _ _ tt refl tt) (λ _. tt)

use_pad_count-Ensures :
    (strict : Bool) (body_len pad_count : ℕ)
    → Ensures (Permitted strict) Anything (use_pad_count strict body_len pad_count)
unfolding use_pad_count is_rtcp_error
use_pad_count-Ensures strict body_len pad_count =
    Ensures-if _ _ ((pad_count == 0) || ltb body_len pad_count) _ _
      (λ _. raise_or_warn-Ensures strict Anything _ _ (0, body_len) refl tt) (λ _. tt)

parse_padding-Ensures :
    (strict flag : Bool) (body : Bytes)
    → Ensures (Permitted strict) Anything (parse_padding strict flag body)
unfolding parse_padding is_rtcp_error
parse_padding-Ensures strict false body = tt
parse_padding-Ensures strict true body =
    Ensures-if _ _ (ltb (length body) 1) _ _
      (λ _. raise_or_warn-Ensures strict Anything _ _ (0, length body) refl tt)
      (λ h.
        Ensures-bind _ _ _ (byte_at body (length body - 1)) _
          (byte_at_reads (Permitted strict) body (length body - 1) (omega (arith, ltb→ge _ _ h)))
          (λ n _. use_pad_count-Ensures strict (length body) n))

skip_malformed-Ensures :
    (strict : Bool) (packet_type : ℕ) (m : Outcome RtcpPacket)
    → Ensures IsMalformed Anything m
    → Ensures (Permitted strict) Anything (skip_malformed strict packet_type m)
unfolding skip_malformed is_rtcp_error
skip_malformed-Ensures strict packet_type (ok p ws) h = tt
skip_malformed-Ensures strict packet_type (err e) (detail, h) =
    rw h (raise_or_warn-Ensures strict Anything _ _ none refl tt)

parse_packet-Ensures :
    (strict : Bool) (header : RtcpHeader) (body : Bytes)
    → Ensures (Permitted strict) Anything (parse_packet strict header body)
unfolding parse_packet
parse_packet-Ensures strict header body =
    Ensures-bind _ _ _ (parse_padding strict header.padding_flag body) _
      (parse_padding-Ensures strict header.padding_flag body)
      λ (padding_size, stop) _. skip_malformed-Ensures strict header.packet_type _ (
        Ensures-mono IsMalformed IsMalformed _ _ _
          (Yields-Ensures IsMalformed (Matches header.packet_type header.count padding_size)
            (parse_one header.packet_type header.count (take stop body) padding_size)
            (parse_one-Yields header.packet_type header.count (take stop body) padding_size))
          (λ e h. h) (λ p _. tt))

append_packet-length :
    (p : Option RtcpPacket) (ps : List RtcpPacket) → length (append_packet p ps) ≤ suc (length ps)
append_packet-length none ps = omega arith
append_packet-length (some p) ps = omega arith

pub compound_loop-Ensures :
    (strict : Bool) (fuel : ℕ) (bytes : Bytes)
    → length bytes ≤ fuel
    → Ensures
        (Permitted strict)
        (λ ps. length ps * 4 ≤ length bytes)
        (compound_loop strict fuel bytes)
unfolding compound_loop is_rtcp_error
compound_loop-Ensures strict zero [] h = omega arith
compound_loop-Ensures strict (suc fuel) [] h = omega arith
compound_loop-Ensures strict zero (b ∷ bs) h = absurd (omega arith)
compound_loop-Ensures strict (suc fuel) (b ∷ bs) h =
    Ensures-if _ _ (ltb (length (b ∷ bs)) 4) _ _
      (λ _. raise_or_warn-Ensures strict _ _ _ [] refl (omega arith))
      λ long.
        Ensures-bind _ _ _ (parse_header (b ∷ bs)) _
          (parse_header-Ensures strict (b ∷ bs) (ltb→ge _ _ long))
          λ header _.
            Ensures-bind _ _ _ (check_version strict header.version) _
              (check_version-Ensures strict header.version)
              λ _ _.
                Ensures-if _ _ (ltb (length (b ∷ bs)) (packet_len header)) _ _
                  (λ _. raise_or_warn-Ensures strict _ _ _ [] refl (omega arith))
                  λ fits.
                    Ensures-bind _ _ _
                      (parse_packet strict header (slice (b ∷ bs) 4 (packet_len header))) _
                      (parse_packet-Ensures strict header _)
                      λ packet _.
                        Ensures-bind _ _ _
                          (compound_loop strict fuel (drop (packet_len header) (b ∷ bs))) _
                          (compound_loop-Ensures strict fuel (drop (packet_len header) (b ∷ bs))
                            (omega (arith, left header, h)))
                          λ packets size. omega (
                            arith,
                            left header,
                            ltb→ge _ _ fits,
                            append_packet-length packet packets,
                          )
  where
    left :
        (header : RtcpHeader)
        → length (drop (packet_len header) (b ∷ bs)) ≡ length (b ∷ bs) - packet_len header
    left header = length-drop (packet_len header) (b ∷ bs)
