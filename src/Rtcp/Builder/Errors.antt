-- ===== src/Rtcp/Builder/Errors.antt =====
-- What `build_rtcp` may raise.
use rtpkit.Common.{
  ℕ, ◌/◌, ◌%◌, ◌^◌, ◌≤◌, ◌<◌, ◌≡◌, ◌⊎◌, inl, inr, refl, Bool, not, Option, none, some, List, [],
  ◌∷◌, ◌++◌, arith, length, ltb, ltb→ge, ◌==◌, truthy,
}
use rtpkit.Common.Int.{ℤ, pos, pos_part, in_range, InRange}
use rtpkit.Errors.{Exception, Field, rtcp_build_error, struct_error, packet_field, padding_size}
use rtpkit.Outcome.{Outcome, Warning, ok, err, ◌>>=◌, raise_if}
use rtpkit.Outcome.Laws.{
  Ensures, Ensures-bind, Ensures-mono, Ensures-err, Ensures-both, Ensures-if, raise_if-Ensures,
}
use rtpkit.Wire.{Bytes, pack_u8, pack_u16, pack_u32, pack_u32s}
use rtpkit.Wire.Write.{
  IsStructError, pack_u8_lem, pack_u8-Ensures, pack_u32-Ensures, pack_u32s-Ensures,
}
use rtpkit.Rtcp.{
  ReportBlock, SdesItem, SdesChunk, RtcpPacket, sender_report, receiver_report, source_description,
  goodbye, application_defined, padding_of,
}
use rtpkit.Rtcp.Builder.{
  in_i24, pack_lost, require_count, align, serialize_report_block, serialize_report_blocks,
  serialize_sr, serialize_rr, serialize_sdes_item, serialize_sdes_items, serialize_sdes_chunk,
  serialize_sdes_chunks, serialize_sdes, serialize_reason, serialize_bye, is_ascii, serialize_app,
  serialize, catch_struct_error, padding_bytes, header_byte0, pack_packet, build_one, build_rtcp,
}
use rtpkit.Rtcp.Builder.Bodies.{ReadsAs}
use rtpkit.Rtcp.Builder.ByeApp.{serialize-ReadsAs}
use rtpkit.Rtcp.Builder.RoundTrip.{header_byte0_lem, int_of_bool-le}

abbrev pub IsRtcpBuildError : Exception → Type 0
IsRtcpBuildError e = (f : Field) × (e ≡ rtcp_build_error f)

-- Inside the `try`, a `struct.error` may come as well.
abbrev Fails {ℓ} : {A : Type ℓ} → Outcome A → Type 0
Fails m = Ensures (λ e. IsRtcpBuildError e ⊎ IsStructError e) (λ _. Unit) m

Fails-bind {ℓ κ} :
    {A : Type ℓ} {B : Type κ} (m : Outcome A) (f : A → Outcome B)
    → Fails m
    → ((a : A) → Fails (f a))
    → Fails (m >>= f)
Fails-bind m f h k = Ensures-bind _ _ _ m f h (λ a _. k a)

raise_if-Fails : (test : Bool) (f : Field) → Fails (raise_if test (rtcp_build_error f))
raise_if-Fails test f =
    Ensures-mono _ _ _ _ (raise_if test _)
      (raise_if-Ensures IsRtcpBuildError test (rtcp_build_error f) (f, refl)) (λ e h. inl h)
      (λ _ _. tt)

-- A packer, whatever is known of what it writes.
packs {ℓ} : {A : Type ℓ} (Q : A → Type 0) (m : Outcome A) → Ensures IsStructError Q m → Fails m
packs Q m h = Ensures-mono _ _ Q _ m h (λ e p. inr p) (λ _ _. tt)

u8 : (z : ℤ) → Fails (pack_u8 z)
u8 z = packs _ (pack_u8 z) (pack_u8-Ensures z)

u32 : (z : ℤ) → Fails (pack_u32 z)
u32 z = packs _ (pack_u32 z) (pack_u32-Ensures z)

u32s : (zs : List ℤ) → Fails (pack_u32s zs)
u32s zs = packs _ (pack_u32s zs) (pack_u32s-Ensures zs)

require_count-Fails : (n : ℕ) (f : Field) → Fails (require_count n f)
unfolding require_count
require_count-Fails n f = raise_if-Fails (ltb 31 n) f

serialize_report_block-Fails : (rb : ReportBlock) → Fails (serialize_report_block rb)
unfolding serialize_report_block
serialize_report_block-Fails rb =
    Fails-bind _ _ (raise_if-Fails (not (in_range 0 255 rb.fraction_lost)) _) λ _.
      Fails-bind _ _ (raise_if-Fails (not (in_i24 rb.cumulative_lost)) _) λ _.
        Fails-bind _ _
          (u32s (
            rb.ssrc
            ∷ pos (pack_lost rb.fraction_lost rb.cumulative_lost)
            ∷ rb.extended_highest_sequence
            ∷ rb.jitter
            ∷ rb.last_sr
            ∷ []))
          λ first. Fails-bind _ _ (u32 rb.delay_since_last_sr) λ last. tt

serialize_report_blocks-Fails : (rbs : List ReportBlock) → Fails (serialize_report_blocks rbs)
unfolding serialize_report_blocks
serialize_report_blocks-Fails [] = tt
serialize_report_blocks-Fails (rb ∷ rbs) =
    Fails-bind _ _ (serialize_report_block-Fails rb)
      λ first. Fails-bind _ _ (serialize_report_blocks-Fails rbs) λ rest. tt

serialize_sdes_item-Fails : (item : SdesItem) → Fails (serialize_sdes_item item)
unfolding serialize_sdes_item
serialize_sdes_item-Fails item =
    Fails-bind _ _ (raise_if-Fails (not (in_range 1 255 item.kind)) _) λ _.
      Fails-bind _ _ (raise_if-Fails (ltb 255 (length item.text)) _) λ _.
        Fails-bind _ _ (u8 item.kind)
          λ first. Fails-bind _ _ (u8 (pos (length item.text))) λ second. tt

serialize_sdes_items-Fails : (items : List SdesItem) → Fails (serialize_sdes_items items)
unfolding serialize_sdes_items
serialize_sdes_items-Fails [] = tt
serialize_sdes_items-Fails (item ∷ items) =
    Fails-bind _ _ (serialize_sdes_item-Fails item)
      λ first. Fails-bind _ _ (serialize_sdes_items-Fails items) λ rest. tt

serialize_sdes_chunks-Fails : (cs : List SdesChunk) → Fails (serialize_sdes_chunks cs)
unfolding serialize_sdes_chunks serialize_sdes_chunk
serialize_sdes_chunks-Fails [] = tt
serialize_sdes_chunks-Fails (c ∷ cs) =
    Fails-bind _ _
      (Fails-bind _ _ (serialize_sdes_items-Fails c.items)
        λ items. Fails-bind _ _ (u32 c.ssrc) λ word. tt)
      λ first. Fails-bind _ _ (serialize_sdes_chunks-Fails cs) λ rest. tt

serialize_reason-Fails : (reason : Option Bytes) → Fails (serialize_reason reason)
unfolding serialize_reason
serialize_reason-Fails none = tt
serialize_reason-Fails (some text) =
    Fails-bind _ _ (raise_if-Fails (ltb 255 (length text)) _)
      λ _. Fails-bind _ _ (u8 (pos (length text))) λ size. tt

serialize-Fails : (p : RtcpPacket) → Fails (serialize p)
unfolding serialize serialize_sr serialize_rr serialize_sdes serialize_bye serialize_app
serialize-Fails (sender_report ssrc info blocks padding) =
    Fails-bind _ _ (require_count-Fails (length blocks) _) λ _.
      Fails-bind _ _
        (u32s (
          ssrc ∷ info.ntp_seconds ∷ info.ntp_fraction ∷ info.rtp_timestamp ∷ info.packet_count
          ∷ info.octet_count ∷ []))
        λ body. Fails-bind _ _ (serialize_report_blocks-Fails blocks) λ rest. tt
serialize-Fails (receiver_report ssrc blocks padding) =
    Fails-bind _ _ (require_count-Fails (length blocks) _) λ _.
      Fails-bind _ _ (u32 ssrc)
        λ body. Fails-bind _ _ (serialize_report_blocks-Fails blocks) λ rest. tt
serialize-Fails (source_description cs padding) =
    Fails-bind _ _ (require_count-Fails (length cs) _)
      λ _. Fails-bind _ _ (serialize_sdes_chunks-Fails cs) λ body. tt
serialize-Fails (goodbye ssrcs reason padding) =
    Fails-bind _ _ (require_count-Fails (length ssrcs) _) λ _.
      Fails-bind _ _ (u32s ssrcs) λ body. Fails-bind _ _ (serialize_reason-Fails reason) λ rest. tt
serialize-Fails (application_defined subtype ssrc name body padding) =
    Fails-bind _ _ (raise_if-Fails (not (in_range 0 31 subtype)) _) λ _.
      Fails-bind _ _ (raise_if-Fails (not (is_ascii name)) _) λ _.
        Fails-bind _ _ (raise_if-Fails (not (length name == 4)) _)
          λ _. Fails-bind _ _ (u32 ssrc) λ first. tt

catch_struct_error-Ensures :
    {A : Type 0} (Q : A → Type 0) (m : Outcome A)
    → Ensures (λ e. IsRtcpBuildError e ⊎ IsStructError e) Q m
    → Ensures IsRtcpBuildError Q (catch_struct_error m)
catch_struct_error-Ensures Q (ok a ws) h = h
catch_struct_error-Ensures Q (err e) (inl (f, h)) = rw h (f, refl)
catch_struct_error-Ensures Q (err e) (inr h) = rw h (packet_field, refl)

-- The body and the padding of a packet have more words than its length field can count.
abbrev pub IsTooLong : RtcpPacket → Type 0
IsTooLong p =
    (count : ℤ) × (packet_type : ℕ) × (body : Bytes) × (ws : List Warning) × (serialize p
      ≡ ok (count, packet_type, body) ws)
    × (2 ^ 16 ≤ length (align body ++ padding_bytes (pos_part (padding_of p))) / 4)

too_many_words :
    (n : ℕ) → Ensures (λ e. (e ≡ struct_error) × (2 ^ 16 ≤ n)) (λ _. Unit) (pack_u16 (pos n))
unfolding pack_u16
too_many_words n = Ensures-if _ _ (ltb n (2 ^ 16)) _ _ (λ _. tt) (λ h. (refl, ltb→ge _ _ h))

pack_packet-Ensures :
    (byte0 packet_type : ℕ) (body : Bytes)
    → byte0 < 2 ^ 8
    → packet_type < 2 ^ 8
    → Ensures
        (λ e. (e ≡ struct_error) × (2 ^ 16 ≤ length body / 4))
        (λ _. Unit)
        (pack_packet byte0 packet_type body)
unfolding pack_packet
pack_packet-Ensures byte0 packet_type body h k =
    rw (pack_u8_lem byte0 h, pack_u8_lem packet_type k)
      (Ensures-bind _ _ _ (pack_u16 (pos (length body / 4))) _ (too_many_words (length body / 4))
        λ size _. tt)

byte0_fits : (pad : ℕ) (count : ℤ) → InRange 0 31 count → header_byte0 pad count < 2 ^ 8
byte0_fits pad count (c, e, _, h) =
    rw e (omega (arith, header_byte0_lem pad c h, int_of_bool-le (truthy pad)))

abbrev Raises : RtcpPacket → Exception → Type 0
Raises p e = IsRtcpBuildError e ⊎ ((e ≡ struct_error) × IsTooLong p)

build_one-Ensures : (p : RtcpPacket) → Ensures (Raises p) (λ _. Unit) (build_one p)
unfolding build_one
build_one-Ensures p =
    Ensures-bind _ _ _ (catch_struct_error (serialize p)) _
      (Ensures-mono _ (Raises p) _ _ (catch_struct_error (serialize p))
        (catch_struct_error-Ensures _ (serialize p)
          (Ensures-both _ (ReadsAs p) (serialize p) (serialize-Fails p) (serialize-ReadsAs p)))
        (λ e h. inl h) (λ _ h. h))
      λ (count, packet_type, body) ((count_in, type_in, _), (ws, made)).
        Ensures-bind _ _ _ (raise_if (not (in_range 0 255 (padding_of p))) _) _
          (raise_if-Ensures (Raises p) _ _ (inl (padding_size, refl)))
          λ _ _.
            Ensures-bind _ _ _ (raise_if (truthy (pos_part (padding_of p) % 4)) _) _
              (raise_if-Ensures (Raises p) _ _ (inl (padding_size, refl)))
              λ _ _.
                Ensures-mono _ (Raises p) _ _ (pack_packet _ packet_type _)
                  (pack_packet-Ensures (header_byte0 (pos_part (padding_of p)) count) packet_type
                    (align body ++ padding_bytes (pos_part (padding_of p)))
                    (byte0_fits (pos_part (padding_of p)) count count_in) type_in)
                  (λ e (e_eq, long). inr (e_eq, (count, packet_type, body, ws, made, long)))
                  (λ _ _. tt)

-- One of the packets is too long.
abbrev pub SomeTooLong : List RtcpPacket → Type 0
SomeTooLong [] = ⊥
SomeTooLong (p ∷ ps) = IsTooLong p ⊎ SomeTooLong ps

build_rtcp-Ensures :
    (ps : List RtcpPacket)
    → Ensures
        (λ e. IsRtcpBuildError e ⊎ ((e ≡ struct_error) × SomeTooLong ps))
        (λ _. Unit)
        (build_rtcp ps)
unfolding build_rtcp
build_rtcp-Ensures [] = tt
build_rtcp-Ensures (p ∷ ps) =
    Ensures-bind _ (λ _. Unit) _ (build_one p) _
      (Ensures-mono (Raises p) _ _ _ (build_one p) (build_one-Ensures p)
        (λ e h. elim h [ inl b ↦ inl b | inr (q, long) ↦ inr (q, inl long) ]) (λ _ _. tt))
      λ first _.
        Ensures-bind _ (λ _. Unit) _ (build_rtcp ps) _
          (Ensures-mono _ _ _ _ (build_rtcp ps) (build_rtcp-Ensures ps)
            (λ e h. elim h [ inl b ↦ inl b | inr (q, long) ↦ inr (q, inr long) ]) (λ _ _. tt))
          λ rest _. tt

-- What `build_rtcp` raises is an `RtcpBuildError`, or else a bare `struct.error`, and that only where one of
-- the packets could be serialized to a body that, aligned and padded, has 2^16 words or more, beyond
-- what the length field holds.
pub build_rtcp_raises :
    (ps : List RtcpPacket) (e : Exception)
    → build_rtcp ps ≡ err e
    → IsRtcpBuildError e ⊎ ((e ≡ struct_error) × SomeTooLong ps)
build_rtcp_raises ps e h = Ensures-err _ _ (build_rtcp ps) (build_rtcp-Ensures ps) h
