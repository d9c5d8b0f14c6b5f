-- ===== src/Rtcp/Bodies/Safety.antt =====
-- What the bodies of RTCP packets may raise and return: no read leaves the content, whatever it is, and
-- the packet is of the type, the count and the padding of its header.
use rtpkit.Common.{
  ℕ, zero, suc, ◌+◌, ◌-◌, ◌*◌, ◌≤◌, ◌≡◌, refl, ap, ◌∙◌, true, List, [], ◌∷◌, arith, map, ltb,
  ltb→ge, ltb→lt, ◌==◌, truthy, truthy-suc, length, drop, length-drop, if◌then◌else◌,
}
use rtpkit.Common.Int.{pos}
use rtpkit.Errors.{Exception, MalformedDetail, rtcp_malformed_packet}
use rtpkit.Outcome.{Outcome, pure}
use rtpkit.Outcome.Laws.{Yields, Yields-bind, Yields-if}
use rtpkit.Wire.{Bytes, byte_at, u32_at, u32s_at, align_gap}
use rtpkit.Wire.Read.{byte_at-Yields, u32_at-Yields, u32s_at-Yields, AreWords}
use rtpkit.Rtcp.{RtcpPacket, type_of, type_number, count_of, padding_of}
use rtpkit.Rtcp.Bodies.{
  with_last_words, parse_report_block, report_block_loop, parse_report_blocks, sender_info,
  parse_sr, parse_rr, sdes_item_loop, parse_sdes_chunk, sdes_chunk_loop, parse_sdes, cut_reason,
  parse_reason, parse_bye, parse_app, parse_one,
}

abbrev pub IsMalformed : Exception → Type 0
IsMalformed e = (detail : MalformedDetail) × (e ≡ rtcp_malformed_packet detail)

-- The packet has the type, the count and the padding that its header declares.
abbrev pub Matches : ℕ → ℕ → ℕ → RtcpPacket → Type 0
Matches packet_type count padding_size p =
    (type_number (type_of p) ≡ packet_type)
    × (count_of p ≡ pos count)
    × (padding_of p ≡ pos padding_size)

abbrev Anything {ℓ} : {A : Type ℓ} → A → Type 0
Anything a = Unit

with_last_words-Yields :
    (ssrc lost : ℕ) (words : List ℕ)
    → length words ≡ 4
    → Yields IsMalformed Anything (with_last_words ssrc lost words)
unfolding with_last_words
with_last_words-Yields ssrc lost (a ∷ b ∷ c ∷ d ∷ []) h = tt
with_last_words-Yields ssrc lost [] h = absurd (omega arith)
with_last_words-Yields ssrc lost (a ∷ []) h = absurd (omega arith)
with_last_words-Yields ssrc lost (a ∷ b ∷ []) h = absurd (omega arith)
with_last_words-Yields ssrc lost (a ∷ b ∷ c ∷ []) h = absurd (omega arith)
with_last_words-Yields ssrc lost (a ∷ b ∷ c ∷ d ∷ e ∷ rest) h = absurd (omega arith)

sender_info-Yields :
    (words : List ℕ) → length words ≡ 5 → Yields IsMalformed Anything (sender_info words)
unfolding sender_info
sender_info-Yields (a ∷ b ∷ c ∷ d ∷ e ∷ []) h = tt
sender_info-Yields [] h = absurd (omega arith)
sender_info-Yields (a ∷ []) h = absurd (omega arith)
sender_info-Yields (a ∷ b ∷ []) h = absurd (omega arith)
sender_info-Yields (a ∷ b ∷ c ∷ []) h = absurd (omega arith)
sender_info-Yields (a ∷ b ∷ c ∷ d ∷ []) h = absurd (omega arith)
sender_info-Yields (a ∷ b ∷ c ∷ d ∷ e ∷ f ∷ rest) h = absurd (omega arith)

parse_report_block-Yields :
    (bytes : Bytes) (off : ℕ)
    → off + 24 ≤ length bytes
    → Yields IsMalformed Anything (parse_report_block bytes off)
unfolding parse_report_block
parse_report_block-Yields bytes off h =
    Yields-bind _ _ _ (u32_at bytes off) _ (u32_at-Yields IsMalformed bytes off (omega arith))
      λ ssrc _.
        Yields-bind _ _ _ (u32_at bytes (off + 4)) _
          (u32_at-Yields IsMalformed bytes (off + 4) (omega arith))
          λ lost _.
            Yields-bind _ _ _ (u32s_at 4 bytes (off + 8)) _
              (u32s_at-Yields IsMalformed 4 bytes (off + 8) (omega arith))
              λ words (len, _). with_last_words-Yields ssrc lost words len

report_block_loop-Yields :
    (rc : ℕ) (bytes : Bytes) (off : ℕ)
    → off + rc * 24 ≤ length bytes
    → Yields IsMalformed (λ blocks. length blocks ≡ rc) (report_block_loop rc bytes off)
unfolding report_block_loop
report_block_loop-Yields zero bytes off h = refl
report_block_loop-Yields (suc rc) bytes off h =
    Yields-bind _ _ _ (parse_report_block bytes off) _
      (parse_report_block-Yields bytes off (omega arith))
      λ block _.
        Yields-bind _ _ _ (report_block_loop rc bytes (off + 24)) _
          (report_block_loop-Yields rc bytes (off + 24) (omega arith)) λ blocks len. ap suc len

parse_report_blocks-Yields :
    (bytes : Bytes) (rc : ℕ)
    → Yields IsMalformed (λ blocks. length blocks ≡ rc) (parse_report_blocks bytes rc)
unfolding parse_report_blocks
parse_report_blocks-Yields bytes rc =
    Yields-if _ _ (ltb (length bytes) (rc * 24)) _ _ (λ _. (_, refl))
      (λ h. report_block_loop-Yields rc bytes 0 (omega (arith, ltb→ge _ _ h)))

parse_sr-Yields :
    (content : Bytes) (rc padding : ℕ)
    → Yields IsMalformed (Matches 200 rc padding) (parse_sr content rc padding)
unfolding parse_sr
parse_sr-Yields content rc padding =
    Yields-if _ _ (ltb (length content) 24) _ _ (λ _. (_, refl))
      λ short.
        Yields-bind _ _ _ (u32_at content 0) _
          (u32_at-Yields IsMalformed content 0 (omega (arith, ltb→ge _ _ short)))
          λ ssrc _.
            Yields-bind _ _ _ (u32s_at 5 content 4) _
              (u32s_at-Yields IsMalformed 5 content 4 (omega (arith, ltb→ge _ _ short)))
              λ words (len, _).
                Yields-bind _ _ _ (sender_info words) _ (sender_info-Yields words len) λ info _.
                  Yields-bind _ _ _ (parse_report_blocks (drop 24 content) rc) _
                    (parse_report_blocks-Yields (drop 24 content) rc)
                    λ blocks count. (refl, ap pos count, refl)

parse_rr-Yields :
    (content : Bytes) (rc padding : ℕ)
    → Yields IsMalformed (Matches 201 rc padding) (parse_rr content rc padding)
unfolding parse_rr
parse_rr-Yields content rc padding =
    Yields-if _ _ (ltb (length content) 4) _ _ (λ _. (_, refl))
      λ short.
        Yields-bind _ _ _ (u32_at content 0) _
          (u32_at-Yields IsMalformed content 0 (omega (arith, ltb→ge _ _ short)))
          λ ssrc _.
            Yields-bind _ _ _ (parse_report_blocks (drop 4 content) rc) _
              (parse_report_blocks-Yields (drop 4 content) rc)
              λ blocks count. (refl, ap pos count, refl)

sdes_item_loop-Yields :
    (fuel : ℕ) (bytes : Bytes)
    → length bytes ≤ fuel
    → Yields IsMalformed Anything (sdes_item_loop fuel bytes)
unfolding sdes_item_loop
sdes_item_loop-Yields zero [] h = (_, refl)
sdes_item_loop-Yields (suc fuel) [] h = (_, refl)
sdes_item_loop-Yields zero (b ∷ rest) h = absurd (omega arith)
sdes_item_loop-Yields (suc fuel) (b ∷ []) h = Yields-if _ _ (b == 0) _ _ (λ _. tt) (λ _. (_, refl))
sdes_item_loop-Yields (suc fuel) (b ∷ len ∷ rest) h =
    Yields-if _ _ (b == 0) _ _ (λ _. tt)
      λ _.
        Yields-if _ _ (ltb (length rest) len) _ _ (λ _. (_, refl))
          λ _.
            Yields-bind _ _ _ (sdes_item_loop fuel (drop len rest)) _
              (sdes_item_loop-Yields fuel (drop len rest) (omega (arith, length-drop len rest)))
              λ (items, left) _. tt

parse_sdes_chunk-Yields : (content : Bytes) → Yields IsMalformed Anything (parse_sdes_chunk content)
unfolding parse_sdes_chunk
parse_sdes_chunk-Yields content =
    Yields-if _ _ (ltb (length content) 4) _ _ (λ _. (_, refl))
      λ short.
        Yields-bind _ _ _ (u32_at content 0) _
          (u32_at-Yields IsMalformed content 0 (omega (arith, ltb→ge _ _ short)))
          λ ssrc _.
            Yields-bind _ _ _ (sdes_item_loop (length content) (drop 4 content)) _
              (sdes_item_loop-Yields (length content) (drop 4 content)
                (omega (arith, length-drop 4 content)))
              λ (items, left) _.
                Yields-if _ _ (ltb (length left) (align_gap (length content - length left))) _ _
                  (λ _. (_, refl)) (λ _. tt)

sdes_chunk_loop-Yields :
    (sc : ℕ) (content : Bytes)
    → Yields IsMalformed (λ chunks. length chunks ≡ sc) (sdes_chunk_loop sc content)
unfolding sdes_chunk_loop
sdes_chunk_loop-Yields zero content = refl
sdes_chunk_loop-Yields (suc sc) content =
    Yields-bind _ _ _ (parse_sdes_chunk content) _ (parse_sdes_chunk-Yields content)
      λ (chunk, left) _.
        Yields-bind _ _ _ (sdes_chunk_loop sc left) _ (sdes_chunk_loop-Yields sc left)
          λ chunks len. ap suc len

parse_sdes-Yields :
    (content : Bytes) (sc padding : ℕ)
    → Yields IsMalformed (Matches 202 sc padding) (parse_sdes content sc padding)
unfolding parse_sdes
parse_sdes-Yields content sc padding =
    Yields-bind _ _ _ (sdes_chunk_loop sc content) _ (sdes_chunk_loop-Yields sc content)
      λ chunks count. (refl, ap pos count, refl)

cut_reason-Yields :
    (content : Bytes) (start len : ℕ) → Yields IsMalformed Anything (cut_reason content start len)
unfolding cut_reason
cut_reason-Yields content start len =
    Yields-if _ _ (ltb (length content) (start + 1 + len)) _ _ (λ _. (_, refl)) (λ _. tt)

parse_reason-Yields :
    (content : Bytes) (start : ℕ) → Yields IsMalformed Anything (parse_reason content start)
unfolding parse_reason
parse_reason-Yields content start =
    Yields-if _ _ (ltb start (length content)) _ _
      (λ h.
        Yields-bind _ _ _ (byte_at content start) _
          (byte_at-Yields IsMalformed content start (omega (arith, ltb→lt _ _ h)))
          λ len _. cut_reason-Yields content start len)
      (λ _. tt)

sources-Yields :
    (sc : ℕ) (content : Bytes)
    → sc * 4 ≤ length content
    → Yields IsMalformed (AreWords sc content) (if truthy sc then u32s_at sc content 0 else pure [])
sources-Yields zero content h = (refl, λ all. tt)
sources-Yields (suc sc) content h =
    rw (truthy-suc sc) (u32s_at-Yields IsMalformed (suc sc) content 0 (omega arith))

length-map_pos : (ns : List ℕ) → length (map pos ns) ≡ length ns
length-map_pos [] = refl
length-map_pos (n ∷ ns) = ap suc (length-map_pos ns)

parse_bye-Yields :
    (content : Bytes) (sc padding : ℕ)
    → Yields IsMalformed (Matches 203 sc padding) (parse_bye content sc padding)
unfolding parse_bye
parse_bye-Yields content sc padding =
    Yields-if _ _ (ltb (length content) (sc * 4)) _ _ (λ _. (_, refl))
      λ short.
        Yields-bind _ _ _ (if truthy sc then u32s_at sc content 0 else pure []) _
          (sources-Yields sc content (ltb→ge _ _ short))
          λ sources (len, _).
            Yields-bind _ _ _ (parse_reason content (sc * 4)) _
              (parse_reason-Yields content (sc * 4))
              λ reason _. (refl, ap pos (length-map_pos sources ∙ len), refl)

parse_app-Yields :
    (content : Bytes) (subtype padding : ℕ)
    → Yields IsMalformed (Matches 204 subtype padding) (parse_app content subtype padding)
unfolding parse_app
parse_app-Yields content subtype padding =
    Yields-if _ _ (ltb (length content) 8) _ _ (λ _. (_, refl))
      λ short.
        Yields-bind _ _ _ (u32_at content 0) _
          (u32_at-Yields IsMalformed content 0 (omega (arith, ltb→ge _ _ short)))
          λ ssrc _. (refl, refl, refl)

-- The same, of the branch that the packet type selects.
of_type :
    (k n count padding : ℕ) (m : Outcome RtcpPacket)
    → (n == k) ≡ true
    → Yields IsMalformed (Matches k count padding) m
    → Yields IsMalformed (Matches n count padding) m
of_type k n count padding m h y = rw (n_eq) y
  where
    n_eq : n ≡ k
    n_eq = ground arith

pub parse_one-Yields :
    (packet_type count : ℕ) (content : Bytes) (padding : ℕ)
    → Yields IsMalformed
        (Matches packet_type count padding)
        (parse_one packet_type count content padding)
unfolding parse_one
parse_one-Yields n count content padding =
    Yields-if _ _ (n == 200) _ _
      (λ h. of_type 200 n count padding _ h (parse_sr-Yields content count padding))
      λ _.
        Yields-if _ _ (n == 201) _ _
          (λ h. of_type 201 n count padding _ h (parse_rr-Yields content count padding))
          λ _.
            Yields-if _ _ (n == 202) _ _
              (λ h. of_type 202 n count padding _ h (parse_sdes-Yields content count padding))
              λ _.
                Yields-if _ _ (n == 203) _ _
                  (λ h. of_type 203 n count padding _ h (parse_bye-Yields content count padding))
                  λ _.
                    Yields-if _ _ (n == 204) _ _
                      (λ h.
                        of_type 204 n count padding _ h (parse_app-Yields content count padding))
                      (λ _. (_, refl))
