-- ===== src/Detection/Exclusive.antt =====
-- The two heuristics exclude each other.
use rtpkit.Common.{
  ℕ, ◌+◌, ◌*◌, ◌<◌, ◌≡◌, ◌∙◌, ◌⊎◌, inl, inr, sym, ap, Bool, true, false, [], ◌∷◌, ◌++◌, All,
  int_of_bool, arith,
}
use rtpkit.Outcome.{Outcome, ok, err}
use rtpkit.Outcome.Laws.{Yields}
use rtpkit.Wire.{Bytes, IsByte}
use rtpkit.Rtcp.{RtcpPacket, type_of, type_number}
use rtpkit.Rtcp.Bodies.{parse_one}
use rtpkit.Rtcp.Bodies.Safety.{IsMalformed, Matches, parse_one-Yields}
use rtpkit.Detection.{looks_like_rtp, looks_like_rtcp}
use rtpkit.Detection.Heuristics.{
  IsOutside, IsReport, LooksLikeRtp, LooksLikeRtcp, looks_like_rtp-iff-LooksLikeRtp,
  looks_like_rtcp-iff-LooksLikeRtcp,
}

abbrev second_byte : Bytes → ℕ
second_byte (a ∷ b ∷ rest) = b
second_byte _ = 0

-- A body that is read has the type that it is read as.
same_type :
    (kind count pad : ℕ) (content : Bytes) (p : RtcpPacket)
    → parse_one kind count content pad ≡ ok p []
    → type_number (type_of p) ≡ kind
same_type kind count pad content p e =
    matched (parse_one kind count content pad) (parse_one-Yields kind count content pad) e
  where
    matched :
        (m : Outcome RtcpPacket)
        → Yields IsMalformed (Matches kind count pad) m
        → m ≡ ok p []
        → type_number (type_of p) ≡ kind
    matched (ok q []) (h, _, _) f = ap type_number (ap type_of (same_packet q f)) ∙ h
      where
        same_packet : (q : RtcpPacket) → ok q [] ≡ ok p [] → p ≡ q
        same_packet q f = cc f
    matched (ok q (w ∷ ws)) h f = absurd h
    matched (err x) h f = absurd (cc f)

rtp_second :
    (bytes : Bytes)
    → LooksLikeRtp bytes
    → (n : ℕ) × (m : Bool) × IsOutside n × (n < 128) × (second_byte bytes ≡ int_of_bool m * 128 + n)
rtp_second bytes (p, pad, two, is_image, outside) = (
  p.payload_type,
  p.marker,
  outside,
  is_image.payload_type_fits,
  ap second_byte is_image.bytes_eq,
)

rtcp_second :
    (bytes : Bytes) → LooksLikeRtcp bytes → (second_byte bytes ≡ 200) ⊎ (second_byte bytes ≡ 201)
rtcp_second bytes
      (
        p,
        ps,
        report,
        (chunk, rest, e, (b0, kind, hi, lo, pad, body, content, ec, size, two, padded, read), more),
      ) =
    by_report report
  where
    second : second_byte bytes ≡ type_number (type_of p)
    second =
        ap second_byte (e ∙ ap (λ (xs : Bytes). xs ++ rest) ec)
        ∙ sym (same_type kind _ pad content p read)

    by_report : IsReport p → (second_byte bytes ≡ 200) ⊎ (second_byte bytes ≡ 201)
    by_report (inl sender) = inl (second ∙ sender)
    by_report (inr receiver) = inr (second ∙ receiver)

apart :
    (n b : ℕ) (m : Bool)
    → IsOutside n
    → n < 128
    → b ≡ int_of_bool m * 128 + n
    → ¬ ((b ≡ 200) ⊎ (b ≡ 201))
apart n b true (inl low) small e (inl q) = omega arith
apart n b true (inl low) small e (inr q) = omega arith
apart n b true (inr high) small e (inl q) = omega arith
apart n b true (inr high) small e (inr q) = omega arith
apart n b false (inl low) small e (inl q) = omega arith
apart n b false (inl low) small e (inr q) = omega arith
apart n b false (inr high) small e (inl q) = omega arith
apart n b false (inr high) small e (inr q) = omega arith

-- No string of bytes passes both heuristics: the types of the reports, 200 and 201, would be a marker and a payload type
-- of 72 or 73 to RTP.
pub looks_like_rtp-looks_like_rtcp :
    (bytes : Bytes)
    → All IsByte bytes
    → looks_like_rtp bytes ≡ ok true []
    → looks_like_rtcp bytes ≡ ok false []
looks_like_rtp-looks_like_rtcp bytes all rtp =
    denied ((looks_like_rtcp-iff-LooksLikeRtcp bytes all).1)
  where
    denied : (b : Bool) × (looks_like_rtcp bytes ≡ ok b []) → looks_like_rtcp bytes ≡ ok false []
    denied (false, e) = e
    denied (true, e) =
        let (n, m, outside, small, at) =
          rtp_second bytes ((looks_like_rtp-iff-LooksLikeRtp bytes all).0.0 rtp) in
        absurd (
          apart n (second_byte bytes) m outside small at
            (rtcp_second bytes ((looks_like_rtcp-iff-LooksLikeRtcp bytes all).0.0 e)))
