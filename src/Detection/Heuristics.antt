-- ===== src/Detection/Heuristics.antt =====
-- The heuristics answer on every buffer, and what the answers say of its bytes.
use rtpkit.Common.{
  ℕ, ◌≤◌, ◌≡◌, ◌∙◌, ◌↔◌, ◌⊎◌, not, leb, inl, inr, refl, ap, arith, Bool, true, false, Option, none,
  some, List, [], Bool-cases, ◌∷◌, All,
}
use rtpkit.Errors.{Exception, is_rtp_error, is_rtcp_error}
use rtpkit.Outcome.{Outcome, Warning, ok, err, ◌>>=◌, pure}
use rtpkit.Outcome.Laws.{Agree-strict_quiet, Outcome-cases}
use rtpkit.Wire.{Bytes, IsByte}
use rtpkit.Rtp.{RtpPacket}
use rtpkit.Rtp.Layout.{IsImage}
use rtpkit.Rtp.Parser.{parse, parse_rtp}
use rtpkit.Rtp.Parser.Modes.{parse-Agree, parse_rtp-IsRtpError}
use rtpkit.Rtp.Parser.Sound.{parse_rtp-iff-IsImage}
use rtpkit.Rtcp.{
  RtcpPacket, type_of, type_number, sender_report, receiver_report, source_description, goodbye,
  application_defined,
}
use rtpkit.Rtcp.Parser.{parse_compound, parse_rtcp}
use rtpkit.Rtcp.Parser.Modes.{parse_compound-Agree, parse_rtcp-IsRtcpError}
use rtpkit.Rtcp.Parser.Compound.{IsCompound}
use rtpkit.Rtcp.Parser.Compound.Complete.{parse_rtcp-iff-IsCompound}
use rtpkit.Detection.{
  in_rtcp_collision_range, try_call, rtp_verdict, looks_like_rtp, is_report, rtcp_verdict,
  looks_like_rtcp,
}

-- A call in which every exception is caught, and which logs nothing where it returns.
module _ {A : Type 0} (catches : Exception → Bool) (verdict : Option A → Bool) (m : Outcome A)
    (caught : (e : Exception) → m ≡ err e → catches e ≡ true)
    (quiet : (a : A) (ws : List Warning) → m ≡ ok a ws → m ≡ ok a [])
    (negative : verdict none ≡ false) where
  abbrev answer : Outcome Bool
  answer = try_call catches m >>= λ r. pure (verdict r)

  answers_ok : (a : A) → m ≡ ok a [] → answer ≡ ok (verdict (some a)) []
  answers_ok a e = rw e refl

  answers_err : (e : Exception) → m ≡ err e → answer ≡ ok false []
  answers_err e q = rw (q, caught e q, negative) refl

  answers : (b : Bool) × (answer ≡ ok b [])
  answers = elim (Outcome-cases m) [
    | inl (a, ws, e) ↦ (verdict (some a), answers_ok a (quiet a ws e))
    | inr (e, q) ↦ (false, answers_err e q)
  ]

  same_answer : (b c : Bool) → answer ≡ ok b [] → answer ≡ ok c [] → b ≡ c
  same_answer b c h k = cc (h, k)

  answers_yes : (answer ≡ ok true []) ↔ ((a : A) × (m ≡ ok a []) × (verdict (some a) ≡ true))
  answers_yes = (positive, λ (a, e, v). answers_ok a e ∙ ap (λ (b : Bool). ok b []) v)
    where
      positive : answer ≡ ok true [] → (a : A) × (m ≡ ok a []) × (verdict (some a) ≡ true)
      positive h = elim (Outcome-cases m) [
        | inl (a, ws, e) ↦
            (a, quiet a ws e, same_answer (verdict (some a)) true (answers_ok a (quiet a ws e)) h)
        | inr (e, q) ↦ absurd (cc (same_answer false true (answers_err e q) h))
      ]

parse_rtp_quiet :
    (bytes : Bytes) (p : RtpPacket) (ws : List Warning)
    → parse_rtp bytes ≡ ok p ws
    → parse_rtp bytes ≡ ok p []
unfolding parse_rtp
parse_rtp_quiet bytes p ws e =
    Agree-strict_quiet (parse true bytes) (parse false bytes) (parse-Agree bytes) p ws e

parse_rtcp_quiet :
    (bytes : Bytes) (ps : List RtcpPacket) (ws : List Warning)
    → parse_rtcp bytes ≡ ok ps ws
    → parse_rtcp bytes ≡ ok ps []
unfolding parse_rtcp
parse_rtcp_quiet bytes ps ws e =
    Agree-strict_quiet (parse_compound true bytes) (parse_compound false bytes)
      (parse_compound-Agree bytes) ps ws e

-- No payload type that RFC 3551 keeps free for the RTCP packet types 200 to 204.
abbrev pub IsOutside : ℕ → Type 0
IsOutside payload_type = (payload_type ≤ 71) ⊎ (77 ≤ payload_type)

IsOutside-iff : (n : ℕ) → (not (in_rtcp_collision_range n) ≡ true) ↔ IsOutside n
IsOutside-iff n = (to n, from n)
  where
    to : (k : ℕ) → not (in_rtcp_collision_range k) ≡ true → IsOutside k
    to k h = elim (Bool-cases (leb 72 k)) [
      | inl high ↦ inr (ground arith)
      | inr low ↦ inl (ground arith)
    ]

    from : (k : ℕ) → IsOutside k → not (in_rtcp_collision_range k) ≡ true
    from k (inl low) = ground arith
    from k (inr high) = ground arith

-- What an RTP-shaped buffer is: the image of a packet.
abbrev pub LooksLikeRtp : Bytes → Type 0
LooksLikeRtp bytes =
    (p : RtpPacket) × (pad : Bytes) × (p.version ≡ 2)
    × IsImage bytes p pad
    × IsOutside p.payload_type

-- `looks_like_rtp` answers on every string of bytes and raises nothing; it says yes just if the string is the image
-- of an RTP packet of version 2, with a payload type of at most 71 or at least 77.
pub looks_like_rtp-iff-LooksLikeRtp :
    (bytes : Bytes)
    → All IsByte bytes
    → ((looks_like_rtp bytes ≡ ok true []) ↔ LooksLikeRtp bytes)
      × ((b : Bool) × (looks_like_rtp bytes ≡ ok b []))
unfolding looks_like_rtp
looks_like_rtp-iff-LooksLikeRtp bytes all =
    ((sound, complete), answers is_rtp_error rtp_verdict (parse_rtp bytes) caught quiet refl)
  where
    caught : (e : Exception) → parse_rtp bytes ≡ err e → is_rtp_error e ≡ true
    caught = parse_rtp-IsRtpError bytes

    quiet :
        (p : RtpPacket) (ws : List Warning) → parse_rtp bytes ≡ ok p ws → parse_rtp bytes ≡ ok p []
    quiet = parse_rtp_quiet bytes

    sound : looks_like_rtp bytes ≡ ok true [] → LooksLikeRtp bytes
    sound h =
        let (p, e, v) =
          (answers_yes is_rtp_error rtp_verdict (parse_rtp bytes) caught quiet refl).0 h in
        let (two, (pad, is_image)) = (parse_rtp-iff-IsImage bytes p all).0 e in
        (p, pad, two, is_image, (IsOutside-iff p.payload_type).0 v)

    complete : LooksLikeRtp bytes → looks_like_rtp bytes ≡ ok true []
    complete (p, pad, two, is_image, outside) =
        (answers_yes is_rtp_error rtp_verdict (parse_rtp bytes) caught quiet refl).1 (
          p,
          (parse_rtp-iff-IsImage bytes p all).1 (two, (pad, is_image)),
          (IsOutside-iff p.payload_type).1 outside,
        )

-- A sender or a receiver report, by the number of its type.
abbrev pub IsReport : RtcpPacket → Type 0
IsReport p = (type_number (type_of p) ≡ 200) ⊎ (type_number (type_of p) ≡ 201)

no_report : (n : ℕ) → 202 ≤ n → (n ≡ 200) ⊎ (n ≡ 201) → false ≡ true
no_report n h (inl e) = absurd (omega arith)
no_report n h (inr e) = absurd (omega arith)

IsReport-iff : (p : RtcpPacket) → (is_report p ≡ true) ↔ IsReport p
IsReport-iff (sender_report _ _ _ _) = (λ _. inl refl, λ _. refl)
IsReport-iff (receiver_report _ _ _) = (λ _. inr refl, λ _. refl)
IsReport-iff (source_description _ _) = (λ h. absurd (cc h), no_report 202 (omega arith))
IsReport-iff (goodbye _ _ _) = (λ h. absurd (cc h), no_report 203 (omega arith))
IsReport-iff (application_defined _ _ _ _ _) = (λ h. absurd (cc h), no_report 204 (omega arith))

-- What an RTCP-shaped buffer is: a compound buffer that begins with a report.
abbrev pub LooksLikeRtcp : Bytes → Type 0
LooksLikeRtcp bytes =
    (p : RtcpPacket) × (ps : List RtcpPacket) × IsReport p × IsCompound (p ∷ ps) bytes

-- `looks_like_rtcp` answers on every string of bytes and raises nothing; it says yes just if the string is made of one
-- or more RTCP packets, one behind the other, the first of which is of type 200 or 201, a sender or a receiver
-- report.
pub looks_like_rtcp-iff-LooksLikeRtcp :
    (bytes : Bytes)
    → All IsByte bytes
    → ((looks_like_rtcp bytes ≡ ok true []) ↔ LooksLikeRtcp bytes)
      × ((b : Bool) × (looks_like_rtcp bytes ≡ ok b []))
unfolding looks_like_rtcp
looks_like_rtcp-iff-LooksLikeRtcp bytes all =
    ((sound, complete), answers is_rtcp_error rtcp_verdict (parse_rtcp bytes) caught quiet refl)
  where
    caught : (e : Exception) → parse_rtcp bytes ≡ err e → is_rtcp_error e ≡ true
    caught = parse_rtcp-IsRtcpError bytes

    quiet :
        (ps : List RtcpPacket) (ws : List Warning)
        → parse_rtcp bytes ≡ ok ps ws
        → parse_rtcp bytes ≡ ok ps []
    quiet = parse_rtcp_quiet bytes

    begins :
        (ps : List RtcpPacket)
        → IsCompound ps bytes
        → rtcp_verdict (some ps) ≡ true
        → LooksLikeRtcp bytes
    begins [] c v = absurd (cc v)
    begins (p ∷ ps) c v = (p, ps, (IsReport-iff p).0 v, c)

    sound : looks_like_rtcp bytes ≡ ok true [] → LooksLikeRtcp bytes
    sound h =
        let (ps, e, v) =
          (answers_yes is_rtcp_error rtcp_verdict (parse_rtcp bytes) caught quiet refl).0 h in
        begins ps ((parse_rtcp-iff-IsCompound bytes ps all).0 e).1 v

    complete : LooksLikeRtcp bytes → looks_like_rtcp bytes ≡ ok true []
    complete (p, ps, report, c) =
        (answers_yes is_rtcp_error rtcp_verdict (parse_rtcp bytes) caught quiet refl).1 (
          p ∷ ps,
          (parse_rtcp-iff-IsCompound bytes (p ∷ ps) all).1 (omega arith, c),
          (IsReport-iff p).1 report,
        )
