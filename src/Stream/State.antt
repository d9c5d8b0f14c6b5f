-- ===== src/Stream/State.antt =====
-- The class `_StreamState`.
use rtpkit.Common.{ℕ, ◌+◌, ◌-◌, ◌^◌, Bool, false, Option, none, some, List, [], ◌∷◌, if◌then◌else◌}
use rtpkit.Common.Int.{
  ℤ, pos, negsuc, pos_part, sub_ℕ, ◌+ℤ◌, ◌-ℤ◌, ltb_ℤ, leb_ℤ, bit_and_ℤ, clear_bits,
}
use rtpkit.Common.Keys.{add, contains, insert, lookup, keys, int_eq}
use rtpkit.Errors.{key_error, assertion_error}
use rtpkit.Outcome.{Outcome, err, ◌>>=◌, pure}
use rtpkit.Rtp.{RtpPacket}
use rtpkit.Stream.{Floats, RtpStreamStats, Arrival}

abbrev pub seq_mod : ℤ
seq_mod = pos (2 ^ 16)

abbrev pub seq_mod_half : ℤ
seq_mod_half = pos (2 ^ 15)

-- -(2^15).
abbrev pub minus_seq_mod_half : ℤ
minus_seq_mod_half = negsuc (2 ^ 15 - 1)

abbrev pub unwrap_delta : ℤ → ℤ
unwrap_delta delta =
    if ltb_ℤ seq_mod_half delta
    then delta -ℤ seq_mod
    else if ltb_ℤ delta minus_seq_mod_half
    then delta +ℤ seq_mod
    else delta

-- `_extend`, for the highest extended number so far.
unfoldable pub extend : Option ℤ → ℕ → ℤ
extend none seq = pos seq
extend (some highest) seq =
    let prev_seq = bit_and_ℤ highest 0xffff in
    let prev_cycle = clear_bits highest 0xffff in
    prev_cycle +ℤ pos prev_seq +ℤ unwrap_delta (sub_ℕ seq prev_seq)

pub record StreamState (Float : Type 0) : Type 0 where
  pub payload_type : ℕ
  pub packet_count : ℕ
  pub duplicate_count : ℕ
  pub out_of_order_count : ℕ
  pub first_ext_seq : Option ℤ
  pub highest_ext_seq : Option ℤ
  pub jitter : Float
  pub prev_transit : Option Float
  pub seen_ext_seqs : List ℤ
  pub packets : List (ℤ × RtpPacket)

-- `if first_ext_seq is None: first_ext_seq = ext_seq`.
abbrev pub first_or : Option ℤ → ℤ → ℤ
first_or none e = e
first_or (some first) e = first

-- `highest_ext_seq is not None and ext_seq < highest_ext_seq`.
abbrev pub below : ℤ → Option ℤ → Bool
below e none = false
below e (some highest) = ltb_ℤ e highest

-- `if highest_ext_seq is None or ext_seq > highest_ext_seq: highest_ext_seq = ext_seq`.
abbrev pub raise_highest : Option ℤ → ℤ → ℤ
raise_highest none e = e
raise_highest (some highest) e = if ltb_ℤ highest e then e else highest

-- `[d[k] for k in ks]`.
unfoldable pub items_at : List (ℤ × RtpPacket) → List ℤ → Outcome (List RtpPacket)
items_at d [] = pure []
items_at d (k ∷ ks) = do
  p ← elim (lookup k d) [ none ↦ err key_error | some p ↦ pure p ]
  ps ← items_at d ks
  pure (p ∷ ps)

-- `sorted(ks)` of ints without repetition.
unfoldable pub insert_sorted : ℤ → List ℤ → List ℤ
insert_sorted k [] = k ∷ []
insert_sorted k (j ∷ js) = if leb_ℤ k j then k ∷ j ∷ js else j ∷ insert_sorted k js

unfoldable pub sorted : List ℤ → List ℤ
unfolding insert_sorted
sorted [] = []
sorted (k ∷ ks) = insert_sorted k (sorted ks)

module _ (floats : Floats) where
  open floats use {Float, zero_float, times_int, minus_int, plus, minus, abs_float, over_int, ratio}

  -- `_StreamState(payload_type=...)`.
  unfoldable pub new_state : ℕ → StreamState Float
  new_state payload_type = record {
    payload_type = payload_type;
    packet_count = 0;
    duplicate_count = 0;
    out_of_order_count = 0;
    first_ext_seq = none;
    highest_ext_seq = none;
    jitter = zero_float;
    prev_transit = none;
    seen_ext_seqs = [];
    packets = [];
  }

  abbrev pub next_jitter : Option Float → Float → Float → Float
  next_jitter none jitter transit = jitter
  next_jitter (some prev) jitter transit =
      plus jitter (over_int (minus (abs_float (minus transit prev)) jitter) 16)

  unfoldable pub update_jitter : StreamState Float → ℕ → Float → ℤ → StreamState Float
  update_jitter self rtp_timestamp arrival_time clock_rate =
      let transit = minus_int (times_int arrival_time clock_rate) rtp_timestamp in
      record self {
        jitter = next_jitter self.prev_transit self.jitter transit;
        prev_transit = some transit;
      }

  -- The `if ext_seq in self._seen_ext_seqs` with its `else`.
  abbrev pub note_ext_seq : StreamState Float → ℤ → RtpPacket → StreamState Float
  note_ext_seq self e packet =
      if contains e self.seen_ext_seqs
      then record self { duplicate_count = self.duplicate_count + 1 }
      else record self {
        seen_ext_seqs = add e self.seen_ext_seqs;
        packets = insert e packet self.packets;
        out_of_order_count =
            if below e self.highest_ext_seq
            then self.out_of_order_count + 1
            else self.out_of_order_count;
      }

  unfoldable pub observe : StreamState Float → Arrival Float → StreamState Float
  unfolding update_jitter extend
  observe self a =
      let counting = record self {
        packet_count = self.packet_count + 1;
        payload_type = a.packet.payload_type;
      } in
      let e = extend counting.highest_ext_seq a.packet.sequence_number in
      let started = record counting { first_ext_seq = some (first_or counting.first_ext_seq e) } in
      let noted = note_ext_seq started e a.packet in
      let raised = record noted {
        highest_ext_seq = some (raise_highest noted.highest_ext_seq e);
      } in
      update_jitter raised a.packet.timestamp a.arrival_time a.clock_rate

  abbrev pub stats_between :
      StreamState Float → ℕ → Option ℤ → Option ℤ → Outcome (RtpStreamStats Float)
  stats_between self ssrc (some first) (some highest) =
      let expected = highest -ℤ first +ℤ pos 1 in
      let received = sub_ℕ self.packet_count self.duplicate_count in
      pure (record {
        ssrc = ssrc;
        payload_type = self.payload_type;
        packet_count = self.packet_count;
        expected_count = expected;
        lost_count = pos_part (expected -ℤ received);
        out_of_order_count = self.out_of_order_count;
        duplicate_count = self.duplicate_count;
        first_extended_sequence = first;
        highest_extended_sequence = highest;
        jitter = self.jitter;
      })
  stats_between self ssrc _ _ = err assertion_error

  -- `snapshot`, whose `assert` asks for the first and the highest number.
  unfoldable pub snapshot : StreamState Float → ℕ → Outcome (RtpStreamStats Float)
  snapshot self ssrc = stats_between self ssrc self.first_ext_seq self.highest_ext_seq

  unfoldable pub ordered_packets : StreamState Float → Outcome (List RtpPacket)
  unfolding items_at sorted
  ordered_packets self = items_at self.packets (sorted (keys self.packets))

  -- `RtpStreamStats.fraction_lost`.
  unfoldable pub fraction_lost : RtpStreamStats Float → Float
  fraction_lost stats =
      if ltb_ℤ (pos 0) stats.expected_count
      then ratio stats.lost_count stats.expected_count
      else zero_float
