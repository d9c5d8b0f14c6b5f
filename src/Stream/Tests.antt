-- ===== src/Stream/Tests.antt =====
-- Runs of the tracker with whole numbers for floats, and the witnesses of its theorems.
use rtpkit.Common.{ℕ, ◌/◌, ◌^◌, ◌≡◌, refl, false, none, some, List, [], ◌∷◌, map, All, arith}
use rtpkit.Common.Int.{ℤ, pos, negsuc, abs_ℤ, mod_ℤ, ◌+ℤ◌, ◌-ℤ◌}
use rtpkit.Common.Keys.{lookup, nat_eq, int_eq}
use rtpkit.Outcome.{ok}
use rtpkit.Rtp.{RtpPacket}
use rtpkit.Stream.{Floats, RtpStreamStats, Arrival}
use rtpkit.Stream.State.{StreamState, extend, new_state, update_jitter, snapshot}
use rtpkit.Stream.State
use rtpkit.Stream.Tracker.{
  default_clock_rate, observe, observe_all, ssrcs, stats, all_stats, ordered_packets,
}
use rtpkit.Stream.Extend.{extend_recovers}
use rtpkit.Stream.Invariant.{IsConsistent}
use rtpkit.Stream.Isolation.{of_ssrc, follow, enlist_all, observe_all-follow}
use rtpkit.Stream.Order.{IsOrdered}
use rtpkit.Stream.Stats.{Describes}
use rtpkit.Stream.Reports.{
  Fits, observe_all-IsConsistent, stats-Describes, ordered_packets-IsOrdered,
}
use rtpkit.Stream.AllStats.{DescribesAll, all_stats-DescribesAll}

abbrev whole : Floats
whole = record {
  Float = ℤ;
  zero_float = pos 0;
  times_int = λ x n. x;
  minus_int = λ x n. x -ℤ pos n;
  plus = ◌+ℤ◌;
  minus = ◌-ℤ◌;
  abs_float = λ x. pos (abs_ℤ x);
  over_int = λ x n. pos (abs_ℤ x / n);
  ratio = λ m n. pos m;
}

abbrev packet_of : ℕ → ℕ → RtpPacket
packet_of ssrc seq = record {
  version = 2;
  padding = false;
  extension = false;
  marker = false;
  payload_type = 8;
  sequence_number = seq;
  timestamp = 0;
  ssrc = ssrc;
  csrc = [];
  header_extension = none;
  payload = [];
  padding_size = 0;
  raw = [];
}

abbrev arrival_of : ℕ → ℕ → Arrival ℤ
arrival_of ssrc seq = record {
  packet = packet_of ssrc seq;
  arrival_time = pos 0;
  clock_rate = default_clock_rate;
}

-- Of the numbers 9 to 12 the packet 11 is lost, and 10 came before 9.
abbrev early_packet : List (Arrival ℤ)
early_packet = arrival_of 7 10 ∷ arrival_of 7 9 ∷ arrival_of 7 12 ∷ []

-- The number 9 is counted as received, but not as expected: no loss is reported.
early_packet_hides_loss :
    stats whole (observe_all whole [] early_packet) 7
    ≡ ok
        (some (record {
          ssrc = 7;
          payload_type = 8;
          packet_count = 3;
          expected_count = pos 3;
          lost_count = 0;
          out_of_order_count = 1;
          duplicate_count = 0;
          first_extended_sequence = pos 10;
          highest_extended_sequence = pos 12;
          jitter = pos 0;
        }))
        []
unfolding stats snapshot observe_all observe State.observe extend update_jitter new_state
early_packet_hides_loss = refl

-- Of three packets two have a number below the highest; the second of them, a duplicate, is not counted as
-- out of order.
late_duplicate_uncounted :
    stats whole (observe_all whole [] (arrival_of 7 10 ∷ arrival_of 7 9 ∷ arrival_of 7 9 ∷ [])) 7
    ≡ ok
        (some (record {
          ssrc = 7;
          payload_type = 8;
          packet_count = 3;
          expected_count = pos 1;
          lost_count = 0;
          out_of_order_count = 1;
          duplicate_count = 1;
          first_extended_sequence = pos 10;
          highest_extended_sequence = pos 10;
          jitter = pos 0;
        }))
        []
unfolding stats snapshot observe_all observe State.observe extend update_jitter new_state
late_duplicate_uncounted = refl

rollover : extend (some (pos 65535)) 1 ≡ pos 65537
unfolding extend
rollover = refl

below_zero : extend (some (pos 1)) 65535 ≡ negsuc 0
unfolding extend
below_zero = refl

extend_recovers_example : extend (some (pos 65535)) (mod_ℤ (pos 65537) (2 ^ 16)) ≡ pos 65537
extend_recovers_example = extend_recovers (pos 65535) (pos 65537) (omega arith)

-- Two streams, a rollover, a duplicate.
abbrev arrivals : List (Arrival ℤ)
arrivals =
    arrival_of 7 65535 ∷ arrival_of 9 4 ∷ arrival_of 7 1 ∷ arrival_of 7 0 ∷ arrival_of 7 1 ∷ []

arrivals_fit : All (Fits whole) arrivals
arrivals_fit = (omega arith, (omega arith, (omega arith, (omega arith, (omega arith, tt)))))

abbrev state_7 : StreamState ℤ
state_7 =
    State.observe whole
      (State.observe whole
        (State.observe whole (State.observe whole (new_state whole 8) (arrival_of 7 65535))
          (arrival_of 7 1))
        (arrival_of 7 0))
      (arrival_of 7 1)

state_7_found : lookup 7 (observe_all whole [] arrivals) ≡ some state_7
state_7_found = (observe_all-follow whole arrivals).1 7

observe_all-follow_example :
    (ssrcs whole (observe_all whole [] arrivals)
      ≡ enlist_all [] (map (λ (a : Arrival ℤ). a.packet.ssrc) arrivals))
    × ((ssrc : ℕ)
        → lookup ssrc (observe_all whole [] arrivals)
          ≡ follow whole none (of_ssrc whole ssrc arrivals))
observe_all-follow_example = observe_all-follow whole arrivals

observe_all-IsConsistent_example : IsConsistent 7 state_7 × (state_7.packet_count ≡ 4)
observe_all-IsConsistent_example =
    observe_all-IsConsistent whole arrivals 7 state_7 arrivals_fit state_7_found

stats-Describes_example :
    (s : StreamState ℤ) × (r : RtpStreamStats ℤ) × (lookup 7 (observe_all whole [] arrivals)
      ≡ some s)
    × (stats whole (observe_all whole [] arrivals) 7 ≡ ok (some r) [])
    × (r.packet_count ≡ 4)
    × (r.first_extended_sequence ≡ pos 65535)
    × Describes 7 s r
stats-Describes_example =
    stats-Describes whole arrivals 7 (arrival_of 7 65535)
      (arrival_of 7 1 ∷ arrival_of 7 0 ∷ arrival_of 7 1 ∷ []) arrivals_fit refl

ordered_packets-IsOrdered_example :
    (ps : List RtpPacket) × (ordered_packets whole (observe_all whole [] arrivals) 7 ≡ ok ps [])
    × IsOrdered state_7.packets ps
ordered_packets-IsOrdered_example =
    ordered_packets-IsOrdered whole arrivals 7 state_7 arrivals_fit state_7_found

all_stats-DescribesAll_example :
    (reports : List (ℕ × RtpStreamStats ℤ)) × (all_stats whole (observe_all whole [] arrivals)
      ≡ ok reports [])
    × DescribesAll whole (observe_all whole [] arrivals) reports
all_stats-DescribesAll_example = all_stats-DescribesAll whole arrivals arrivals_fit
