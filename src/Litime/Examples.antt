-- ===== src/Litime/Examples.antt =====
-- Runs of the LiTime decoder, and its theorems at concrete inputs.
use limonitor.Common.{◌≡◌, refl, [], ◌∷◌, arith}
use limonitor.Common.Int.{pos, negsuc}
use limonitor.Double.{fixed_double}
use limonitor.Battery.Samples.{blank}
use limonitor.Litime.{feed, apply, parse}
use limonitor.Litime.Stream.{apply-feed_stale}
use limonitor.Litime.Packet.{Reading, packet_of, le_words}
use limonitor.Litime.Decode.{parse-packet_of}

-- Four cells, discharging with 2.5 A.
abbrev sample : Reading
sample = record {
  voltage = 13204;
  cells = 3301 ∷ 3302 ∷ 3300 ∷ 3301 ∷ 0 ∷ 0 ∷ 0 ∷ 0 ∷ 0 ∷ 0 ∷ 0 ∷ 0 ∷ 0 ∷ 0 ∷ 0 ∷ 0 ∷ [];
  current = negsuc 2499;
  cell_temp = pos 21;
  bms_temp = negsuc 4;
  remaining = 8000;
  nominal = 10000;
  prot = 0;
  state = 0;
  soc = 80;
  cycles = 12;
}

apply-feed_stale_example :
    apply (feed (9 ∷ []) (record { buf = packet_of sample })).0 blank
    ≡ apply (record { buf = packet_of sample }) blank
apply-feed_stale_example =
    apply-feed_stale (9 ∷ []) (record { buf = packet_of sample }) blank
      (unfold packet_of le_words in omega arith)

parse-packet_of_example : (parse (packet_of sample) blank).1.current_a ≡ pos 2_500_000
parse-packet_of_example =
    (parse-packet_of sample blank refl (omega arith) (omega arith) (omega arith) (omega arith)).2
