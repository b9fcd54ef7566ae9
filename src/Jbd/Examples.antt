-- ===== src/Jbd/Examples.antt =====
-- Runs of the JBD parser, and its theorems at concrete inputs.
use limonitor.Common.{ℕ, ◌≡◌, refl, List, [], ◌∷◌, ◌++◌, some, arith}
use limonitor.Common.Int.{negsuc}
use limonitor.Double.{fixed_double}
use limonitor.Battery.Samples.{blank}
use limonitor.Jbd.{
  Parser, ParseResult, need_more, complete, checksum, sum32, feed, try_parse, parse_once, pass_on,
  check_frame, skip_to_start,
}
use limonitor.Jbd.Frame.{frame}
use limonitor.Jbd.Stream.{feed_total, feed-append, feed-append_complete}
use limonitor.Jbd.Sound.{Explains, feed-Explains}
use limonitor.Jbd.Sound.Resync.{feed-frame}
use limonitor.Jbd.Apply.{apply_basic_info}
use limonitor.Jbd.Apply.Basic.{Reading, payload_of, apply_basic_info-payload_of}

abbrev empty : Parser
empty = record { buf = []; payload = []; last_cmd = 0 }

-- A stray byte, then the voltages of two cells, cut after the length byte.
abbrev first_part : List ℕ
first_part = 0x12 ∷ 0xDD ∷ 4 ∷ 0 ∷ 4 ∷ []

abbrev second_part : List ℕ
second_part = 0x0C ∷ 0xE4 ∷ 0x0C ∷ 0xE6 ∷ 0xFE ∷ 0x16 ∷ 0x77 ∷ []

abbrev waiting : Parser
waiting = record { buf = 0xDD ∷ 4 ∷ 0 ∷ 4 ∷ []; payload = []; last_cmd = 0 }

abbrev finished : Parser
finished = record { buf = []; payload = 0x0C ∷ 0xE4 ∷ 0x0C ∷ 0xE6 ∷ []; last_cmd = 4 }

waits : feed first_part empty ≡ some (waiting, need_more)
unfolding feed try_parse parse_once pass_on check_frame skip_to_start
waits = refl

finishes : feed second_part waiting ≡ some (finished, complete)
unfolding feed try_parse parse_once pass_on check_frame skip_to_start checksum sum32
finishes = refl

feed_total_example : (q : Parser) × (r : ParseResult) × (feed first_part empty ≡ some (q, r))
feed_total_example = feed_total first_part empty

feed-append_example : feed second_part waiting ≡ feed (first_part ++ second_part) empty
feed-append_example = feed-append first_part second_part empty waiting waits

feed-append_complete_example :
    feed (second_part ++ (1 ∷ [])) waiting ≡ some (record finished { buf = 1 ∷ [] }, complete)
feed-append_complete_example = feed-append_complete second_part (1 ∷ []) waiting finished finishes

feed-Explains_example : Explains (waiting.buf ++ second_part) waiting finished complete
feed-Explains_example =
    feed-Explains second_part waiting finished complete (omega arith) (omega arith) finishes

feed-frame_example :
    feed ((1 ∷ []) ++ (frame 3 0 (7 ∷ []) ++ (9 ∷ []))) empty
    ≡ some (record { buf = 9 ∷ []; payload = 7 ∷ []; last_cmd = 3 }, complete)
feed-frame_example = feed-frame empty (1 ∷ []) (9 ∷ []) (7 ∷ []) 3 0 tt (ground arith)

-- 13.2 V, charging with 1.5 A.
abbrev sample : Reading
sample = record {
  voltage = 1320;
  current = negsuc 149;
  remaining = 8000;
  nominal = 10000;
  cycles = 12;
  date = 0;
  balance_low = 0;
  balance_high = 0;
  prot = 0;
  version = 0x21;
  soc = 80;
  fets = 3;
  cells = 4;
  temperatures = 2981 ∷ 2985 ∷ [];
}

apply_basic_info-payload_of_example :
    (apply_basic_info (payload_of sample) blank).current_a ≡ negsuc 1499999
apply_basic_info-payload_of_example = (apply_basic_info-payload_of sample blank (omega arith)).1
