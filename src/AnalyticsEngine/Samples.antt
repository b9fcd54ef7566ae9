-- ===== src/AnalyticsEngine/Samples.antt =====
-- A host for examples.
use limonitor.Common.{◌/◌, ◌%◌}
use limonitor.Common.Int.{pos, pos_part, quot_ℕ}
use limonitor.Double.{Fixed, scale}
use limonitor.AnalyticsEngine.{Host}

-- A host in the zone of the epoch.
instance abbrev pub utc : Host Fixed
utc = record {
  localtime = λ t. record {
    tm_year = pos 126;
    tm_yday = pos (pos_part t / scale / 86400);
    tm_hour = pos (pos_part t / scale % 86400 / 3600);
  };
  mktime = λ y m day. pos 0;
  floor = λ x. x;
  ceil = λ x. x;
  to_int = λ x. quot_ℕ x scale;
}
