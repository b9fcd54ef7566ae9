-- ===== src/Lib.antt =====
-- Verification of limonitor, a monitor for LiFePO4 battery packs.
--
-- Packets of a battery's management system arrive over Bluetooth in pieces. A `Parser` of the JBD or the
-- LiTime protocol collects them and decodes a `BatterySnapshot`; a charger gives `PwrGateSnapshot`s. The
-- `DataStore` takes both: it keeps the latest ones in rings, detects radio transmissions, raises system
-- events, hands rows to the database in batches and tells the analytics and its observers. The
-- `TestRunner` reads the store and supervises battery tests. The store calls the `AnalyticsEngine`, which
-- counts energies and estimates trends, and the `AnalyticsExtensions`, which run the detectors and take
-- the present clouds from the `WeatherForecast`.
--
-- Files and the code they model (paths from the repository's root):
--   Battery          src/battery_data.hpp, src/pwrgate.hpp, src/tx_events.hpp, src/system_events.hpp
--   Battery/Decode   the readers of integers in src/jbd_protocol.cpp and src/litime_protocol.cpp, and what
--                    both decoders compute from cell voltages and current
--   Jbd              src/jbd_protocol.cpp: build_request, checksum, feed, try_parse; Jbd/Apply: apply
--   Litime           src/litime_protocol.cpp: build_request, parse, feed, apply
--   Store/Tx         src/data_store.cpp: run_tx_detection, process_tx_detection
--   Store/Events     src/data_store.cpp: push_system_event, process_system_events
--   Store/Buffer     src/data_store.cpp: maybe_flush_db, flush_db
--   Store/Discovery  src/data_store.cpp: upsert_discovered
--   Store/Update     src/data_store.cpp: update, update_pwrgate, the readers and the setters
--   Runner/Types     src/testing/types.cpp: names of tests, make_telemetry_sample
--   Runner/Steps     src/testing/runner.cpp: start_test; Runner/Steps/Supervise: on_telemetry_tick,
--                    stop_test, finish_test
--   Runner/Lifecycle src/testing/runner.cpp: the constructor, load_limits_from_db, active_stats
--   AnalyticsEngine  src/analytics.cpp and src/analytics.hpp: Rings (the ring buffers), Energy (the day's
--                    counters and archives), Load, Aging (update_health_and_age, discharge tracking),
--                    Stage (update_charging_stage), Regression (the trends), Extended (the blocks of
--                    compute_extended_analytics and compute_system_status), Handlers (on_battery,
--                    on_charger), Start (the constructor)
--   System           the data store with this engine as the one it calls
--   Runner/Schedule  src/testing/runner.cpp: check_scheduled_tests, compute_next_run
--   Analytics        src/analytics/health_score.cpp, src/analytics/anomaly_detection.cpp and
--                    src/analytics/resistance_estimator.cpp; Analytics/Solar
--                    src/analytics/solar_simulation.cpp; Analytics/Extensions
--                    src/analytics/extensions.cpp, which runs the detectors
--   Weather          src/analytics/weather_forecast.cpp: Parse (the answers; a text of n bytes takes n + 1
--                    turns), Week (the days), Forecast (the caches, the week, tomorrow and the clouds now),
--                    with the time zone, sscanf and the answers of the requests as arguments
--   Serial           src/serial_reader.cpp: prompts and read_loop; src/pwrgate.cpp: parse
--   Client           src/pwrgate_client.cpp: jval_d, jval_i, jval_s, parse_json
--   Ops              src/ops_util.cpp: escape_json_str
-- Modules below these hold the proofs, and modules named Examples runs at concrete inputs.
--
-- How the code is read:
--   * A `double` is a value of any type with the operations of the record `Double`, so the results hold
--     for IEEE arithmetic; what a result needs of the order is its hypothesis `IsOrdered`, which IEEE
--     comparisons satisfy with NaN too, and `IsConsistent`. Where a result is about sums without rounding, its hypothesis is `IsExact`, which
--     integers satisfy and IEEE doubles only approximate. `Fixed` is an instance that examples run on.
--   * Bytes are numbers below 256; unsigned integers wrap where they are written with `% 2 ^ w`, and `|`
--     of disjoint bytes is a sum.
--   * Time points are whole seconds, as the code compares them, and one call reads each clock once.
--   * An operation that runs under the object's mutex is one step from state to state, so interleavings
--     of threads are sequences of calls.
--   * `try_parse` calls itself on a shorter buffer: `Jbd.try_parse` takes fuel, and `feed` gives the
--     length of the buffer and one more.
--   * Rows that go to the database are kept in the state as values, in order.
--
-- Not modelled: SQLite and the SQL text (src/database.cpp), the HTTP server and the sockets of the
-- clients, the Bluetooth managers, the terminal interface, the logger and src/main.cpp, which are calls
-- of libraries and of the operating system; update_self_monitor of the analytics engine, which reads the
-- system's counters; the requests of src/analytics/weather_forecast.cpp, whose answers are arguments.
pub mod Common
pub mod Double
pub mod Battery
pub mod Jbd
pub mod Litime
pub mod Store
pub mod Runner
pub mod AnalyticsEngine
pub mod System
pub mod Weather
pub mod Client
pub mod Analytics
pub mod Serial
pub mod Ops
