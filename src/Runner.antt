-- ===== src/Runner.antt =====
-- src/testing/types.cpp, src/testing/telemetry.cpp, src/testing/runner.cpp: the tests of the battery that
-- run under supervision. A time is in whole seconds since the epoch; a row id is what
-- `insert_test_run` returns, not positive when it fails. The calls that write to the database are kept in
-- order as values of `Write`, and the JSON text of a finished test as a value of `Metadata`.
pub mod Types
pub mod Steps
pub mod Lifecycle
pub mod Schedule
mod Examples
