-- ===== src/Serial.antt =====
-- src/serial_reader.cpp, src/pwrgate.cpp: status lines of the charger on a serial port.
pub mod Lines
pub mod Gate
pub mod Reader
mod Examples
