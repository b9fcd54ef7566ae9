-- ===== src/Analytics.antt =====
-- src/analytics: the components that judge what the battery does.
pub mod Health
pub mod Anomalies
pub mod Resistance
pub mod Solar
pub mod Extensions
mod Examples
