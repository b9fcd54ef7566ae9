-- ===== src/Store.antt =====
-- src/data_store.cpp: the parts of the `DataStore`, each with its own state.
pub mod Tx
pub mod Events
pub mod Buffer
pub mod Update
pub mod Discovery
mod Examples
