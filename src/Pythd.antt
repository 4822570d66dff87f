-- ===== src/Pythd.antt =====
-- src/agent/pythd: the websocket API and the adapter between it and the stores.
pub mod Api
pub mod Status
pub mod Views
pub mod Adapter
pub mod Rpc
mod Examples
