-- ===== src/Store.antt =====
-- src/agent/store: what the agent knows of prices, its own (Local) and the chain's (Global).
pub mod Price
pub mod Local
pub mod Global
