-- ===== src/Startup.antt =====
-- How the program starts: the configuration, the tasks, and the channels that join them, from
-- src/bin/agent.rs down to the spawn functions of the components.
pub mod Config
pub mod Tasks
pub mod Network
pub mod Program
pub mod Main
pub mod Parts
pub mod Conditions
pub mod Ends
pub mod Wiring
pub mod Failure
mod Examples
