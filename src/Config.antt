-- ===== src/Config.antt =====
-- The configuration service: requests over UDP that read and change the configuration.
pub mod Automaton
pub mod State
pub mod Texts
pub mod Commands
pub mod Requests
mod Tests
