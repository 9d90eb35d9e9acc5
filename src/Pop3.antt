-- ===== src/Pop3.antt =====
-- The POP3 side of the server.
pub mod Automaton
pub mod State
pub mod Files
pub mod Mail
pub mod Reply
pub mod Login
pub mod Actions
pub mod Retr
pub mod Quit
pub mod Commands
pub mod Session
mod Tests
