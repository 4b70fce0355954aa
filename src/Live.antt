-- ===== src/Live.antt =====
-- internal/live: the live terminal.
pub mod Effective
pub mod Presentation
pub mod Command
pub mod Runtime
pub mod Content
pub mod Legacy
pub mod Sound
pub mod Refused
pub mod Events
pub mod History
pub mod Selection
pub mod Shown
