-- ===== src/Control.antt =====
-- internal/control/service.go: the coordinator of a broadcast.
pub mod Claims
pub mod Roster
pub mod Snapshots
pub mod Live
pub mod Commit
pub mod Requests
pub mod Answers
pub mod Characters
pub mod Assignment
pub mod Selection
pub mod Connections
pub mod Broadcast
pub mod Route
pub mod Terminals
pub mod Switch
pub mod Commands
pub mod Prepare
pub mod Outcomes
pub mod Actions
pub mod Navigation
pub mod Groups
pub mod Operations
pub mod Links
pub mod Ledger
