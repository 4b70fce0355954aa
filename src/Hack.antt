-- ===== src/Hack.antt =====
-- internal/hack: the hacking game.
pub mod Random
pub mod Scan
pub mod PatternId
pub mod Builder
pub mod Spans
pub mod Finish
pub mod Vocabulary
pub mod WordBank
pub mod Attempt
pub mod Play
pub mod Game
pub mod Camouflage
pub mod Generate
pub mod Board
pub mod Effects
