-- ===== src/Tests.antt =====
-- Concrete inputs, and what holds of them.
mod Samples
mod HackRuns
mod BoardRun
mod NavRuns
mod TreeRuns
mod LiveRuns
mod ControlSamples
mod ControlRuns
