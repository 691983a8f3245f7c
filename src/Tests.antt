-- ===== src/Tests.antt =====
-- Runs of the models at concrete inputs.
mod Reports
mod Regions
mod Pools
mod Frames
mod Threads
mod Timers
mod Views
mod Commands
mod Sessions
mod Mailboxes
mod Tasks
mod Runs
mod Edges
mod Flow
