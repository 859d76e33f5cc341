-- ===== src/LiveSync.antt =====
-- windows_agent/worker/live_sync.py: from the records of the MQL5 bridge and two snapshots to raw
-- events.
pub mod Symbols
pub mod Usable
pub mod Records
pub mod Replay
pub mod Windows
pub mod Volumes
pub mod Merge
pub mod Echo
pub mod Poll
