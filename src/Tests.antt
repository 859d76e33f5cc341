-- ===== src/Tests.antt =====
-- The theorems at concrete inputs, and runs of the definitions.
mod DetectorTests
mod SenderTests
mod OutboxTests
mod NormalizerTests
mod JobRunnerTests
mod ExcursionsTests
mod LiveSyncTests
mod PollTests
mod HistorySyncTests
mod HistoryArchiveTests
mod SupervisorTests
mod EventFilesTests
mod FileSnapshotTests
mod ApiClientTests
