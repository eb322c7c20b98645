-- ===== src/Tests.antt =====
-- The theorems at concrete inputs.
mod Books
mod Logs
mod Effects
mod Segments
mod Feeds
mod Values
mod Apps
mod Scenarios
