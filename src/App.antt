-- ===== src/App.antt =====
-- The application (src/app): scenario text, the run and replay commands, and the dumps.
pub mod Text
pub mod EventDump
pub mod Scenario
pub mod Layout
pub mod Storage
pub mod Reading
pub mod Dumps
pub mod Written
pub mod Run
pub mod Replayed
pub mod Loaded
pub mod Refused
pub mod Main
pub mod EndToEnd
pub mod Finishing
pub mod Ending
pub mod DumpedBook
pub mod Numerals
pub mod Splitting
pub mod Rendered
pub mod Rendering
