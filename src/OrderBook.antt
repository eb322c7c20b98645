-- ===== src/OrderBook.antt =====
-- core::OrderBook (src/core): its state and operations, and below them what is proved of it.
pub mod Types
pub mod Emit
pub mod Levels
pub mod Validate
pub mod Match
pub mod Apply
pub mod Check
pub mod Index
pub mod Reorder
pub mod Invariant
pub mod Trading
pub mod Rules
pub mod Matching
pub mod Resting
pub mod Erasing
pub mod Preserve
pub mod Removal
pub mod Cancel
pub mod Replace
pub mod Accept
pub mod Accepts
pub mod Cases
pub mod Bounds
pub mod Fits
pub mod Handlers
pub mod Checked
pub mod Numbering
pub mod Priority
pub mod Refines
pub mod LevelRefines
pub mod Report
pub mod Conserves
pub mod LevelBounds
