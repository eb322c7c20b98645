-- ===== src/Replay.antt =====
-- core::ReplayRunner (src/core: replay.hpp, replay.cpp).
pub mod Compare
pub mod Runner
pub mod Comparing
pub mod Correct
pub mod Failing
pub mod Differing
