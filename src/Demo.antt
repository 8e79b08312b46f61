-- ===== src/Demo.antt =====
-- The playback of demo scenarios (backend/app/demo/playback.py).
pub mod Rows
pub mod Commands
pub mod Resetting
pub mod Stepping
pub mod Calls
pub mod Sound
pub mod Effects
pub mod Rewinding
pub mod Counting
pub mod Serving
pub mod Replay
pub mod Repeated
pub mod Exhausted
pub mod Stuck
mod Examples
