-- ===== src/Inspections.antt =====
-- Plans of inspections (backend/app/inspections.py, inspection_engine.py and inspection_views.py).
pub mod Rows
pub mod Candidates
pub mod Targets
pub mod Counts
pub mod Checked
pub mod Teams
pub mod Order
pub mod Runs
pub mod Calculated
pub mod Choice
pub mod Selection
pub mod Steps
pub mod Selectable
pub mod Completes
pub mod Stuck
mod Examples
