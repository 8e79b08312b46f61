-- ===== src/Automation.antt =====
-- Signals become cases (backend/app/automation/).
pub mod Rules
pub mod Status
mod Examples
