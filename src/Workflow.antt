-- ===== src/Workflow.antt =====
-- Work items, their checklists and the closing of a case (backend/app/workflow.py).
pub mod Rows
pub mod Queries
pub mod Creation
pub mod Transition
pub mod Checklist
pub mod Closure
pub mod Review
pub mod Effects
pub mod Requests
pub mod Progress
pub mod Terminal
pub mod Agreement
pub mod Replay
pub mod Repeated
pub mod CaseWork
pub mod Settled
pub mod ClosedCases
mod Examples
