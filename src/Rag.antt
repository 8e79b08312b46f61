-- ===== src/Rag.antt =====
-- The retrieval of evidence for a case (backend/app/rag_search.py).
pub mod Rows
pub mod Fusing
pub mod Selecting
pub mod Passes
pub mod Bounds
pub mod Complete
pub mod Bundles
pub mod Evidence
pub mod Distinct
pub mod Items
pub mod Storing
mod Examples
