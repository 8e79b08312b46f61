-- ===== src/Cost.antt =====
-- The shared ledger of paid AI calls (backend/app/ai_control.py) and its client (backend/app/upstage.py).
pub mod Entry
pub mod Ledger
pub mod Settling
pub mod Calls
pub mod Rows
pub mod Budget
pub mod Closed
pub mod Settlement
pub mod Refund
pub mod Price
pub mod Unique
pub mod Chat
pub mod ChatSettled
pub mod Vectors
pub mod RoundTrip
mod Examples
