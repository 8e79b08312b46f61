-- ===== src/Auth.antt =====
-- Users sign in (backend/app/auth.py, backend/app/security.py and backend/app/api/auth.py).
pub mod Rows
pub mod Sessions
pub mod Login
pub mod Calls
pub mod Dead
pub mod Ended
pub mod LoggedOut
pub mod Counters
pub mod Locked
pub mod Counted
pub mod Guessing
mod Examples
