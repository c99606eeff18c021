-- ===== src/Database.antt =====
-- The database access of `src/ai/db_access.py`.
pub mod Bind
pub mod Cells
pub mod Rows
pub mod Connection
pub mod Queries
