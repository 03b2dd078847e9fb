-- ===== src/Staging.antt =====
-- The aggregate staging budget and the guard on encrypted uploads of src/main.rs.
pub mod Budget
pub mod Uploads
mod Tests
