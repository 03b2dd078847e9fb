-- ===== src/Transfer.antt =====
-- File transfers between paired devices in src/main.rs: the transfer that waits, the request that
-- opens it, the decision of the user, and the uploads that complete it.
pub mod Model
pub mod Request
pub mod Decision
pub mod Upload
pub mod Life
pub mod Tests
mod LifeTests
