-- ===== src/Pairing.antt =====
-- Paired peers of src/rendezvous.rs: the records, the file that keeps them, local consent, remote
-- completion. `Model` has the data and the small functions, `Ops` the operations on the file.
pub mod Model
pub mod Ops
pub mod ConstantTime
pub mod Attempt
pub mod Store
pub mod Complete
pub mod Lockout
pub mod Distinct
pub mod Outcomes
pub mod Invariant
pub mod Reachable
pub mod Auth
pub mod RoundTrip
pub mod Codes
pub mod Sample
mod Tests
