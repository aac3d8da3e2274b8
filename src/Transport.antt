-- ===== src/Transport.antt =====
-- packages/trust-safety/src/transport-admission: the checks that a bridge runs on each envelope.
pub mod RateLimit
pub mod ReplayCache
pub mod Reputation
pub mod Modulation
pub mod Reports
pub mod UserBlock
pub mod Admission
