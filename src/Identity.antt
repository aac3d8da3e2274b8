-- ===== src/Identity.antt =====
-- packages/identity: the log of events by which a controller governs its devices and capabilities.
pub mod ControlLog
