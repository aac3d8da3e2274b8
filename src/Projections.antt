-- ===== src/Projections.antt =====
-- The projections of packages/*-projection: state machines over decrypted events.
pub mod Replay
pub mod Entries
pub mod Chat
pub mod Mailbox
pub mod Udr
pub mod Mls
