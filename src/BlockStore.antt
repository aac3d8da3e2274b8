-- ===== src/BlockStore.antt =====
-- packages/block-store/src: fetching blocks from unreliable providers.
pub mod Health
pub mod Errors
pub mod Backoff
pub mod Decode
pub mod Fetch
pub mod Memory
