-- ===== src/Content.antt =====
-- packages/content-addressing/src: encodings of content identifiers, digests and block references.
pub mod Varint
pub mod Digest
pub mod BlockRef
