-- ===== src/Io.antt =====
-- src/io: content hashes.
pub mod ContentHash
