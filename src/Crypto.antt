-- ===== src/Crypto.antt =====
-- include/cget/crypto and src/crypto: the checksum of a file.
pub mod Words
pub mod Sha256
pub mod Streaming
pub mod Fips
pub mod Padding
pub mod Hex
