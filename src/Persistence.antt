-- ===== src/Persistence.antt =====
-- include/cget/persistence and src/persistence: the task files and what recovery makes of them.
pub mod Repair
pub mod Codec
pub mod Store
pub mod Recovery
