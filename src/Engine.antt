-- ===== src/Engine.antt =====
-- src/engine/download_engine.cpp: the metadata of a task, the download of a chunk with its attempts,
-- and the end of a download.
pub mod Metadata
pub mod Session
pub mod Retry
pub mod Finish
pub mod Single
