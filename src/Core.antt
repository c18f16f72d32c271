-- ===== src/Core.antt =====
-- include/cget/core and src/core: the task model, the state table, the error codes, the chunk
-- planner and the download manager.
pub mod Types
pub mod TaskState
pub mod Errors
pub mod ChunkPlanner
